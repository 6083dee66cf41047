-- ===== src/Relay.antt =====
-- pkg/relay: the side that clients and agents connect to.
pub mod Registry
pub mod Router
pub mod Reload
pub mod RateLimit
pub mod Reports
pub mod Listeners
pub mod Store
pub mod Requests
pub mod Admin
pub mod Agents
pub mod Server
