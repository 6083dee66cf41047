-- ===== src/Tests.antt =====
-- The theorems at concrete inputs, and runs of the definitions that can be followed in the source.
mod Wire
mod Streams
mod Session
mod Transfer
mod Limits
mod Copying
mod Tenancy
mod Settings
mod Admin
mod Agents
mod Reports
mod Services
mod Audit
mod Certificates
