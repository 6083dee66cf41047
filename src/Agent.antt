-- ===== src/Agent.antt =====
-- pkg/agent/tunnel_impl.go: which local service a stream from the relay is forwarded to.
pub mod Targets
pub mod Forwarder
pub mod Services
pub mod Client
pub mod Runner
use atlax.Base.{ℕ, Bytes, bytes_eq_inst, Bool, List, [], ◌∷◌, Option, none, some}
use atlax.Base.Map.{Map, lookup}

-- The services of the agent, by name; `""` is no target.
unfoldable pub sole_service : Map Bytes Bytes → Bytes
sole_service [] = []
sole_service ((name, addr) ∷ []) = addr
sole_service (s ∷ s' ∷ services) = []

unfoldable pub found_or_sole : Map Bytes Bytes → Option Bytes → Bytes
unfolding sole_service
found_or_sole services (some addr) = addr
found_or_sole services none = sole_service services

-- The payload is that of the stream's STREAM_OPEN.
unfoldable pub resolve_target : Map Bytes Bytes → Bytes → Bytes
unfolding found_or_sole
resolve_target services [] = sole_service services
resolve_target services (b ∷ payload) = found_or_sole services (lookup (b ∷ payload) services)
