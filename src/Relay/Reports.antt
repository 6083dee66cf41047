-- ===== src/Relay/Reports.antt =====
-- What the relay says of its agents: pkg/relay/connection.go, ListConnectedAgents of registry_impl.go, and
-- the reports of admin.go and admin_status.go.
-- A time is a number, 0 for the zero value. `ListConnectedAgents` ranges over a Go map, whose order is
-- open: the order is an argument. The registry never fails to list, so the branches for an error of it
-- are out of reach.
pub mod Orders
pub mod Registering
pub mod Found
use atlax.Base.{
  ℕ, ◌+◌, ◌-◌, ◌*◌, ◌/◌, ◌^◌, leb, Bytes, bytes_eq, Bool, true, false, not, List, [], ◌∷◌, Option,
  none, some, ◌==◌, length, map, if◌then◌else◌,
}
use atlax.Base.Int.{ℤ, pos, ◌-ℤ◌}
use atlax.Base.Map.{Map}
use atlax.Protocol.Mux.Session.{MuxSession, num_streams}

pub record LiveConnection : Type 0 where
  pub customer_id : Bytes
  pub mux : MuxSession
  pub remote_addr : Bytes
  pub connected_at : ℕ
  pub last_seen : ℕ
  pub services : List Bytes
  pub cert_not_after : ℕ

unfoldable pub new_live_connection : Bytes → MuxSession → Bytes → ℕ → LiveConnection
new_live_connection customer_id mux remote_addr now = record {
  customer_id = customer_id;
  mux = mux;
  remote_addr = remote_addr;
  connected_at = now;
  last_seen = now;
  services = [];
  cert_not_after = 0;
}

unfoldable pub update_last_seen : LiveConnection → ℕ → LiveConnection
update_last_seen c now = record c { last_seen = now }

unfoldable pub set_services : LiveConnection → List Bytes → LiveConnection
set_services c services = record c { services = services }

unfoldable pub set_cert_not_after : LiveConnection → ℕ → LiveConnection
set_cert_not_after c t = record c { cert_not_after = t }

pub record AgentInfo : Type 0 where
  pub customer_id : Bytes
  pub remote_addr : Bytes
  pub connected_at : ℕ
  pub last_seen : ℕ
  pub stream_count : ℕ
  pub services : List Bytes
  pub cert_not_after : ℕ

unfoldable pub agent_info : LiveConnection → AgentInfo
agent_info c = record {
  customer_id = c.customer_id;
  remote_addr = c.remote_addr;
  connected_at = c.connected_at;
  last_seen = c.last_seen;
  stream_count = num_streams c.mux;
  services = c.services;
  cert_not_after = c.cert_not_after;
}

-- The connections by their numbers, and the entries of the map in the order in which they come.
unfoldable pub list_connected_agents : (ℕ → LiveConnection) → Map Bytes ℕ → List AgentInfo
unfolding agent_info
list_connected_agents live [] = []
list_connected_agents live ((customer_id, conn) ∷ rest) =
    agent_info (live conn) ∷ list_connected_agents live rest

unfoldable pub total_streams : List AgentInfo → ℕ
total_streams [] = 0
total_streams (ag ∷ agents) = ag.stream_count + total_streams agents

pub record HealthResponse : Type 0 where
  pub agents : ℕ
  pub streams : ℕ

-- GET /healthz, whatever the method.
unfoldable pub handle_health : List AgentInfo → HealthResponse
unfolding total_streams
handle_health agents = record { agents = length agents; streams = total_streams agents }

-- The answers of the reports that are for GET alone.
pub data Answer (A : Type 0) : Type 0 where
  answered : A → Answer A
  method_not_allowed not_found : Answer A

pub record StatsResponse : Type 0 where
  pub uptime : ℕ
  pub agents : ℕ
  pub streams : ℕ

unfoldable pub handle_stats : Bool → ℕ → ℕ → List AgentInfo → Answer StatsResponse
unfolding total_streams
handle_stats is_get start_time now agents =
    if is_get
    then answered (record {
      uptime = now - start_time;
      agents = length agents;
      streams = total_streams agents;
    })
    else method_not_allowed

-- `ExpiresAt` is the time itself; `DaysLeft` counts whole days and is negative after the expiry.
pub record CertExpiry : Type 0 where
  pub name : Bytes
  pub expires_at : ℕ
  pub days_left : ℤ

abbrev day : ℕ
day = 24 * 3600 * 10 ^ 9

-- `int(t.Sub(now).Hours() / 24)`, which cuts off towards zero.
unfoldable pub days_left : ℕ → ℕ → ℤ
days_left t now = if leb now t then pos ((t - now) / day) else pos 0 -ℤ pos ((now - t) / day)

unfoldable pub cert_expiry : Bytes → ℕ → ℕ → CertExpiry
unfolding days_left
cert_expiry name not_after now = record {
  name = name;
  expires_at = not_after;
  days_left = days_left not_after now;
}

-- An agent without a date is left out.
unfoldable pub collect_agent_certs : ℕ → List AgentInfo → List CertExpiry
unfolding cert_expiry
collect_agent_certs now [] = []
collect_agent_certs now (ag ∷ agents) =
    if ag.cert_not_after == 0
    then collect_agent_certs now agents
    else cert_expiry ag.customer_id ag.cert_not_after now ∷ collect_agent_certs now agents

-- The files are read and parsed by third-party code: `not_after` gives the date of a path, or nothing.
-- A file without one is left out.
unfoldable pub collect_relay_certs : (Bytes → Option ℕ) → ℕ → List (Bytes × Bytes) → List CertExpiry
unfolding cert_expiry
collect_relay_certs not_after now [] = []
collect_relay_certs not_after now ((name, path) ∷ rest) = elim (not_after path) [
  | none ↦ collect_relay_certs not_after now rest
  | some t ↦ cert_expiry name t now ∷ collect_relay_certs not_after now rest
]

pub record StatusResponse : Type 0 where
  pub uptime : ℕ
  pub agents_connected : ℕ
  pub streams_active : ℕ
  pub ports_active : ℕ
  pub config_version : Bytes
  pub relay_certs : List CertExpiry
  pub agent_certs : List CertExpiry

-- `ports` is the number of ports that the router lists.
unfoldable pub handle_status :
    Bool
    → ℕ
    → ℕ
    → ℕ
    → Bytes
    → (Bytes → Option ℕ)
    → List (Bytes × Bytes)
    → List AgentInfo
    → Answer StatusResponse
unfolding total_streams collect_agent_certs collect_relay_certs
handle_status is_get start_time now ports config_version not_after cert_paths agents =
    if is_get
    then answered (record {
      uptime = now - start_time;
      agents_connected = length agents;
      streams_active = total_streams agents;
      ports_active = ports;
      config_version = config_version;
      relay_certs = collect_relay_certs not_after now cert_paths;
      agent_certs = collect_agent_certs now agents;
    })
    else method_not_allowed

unfoldable pub handle_agents : Bool → List AgentInfo → Answer (List AgentInfo)
handle_agents is_get agents = if is_get then answered agents else method_not_allowed

unfoldable pub get_agent : List AgentInfo → Bytes → Answer AgentInfo
get_agent [] customer_id = not_found
get_agent (ag ∷ agents) customer_id =
    if bytes_eq ag.customer_id customer_id then answered ag else get_agent agents customer_id
