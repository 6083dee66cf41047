-- ===== src/Agent/Services.antt =====
-- The services of an agent: what cmd/agent/main.go takes from the configuration, Connect of
-- pkg/agent/client_impl.go announces, and NewTunnel of tunnel_impl.go maps to addresses; and how
-- handleConnection of pkg/relay/listener.go takes the announcement up.
pub mod Announced
use atlax.Base.{
  ℕ, Bytes, bytes_eq_inst, Bool, true, false, List, [], ◌∷◌, Option, none, some, if◌then◌else◌,
}
use atlax.Base.Int.{ℤ}
use atlax.Base.Map.{Map, insert}
use atlax.Protocol.Mux.Session.{MuxSession}
use atlax.Protocol.Mux.ServiceList.{
  SendResult, sent, name_has_newline, payload_too_large, send_service_list, is_empty,
}
use atlax.Relay.Reports.{LiveConnection, set_services}

pub record ServiceMapping : Type 0 where
  pub name : Bytes
  pub protocol : Bytes
  pub local_addr : Bytes
  pub relay_port : ℤ

-- The names to announce: a service without a name is skipped.
unfoldable pub service_names : List ServiceMapping → List Bytes
service_names [] = []
service_names (s ∷ services) =
    if is_empty s.name then service_names services else s.name ∷ service_names services

-- A failed send is logged, and an empty list is not sent.
after_send : MuxSession → SendResult → MuxSession
after_send m (sent m') = m'
after_send m name_has_newline = m
after_send m payload_too_large = m

unfoldable pub announce : MuxSession → List Bytes → MuxSession
unfolding after_send
announce m [] = m
announce m (name ∷ names) = after_send m (send_service_list m (name ∷ names))

-- `svcMap`: of two services of one name the later one stays.
unfoldable pub add_services : Map Bytes Bytes → List ServiceMapping → Map Bytes Bytes
add_services m [] = m
add_services m (s ∷ services) = add_services (insert s.name s.local_addr m) services

unfoldable pub service_map : List ServiceMapping → Map Bytes Bytes
unfolding add_services
service_map services = add_services [] services

-- `handleConnection` waits a while for the list. The flag tells whether the timer fired first.
take_list : MuxSession → LiveConnection → Option (List Bytes) → MuxSession × LiveConnection
take_list m live none = (m, live)
take_list m live (some services) = (record m { service_list_ch = none }, set_services live services)

unfoldable pub await_services : MuxSession → LiveConnection → Bool → MuxSession × LiveConnection
unfolding take_list
await_services m live timed_out =
    if timed_out then (m, live) else take_list m live m.service_list_ch
