-- ===== src/Relay/Router.antt =====
-- pkg/relay/router_impl.go and the handler of pkg/relay/client_listener.go: from a port to a stream on
-- the agent of the customer that owns the port.
pub mod Copies
pub mod Ports
pub mod Isolation
use atlax.Base.{
  ℕ, Bytes, bytes_eq_inst, bytes_eq, int_eq, Bool, true, false, ◌&&◌, List, [], ◌∷◌, Option, none,
  some, if◌then◌else◌,
}
use atlax.Base.Int.{ℤ, pos, leb_ℤ, ltb_ℤ}
use atlax.Base.Map.{Map, lookup, insert, delete}
use atlax.Protocol.Mux.Session.{MuxSession, Opening, open_stream_with_payload, num_streams}
use atlax.Relay.Registry.{MemoryRegistry, lookup_agent}

pub record PortEntry : Type 0 where
  pub customer_id : Bytes
  pub service : Bytes
  pub max_streams : ℤ
  pub listen_addr : Bytes

pub record PortRouter : Type 0 where
  pub port_map : Map ℤ PortEntry

unfoldable pub add_port_mapping : PortRouter → Bytes → ℤ → Bytes → Bytes → ℤ → PortRouter
add_port_mapping r customer_id port service listen_addr max_streams = record {
  port_map =
      insert port
        (record {
          customer_id = customer_id;
          service = service;
          max_streams = max_streams;
          listen_addr = listen_addr;
        })
        r.port_map;
}

-- `GetPort`, without the port that the caller knows.
unfoldable pub get_port : PortRouter → ℤ → Option PortEntry
get_port r port = lookup port r.port_map

-- `ListPorts`: the map's entries, in no order that a caller could rely on.
pub record PortInfo : Type 0 where
  pub port : ℤ
  pub customer_id : Bytes
  pub service : Bytes
  pub max_streams : ℤ
  pub listen_addr : Bytes

abbrev pub port_info : ℤ → PortEntry → PortInfo
port_info port entry = record {
  port = port;
  customer_id = entry.customer_id;
  service = entry.service;
  max_streams = entry.max_streams;
  listen_addr = entry.listen_addr;
}

abbrev pub list_entries : Map ℤ PortEntry → List PortInfo
list_entries [] = []
list_entries ((port, entry) ∷ m) = port_info port entry ∷ list_entries m

abbrev pub list_ports : PortRouter → List PortInfo
list_ports r = list_entries r.port_map

-- `UpdatePortMapping`; `none` is ErrPortNotFound.
unfoldable pub update_entry :
    PortRouter → ℤ → Bytes → Bytes → ℤ → Option PortEntry → Option PortRouter
update_entry r port service listen_addr max_streams none = none
update_entry r port service listen_addr max_streams (some entry) = some (record {
  port_map =
      insert port
        (record {
          customer_id = entry.customer_id;
          service = service;
          max_streams = max_streams;
          listen_addr = listen_addr;
        })
        r.port_map;
})

unfoldable pub update_port_mapping : PortRouter → ℤ → Bytes → Bytes → ℤ → Option PortRouter
unfolding update_entry
update_port_mapping r port service listen_addr max_streams =
    update_entry r port service listen_addr max_streams (lookup port r.port_map)

-- `RemovePortMapping`; `none` is the error for a port that is not mapped to this customer.
unfoldable pub remove_entry : PortRouter → Bytes → ℤ → Option PortEntry → Option PortRouter
remove_entry r customer_id port none = none
remove_entry r customer_id port (some entry) =
    if bytes_eq entry.customer_id customer_id
    then some (record { port_map = delete port r.port_map })
    else none

unfoldable pub remove_port_mapping : PortRouter → Bytes → ℤ → Option PortRouter
unfolding remove_entry
remove_port_mapping r customer_id port = remove_entry r customer_id port (lookup port r.port_map)

-- `LookupPort`
unfoldable pub owner_and_service : Option PortEntry → Option (Bytes × Bytes)
owner_and_service none = none
owner_and_service (some entry) = some (entry.customer_id, entry.service)

unfoldable pub lookup_port : PortRouter → ℤ → Option (Bytes × Bytes)
unfolding owner_and_service
lookup_port r port = owner_and_service (lookup port r.port_map)

-- `Route` up to the call that opens the stream. A port that is not mapped has no service and no limit.
abbrev pub service_of : Option PortEntry → Bytes
service_of none = []
service_of (some entry) = entry.service

abbrev pub max_streams_of : Option PortEntry → ℤ
max_streams_of none = pos 0
max_streams_of (some entry) = entry.max_streams

pub data Routed : Type 0 where
  agent_not_found : Routed
  stream_limit_exceeded : Routed
  opens : ℕ → Opening → Routed

-- The streams are counted and the new one is opened under two locks, and other clients may open theirs
-- in between: `counted` are the sessions at the first, `muxes` at the second.
unfoldable pub route_to : (ℕ → MuxSession) → (ℕ → MuxSession) → Option PortEntry → Option ℕ → Routed
unfolding open_stream_with_payload num_streams
route_to counted muxes entry none = agent_not_found
route_to counted muxes entry (some conn) =
    if ltb_ℤ (pos 0) (max_streams_of entry)
      && leb_ℤ (max_streams_of entry) (pos (num_streams (counted conn)))
    then stream_limit_exceeded
    else opens conn (open_stream_with_payload (muxes conn) (service_of entry))

unfoldable pub route :
    PortRouter → MemoryRegistry → (ℕ → MuxSession) → (ℕ → MuxSession) → Bytes → ℤ → Routed
unfolding route_to lookup_agent
route r registry counted muxes customer_id port =
    route_to counted muxes (lookup port r.port_map) (lookup_agent registry customer_id)

-- `handleClient`: the router is read twice, `before` by `LookupPort` and `now` by `Route`, and other
-- calls may come in between. `allowed` is the answer of the customer's rate limiter, if it has one.
pub data Handled : Type 0 where
  no_mapping : Handled
  rate_limited : Handled
  routed : Routed → Handled

unfoldable pub admit :
    PortRouter
    → MemoryRegistry
    → (ℕ → MuxSession)
    → (ℕ → MuxSession)
    → (Bytes → Bool)
    → ℤ
    → Option (Bytes × Bytes)
    → Handled
unfolding route
admit now registry counted muxes allowed port none = no_mapping
admit now registry counted muxes allowed port (some (customer_id, service)) =
    if allowed customer_id
    then routed (route now registry counted muxes customer_id port)
    else rate_limited

unfoldable pub handle_client :
    PortRouter
    → PortRouter
    → MemoryRegistry
    → (ℕ → MuxSession)
    → (ℕ → MuxSession)
    → (Bytes → Bool)
    → ℤ
    → Handled
unfolding admit lookup_port
handle_client before now registry counted muxes allowed port =
    admit now registry counted muxes allowed port (lookup_port before port)

-- The calls that change the router, in the order in which its mutex lets them through.
pub data Call : Type 0 where
  adds : Bytes → ℤ → Bytes → Bytes → ℤ → Call
  updates : ℤ → Bytes → Bytes → ℤ → Call
  removes : Bytes → ℤ → Call

abbrev pub or_same : PortRouter → Option PortRouter → PortRouter
or_same r none = r
or_same r (some r') = r'

unfoldable pub step : PortRouter → Call → PortRouter
step r (adds c p s a n) = add_port_mapping r c p s a n
step r (updates p s a n) = or_same r (update_port_mapping r p s a n)
step r (removes c p) = or_same r (remove_port_mapping r c p)

unfoldable pub run : PortRouter → List Call → PortRouter
unfolding step
run r [] = r
run r (c ∷ cs) = run (step r c) cs
