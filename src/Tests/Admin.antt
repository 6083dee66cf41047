-- ===== src/Tests/Admin.antt =====
-- The admin API, the sidecar and the listeners: pkg/relay.
use atlax.Base.{
  ltb, ◌==◌, ◌≡◌, ◌⊎◌, refl, ℕ, Bytes, bytes_eq, true, Bool, List, [], ◌∷◌, Option, some, none,
  arith, bytes_eq_inst, int_eq,
}
use atlax.Base.Int.{ℤ, pos}
use atlax.Base.Map.{Map, lookup, insert}
use atlax.Config.{RelayConfig, PortIndexEntry, all_interfaces}
use atlax.Relay.Registry.{new_memory_registry, register}
use atlax.Relay.Router.{PortEntry, get_port, list_ports}
use atlax.Relay.Router.Ports.{owner}
use atlax.Relay.Listeners
use atlax.Relay.Listeners.{
  new_client_listener, set_rate_limiter, sets_rate_limiter, starts_port, stops_port, stops,
}
use atlax.Relay.Store.{
  File, missing, SidecarData, sidecar_data, sidecar_version, load, merge_loaded,
}
use atlax.Relay.Store.Merge.{or_else}
use atlax.Relay.Store.Restart.{Usable}
use atlax.Relay.Requests.{PortCreateRequest, PortUpdateRequest, validate_create}
use atlax.Relay.Admin.{
  AdminServer, ResourceRequest, on_ports, on_port, deletes_agent, post, put, delete, listens, fails,
  create_port, update_port, serve,
}
use atlax.Relay.Admin.Mapped.{AllMapped}
use atlax.Relay.Admin.Updates.{Refused, Updated, update_port-cases, create_port-replaces}
use atlax.Relay.Admin.Calls.{AdminState, AdminCall, resource, reloads, call_all, call_all-owner}
use atlax.Relay.Reload.{index_ports}
use atlax.Relay.Server.{Relay, customers, start}
use atlax.Relay.Server.Started.{as_mapped, resumed, start-served}
use atlax.Relay.Reports.{AgentInfo}

abbrev alice : Bytes
alice = 97 ∷ []

abbrev bob : Bytes
bob = 98 ∷ []

abbrev web : Bytes
web = 119 ∷ []

abbrev is_ip : Bytes → Bool
is_ip s = bytes_eq s all_interfaces

abbrev limiter_calls : List Listeners.Call
limiter_calls = sets_rate_limiter alice true ∷ starts_port (some 7) (pos 80) ∷ []

abbrev to_web : PortCreateRequest
to_web = record {
  port = pos 80;
  customer_id = bob;
  service = web;
  max_streams = pos 3;
  listen_addr = [];
}

abbrev of_alice : PortEntry
of_alice = record {
  customer_id = alice;
  service = web;
  max_streams = pos 0;
  listen_addr = all_interfaces;
}

abbrev start_state : AdminServer
start_state = record {
  router = record { port_map = (pos 80, of_alice) ∷ [] };
  client_listener = new_client_listener;
  registry = new_memory_registry;
  store = some missing;
  audits = some [];
}

abbrev marshal : SidecarData → Bytes
marshal d = []

create_port-replaces_example :
    get_port (create_port marshal is_ip start_state fails true (some to_web)).0.router (pos 80)
    ≡ none
unfolding validate_create bytes_eq
create_port-replaces_example =
    create_port-replaces marshal is_ip start_state fails true to_web (pos 80) refl

abbrev to_ssh : PortUpdateRequest
to_ssh = record { service = 115 ∷ 115 ∷ 104 ∷ []; max_streams = some (pos 9); listen_addr = [] }

update_port-cases_example :
    Refused marshal is_ip start_state
      (update_port marshal is_ip start_state true (pos 80) (some to_ssh))
    ⊎ Updated marshal is_ip start_state
        (pos 80)
        (some to_ssh)
        (update_port marshal is_ip start_state true (pos 80) (some to_ssh))
update_port-cases_example = update_port-cases marshal is_ip start_state true (pos 80) (some to_ssh)

abbrev requests : List ResourceRequest
requests =
    on_port put (some (pos 80)) (some to_ssh) true
    ∷ on_ports post (some (record to_web { port = pos 81 })) (listens 4) true
    ∷ on_port delete (some (pos 81)) none true
    ∷ deletes_agent alice
    ∷ []

-- A configuration that gives the port 81 to somebody else, and does not list the port 80.
abbrev other_ports : RelayConfig ℕ
other_ports = record {
  listen_addr = [];
  agent_listen_addr = [];
  tls = record { cert_file = []; key_file = []; ca_file = []; client_ca_file = [] };
  customers =
      record {
        id = 98 ∷ [];
        ports =
            record { port = pos 81; service = 119 ∷ []; description = []; listen_addr = [] } ∷ [];
        max_connections = pos 1;
        max_streams = pos 0;
        max_bandwidth_mbps = pos 0;
        rate_limit = 0;
      }
      ∷ [];
  logging_level = [];
}

abbrev with_config : AdminState ℕ
with_config = record { server = start_state; current = none; has_config_path = true }

abbrev calls : List (AdminCall ℕ)
calls =
    resource (on_port put (some (pos 80)) (some to_ssh) true)
    ∷ resource (on_ports post (some (record to_web { port = pos 81 })) (listens 4) true)
    ∷ reloads post (λ p. true) true (some other_ports)
    ∷ resource (deletes_agent alice)
    ∷ []

call_all-owner_example :
    owner (get_port (call_all ◌==◌ (ltb 0) marshal is_ip with_config calls).server.router (pos 80))
    ≡ some alice
unfolding lookup get_port index_ports insert
call_all-owner_example =
    call_all-owner ◌==◌ (ltb 0) marshal is_ip with_config calls (pos 80) alice
      (refl, (refl, (refl, (refl, tt)))) refl

only_alice :
    (p : ℤ) (e : PortEntry) → lookup p start_state.router.port_map ≡ some e → Usable is_ip p e
unfolding lookup bytes_eq
only_alice p e l = ground (arith, l)

start_state-AllMapped : AllMapped is_ip start_state.router
unfolding lookup bytes_eq
start_state-AllMapped = record { unique = (refl, tt); usable = λ p e l. only_alice p e l }

abbrev posted : ResourceRequest
posted = on_ports post (some to_web) (listens 4) true

abbrev after_post : SidecarData
after_post = sidecar_data (list_ports (serve marshal is_ip start_state posted).0.router)

abbrev unmarshal : Bytes → Option SidecarData
unmarshal b = some after_post

abbrev no_yaml : Map ℤ (PortIndexEntry ℕ)
no_yaml = []

abbrev fresh : Relay
fresh = record {
  router = record { port_map = [] };
  client_listener = new_client_listener;
  registry = new_memory_registry;
}

start-served_example :
    (f : File) × ((serve marshal is_ip start_state posted).0.store ≡ some f)
    × (get_port
          (start (λ p. none) fresh (merge_loaded is_ip 0 no_yaml (load unmarshal f))).router
          (pos 80)
        ≡ or_else
            (as_mapped (lookup (pos 80) no_yaml))
            (resumed (get_port (serve marshal is_ip start_state posted).0.router (pos 80))))
unfolding serve bytes_eq create_port
start-served_example =
    start-served marshal unmarshal is_ip 0 start_state missing posted (λ p. none) fresh no_yaml
      (pos 80) refl start_state-AllMapped refl refl refl refl tt refl

abbrev busy : Relay
busy = record fresh {
  client_listener = Listeners.run new_client_listener limiter_calls;
  registry = register new_memory_registry alice 4;
}

-- What a list taken before bob's agent connected holds.
abbrev alice_alone : List AgentInfo
alice_alone =
    record {
      customer_id = alice;
      remote_addr = [];
      connected_at = 0;
      last_seen = 0;
      stream_count = 0;
      services = [];
      cert_not_after = 0;
    }
    ∷ []

abbrev two_entries : SidecarData
two_entries = record {
  version = sidecar_version;
  ports =
      record {
        port = pos 0;
        customer_id = bob;
        service = web;
        listen_addr = [];
        max_streams = pos 1;
      }
      ∷ record {
        port = pos 80;
        customer_id = bob;
        service = web;
        listen_addr = [];
        max_streams = pos 1;
      }
      ∷ record {
        port = pos 80;
        customer_id = alice;
        service = web;
        listen_addr = [];
        max_streams = pos 2;
      }
      ∷ [];
}

abbrev owner_of : Option (PortIndexEntry ℕ) → Option Bytes
owner_of none = none
owner_of (some e) = some e.customer_id

-- The sidecar's first entry for port 80 that can be used is Bob's.
merged_is_bob :
    owner_of (lookup (pos 80) (merge_loaded is_ip 0 no_yaml (some two_entries))) ≡ some bob
unfolding merge_loaded bytes_eq lookup insert
merged_is_bob = refl
