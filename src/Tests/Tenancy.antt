-- ===== src/Tests/Tenancy.antt =====
-- The relay's registry, router and reload: pkg/relay.
use atlax.Base.{
  ◌≡◌, ◌==◌, ltb, none, refl, inr, ℕ, Bytes, bytes_eq, true, List, [], ◌∷◌, some, arith,
  bytes_eq_inst, int_eq,
}
use atlax.Base.Int.{ℤ, pos}
use atlax.Base.Map.{Map, lookup, insert}
use atlax.Config.{PortIndexEntry, CustomerConfig, RelayConfig, build_port_index, all_interfaces}
use atlax.Protocol.Mux.Table.{relay}
use atlax.Protocol.Mux.Session.{MuxSession, MuxConfig, new_mux_session}
use atlax.Relay.Registry
use atlax.Relay.Registry.{
  MemoryRegistry, new_memory_registry, sets_limit, registers, unregisters, heartbeats, lookup_agent,
  register, limit_of, set_customer_limit,
}
use atlax.Relay.Registry.Runs.{serving, run-serving}
use atlax.Relay.Registry.Leaks.{Accounted, register_above_one-leaks, run-Accounted}
use atlax.Relay.Router
use atlax.Relay.Router.{
  PortEntry, PortRouter, adds, updates, removes, get_port, routed, opens, service_of,
  max_streams_of,
}
use atlax.Relay.Agents
use atlax.Relay.Agents.{AgentListener, connects, verified, customer_prefix}
use atlax.Relay.Reload.{apply_reload}
use atlax.Relay.Reload.Whole.{Reloadable, reload}
use atlax.Relay.Listeners.{new_client_listener}
use atlax.Relay.Reload.Tenants.{apply_reload-stuck}

abbrev alice : Bytes
alice = 97 ∷ []

abbrev bob : Bytes
bob = 98 ∷ []

abbrev registry_calls : List Registry.Call
registry_calls =
    registers alice 1
    ∷ registers bob 2
    ∷ registers alice 3
    ∷ unregisters bob
    ∷ heartbeats alice
    ∷ []

run-serving_example :
    lookup_agent (Registry.run new_memory_registry registry_calls) alice
    ≡ serving alice (lookup_agent new_memory_registry alice) registry_calls
run-serving_example = run-serving new_memory_registry alice registry_calls

run-Accounted_example : Accounted (Registry.run new_memory_registry registry_calls) 1
unfolding new_memory_registry limit_of lookup
run-Accounted_example =
    run-Accounted new_memory_registry registry_calls 1 (λ c. refl) (omega arith) (inr refl)

-- Two connections are allowed to Alice, and the map holds one.
abbrev generous : MemoryRegistry
generous = Registry.run new_memory_registry (sets_limit alice (pos 2) ∷ registers alice 1 ∷ [])

register_above_one-leaks_example : ¬ Accounted (register generous alice 2) 1
unfolding new_memory_registry Registry.run register limit_of set_customer_limit lookup insert
    lookup_agent bytes_eq
register_above_one-leaks_example =
    register_above_one-leaks generous alice 1 2 (λ e. ground arith) (λ d. ground arith) refl
      (λ e. ground arith)

abbrev web : PortEntry
web = record {
  customer_id = alice;
  service = 119 ∷ [];
  max_streams = pos 5;
  listen_addr = all_interfaces;
}

abbrev web_router : PortRouter
web_router = record { port_map = (pos 8080, web) ∷ [] }

abbrev router_calls : List Router.Call
router_calls =
    updates (pos 8080) (120 ∷ []) [] (pos 0)
    ∷ removes bob (pos 8080)
    ∷ adds bob (pos 81) [] [] (pos 0)
    ∷ []

abbrev usual : MuxConfig
usual = record {
  max_concurrent_streams = 50;
  initial_stream_window = pos 262144;
  connection_window = pos 1048576;
}

abbrev muxes : ℕ → MuxSession
muxes h = new_mux_session relay usual

-- The id of a tenant whose agent presents a certificate of that name.
abbrev tenant : Bytes
tenant = customer_prefix

abbrev listener : AgentListener
listener = record {
  registry = new_memory_registry;
  muxes = λ c. none;
  closed = [];
  audits = [];
  max_streams_per_agent = 50;
}

abbrev arrivals : List Agents.Event
arrivals = connects 4 (verified (tenant ∷ [])) ∷ []

abbrev tenant_router : PortRouter
tenant_router = record {
  port_map =
      (
        pos 8080,
        record {
          customer_id = tenant;
          service = 119 ∷ [];
          max_streams = pos 5;
          listen_addr = all_interfaces;
        },
      )
      ∷ [];
}

-- Configurations in which a rate limit is a number.
abbrev of_alice : PortIndexEntry ℕ
of_alice = record {
  customer_id = alice;
  service = 119 ∷ [];
  max_streams = pos 5;
  listen_addr = all_interfaces;
  rate_limit = 0;
}

abbrev of_bob : PortIndexEntry ℕ
of_bob = record of_alice { customer_id = bob }

abbrev first_index : Map ℤ (PortIndexEntry ℕ)
first_index = (pos 8080, of_alice) ∷ (pos 81, of_alice) ∷ []

abbrev second_index : Map ℤ (PortIndexEntry ℕ)
second_index = (pos 8080, of_bob) ∷ (pos 82, of_bob) ∷ []

apply_reload-stuck_example :
    get_port
      (apply_reload
        (λ p. true)
        (apply_reload (λ p. true) web_router first_index second_index).router
        second_index
        []).router
      (pos 8080)
    ≡ some web
unfolding lookup get_port
apply_reload-stuck_example =
    apply_reload-stuck (λ p. true) (λ p. true) web_router first_index second_index [] (pos 8080)
      of_alice of_bob web (ground arith) (ground arith) (ground arith) refl refl refl
      (λ e. ground arith) refl refl

abbrev shop : CustomerConfig ℕ
shop = record {
  id = alice;
  ports = record { port = pos 8080; service = 119 ∷ []; description = []; listen_addr = [] } ∷ [];
  max_connections = pos 1;
  max_streams = pos 5;
  max_bandwidth_mbps = pos 0;
  rate_limit = 0;
}

abbrev shop_config : RelayConfig ℕ
shop_config = record {
  listen_addr = 1 ∷ [];
  agent_listen_addr = [];
  tls = record { cert_file = 1 ∷ []; key_file = 1 ∷ []; ca_file = []; client_ca_file = 1 ∷ [] };
  customers = shop ∷ [];
  logging_level = [];
}

abbrev reloadable : Reloadable ℕ
reloadable = record {
  router = web_router;
  client_listener = new_client_listener;
  store = none;
  current = none;
  has_config_path = true;
}

-- The reload is applied.
reload_is_committed :
    (reload ◌==◌ (ltb 0) (λ d. []) (λ p. true) true reloadable (some shop_config)).0.current
    ≡ some shop_config
unfolding reload build_port_index lookup insert
reload_is_committed = refl
