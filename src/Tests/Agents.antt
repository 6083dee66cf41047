-- ===== src/Tests/Agents.antt =====
-- The agents on both sides: handleConnection of pkg/relay and the client and runner of pkg/agent.
use atlax.Base.{
  ◌≡◌, refl, ℕ, Bytes, bytes_eq, bytes_eq_inst, true, false, List, [], ◌∷◌, some, none, arith,
  if◌then◌else◌, ◌==◌,
}
use atlax.Base.Int.{pos}
use atlax.Base.Map.{Map, lookup, insert}
use atlax.Relay.Registry
use atlax.Relay.Registry.{new_memory_registry, lookup_agent}
use atlax.Relay.Agents
use atlax.Relay.Agents.{
  AgentListener, connects, heartbeats, verified, handshake_failed, customer_prefix, relay_prefix,
  on_events,
}
use atlax.Relay.Agents.Authentic.{shown, on_events-authentic}
use atlax.Agent.Client.{Attempt, dials, fails, new_client, teardown, reconnect}
use atlax.Agent.Client.Attempts.{Ends, reconnect-Ends}
use atlax.Agent.Runner
use atlax.Agent.Runner.{TunnelRunner, accepting, accepts, session_ends, ticks}
use atlax.Agent.Runner.Owned.{OwnsAll, run-OwnsAll}
use atlax.Agent.Runner.Heartbeats.{Waits, run-Waits}

-- "customer-", of one tenant.
abbrev tenant : Bytes
tenant = customer_prefix

abbrev listener : AgentListener
listener = record {
  registry = new_memory_registry;
  muxes = λ c. none;
  closed = [];
  audits = [];
  max_streams_per_agent = 50;
}

abbrev arrivals : List Agents.Event
arrivals =
    connects 1 (verified (relay_prefix ∷ []))
    ∷ connects 2 (verified (tenant ∷ []))
    ∷ connects 3 handshake_failed
    ∷ heartbeats tenant
    ∷ []

on_events-authentic_example : shown tenant 2 arrivals ≡ true
unfolding new_memory_registry lookup_agent on_events lookup Registry.step Registry.heartbeat
    Registry.register insert bytes_eq
on_events-authentic_example = on_events-authentic listener arrivals tenant 2 (λ d. refl) refl

-- Two failures, then a connection.
abbrev third_works : ℕ → Attempt
third_works i = if i == 2 then dials else fails

reconnect-Ends_example :
    Ends (teardown new_client) 0 3 third_works (reconnect new_client (pos 3) third_works)
reconnect-Ends_example = reconnect-Ends new_client (pos 3) 3 third_works refl refl

abbrev services : Map Bytes Bytes
services = (119 ∷ [], 58 ∷ 56 ∷ []) ∷ []

abbrev runner : TunnelRunner
runner = record {
  client = record new_client {
    mux = some 0;
    is_connected = true;
    heartbeat = some 0;
    next_conn = 1;
  };
  phase = accepting 0;
  forwarded = [];
  rejected = [];
}

run-OwnsAll_example : OwnsAll (
    Runner.run services (pos 3) runner (accepts 4 [] ∷ session_ends third_works ∷ ticks false ∷ []))
run-OwnsAll_example =
    run-OwnsAll services (pos 3) runner (accepts 4 [] ∷ session_ends third_works ∷ ticks false ∷ [])
      (record { held = (refl, refl); all_held = λ k l. ground (arith, l) })

run-Waits_example :
    Waits (Runner.run services (pos 3) runner (ticks true ∷ ticks false ∷ accepts 4 [] ∷ [])) 0 []
run-Waits_example =
    run-Waits services (pos 3) runner (ticks true ∷ ticks false ∷ accepts 4 [] ∷ []) 0 []
      (refl, (refl, (refl, tt))) (refl, refl, refl, refl)

-- After two failed attempts the runner accepts streams on a new connection.
reconnected_runner :
    (Runner.run services (pos 3) runner (session_ends third_works ∷ [])).phase ≡ accepting 1
unfolding Runner.run reconnect
reconnected_runner = refl
