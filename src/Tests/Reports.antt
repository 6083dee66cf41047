-- ===== src/Tests/Reports.antt =====
-- What the relay reports of its agents: pkg/relay/admin.go and registry_impl.go.
use mathlib.Core.List.{Permᴰ}
use atlax.Base.{
  ℕ, ◌+◌, ◌-◌, ◌*◌, ◌^◌, ◌≡◌, refl, Bytes, bytes_eq, bytes_eq_inst, List, [], ◌∷◌, ◌==◌,
  if◌then◌else◌,
}
use atlax.Base.Int.{pos, negsuc, ◌-ℤ◌}
use atlax.Base.Map.{Map, lookup, insert}
use atlax.Protocol.Mux.Table.{relay}
use atlax.Protocol.Mux.Session.{MuxSession, new_mux_session}
use atlax.Relay.Registry.{
  MemoryRegistry, Call, registers, register, new_memory_registry, lookup_agent, run,
}
use atlax.Relay.Reports.{
  LiveConnection, new_live_connection, agent_info, list_connected_agents, get_agent, days_left,
}
use atlax.Relay.Reports.Orders.{agents_of, add}
use atlax.Relay.Reports.Registering.{add_found, register-agents_of}
use atlax.Relay.Reports.Found.{answer_of, get_agent-lookup}

abbrev session : MuxSession
session = new_mux_session relay (record {
  max_concurrent_streams = 50;
  initial_stream_window = pos 262144;
  connection_window = pos 1048576;
})

-- The connection 0 is that of the customer 97, every other one that of the customer 98.
abbrev connections : ℕ → LiveConnection
connections n = new_live_connection ((if n == 0 then 97 else 98) ∷ []) session [] 1000

abbrev joined : List Call
joined = registers (97 ∷ []) 0 ∷ registers (98 ∷ []) 1 ∷ []

abbrev registry : MemoryRegistry
registry = run new_memory_registry joined

abbrev backwards : Map Bytes ℕ
backwards = (98 ∷ [], 1) ∷ (97 ∷ [], 0) ∷ []

backwards-Permᴰ : Permᴰ registry.agents backwards
unfolding run new_memory_registry register lookup insert bytes_eq
backwards-Permᴰ = Permᴰ.swap refl refl

register-agents_of_example :
    add_found connections
      (lookup (98 ∷ []) registry.agents)
      (agents_of connections (register registry (98 ∷ []) 2).agents)
    ≡ add (agent_info (connections 2)) (agents_of connections registry.agents)
register-agents_of_example = register-agents_of connections registry (98 ∷ []) 2

get_agent-lookup_example :
    get_agent (list_connected_agents connections backwards) (97 ∷ [])
    ≡ answer_of connections (lookup_agent registry (97 ∷ []))
unfolding new_live_connection
get_agent-lookup_example =
    get_agent-lookup connections joined backwards (97 ∷ []) (refl, (refl, tt)) backwards-Permᴰ

-- Two days and an hour before, and two days and an hour after, the expiry.
still_valid : days_left (100 * 24 * 3600 * 10 ^ 9) ((98 * 24 - 1) * 3600 * 10 ^ 9) ≡ pos 2
unfolding days_left
still_valid = refl

long_expired : days_left (98 * 24 * 3600 * 10 ^ 9) ((100 * 24 + 1) * 3600 * 10 ^ 9) ≡ negsuc 1
unfolding days_left ◌-ℤ◌
long_expired = refl
