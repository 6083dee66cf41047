-- ===== src/Relay/Registry/Runs.antt =====
-- What the registry promises its callers: a customer is served by the last connection registered.
use atlax.Base.{
  ℕ, ◌≡◌, refl, ap, ◌∙◌, Bytes, bytes_eq_inst, bytes_eq, bytes_eq_iff, Bool, true, false, List, [],
  ◌∷◌, Option, none, some, if◌then◌else◌, arith,
}
use atlax.Base.Int.{pos, eqb_ℤ}
use atlax.Base.Map.{lookup, lookup-insert, lookup-delete}
use atlax.Relay.Registry.{
  MemoryRegistry, Call, sets_limit, registers, unregisters, heartbeats, set_customer_limit,
  register, unregister, remove_agent, replace_old, store_agent, heartbeat, refresh, after_heartbeat,
  lookup_agent, step, run, limit_of,
}

-- The specification: a function of the calls alone, in which the limits play no part.
abbrev pub serving_step : Bytes → Option ℕ → Call → Option ℕ
serving_step c o (sets_limit d n) = o
serving_step c o (registers d live) = if bytes_eq d c then some live else o
serving_step c o (unregisters d) = if bytes_eq d c then none else o
serving_step c o (heartbeats d) = o

abbrev pub serving : Bytes → Option ℕ → List Call → Option ℕ
serving c o [] = o
serving c o (x ∷ xs) = serving c (serving_step c o x) xs

pub replace_old_agents :
    (r : MemoryRegistry) (d : Bytes) (o : Option ℕ) (b : Bool)
    → (replace_old r d o b).agents ≡ r.agents
unfolding replace_old
replace_old_agents r d (some old) true = refl
replace_old_agents r d (some old) false = refl
replace_old_agents r d none b = refl

lookup-remove_agent :
    (r : MemoryRegistry) (c d : Bytes) (o : Option ℕ)
    → lookup d r.agents ≡ o
    → lookup c (remove_agent r d o).agents ≡ (if bytes_eq d c then none else lookup c r.agents)
unfolding remove_agent
lookup-remove_agent r c d (some x) e = lookup-delete d c r.agents
lookup-remove_agent r c d none e = ground (arith, bytes_eq_iff d c)

refreshed_lookup :
    (r : MemoryRegistry) (c : Bytes) (o : Option ℕ)
    → lookup c (after_heartbeat r (refresh r o)).agents ≡ lookup c r.agents
unfolding refresh
refreshed_lookup r c none = refl
refreshed_lookup r c (some h) = refl

step_lookup :
    (r : MemoryRegistry) (c : Bytes) (x : Call)
    → lookup_agent (step r x) c ≡ serving_step c (lookup_agent r c) x
unfolding step lookup_agent set_customer_limit register unregister heartbeat store_agent refresh
step_lookup r c (sets_limit d n) = refl
step_lookup r c (registers d live) =
    ap (lookup c) (
      replace_old_agents (store_agent r d live) d (lookup d r.agents)
        (eqb_ℤ (limit_of r d) (pos 1)))
    ∙ lookup-insert d c live r.agents
step_lookup r c (unregisters d) = lookup-remove_agent r c d (lookup d r.agents) refl
step_lookup r c (heartbeats d) = refreshed_lookup r c (lookup d r.agents)

-- After any calls, in any order and under any limits, `Lookup` of a customer gives the connection
-- registered for it last, or ErrAgentNotFound if it was unregistered since, or never registered: no
-- call for one customer is seen by another.
pub run-serving :
    (r : MemoryRegistry) (c : Bytes) (xs : List Call)
    → lookup_agent (run r xs) c ≡ serving c (lookup_agent r c) xs
unfolding run
run-serving r c [] = refl
run-serving r c (x ∷ xs) =
    run-serving (step r x) c xs ∙ ap (λ o. serving c o xs) (step_lookup r c x)
