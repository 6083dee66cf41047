-- ===== src/Relay/Reports/Found.antt =====
-- The search of GET /agents/{id} through the list of the agents finds what a lookup in the map finds.
use mathlib.Core.List.{Permᴰ}
use mathlib.Core.Path.{subst}
use atlax.Base.{
  ℕ, ◌≡◌, refl, ap, ◌∙◌, Bytes, bytes_eq, bytes_eq_inst, bytes_eq_iff, List, [], ◌∷◌, Option, none,
  some, ◌=?◌, All, Bool-cases, inl, inr, arith, if◌then◌else◌,
}
use atlax.Base.Map.{Map, lookup, insert, delete}
use atlax.Base.Map.Count.{UniqueKeys, insert-UniqueKeys, delete-UniqueKeys}
use atlax.Base.Int.{pos, eqb_ℤ}
use atlax.Relay.Registry.{
  MemoryRegistry, Call, sets_limit, registers, unregisters, heartbeats, new_memory_registry,
  set_customer_limit, register, unregister, remove_agent, store_agent, heartbeat, refresh,
  after_heartbeat, limit_of, lookup_agent, step, run,
}
use atlax.Relay.Registry.Runs.{replace_old_agents}
use atlax.Relay.Reports.{
  LiveConnection, AgentInfo, agent_info, list_connected_agents, Answer, answered, not_found,
  get_agent,
}
use atlax.Relay.Reports.Orders.{All-Permᴰ}

-- What a map in another order keeps.
SameLookups : Map Bytes ℕ → Map Bytes ℕ → Type 0
SameLookups m m' = UniqueKeys m' × ((k : Bytes) → lookup k m' ≡ lookup k m)

SameLookups-cons :
    (a b : Bytes × ℕ) (m m' : Map Bytes ℕ)
    → a ≡ b
    → UniqueKeys (a ∷ m)
    → SameLookups m m'
    → SameLookups (a ∷ m) (b ∷ m')
unfolding SameLookups lookup
SameLookups-cons a b m m' e u s =
    subst (λ x. SameLookups (a ∷ m) (x ∷ m')) e
      ((s.1 a.0 ∙ u.0, s.0), λ k. ap (λ o. if bytes_eq a.0 k then some a.1 else o) (s.1 k))

SameLookups-swap :
    (a b : Bytes × ℕ) (m : Map Bytes ℕ)
    → UniqueKeys (a ∷ b ∷ m)
    → SameLookups (a ∷ b ∷ m) (b ∷ a ∷ m)
unfolding SameLookups lookup
SameLookups-swap a b m u = (
  ground (arith, u, bytes_eq_iff a.0 b.0, bytes_eq_iff b.0 a.0),
  λ k. ground (arith, u, bytes_eq_iff a.0 k, bytes_eq_iff b.0 k, bytes_eq_iff b.0 a.0),
)

lookup-Permᴰ : (m m' : Map Bytes ℕ) → Permᴰ m m' → UniqueKeys m → SameLookups m m'
unfolding SameLookups
lookup-Permᴰ _ _ Permᴰ.nil u = (tt, λ k. refl)
lookup-Permᴰ _ _ (Permᴰ.cons {a} {b} {l₁} {l₂} e p) u =
    SameLookups-cons a b l₁ l₂ e u (lookup-Permᴰ l₁ l₂ p u.1)
lookup-Permᴰ _ _ (Permᴰ.swap {a} {b} {a'} {b'} {l} e e') u =
    subst (λ x. SameLookups (a ∷ b ∷ l) (x ∷ b' ∷ l)) e'
      (subst (λ x. SameLookups (a ∷ b ∷ l) (b ∷ x ∷ l)) e (SameLookups-swap a b l u))
lookup-Permᴰ _ _ (Permᴰ.trans p q) u =
    let r = lookup-Permᴰ _ _ p u in let t = lookup-Permᴰ _ _ q r.0 in (t.0, λ k. t.1 k ∙ r.1 k)

module _ (live : ℕ → LiveConnection) where
  -- A connection stands under the customer that it is of.
  abbrev pub IsNamed : Bytes × ℕ → Type 0
  IsNamed entry = (live entry.1).customer_id ≡ entry.0

  abbrev pub answer_of : Option ℕ → Answer AgentInfo
  answer_of none = not_found
  answer_of (some conn) = answered (agent_info (live conn))

  get_agent_lem :
      (c : Bytes) (m : Map Bytes ℕ)
      → All IsNamed m
      → get_agent (list_connected_agents live m) c ≡ answer_of (lookup c m)
  unfolding get_agent list_connected_agents agent_info lookup
  get_agent_lem c [] h = refl
  get_agent_lem c ((j, v) ∷ m) h =
      let named = ap (λ x. bytes_eq x c) h.0 in
      elim (Bool-cases (j =? c)) [
        | inl e ↦ rw (named ∙ e, e) refl
        | inr e ↦ rw (named ∙ e, e) (get_agent_lem c m h.1)
      ]

  insert-All :
      (c : Bytes) (v : ℕ) (m : Map Bytes ℕ)
      → All IsNamed m
      → IsNamed (c, v)
      → All IsNamed (insert c v m)
  unfolding insert
  insert-All c v [] h n = (n, tt)
  insert-All c v ((j, w) ∷ m) h n = elim (Bool-cases (j =? c)) [
    | inl e ↦ rw e (n, h.1)
    | inr e ↦ rw e (h.0, insert-All c v m h.1 n)
  ]

  delete-All : (c : Bytes) (m : Map Bytes ℕ) → All IsNamed m → All IsNamed (delete c m)
  unfolding delete
  delete-All c [] h = tt
  delete-All c ((j, w) ∷ m) h = elim (Bool-cases (j =? c)) [
    | inl e ↦ rw e (delete-All c m h.1)
    | inr e ↦ rw e (h.0, delete-All c m h.1)
  ]

  -- The calls register each connection for its own customer, as `handleConnection` does.
  abbrev pub RegistersOwn : Call → Type 0
  RegistersOwn (registers c conn) = IsNamed (c, conn)
  RegistersOwn (sets_limit c n) = Unit
  RegistersOwn (unregisters c) = Unit
  RegistersOwn (heartbeats c) = Unit

  abbrev pub Listed : MemoryRegistry → Type 0
  Listed r = All IsNamed r.agents × UniqueKeys r.agents

  removed-Listed :
      (r : MemoryRegistry) (c : Bytes) (o : Option ℕ) → Listed r → Listed (remove_agent r c o)
  unfolding remove_agent
  removed-Listed r c none v = v
  removed-Listed r c (some conn) v = (delete-All c r.agents v.0, delete-UniqueKeys c r.agents v.1)

  refreshed-Listed :
      (r : MemoryRegistry) (o : Option ℕ) → Listed r → Listed (after_heartbeat r (refresh r o))
  unfolding refresh
  refreshed-Listed r none v = v
  refreshed-Listed r (some conn) v = v

  step-Listed : (r : MemoryRegistry) (x : Call) → RegistersOwn x → Listed r → Listed (step r x)
  unfolding step set_customer_limit register unregister heartbeat store_agent
  step-Listed r (sets_limit c n) h v = v
  step-Listed r (registers c conn) h v =
      let same =
        replace_old_agents (store_agent r c conn) c (lookup c r.agents)
          (eqb_ℤ (limit_of r c) (pos 1)) in
      rw same (insert-All c conn r.agents v.0 h, insert-UniqueKeys c conn r.agents v.1)
  step-Listed r (unregisters c) h v = removed-Listed r c (lookup c r.agents) v
  step-Listed r (heartbeats c) h v = refreshed-Listed r (lookup c r.agents) v

  run-Listed :
      (r : MemoryRegistry) (calls : List Call)
      → All RegistersOwn calls
      → Listed r
      → Listed (run r calls)
  unfolding run
  run-Listed r [] h v = v
  run-Listed r (x ∷ calls) h v = run-Listed (step r x) calls h.1 (step-Listed r x h.0 v)

  -- Whatever calls a new registry has served, each registering a connection for the customer that it is
  -- of, and in whatever order the map is listed: GET /agents/{id} answers with the agent that a lookup
  -- of this customer gives, and that there is none exactly if the lookup fails.
  pub get_agent-lookup :
      (calls : List Call) (order : Map Bytes ℕ) (c : Bytes)
      → All RegistersOwn calls
      → Permᴰ (run new_memory_registry calls).agents order
      → get_agent (list_connected_agents live order) c
        ≡ answer_of (lookup_agent (run new_memory_registry calls) c)
  unfolding new_memory_registry lookup_agent SameLookups
  get_agent-lookup calls order c h p =
      let r = run new_memory_registry calls in
      let v = run-Listed new_memory_registry calls h (tt, tt) in
      get_agent_lem c order (All-Permᴰ IsNamed r.agents order p v.0)
      ∙ ap answer_of ((lookup-Permᴰ r.agents order p v.1).1 c)
