-- ===== src/Relay/Reports/Registering.antt =====
-- How the reports follow the registry.
use mathlib.Core.List.{Permᴰ}
use mathlib.Core.List.Permᴰ
use mathlib.Core.Quot
use mathlib.Core.Path.{subst}
use atlax.Base.{
  ℕ, ◌≡◌, refl, sym, ap, ◌∙◌, Bytes, bytes_eq_inst, bytes_eq_iff, [], ◌∷◌, Option, none, some, ◌=?◌,
  Bool-cases, inl, inr, arith,
}
use atlax.Base.Int.{pos, eqb_ℤ}
use atlax.Base.Map.{Map, lookup, insert, delete}
use atlax.Base.Map.Count.{UniqueKeys}
use atlax.Relay.Registry.{MemoryRegistry, register, unregister, remove_agent, store_agent, limit_of}
use atlax.Relay.Registry.Runs.{replace_old_agents}
use atlax.Relay.Reports.{LiveConnection, agent_info, list_connected_agents}
use atlax.Relay.Reports.Orders.{list-Permᴰ, Agents, add, agents_of}

-- With the agent whose connection was in the way, if there was one.
abbrev pub add_found : (ℕ → LiveConnection) → Option ℕ → Agents → Agents
add_found live none q = q
add_found live (some old) q = add (agent_info (live old)) q

-- The entry that stands in the way, if there is one, in front of a map.
with_entry : Bytes → Option ℕ → Map Bytes ℕ → Map Bytes ℕ
with_entry c none m = m
with_entry c (some old) m = (c, old) ∷ m

with_entry-front :
    (c : Bytes) (o : Option ℕ) (e : Bytes × ℕ) (m : Map Bytes ℕ)
    → Permᴰ (with_entry c o (e ∷ m)) (e ∷ with_entry c o m)
unfolding with_entry
with_entry-front c none e m = Permᴰ.refl (e ∷ m)
with_entry-front c (some old) e m = Permᴰ.swap refl refl

insert-Permᴰ :
    (c : Bytes) (v : ℕ) (m : Map Bytes ℕ)
    → Permᴰ (with_entry c (lookup c m) (insert c v m)) ((c, v) ∷ m)
unfolding insert lookup with_entry
insert-Permᴰ c v [] = Permᴰ.refl ((c, v) ∷ [])
insert-Permᴰ c v ((j, w) ∷ m) = elim (Bool-cases (j =? c)) [
  | inl e ↦ rw e (Permᴰ.swap (λ i. (sym ((bytes_eq_iff j c).0 e) i, w)) refl)
  | inr e ↦ rw e (
      Permᴰ.trans (with_entry-front c (lookup c m) (j, w) (insert c v m))
        (Permᴰ.trans (Permᴰ.cons refl (insert-Permᴰ c v m)) (Permᴰ.swap refl refl)))
]

delete_absent : (c : Bytes) (m : Map Bytes ℕ) → lookup c m ≡ none → delete c m ≡ m
unfolding delete lookup
delete_absent c [] h = refl
delete_absent c ((j, w) ∷ m) h = ground (arith, delete_absent c m)

delete-Permᴰ :
    (c : Bytes) (m : Map Bytes ℕ) → UniqueKeys m → Permᴰ (with_entry c (lookup c m) (delete c m)) m
unfolding delete lookup with_entry
delete-Permᴰ c [] u = Permᴰ.nil
delete-Permᴰ c ((j, w) ∷ m) u = elim (Bool-cases (j =? c)) [
  | inl e ↦
      let k = (bytes_eq_iff j c).0 e in
      rw (e, delete_absent c m (subst (λ x. lookup x m ≡ none) k u.0))
        (Permᴰ.cons (λ i. (sym k i, w)) (Permᴰ.refl m))
  | inr e ↦ rw e (
      Permᴰ.trans (with_entry-front c (lookup c m) (j, w) (delete c m))
        (Permᴰ.cons refl (delete-Permᴰ c m u.1)))
]

agents-with_entry :
    (live : ℕ → LiveConnection) (c : Bytes) (o : Option ℕ) (m : Map Bytes ℕ)
    → add_found live o (agents_of live m) ≡ agents_of live (with_entry c o m)
unfolding with_entry agents_of add list_connected_agents
agents-with_entry live c none m = refl
agents-with_entry live c (some old) m = refl

-- After a registration the relay has the agents that it had and the new one, less the one whose
-- connection was registered for that customer before.
pub register-agents_of :
    (live : ℕ → LiveConnection) (r : MemoryRegistry) (c : Bytes) (conn : ℕ)
    → add_found live (lookup c r.agents) (agents_of live (register r c conn).agents)
      ≡ add (agent_info (live conn)) (agents_of live r.agents)
unfolding register store_agent add agents_of list_connected_agents
register-agents_of live r c conn =
    let same =
      replace_old_agents (store_agent r c conn) c (lookup c r.agents)
        (eqb_ℤ (limit_of r c) (pos 1)) in
    ap (λ m. add_found live (lookup c r.agents) (agents_of live m)) same
    ∙ agents-with_entry live c (lookup c r.agents) (insert c conn r.agents)
    ∙ Quot.sound (list-Permᴰ live _ _ (insert-Permᴰ c conn r.agents))

remove_agent_agents :
    (r : MemoryRegistry) (c : Bytes) (o : Option ℕ)
    → lookup c r.agents ≡ o
    → (remove_agent r c o).agents ≡ delete c r.agents
unfolding remove_agent
remove_agent_agents r c none h = sym (delete_absent c r.agents h)
remove_agent_agents r c (some old) h = refl

-- After an unregistration it has the agents that it had, less the one of that customer.
pub unregister-agents_of :
    (live : ℕ → LiveConnection) (r : MemoryRegistry) (c : Bytes)
    → UniqueKeys r.agents
    → add_found live (lookup c r.agents) (agents_of live (unregister r c).agents)
      ≡ agents_of live r.agents
unfolding unregister agents_of
unregister-agents_of live r c u =
    ap (λ m. add_found live (lookup c r.agents) (agents_of live m))
      (remove_agent_agents r c (lookup c r.agents) refl)
    ∙ agents-with_entry live c (lookup c r.agents) (delete c r.agents)
    ∙ Quot.sound (list-Permᴰ live _ _ (delete-Permᴰ c r.agents u))
