-- ===== src/Relay/Registry/Leaks.antt =====
-- What becomes of the connections that the registry is given.
use mathlib.Core.Path.{subst}
use atlax.Base.{
  ℕ, ◌≡◌, ◌≢◌, ◌⊎◌, inl, inr, refl, ap, ◌∙◌, Bytes, bytes_eq_inst, bytes_eq, bytes_eq_iff, Bool,
  true, false, ◌||◌, List, [], ◌∷◌, Option, none, some, arith, ◌==◌, ==_iff, Bool-cases, All,
}
use atlax.Base.Int.{pos, eqb_ℤ, eqb_ℤ_iff}
use atlax.Base.Map.{lookup, lookup-insert, lookup-delete}
use atlax.Relay.Registry.{
  MemoryRegistry, Effect, connection_registered, connection_unregistered, sent_go_away, closed,
  seen, Call, sets_limit, registers, unregisters, heartbeats, set_customer_limit, register,
  unregister, remove_agent, replace_old, store_agent, effect, heartbeat, refresh, after_heartbeat,
  lookup_agent, step, run, limit_of,
}
use atlax.Relay.Registry.Limits.{IsSingle, IsSingleCall, step-IsSingle}

-- Whether the connection has been closed.
abbrev pub is_closed : ℕ → List Effect → Bool
is_closed h [] = false
is_closed h (closed k ∷ xs) = (k == h) || is_closed h xs
is_closed h (connection_registered c ∷ xs) = is_closed h xs
is_closed h (connection_unregistered c ∷ xs) = is_closed h xs
is_closed h (sent_go_away k ∷ xs) = is_closed h xs
is_closed h (seen k ∷ xs) = is_closed h xs

-- A connection that can still be looked up, or has been closed.
abbrev pub Accounted : MemoryRegistry → ℕ → Type 0
Accounted r h = (is_closed h r.effects ≡ true) ⊎ ((c : Bytes) × (lookup_agent r c ≡ some h))

abbrev pub registered_in : ℕ → List Call → Bool
registered_in h [] = false
registered_in h (registers c live ∷ xs) = (live == h) || registered_in h xs
registered_in h (sets_limit c n ∷ xs) = registered_in h xs
registered_in h (unregisters c ∷ xs) = registered_in h xs
registered_in h (heartbeats c ∷ xs) = registered_in h xs

replace-Accounted :
    (r : MemoryRegistry) (c : Bytes) (live h : ℕ) (o : Option ℕ) (b : Bool)
    → b ≡ true
    → lookup c r.agents ≡ o
    → Accounted r h ⊎ (h ≡ live)
    → Accounted (effect (replace_old (store_agent r c live) c o b) (connection_registered c)) h
unfolding replace_old store_agent lookup_agent
replace-Accounted r c live h (some old) true e l (inl (inl x)) = inl (ground (arith, x))
replace-Accounted r c live h (some old) true e l (inl (inr (d, x))) =
    elim (Bool-cases (bytes_eq c d)) [
      | inl y ↦
          inl (
            ground
              (arith, ap (λ k. lookup k r.agents) ((bytes_eq_iff c d).0 y), l, x, ==_iff old h))
      | inr y ↦ inr (d, lookup-insert c d live r.agents ∙ rw y x)
    ]
replace-Accounted r c live h (some old) false e l x = absurd (ground (arith, e))
replace-Accounted r c live h (some old) true e l (inr x) =
    inr (c, ground (arith, lookup-insert c c live r.agents, bytes_eq_iff c c))
replace-Accounted r c live h none b e l (inl (inl x)) = inl (ground (arith, x))
replace-Accounted r c live h none b e l (inl (inr (d, x))) =
    inr (d, ground (arith, lookup-insert c d live r.agents, bytes_eq_iff c d, l, x))
replace-Accounted r c live h none b e l (inr x) =
    inr (c, ground (arith, lookup-insert c c live r.agents, bytes_eq_iff c c))

replace_old_none :
    (r : MemoryRegistry) (c : Bytes) (o : Option ℕ) (b : Bool) → b ≡ false → replace_old r c o b ≡ r
unfolding replace_old
replace_old_none r c (some h) true e = absurd (ground arith)
replace_old_none r c (some h) false e = refl
replace_old_none r c none b e = refl

register_above_one :
    (r : MemoryRegistry) (c : Bytes) (live : ℕ)
    → limit_of r c ≢ pos 1
    → register r c live ≡ effect (store_agent r c live) (connection_registered c)
unfolding register
register_above_one r c live n =
    ap (λ (q : MemoryRegistry). effect q (connection_registered c))
      (replace_old_none _ c (lookup c r.agents) _
        (elim (Bool-cases (eqb_ℤ (limit_of r c) (pos 1))) [
          | inl e ↦ absurd (n ((eqb_ℤ_iff _ _).0 e))
          | inr e ↦ e
        ]))

-- A registration on a limit other than 1 in place of an open connection leaves that connection open
-- and out of reach: it is not closed, and no customer's lookup gives it. The old connection is one
-- that serves this customer only, and the new connection is another one.
pub register_above_one-leaks :
    (r : MemoryRegistry) (c : Bytes) (old live : ℕ)
    → limit_of r c ≢ pos 1
    → ((d : Bytes) → lookup_agent r d ≡ some old → d ≡ c)
    → is_closed old r.effects ≡ false
    → old ≢ live
    → ¬ Accounted (register r c live) old
unfolding store_agent lookup_agent
register_above_one-leaks r c old live n u o d x =
    let y = subst (λ (q : MemoryRegistry). Accounted q old) (register_above_one r c live n) x in
    elim y [
      | inl e ↦ absurd (ground (arith, o, e))
      | inr (k, e) ↦ ground (arith, lookup-insert c k live r.agents, bytes_eq_iff c k, u k, e, d)
    ]

remove-Accounted :
    (r : MemoryRegistry) (c : Bytes) (h : ℕ) (o : Option ℕ)
    → lookup c r.agents ≡ o
    → Accounted r h
    → Accounted (remove_agent r c o) h
unfolding remove_agent lookup_agent
remove-Accounted r c h (some k) l (inl x) = inl (ground (arith, x))
remove-Accounted r c h (some k) l (inr (d, x)) = elim (Bool-cases (bytes_eq c d)) [
  | inl y ↦
      inl (ground (arith, ap (λ k. lookup k r.agents) ((bytes_eq_iff c d).0 y), l, x, ==_iff k h))
  | inr y ↦ inr (d, lookup-delete c d r.agents ∙ rw y x)
]
remove-Accounted r c h none l x = x

refresh-Accounted :
    (r : MemoryRegistry) (h : ℕ) (o : Option ℕ)
    → Accounted r h
    → Accounted (after_heartbeat r (refresh r o)) h
unfolding refresh lookup_agent
refresh-Accounted r h (some k) (inl x) = inl (ground (arith, x))
refresh-Accounted r h (some k) (inr x) = inr x
refresh-Accounted r h none x = x

step-Accounted :
    (r : MemoryRegistry) (x : Call) (h : ℕ)
    → IsSingle r
    → Accounted r h ⊎ (registered_in h (x ∷ []) ≡ true)
    → Accounted (step r x) h
unfolding step register unregister heartbeat set_customer_limit lookup_agent
step-Accounted r (sets_limit c n) h i (inl a) = a
step-Accounted r (registers c live) h i a =
    replace-Accounted r c live h (lookup c r.agents) _ ((eqb_ℤ_iff _ _).1 (i c)) refl
      (elim a [ inl y ↦ inl y | inr y ↦ inr (ground (arith, y, ==_iff live h)) ])
step-Accounted r (unregisters c) h i (inl a) = remove-Accounted r c h (lookup c r.agents) refl a
step-Accounted r (heartbeats c) h i (inl a) = refresh-Accounted r h (lookup c r.agents) a
step-Accounted r (sets_limit c n) h i (inr y) = absurd (ground (arith, y))
step-Accounted r (unregisters c) h i (inr y) = absurd (ground (arith, y))
step-Accounted r (heartbeats c) h i (inr y) = absurd (ground (arith, y))

registered_split :
    (h : ℕ) (x : Call) (xs : List Call)
    → registered_in h (x ∷ xs) ≡ true
    → (registered_in h (x ∷ []) ≡ true) ⊎ (registered_in h xs ≡ true)
registered_split h (registers c live) xs e = ground (arith, e)
registered_split h (sets_limit c n) xs e = inr e
registered_split h (unregisters c) xs e = inr e
registered_split h (heartbeats c) xs e = inr e

Accounted-next :
    (r : MemoryRegistry) (x : Call) (xs : List Call) (h : ℕ)
    → IsSingle r
    → Accounted r h ⊎ (registered_in h (x ∷ xs) ≡ true)
    → Accounted (step r x) h ⊎ (registered_in h xs ≡ true)
Accounted-next r x xs h i (inl y) = inl (step-Accounted r x h i (inl y))
Accounted-next r x xs h i (inr y) = elim (registered_split h x xs y) [
  | inl z ↦ inl (step-Accounted r x h i (inr z))
  | inr z ↦ inr z
]

-- While no limit other than 1 is set, every connection that was accounted for before the calls, or that
-- one of the calls registers, can afterwards still be looked up by some customer, or has been
-- closed: replacing and unregistering leak no connection.
pub run-Accounted :
    (r : MemoryRegistry) (xs : List Call) (h : ℕ)
    → IsSingle r
    → All IsSingleCall xs
    → Accounted r h ⊎ (registered_in h xs ≡ true)
    → Accounted (run r xs) h
unfolding run
run-Accounted r [] h i a (inl y) = y
run-Accounted r [] h i a (inr y) = absurd (ground (arith, y))
run-Accounted r (x ∷ xs) h i a y =
    run-Accounted (step r x) xs h (step-IsSingle r x a.0 i) a.1 (Accounted-next r x xs h i y)
