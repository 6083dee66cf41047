-- ===== src/Relay/Router/Ports.antt =====
-- Who owns a port, after any calls of the router.
use atlax.Base.{
  ◌≡◌, inl, inr, refl, sym, ap, ◌∙◌, Bytes, bytes_eq_inst, bytes_eq, bytes_eq_iff, int_eq, Bool,
  true, ◌&&◌, not, List, [], ◌∷◌, Option, none, some, arith, Bool-cases, All,
}
use atlax.Base.Int.{ℤ, eqb_ℤ, eqb_ℤ_iff}
use atlax.Base.Map.{lookup, delete, lookup-insert, lookup-delete}
use atlax.Relay.Router.{
  PortEntry, PortRouter, add_port_mapping, get_port, update_entry, update_port_mapping,
  remove_entry, remove_port_mapping, Call, adds, updates, removes, or_same, step, run,
}

abbrev pub owner : Option PortEntry → Option Bytes
owner none = none
owner (some e) = some e.customer_id

-- The call neither assigns the port nor removes it in the name of its owner.
abbrev pub spares : ℤ → Bytes → Call → Bool
spares p c (adds d q s a n) = not (eqb_ℤ q p)
spares p c (updates q s a n) = true
spares p c (removes d q) = not (eqb_ℤ q p && bytes_eq c d)

update_owner :
    (r : PortRouter) (p q : ℤ) (s a : Bytes) (n : ℤ) (e : Option PortEntry)
    → lookup q r.port_map ≡ e
    → owner (lookup p (or_same r (update_entry r q s a n e)).port_map) ≡ owner (lookup p r.port_map)
unfolding update_entry
update_owner r p q s a n none l = refl
update_owner r p q s a n (some e) l = elim (Bool-cases (eqb_ℤ q p)) [
  | inl y ↦
      rw
        (
          lookup-insert q p
              (record {
                customer_id = e.customer_id;
                service = s;
                max_streams = n;
                listen_addr = a;
              })
              r.port_map,
          y,
        )
        (ap owner (sym (ap (λ k. lookup k r.port_map) (sym ((eqb_ℤ_iff q p).0 y)) ∙ l)))
  | inr y ↦ ap owner (lookup-insert q p _ r.port_map ∙ rw y refl)
]

deleted_owner :
    (r : PortRouter) (p q : ℤ) (c d : Bytes) (e : PortEntry)
    → lookup q r.port_map ≡ some e
    → owner (lookup p r.port_map) ≡ some c
    → bytes_eq e.customer_id d ≡ true
    → spares p c (removes d q) ≡ true
    → owner (lookup p (delete q r.port_map)) ≡ some c
deleted_owner r p q c d e l o y f = elim (Bool-cases (eqb_ℤ q p)) [
  | inr z ↦ rw (lookup-delete q p r.port_map, z) o
  | inl z ↦
      let k : q ≡ p = (eqb_ℤ_iff q p).0 z in
      absurd (
        ground (
          arith,
          f,
          z,
          bytes_eq_iff e.customer_id d,
          y,
          bytes_eq_iff c d,
          o,
          sym (ap (λ (j : ℤ). lookup j r.port_map) k) ∙ l,
        ))
]

remove_owner :
    (r : PortRouter) (p q : ℤ) (c d : Bytes) (e : Option PortEntry)
    → lookup q r.port_map ≡ e
    → owner (lookup p r.port_map) ≡ some c
    → spares p c (removes d q) ≡ true
    → owner (lookup p (or_same r (remove_entry r d q e)).port_map) ≡ some c
unfolding remove_entry
remove_owner r p q c d none l o f = o
remove_owner r p q c d (some e) l o f = elim (Bool-cases (bytes_eq e.customer_id d)) [
  | inl y ↦ rw y (deleted_owner r p q c d e l o y f)
  | inr y ↦ rw y o
]

owner-step :
    (r : PortRouter) (x : Call) (p : ℤ) (c : Bytes)
    → spares p c x ≡ true
    → owner (get_port r p) ≡ some c
    → owner (get_port (step r x) p) ≡ some c
unfolding step get_port add_port_mapping update_port_mapping remove_port_mapping
owner-step r (adds d q s a n) p c f o = elim (Bool-cases (eqb_ℤ q p)) [
  | inl y ↦ absurd (ground (arith, f, y))
  | inr y ↦ ap owner (lookup-insert q p _ r.port_map ∙ rw y refl) ∙ o
]
owner-step r (updates q s a n) p c f o = update_owner r p q s a n (lookup q r.port_map) refl ∙ o
owner-step r (removes d q) p c f o = remove_owner r p q c d (lookup q r.port_map) refl o f

-- The tenant of a port stays its tenant through any calls that neither assign this port nor remove
-- it in the name of this tenant: updates of any port, and removals in the name of others, do
-- not move a port to another customer or take it away.
pub run-owner :
    (r : PortRouter) (xs : List Call) (p : ℤ) (c : Bytes)
    → All (λ x. spares p c x ≡ true) xs
    → owner (get_port r p) ≡ some c
    → owner (get_port (run r xs) p) ≡ some c
unfolding run
run-owner r [] p c a o = o
run-owner r (x ∷ xs) p c a o = run-owner (step r x) xs p c a.1 (owner-step r x p c a.0 o)
