-- ===== src/Relay/Reload/OnePort.antt =====
-- What the reload of one port does to the router.
use atlax.Base.{
  suc, ◌≡◌, refl, sym, ap, ◌∙◌, Bytes, bytes_eq, bytes_eq_iff, int_eq, Bool, true, false, not,
  Option, none, some, if◌then◌else◌, arith, Bool-cases, inl, inr,
}
use atlax.Base.Int.{ℤ, eqb_ℤ, eqb_ℤ_iff}
use atlax.Base.Map.{Map, lookup, lookup-insert, lookup-delete}
use atlax.Config.{PortIndexEntry}
use atlax.Relay.Router.{
  PortEntry, PortRouter, add_port_mapping, update_port_mapping, update_entry, remove_port_mapping,
  remove_entry, or_same,
}
use atlax.Relay.Reload.{
  ReloadSummary, Reloading, counted, port_mutable_fields_differ, add_port, update_port_reload,
  reject_customer_change, apply_port,
}

-- A mapping that its owner `c` removes.
abbrev pub dropped_by : Bytes → Option PortEntry → Option PortEntry
dropped_by c none = none
dropped_by c (some x) = if bytes_eq x.customer_id c then none else some x

same_port :
    (m : Map ℤ PortEntry) (p q : ℤ) (o : Option PortEntry)
    → eqb_ℤ q p ≡ true
    → lookup q m ≡ o
    → lookup p m ≡ o
same_port m p q o y l = sym (ap (λ (j : ℤ). lookup j m) ((eqb_ℤ_iff q p).0 y)) ∙ l

pub removed_lookup :
    (r : PortRouter) (p q : ℤ) (c : Bytes) (o : Option PortEntry)
    → lookup q r.port_map ≡ o
    → lookup p (or_same r (remove_entry r c q o)).port_map
      ≡ (if eqb_ℤ q p then dropped_by c (lookup p r.port_map) else lookup p r.port_map)
unfolding remove_entry
removed_lookup r p q c none l = elim (Bool-cases (eqb_ℤ q p)) [
  | inl y ↦ rw (y, same_port r.port_map p q none y l) refl
  | inr y ↦ rw y refl
]
removed_lookup r p q c (some x) l = elim (Bool-cases (bytes_eq x.customer_id c)) [
  | inl z ↦ rw z (elim (Bool-cases (eqb_ℤ q p)) [
    | inl y ↦
        lookup-delete q p r.port_map
        ∙ rw (y, same_port r.port_map p q (some x) y l) (sym (rw z refl))
    | inr y ↦ lookup-delete q p r.port_map ∙ rw y refl
  ])
  | inr z ↦ rw z (elim (Bool-cases (eqb_ℤ q p)) [
    | inl y ↦ rw (y, same_port r.port_map p q (some x) y l) (sym (rw z refl))
    | inr y ↦ rw y refl
  ])
]

pub counted_router :
    (a : Reloading) (o : Option PortRouter) (s : ReloadSummary)
    → (counted a o s).router ≡ or_same a.router o
counted_router a none s = refl
counted_router a (some r) s = refl

pub if_same : {A : Type 0} (b : Bool) (x : A) → (if b then x else x) ≡ x
if_same true x = refl
if_same false x = refl

module _ {R : Type 0} where
  abbrev pub as_mapped : PortIndexEntry R → PortEntry
  as_mapped e = record {
    customer_id = e.customer_id;
    service = e.service;
    max_streams = e.max_streams;
    listen_addr = e.listen_addr;
  }

  -- A mapping with new fields, its customer kept.
  abbrev pub updated : PortIndexEntry R → Option PortEntry → Option PortEntry
  updated e none = none
  updated e (some x) = some (record (as_mapped e) { customer_id = x.customer_id })

  -- What a port becomes, from what the two configurations and the router have for it.
  abbrev pub applied :
      Bool
      → Option (PortIndexEntry R)
      → Option (PortIndexEntry R)
      → Option PortEntry
      → Option PortEntry
  applied started none none x = x
  applied started (some old) none x = dropped_by old.customer_id x
  applied started none (some new) x = if started then some (as_mapped new) else none
  applied started (some old) (some new) x =
      if not (bytes_eq old.customer_id new.customer_id)
      then x
      else if port_mutable_fields_differ old new
      then updated new x
      else x

  failed_lookup :
      (r : PortRouter) (p q : ℤ) (e : PortIndexEntry R)
      → lookup p
          (or_same (add_port_mapping r e.customer_id q e.service e.listen_addr e.max_streams) (
            remove_port_mapping
              (add_port_mapping r e.customer_id q e.service e.listen_addr e.max_streams)
              e.customer_id
              q)).port_map
        ≡ (if eqb_ℤ q p then none else lookup p r.port_map)
  unfolding add_port_mapping remove_port_mapping
  failed_lookup r p q e =
      let r' = add_port_mapping r e.customer_id q e.service e.listen_addr e.max_streams in
      let l = lookup-insert q p (as_mapped e) r.port_map in
      removed_lookup r' p q e.customer_id (lookup q r'.port_map) refl
      ∙ rw l (ground (arith, bytes_eq_iff e.customer_id e.customer_id))

  lookup-add_port :
      (binds : ℤ → Bool) (a : Reloading) (p q : ℤ) (e : PortIndexEntry R)
      → lookup p (add_port binds a q e).router.port_map ≡ (
          if eqb_ℤ q p
          then applied (binds q) none (some e) (lookup p a.router.port_map)
          else lookup p a.router.port_map)
  unfolding add_port add_port_mapping
  lookup-add_port binds a p q e = elim (Bool-cases (binds q)) [
    | inl y ↦ rw y (lookup-insert q p _ a.router.port_map)
    | inr y ↦ rw y (failed_lookup a.router p q e)
  ]

  updated-lookup :
      (r : PortRouter) (p q : ℤ) (e : PortIndexEntry R) (o : Option PortEntry)
      → lookup q r.port_map ≡ o
      → lookup p (or_same r (update_entry r q e.service e.listen_addr e.max_streams o)).port_map
        ≡ (if eqb_ℤ q p then updated e (lookup p r.port_map) else lookup p r.port_map)
  unfolding update_entry
  updated-lookup r p q e none l = elim (Bool-cases (eqb_ℤ q p)) [
    | inl y ↦ rw (y, same_port r.port_map p q none y l) refl
    | inr y ↦ rw y refl
  ]
  updated-lookup r p q e (some x) l = elim (Bool-cases (eqb_ℤ q p)) [
    | inl y ↦ lookup-insert q p _ r.port_map ∙ rw (y, same_port r.port_map p q (some x) y l) refl
    | inr y ↦ lookup-insert q p _ r.port_map ∙ rw y refl
  ]

  pub lookup-apply_port :
      (binds : ℤ → Bool) (a : Reloading) (p q : ℤ) (e : PortIndexEntry R)
      (o : Option (PortIndexEntry R))
      → lookup p (apply_port binds a q e o).router.port_map ≡ (
          if eqb_ℤ q p
          then applied (binds q) o (some e) (lookup p a.router.port_map)
          else lookup p a.router.port_map)
  unfolding apply_port update_port_reload update_port_mapping reject_customer_change
  lookup-apply_port binds a p q e none = lookup-add_port binds a p q e
  lookup-apply_port binds a p q e (some o) =
      elim (Bool-cases (bytes_eq o.customer_id e.customer_id)) [
        | inr y ↦ rw y (sym (if_same (eqb_ℤ q p) _))
        | inl y ↦ rw y (elim (Bool-cases (port_mutable_fields_differ o e)) [
          | inr z ↦ rw z (sym (if_same (eqb_ℤ q p) _))
          | inl z ↦ rw z (
              ap (λ (r : PortRouter). lookup p r.port_map)
                (counted_router a
                  (update_entry a.router q e.service e.listen_addr e.max_streams
                    (lookup q a.router.port_map))
                  (record a.summary { ports_updated = suc a.summary.ports_updated }))
              ∙ updated-lookup a.router p q e (lookup q a.router.port_map) refl)
        ])
      ]
