-- ===== src/Relay/Reload/PerPort.antt =====
-- What a reload does to each port, without the loops.
use atlax.Base.{
  suc, ◌≡◌, refl, sym, ap, ◌∙◌, int_eq, Bool, [], ◌∷◌, Option, none, some, if◌then◌else◌,
  Bool-cases, inl, inr,
}
use atlax.Base.Int.{ℤ, eqb_ℤ, eqb_ℤ_iff}
use atlax.Base.Map.{Map, lookup}
use atlax.Base.Map.Count.{UniqueKeys}
use atlax.Config.{PortIndexEntry}
use atlax.Relay.Router.{PortEntry, PortRouter, get_port, remove_port_mapping, remove_entry}
use atlax.Relay.Reload.OnePort.{
  dropped_by, removed_lookup, counted_router, if_same, applied, lookup-apply_port,
}
use atlax.Relay.Reload.{
  Reloading, remove_port, apply_port, apply_ports, remove_gone, remove_ports, no_changes,
  apply_reload,
}

module _ {R : Type 0} where
  -- A port that the new configuration does not list is left alone by the first loop.
  abbrev applied_if_listed :
      (ℤ → Bool)
      → Map ℤ (PortIndexEntry R)
      → ℤ
      → Option (PortIndexEntry R)
      → Option PortEntry
      → Option PortEntry
  applied_if_listed binds old p none x = x
  applied_if_listed binds old p (some e) x = applied (binds p) (lookup p old) (some e) x

  lookup-apply_ports :
      (binds : ℤ → Bool) (old : Map ℤ (PortIndexEntry R)) (a : Reloading)
      (new : Map ℤ (PortIndexEntry R)) (p : ℤ)
      → UniqueKeys new
      → lookup p (apply_ports binds old a new).router.port_map
        ≡ applied_if_listed binds old p (lookup p new) (lookup p a.router.port_map)
  unfolding apply_ports lookup
  lookup-apply_ports binds old a [] p u = refl
  lookup-apply_ports binds old a ((q, e) ∷ new) p (n, u) =
      lookup-apply_ports binds old (apply_port binds a q e (lookup q old)) new p u
      ∙ elim (Bool-cases (eqb_ℤ q p)) [
        | inl y ↦
            let k : q ≡ p = (eqb_ℤ_iff q p).0 y in
            let l : lookup p new ≡ none = sym (ap (λ (j : ℤ). lookup j new) k) ∙ n in
            rw (l, lookup-apply_port binds a p q e (lookup q old), y)
              (ap
                (λ (j : ℤ). applied (binds j) (lookup j old) (some e) (lookup p a.router.port_map))
                k)
        | inr y ↦ rw (lookup-apply_port binds a p q e (lookup q old), y) refl
      ]

  abbrev applied_gone :
      Option (PortIndexEntry R) → PortIndexEntry R → Option PortEntry → Option PortEntry
  applied_gone none e x = dropped_by e.customer_id x
  applied_gone (some n) e x = x

  abbrev dropped_if_gone :
      Map ℤ (PortIndexEntry R) → ℤ → Option (PortIndexEntry R) → Option PortEntry → Option PortEntry
  dropped_if_gone new p none x = x
  dropped_if_gone new p (some e) x = applied_gone (lookup p new) e x

  lookup-remove_gone :
      (a : Reloading) (p q : ℤ) (e : PortIndexEntry R) (o : Option (PortIndexEntry R))
      → lookup p (remove_gone a q e o).router.port_map ≡ (
          if eqb_ℤ q p
          then applied_gone o e (lookup p a.router.port_map)
          else lookup p a.router.port_map)
  unfolding remove_gone remove_port remove_port_mapping
  lookup-remove_gone a p q e (some n) = sym (if_same (eqb_ℤ q p) _)
  lookup-remove_gone a p q e none =
      ap (λ (r : PortRouter). lookup p r.port_map)
        (counted_router a (remove_entry a.router e.customer_id q (lookup q a.router.port_map))
          (record a.summary { ports_removed = suc a.summary.ports_removed }))
      ∙ removed_lookup a.router p q e.customer_id (lookup q a.router.port_map) refl

  lookup-remove_ports :
      (new : Map ℤ (PortIndexEntry R)) (a : Reloading) (old : Map ℤ (PortIndexEntry R)) (p : ℤ)
      → UniqueKeys old
      → lookup p (remove_ports new a old).router.port_map
        ≡ dropped_if_gone new p (lookup p old) (lookup p a.router.port_map)
  unfolding remove_ports lookup
  lookup-remove_ports new a [] p u = refl
  lookup-remove_ports new a ((q, e) ∷ old) p (n, u) =
      lookup-remove_ports new (remove_gone a q e (lookup q new)) old p u
      ∙ elim (Bool-cases (eqb_ℤ q p)) [
        | inl y ↦
            let k : q ≡ p = (eqb_ℤ_iff q p).0 y in
            let l : lookup p old ≡ none = sym (ap (λ (j : ℤ). lookup j old) k) ∙ n in
            rw (l, lookup-remove_gone a p q e (lookup q new), y)
              (ap (λ (j : ℤ). applied_gone (lookup j new) e (lookup p a.router.port_map)) k)
        | inr y ↦ rw (lookup-remove_gone a p q e (lookup q new), y) refl
      ]

  both_loops :
      (binds : ℤ → Bool) (old new : Map ℤ (PortIndexEntry R)) (p : ℤ)
      (o n : Option (PortIndexEntry R)) (x : Option PortEntry)
      → lookup p old ≡ o
      → lookup p new ≡ n
      → dropped_if_gone new p o (applied_if_listed binds old p n x) ≡ applied (binds p) o n x
  both_loops binds old new p none none x e f = refl
  both_loops binds old new p none (some n) x e f = rw e refl
  both_loops binds old new p (some o) none x e f = rw f refl
  both_loops binds old new p (some o) (some n) x e f = rw (f, e) refl

  -- After a reload, each port is what `applied` says of it, whatever the router held before and whatever
  -- listeners start: a port listed in neither configuration is untouched; one no longer listed is
  -- dropped if the router has it for the customer of the old configuration; one newly listed is
  -- mapped as listed if its listener starts, and else unmapped; one listed in both keeps its mapping
  -- if its customer differs, and takes the new service, address and limit, but no new customer, if those differ.
  -- Each of the two configurations lists a port at most once.
  pub apply_reload-applied :
      (binds : ℤ → Bool) (r : PortRouter) (old new : Map ℤ (PortIndexEntry R)) (p : ℤ)
      → UniqueKeys old
      → UniqueKeys new
      → get_port (apply_reload binds r old new).router p
        ≡ applied (binds p) (lookup p old) (lookup p new) (get_port r p)
  unfolding apply_reload get_port
  apply_reload-applied binds r old new p u v =
      lookup-remove_ports new
        (apply_ports binds old (record { router = r; summary = no_changes }) new) old p u
      ∙ ap (dropped_if_gone new p (lookup p old))
          (lookup-apply_ports binds old (record { router = r; summary = no_changes }) new p v)
      ∙ both_loops binds old new p (lookup p old) (lookup p new) (lookup p r.port_map) refl refl
