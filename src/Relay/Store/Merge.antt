-- ===== src/Relay/Store/Merge.antt =====
-- What the index holds after the sidecar has been merged into it.
use atlax.Base.{
  ◌≡◌, refl, ◌∙◌, sym, ap, inl, inr, Bytes, Bool, true, false, List, [], ◌∷◌, Option, none, some,
  arith, if◌then◌else◌, int_eq, ◌&&◌, Bool-cases,
}
use atlax.Base.Int.{ℤ, eqb_ℤ, eqb_ℤ_iff}
use atlax.Base.Map.{Map, lookup, lookup-insert}
use atlax.Base.{if_cases, not}
use atlax.Base.Map.Count.{UniqueKeys, insert-UniqueKeys}
use atlax.Config.{PortIndexEntry}
use atlax.Relay.Store.{
  SidecarPort, SidecarData, is_usable, merged_entry, Merging, merge_usable, merge_port, merge_ports,
  contains, merge_loaded,
}

abbrev pub or_else {ℓ} : {A : Type ℓ} → Option A → Option A → Option A
or_else none o = o
or_else (some a) o = some a

module _ {R : Type 0} (is_ip : Bytes → Bool) (no_limit : R) where
  -- The first usable entry for the port.
  abbrev pub first_usable : ℤ → List SidecarPort → Option (PortIndexEntry R)
  first_usable p [] = none
  first_usable p (sp ∷ sps) =
      let rest = first_usable p sps in
      if is_usable is_ip sp && eqb_ℤ sp.port p then some (merged_entry is_ip no_limit sp) else rest

  -- What the index will hold for a port, `later` being the first usable entry still to come.
  abbrev view : Merging is_ip no_limit → ℤ → Option (PortIndexEntry R) → Option (PortIndexEntry R)
  view m p later = or_else (lookup p m.entries) (if contains p m.seen then none else later)

  at_port :
      (m : Merging is_ip no_limit) (sp : SidecarPort) (p : ℤ)
      → eqb_ℤ sp.port p ≡ true
      → lookup p m.entries ≡ lookup sp.port m.entries
  at_port m sp p y = ap (λ k. lookup k m.entries) (sym ((eqb_ℤ_iff sp.port p).0 y))

  seen_at :
      (m : Merging is_ip no_limit) (sp : SidecarPort) (p : ℤ)
      → eqb_ℤ sp.port p ≡ true
      → contains p m.seen ≡ contains sp.port m.seen
  seen_at m sp p y = ap (λ k. contains k m.seen) (sym ((eqb_ℤ_iff sp.port p).0 y))

  -- A port that was seen keeps what the index holds for it.
  seen_view :
      (m : Merging is_ip no_limit) (sp : SidecarPort) (p : ℤ) (later : Option (PortIndexEntry R))
      → contains sp.port m.seen ≡ true
      → view m p later
        ≡ view m p (if eqb_ℤ sp.port p then some (merged_entry is_ip no_limit sp) else later)
  seen_view m sp p later c = elim (Bool-cases (eqb_ℤ sp.port p)) [
    | inl y ↦ let c' : contains p m.seen ≡ true = seen_at m sp p y ∙ c in rw (y, c') refl
    | inr y ↦ rw y refl
  ]

  usable_view :
      (m : Merging is_ip no_limit) (sp : SidecarPort) (p : ℤ) (o later : Option (PortIndexEntry R))
      → contains sp.port m.seen ≡ false
      → lookup sp.port m.entries ≡ o
      → view (merge_usable is_ip no_limit m sp o) p later
        ≡ view m p (if eqb_ℤ sp.port p then some (merged_entry is_ip no_limit sp) else later)
  unfolding merge_usable
  usable_view m sp p (some e) later c l = elim (Bool-cases (eqb_ℤ sp.port p)) [
    | inl y ↦ let l' : lookup p m.entries ≡ some e = at_port m sp p y ∙ l in rw (y, l') refl
    | inr y ↦ rw y refl
  ]
  usable_view m sp p none later c l = elim (Bool-cases (eqb_ℤ sp.port p)) [
    | inl y ↦
        let l' : lookup p m.entries ≡ none = at_port m sp p y ∙ l in
        let c' : contains p m.seen ≡ false = seen_at m sp p y ∙ c in
        rw (lookup-insert sp.port p (merged_entry is_ip no_limit sp) m.entries, y, l', c') refl
    | inr y ↦ rw (lookup-insert sp.port p (merged_entry is_ip no_limit sp) m.entries, y) refl
  ]

  merge_port-view :
      (m : Merging is_ip no_limit) (sp : SidecarPort) (p : ℤ) (later : Option (PortIndexEntry R))
      → view (merge_port is_ip no_limit m sp) p later
        ≡ view m p (
            if is_usable is_ip sp && eqb_ℤ sp.port p
            then some (merged_entry is_ip no_limit sp)
            else later)
  unfolding merge_port
  merge_port-view m sp p later = elim (Bool-cases (is_usable is_ip sp)) [
    | inr u ↦ rw u refl
    | inl u ↦ elim (Bool-cases (contains sp.port m.seen)) [
      | inr c ↦ rw (u, c) (usable_view m sp p (lookup sp.port m.entries) later c refl)
      | inl c ↦ rw (u, c) (seen_view m sp p later c)
    ]
  ]

  pub merge-lookup :
      (sps : List SidecarPort) (m : Merging is_ip no_limit) (p : ℤ)
      → lookup p (merge_ports is_ip no_limit m sps).entries ≡ view m p (first_usable p sps)
  unfolding merge_ports
  merge-lookup [] m p = ground arith
  merge-lookup (sp ∷ sps) m p =
      merge-lookup sps (merge_port is_ip no_limit m sp) p
      ∙ merge_port-view m sp p (first_usable p sps)

  -- The index that a loaded sidecar gives holds for a port the entry of relay.yaml, else the first usable
  -- entry of the sidecar for that port, and nothing if there is neither.
  pub merge_loaded-first_usable :
      (index : Map ℤ (PortIndexEntry R)) (d : SidecarData) (p : ℤ)
      → lookup p (merge_loaded is_ip no_limit index (some d))
        ≡ or_else (lookup p index) (first_usable p d.ports)
  unfolding merge_loaded
  merge_loaded-first_usable index d p =
      merge-lookup d.ports (record { seen = []; entries = index }) p

  merge_usable-UniqueKeys :
      (m : Merging is_ip no_limit) (sp : SidecarPort) (o : Option (PortIndexEntry R))
      → UniqueKeys m.entries
      → UniqueKeys (merge_usable is_ip no_limit m sp o).entries
  unfolding merge_usable
  merge_usable-UniqueKeys m sp none u =
      insert-UniqueKeys sp.port (merged_entry is_ip no_limit sp) m.entries u
  merge_usable-UniqueKeys m sp (some e) u = u

  merge_port-UniqueKeys :
      (m : Merging is_ip no_limit) (sp : SidecarPort)
      → UniqueKeys m.entries
      → UniqueKeys (merge_port is_ip no_limit m sp).entries
  unfolding merge_port
  merge_port-UniqueKeys m sp u =
      let m' = merge_usable is_ip no_limit m sp (lookup sp.port m.entries) in
      let u' = merge_usable-UniqueKeys m sp (lookup sp.port m.entries) u in
      if_cases (λ (x : Merging is_ip no_limit). UniqueKeys x.entries) (not (is_usable is_ip sp)) m
        (if contains sp.port m.seen then m else m') u
        (if_cases (λ (x : Merging is_ip no_limit). UniqueKeys x.entries) (contains sp.port m.seen) m
          m' u u')

  merge_ports-UniqueKeys :
      (sps : List SidecarPort) (m : Merging is_ip no_limit)
      → UniqueKeys m.entries
      → UniqueKeys (merge_ports is_ip no_limit m sps).entries
  unfolding merge_ports
  merge_ports-UniqueKeys [] m u = u
  merge_ports-UniqueKeys (sp ∷ sps) m u =
      merge_ports-UniqueKeys sps (merge_port is_ip no_limit m sp) (merge_port-UniqueKeys m sp u)

  pub merge_loaded-UniqueKeys :
      (index : Map ℤ (PortIndexEntry R)) (d : Option SidecarData)
      → UniqueKeys index
      → UniqueKeys (merge_loaded is_ip no_limit index d)
  unfolding merge_loaded
  merge_loaded-UniqueKeys index none u = u
  merge_loaded-UniqueKeys index (some d) u =
      merge_ports-UniqueKeys d.ports (record { seen = []; entries = index }) u
