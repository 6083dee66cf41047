-- ===== src/Relay/Store/Restart.antt =====
-- What a restart makes of the ports that were saved.
use atlax.Base.{
  ◌≡◌, refl, ◌∙◌, ap, inl, inr, Bytes, Bool, true, [], ◌∷◌, Option, none, some, arith, int_eq,
  Bool-cases, map, bytes_eq,
}
use atlax.Base.Int.{ℤ, eqb_ℤ, eqb_ℤ_iff}
use atlax.Base.Map.{Map, lookup}
use atlax.Base.Map.Count.{UniqueKeys}
use atlax.Config.{PortIndexEntry}
use atlax.Relay.Router.{PortEntry, PortRouter, port_info, list_ports, list_entries}
use atlax.Relay.Store.{
  File, SidecarData, sidecar_port, sidecar_data, save_current_state, load, is_usable, merged_entry,
  merge_loaded, check_version,
}
use atlax.Relay.Store.Merge.{or_else, first_usable, merge_loaded-first_usable}

module _ (is_ip : Bytes → Bool) where
  -- The mapping passes the checks that a restart makes.
  abbrev pub Usable : ℤ → PortEntry → Type 0
  Usable port e = is_usable is_ip (sidecar_port (port_info port e)) ≡ true

  abbrev pub AllUsable : Map ℤ PortEntry → Type 0
  AllUsable m = (port : ℤ) (e : PortEntry) → lookup port m ≡ some e → Usable port e

  tail-AllUsable :
      (port : ℤ) (e : PortEntry) (m : Map ℤ PortEntry)
      → UniqueKeys ((port, e) ∷ m)
      → AllUsable ((port, e) ∷ m)
      → AllUsable m
  unfolding lookup
  tail-AllUsable port e m u a q x l = elim (Bool-cases (eqb_ℤ port q)) [
    | inl y ↦ absurd (ground (arith, u.0, l, ap (λ k. lookup k m) ((eqb_ℤ_iff port q).0 y)))
    | inr y ↦ a q x (rw y l)
  ]

module _ {R : Type 0} (is_ip : Bytes → Bool) (no_limit : R) where
  -- What the index says of a port that the router had.
  abbrev pub restored : ℤ → Option PortEntry → Option (PortIndexEntry R)
  restored port none = none
  restored port (some e) = some (merged_entry is_ip no_limit (sidecar_port (port_info port e)))

  first_usable-list_entries :
      (m : Map ℤ PortEntry) (p : ℤ)
      → UniqueKeys m
      → AllUsable is_ip m
      → first_usable is_ip no_limit p (map sidecar_port (list_entries m)) ≡ restored p (lookup p m)
  unfolding lookup
  first_usable-list_entries [] p u a = refl
  first_usable-list_entries ((port, e) ∷ m) p u a =
      let ih = first_usable-list_entries m p u.1 (tail-AllUsable is_ip port e m u a) in
      let self : Usable is_ip port e = a port e (rw ((eqb_ℤ_iff port port).1 refl) refl) in
      elim (Bool-cases (eqb_ℤ port p)) [ inl y ↦ rw (self, y) refl | inr y ↦ rw (self, y) ih ]

  -- A router each of whose ports passes the checks is saved, and the file is loaded at the next start:
  -- then each port has the mapping of the relay.yaml read then, or, if that lists it not, the
  -- mapping that the router had, without a rate limit; the payload is one that the JSON library gives back.
  pub restart-restores :
      (marshal : SidecarData → Bytes) (unmarshal : Bytes → Option SidecarData) (file : File)
      (r : PortRouter) (index : Map ℤ (PortIndexEntry R)) (p : ℤ)
      → unmarshal (marshal (sidecar_data (list_ports r))) ≡ some (sidecar_data (list_ports r))
      → UniqueKeys r.port_map
      → AllUsable is_ip r.port_map
      → lookup p (
          merge_loaded is_ip no_limit index
            (load unmarshal (save_current_state marshal true file (list_ports r))))
        ≡ or_else (lookup p index) (restored p (lookup p r.port_map))
  unfolding load save_current_state check_version bytes_eq
  restart-restores marshal unmarshal file r index p j u a = rw j (
      merge_loaded-first_usable is_ip no_limit index (sidecar_data (list_ports r)) p
      ∙ ap (or_else (lookup p index)) (first_usable-list_entries r.port_map p u a))
