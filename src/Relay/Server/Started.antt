-- ===== src/Relay/Server/Started.antt =====
-- Which ports the relay serves once it has started.
use atlax.Base.{
  ◌≡◌, refl, sym, ap, ◌∙◌, inl, inr, ℕ, Bytes, Bool, true, [], ◌∷◌, Option, none, some, Bool-cases,
  int_eq,
}
use atlax.Base.Int.{ℤ, eqb_ℤ, eqb_ℤ_iff}
use atlax.Base.Map.{Map, lookup, lookup-insert}
use atlax.Base.Map.Count.{UniqueKeys}
use atlax.Config.{PortIndexEntry, or_field, all_interfaces}
use atlax.Relay.Router.{PortEntry, PortRouter, add_port_mapping, get_port, list_ports}
use atlax.Relay.Store.{File, SidecarData, sidecar_data, load, merge_loaded}
use atlax.Relay.Store.Merge.{or_else, merge_loaded-UniqueKeys}
use atlax.Relay.Store.Restart.{restored}
use atlax.Relay.Admin.{AdminServer, ResourceRequest, serve}
use atlax.Relay.Admin.Mapped.{AllMapped}
use atlax.Relay.Admin.Saved.{saving, is_success, serve-restored}
use atlax.Relay.Server.{Relay, add_mappings, start}

or_else-none : (o : Option PortEntry) → or_else o none ≡ o
or_else-none none = refl
or_else-none (some e) = refl

-- The mapping that a restart makes of one that the router had: an address that was left out is filled in.
abbrev pub resumed : Option PortEntry → Option PortEntry
resumed none = none
resumed (some e) = some (record e { listen_addr = or_field e.listen_addr all_interfaces })

module _ {R : Type 0} where
  abbrev pub mapped_entry : PortIndexEntry R → PortEntry
  mapped_entry e = record {
    customer_id = e.customer_id;
    service = e.service;
    max_streams = e.max_streams;
    listen_addr = e.listen_addr;
  }

  abbrev pub as_mapped : Option (PortIndexEntry R) → Option PortEntry
  as_mapped none = none
  as_mapped (some e) = some (mapped_entry e)

  lookup-add_mappings :
      (index : Map ℤ (PortIndexEntry R)) (r : PortRouter) (p : ℤ)
      → UniqueKeys index
      → lookup p (add_mappings r index).port_map
        ≡ or_else (as_mapped (lookup p index)) (lookup p r.port_map)
  unfolding add_mappings lookup add_port_mapping
  lookup-add_mappings [] r p u = refl
  lookup-add_mappings ((port, e) ∷ index) r p u =
      let r' = add_port_mapping r e.customer_id port e.service e.listen_addr e.max_streams in
      elim (Bool-cases (eqb_ℤ port p)) [
        | inl y ↦
            let absent : lookup p index ≡ none =
              ap (λ k. lookup k index) (sym ((eqb_ℤ_iff port p).0 y)) ∙ u.0 in
            lookup-add_mappings index r' p u.1
            ∙ rw (absent, lookup-insert port p (mapped_entry e) r.port_map, y) refl
        | inr y ↦
            lookup-add_mappings index r' p u.1
            ∙ rw y (
                ap (or_else (as_mapped (lookup p index)))
                  (lookup-insert port p (mapped_entry e) r.port_map ∙ rw y refl))
      ]

  start-lookup :
      (bound : ℤ → Option ℕ) (s : Relay) (index : Map ℤ (PortIndexEntry R)) (p : ℤ)
      → UniqueKeys index
      → s.router.port_map ≡ []
      → get_port (start bound s index).router p ≡ as_mapped (lookup p index)
  unfolding start get_port lookup
  start-lookup bound s index p u e =
      lookup-add_mappings index s.router p u ∙ rw e (or_else-none (as_mapped (lookup p index)))

  restored_mapped :
      (is_ip : Bytes → Bool) (no_limit : R) (p : ℤ) (i : Option (PortIndexEntry R))
      (o : Option PortEntry)
      → as_mapped (or_else i (restored is_ip no_limit p o)) ≡ or_else (as_mapped i) (resumed o)
  restored_mapped is_ip no_limit p none none = refl
  restored_mapped is_ip no_limit p none (some e) = refl
  restored_mapped is_ip no_limit p (some x) o = refl

  -- The admin API answers a POST, PUT or DELETE on the ports with success, and the ports are saved. Then the
  -- relay stops and starts again, with an index of a relay.yaml in which each port stands once. The new
  -- router maps every port as that index does, or, if the index has it not, as the admin API had left
  -- it, to the same tenant, service and limit, an empty address being filled in. Before the request each
  -- port was mapped in a way that a restart accepts; "0.0.0.0" is an IP address, a sidecar is configured,
  -- and the JSON library gives back the payload that was written.
  pub start-served :
      (marshal : SidecarData → Bytes) (unmarshal : Bytes → Option SidecarData)
      (is_ip : Bytes → Bool) (no_limit : R) (a : AdminServer) (file : File) (q : ResourceRequest)
      (bound : ℤ → Option ℕ) (fresh : Relay) (index : Map ℤ (PortIndexEntry R)) (p : ℤ)
      → is_ip all_interfaces ≡ true
      → AllMapped is_ip a.router
      → a.store ≡ some file
      → saving q ≡ true
      → is_success (serve marshal is_ip a q).1 ≡ true
      → unmarshal (marshal (sidecar_data (list_ports (serve marshal is_ip a q).0.router)))
        ≡ some (sidecar_data (list_ports (serve marshal is_ip a q).0.router))
      → UniqueKeys index
      → fresh.router.port_map ≡ []
      → (f : File) × ((serve marshal is_ip a q).0.store ≡ some f)
        × (get_port
              (start bound fresh (merge_loaded is_ip no_limit index (load unmarshal f))).router
              p
            ≡ or_else
                (as_mapped (lookup p index))
                (resumed (get_port (serve marshal is_ip a q).0.router p)))
  start-served marshal unmarshal is_ip no_limit a file q bound fresh index p h m s w r j u e =
      let x = serve-restored marshal is_ip no_limit unmarshal a file q index p h m s w r j in
      (
        x.0,
        x.1,
        start-lookup bound fresh (merge_loaded is_ip no_limit index (load unmarshal x.0)) p
              (merge_loaded-UniqueKeys is_ip no_limit index (load unmarshal x.0) u) e
            ∙ ap as_mapped x.2
            ∙ restored_mapped is_ip no_limit p (lookup p index)
                (get_port (serve marshal is_ip a q).0.router p),
      )
