-- ===== src/Relay/Admin/Mapped.antt =====
-- Which mappings the admin API leaves in the router.
use atlax.Base.{
  ◌≡◌, refl, sym, ◌∙◌, inl, inr, Bytes, bytes_eq, bytes_eq_inst, int_eq, Bool, true, Option, none,
  some, arith, Bool-cases,
}
use mathlib.Core.Path.{subst}
use atlax.Base.Int.{ℤ, eqb_ℤ, eqb_ℤ_iff}
use atlax.Base.Map.{Map, lookup, insert, delete, lookup-insert, lookup-delete}
use atlax.Base.Map.Count.{UniqueKeys, insert-UniqueKeys, delete-UniqueKeys}
use atlax.Config.{or_field, all_interfaces}
use atlax.Relay.Router.{
  PortEntry, PortRouter, add_port_mapping, update_port_mapping, update_entry, remove_port_mapping,
  remove_entry, get_port, lookup_port, or_same,
}
use atlax.Relay.Store.{SidecarData}
use atlax.Relay.Store.Restart.{Usable, AllUsable}
use atlax.Relay.Requests.{
  PortCreateRequest, PortUpdateRequest, BadRequest, validate_create, requested, validate_update,
  merge_port_update,
}
use atlax.Relay.Admin.{
  AdminServer, Starting, listens, fails, fails_late, ResourceRequest, on_ports, on_port,
  deletes_agent, Method, get, post, put, other, create_port, create_valid, create_mapped,
  update_port, update_valid, update_found, update_applied, delete_port, delete_found,
  delete_removed, delete_agent, handle_ports, handle_port_by_id, serve,
}

module _ (is_ip : Bytes → Bool) where
  -- Each port is mapped once, in a way that a restart accepts.
  pub record AllMapped (r : PortRouter) : Type 0 where
    pub unique : UniqueKeys r.port_map
    pub usable : AllUsable is_ip r.port_map

  insert-AllUsable :
      (p : ℤ) (e : PortEntry) (m : Map ℤ PortEntry)
      → Usable is_ip p e
      → AllUsable is_ip m
      → AllUsable is_ip (insert p e m)
  insert-AllUsable p e m u a q x l = elim (Bool-cases (eqb_ℤ p q)) [
    | inl y ↦
        let e≡x : e ≡ x = ground (arith, sym (lookup-insert p q e m) ∙ l, y) in
        subst (λ z. Usable is_ip q z) e≡x (subst (λ k. Usable is_ip k e) ((eqb_ℤ_iff p q).0 y) u)
    | inr y ↦ a q x (ground (arith, sym (lookup-insert p q e m) ∙ l, y))
  ]

  delete-AllUsable :
      (p : ℤ) (m : Map ℤ PortEntry) → AllUsable is_ip m → AllUsable is_ip (delete p m)
  delete-AllUsable p m a q x l = a q x (ground (arith, sym (lookup-delete p q m) ∙ l))

  removed-AllMapped :
      (r : PortRouter) (c : Bytes) (p : ℤ) (o : Option PortEntry)
      → AllMapped r
      → AllMapped (or_same r (remove_entry r c p o))
  unfolding remove_entry
  removed-AllMapped r c p none m = m
  removed-AllMapped r c p (some e) m = elim (Bool-cases (bytes_eq e.customer_id c)) [
    | inl y ↦ rw y (record {
      unique = delete-UniqueKeys p r.port_map m.unique;
      usable = delete-AllUsable p r.port_map m.usable;
    })
    | inr y ↦ rw y m
  ]

  requested-Usable :
      (q : PortCreateRequest)
      → is_ip all_interfaces ≡ true
      → validate_create is_ip q ≡ none
      → Usable is_ip q.port (requested q)
  unfolding validate_create
  requested-Usable q h v = ground (arith, h, v)

  merged-Usable :
      (port : ℤ) (e : PortEntry) (q : PortUpdateRequest)
      → Usable is_ip port e
      → validate_update is_ip q ≡ none
      → Usable is_ip port (merge_port_update e q)
  unfolding validate_update
  merged-Usable port e q u v = ground (arith, u, v)

  added-AllMapped :
      (r : PortRouter) (p : ℤ) (e : PortEntry)
      → Usable is_ip p e
      → AllMapped r
      → AllMapped (add_port_mapping r e.customer_id p e.service e.listen_addr e.max_streams)
  unfolding add_port_mapping
  added-AllMapped r p e u m = record {
    unique = insert-UniqueKeys p e r.port_map m.unique;
    usable = insert-AllUsable p e r.port_map u m.usable;
  }

module _ (marshal : SidecarData → Bytes) (is_ip : Bytes → Bool)
    (h : is_ip all_interfaces ≡ true) where
  created-AllMapped :
      (a : AdminServer) (start : Starting) (saves : Bool) (q : PortCreateRequest)
      (o : Option BadRequest)
      → validate_create is_ip q ≡ o
      → AllMapped is_ip a.router
      → AllMapped is_ip (create_valid marshal is_ip a start saves q o).0.router
  unfolding create_valid create_mapped remove_port_mapping
  created-AllMapped a start saves q (some e) v m = m
  created-AllMapped a (listens ln) saves q none v m =
      added-AllMapped is_ip a.router q.port (requested q) (requested-Usable is_ip q h v) m
  created-AllMapped a fails_late saves q none v m =
      added-AllMapped is_ip a.router q.port (requested q) (requested-Usable is_ip q h v) m
  created-AllMapped a fails saves q none v m =
      let r =
        add_port_mapping a.router q.customer_id q.port q.service
          (or_field q.listen_addr all_interfaces) q.max_streams in
      removed-AllMapped is_ip r q.customer_id q.port (lookup q.port r.port_map)
        (added-AllMapped is_ip a.router q.port (requested q) (requested-Usable is_ip q h v) m)

  found-AllMapped :
      (a : AdminServer) (saves : Bool) (p : ℤ) (q : PortUpdateRequest) (o : Option PortEntry)
      → lookup p a.router.port_map ≡ o
      → validate_update is_ip q ≡ none
      → AllMapped is_ip a.router
      → AllMapped is_ip (update_found marshal is_ip a saves p q o).0.router
  unfolding update_found update_applied update_port_mapping update_entry add_port_mapping
  found-AllMapped a saves p q none l v m = m
  found-AllMapped a saves p q (some e) l v m = rw l (
      added-AllMapped is_ip a.router p (merge_port_update e q)
        (merged-Usable is_ip p e q (m.usable p e l) v) m)

  updated-AllMapped :
      (a : AdminServer) (saves : Bool) (p : ℤ) (q : PortUpdateRequest) (o : Option BadRequest)
      → validate_update is_ip q ≡ o
      → AllMapped is_ip a.router
      → AllMapped is_ip (update_valid marshal is_ip a saves p q o).0.router
  unfolding update_valid get_port
  updated-AllMapped a saves p q (some e) v m = m
  updated-AllMapped a saves p q none v m =
      found-AllMapped a saves p q (lookup p a.router.port_map) refl v m

  after_removal-AllMapped :
      (a : AdminServer) (saves : Bool) (p : ℤ) (c : Bytes) (o : Option PortRouter)
      → AllMapped is_ip a.router
      → AllMapped is_ip (or_same a.router o)
      → AllMapped is_ip (delete_removed marshal is_ip a saves p c o).0.router
  unfolding delete_removed
  after_removal-AllMapped a saves p c none m m' = m
  after_removal-AllMapped a saves p c (some r) m m' = m'

  deleted-AllMapped :
      (a : AdminServer) (saves : Bool) (p : ℤ) (o : Option (Bytes × Bytes))
      → AllMapped is_ip a.router
      → AllMapped is_ip (delete_found marshal is_ip a saves p o).0.router
  unfolding delete_found remove_port_mapping
  deleted-AllMapped a saves p none m = m
  deleted-AllMapped a saves p (some (c, s)) m =
      after_removal-AllMapped a saves p c (remove_entry a.router c p (lookup p a.router.port_map)) m
        (removed-AllMapped is_ip a.router c p (lookup p a.router.port_map) m)

  ports-AllMapped :
      (a : AdminServer) (method : Method) (body : Option PortCreateRequest) (start : Starting)
      (saves : Bool)
      → AllMapped is_ip a.router
      → AllMapped is_ip (handle_ports marshal is_ip a method body start saves).0.router
  unfolding handle_ports create_port
  ports-AllMapped a post (some q) start saves m =
      created-AllMapped a start saves q (validate_create is_ip q) refl m
  ports-AllMapped a post none start saves m = m
  ports-AllMapped a get body start saves m = m
  ports-AllMapped a put body start saves m = m
  ports-AllMapped a Method.delete body start saves m = m
  ports-AllMapped a other body start saves m = m

  port-AllMapped :
      (a : AdminServer) (method : Method) (port : Option ℤ) (body : Option PortUpdateRequest)
      (saves : Bool)
      → AllMapped is_ip a.router
      → AllMapped is_ip (handle_port_by_id marshal is_ip a method port body saves).0.router
  unfolding handle_port_by_id update_port delete_port
  port-AllMapped a method none body saves m = m
  port-AllMapped a put (some p) (some q) saves m =
      updated-AllMapped a saves p q (validate_update is_ip q) refl m
  port-AllMapped a put (some p) none saves m = m
  port-AllMapped a Method.delete (some p) body saves m =
      deleted-AllMapped a saves p (lookup_port a.router p) m
  port-AllMapped a get (some p) body saves m = m
  port-AllMapped a post (some p) body saves m = m
  port-AllMapped a other (some p) body saves m = m

  pub serve-AllMapped :
      (a : AdminServer) (q : ResourceRequest)
      → AllMapped is_ip a.router
      → AllMapped is_ip (serve marshal is_ip a q).0.router
  unfolding serve delete_agent
  serve-AllMapped a (on_ports method body start saves) m =
      ports-AllMapped a method body start saves m
  serve-AllMapped a (on_port method port body saves) m = port-AllMapped a method port body saves m
  serve-AllMapped a (deletes_agent c) m = m
