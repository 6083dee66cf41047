-- ===== src/Relay/Admin/Updates.antt =====
-- What the admin API does to the mapping of a port in one request.
use atlax.Base.{
  ◌≡◌, ◌⊎◌, refl, ◌∙◌, inl, inr, Bytes, bytes_eq_inst, bytes_eq_iff, int_eq, Bool, true, false, [],
  ◌∷◌, Option, none, some, arith, if◌then◌else◌,
}
use atlax.Base.Int.{ℤ, eqb_ℤ, eqb_ℤ_iff}
use atlax.Base.Map.{lookup, insert, lookup-insert, lookup-delete}
use atlax.Relay.Router.{
  PortEntry, PortRouter, port_info, add_port_mapping, update_port_mapping, update_entry,
  remove_port_mapping, remove_entry, get_port, or_same,
}
use atlax.Config.{or_field}
use atlax.Relay.Store.{SidecarData}
use atlax.Relay.Requests.{
  PortCreateRequest, PortUpdateRequest, BadRequest, invalid_json, validate_create, requested,
  validate_update, or_limit, merge_port_update,
}
use atlax.Relay.Admin.{
  AdminServer, Response, bad_request, not_found, ok, Starting, listens, fails, fails_late,
  create_port, create_valid, create_mapped, update_port, update_valid, update_found, update_applied,
}

module _ (marshal : SidecarData → Bytes) (is_ip : Bytes → Bool) where
  -- What a field is after a request: the request's, if that sets it, else as it was.
  abbrev pub NewField : Bytes → Bytes → Bytes → Type 0
  NewField [] old new = new ≡ old
  NewField (b ∷ v) old new = new ≡ b ∷ v

  abbrev pub NewLimit : Option ℤ → ℤ → ℤ → Type 0
  NewLimit none old new = new ≡ old
  NewLimit (some n) old new = new ≡ n

  pub record Merged (e e' : PortEntry) (q : PortUpdateRequest) : Type 0 where
    pub customer_kept : e'.customer_id ≡ e.customer_id
    pub new_service : NewField q.service e.service e'.service
    pub new_limit : NewLimit q.max_streams e.max_streams e'.max_streams
    pub new_address : NewField q.listen_addr e.listen_addr e'.listen_addr

  -- The mapping of a port after an update: the old one with the fields that the request sets.
  abbrev pub Updated : AdminServer → ℤ → Option PortUpdateRequest → AdminServer × Response → Type 0
  Updated a p body (a', response) =
      (q : PortUpdateRequest) × (e : PortEntry) × (e' : PortEntry) × (body ≡ some q)
      × (get_port a.router p ≡ some e)
      × Merged e e' q
      × (response ≡ ok (port_info p e'))
      × ((k : ℤ) → get_port a'.router k ≡ (if eqb_ℤ p k then some e' else get_port a.router k))

  field_lem : (v old : Bytes) → NewField v old (or_field v old)
  field_lem [] old = refl
  field_lem (b ∷ v) old = refl

  limit_lem : (v : Option ℤ) (old : ℤ) → NewLimit v old (or_limit v old)
  limit_lem none old = refl
  limit_lem (some n) old = refl

  merge-Merged : (e : PortEntry) (q : PortUpdateRequest) → Merged e (merge_port_update e q) q
  merge-Merged e q = record {
    customer_kept = refl;
    new_service = field_lem q.service e.service;
    new_limit = limit_lem q.max_streams e.max_streams;
    new_address = field_lem q.listen_addr e.listen_addr;
  }

  -- The update is refused: nothing changes.
  abbrev pub Refused : AdminServer → AdminServer × Response → Type 0
  Refused a (a', response) =
      (a' ≡ a) × ((response ≡ not_found) ⊎ ((e : BadRequest) × (response ≡ bad_request e)))

  update_found-cases :
      (a : AdminServer) (saves : Bool) (p : ℤ) (q : PortUpdateRequest) (o : Option PortEntry)
      → lookup p a.router.port_map ≡ o
      → Refused a (update_found marshal is_ip a saves p q o)
        ⊎ Updated a p (some q) (update_found marshal is_ip a saves p q o)
  unfolding update_found update_applied update_port_mapping update_entry get_port
  update_found-cases a saves p q none l = inl (refl, inl refl)
  update_found-cases a saves p q (some e) l = rw l (
      inr (
        q,
        e,
        merge_port_update e q,
        refl,
        refl,
        merge-Merged e q,
        refl,
        λ k. lookup-insert p k (merge_port_update e q) a.router.port_map,
      ))

  update_valid-cases :
      (a : AdminServer) (saves : Bool) (p : ℤ) (q : PortUpdateRequest) (o : Option BadRequest)
      → Refused a (update_valid marshal is_ip a saves p q o)
        ⊎ Updated a p (some q) (update_valid marshal is_ip a saves p q o)
  unfolding update_valid get_port
  update_valid-cases a saves p q (some e) = inl (refl, inr (e, refl))
  update_valid-cases a saves p q none =
      update_found-cases a saves p q (lookup p a.router.port_map) refl

  -- A PUT for a port either is refused, as a bad request or because the port is not mapped, and then
  -- changes nothing, or it sets the fields that the request names in the mapping of that port, keeps its
  -- customer and its other fields, and leaves the mappings of all other ports alone.
  pub update_port-cases :
      (a : AdminServer) (saves : Bool) (p : ℤ) (body : Option PortUpdateRequest)
      → Refused a (update_port marshal is_ip a saves p body)
        ⊎ Updated a p body (update_port marshal is_ip a saves p body)
  unfolding update_port
  update_port-cases a saves p none = inl (refl, inr (invalid_json, refl))
  update_port-cases a saves p (some q) = update_valid-cases a saves p q (validate_update is_ip q)

  abbrev pub in_time : Starting → Bool
  in_time fails = false
  in_time fails_late = true
  in_time (listens ln) = true

  -- A mapping taken back right after it was stored is gone.
  undone_lookup :
      (r : PortRouter) (p k : ℤ) (e : PortEntry) (o : Option PortEntry)
      → o ≡ some e
      → lookup k (or_same r (remove_entry r e.customer_id p o)).port_map
        ≡ (if eqb_ℤ p k then none else lookup k r.port_map)
  unfolding remove_entry
  undone_lookup r p k e o x =
      rw (x, (bytes_eq_iff e.customer_id e.customer_id).1 refl) (lookup-delete p k r.port_map)

  created_router :
      (a : AdminServer) (start : Starting) (saves : Bool) (q : PortCreateRequest) (k : ℤ)
      → get_port (create_valid marshal is_ip a start saves q none).0.router k ≡ (
          if eqb_ℤ q.port k
          then (if in_time start then some (requested q) else none)
          else get_port a.router k)
  unfolding create_valid create_mapped get_port add_port_mapping remove_port_mapping
  created_router a (listens ln) saves q k = lookup-insert q.port k (requested q) a.router.port_map
  created_router a fails_late saves q k = lookup-insert q.port k (requested q) a.router.port_map
  created_router a fails saves q k =
      let e = requested q in
      let l = lookup-insert q.port k e a.router.port_map in
      undone_lookup
        (add_port_mapping a.router e.customer_id q.port e.service e.listen_addr e.max_streams)
        q.port k e (lookup q.port (insert q.port e a.router.port_map))
        (lookup-insert q.port q.port e a.router.port_map
          ∙ rw ((eqb_ℤ_iff q.port q.port).1 refl) refl)
      ∙ ground (arith, l)

  -- A POST that passes the checks makes the mapping of its port the one that it asks for, whoever had
  -- the port before; if the listener fails in time, the port is afterwards not mapped at all. The
  -- mappings of other ports stay as they were.
  pub create_port-replaces :
      (a : AdminServer) (start : Starting) (saves : Bool) (q : PortCreateRequest) (k : ℤ)
      → validate_create is_ip q ≡ none
      → get_port (create_port marshal is_ip a start saves (some q)).0.router k ≡ (
          if eqb_ℤ q.port k
          then (if in_time start then some (requested q) else none)
          else get_port a.router k)
  unfolding create_port
  create_port-replaces a start saves q k v = rw v (created_router a start saves q k)
