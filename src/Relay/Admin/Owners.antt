-- ===== src/Relay/Admin/Owners.antt =====
-- The requests for /ports, /ports/{port} and /agents/{id}, and the tenant of a port.
use atlax.Base.{
  ◌≡◌, refl, Bytes, bytes_eq_inst, int_eq, Bool, true, not, [], ◌∷◌, Option, none, some, arith,
}
use mathlib.Core.Path.{subst}
use atlax.Base.Int.{ℤ, eqb_ℤ}
use atlax.Base.Map.{lookup}
use atlax.Config.{or_field, all_interfaces}
use atlax.Relay.Router.{
  PortEntry, PortRouter, update_port_mapping, update_entry, remove_port_mapping, get_port,
  lookup_port, or_same, adds, updates, removes, step, run,
}
use atlax.Relay.Router.Ports.{owner, run-owner}
use atlax.Relay.Store.{SidecarData}
use atlax.Relay.Requests.{
  PortCreateRequest, PortUpdateRequest, BadRequest, validate_create, validate_update,
  merge_port_update,
}
use atlax.Relay.Admin.{
  AdminServer, Starting, listens, fails, fails_late, ResourceRequest, on_ports, on_port,
  deletes_agent, Method, get, post, put, other, create_port, create_valid, create_mapped,
  update_port, update_valid, update_found, update_applied, delete_port, delete_found,
  delete_removed, delete_agent, handle_ports, handle_port_by_id, serve,
}

-- The request neither posts this port nor deletes it.
abbrev pub leaves : ℤ → ResourceRequest → Bool
leaves p (on_ports post (some q) start saves) = not (eqb_ℤ q.port p)
leaves p (on_port Method.delete (some k) body saves) = not (eqb_ℤ k p)
leaves p _ = true

module _ (marshal : SidecarData → Bytes) (is_ip : Bytes → Bool) where
  create_valid-owner :
      (a : AdminServer) (start : Starting) (saves : Bool) (q : PortCreateRequest)
      (o : Option BadRequest) (p : ℤ) (c : Bytes)
      → not (eqb_ℤ q.port p) ≡ true
      → owner (get_port a.router p) ≡ some c
      → owner (get_port (create_valid marshal is_ip a start saves q o).0.router p) ≡ some c
  unfolding create_valid create_mapped run step
  create_valid-owner a start saves q (some e) p c n w = w
  create_valid-owner a (listens ln) saves q none p c n w =
      run-owner a.router
        (adds q.customer_id q.port q.service (or_field q.listen_addr all_interfaces) q.max_streams
          ∷ [])
        p c (n, tt) w
  create_valid-owner a fails_late saves q none p c n w =
      run-owner a.router
        (adds q.customer_id q.port q.service (or_field q.listen_addr all_interfaces) q.max_streams
          ∷ [])
        p c (n, tt) w
  create_valid-owner a fails saves q none p c n w =
      run-owner a.router
        (adds q.customer_id q.port q.service (or_field q.listen_addr all_interfaces) q.max_streams
          ∷ removes q.customer_id q.port
          ∷ [])
        p c (n, (ground (arith, n), tt)) w

  update_found-owner :
      (a : AdminServer) (saves : Bool) (k : ℤ) (q : PortUpdateRequest) (o : Option PortEntry)
      (p : ℤ) (c : Bytes)
      → lookup k a.router.port_map ≡ o
      → owner (get_port a.router p) ≡ some c
      → owner (get_port (update_found marshal is_ip a saves k q o).0.router p) ≡ some c
  unfolding update_found update_applied update_port_mapping update_entry run step
  update_found-owner a saves k q none p c l w = w
  update_found-owner a saves k q (some e) p c l w =
      let x = merge_port_update e q in
      rw l (
        subst
          (λ z.
            owner (
              get_port
                (or_same a.router (update_entry a.router k x.service x.listen_addr x.max_streams z))
                p)
            ≡ some c)
          l
          (run-owner a.router (updates k x.service x.listen_addr x.max_streams ∷ []) p c (refl, tt)
            w))

  update_valid-owner :
      (a : AdminServer) (saves : Bool) (k : ℤ) (q : PortUpdateRequest) (o : Option BadRequest)
      (p : ℤ) (c : Bytes)
      → owner (get_port a.router p) ≡ some c
      → owner (get_port (update_valid marshal is_ip a saves k q o).0.router p) ≡ some c
  unfolding update_valid get_port
  update_valid-owner a saves k q (some e) p c w = w
  update_valid-owner a saves k q none p c w =
      update_found-owner a saves k q (lookup k a.router.port_map) p c refl w

  removed-owner :
      (a : AdminServer) (saves : Bool) (k : ℤ) (d : Bytes) (o : Option PortRouter) (p : ℤ)
      (c : Bytes)
      → owner (get_port a.router p) ≡ some c
      → owner (get_port (or_same a.router o) p) ≡ some c
      → owner (get_port (delete_removed marshal is_ip a saves k d o).0.router p) ≡ some c
  unfolding delete_removed
  removed-owner a saves k d none p c w w' = w
  removed-owner a saves k d (some r) p c w w' = w'

  delete_found-owner :
      (a : AdminServer) (saves : Bool) (k : ℤ) (o : Option (Bytes × Bytes)) (p : ℤ) (c : Bytes)
      → not (eqb_ℤ k p) ≡ true
      → owner (get_port a.router p) ≡ some c
      → owner (get_port (delete_found marshal is_ip a saves k o).0.router p) ≡ some c
  unfolding delete_found run step
  delete_found-owner a saves k none p c n w = w
  delete_found-owner a saves k (some (d, s)) p c n w =
      removed-owner a saves k d (remove_port_mapping a.router d k) p c w
        (run-owner a.router (removes d k ∷ []) p c (ground (arith, n), tt) w)

  pub serve-owner :
      (a : AdminServer) (q : ResourceRequest) (p : ℤ) (c : Bytes)
      → leaves p q ≡ true
      → owner (get_port a.router p) ≡ some c
      → owner (get_port (serve marshal is_ip a q).0.router p) ≡ some c
  unfolding serve handle_ports handle_port_by_id delete_agent create_port update_port delete_port
  serve-owner a (on_ports post (some q) start saves) p c n w =
      create_valid-owner a start saves q (validate_create is_ip q) p c n w
  serve-owner a (on_ports post none start saves) p c n w = w
  serve-owner a (on_ports get body start saves) p c n w = w
  serve-owner a (on_ports put body start saves) p c n w = w
  serve-owner a (on_ports Method.delete body start saves) p c n w = w
  serve-owner a (on_ports other body start saves) p c n w = w
  serve-owner a (on_port method none body saves) p c n w = w
  serve-owner a (on_port put (some k) (some q) saves) p c n w =
      update_valid-owner a saves k q (validate_update is_ip q) p c w
  serve-owner a (on_port put (some k) none saves) p c n w = w
  serve-owner a (on_port Method.delete (some k) body saves) p c n w =
      delete_found-owner a saves k (lookup_port a.router k) p c n w
  serve-owner a (on_port get (some k) body saves) p c n w = w
  serve-owner a (on_port post (some k) body saves) p c n w = w
  serve-owner a (on_port other (some k) body saves) p c n w = w
  serve-owner a (deletes_agent d) p c n w = w
