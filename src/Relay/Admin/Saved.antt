-- ===== src/Relay/Admin/Saved.antt =====
-- What is left of a change made by the admin API after a restart.
use atlax.Base.{
  ◌≡◌, refl, Bytes, bytes_eq_inst, int_eq, Bool, true, false, Option, none, some, arith,
}
use atlax.Base.Int.{ℤ}
use atlax.Base.Map.{Map, lookup}
use atlax.Config.{PortIndexEntry, all_interfaces}
use atlax.Relay.Router.{
  PortEntry, PortRouter, list_ports, get_port, lookup_port, remove_port_mapping,
  update_port_mapping,
}
use atlax.Relay.Store.{
  File, holds, SidecarData, sidecar_data, save_current_state, load, merge_loaded,
}
use atlax.Relay.Store.Merge.{or_else}
use atlax.Relay.Store.Restart.{restored, restart-restores}
use atlax.Relay.Requests.{
  PortCreateRequest, PortUpdateRequest, BadRequest, validate_create, validate_update,
  merge_port_update,
}
use atlax.Relay.Admin.{
  AdminServer, Response, no_content, created, ok, Starting, listens, fails, fails_late,
  ResourceRequest, on_ports, on_port, deletes_agent, get, post, put, delete, other, create_port,
  create_valid, create_mapped, update_port, update_valid, update_found, update_applied, delete_port,
  delete_found, delete_removed, handle_ports, handle_port_by_id, serve,
}
use atlax.Relay.Admin.Mapped.{AllMapped, serve-AllMapped}

abbrev pub is_success : Response → Bool
is_success (created info) = true
is_success (ok info) = true
is_success no_content = true
is_success _ = false

-- The request is one that saves the ports, and the save works.
abbrev pub saving : ResourceRequest → Bool
saving (on_ports post body start saves) = saves
saving (on_port put port body saves) = saves
saving (on_port delete port body saves) = saves
saving _ = false

module _ (marshal : SidecarData → Bytes) (is_ip : Bytes → Bool) where
  -- The sidecar holds the router's ports.
  abbrev Saved : AdminServer → Type 0
  Saved a = a.store ≡ some (holds (marshal (sidecar_data (list_ports a.router))))

  create_valid-Saved :
      (a : AdminServer) (file : File) (start : Starting) (q : PortCreateRequest)
      (o : Option BadRequest)
      → a.store ≡ some file
      → is_success (create_valid marshal is_ip a start true q o).1 ≡ true
      → Saved (create_valid marshal is_ip a start true q o).0
  unfolding create_valid create_mapped save_current_state
  create_valid-Saved a file start q (some e) s r = absurd (ground (arith, r))
  create_valid-Saved a file (listens ln) q none s r = rw s refl
  create_valid-Saved a file fails_late q none s r = rw s refl
  create_valid-Saved a file fails q none s r = absurd (ground (arith, r))

  update_applied-Saved :
      (a : AdminServer) (file : File) (p : ℤ) (e : PortEntry) (o : Option PortRouter)
      → a.store ≡ some file
      → is_success (update_applied marshal is_ip a true p e o).1 ≡ true
      → Saved (update_applied marshal is_ip a true p e o).0
  unfolding update_applied save_current_state
  update_applied-Saved a file p e none s r = absurd (ground (arith, r))
  update_applied-Saved a file p e (some x) s r = rw s refl

  update_found-Saved :
      (a : AdminServer) (file : File) (p : ℤ) (q : PortUpdateRequest) (o : Option PortEntry)
      → a.store ≡ some file
      → is_success (update_found marshal is_ip a true p q o).1 ≡ true
      → Saved (update_found marshal is_ip a true p q o).0
  unfolding update_found
  update_found-Saved a file p q none s r = absurd (ground (arith, r))
  update_found-Saved a file p q (some e) s r =
      let x = merge_port_update e q in
      update_applied-Saved a file p x
        (update_port_mapping a.router p x.service x.listen_addr x.max_streams) s r

  update_valid-Saved :
      (a : AdminServer) (file : File) (p : ℤ) (q : PortUpdateRequest) (o : Option BadRequest)
      → a.store ≡ some file
      → is_success (update_valid marshal is_ip a true p q o).1 ≡ true
      → Saved (update_valid marshal is_ip a true p q o).0
  unfolding update_valid
  update_valid-Saved a file p q (some e) s r = absurd (ground (arith, r))
  update_valid-Saved a file p q none s r = update_found-Saved a file p q (get_port a.router p) s r

  delete_removed-Saved :
      (a : AdminServer) (file : File) (p : ℤ) (c : Bytes) (o : Option PortRouter)
      → a.store ≡ some file
      → is_success (delete_removed marshal is_ip a true p c o).1 ≡ true
      → Saved (delete_removed marshal is_ip a true p c o).0
  unfolding delete_removed save_current_state
  delete_removed-Saved a file p c none s r = absurd (ground (arith, r))
  delete_removed-Saved a file p c (some x) s r = rw s refl

  delete_found-Saved :
      (a : AdminServer) (file : File) (p : ℤ) (o : Option (Bytes × Bytes))
      → a.store ≡ some file
      → is_success (delete_found marshal is_ip a true p o).1 ≡ true
      → Saved (delete_found marshal is_ip a true p o).0
  unfolding delete_found
  delete_found-Saved a file p none s r = absurd (ground (arith, r))
  delete_found-Saved a file p (some (c, x)) s r =
      delete_removed-Saved a file p c (remove_port_mapping a.router c p) s r

  serve-Saved :
      (a : AdminServer) (file : File) (q : ResourceRequest)
      → a.store ≡ some file
      → saving q ≡ true
      → is_success (serve marshal is_ip a q).1 ≡ true
      → Saved (serve marshal is_ip a q).0
  unfolding serve handle_ports handle_port_by_id create_port update_port delete_port
  serve-Saved a file (on_ports post (some q) start true) s w r =
      create_valid-Saved a file start q (validate_create is_ip q) s r
  serve-Saved a file (on_ports post none start saves) s w r = absurd (ground (arith, r))
  serve-Saved a file (on_ports post (some q) start false) s w r = absurd (ground (arith, w))
  serve-Saved a file (on_ports get body start saves) s w r = absurd (ground (arith, w))
  serve-Saved a file (on_ports put body start saves) s w r = absurd (ground (arith, w))
  serve-Saved a file (on_ports delete body start saves) s w r = absurd (ground (arith, w))
  serve-Saved a file (on_ports other body start saves) s w r = absurd (ground (arith, w))
  serve-Saved a file (on_port method none body saves) s w r = absurd (ground (arith, r))
  serve-Saved a file (on_port put (some p) (some q) true) s w r =
      update_valid-Saved a file p q (validate_update is_ip q) s r
  serve-Saved a file (on_port put (some p) (some q) false) s w r = absurd (ground (arith, w))
  serve-Saved a file (on_port put (some p) none saves) s w r = absurd (ground (arith, r))
  serve-Saved a file (on_port delete (some p) body true) s w r =
      delete_found-Saved a file p (lookup_port a.router p) s r
  serve-Saved a file (on_port delete (some p) body false) s w r = absurd (ground (arith, w))
  serve-Saved a file (on_port get (some p) body saves) s w r = absurd (ground (arith, w))
  serve-Saved a file (on_port post (some p) body saves) s w r = absurd (ground (arith, w))
  serve-Saved a file (on_port other (some p) body saves) s w r = absurd (ground (arith, w))
  serve-Saved a file (deletes_agent c) s w r = absurd (ground (arith, w))

  -- After a POST, PUT or DELETE on the ports that is answered with success and whose save works, a restart
  -- finds each port as the admin API left it, unless the relay.yaml read then lists it: that wins. Every port
  -- was mapped in a way that a restart accepts, "0.0.0.0" is an IP address, a sidecar is configured, and the
  -- JSON library gives back the payload that was written.
  pub serve-restored :
      {R : Type 0} (no_limit : R) (unmarshal : Bytes → Option SidecarData) (a : AdminServer)
      (file : File) (q : ResourceRequest) (index : Map ℤ (PortIndexEntry R)) (p : ℤ)
      → is_ip all_interfaces ≡ true
      → AllMapped is_ip a.router
      → a.store ≡ some file
      → saving q ≡ true
      → is_success (serve marshal is_ip a q).1 ≡ true
      → unmarshal (marshal (sidecar_data (list_ports (serve marshal is_ip a q).0.router)))
        ≡ some (sidecar_data (list_ports (serve marshal is_ip a q).0.router))
      → (f : File) × ((serve marshal is_ip a q).0.store ≡ some f)
        × (lookup p (merge_loaded is_ip no_limit index (load unmarshal f))
            ≡ or_else
                (lookup p index)
                (restored is_ip no_limit p (get_port (serve marshal is_ip a q).0.router p)))
  unfolding get_port save_current_state
  serve-restored no_limit unmarshal a file q index p h m s w r j =
      let m' = serve-AllMapped marshal is_ip h a q m in
      let router = (serve marshal is_ip a q).0.router in
      (
        holds (marshal (sidecar_data (list_ports router))),
        serve-Saved a file q s w r,
        restart-restores is_ip no_limit marshal unmarshal file router index p j m'.unique m'.usable,
      )
