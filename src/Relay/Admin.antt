-- ===== src/Relay/Admin.antt =====
-- pkg/relay/admin.go: the requests of the admin API that change the relay, and the reads of its ports.
-- A request is what the HTTP and JSON libraries make of it: the method, the number in the path if there
-- is one, and the decoded body if it could be decoded. Messages of errors and the formats of audit
-- metadata are left out.
pub mod Updates
pub mod Owners
pub mod Saved
pub mod Mapped
pub mod Calls
use atlax.Base.{
  ℕ, Bytes, bytes_eq_inst, int_eq, Bool, true, false, not, ◌&&◌, ◌||◌, List, [], ◌∷◌, Option, none,
  some, if◌then◌else◌, map,
}
use atlax.Base.Int.{ℤ, pos, leb_ℤ, ltb_ℤ}
use atlax.Base.Map.{lookup}
use atlax.Config.{or_field, all_interfaces}
use atlax.Relay.Registry.{MemoryRegistry, unregister, lookup_agent}
use atlax.Relay.Router.{
  PortInfo, PortEntry, PortRouter, port_info, list_ports, get_port, lookup_port, add_port_mapping,
  update_port_mapping, remove_port_mapping, or_same,
}
use atlax.Relay.Store.{File, SidecarData, is_empty, save_current_state}
use atlax.Relay.Requests.{
  PortCreateRequest, PortUpdateRequest, BadRequest, invalid_json, invalid_port, validate_create,
  requested, validate_update, merge_port_update,
}
use atlax.Relay.Listeners.{ClientListener, start_port, stop_port, or_unchanged}

-- The events of audit.go that these requests emit.
pub data AuditEvent : Type 0 where
  admin_port_added : PortInfo → AuditEvent
  admin_port_updated : PortInfo → AuditEvent
  admin_port_removed : ℤ → Bytes → AuditEvent
  admin_agent_disconnected : Bytes → AuditEvent

pub data Response : Type 0 where
  bad_request : BadRequest → Response
  not_found conflict internal_error method_not_allowed no_content : Response
  created ok : PortInfo → Response
  all_ports : List PortInfo → Response

pub data Method : Type 0 where
  get post put delete other : Method

-- `store` is `none` when no sidecar is configured, and `audits` when there is no emitter; its events are the
-- latest first.
pub record AdminServer : Type 0 where
  pub router : PortRouter
  pub client_listener : ClientListener
  pub registry : MemoryRegistry
  pub store : Option File
  pub audits : Option (List AuditEvent)

-- What `StartPort` does within 50 ms of its start, and after: it listens, it fails, or it fails too late.
pub data Starting : Type 0 where
  listens : ℕ → Starting
  fails fails_late : Starting

abbrev pub emitted : Option (List AuditEvent) → AuditEvent → Option (List AuditEvent)
emitted none e = none
emitted (some es) e = some (e ∷ es)

-- `emitAudit`
abbrev pub emit_audit : AdminServer → AuditEvent → AdminServer
emit_audit a e = record a { audits = emitted a.audits e }

abbrev pub found_port : ℤ → Option PortEntry → Response
found_port port none = not_found
found_port port (some e) = ok (port_info port e)

-- A request for /ports, /ports/{port} or /agents/{id}, with what the system answers while it is served.
-- POST /reload joins them in Admin/Calls.
pub data ResourceRequest : Type 0 where
  on_ports : Method → Option PortCreateRequest → Starting → Bool → ResourceRequest
  on_port : Method → Option ℤ → Option PortUpdateRequest → Bool → ResourceRequest
  deletes_agent : Bytes → ResourceRequest

module _ (marshal : SidecarData → Bytes) (is_ip : Bytes → Bool) where
  -- The snapshot of the router goes to the sidecar, if there is one; `saves` tells whether that works.
  abbrev pub saved_file : Option File → Bool → PortRouter → Option File
  saved_file none saves r = none
  saved_file (some f) saves r = some (save_current_state marshal saves f (list_ports r))

  abbrev pub persist : AdminServer → Bool → AdminServer
  persist a saves = record a { store = saved_file a.store saves a.router }

  abbrev pub mapped : AdminServer → PortCreateRequest → AdminServer
  mapped a q = record a {
    router =
        add_port_mapping a.router q.customer_id q.port q.service
          (or_field q.listen_addr all_interfaces) q.max_streams;
  }

  abbrev pub announced : AdminServer → Bool → PortCreateRequest → AdminServer × Response
  announced a saves q =
      let info = port_info q.port (requested q) in
      (emit_audit (persist a saves) (admin_port_added info), created info)

  -- The mapping is stored, and taken back if the listener fails in time.
  unfoldable pub create_mapped :
      AdminServer → Starting → Bool → PortCreateRequest → AdminServer × Response
  create_mapped a fails saves q = (
    record a { router = or_same a.router (remove_port_mapping a.router q.customer_id q.port) },
    conflict,
  )
  create_mapped a fails_late saves q = announced a saves q
  create_mapped a (listens ln) saves q =
      announced
        (record a {
          client_listener =
              or_unchanged a.client_listener (start_port a.client_listener (some ln) q.port);
        })
        saves q

  unfoldable pub create_valid :
      AdminServer → Starting → Bool → PortCreateRequest → Option BadRequest → AdminServer × Response
  unfolding create_mapped
  create_valid a start saves q (some e) = (a, bad_request e)
  create_valid a start saves q none = create_mapped (mapped a q) start saves q

  unfoldable pub create_port :
      AdminServer → Starting → Bool → Option PortCreateRequest → AdminServer × Response
  unfolding create_valid validate_create
  create_port a start saves none = (a, bad_request invalid_json)
  create_port a start saves (some q) = create_valid a start saves q (validate_create is_ip q)

  -- `UpdatePortMapping` and what follows it.
  unfoldable pub update_applied :
      AdminServer → Bool → ℤ → PortEntry → Option PortRouter → AdminServer × Response
  update_applied a saves port entry none = (a, not_found)
  update_applied a saves port entry (some r) =
      let info = port_info port entry in
      (emit_audit (persist (record a { router = r }) saves) (admin_port_updated info), ok info)

  -- The port is read by `GetPort`; the option is what is there.
  unfoldable pub update_found :
      AdminServer → Bool → ℤ → PortUpdateRequest → Option PortEntry → AdminServer × Response
  unfolding update_applied
  update_found a saves port q none = (a, not_found)
  update_found a saves port q (some existing) =
      let entry = merge_port_update existing q in
      update_applied a saves port entry
        (update_port_mapping a.router port entry.service entry.listen_addr entry.max_streams)

  unfoldable pub update_valid :
      AdminServer → Bool → ℤ → PortUpdateRequest → Option BadRequest → AdminServer × Response
  unfolding update_found
  update_valid a saves port q (some e) = (a, bad_request e)
  update_valid a saves port q none = update_found a saves port q (get_port a.router port)

  unfoldable pub update_port :
      AdminServer → Bool → ℤ → Option PortUpdateRequest → AdminServer × Response
  unfolding update_valid validate_update
  update_port a saves port none = (a, bad_request invalid_json)
  update_port a saves port (some q) = update_valid a saves port q (validate_update is_ip q)

  -- `deletePort`: the mapping, then the listener, then the sidecar.
  unfoldable pub delete_removed :
      AdminServer → Bool → ℤ → Bytes → Option PortRouter → AdminServer × Response
  delete_removed a saves port customer_id none = (a, internal_error)
  delete_removed a saves port customer_id (some r) = (
    emit_audit
        (persist
          (record a {
            router = r;
            client_listener = or_unchanged a.client_listener (stop_port a.client_listener port);
          })
          saves)
        (admin_port_removed port customer_id),
    no_content,
  )

  unfoldable pub delete_found :
      AdminServer → Bool → ℤ → Option (Bytes × Bytes) → AdminServer × Response
  unfolding delete_removed
  delete_found a saves port none = (a, not_found)
  delete_found a saves port (some (customer_id, service)) =
      delete_removed a saves port customer_id (remove_port_mapping a.router customer_id port)

  unfoldable pub delete_port : AdminServer → Bool → ℤ → AdminServer × Response
  unfolding delete_found
  delete_port a saves port = delete_found a saves port (lookup_port a.router port)

  -- `deleteAgent`; `Unregister` of the registry reports no error.
  unfoldable pub delete_agent : AdminServer → Bytes → AdminServer × Response
  delete_agent a customer_id = (
    emit_audit (record a { registry = unregister a.registry customer_id })
        (admin_agent_disconnected customer_id),
    no_content,
  )

  -- `handlePorts`
  unfoldable pub handle_ports :
      AdminServer → Method → Option PortCreateRequest → Starting → Bool → AdminServer × Response
  handle_ports a get body start saves = (a, all_ports (list_ports a.router))
  handle_ports a post body start saves = create_port a start saves body
  handle_ports a put body start saves = (a, method_not_allowed)
  handle_ports a delete body start saves = (a, method_not_allowed)
  handle_ports a other body start saves = (a, method_not_allowed)

  -- `handlePortByID`; the port is `none` if the path holds no number.
  unfoldable pub handle_port_by_id :
      AdminServer → Method → Option ℤ → Option PortUpdateRequest → Bool → AdminServer × Response
  handle_port_by_id a method none body saves = (a, bad_request invalid_port)
  handle_port_by_id a get (some port) body saves = (a, found_port port (get_port a.router port))
  handle_port_by_id a put (some port) body saves = update_port a saves port body
  handle_port_by_id a delete (some port) body saves = delete_port a saves port
  handle_port_by_id a post (some port) body saves = (a, method_not_allowed)
  handle_port_by_id a other (some port) body saves = (a, method_not_allowed)

  unfoldable pub serve : AdminServer → ResourceRequest → AdminServer × Response
  unfolding handle_ports handle_port_by_id delete_agent
  serve a (on_ports method body start saves) = handle_ports a method body start saves
  serve a (on_port method port body saves) = handle_port_by_id a method port body saves
  serve a (deletes_agent customer_id) = delete_agent a customer_id

  unfoldable pub serve_all : AdminServer → List ResourceRequest → AdminServer
  serve_all a [] = a
  serve_all a (q ∷ qs) = serve_all (serve a q).0 qs
