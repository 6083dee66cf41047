-- ===== src/Agent/Services/Announced.antt =====
-- What an agent is configured to serve is what the relay reports of it, and what the agent finds.
use mathlib.Core.Path.{subst}
use atlax.Base.{
  ◌≤◌, ◌≡◌, ◌≢◌, refl, ap, ◌∙◌, map, if◌then◌else◌, Bytes, bytes_eq_inst, bytes_eq_iff, true, false,
  List, [], ◌∷◌, none, some, ◌=?◌, All, length, ltb, Bool-cases, inl, inr, arith,
}
use atlax.Base.Map.{Map, lookup, insert, lookup-insert}
use atlax.Protocol.Frame.{Frame, cmd_service_list, max_payload_size}
use atlax.Protocol.WriteQueue.{priority_control}
use atlax.Protocol.Mux.Session.{MuxSession, mk_frame, send}
use atlax.Protocol.Mux.ServiceList.{
  max_service_list_count, join_lines, any_line_break, is_empty, parse_service_list,
  send_service_list,
}
use atlax.Protocol.Mux.ServiceList.RoundTrip.{NonEmpty, parse-join}
use atlax.Protocol.Mux.Handlers.{handle_frame, handle_service_list, offer}
use atlax.Relay.Reports.{LiveConnection, set_services}
use atlax.Agent.Services.{
  ServiceMapping, service_names, announce, after_send, add_services, service_map, await_services,
  take_list,
}

-- The names of the configured services, in order, less the empty ones.
abbrev non_empty : List Bytes → List Bytes
non_empty [] = []
non_empty ([] ∷ names) = non_empty names
non_empty ((b ∷ name) ∷ names) = (b ∷ name) ∷ non_empty names

abbrev pub configured_names : List ServiceMapping → List Bytes
configured_names services = non_empty (map (λ (s : ServiceMapping). s.name) services)

next_name :
    (n : Bytes) (names names' : List Bytes)
    → names ≡ non_empty names'
    → (if is_empty n then names else n ∷ names) ≡ non_empty (n ∷ names')
next_name [] names names' e = e
next_name (b ∷ n) names names' e = ap (λ l. (b ∷ n) ∷ l) e

configured_lem :
    (services : List ServiceMapping) → service_names services ≡ configured_names services
unfolding service_names
configured_lem [] = refl
configured_lem (s ∷ services) = next_name s.name _ _ (configured_lem services)

abbrev pub announcement : List Bytes → Frame
announcement names = mk_frame cmd_service_list 0 0 (join_lines names)

-- A name that the agent finds an address for.
abbrev pub IsServed : Map Bytes Bytes → Bytes → Type 0
IsServed m name = (addr : Bytes) × (lookup name m ≡ some addr)

service_names-NonEmpty : (services : List ServiceMapping) → All NonEmpty (service_names services)
unfolding service_names
service_names-NonEmpty [] = tt
service_names-NonEmpty (s ∷ services) = elim (Bool-cases (is_empty s.name)) [
  | inl e ↦ rw e (service_names-NonEmpty services)
  | inr e ↦ rw e (e, service_names-NonEmpty services)
]

insert-IsServed :
    (m : Map Bytes Bytes) (name addr n : Bytes) → IsServed m n → IsServed (insert name addr m) n
insert-IsServed m name addr n h = elim (Bool-cases (name =? n)) [
  | inl e ↦ (addr, lookup-insert name n addr m ∙ rw e refl)
  | inr e ↦ (h.0, lookup-insert name n addr m ∙ rw e h.1)
]

add_services-IsServed :
    (services : List ServiceMapping) (m : Map Bytes Bytes) (n : Bytes)
    → IsServed m n
    → IsServed (add_services m services) n
unfolding add_services
add_services-IsServed [] m n h = h
add_services-IsServed (s ∷ services) m n h =
    add_services-IsServed services (insert s.name s.local_addr m) n
      (insert-IsServed m s.name s.local_addr n h)

names-IsServed :
    (services : List ServiceMapping) (m : Map Bytes Bytes)
    → All (IsServed (add_services m services)) (service_names services)
unfolding add_services service_names
names-IsServed [] m = tt
names-IsServed (s ∷ services) m =
    let m' = insert s.name s.local_addr m in
    elim (Bool-cases (is_empty s.name)) [
      | inl e ↦ rw e (names-IsServed services m')
      | inr e ↦ rw e (
        add_services-IsServed services m' s.name (
          s.local_addr,
          lookup-insert s.name s.name s.local_addr m
              ∙ rw ((bytes_eq_iff s.name s.name).1 refl) refl,
        ),
        names-IsServed services m',
      )
    ]

fits_lem :
    (names : List Bytes)
    → length (join_lines names) ≤ max_payload_size
    → ltb max_payload_size (length (join_lines names)) ≡ false
fits_lem names l = ground (arith, l)

announce_lem :
    (m : MuxSession) (names : List Bytes)
    → names ≢ []
    → any_line_break names ≡ false
    → length (join_lines names) ≤ max_payload_size
    → announce m names ≡ send m (announcement names) priority_control
unfolding announce after_send send_service_list
announce_lem m [] n b l = absurd (n refl)
announce_lem m (name ∷ names) n b l = rw (b, fits_lem (name ∷ names) l) refl

reported_lem :
    (r : MuxSession) (live : LiveConnection) (names : List Bytes)
    → r.service_list_ch ≡ none
    → parse_service_list (join_lines names) ≡ names
    → (await_services (handle_frame r (announcement names) true) live false).1.services ≡ names
unfolding await_services take_list handle_frame handle_service_list offer set_services
reported_lem r live names h p = rw (p, h) refl

-- What the relay and the agent make of the services that an agent is configured with.
pub record IsAnnounced (services : List ServiceMapping) (m r : MuxSession) (live : LiveConnection)
    : Type 0 where
  pub queued :
      announce m (service_names services)
      ≡ send m (announcement (configured_names services)) priority_control
  pub reported :
      (await_services
        (handle_frame r (announcement (configured_names services)) true)
        live
        false).1.services
      ≡ configured_names services
  pub served : All (IsServed (service_map services)) (configured_names services)

-- If an agent has a service with a name, at most 1024 of them, none with a line break, and their names
-- fit one frame, then its Connect queues one control frame; a relay that has no earlier list waiting
-- and gets this frame before its timer fires reports exactly the configured names, in order; and the
-- agent finds an address for each of them.
pub announce-reported :
    (services : List ServiceMapping) (m r : MuxSession) (live : LiveConnection)
    → configured_names services ≢ []
    → length (configured_names services) ≤ max_service_list_count
    → any_line_break (configured_names services) ≡ false
    → length (join_lines (configured_names services)) ≤ max_payload_size
    → r.service_list_ch ≡ none
    → IsAnnounced services m r live
unfolding service_map
announce-reported services m r live n c b l h =
    let names = configured_names services in
    record {
      queued = ap (announce m) (configured_lem services) ∙ announce_lem m names n b l;
      reported = reported_lem r live names h (
          parse-join names
            (subst (All NonEmpty) (configured_lem services) (service_names-NonEmpty services)) c b);
      served =
          subst (All (IsServed (service_map services))) (configured_lem services)
            (names-IsServed services []);
    }
