-- ===== src/Protocol/Mux/Handlers.antt =====
-- What a mux session does with each frame that its read loop hands it.
use atlax.Base.{
  ℕ, Bytes, Bool, true, false, List, [], ◌∷◌, ◌++◌, Option, none, some, ◌==◌, nat_eq, if◌then◌else◌,
}
use atlax.Base.Int.{ℤ, pos, ◌+ℤ◌}
use atlax.Base.Map.{lookup, delete}
use atlax.Protocol.Frame.{
  Frame, cmd_stream_open, cmd_stream_data, cmd_stream_close, cmd_stream_reset, cmd_ping, cmd_pong,
  cmd_window_update, cmd_go_away, cmd_service_list, flag_fin, flag_ack, has_flag,
  reset_code_protocol_error,
}
use atlax.Protocol.Codec.{uint32}
use atlax.Protocol.Window
use atlax.Protocol.Window.{int32, after_update}
use atlax.Protocol.WriteQueue.{priority_control, priority_data}
use atlax.Protocol.Stream
use atlax.Protocol.Stream.{StreamSession}
use atlax.Protocol.Mux.Table.{Table, put, owns_id, remove_id, add_stream, remote_close_stream}
use atlax.Protocol.Mux.Session.{MuxSession, mk_frame, send, local_reset, reset_payload}
use atlax.Protocol.Mux.ServiceList.{parse_service_list}

-- The ack of a stream that this side opened: its channel leaves `pendingOpen` and is filled.
unfoldable pub ack_pending : MuxSession → ℕ → Option ℕ → MuxSession
ack_pending m id none = m
ack_pending m id (some h) = record m {
  pending_open = delete id m.pending_open;
  acked = λ k. if h == k then true else m.acked k;
}

-- `acceptPeerOpen`: a duplicate of a live stream is dropped, an id of the local parity is answered
-- with STREAM_RESET.
unfoldable pub accept_peer_open : MuxSession → ℕ → Option ℕ → MuxSession × Bool
accept_peer_open m id (some h) = (m, false)
accept_peer_open m id none =
    if owns_id m.table id
    then (
      send m (mk_frame cmd_stream_reset 0 id (reset_payload reset_code_protocol_error))
          priority_control,
      false,
    )
    else (m, true)

-- The new stream is stored, acknowledged and put on `acceptCh`. Where that channel is full the read
-- loop stops here until there is room, so the list may run over the capacity by one. In a session
-- that closes, `deliver` tells which arm the `select` takes.
unfoldable pub admit_peer : MuxSession → Frame → Bool → MuxSession
admit_peer m f deliver =
    let h = m.table.next_handle in
    let m' =
      send
        (record m {
          table = add_stream m.table f.stream_id m.config.initial_stream_window f.payload;
        })
        (mk_frame cmd_stream_open flag_ack f.stream_id []) priority_data in
    if deliver then record m' { accept_ch = m.accept_ch ++ (h ∷ []) } else m'

unfoldable pub after_accept : MuxSession × Bool → Frame → Bool → MuxSession
unfolding admit_peer
after_accept (m, true) f deliver = admit_peer m f deliver
after_accept (m, false) f deliver = m

unfoldable pub handle_stream_open : MuxSession → Frame → Bool → MuxSession
unfolding ack_pending accept_peer_open after_accept
handle_stream_open m f deliver =
    if has_flag f.flags flag_ack
    then ack_pending m f.stream_id (lookup f.stream_id m.pending_open)
    else after_accept (accept_peer_open m f.stream_id (lookup f.stream_id m.table.streams)) f
        deliver

unfoldable pub deliver_object : Table → ℕ → Bytes → Option StreamSession → Table
deliver_object t h [] o = t
deliver_object t h (b ∷ bs) none = t
deliver_object t h (b ∷ bs) (some s) = put t h (Stream.deliver s (b ∷ bs))

unfoldable pub data_to : MuxSession → Frame → Option ℕ → MuxSession
unfolding deliver_object
data_to m f none = m
data_to m f (some h) =
    let t = deliver_object m.table h f.payload (m.table.heap h) in
    record m {
      table = if has_flag f.flags flag_fin then remote_close_stream t f.stream_id h else t;
    }

unfoldable pub handle_stream_data : MuxSession → Frame → MuxSession
unfolding data_to
handle_stream_data m f = data_to m f (lookup f.stream_id m.table.streams)

unfoldable pub close_to : MuxSession → ℕ → Option ℕ → MuxSession
close_to m id none = m
close_to m id (some h) = record m { table = remote_close_stream m.table id h }

unfoldable pub handle_stream_close : MuxSession → Frame → MuxSession
unfolding close_to
handle_stream_close m f = close_to m f.stream_id (lookup f.stream_id m.table.streams)

-- The code in the payload of a STREAM_RESET, 0 if it is too short.
unfoldable pub reset_code : Bytes → ℕ
unfolding uint32
reset_code (a ∷ b ∷ c ∷ d ∷ rest) = uint32 a b c d
reset_code _ = 0

unfoldable pub remove_if_present : MuxSession → ℕ → Option ℕ → MuxSession
remove_if_present m id none = m
remove_if_present m id (some h) = record m { table = remove_id m.table id }

-- `s.Reset(code)` runs `onReset`, and the id is removed afterwards if it is still in the map.
unfoldable pub reset_to : MuxSession → Frame → Option ℕ → MuxSession
unfolding remove_if_present
reset_to m f none = m
reset_to m f (some h) =
    let m' = local_reset m h (reset_code f.payload) in
    remove_if_present m' f.stream_id (lookup f.stream_id m'.table.streams)

unfoldable pub handle_stream_reset : MuxSession → Frame → MuxSession
unfolding reset_to
handle_stream_reset m f = reset_to m f (lookup f.stream_id m.table.streams)

unfoldable pub handle_ping : MuxSession → Frame → MuxSession
handle_ping m f = send m (mk_frame cmd_pong 0 0 f.payload) priority_control

unfoldable pub fill : Option Bool → Option Bool
fill none = none
fill (some b) = some true

unfoldable pub handle_pong : MuxSession → MuxSession
unfolding fill
handle_pong m = record m { ping_ch = fill m.ping_ch }

unfoldable pub grow_object : Table → ℕ → ℤ → Option StreamSession → Table
grow_object t h n none = t
grow_object t h n (some s) = put t h (record s { recv_window = s.recv_window +ℤ n })

unfoldable pub grow_window : Table → ℤ → Option ℕ → Table
unfolding grow_object
grow_window t n none = t
grow_window t n (some h) = grow_object t h n (t.heap h)

unfoldable pub update_window : MuxSession → ℕ → ℤ → MuxSession
unfolding grow_window
update_window m id n =
    if id == 0
    then record m {
      conn_send_window = after_update m.conn_send_window (Window.update m.conn_send_window n);
    }
    else record m { table = grow_window m.table n (lookup id m.table.streams) }

unfoldable pub window_payload : MuxSession → ℕ → Bytes → MuxSession
unfolding update_window uint32 int32
window_payload m id (a ∷ b ∷ c ∷ d ∷ rest) = update_window m id (int32 (pos (uint32 a b c d)))
window_payload m id _ = m

unfoldable pub handle_window_update : MuxSession → Frame → MuxSession
unfolding window_payload
handle_window_update m f = window_payload m f.stream_id f.payload

unfoldable pub handle_go_away : MuxSession → MuxSession
handle_go_away m = record m { going_away = true }

-- The send on `serviceListCh` does not block: with a list there, the new one is dropped.
unfoldable pub offer : Option (List Bytes) → List Bytes → Option (List Bytes)
offer none services = some services
offer (some old) services = some old

unfoldable pub handle_service_list : MuxSession → Frame → MuxSession
unfolding offer
handle_service_list m f = record m {
  service_list_ch = offer m.service_list_ch (parse_service_list f.payload);
}

-- `handleFrame`. A command that no case names is ignored.
unfoldable pub handle_frame : MuxSession → Frame → Bool → MuxSession
handle_frame m f deliver =
    if f.command == cmd_stream_open
    then handle_stream_open m f deliver
    else if f.command == cmd_stream_data
    then handle_stream_data m f
    else if f.command == cmd_stream_close
    then handle_stream_close m f
    else if f.command == cmd_stream_reset
    then handle_stream_reset m f
    else if f.command == cmd_ping
    then handle_ping m f
    else if f.command == cmd_pong
    then handle_pong m
    else if f.command == cmd_window_update
    then handle_window_update m f
    else if f.command == cmd_go_away
    then handle_go_away m
    else if f.command == cmd_service_list
    then handle_service_list m f
    else m
