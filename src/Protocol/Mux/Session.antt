-- ===== src/Protocol/Mux/Session.antt =====
-- The state of a mux session and the calls its user makes.
-- Each call is one step, up to where it waits; a wait is a step of its own, told which arm of its
-- `select` fires. A channel is what it holds: `acked` says of which ack channels the one slot is full
-- (a channel is named by the handle of the stream that waits on it), `ping_ch` is nil, empty or full.
use atlax.Base.{
  ℕ, Bytes, Bool, true, false, List, [], ◌∷◌, ◌++◌, Option, none, some, ltb, leb, ◌==◌, length,
  nat_eq, if◌then◌else◌,
}
use atlax.Base.Int.{ℤ}
use atlax.Base.Map.{Map, lookup, insert, delete}
use atlax.Protocol.Frame.{
  Frame, protocol_version, cmd_stream_open, cmd_stream_reset, cmd_ping, cmd_go_away,
}
use atlax.Protocol.Codec.{put_uint32}
use atlax.Protocol.Window.{FlowWindow, int32, new_flow_window}
use atlax.Protocol.WriteQueue
use atlax.Protocol.WriteQueue.{
  WriteQueue, enqueue, new_write_queue, priority_control, priority_data,
}
use atlax.Protocol.Stream
use atlax.Protocol.Stream.{StreamSession}
use atlax.Protocol.Mux.Table.{
  Table, Role, new_table, put, remove_id, alloc_id, add_stream, close_stream, reset_stream,
}

pub record MuxConfig : Type 0 where
  pub max_concurrent_streams : ℕ
  pub initial_stream_window : ℤ
  pub connection_window : ℤ

pub record MuxSession : Type 0 where
  pub table : Table
  pub config : MuxConfig
  pub accept_ch : List ℕ
  pub close_ch : Bool
  pub going_away : Bool
  pub write_queue : WriteQueue
  pub pending_open : Map ℕ ℕ
  pub acked : ℕ → Bool
  pub ping_ch : Option Bool
  pub conn_send_window : FlowWindow
  pub service_list_ch : Option (List Bytes)

unfoldable pub new_mux_session : Role → MuxConfig → MuxSession
unfolding new_table new_flow_window int32 new_write_queue
new_mux_session role config = record {
  table = new_table role;
  config = config;
  accept_ch = [];
  close_ch = false;
  going_away = false;
  write_queue = new_write_queue;
  pending_open = [];
  acked = λ h. false;
  ping_ch = none;
  conn_send_window = new_flow_window (int32 config.connection_window);
  service_list_ch = none;
}

abbrev pub mk_frame : ℕ → ℕ → ℕ → Bytes → Frame
mk_frame command flags stream_id payload = record {
  version = protocol_version;
  command = command;
  flags = flags;
  stream_id = stream_id;
  payload = payload;
}

abbrev pub send : MuxSession → Frame → ℕ → MuxSession
send m f priority = record m { write_queue = enqueue m.write_queue f priority }

-- `OpenStreamWithPayload` up to its `select`: it is refused, or waits for the ack of a new stream.
pub data Opening : Type 0 where
  going_away_error : Opening
  max_streams_exceeded : Opening
  awaiting_ack : ℕ → ℕ → MuxSession → Opening

unfoldable pub start_open : MuxSession → Bytes → ℕ × Table → Opening
start_open m payload (id, t) = awaiting_ack t.next_handle id (
    send
      (record m {
        table = add_stream t id m.config.initial_stream_window [];
        pending_open = insert id t.next_handle m.pending_open;
      })
      (mk_frame cmd_stream_open 0 id payload) priority_data)

unfoldable pub open_stream_with_payload : MuxSession → Bytes → Opening
unfolding start_open
open_stream_with_payload m payload =
    if m.going_away
    then going_away_error
    else if leb m.config.max_concurrent_streams (length m.table.streams)
    then max_streams_exceeded
    else start_open m payload (alloc_id m.table)

-- `cleanupPendingOpen`
unfoldable pub cleanup_pending_open : MuxSession → ℕ → MuxSession
cleanup_pending_open m id = record m { pending_open = delete id m.pending_open }

-- `removeStream`: the object is reset after it left the map, so its callback finds nothing to do.
unfoldable pub remove_found : MuxSession → ℕ → Option ℕ → MuxSession
remove_found m id none = m
remove_found m id (some h) = record m { table = (reset_stream (remove_id m.table id) h).0 }

unfoldable pub remove_stream : MuxSession → ℕ → MuxSession
unfolding remove_found
remove_stream m id = remove_found m id (lookup id m.table.streams)

-- The arms of the `select` that ends `OpenStreamWithPayload`.
pub data Wakeup : Type 0 where
  on_ack on_ctx_done on_closed : Wakeup

-- An arm fires only if its channel is ready: the ack channel of the stream is full, or the session is
-- closed. The context of the caller may end at any time.
pub data Finished : Type 0 where
  stream_opened : MuxSession → Finished
  open_canceled : MuxSession → Finished
  session_closed : MuxSession → Finished
  open_waits : Finished

-- The receive that empties the ack channel of the stream behind `h`.
abbrev pub take_ack : MuxSession → ℕ → MuxSession
take_ack m h = record m { acked = λ k. if h == k then false else m.acked k }

unfoldable pub finish_open : MuxSession → ℕ → ℕ → Wakeup → Finished
unfolding cleanup_pending_open
finish_open m h id on_ack = if m.acked h then stream_opened (take_ack m h) else open_waits
finish_open m h id on_ctx_done = open_canceled (remove_stream (cleanup_pending_open m id) id)
finish_open m h id on_closed =
    if m.close_ch then session_closed (cleanup_pending_open m id) else open_waits

abbrev pub after_finish : MuxSession → Finished → MuxSession
after_finish m (stream_opened m') = m'
after_finish m (open_canceled m') = m'
after_finish m (session_closed m') = m'
after_finish m open_waits = m

-- `AcceptStream`
pub data Accepted : Type 0 where
  accepted : ℕ → MuxSession → Accepted
  accept_waits : Accepted

unfoldable pub accept_from : MuxSession → List ℕ → Accepted
accept_from m [] = accept_waits
accept_from m (h ∷ rest) = accepted h (record m { accept_ch = rest })

unfoldable pub accept_stream : MuxSession → Accepted
unfolding accept_from
accept_stream m = accept_from m m.accept_ch

-- `Close`: every stream of the map is reset. The callbacks see `closeCh` closed and do nothing.
unfoldable pub reset_quietly : Table → Option StreamSession → ℕ → Table
reset_quietly t none h = t
reset_quietly t (some s) h = put t h (Stream.reset s).0

unfoldable pub reset_all : Table → Map ℕ ℕ → Table
unfolding reset_quietly
reset_all t [] = t
reset_all t ((id, h) ∷ rest) = reset_all (reset_quietly t (t.heap h) h) rest

unfoldable pub drop_streams : Table → Table
drop_streams t = record t { streams = [] }

unfoldable pub close : MuxSession → MuxSession
unfolding drop_streams
close m = if m.close_ch then m else record m {
  close_ch = true;
  write_queue = WriteQueue.close m.write_queue;
  table = drop_streams (reset_all m.table m.table.streams);
}

-- The largest id in the map, 0 if there is none.
unfoldable pub last_id : Map ℕ ℕ → ℕ → ℕ
last_id [] acc = acc
last_id ((id, h) ∷ rest) acc = last_id rest (if ltb acc id then id else acc)

unfoldable pub go_away : MuxSession → ℕ → MuxSession
go_away m code =
    send (record m { going_away = true })
      (mk_frame cmd_go_away 0 0 (put_uint32 (last_id m.table.streams 0) ++ put_uint32 code))
      priority_control

-- `Ping` up to its `select`; `stamp` is the eight bytes of the time.
unfoldable pub ping : MuxSession → Bytes → MuxSession
ping m stamp =
    send (record m { ping_ch = some false }) (mk_frame cmd_ping 0 0 stamp) priority_control

unfoldable pub num_streams : MuxSession → ℕ
num_streams m = length m.table.streams

-- `Close` and `Reset` of a stream by its user, with the callbacks into the session.
unfoldable pub local_close : MuxSession → ℕ → MuxSession
local_close m h = record m { table = close_stream m.table h }

abbrev pub reset_payload : ℕ → Bytes
unfolding put_uint32
reset_payload code = put_uint32 code

unfoldable pub after_local_reset : MuxSession → ℕ → ℕ → Table × Bool → MuxSession
after_local_reset m id code (t, true) =
    send (record m { table = t }) (mk_frame cmd_stream_reset 0 id (reset_payload code))
      priority_control
after_local_reset m id code (t, false) = record m { table = t }

unfoldable pub reset_open : MuxSession → ℕ → ℕ → Option StreamSession → MuxSession
unfolding after_local_reset
reset_open m h code none = m
reset_open m h code (some s) =
    if m.close_ch
    then record m { table = put m.table h (Stream.reset s).0 }
    else after_local_reset m s.id code (reset_stream m.table h)

unfoldable pub local_reset : MuxSession → ℕ → ℕ → MuxSession
unfolding reset_open
local_reset m h code = reset_open m h code (m.table.heap h)
