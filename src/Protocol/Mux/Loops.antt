-- ===== src/Protocol/Mux/Loops.antt =====
-- The two loops of a mux session on its transport. The reader is the bytes that are left, the writer
-- those written so far; a loop runs on fuel, one unit for a frame.
pub mod Wire
use atlax.Base.{ℕ, zero, suc, Bytes, Bool, true, false, if◌then◌else◌, some}
use atlax.Protocol.Frame.{Frame}
use atlax.Protocol.Codec.{Result, ok, err, read_frame, write_frame}
use atlax.Protocol.WriteQueue.{Dequeued, frame, canceled, go_away, waiting, dequeue}
use atlax.Protocol.Mux.Session
use atlax.Protocol.Mux.Session.{MuxSession}
use atlax.Protocol.Mux.Handlers.{handle_frame}

-- An error of the transport ends the session, unless it is closed already.
close_on_error : MuxSession → MuxSession
close_on_error m = if m.close_ch then m else Session.close m

-- `readLoop`
unfoldable pub read_loop : ℕ → Bytes → MuxSession → MuxSession
unfolding close_on_error
read_loop zero r m = m
read_loop (suc fuel) r m = elim (read_frame r) [
  | ok p ↦ read_loop fuel p.1 (handle_frame m p.0 true)
  | err e ↦ close_on_error m
]

-- `writeLoop`: it returns if the session is closed, if the queue reports an error, or if the transport
-- does; the background context does not end.
unfoldable pub write_loop : ℕ → MuxSession → Bytes → MuxSession × Bytes
unfolding close_on_error
write_loop zero m w = (m, w)
write_loop (suc fuel) m w = if m.close_ch then (m, w) else elim (dequeue false m.write_queue) [
  | frame f q ↦ elim (write_frame w (some f)) [
    | ok w' ↦ write_loop fuel (record m { write_queue = q }) w'
    | err e ↦ (close_on_error (record m { write_queue = q }), w)
  ]
  | canceled ↦ (m, w)
  | go_away ↦ (m, w)
  | waiting ↦ (m, w)
]
