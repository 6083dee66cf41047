-- ===== src/Protocol/Mux/Run.antt =====
-- A mux session as a machine: its user's calls, the frames that come in and the rounds of its drain
-- goroutines, in whatever order the scheduler brings them.
pub mod Inv
pub mod Steps
pub mod Rounds
pub mod Reachable
use atlax.Base.{ℕ, Bytes, Bool, false, List, [], ◌∷◌, Option, none, some}
use atlax.Protocol.Frame.{Frame}
use atlax.Protocol.Stream
use atlax.Protocol.Stream.{StreamSession, ReadResult, WriteResult}
use atlax.Protocol.Stream.Calls.{after_read, after_write}
use atlax.Protocol.WriteQueue
use atlax.Protocol.WriteQueue.{Dequeued, frame, canceled, go_away, waiting}
use atlax.Protocol.Mux.Table.{Table, put}
use atlax.Protocol.Mux.Session
use atlax.Protocol.Mux.Session.{
  MuxSession, Opening, going_away_error, max_streams_exceeded, awaiting_ack,
  open_stream_with_payload, Wakeup, finish_open, after_finish, Accepted, accepted, accept_waits,
  accept_stream, ping, local_close, local_reset,
}
use atlax.Protocol.Mux.Drain.{drain_stream}
use atlax.Protocol.Mux.Handlers.{handle_frame}

pub data Event : Type 0 where
  opens : Bytes → Event
  finishes : ℕ → ℕ → Wakeup → Event
  accepts : Event
  goes_away : ℕ → Event
  pings : Bytes → Event
  closes_stream : ℕ → Event
  resets_stream : ℕ → ℕ → Event
  reads_stream : ℕ → ℕ → Event
  writes_stream : ℕ → Bytes → Event
  drains : ℕ → Bool → Event
  sends_frame : Event
  receives : Frame → Bool → Event

abbrev pub after_opening : MuxSession → Opening → MuxSession
after_opening m going_away_error = m
after_opening m max_streams_exceeded = m
after_opening m (awaiting_ack h id m') = m'

abbrev pub after_accept : MuxSession → Accepted → MuxSession
after_accept m (accepted h m') = m'
after_accept m accept_waits = m

abbrev pub after_dequeue : MuxSession → Dequeued → MuxSession
after_dequeue m (frame f q) = record m { write_queue = q }
after_dequeue m canceled = m
after_dequeue m go_away = m
after_dequeue m waiting = m

-- `Read` and `Write` of a stream's user.
unfoldable pub read_object : Table → ℕ → ℕ → Option StreamSession → Table
read_object t h n none = t
read_object t h n (some s) = put t h (after_read s (Stream.read s n))

unfoldable pub write_object : Table → ℕ → Bytes → Option StreamSession → Table
write_object t h p none = t
write_object t h p (some s) = put t h (after_write s (Stream.write s p))

unfoldable pub step : MuxSession → Event → MuxSession
unfolding read_object write_object
step m (opens payload) = after_opening m (open_stream_with_payload m payload)
step m (finishes h id w) = after_finish m (finish_open m h id w)
step m accepts = after_accept m (accept_stream m)
step m (goes_away code) = Session.go_away m code
step m (pings stamp) = ping m stamp
step m (closes_stream h) = local_close m h
step m (resets_stream h code) = local_reset m h code
step m (reads_stream h n) = record m { table = read_object m.table h n (m.table.heap h) }
step m (writes_stream h p) = record m { table = write_object m.table h p (m.table.heap h) }
step m (drains h fin) = drain_stream m h fin
step m sends_frame = after_dequeue m (WriteQueue.dequeue false m.write_queue)
step m (receives f deliver) = handle_frame m f deliver

unfoldable pub run : MuxSession → List Event → MuxSession
unfolding step
run m [] = m
run m (e ∷ es) = run (step m e) es
