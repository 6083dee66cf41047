-- ===== src/Protocol/Stream.antt =====
-- pkg/protocol/stream_impl.go and stream.go: one multiplexed stream.
-- The mutex makes each method one step. Channels are the values they hold: `write_out` is the queue
-- of chunks, `fin_ch` tells whether its one slot is full, `closed_ch` whether it is closed. The three
-- `sync.Once` are flags. The callbacks run in the muxer, so a method tells whether it fires one.
pub mod Calls
pub mod Lifecycle
pub mod Callbacks
pub mod Delivery
use atlax.Base.{
  ℕ, ◌<◌, Bytes, Bool, true, false, not, ◌||◌, ◌&&◌, List, [], ◌∷◌, ◌++◌, ltb, leb, ◌==◌, length,
  take, drop, if◌then◌else◌,
}
use atlax.Base.Int.{ℤ, pos, ◌-ℤ◌, ◌+ℤ◌}

pub data StreamState : Type 0 where
  idle open_state half_closed_local half_closed_remote closed reset_state : StreamState

pub record StreamSession : Type 0 where
  pub id : ℕ
  pub state : StreamState
  pub read_buf : Bytes
  pub recv_window : ℤ
  pub write_out : List Bytes
  pub fin_ch : Bool
  pub closed_ch : Bool
  pub open_payload : Bytes
  pub local_close_once : Bool
  pub reset_once : Bool

-- The capacity of `writeOut`.
abbrev pub write_out_cap : ℕ
write_out_cap = 64

unfoldable pub new_stream_session : ℕ → ℤ → StreamSession
new_stream_session id initial_window = record {
  id = id;
  state = idle;
  read_buf = [];
  recv_window = initial_window;
  write_out = [];
  fin_ch = false;
  closed_ch = false;
  open_payload = [];
  local_close_once = false;
  reset_once = false;
}

abbrev pub is_read_closed : StreamState → Bool
is_read_closed half_closed_remote = true
is_read_closed closed = true
is_read_closed reset_state = true
is_read_closed idle = false
is_read_closed open_state = false
is_read_closed half_closed_local = false

abbrev pub is_write_closed : StreamState → Bool
is_write_closed half_closed_local = true
is_write_closed closed = true
is_write_closed reset_state = true
is_write_closed idle = false
is_write_closed open_state = false
is_write_closed half_closed_remote = false

-- One round of `Read` into a buffer of `n` bytes.
pub data ReadResult : Type 0 where
  read_bytes : Bytes → StreamSession → ReadResult
  eof : ReadResult
  read_waits : ReadResult

read_buffer : StreamSession → ℕ → Bytes → ReadResult
read_buffer s n [] = if is_read_closed s.state then eof else read_waits
read_buffer s n (b ∷ bs) = read_bytes (take n (b ∷ bs)) (record s { read_buf = drop n (b ∷ bs) })

unfoldable pub read : StreamSession → ℕ → ReadResult
unfolding read_buffer
read s n = read_buffer s n s.read_buf

-- `Write`: refused on a closed local side; otherwise the chunk goes to `writeOut`, or the call waits
-- for room there.
pub data WriteResult : Type 0 where
  written : StreamSession → WriteResult
  stream_closed : WriteResult
  write_waits : WriteResult

unfoldable pub write : StreamSession → Bytes → WriteResult
write s p =
    if is_write_closed s.state
    then stream_closed
    else if ltb (length s.write_out) write_out_cap
    then written (record s { write_out = s.write_out ++ (p ∷ []) })
    else if s.closed_ch
    then stream_closed
    else write_waits

-- `Close` under the mutex: the new state, and whether to notify.
close_locked : StreamSession → StreamState → StreamSession × Bool
close_locked s open_state = (record s { state = half_closed_local }, true)
close_locked s half_closed_remote = (record s { state = closed; closed_ch = true }, true)
close_locked s half_closed_local = (s, false)
close_locked s closed = (s, false)
close_locked s idle = (s, false)
close_locked s reset_state = (s, false)

-- `localCloseOnce.Do`: the signal for the drain loop, and whether `onLocalClose` runs.
notify_local_close : StreamSession × Bool → StreamSession × Bool
notify_local_close (s, notify) =
    if notify && not s.local_close_once
    then (record s { local_close_once = true; fin_ch = true }, true)
    else (s, false)

unfoldable pub close : StreamSession → StreamSession × Bool
unfolding close_locked notify_local_close
close s = notify_local_close (close_locked s s.state)

unfoldable pub open_stream : StreamSession → StreamSession
open_stream s = record s { state = open_state }

unfoldable pub set_open_payload : StreamSession → Bytes → StreamSession
set_open_payload s p = record s { open_payload = p }

unfoldable pub deliver : StreamSession → Bytes → StreamSession
deliver s body = record s {
  read_buf = s.read_buf ++ body;
  recv_window = s.recv_window -ℤ pos (length body);
}

remote_close_from : StreamSession → StreamState → StreamSession
remote_close_from s open_state = record s { state = half_closed_remote }
remote_close_from s half_closed_local = record s { state = closed; closed_ch = true }
remote_close_from s idle = s
remote_close_from s half_closed_remote = s
remote_close_from s closed = s
remote_close_from s reset_state = s

unfoldable pub remote_close : StreamSession → StreamSession
unfolding remote_close_from
remote_close s = remote_close_from s s.state

abbrev pub is_finished : StreamState → Bool
is_finished closed = true
is_finished reset_state = true
is_finished idle = false
is_finished open_state = false
is_finished half_closed_local = false
is_finished half_closed_remote = false

-- `Reset`, and whether `onReset` runs.
unfoldable pub reset : StreamSession → StreamSession × Bool
reset s = if is_finished s.state then (s, false) else (
  record s { state = reset_state; read_buf = []; closed_ch = true; reset_once = true },
  not s.reset_once,
)
