-- ===== src/Protocol/Stream/Lifecycle.antt =====
-- The life of an open stream under any sequence of calls from its two sides.
use atlax.Base.{ℕ, ◌≡◌, ◌≢◌, refl, ◌∙◌, Bytes, Bool, true, false, List, [], ◌∷◌, arith}
use atlax.Base.Int.{ℤ}
use atlax.Protocol.Stream.Calls.{
  Call, reads, writes, closes, delivers, remote_closes, resets, after_read, after_write, step, run,
}
use atlax.Protocol.Stream.{
  StreamState, idle, open_state, half_closed_local, half_closed_remote, closed, reset_state,
  StreamSession, new_stream_session, is_finished, read, read_buffer, stream_closed, write, close,
  open_stream, deliver, remote_close, reset,
}

abbrev is_reset : StreamState → Bool
is_reset reset_state = true
is_reset closed = false
is_reset idle = false
is_reset open_state = false
is_reset half_closed_local = false
is_reset half_closed_remote = false

-- The local side is closed and the stream was not reset.
abbrev is_local_closed : StreamState → Bool
is_local_closed half_closed_local = true
is_local_closed closed = true
is_local_closed reset_state = false
is_local_closed idle = false
is_local_closed open_state = false
is_local_closed half_closed_remote = false

-- `closedCh` is closed exactly in the final states, and the two callbacks have run exactly as far as
-- the state says.
pub record Inv (s : StreamSession) : Type 0 where
  pub opened : s.state ≢ idle
  pub closed_ch_final : s.closed_ch ≡ is_finished s.state
  pub reset_ran : s.reset_once ≡ is_reset s.state
  pub local_close_ran : is_reset s.state ≡ false → s.local_close_once ≡ is_local_closed s.state

pub open-Inv : (id : ℕ) (w : ℤ) → Inv (open_stream (new_stream_session id w))
unfolding open_stream new_stream_session
open-Inv id w = ground arith

read-Inv :
    (s : StreamSession) (n : ℕ) (b : Bytes)
    → s.read_buf ≡ b
    → Inv s
    → Inv (after_read s (read_buffer s n b))
unfolding read_buffer
read-Inv s n [] e v = ground arith
read-Inv s n (x ∷ b) e v = record {
  opened = v.opened;
  closed_ch_final = v.closed_ch_final;
  reset_ran = v.reset_ran;
  local_close_ran = v.local_close_ran;
}

-- Every call keeps the invariant.
pub step-Inv : (s : StreamSession) (c : Call) → Inv s → Inv (step s c)
unfolding step
step-Inv s (reads n) v = unfold read in read-Inv s n s.read_buf refl v
step-Inv s (writes p) v = unfold write in ground arith
step-Inv s closes v = unfold close in ground arith
step-Inv s (delivers d) v = unfold deliver in ground arith
step-Inv s remote_closes v = unfold remote_close in ground arith
step-Inv s resets v = unfold reset in ground arith

pub run-Inv : (s : StreamSession) (cs : List Call) → Inv s → Inv (run s cs)
unfolding run
run-Inv s [] v = v
run-Inv s (c ∷ cs) v = run-Inv (step s c) cs (step-Inv s c v)

-- After any calls on a stream that was opened, the channel that unblocks waiting writers is closed
-- exactly when the stream is closed or reset, and the local-close and reset callbacks have run
-- exactly when the state says so.
pub run-open_stream-Inv :
    (id : ℕ) (w : ℤ) (cs : List Call) → Inv (run (open_stream (new_stream_session id w)) cs)
run-open_stream-Inv id w cs = run-Inv _ cs (open-Inv id w)

read_keeps_state :
    (s : StreamSession) (n : ℕ) (b : Bytes) → (after_read s (read_buffer s n b)).state ≡ s.state
unfolding read_buffer
read_keeps_state s n [] = ground arith
read_keeps_state s n (x ∷ b) = refl

step_finished :
    (s : StreamSession) (c : Call) → is_finished s.state ≡ true → (step s c).state ≡ s.state
unfolding step
step_finished s (reads n) h = unfold read in read_keeps_state s n s.read_buf
step_finished s (writes p) h = unfold write in ground arith
step_finished s closes h = unfold close in ground arith
step_finished s (delivers d) h = unfold deliver in refl
step_finished s remote_closes h = unfold remote_close in ground arith
step_finished s resets h = unfold reset in ground arith

-- Closed and Reset are final: no sequence of calls leaves them, and every write on them fails.
pub run_finished :
    (s : StreamSession) (cs : List Call) (p : Bytes)
    → is_finished s.state ≡ true
    → ((run s cs).state ≡ s.state) × (write (run s cs) p ≡ stream_closed)
unfolding run
run_finished s [] p h = (refl, unfold write in ground arith)
run_finished s (c ∷ cs) p h =
    let e = step_finished s c h in let (a, b) = run_finished (step s c) cs p (rw e h) in (a ∙ e, b)

-- Reading and writing leave the id and the state of a stream alone.
abbrev pub SameLife : StreamSession → StreamSession → Type 0
SameLife s s' =
    (s'.id ≡ s.id)
    × (s'.state ≡ s.state)
    × (s'.closed_ch ≡ s.closed_ch)
    × (s'.reset_once ≡ s.reset_once)
    × (s'.local_close_once ≡ s.local_close_once)

read_buffer-SameLife :
    (s : StreamSession) (n : ℕ) (b : Bytes) → SameLife s (after_read s (read_buffer s n b))
unfolding read_buffer
read_buffer-SameLife s n [] = ground arith
read_buffer-SameLife s n (x ∷ b) = (refl, refl, refl, refl, refl)

pub read-SameLife : (s : StreamSession) (n : ℕ) → SameLife s (after_read s (read s n))
unfolding read
read-SameLife s n = read_buffer-SameLife s n s.read_buf

pub write-SameLife : (s : StreamSession) (p : Bytes) → SameLife s (after_write s (write s p))
unfolding write
write-SameLife s p = ground arith
