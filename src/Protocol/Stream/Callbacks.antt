-- ===== src/Protocol/Stream/Callbacks.antt =====
-- How often a stream calls back into the muxer.
use atlax.Base.{ℕ, ◌+◌, ◌≤◌, ◌≡◌, refl, Bytes, Bool, true, false, List, [], ◌∷◌, arith}
use atlax.Protocol.Stream.{
  StreamSession, read, read_buffer, write, close, deliver, remote_close, reset,
}
use atlax.Protocol.Stream.Calls.{
  Call, reads, writes, closes, delivers, remote_closes, resets, after_read, step, run,
}

abbrev bit : Bool → ℕ
bit true = 1
bit false = 0

-- Whether the call runs `onLocalClose`, and whether it runs `onReset`.
pub fires_local_close : StreamSession → Call → Bool
fires_local_close s closes = (close s).1
fires_local_close s _ = false

pub fires_reset : StreamSession → Call → Bool
fires_reset s resets = (reset s).1
fires_reset s _ = false

-- How often each callback runs over a sequence of calls.
pub local_close_calls : StreamSession → List Call → ℕ
local_close_calls s [] = 0
local_close_calls s (c ∷ cs) = bit (fires_local_close s c) + local_close_calls (step s c) cs

pub reset_calls : StreamSession → List Call → ℕ
reset_calls s [] = 0
reset_calls s (c ∷ cs) = bit (fires_reset s c) + reset_calls (step s c) cs

read_keeps :
    (s : StreamSession) (n : ℕ) (b : Bytes)
    → ((after_read s (read_buffer s n b)).local_close_once ≡ s.local_close_once)
      × ((after_read s (read_buffer s n b)).reset_once ≡ s.reset_once)
unfolding read_buffer
read_keeps s n [] = ground arith
read_keeps s n (x ∷ b) = (refl, refl)

local_close_step :
    (s : StreamSession) (c : Call)
    → bit s.local_close_once + bit (fires_local_close s c) ≡ bit (step s c).local_close_once
unfolding fires_local_close step
local_close_step s (reads n) = unfold read in ground (arith, read_keeps s n s.read_buf)
local_close_step s (writes p) = unfold write in ground arith
local_close_step s closes = unfold close in ground arith
local_close_step s (delivers d) = unfold deliver in omega arith
local_close_step s remote_closes = unfold remote_close in ground arith
local_close_step s resets = unfold reset in ground arith

reset_step :
    (s : StreamSession) (c : Call)
    → bit s.reset_once + bit (fires_reset s c) ≡ bit (step s c).reset_once
unfolding fires_reset step
reset_step s (reads n) = unfold read in ground (arith, read_keeps s n s.read_buf)
reset_step s (writes p) = unfold write in ground arith
reset_step s closes = unfold close in ground arith
reset_step s (delivers d) = unfold deliver in omega arith
reset_step s remote_closes = unfold remote_close in ground arith
reset_step s resets = unfold reset in ground arith

local_close_total :
    (s : StreamSession) (cs : List Call)
    → bit s.local_close_once + local_close_calls s cs ≡ bit (run s cs).local_close_once
unfolding local_close_calls run
local_close_total s [] = omega arith
local_close_total s (c ∷ cs) = omega (arith, local_close_step s c, local_close_total (step s c) cs)

reset_total :
    (s : StreamSession) (cs : List Call)
    → bit s.reset_once + reset_calls s cs ≡ bit (run s cs).reset_once
unfolding reset_calls run
reset_total s [] = omega arith
reset_total s (c ∷ cs) = omega (arith, reset_step s c, reset_total (step s c) cs)

bit_le : (b : Bool) → bit b ≤ 1
bit_le b = ground arith

-- Whatever the calls and their order, a stream runs its local-close callback at most once and its
-- reset callback at most once.
pub callbacks_once :
    (s : StreamSession) (cs : List Call) → (local_close_calls s cs ≤ 1) × (reset_calls s cs ≤ 1)
callbacks_once s cs = omega (
  arith,
  local_close_total s cs,
  reset_total s cs,
  bit_le (run s cs).local_close_once,
  bit_le (run s cs).reset_once,
)
