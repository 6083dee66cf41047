-- ===== src/Protocol/Window.antt =====
-- pkg/protocol/window.go: the flow-control window. Its counters are int32.
pub mod Bounds
use atlax.Base.{ℕ, ◌-◌, ◌^◌, ◌%◌, ◌+◌, Bool, true, false, List, [], ◌∷◌, if◌then◌else◌, ltb}
use atlax.Base.Int.{ℤ, pos, negsuc, ◌+ℤ◌, ◌-ℤ◌, ltb_ℤ, leb_ℤ}

abbrev pub max_window_size : ℤ
max_window_size = pos (2 ^ 31 - 1)

-- The int32 that a bit pattern below 2 ^ 32 stands for.
abbrev pub signed32 : ℕ → ℤ
signed32 w = if ltb w (2 ^ 31) then pos w else negsuc (2 ^ 32 - w - 1)

-- Go's conversion of an integer to int32, which wraps around.
unfoldable pub int32 : ℤ → ℤ
int32 (pos n) = signed32 (n % 2 ^ 32)
int32 (negsuc n) = signed32 (2 ^ 32 - 1 - n % 2 ^ 32)

pub record FlowWindow : Type 0 where
  pub available : ℤ
  pub initial_size : ℤ

unfoldable pub new_flow_window : ℤ → FlowWindow
new_flow_window n = record { available = n; initial_size = n }

-- One round of `Consume`'s loop: it takes, gives up because the context is done, or waits for the
-- next broadcast.
pub data Consumed : Type 0 where
  taken : FlowWindow → Consumed
  canceled : Consumed
  waiting : Consumed

unfoldable pub consume : Bool → FlowWindow → ℤ → Consumed
unfolding int32
consume ctx_done w n =
    if ltb_ℤ w.available n
    then (if ctx_done then canceled else waiting)
    else taken (record w { available = int32 (w.available -ℤ n) })

pub data Updated : Type 0 where
  updated : FlowWindow → Updated
  zero_increment : Updated
  overflow : Updated

-- `newSize` is an int64, wide enough for the sum of two int32.
unfoldable pub update : FlowWindow → ℤ → Updated
unfolding int32
update w increment =
    if leb_ℤ increment (pos 0)
    then zero_increment
    else if ltb_ℤ max_window_size (w.available +ℤ increment)
    then overflow
    else updated (record w { available = int32 (w.available +ℤ increment) })

unfoldable pub reset : FlowWindow → FlowWindow
reset w = record w { available = w.initial_size }

-- The calls of a window, in the order in which its mutex lets them through. A call that fails or
-- has to wait leaves the window alone.
pub data Call : Type 0 where
  consumes updates : ℤ → Call
  resets : Call

abbrev after_consume : FlowWindow → Consumed → FlowWindow
after_consume w (taken w') = w'
after_consume w canceled = w
after_consume w waiting = w

abbrev pub after_update : FlowWindow → Updated → FlowWindow
after_update w (updated w') = w'
after_update w zero_increment = w
after_update w overflow = w

pub step : FlowWindow → Call → FlowWindow
step w (consumes n) = after_consume w (consume false w n)
step w (updates n) = after_update w (update w n)
step w resets = reset w

pub run : FlowWindow → List Call → FlowWindow
run w [] = w
run w (c ∷ cs) = run (step w c) cs
