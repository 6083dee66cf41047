-- ===== src/Protocol/Window/Bounds.antt =====
-- The window never overflows, and its counter is what was granted less what was taken.
use atlax.Base.{◌⊎◌, ◌-◌, ◌^◌, ◌≡◌, refl, List, [], ◌∷◌, if◌then◌else◌, All, arith}
use atlax.Base.Int.{
  ℤ, pos, negsuc, ◌+ℤ◌, ◌-ℤ◌, ◌≤ℤ◌, ◌<ℤ◌, ltb_ℤ, leb_ℤ, int_laws, +ℤ_parts, -ℤ_parts,
}
use atlax.Protocol.Window.{
  FlowWindow, max_window_size, int32, consume, update, updated, zero_increment, overflow, reset,
  Call, consumes, updates, resets, step, run,
}

-- An int32 is left as it is.
int32_id : (a : ℤ) → negsuc (2 ^ 31 - 1) ≤ℤ a → a ≤ℤ max_window_size → int32 a ≡ a
unfolding int32
int32_id (pos n) lo hi = ground arith
int32_id (negsuc n) lo hi = ground arith

-- Between calls the counter and the size it is reset to lie between 0 and 2^31 - 1.
pub record IsValid (w : FlowWindow) : Type 0 where
  pub available_nonneg : pos 0 ≤ℤ w.available
  pub available_bounded : w.available ≤ℤ max_window_size
  pub initial_nonneg : pos 0 ≤ℤ w.initial_size
  pub initial_bounded : w.initial_size ≤ℤ max_window_size

-- The argument of a `Consume` is a number of bytes.
abbrev pub IsCall : Call → Type 0
IsCall (consumes n) = pos 0 ≤ℤ n
IsCall (updates n) = Unit {0}
IsCall resets = Unit {0}

-- The window over unbounded integers: no conversion, no wrap-around.
unfoldable pub ideal_step : FlowWindow → Call → FlowWindow
ideal_step w (consumes n) =
    if ltb_ℤ w.available n then w else record w { available = w.available -ℤ n }
ideal_step w (updates n) =
    if leb_ℤ n (pos 0)
    then w
    else if ltb_ℤ max_window_size (w.available +ℤ n)
    then w
    else record w { available = w.available +ℤ n }
ideal_step w resets = record w { available = w.initial_size }

unfoldable pub ideal_run : FlowWindow → List Call → FlowWindow
ideal_run w [] = w
ideal_run w (c ∷ cs) = ideal_run (ideal_step w c) cs

sub_in_range : (a n : ℤ) → pos 0 ≤ℤ n → n ≤ℤ a → a ≤ℤ max_window_size → int32 (a -ℤ n) ≡ a -ℤ n
sub_in_range a n p h b = int32_id (a -ℤ n) (omega int_laws) (omega int_laws)

add_in_range :
    (a n : ℤ) → pos 0 ≤ℤ a → pos 0 ≤ℤ n → a +ℤ n ≤ℤ max_window_size → int32 (a +ℤ n) ≡ a +ℤ n
add_in_range a n p h b = int32_id (a +ℤ n) (omega int_laws) b

step-eq-ideal : (w : FlowWindow) (c : Call) → IsValid w → IsCall c → step w c ≡ ideal_step w c
unfolding step ideal_step consume update reset
step-eq-ideal w (consumes n) v p = ground (arith, sub_in_range w.available n)
step-eq-ideal w (updates n) v p = ground (arith, add_in_range w.available n)
step-eq-ideal w resets v p = refl

ideal_step-IsValid : (w : FlowWindow) (c : Call) → IsValid w → IsCall c → IsValid (ideal_step w c)
unfolding ideal_step
ideal_step-IsValid w (consumes n) v p = ground (arith, -ℤ_parts w.available n)
ideal_step-IsValid w (updates n) v p = ground (arith, +ℤ_parts w.available n)
ideal_step-IsValid w resets v p = ground arith

-- From any valid window, any sequence of Consume (of a number of bytes, with the context live),
-- Update and Reset calls does to the int32 counters what it would do to unbounded integers, and
-- leaves the window valid: nothing wraps, the counter stays between 0 and 2^31 - 1.
pub run-eq-ideal :
    (w : FlowWindow) (cs : List Call)
    → IsValid w
    → All IsCall cs
    → (run w cs ≡ ideal_run w cs) × IsValid (run w cs)
unfolding run ideal_run
run-eq-ideal w [] v h = (refl, v)
run-eq-ideal w (c ∷ cs) v h =
    rw (step-eq-ideal w c v h.0)
      (run-eq-ideal (ideal_step w c) cs (ideal_step-IsValid w c v h.0) h.1)

-- `Update` of a valid window: it refuses exactly the increments that are not positive and those that
-- would pass 2^31 - 1, and otherwise adds the increment.
pub update_cases :
    (w : FlowWindow) (n : ℤ)
    → IsValid w
    → ((n ≤ℤ pos 0) × (update w n ≡ zero_increment))
      ⊎ ((pos 0 <ℤ n) × (max_window_size <ℤ w.available +ℤ n) × (update w n ≡ overflow))
      ⊎ ((pos 0 <ℤ n)
          × (w.available +ℤ n ≤ℤ max_window_size)
          × (update w n ≡ updated (record w { available = w.available +ℤ n })))
unfolding update
update_cases w n v = ground (arith, add_in_range w.available n)
