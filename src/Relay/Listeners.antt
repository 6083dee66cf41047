-- ===== src/Relay/Listeners.antt =====
-- pkg/relay/client_listener.go: the TCP listeners of the ports and the rate limiters of the tenants.
-- A `net.Listener` and an `*IPRateLimiter` are named by numbers. A limiter runs a goroutine until its
-- `Stop`; `stopped` and `closed` hold those whose `Stop` and `Close` were called, the latest first.
pub mod Values
pub mod Limiters
use atlax.Base.{
  ℕ, suc, Bytes, bytes_eq_inst, int_eq, Bool, List, [], ◌∷◌, ◌++◌, Option, none, some,
  if◌then◌else◌,
}
use atlax.Base.Int.{ℤ}
use atlax.Base.Map.{Map, lookup, insert, delete}

pub record ClientListener : Type 0 where
  pub rate_limiters : Map Bytes ℕ
  pub listeners : Map ℤ ℕ
  pub next_limiter : ℕ
  pub stopped : List ℕ
  pub closed : List ℕ

abbrev pub new_client_listener : ClientListener
new_client_listener = record {
  rate_limiters = [];
  listeners = [];
  next_limiter = 0;
  stopped = [];
  closed = [];
}

-- `SetRateLimiter`; the flag is `rps > 0`.
unfoldable pub set_rate_limiter : ClientListener → Bytes → Bool → ClientListener
set_rate_limiter cl customer_id positive =
    if positive
    then record cl {
      rate_limiters = insert customer_id cl.next_limiter cl.rate_limiters;
      next_limiter = suc cl.next_limiter;
    }
    else cl

-- `StartPort` up to its loop. `bound` is what `net.Listen` gives, and `none` its error.
unfoldable pub start_port_with_listener : ClientListener → ℕ → ℤ → ClientListener
start_port_with_listener cl ln port = record cl { listeners = insert port ln cl.listeners }

unfoldable pub start_port : ClientListener → Option ℕ → ℤ → Option ClientListener
unfolding start_port_with_listener
start_port cl none port = none
start_port cl (some ln) port = some (start_port_with_listener cl ln port)

-- `StopPort`; `none` is the error for a port that has no listener.
unfoldable pub stop_listener : ClientListener → ℤ → Option ℕ → Option ClientListener
stop_listener cl port none = none
stop_listener cl port (some ln) =
    some (record cl { closed = ln ∷ cl.closed; listeners = delete port cl.listeners })

unfoldable pub stop_port : ClientListener → ℤ → Option ClientListener
unfolding stop_listener
stop_port cl port = stop_listener cl port (lookup port cl.listeners)

abbrev pub values {ℓ κ} : {K : Type ℓ} {V : Type κ} → Map K V → List V
values [] = []
values ((k, v) ∷ m) = v ∷ values m

-- `Stop`
unfoldable pub stop : ClientListener → ClientListener
stop cl = record cl {
  closed = values cl.listeners ++ cl.closed;
  listeners = [];
  stopped = values cl.rate_limiters ++ cl.stopped;
  rate_limiters = [];
}

-- The calls, in the order in which the mutex lets them through.
pub data Call : Type 0 where
  sets_rate_limiter : Bytes → Bool → Call
  starts_port : Option ℕ → ℤ → Call
  stops_port : ℤ → Call
  stops : Call

abbrev pub or_unchanged : ClientListener → Option ClientListener → ClientListener
or_unchanged cl none = cl
or_unchanged cl (some cl') = cl'

unfoldable pub step : ClientListener → Call → ClientListener
step cl (sets_rate_limiter c positive) = set_rate_limiter cl c positive
step cl (starts_port bound p) = or_unchanged cl (start_port cl bound p)
step cl (stops_port p) = or_unchanged cl (stop_port cl p)
step cl stops = stop cl

unfoldable pub run : ClientListener → List Call → ClientListener
unfolding step
run cl [] = cl
run cl (x ∷ xs) = run (step cl x) xs
