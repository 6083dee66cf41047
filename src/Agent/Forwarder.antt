-- ===== src/Agent/Forwarder.antt =====
-- pkg/agent/forwarder_impl.go: the two copies between a stream and a local connection.
-- A forwarding is what the three goroutines share and where each of them stands; a step is one action
-- of one of them. A copy may end at any time with any result, the context may end and the linger timer
-- may fire at any time while `await` listens to them. Ending has which of these
-- steps are sure to come. An error is named by a number.

pub mod Reports
pub mod Awaits
pub mod Invariant
pub mod Results
pub mod Steps
pub mod Balance
pub mod Ends
pub mod Ending
use atlax.Base.{
  ℕ, suc, ◌≡◌, Bool, true, false, List, [], ◌∷◌, ◌++◌, Option, none, some, ◌||◌, if◌then◌else◌,
}

-- `forwardLink`, and what has been done to its two ends. `session` tells whether the stream is a
-- `*protocol.StreamSession`, `tcp` whether the raw connection is a `*net.TCPConn`.
pub record ForwardLink : Type 0 where
  pub session : Bool
  pub tcp : Bool
  pub aborted : Bool
  pub local_closed : Bool
  pub local_write_closed : Bool
  pub stream_reset : Bool
  pub stream_closed : Bool

-- `abort`, under `abortOnce`
unfoldable pub abort : ForwardLink → ForwardLink
abort l = if l.aborted then l else record l {
  aborted = true;
  local_closed = true;
  stream_reset = l.stream_reset || l.session;
  stream_closed = if l.session then l.stream_closed else true;
}

unfoldable pub filter : ForwardLink → Option ℕ → Option ℕ
filter l none = none
filter l (some e) = if l.aborted then none else some e

pub data Direction : Type 0 where
  stream_to_local local_to_stream : Direction

-- Where a copy stands, with the error of `io.CopyBuffer` once that is back: it half-closes the end it
-- wrote to, and then puts its result into `done`.
pub data CopyPhase : Type 0 where
  copying : CopyPhase
  copied : Option ℕ → CopyPhase
  half_closed : Option ℕ → CopyPhase
  reported : Option ℕ → CopyPhase

unfoldable pub half_close : Direction → ForwardLink → ForwardLink
half_close stream_to_local l = record l { local_write_closed = l.local_write_closed || l.tcp }
half_close local_to_stream l = record l { stream_closed = true }

-- Where `await` stands. Once it aborts, it takes the results that are still to come.
pub data AwaitPhase : Type 0 where
  first_direction : AwaitPhase
  first_aborted : AwaitPhase
  last_aborted : AwaitPhase
  second_direction : Option ℕ → AwaitPhase
  second_aborted : Option ℕ → AwaitPhase
  returned : Option ℕ → AwaitPhase

unfoldable pub first_or_second : Option ℕ → Option ℕ → Option ℕ
first_or_second none second = second
first_or_second (some e) second = some e

-- What a receive from `done` makes of it.
unfoldable pub await_receives : AwaitPhase → Option ℕ → Option AwaitPhase
unfolding first_or_second
await_receives first_direction r = some (second_direction r)
await_receives first_aborted r = some last_aborted
await_receives last_aborted r = some (returned none)
await_receives (second_direction first) r = some (returned (first_or_second first r))
await_receives (second_aborted first) r = some (returned first)
await_receives (returned r') r = none

-- The deferred `local.Close()` of `Forward` runs when `await` returns.
unfoldable pub after_await : AwaitPhase → ForwardLink → ForwardLink
after_await (returned r) l = record l { local_closed = true }
after_await first_direction l = l
after_await first_aborted l = l
after_await last_aborted l = l
after_await (second_direction first) l = l
after_await (second_aborted first) l = l

-- What the end of the context, or of the linger time, makes of it.
unfoldable pub await_expires : AwaitPhase → Option AwaitPhase
await_expires first_direction = some first_aborted
await_expires (second_direction first) = some (second_aborted first)
await_expires first_aborted = none
await_expires last_aborted = none
await_expires (second_aborted first) = none
await_expires (returned r) = none

pub record Forwarding : Type 0 where
  pub link : ForwardLink
  pub up : CopyPhase
  pub down : CopyPhase
  pub done : List (Option ℕ)
  pub await : AwaitPhase

-- `Forward` once the local service has been dialled.
unfoldable pub forward : Bool → Bool → Forwarding
forward session tcp = record {
  link = record {
    session = session;
    tcp = tcp;
    aborted = false;
    local_closed = false;
    local_write_closed = false;
    stream_reset = false;
    stream_closed = false;
  };
  up = copying;
  down = copying;
  done = [];
  await = first_direction;
}

abbrev pub phase_of : Direction → Forwarding → CopyPhase
phase_of stream_to_local s = s.up
phase_of local_to_stream s = s.down

abbrev pub set_phase : Direction → CopyPhase → Forwarding → Forwarding
set_phase stream_to_local p s = record s { up = p }
set_phase local_to_stream p s = record s { down = p }

pub data Step (s : Forwarding) : Forwarding → Type 0 where
  copies :
      (d : Direction) (e : Option ℕ) → phase_of d s ≡ copying → Step s (set_phase d (copied e) s)
  half_closes :
      (d : Direction) (e : Option ℕ)
      → phase_of d s ≡ copied e
      → Step s (record (set_phase d (half_closed e) s) { link = half_close d s.link })
  reports :
      (d : Direction) (e : Option ℕ)
      → phase_of d s ≡ half_closed e
      → Step s (record (set_phase d (reported e) s) { done = s.done ++ (filter s.link e ∷ []) })
  receives :
      (r : Option ℕ) (rest : List (Option ℕ)) (a : AwaitPhase)
      → s.done ≡ r ∷ rest
      → await_receives s.await r ≡ some a
      → Step s (record s { done = rest; await = a; link = after_await a s.link })
  expires :
      (a : AwaitPhase)
      → await_expires s.await ≡ some a
      → Step s (record s { link = abort s.link; await = a })

-- `n` steps one after the other.
pub data Run : ℕ → Forwarding → Forwarding → Type 0 where
  rests : (s : Forwarding) → Run 0 s s
  steps : (n : ℕ) (s t u : Forwarding) → Step s t → Run n t u → Run (suc n) s u

-- The order in which the copies put their results into `done`.
abbrev pub reporters_after : (s t : Forwarding) → Step s t → List Direction → List Direction
reporters_after s _ (copies d e h) order = order
reporters_after s _ (half_closes d e h) order = order
reporters_after s _ (reports d e h) order = order ++ (d ∷ [])
reporters_after s _ (receives r rest a h k) order = order
reporters_after s _ (expires a k) order = order

abbrev pub reporters : (n : ℕ) (s t : Forwarding) → Run n s t → List Direction → List Direction
reporters _ _ _ (rests s) order = order
reporters _ _ _ (steps n s t u h r) order = reporters n t u r (reporters_after s t h order)
