-- ===== src/Audit.antt =====
-- pkg/audit/emitter.go: the queue between those who emit audit events and the loop that logs them.
-- `Emit` is two selects, and `Close` three statements behind a `sync.Once`, so each is a step of its own;
-- the steps of several goroutines come in any order. The context and the form of a log line are left out.
pub mod Flushed
use atlax.Base.{ℕ, Bool, true, false, not, ◌&&◌, List, [], ◌∷◌, ◌++◌, length, ltb, if◌then◌else◌}

-- `event_ch` is what the channel buffers and `logged` what the loop has logged, both oldest first.
pub record SlogEmitter (Event : Type 0) : Type 0 where
  pub event_ch : List Event
  pub buffer_size : ℕ
  pub close_ch : Bool
  pub event_ch_closed : Bool
  pub logged : List Event
  pub done : Bool
  pub panicked : Bool

pub data Step (Event : Type 0) : Type 0 where
  sends : Event → Step Event
  signals closes drains : Step Event

module _ {Event : Type 0} where
  -- "DefaultBufferSize" if the size is not positive
  abbrev pub new_slog_emitter : ℕ → SlogEmitter Event
  new_slog_emitter n = record {
    event_ch = [];
    buffer_size = if ltb 0 n then n else 256;
    close_ch = false;
    event_ch_closed = false;
    logged = [];
    done = false;
    panicked = false;
  }

  -- The first select of `Emit`: it goes on, or returns ErrEmitterClosed.
  abbrev pub may_emit : SlogEmitter Event → Bool
  may_emit e = not e.close_ch

  -- The second select can take its send: the channel is open and has room.
  abbrev pub has_room : SlogEmitter Event → Bool
  has_room e = not e.event_ch_closed && ltb (length e.event_ch) e.buffer_size

  -- It takes the send: on a closed channel that panics, and without room it waits.
  unfoldable pub send : SlogEmitter Event → Event → SlogEmitter Event
  send e event =
      if e.event_ch_closed
      then record e { panicked = true }
      else if ltb (length e.event_ch) e.buffer_size
      then record e { event_ch = e.event_ch ++ (event ∷ []) }
      else e

  -- One round of `drainLoop`: an event is logged, or the closed and empty channel ends it.
  unfoldable pub drain : SlogEmitter Event → List Event → SlogEmitter Event
  drain e [] = record e { done = e.event_ch_closed }
  drain e (event ∷ rest) = record e { event_ch = rest; logged = e.logged ++ (event ∷ []) }

  -- `Close` signals, closes the channel and waits for `done`; once the loop is done it does nothing.
  unfoldable pub step : SlogEmitter Event → Step Event → SlogEmitter Event
  unfolding send drain
  step e (sends event) = send e event
  step e signals = record e { close_ch = true }
  step e closes = record e { event_ch_closed = e.close_ch }
  step e drains = if e.done then e else drain e e.event_ch

  unfoldable pub run : SlogEmitter Event → List (Step Event) → SlogEmitter Event
  unfolding step
  run e [] = e
  run e (x ∷ xs) = run (step e x) xs
