-- ===== src/Tests/Audit.antt =====
-- The audit emitter: pkg/audit.
use atlax.Base.{◌≡◌, refl, ℕ, true, false, List, [], ◌∷◌, ◌++◌, if◌then◌else◌}
use atlax.Audit.{new_slog_emitter, send, may_emit, Step, sends, signals, closes, drains, run}
use atlax.Audit.Flushed.{accepted, run-flushed}

abbrev steps : List (Step ℕ)
steps = sends 1 ∷ sends 2 ∷ drains ∷ signals ∷ closes ∷ drains ∷ drains ∷ []

run-flushed_example :
    (run (new_slog_emitter 2) steps).logged
      ++ (if (run (new_slog_emitter 2) steps).done
          then []
          else (run (new_slog_emitter 2) steps).event_ch)
    ≡ accepted (new_slog_emitter 2) steps
run-flushed_example = run-flushed 2 steps

flushed : (run (new_slog_emitter 2) steps).logged ≡ 1 ∷ 2 ∷ []
unfolding run send
flushed = refl

-- An `Emit` that passed its first select before `Close` signalled, and sends after the channel was closed.
abbrev late : List (Step ℕ)
late = signals ∷ closes ∷ sends 1 ∷ []

late_send_panics : (run (new_slog_emitter 2) late).panicked ≡ true
unfolding run send
late_send_panics = refl

abbrev signalled : List (Step ℕ)
signalled = signals ∷ []

-- An `Emit` that comes after the signal returns ErrEmitterClosed.
late_emit_refused : may_emit (run (new_slog_emitter 2) signalled) ≡ false
unfolding run
late_emit_refused = refl
