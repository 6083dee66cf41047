-- ===== src/Relay/Router/Copies.antt =====
-- pkg/relay/router_impl.go, `copyBidirectional`: the two copies between a client and a stream.
-- A state is what the four goroutines share and where each of them stands; a step is one action of one
-- of them. A copy may end at any time with any result, and so may the context of the caller. An error
-- is named by a number.
pub mod Accounts
pub mod Steps
pub mod Ending
use atlax.Base.{
  ℕ, suc, ◌≡◌, Bool, true, false, List, [], ◌∷◌, ◌++◌, Option, none, some, ◌||◌, ◌&&◌,
  if◌then◌else◌,
}

-- A copy runs `io.Copy`, calls `cancel`, and puts the error into `errCh`.
pub data CopyPhase : Type 0 where
  copying : CopyPhase
  copied : Option ℕ → CopyPhase
  canceled : Option ℕ → CopyPhase
  reported : Option ℕ → CopyPhase

pub data MainPhase : Type 0 where
  awaits_first : MainPhase
  awaits_last : Option ℕ → MainPhase
  returned : Option ℕ → MainPhase

-- `done` tells whether `ctx` is done, `closer` whether the goroutine that waits for that has run.
-- `session` tells whether the stream is a `*protocol.StreamSession`.
pub record Copies : Type 0 where
  pub session : Bool
  pub done : Bool
  pub closer : Bool
  pub client_closed : Bool
  pub stream_reset : Bool
  pub stream_closed : Bool
  pub to_client : CopyPhase
  pub to_stream : CopyPhase
  pub err_ch : List (Option ℕ)
  pub main : MainPhase

unfoldable pub copy_bidirectional : Bool → Copies
copy_bidirectional session = record {
  session = session;
  done = false;
  closer = false;
  client_closed = false;
  stream_reset = false;
  stream_closed = false;
  to_client = copying;
  to_stream = copying;
  err_ch = [];
  main = awaits_first;
}

abbrev is_error : Option ℕ → Bool
is_error none = false
is_error (some e) = true

-- `firstErr != nil && ctx.Err() != nil` returns nil.
unfoldable pub first_err : Bool → Option ℕ → Option ℕ
first_err done first = if is_error first && done then none else first

unfoldable pub receive : Bool → MainPhase → Option ℕ → Option MainPhase
unfolding first_err
receive done awaits_first e = some (awaits_last e)
receive done (awaits_last first) e = some (returned (first_err done first))
receive done (returned r) e = none

unfoldable pub close_both : Copies → Copies
close_both s = record s {
  closer = true;
  client_closed = true;
  stream_reset = s.stream_reset || s.session;
  stream_closed = if s.session then s.stream_closed else true;
}

pub data Side : Type 0 where
  client stream : Side

abbrev pub phase_of : Side → Copies → CopyPhase
phase_of client s = s.to_client
phase_of stream s = s.to_stream

abbrev pub set_phase : Side → CopyPhase → Copies → Copies
set_phase client p s = record s { to_client = p }
set_phase stream p s = record s { to_stream = p }

pub data Step (s : Copies) : Copies → Type 0 where
  copies : (d : Side) (e : Option ℕ) → phase_of d s ≡ copying → Step s (set_phase d (copied e) s)
  cancels :
      (d : Side) (e : Option ℕ)
      → phase_of d s ≡ copied e
      → Step s (record (set_phase d (canceled e) s) { done = true })
  reports :
      (d : Side) (e : Option ℕ)
      → phase_of d s ≡ canceled e
      → Step s (record (set_phase d (reported e) s) { err_ch = s.err_ch ++ (e ∷ []) })
  caller_cancels : s.done ≡ false → Step s (record s { done = true })
  closes : s.done ≡ true → s.closer ≡ false → Step s (close_both s)
  receives :
      (e : Option ℕ) (rest : List (Option ℕ)) (m : MainPhase)
      → s.err_ch ≡ e ∷ rest
      → receive s.done s.main e ≡ some m
      → Step s (record s { err_ch = rest; main = m })

-- `n` steps one after the other.
pub data Run : ℕ → Copies → Copies → Type 0 where
  rests : (s : Copies) → Run 0 s s
  steps : (n : ℕ) (s t u : Copies) → Step s t → Run n t u → Run (suc n) s u
