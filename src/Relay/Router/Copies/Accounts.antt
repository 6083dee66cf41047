-- ===== src/Relay/Router/Copies/Accounts.antt =====
-- What the goroutines of `copyBidirectional` have left to do, and what they have done so far.
use mathlib.Core.Path.{subst}
use mathlib.Core.Option.{some-injective}
use atlax.Base.{
  ℕ, suc, ◌+◌, ◌≤◌, ◌<◌, ◌≡◌, ◌≢◌, ◌⊎◌, refl, ap, ◌∙◌, Bool, true, false, Option, none, some, not,
  if◌then◌else◌, length, arith,
}
use atlax.Relay.Router.Copies.{
  CopyPhase, copying, copied, canceled, reported, MainPhase, awaits_first, awaits_last, returned,
  Copies, first_err, receive, Side, client, stream, phase_of, set_phase,
}

unfoldable pub bit : Bool → ℕ
bit true = 1
bit false = 0

-- How many actions a copy, the function and the whole have left at most.
unfoldable pub copy_left : CopyPhase → ℕ
copy_left copying = 3
copy_left (copied e) = 2
copy_left (canceled e) = 1
copy_left (reported e) = 0

unfoldable pub main_left : MainPhase → ℕ
main_left awaits_first = 2
main_left (awaits_last first) = 1
main_left (returned r) = 0

unfoldable pub left : Copies → ℕ
left s =
    copy_left s.to_client
    + copy_left s.to_stream
    + main_left s.main
    + bit (not s.done)
    + bit (not s.closer)

-- The errors put into `errCh`, and those taken from it.
unfoldable pub handed : CopyPhase → ℕ
handed copying = 0
handed (copied e) = 0
handed (canceled e) = 0
handed (reported e) = 1

unfoldable pub taken : MainPhase → ℕ
taken awaits_first = 0
taken (awaits_last first) = 1
taken (returned r) = 2

-- A copy that has canceled the context, or else has not got so far.
unfoldable pub Canceled : Bool → CopyPhase → Type 0
Canceled done copying = Unit
Canceled done (copied e) = Unit
Canceled done (canceled e) = done ≡ true
Canceled done (reported e) = done ≡ true

-- A result that is given is nil.
unfoldable pub Silent : MainPhase → Type 0
Silent awaits_first = Unit
Silent (awaits_last first) = Unit
Silent (returned r) = r ≡ none

-- The stream has been reset, or closed if it is no `*protocol.StreamSession`.
abbrev pub cut_off : Copies → Bool
cut_off s = if s.session then s.stream_reset else s.stream_closed

pub record Inv (s : Copies) : Type 0 where
  pub balanced : handed s.to_client + handed s.to_stream ≡ taken s.main + length s.err_ch
  pub client_canceled : Canceled s.done s.to_client
  pub stream_canceled : Canceled s.done s.to_stream
  pub silent : Silent s.main
  pub closed : (s.closer ≡ false) ⊎ ((s.client_closed ≡ true) × (cut_off s ≡ true))

-- What holds of what `receive` gives.
abbrev pub Received : MainPhase → MainPhase → Type 0
Received m m' = Silent m' × (taken m' ≡ suc (taken m)) × (main_left m' < main_left m)

first_err-none : (first : Option ℕ) → first_err true first ≡ none
unfolding first_err
first_err-none none = refl
first_err-none (some e) = refl

pub receive_facts :
    (done : Bool) (m m' : MainPhase) (e : Option ℕ)
    → done ≡ true
    → receive done m e ≡ some m'
    → Received m m'
unfolding receive Silent taken main_left
receive_facts done awaits_first m' e d h =
    subst (Received awaits_first) (some-injective _ _ h) (tt, refl, omega arith)
receive_facts done (awaits_last first) m' e d h =
    subst (Received (awaits_last first)) (some-injective _ _ h)
      (ap (λ b. first_err b first) d ∙ first_err-none first, refl, omega arith)
receive_facts done (returned r) m' e d h = absurd (ground (arith, h))

pub Canceled-done : (p : CopyPhase) (b : Bool) → Canceled b p → Canceled true p
unfolding Canceled
Canceled-done copying b c = tt
Canceled-done (copied e) b c = tt
Canceled-done (canceled e) b c = refl
Canceled-done (reported e) b c = refl

pub handed-done : (p : CopyPhase) (b : Bool) → Canceled b p → handed p ≢ 0 → b ≡ true
unfolding Canceled handed
handed-done copying b c h = absurd (h refl)
handed-done (copied e) b c h = absurd (h refl)
handed-done (canceled e) b c h = c
handed-done (reported e) b c h = c

pub phase_left :
    (d : Side) (s : Copies) (p q : CopyPhase)
    → phase_of d s ≡ p
    → copy_left q < copy_left p
    → left (set_phase d q s) < left s
unfolding left
phase_left client s p q h l = omega (arith, ap copy_left h)
phase_left stream s p q h l = omega (arith, ap copy_left h)

pub bit-le : (b : Bool) → bit b ≤ 1
unfolding bit
bit-le true = omega arith
bit-le false = omega arith

-- Canceling takes an action off the copy, and perhaps one off the rest.
pub cancels_left :
    (d : Side) (s : Copies) (e : Option ℕ)
    → phase_of d s ≡ copied e
    → left (record (set_phase d (canceled e) s) { done = true }) < left s
unfolding left copy_left bit
cancels_left client s e h = omega (arith, ap copy_left h)
cancels_left stream s e h = omega (arith, ap copy_left h)

pub done_left : (s : Copies) → s.done ≡ true → bit (not s.done) ≡ 0
unfolding bit
done_left s h = rw h refl
