-- ===== src/Agent/Forwarder/Awaits.antt =====
-- What `await` makes of the results that it takes.
use mathlib.Core.Path.{subst}
use mathlib.Core.Option.{some-injective}
use atlax.Base.{ℕ, ◌≡◌, Bool, true, false, List, [], ◌∷◌, ◌++◌, Option, none, some, arith}
use atlax.Agent.Forwarder.{
  AwaitPhase, first_direction, first_aborted, last_aborted, second_direction, second_aborted,
  returned, first_or_second, await_receives, await_expires,
}

-- What `await` has made of the results that it took.
pub data Awaits : Bool → AwaitPhase → List (Option ℕ) → Type 0 where
  at_first : Awaits false first_direction []
  at_first_aborted : Awaits true first_aborted []
  at_last_aborted : (r : Option ℕ) → Awaits true last_aborted (r ∷ [])
  at_second : (r : Option ℕ) → Awaits false (second_direction r) (r ∷ [])
  at_second_aborted : (r : Option ℕ) → Awaits true (second_aborted r) (r ∷ [])
  gave_up : (r r' : Option ℕ) → Awaits true (returned none) (r ∷ r' ∷ [])
  gave_first : (r r' : Option ℕ) → Awaits true (returned r) (r ∷ r' ∷ [])
  gave_both : (r r' : Option ℕ) → Awaits false (returned (first_or_second r r')) (r ∷ r' ∷ [])

some-Awaits :
    (b : Bool) (a a' : AwaitPhase) (l : List (Option ℕ))
    → some a ≡ some a'
    → Awaits b a l
    → Awaits b a' l
some-Awaits b a a' l h w = subst (λ x. Awaits b x l) (some-injective a a' h) w

pub receives-Awaits :
    (b : Bool) (a a' : AwaitPhase) (l : List (Option ℕ)) (r : Option ℕ)
    → await_receives a r ≡ some a'
    → Awaits b a l
    → Awaits b a' (l ++ (r ∷ []))
unfolding await_receives
receives-Awaits _ _ a' _ r h at_first = some-Awaits false _ a' _ h (at_second r)
receives-Awaits _ _ a' _ r h at_first_aborted = some-Awaits true _ a' _ h (at_last_aborted r)
receives-Awaits _ _ a' _ r h (at_last_aborted x) = some-Awaits true _ a' _ h (gave_up x r)
receives-Awaits _ _ a' _ r h (at_second x) = some-Awaits false _ a' _ h (gave_both x r)
receives-Awaits _ _ a' _ r h (at_second_aborted x) = some-Awaits true _ a' _ h (gave_first x r)
receives-Awaits _ _ a' _ r h (gave_up x y) = absurd (ground (arith, h))
receives-Awaits _ _ a' _ r h (gave_first x y) = absurd (ground (arith, h))
receives-Awaits _ _ a' _ r h (gave_both x y) = absurd (ground (arith, h))

pub expires-Awaits :
    (b : Bool) (a a' : AwaitPhase) (l : List (Option ℕ))
    → await_expires a ≡ some a'
    → Awaits b a l
    → Awaits true a' l
unfolding await_expires
expires-Awaits _ _ a' _ h at_first = some-Awaits true _ a' _ h at_first_aborted
expires-Awaits _ _ a' _ h (at_second x) = some-Awaits true _ a' _ h (at_second_aborted x)
expires-Awaits _ _ a' _ h at_first_aborted = absurd (ground (arith, h))
expires-Awaits _ _ a' _ h (at_last_aborted x) = absurd (ground (arith, h))
expires-Awaits _ _ a' _ h (at_second_aborted x) = absurd (ground (arith, h))
expires-Awaits _ _ a' _ h (gave_up x y) = absurd (ground (arith, h))
expires-Awaits _ _ a' _ h (gave_first x y) = absurd (ground (arith, h))
expires-Awaits _ _ a' _ h (gave_both x y) = absurd (ground (arith, h))
