-- ===== src/Agent/Forwarder/Balance.antt =====
-- The results that the copies of a forwarding have put into `done`, and those that `await` has taken.
use atlax.Base.{
  ℕ, suc, ◌+◌, ◌≡◌, ◌⊎◌, inl, inr, refl, ap, Bool, [], ◌∷◌, Option, none, some, length,
  length-append, arith,
}
use atlax.Agent.Forwarder.{
  filter, Direction, stream_to_local, local_to_stream, CopyPhase, copying, copied, half_closed,
  reported, AwaitPhase, first_direction, first_aborted, last_aborted, second_direction,
  second_aborted, returned, await_receives, await_expires, Forwarding, forward, phase_of, set_phase,
  Step, copies, half_closes, reports, receives, expires, Run, rests, steps,
}

unfoldable pub handed : CopyPhase → ℕ
handed copying = 0
handed (copied e) = 0
handed (half_closed e) = 0
handed (reported e) = 1

unfoldable pub taken : AwaitPhase → ℕ
taken first_direction = 0
taken first_aborted = 0
taken last_aborted = 1
taken (second_direction first) = 1
taken (second_aborted first) = 1
taken (returned r) = 2

unfoldable pub Balanced : Forwarding → Type 0
Balanced s = handed s.up + handed s.down ≡ taken s.await + length s.done

phase-handed :
    (d : Direction) (s : Forwarding) (p q : CopyPhase)
    → phase_of d s ≡ p
    → handed (set_phase d q s).up + handed (set_phase d q s).down + handed p
      ≡ handed s.up + handed s.down + handed q
phase-handed stream_to_local s p q h = omega (arith, ap handed h)
phase-handed local_to_stream s p q h = omega (arith, ap handed h)

phase-await : (d : Direction) (s : Forwarding) (q : CopyPhase) → (set_phase d q s).await ≡ s.await
phase-await stream_to_local s q = refl
phase-await local_to_stream s q = refl

phase-done : (d : Direction) (s : Forwarding) (q : CopyPhase) → (set_phase d q s).done ≡ s.done
phase-done stream_to_local s q = refl
phase-done local_to_stream s q = refl

some_taken : (a a' : AwaitPhase) (n : ℕ) → some a ≡ some a' → taken a ≡ n → taken a' ≡ n
some_taken a a' n h e = ground (arith, h)

receives-taken :
    (a a' : AwaitPhase) (r : Option ℕ) → await_receives a r ≡ some a' → taken a' ≡ suc (taken a)
unfolding await_receives taken
receives-taken first_direction a' r h = some_taken (second_direction r) a' 1 h refl
receives-taken first_aborted a' r h = some_taken last_aborted a' 1 h refl
receives-taken last_aborted a' r h = some_taken (returned none) a' 2 h refl
receives-taken (second_direction first) a' r h = some_taken _ a' 2 h refl
receives-taken (second_aborted first) a' r h = some_taken (returned first) a' 2 h refl
receives-taken (returned r') a' r h = absurd (ground (arith, h))

expires-taken : (a a' : AwaitPhase) → await_expires a ≡ some a' → taken a' ≡ taken a
unfolding await_expires taken
expires-taken first_direction a' h = some_taken first_aborted a' 0 h refl
expires-taken (second_direction first) a' h = some_taken (second_aborted first) a' 1 h refl
expires-taken first_aborted a' h = absurd (ground (arith, h))
expires-taken last_aborted a' h = absurd (ground (arith, h))
expires-taken (second_aborted first) a' h = absurd (ground (arith, h))
expires-taken (returned r) a' h = absurd (ground (arith, h))

Step-Balanced : (s t : Forwarding) → Step s t → Balanced s → Balanced t
unfolding Balanced handed
Step-Balanced s _ (copies d e h) b =
    rw (phase-await d s (copied e), phase-done d s (copied e))
      (omega (arith, phase-handed d s copying (copied e) h))
Step-Balanced s _ (half_closes d e h) b =
    rw (phase-await d s (half_closed e), phase-done d s (half_closed e))
      (omega (arith, phase-handed d s (copied e) (half_closed e) h))
Step-Balanced s _ (reports d e h) b = rw (phase-await d s (reported e)) (
    omega (
      arith,
      phase-handed d s (half_closed e) (reported e) h,
      length-append s.done (filter s.link e ∷ []),
    ))
Step-Balanced s _ (receives r rest a h k) b =
    omega (arith, receives-taken s.await a r k, ap length h)
Step-Balanced s _ (expires a k) b = omega (arith, expires-taken s.await a k)

pub handed-cases : (p : CopyPhase) → (handed p ≡ 0) ⊎ (handed p ≡ 1)
unfolding handed
handed-cases copying = inl refl
handed-cases (copied e) = inl refl
handed-cases (half_closed e) = inl refl
handed-cases (reported e) = inr refl

abbrev pub IsReturned : AwaitPhase → Type 0
IsReturned a = (r : Option ℕ) × (a ≡ returned r)

pub two_taken : (a : AwaitPhase) → taken a ≡ 2 → IsReturned a
unfolding taken
two_taken (returned r) e = (r, refl)
two_taken first_direction e = absurd (omega arith)
two_taken first_aborted e = absurd (omega arith)
two_taken last_aborted e = absurd (omega arith)
two_taken (second_direction first) e = absurd (omega arith)
two_taken (second_aborted first) e = absurd (omega arith)

pub Run-Balanced : (n : ℕ) (s t : Forwarding) → Run n s t → Balanced s → Balanced t
Run-Balanced _ _ _ (rests s) b = b
Run-Balanced _ _ _ (steps n s t u h r) b = Run-Balanced n t u r (Step-Balanced s t h b)

pub start-Balanced : (session tcp : Bool) → Balanced (forward session tcp)
unfolding forward Balanced handed taken
start-Balanced session tcp = refl
