-- ===== src/Agent/Forwarder/Steps.antt =====
-- Each step of a forwarding takes an action off what is left.
use atlax.Base.{ℕ, ◌+◌, ◌≤◌, ◌<◌, ◌≡◌, ap, Option, none, some, arith}
use atlax.Agent.Forwarder.{
  Direction, stream_to_local, local_to_stream, CopyPhase, copying, copied, half_closed, reported,
  AwaitPhase, first_direction, first_aborted, last_aborted, second_direction, second_aborted,
  returned, await_receives, await_expires, Forwarding, phase_of, set_phase, Step, copies,
  half_closes, reports, receives, expires, Run, rests, steps,
}

-- How many actions a copy and `await` have left at most.
unfoldable pub copy_left : CopyPhase → ℕ
copy_left copying = 3
copy_left (copied e) = 2
copy_left (half_closed e) = 1
copy_left (reported e) = 0

unfoldable pub await_left : AwaitPhase → ℕ
await_left first_direction = 5
await_left first_aborted = 4
await_left (second_direction first) = 3
await_left (second_aborted first) = 2
await_left last_aborted = 1
await_left (returned r) = 0

unfoldable pub left : Forwarding → ℕ
left s = copy_left s.up + copy_left s.down + await_left s.await

some_left :
    (a a' a'' : AwaitPhase)
    → some a ≡ some a'
    → await_left a < await_left a''
    → await_left a' < await_left a''
some_left a a' a'' h l = ground (arith, h)

receives-left :
    (a a' : AwaitPhase) (r : Option ℕ) → await_receives a r ≡ some a' → await_left a' < await_left a
unfolding await_receives await_left
receives-left first_direction a' r h =
    some_left (second_direction r) a' first_direction h (omega arith)
receives-left first_aborted a' r h = some_left last_aborted a' first_aborted h (omega arith)
receives-left last_aborted a' r h = some_left (returned none) a' last_aborted h (omega arith)
receives-left (second_direction first) a' r h =
    some_left _ a' (second_direction first) h (omega arith)
receives-left (second_aborted first) a' r h =
    some_left (returned first) a' (second_aborted first) h (omega arith)
receives-left (returned r') a' r h = absurd (ground (arith, h))

expires-left : (a a' : AwaitPhase) → await_expires a ≡ some a' → await_left a' < await_left a
unfolding await_expires await_left
expires-left first_direction a' h = some_left first_aborted a' first_direction h (omega arith)
expires-left (second_direction first) a' h =
    some_left (second_aborted first) a' (second_direction first) h (omega arith)
expires-left first_aborted a' h = absurd (ground (arith, h))
expires-left last_aborted a' h = absurd (ground (arith, h))
expires-left (second_aborted first) a' h = absurd (ground (arith, h))
expires-left (returned r) a' h = absurd (ground (arith, h))

phase-left :
    (d : Direction) (s : Forwarding) (p q : CopyPhase)
    → phase_of d s ≡ p
    → copy_left q < copy_left p
    → left (set_phase d q s) < left s
unfolding left
phase-left stream_to_local s p q h l = omega (arith, ap copy_left h)
phase-left local_to_stream s p q h l = omega (arith, ap copy_left h)

Step-left : (s t : Forwarding) → Step s t → left t < left s
unfolding left copy_left
Step-left s _ (copies d e h) = phase-left d s copying (copied e) h (omega arith)
Step-left s _ (half_closes d e h) = phase-left d s (copied e) (half_closed e) h (omega arith)
Step-left s _ (reports d e h) = phase-left d s (half_closed e) (reported e) h (omega arith)
Step-left s _ (receives r rest a h k) = omega (arith, receives-left s.await a r k)
Step-left s _ (expires a k) = omega (arith, expires-left s.await a k)

pub Run-left : (n : ℕ) (s t : Forwarding) → Run n s t → n + left t ≤ left s
Run-left _ _ _ (rests s) = omega arith
Run-left _ _ _ (steps n s t u h r) = omega (arith, Step-left s t h, Run-left n t u r)
