-- ===== src/Agent/Forwarder/Ending.antt =====
-- A forwarding cannot go on for ever and cannot get stuck.
use atlax.Base.{ℕ, ◌≡◌, ◌⊎◌, Bool, true, false, Option}
use atlax.Agent.Forwarder.{
  copying, first_direction, second_direction, Forwarding, Step, copies, half_closes, reports,
  receives, expires,
}
use atlax.Agent.Forwarder.Balance.{IsReturned}
use atlax.Agent.Forwarder.Awaits.{Awaits}
use atlax.Agent.Forwarder.Ends.{EndsClosed}

-- An action that cannot be put off for ever. A copy may go on for as long as its two ends allow it, and is
-- sure to end once both are closed; the context need not end, `canceled` tells whether it has; the
-- linger timer runs as soon as one copy has reported.
abbrev pub IsDue : Bool → (s t : Forwarding) → Step s t → Type 0
IsDue canceled s _ (copies d e h) = EndsClosed s.link
IsDue canceled s _ (half_closes d e h) = Unit
IsDue canceled s _ (reports d e h) = Unit
IsDue canceled s _ (receives r rest a h k) = Unit
IsDue canceled s _ (expires a k) =
    (canceled ≡ true) ⊎ ((r : Option ℕ) × (s.await ≡ second_direction r))

abbrev pub Proceeds : Bool → Forwarding → Type 0
Proceeds canceled s = (t : Forwarding) × (h : Step s t) × IsDue canceled s t h

-- Both copies still run, none has ended, and nothing has asked them to end.
abbrev pub IsIdle : Forwarding → Type 0
IsIdle s = (s.await ≡ first_direction) × (s.up ≡ copying) × (s.down ≡ copying)

-- While `await` waits for one of the copies, it is aborted, or lingers, or nothing has happened yet.
data Waits (s : Forwarding) : Type 0 where
  waits_first : s.await ≡ first_direction → Waits s
  waits_second : (r : Option ℕ) → s.await ≡ second_direction r → Waits s
  waits_closed : EndsClosed s.link → Waits s
  waits_not : IsReturned s.await → Waits s

abbrev pub Continues : Bool → Forwarding → Type 0
Continues canceled s = IsReturned s.await ⊎ (Proceeds canceled s ⊎ ((canceled ≡ false) × IsIdle s))
