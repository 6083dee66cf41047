-- ===== src/Agent/Client/Attempts.antt =====
-- How `Reconnect` ends.
use atlax.Base.{
  sym, ◌≡◌, ◌⊎◌, refl, inl, inr, ap, ◌∙◌, ℕ, zero, suc, ◌+◌, ◌<◌, ◌≤◌, false, none, arith, if_cases,
}
use mathlib.Core.Path.{subst}
use atlax.Base.Int.{ℤ, pos, negsuc}
use atlax.Agent.Client.{
  TunnelClient, store_connection, connect, teardown, Attempt, canceled, fails, dials, Reconnected,
  reconnected, gave_up, exhausted, max_attempts, after_connect, after_attempt, attempts, reconnect,
}

le-cases : (i j : ℕ) → i ≤ j → (i ≡ j) ⊎ (suc i ≤ j)
le-cases i j h = ground (arith, h)

-- The attempts from `i` up to `k` fail.
abbrev pub AllFail : (ℕ → Attempt) → ℕ → ℕ → Type 0
AllFail outcome i k = (j : ℕ) → i ≤ j → j < k → outcome j ≡ fails

-- The first attempt that does not fail decides; without one, they are exhausted.
abbrev pub Ends : TunnelClient → ℕ → ℕ → (ℕ → Attempt) → Reconnected → Type 0
Ends c i end outcome r =
    ((k : ℕ) × (i ≤ k)
      × (k < end)
      × AllFail outcome i k
      × (((outcome k ≡ dials) × (r ≡ reconnected (store_connection c)))
          ⊎ ((outcome k ≡ canceled) × (r ≡ gave_up c))))
    ⊎ (AllFail outcome i end × (r ≡ exhausted c))

none_before : (outcome : ℕ → Attempt) (i : ℕ) → AllFail outcome i i
none_before outcome i j a b = absurd (omega (arith, a, b))

one_more :
    (outcome : ℕ → Attempt) (i k : ℕ)
    → outcome i ≡ fails
    → AllFail outcome (suc i) k
    → AllFail outcome i k
one_more outcome i k e h j a b = elim (le-cases i j a) [
  | inl y ↦ ap outcome (sym y) ∙ e
  | inr y ↦ h j y b
]

failed_connect :
    (c : TunnelClient) (rest : Reconnected) → after_connect (connect c false) rest ≡ rest
unfolding connect
failed_connect c rest = if_cases (λ o. after_connect o rest ≡ rest) c.closed none none refl refl

attempt_Ends :
    (c : TunnelClient) (n i : ℕ) (outcome : ℕ → Attempt) (o : Attempt)
    → c.closed ≡ false
    → outcome i ≡ o
    → Ends c (suc i) (suc i + n) outcome (attempts c n (suc i) outcome)
    → Ends c i (i + suc n) outcome (after_attempt c o (attempts c n (suc i) outcome))
unfolding after_attempt connect
attempt_Ends c n i outcome canceled f e h =
    inl (i, omega arith, omega arith, none_before outcome i, inr (e, refl))
attempt_Ends c n i outcome dials f e h =
    inl (i, omega arith, omega arith, none_before outcome i, inl (e, rw f refl))
attempt_Ends c n i outcome fails f e h =
    subst (λ r. Ends c i (i + suc n) outcome r)
      (sym (failed_connect c (attempts c n (suc i) outcome)))
      (elim h [
        | inl x ↦
            inl (x.0, omega (arith, x.1), omega (arith, x.2), one_more outcome i x.0 e x.3, x.4)
        | inr x ↦ inr (one_more outcome i (i + suc n) e (λ j a b. x.0 j a (omega (arith, b))), x.1)
      ])

attempts-Ends :
    (c : TunnelClient) (n i : ℕ) (outcome : ℕ → Attempt)
    → c.closed ≡ false
    → Ends c i (i + n) outcome (attempts c n i outcome)
unfolding attempts
attempts-Ends c zero i outcome f = inr (λ j a b. absurd (omega (arith, a, b)), refl)
attempts-Ends c (suc n) i outcome f =
    attempt_Ends c n i outcome (outcome i) f refl (attempts-Ends c n (suc i) outcome f)

-- The number of attempts that a configuration allows.
abbrev pub IsBudget : ℤ → ℕ → Type 0
IsBudget (pos zero) n = n ≡ 10
IsBudget (pos (suc k)) n = n ≡ suc k
IsBudget (negsuc k) n = n ≡ 10

max_attempts_lem : (configured : ℤ) (n : ℕ) → IsBudget configured n → max_attempts configured ≡ n
max_attempts_lem (pos zero) n e = sym e
max_attempts_lem (pos (suc k)) n e = ground (arith, e)
max_attempts_lem (negsuc k) n e = ground (arith, e)

-- `Reconnect` of a client that is not closed makes at most the configured number of attempts, 10 if that is
-- not positive. The first attempt whose dial does not fail decides: it connects the client on a new
-- connection, or the context ended while it waited. If all fail it reports that they are exhausted. In
-- each case the old connection was torn down first.
pub reconnect-Ends :
    (c : TunnelClient) (configured : ℤ) (n : ℕ) (outcome : ℕ → Attempt)
    → IsBudget configured n
    → c.closed ≡ false
    → Ends (teardown c) 0 n outcome (reconnect c configured outcome)
unfolding reconnect teardown
reconnect-Ends c configured n outcome b f = rw (max_attempts_lem configured n b) (
    subst (λ e. Ends (teardown c) 0 e outcome (attempts (teardown c) n 0 outcome)) (omega arith)
      (attempts-Ends (teardown c) n 0 outcome f))
