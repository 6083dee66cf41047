-- ===== src/Relay/Router/Copies/Ending.antt =====
-- `copyBidirectional` ends, closes both sides, and never returns an error.
use mathlib.Core.Path.{subst}
use atlax.Base.{
  ℕ, ◌+◌, ◌≤◌, ◌≡◌, ◌⊎◌, inl, inr, refl, ap, ◌∙◌, Bool, true, List, [], ◌∷◌, Option, none, length,
  arith,
}
use atlax.Relay.Router.Copies.{
  CopyPhase, copying, copied, canceled, reported, MainPhase, awaits_first, awaits_last, returned,
  Copies, copy_bidirectional, first_err, receive, Side, client, stream, phase_of, Step, copies,
  cancels, reports, closes, receives, Run, rests, steps,
}
use atlax.Relay.Router.Copies.Accounts.{
  bit, copy_left, main_left, left, handed, taken, Canceled, Silent, cut_off, Inv, handed-done,
}
-- A result in `errCh` was put there by a copy that had canceled the context.
use atlax.Relay.Router.Copies.Steps.{handed-cases, Step-left, Step-Inv}

Run-left : (n : ℕ) (s t : Copies) → Inv s → Run n s t → n + left t ≤ left s
Run-left _ _ _ v (rests s) = omega arith
Run-left _ _ _ v (steps n s t u h r) =
    omega (arith, Step-left s t v h, Run-left n t u (Step-Inv s t v h) r)

Run-Inv : (n : ℕ) (s t : Copies) → Inv s → Run n s t → Inv t
Run-Inv _ _ _ v (rests s) = v
Run-Inv _ _ _ v (steps n s t u h r) = Run-Inv n t u (Step-Inv s t v h) r

start-Inv : (session : Bool) → Inv (copy_bidirectional session)
unfolding copy_bidirectional handed taken Canceled Silent
start-Inv session = record {
  balanced = refl;
  client_canceled = tt;
  stream_canceled = tt;
  silent = tt;
  closed = inl refl;
}

start-left : (session : Bool) → left (copy_bidirectional session) ≡ 10
unfolding copy_bidirectional left copy_left main_left bit
start-left session = refl

-- The function has returned, the client is closed, and the stream is reset (or closed, if it is no
-- `*protocol.StreamSession`).
pub record Over (s : Copies) : Type 0 where
  pub returned_nil : s.main ≡ returned none
  pub client_closed : s.client_closed ≡ true
  pub stream_cut_off : cut_off s ≡ true

copy_acts :
    (d : Side) (s : Copies) (p : CopyPhase)
    → phase_of d s ≡ p
    → handed p ≡ 0
    → (t : Copies) × Step s t
unfolding handed
copy_acts d s copying h w = (_, copies d none h)
copy_acts d s (copied e) h w = (_, cancels d e h)
copy_acts d s (canceled e) h w = (_, reports d e h)
copy_acts d s (reported e) h w = absurd (omega (arith, w))

main_acts :
    (s : Copies) (m : MainPhase) (l : List (Option ℕ))
    → s.main ≡ m
    → s.err_ch ≡ l
    → taken m + length l ≡ 2
    → ((r : Option ℕ) × (s.main ≡ returned r)) ⊎ ((t : Copies) × Step s t)
unfolding taken receive
main_acts s (returned r) l h k b = inl (r, h)
main_acts s awaits_first [] h k b = absurd (omega (arith, b))
main_acts s (awaits_last first) [] h k b = absurd (omega (arith, b))
main_acts s awaits_first (e ∷ rest) h k b =
    inr (_, receives e rest (awaits_last e) k (ap (λ m. receive s.done m e) h))
main_acts s (awaits_last first) (e ∷ rest) h k b =
    inr (_, receives e rest (returned (first_err s.done first)) k (ap (λ m. receive s.done m e) h))

closer_acts :
    (s : Copies) (r : Option ℕ)
    → Inv s
    → s.done ≡ true
    → s.main ≡ returned r
    → Over s ⊎ ((t : Copies) × Step s t)
unfolding Silent
closer_acts s r v d h = elim v.closed [
  | inl c ↦ inr (_, closes d c)
  | inr c ↦ inl (record {
    returned_nil = h ∙ ap returned (subst Silent h v.silent);
    client_closed = c.0;
    stream_cut_off = c.1;
  })
]

acts : (s : Copies) → Inv s → Over s ⊎ ((t : Copies) × Step s t)
acts s v = elim (handed-cases s.to_client) [
  | inl c ↦ inr (copy_acts client s s.to_client refl c)
  | inr c ↦ elim (handed-cases s.to_stream) [
    | inl d ↦ inr (copy_acts stream s s.to_stream refl d)
    | inr d ↦ elim (main_acts s s.main s.err_ch refl refl (omega (arith, v.balanced, c, d))) [
      | inl r ↦
          closer_acts s r.0 v (handed-done s.to_client s.done v.client_canceled (omega (arith, c)))
            r.1
      | inr t ↦ inr t
    ]
  ]
]

-- Whatever the copies and the caller do, there are at most ten steps from the start, the function
-- never returns anything but nil, whatever the errors of the two copies, and where no step is possible
-- any more it has returned, the client connection is closed and the stream is reset, or closed if it
-- is no `*protocol.StreamSession`.
pub copy_bidirectional-ends :
    (session : Bool) (n : ℕ) (s : Copies)
    → Run n (copy_bidirectional session) s
    → (n ≤ 10) × Silent s.main × (Over s ⊎ ((t : Copies) × Step s t))
copy_bidirectional-ends session n s r = (
  omega
      (arith, Run-left n (copy_bidirectional session) s (start-Inv session) r, start-left session),
  (Run-Inv n (copy_bidirectional session) s (start-Inv session) r).silent,
  acts s (Run-Inv n (copy_bidirectional session) s (start-Inv session) r),
)
