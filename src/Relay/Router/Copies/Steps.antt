-- ===== src/Relay/Router/Copies/Steps.antt =====
-- Each step of `copyBidirectional` takes an action off what is left, and keeps the accounts.
use mathlib.Core.Path.{subst}
use atlax.Base.{
  ℕ, ◌<◌, ◌≡◌, ◌⊎◌, inl, inr, refl, ap, Bool, true, List, [], ◌∷◌, ◌++◌, Option, ◌||◌,
  if◌then◌else◌, length, length-append, arith,
}
use atlax.Relay.Router.Copies.{
  CopyPhase, copying, copied, canceled, reported, Copies, close_both, Side, client, stream,
  phase_of, set_phase, Step, copies, cancels, reports, caller_cancels, closes, receives,
}
use atlax.Relay.Router.Copies.Accounts.{
  bit, copy_left, left, handed, Canceled, Inv, receive_facts, Canceled-done, handed-done,
  phase_left, cancels_left,
}

-- A result in `errCh` was put there by a copy that had canceled the context.
pub handed-cases : (p : CopyPhase) → (handed p ≡ 0) ⊎ (handed p ≡ 1)
unfolding handed
handed-cases copying = inl refl
handed-cases (copied e) = inl refl
handed-cases (canceled e) = inl refl
handed-cases (reported e) = inr refl

cut :
    (session reset closed : Bool)
    → (if session then reset || session else (if session then closed else true)) ≡ true
cut session reset closed = ground arith

pub sent-done :
    (s : Copies) (e : Option ℕ) (rest : List (Option ℕ))
    → Inv s
    → s.err_ch ≡ e ∷ rest
    → s.done ≡ true
sent-done s e rest v h = elim (handed-cases s.to_client) [
  | inr c ↦ handed-done s.to_client s.done v.client_canceled (omega (arith, c))
  | inl c ↦
      handed-done s.to_stream s.done v.stream_canceled (omega (arith, c, v.balanced, ap length h))
]

pub Step-left : (s t : Copies) → Inv s → Step s t → left t < left s
unfolding left copy_left bit
Step-left s _ v (copies d e h) = phase_left d s copying (copied e) h (omega arith)
Step-left s _ v (cancels d e h) = cancels_left d s e h
Step-left s _ v (reports d e h) = phase_left d s (canceled e) (reported e) h (omega arith)
Step-left s _ v (caller_cancels h) = rw h (omega arith)
Step-left s _ v (closes h c) = unfold close_both in rw c (omega arith)
Step-left s _ v (receives e rest m h k) =
    omega (arith, (receive_facts s.done s.main m e (sent-done s e rest v h) k).2)

copies-Inv :
    (d : Side) (s : Copies) (e : Option ℕ)
    → phase_of d s ≡ copying
    → Inv s
    → Inv (set_phase d (copied e) s)
unfolding handed Canceled
copies-Inv client s e h v = record {
  balanced = omega (arith, v.balanced, ap handed h);
  client_canceled = tt;
  stream_canceled = v.stream_canceled;
  silent = v.silent;
  closed = v.closed;
}
copies-Inv stream s e h v = record {
  balanced = omega (arith, v.balanced, ap handed h);
  client_canceled = v.client_canceled;
  stream_canceled = tt;
  silent = v.silent;
  closed = v.closed;
}

cancels-Inv :
    (d : Side) (s : Copies) (e : Option ℕ)
    → phase_of d s ≡ copied e
    → Inv s
    → Inv (record (set_phase d (canceled e) s) { done = true })
unfolding handed Canceled
cancels-Inv client s e h v = record {
  balanced = omega (arith, v.balanced, ap handed h);
  client_canceled = refl;
  stream_canceled = Canceled-done s.to_stream s.done v.stream_canceled;
  silent = v.silent;
  closed = v.closed;
}
cancels-Inv stream s e h v = record {
  balanced = omega (arith, v.balanced, ap handed h);
  client_canceled = Canceled-done s.to_client s.done v.client_canceled;
  stream_canceled = refl;
  silent = v.silent;
  closed = v.closed;
}

reports-Inv :
    (d : Side) (s : Copies) (e : Option ℕ)
    → phase_of d s ≡ canceled e
    → Inv s
    → Inv (record (set_phase d (reported e) s) { err_ch = s.err_ch ++ (e ∷ []) })
unfolding handed Canceled
reports-Inv client s e h v = record {
  balanced = omega (arith, v.balanced, ap handed h, length-append s.err_ch (e ∷ []));
  client_canceled = subst (Canceled s.done) h v.client_canceled;
  stream_canceled = v.stream_canceled;
  silent = v.silent;
  closed = v.closed;
}
reports-Inv stream s e h v = record {
  balanced = omega (arith, v.balanced, ap handed h, length-append s.err_ch (e ∷ []));
  client_canceled = v.client_canceled;
  stream_canceled = subst (Canceled s.done) h v.stream_canceled;
  silent = v.silent;
  closed = v.closed;
}

pub Step-Inv : (s t : Copies) → Inv s → Step s t → Inv t
Step-Inv s _ v (copies d e h) = copies-Inv d s e h v
Step-Inv s _ v (cancels d e h) = cancels-Inv d s e h v
Step-Inv s _ v (reports d e h) = reports-Inv d s e h v
Step-Inv s _ v (caller_cancels h) = record {
  balanced = v.balanced;
  client_canceled = Canceled-done s.to_client s.done v.client_canceled;
  stream_canceled = Canceled-done s.to_stream s.done v.stream_canceled;
  silent = v.silent;
  closed = v.closed;
}
Step-Inv s _ v (closes h c) =
    unfold close_both in
    record {
      balanced = v.balanced;
      client_canceled = v.client_canceled;
      stream_canceled = v.stream_canceled;
      silent = v.silent;
      closed = inr (refl, cut s.session s.stream_reset s.stream_closed);
    }
Step-Inv s _ v (receives e rest m h k) =
    let f = receive_facts s.done s.main m e (sent-done s e rest v h) k in
    record {
      balanced = omega (arith, v.balanced, ap length h, f.1);
      client_canceled = v.client_canceled;
      stream_canceled = v.stream_canceled;
      silent = f.0;
      closed = v.closed;
    }
