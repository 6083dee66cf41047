-- ===== src/Agent/Forwarder/Results.antt =====
-- What `Forward` returns: the copies' own errors, the first one first, and none that an abort caused.
use mathlib.Core.Path.{subst}
use atlax.Base.{
  ℕ, ◌≡◌, ◌⊎◌, inl, inr, refl, sym, ap, ◌∙◌, Bool, true, false, List, [], ◌∷◌, ◌++◌, Option, none,
  some, arith,
}
use atlax.Agent.Forwarder.{
  Direction, stream_to_local, local_to_stream, phase_of, CopyPhase, reported, AwaitPhase,
  first_direction, first_aborted, last_aborted, second_direction, second_aborted, returned,
  first_or_second, Forwarding, forward, Run, reporters,
}
use atlax.Agent.Forwarder.Reports.{Handed, Reports, Ended, both_reported, opposite, phase_at}
use atlax.Agent.Forwarder.Awaits.{
  Awaits, at_first, at_first_aborted, at_last_aborted, at_second, at_second_aborted, gave_both,
  gave_first, gave_up,
}
use atlax.Agent.Forwarder.Invariant.{Past, Freed, Run-Inv, start-Inv}

-- What `await` returned, against the error `e` of the copy that reported first and the error `e'` of the
-- other one.
abbrev pub Result : Bool → Option ℕ → Option ℕ → Option ℕ → Type 0
Result false (some e) e' r = r ≡ some e
Result false none e' r = r ≡ e'
Result true e e' r = (r ≡ none) ⊎ (r ≡ e)

-- Both copies have ended: `first` reported first, with `first_error`, and then the other one. The stream is
-- closed on this side and the local connection released.
pub record Outcome (s : Forwarding) (order : List Direction) (r : Option ℕ) : Type 0 where
  pub first : Direction
  pub first_error : Option ℕ
  pub second_error : Option ℕ
  pub in_order : order ≡ first ∷ opposite first ∷ []
  pub first_ended : phase_of first s ≡ reported first_error
  pub second_ended : phase_of (opposite first) s ≡ reported second_error
  pub stream_closed : s.link.stream_closed ≡ true
  pub local_closed : s.link.local_closed ≡ true
  pub result : Result s.link.aborted first_error second_error r

own_error : (e r : Option ℕ) → Handed false e r → r ≡ e
own_error e r (inl h) = h
own_error e r (inr (n, t)) = absurd (ground (arith, t))

both_results : (e e' : Option ℕ) → Result false e e' (first_or_second e e')
unfolding first_or_second
both_results none e' = refl
both_results (some e) e' = refl

both_handed :
    (e e' r r' : Option ℕ)
    → Handed false e r
    → Handed false e' r'
    → Result false e e' (first_or_second r r')
both_handed e e' r r' h h' = rw (own_error e r h, own_error e' r' h') (both_results e e')

one_handed : (e e' r : Option ℕ) → Handed true e r → Result true e e' r
one_handed e e' r (inl h) = inr h
one_handed e e' r (inr (n, t)) = inl n

given : AwaitPhase → Option ℕ
given (returned r) = r
given first_direction = none
given first_aborted = none
given last_aborted = none
given (second_direction first) = none
given (second_aborted first) = none

-- What is known of both copies once a call has given a result.
record Returned (b : Bool) (p q : CopyPhase) (order : List Direction) (r : Option ℕ) : Type 0 where
  x : Option ℕ
  x' : Option ℕ
  ended : Ended b p q order x x'
  result : Result b ended.e ended.e' r

-- A call that has given a result took two, which came from both copies.
result_of :
    (b : Bool) (a : AwaitPhase) (p q : CopyPhase) (l d : List (Option ℕ)) (order : List Direction)
    (r : Option ℕ)
    → Awaits b a l
    → Reports b p q (l ++ d) order
    → a ≡ returned r
    → Returned b p q order r
unfolding given
result_of _ _ p q _ d order r at_first rs h = absurd (ground (arith, h))
result_of _ _ p q _ d order r at_first_aborted rs h = absurd (ground (arith, h))
result_of _ _ p q _ d order r (at_last_aborted x) rs h = absurd (ground (arith, h))
result_of _ _ p q _ d order r (at_second x) rs h = absurd (ground (arith, h))
result_of _ _ p q _ d order r (at_second_aborted x) rs h = absurd (ground (arith, h))
result_of _ _ p q _ d order r (gave_up x x') rs h = record {
  x = x;
  x' = x';
  ended = both_reported true p q x x' d order rs;
  result = inl (sym (ap given h));
}
result_of _ _ p q _ d order r (gave_first x x') rs h =
    let n = both_reported true p q x x' d order rs in
    record {
      x = x;
      x' = x';
      ended = n;
      result = subst (Result true n.e n.e') (ap given h) (one_handed n.e n.e' x n.first_handed);
    }
result_of _ _ p q _ d order r (gave_both x x') rs h =
    let n = both_reported false p q x x' d order rs in
    record {
      x = x;
      x' = x';
      ended = n;
      result =
          subst (Result false n.e n.e') (ap given h)
            (both_handed n.e n.e' x x' n.first_handed n.second_handed);
    }

phase-at : (d : Direction) (s : Forwarding) → phase_of d s ≡ phase_at d s.up s.down
phase-at stream_to_local s = refl
phase-at local_to_stream s = refl

-- Both copies have reported, so the one to the stream has.
closed_of_reports :
    (first : Direction) (s : Forwarding) (e e' : Option ℕ)
    → phase_of first s ≡ reported e
    → phase_of (opposite first) s ≡ reported e'
    → Past s.down s.link.stream_closed
    → s.link.stream_closed ≡ true
unfolding Past
closed_of_reports stream_to_local s e e' h h' p = subst (λ q. Past q s.link.stream_closed) h' p
closed_of_reports local_to_stream s e e' h h' p = subst (λ q. Past q s.link.stream_closed) h p

-- Once a forwarding has returned, both copies have ended, the stream is closed on this side and the
-- local connection released. What is returned, if there was no abort, is the error of the copy that
-- reported first, or that of the other one if the first has none; after an abort it is the error of
-- the copy that reported first, or none.
pub forward-Outcome :
    (session tcp : Bool) (n : ℕ) (s : Forwarding) (r : Option ℕ)
    (run : Run n (forward session tcp) s)
    → s.await ≡ returned r
    → Outcome s (reporters n (forward session tcp) s run []) r
unfolding Freed
forward-Outcome session tcp n s r run h =
    let v = Run-Inv n (forward session tcp) s [] run (start-Inv session tcp) in
    let x = result_of _ _ _ _ _ _ _ r v.awaits v.reports_so_far h in
    let n = x.ended in
    let up = phase-at n.first s ∙ n.first_ended in
    let down = phase-at (opposite n.first) s ∙ n.second_ended in
    record {
      first = n.first;
      first_error = n.e;
      second_error = n.e';
      in_order = n.in_order;
      first_ended = up;
      second_ended = down;
      stream_closed = closed_of_reports n.first s n.e n.e' up down v.stream_side;
      local_closed = subst (λ a. Freed a s.link.local_closed) h v.local_side;
      result = x.result;
    }
