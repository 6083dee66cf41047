-- ===== src/Agent/Forwarder/Reports.antt =====
-- The results that the two copies of a forwarding put into `done`, in order.
use atlax.Base.{
  ℕ, ◌≡◌, ◌⊎◌, inl, inr, refl, Bool, true, List, [], ◌∷◌, ◌++◌, Option, none, some, Bool-cases,
}
use atlax.Agent.Forwarder.{
  Direction, stream_to_local, local_to_stream, ForwardLink, filter, CopyPhase, copying, copied,
  half_closed, reported,
}

-- The result of a copy as `filter` hands it on.
abbrev pub Handed : Bool → Option ℕ → Option ℕ → Type 0
Handed aborted e r = (r ≡ e) ⊎ ((r ≡ none) × (aborted ≡ true))

-- A copy that has not reported.
pub data Busy : CopyPhase → Type 0 where
  is_copying : Busy copying
  is_copied : (e : Option ℕ) → Busy (copied e)
  is_half_closed : (e : Option ℕ) → Busy (half_closed e)

-- The results put into `done` so far, in order, and the copies that they came from.
pub data Reports (aborted : Bool)
    : CopyPhase → CopyPhase → List (Option ℕ) → List Direction → Type 0 where
  neither : (p q : CopyPhase) → Busy p → Busy q → Reports aborted p q [] []
  up_only :
      (e r : Option ℕ) (q : CopyPhase)
      → Handed aborted e r
      → Busy q
      → Reports aborted (reported e) q (r ∷ []) (stream_to_local ∷ [])
  down_only :
      (e r : Option ℕ) (p : CopyPhase)
      → Handed aborted e r
      → Busy p
      → Reports aborted p (reported e) (r ∷ []) (local_to_stream ∷ [])
  up_first :
      (e e' r r' : Option ℕ)
      → Handed aborted e r
      → Handed aborted e' r'
      → Reports aborted
          (reported e)
          (reported e')
          (r ∷ r' ∷ [])
          (stream_to_local ∷ local_to_stream ∷ [])
  down_first :
      (e e' r r' : Option ℕ)
      → Handed aborted e r
      → Handed aborted e' r'
      → Reports aborted
          (reported e)
          (reported e')
          (r' ∷ r ∷ [])
          (local_to_stream ∷ stream_to_local ∷ [])

abbrev pub opposite : Direction → Direction
opposite stream_to_local = local_to_stream
opposite local_to_stream = stream_to_local

-- The phase of one of two copies.
abbrev pub phase_at : Direction → CopyPhase → CopyPhase → CopyPhase
phase_at stream_to_local p q = p
phase_at local_to_stream p q = q

-- Both copies have reported: `first` did so with `r` for its error `e`, the other one with `r'` for `e'`.
pub record Ended (b : Bool) (p q : CopyPhase) (order : List Direction) (r r' : Option ℕ)
    : Type 0 where
  pub first : Direction
  pub e : Option ℕ
  pub e' : Option ℕ
  pub in_order : order ≡ first ∷ opposite first ∷ []
  pub first_ended : phase_at first p q ≡ reported e
  pub second_ended : phase_at (opposite first) p q ≡ reported e'
  pub first_handed : Handed b e r
  pub second_handed : Handed b e' r'

pub both_reported :
    (b : Bool) (p q : CopyPhase) (r r' : Option ℕ) (d : List (Option ℕ)) (order : List Direction)
    → Reports b p q (r ∷ r' ∷ d) order
    → Ended b p q order r r'
both_reported b _ _ _ _ _ _ (up_first e e' x x' h h') = record {
  first = stream_to_local;
  e = e;
  e' = e';
  in_order = refl;
  first_ended = refl;
  second_ended = refl;
  first_handed = h;
  second_handed = h';
}
both_reported b _ _ _ _ _ _ (down_first e e' x x' h h') = record {
  first = local_to_stream;
  e = e';
  e' = e;
  in_order = refl;
  first_ended = refl;
  second_ended = refl;
  first_handed = h';
  second_handed = h;
}

pub Busy-up :
    (b : Bool) (p p' q : CopyPhase) (l : List (Option ℕ)) (order : List Direction)
    → Busy p
    → Busy p'
    → Reports b p q l order
    → Reports b p' q l order
Busy-up _ _ p' _ _ _ w w' (neither p q u v) = neither p' q w' v
Busy-up _ _ p' _ _ _ w w' (down_only e r p h u) = down_only e r p' h w'
Busy-up b _ p' q _ _ w w' (up_only e r _ _ _) = elim w [ ]
Busy-up b _ p' _ _ _ w w' (up_first e _ r _ _ _) = elim w [ ]
Busy-up b _ p' _ _ _ w w' (down_first e _ r _ _ _) = elim w [ ]

pub Busy-down :
    (b : Bool) (p q q' : CopyPhase) (l : List (Option ℕ)) (order : List Direction)
    → Busy q
    → Busy q'
    → Reports b p q l order
    → Reports b p q' l order
Busy-down _ _ _ q' _ _ w w' (neither p q u v) = neither p q' u w'
Busy-down _ _ _ q' _ _ w w' (up_only e r q h u) = up_only e r q' h w'
Busy-down b p _ q' _ _ w w' (down_only e r _ _ _) = elim w [ ]
Busy-down b _ _ q' _ _ w w' (up_first e _ r _ _ _) = elim w [ ]
Busy-down b _ _ q' _ _ w w' (down_first e _ r _ _ _) = elim w [ ]

pub Reports-up :
    (b : Bool) (p q : CopyPhase) (l : List (Option ℕ)) (order : List Direction) (e r : Option ℕ)
    → Busy p
    → Handed b e r
    → Reports b p q l order
    → Reports b (reported e) q (l ++ (r ∷ [])) (order ++ (stream_to_local ∷ []))
Reports-up _ _ _ _ _ e r w h (neither p q u v) = up_only e r q h v
Reports-up _ _ _ _ _ e r w h (down_only e' r' p h' u) = down_first e e' r r' h h'
Reports-up b _ q _ _ e r w h (up_only _ _ _ _ _) = elim w [ ]
Reports-up b _ _ _ _ e r w h (up_first _ _ _ _ _ _) = elim w [ ]
Reports-up b _ _ _ _ e r w h (down_first _ _ _ _ _ _) = elim w [ ]

pub Reports-down :
    (b : Bool) (p q : CopyPhase) (l : List (Option ℕ)) (order : List Direction) (e r : Option ℕ)
    → Busy q
    → Handed b e r
    → Reports b p q l order
    → Reports b p (reported e) (l ++ (r ∷ [])) (order ++ (local_to_stream ∷ []))
Reports-down _ _ _ _ _ e r w h (neither p q u v) = down_only e r p h u
Reports-down _ _ _ _ _ e r w h (up_only e' r' q h' u) = up_first e' e r' r h' h
Reports-down b p _ _ _ e r w h (down_only _ _ _ _ _) = elim w [ ]
Reports-down b _ _ _ _ e r w h (up_first _ _ _ _ _ _) = elim w [ ]
Reports-down b _ _ _ _ e r w h (down_first _ _ _ _ _ _) = elim w [ ]

pub aborted-Handed : (b : Bool) (e r : Option ℕ) → Handed b e r → Handed true e r
aborted-Handed b e r (inl h) = inl h
aborted-Handed b e r (inr (n, t)) = inr (n, refl)

pub aborted-Reports :
    (b : Bool) (p q : CopyPhase) (l : List (Option ℕ)) (order : List Direction)
    → Reports b p q l order
    → Reports true p q l order
aborted-Reports b _ _ _ _ (neither p q u v) = neither p q u v
aborted-Reports b _ _ _ _ (up_only e r q h v) = up_only e r q (aborted-Handed b e r h) v
aborted-Reports b _ _ _ _ (down_only e r p h u) = down_only e r p (aborted-Handed b e r h) u
aborted-Reports b _ _ _ _ (up_first e e' r r' h h') =
    up_first e e' r r' (aborted-Handed b e r h) (aborted-Handed b e' r' h')
aborted-Reports b _ _ _ _ (down_first e e' r r' h h') =
    down_first e e' r r' (aborted-Handed b e r h) (aborted-Handed b e' r' h')

pub filter-Handed : (l : ForwardLink) (e : Option ℕ) → Handed l.aborted e (filter l e)
unfolding filter
filter-Handed l none = inl refl
filter-Handed l (some e) = elim (Bool-cases l.aborted) [
  | inl t ↦ rw t (inr (refl, refl))
  | inr f ↦ rw f (inl refl)
]
