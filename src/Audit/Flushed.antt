-- ===== src/Audit/Flushed.antt =====
-- No event that `Emit` accepted is lost.
use atlax.Base.{
  ◌≡◌, refl, sym, ap, ◌∙◌, inl, inr, ℕ, true, false, List, [], ◌∷◌, ◌++◌, length, ltb,
  if◌then◌else◌, if_cases, if_of_true, if_of_false, Bool-cases, arith,
}
use atlax.Audit.{
  SlogEmitter, new_slog_emitter, has_room, send, drain, Step, sends, signals, closes, drains, step,
  run,
}

append_assoc : {A : Type 0} (xs ys zs : List A) → (xs ++ ys) ++ zs ≡ xs ++ (ys ++ zs)
append_assoc [] ys zs = refl
append_assoc (x ∷ xs) ys zs = ap (λ t. x ∷ t) (append_assoc xs ys zs)

append_nil : {A : Type 0} (xs : List A) → xs ++ [] ≡ xs
append_nil [] = refl
append_nil (x ∷ xs) = ap (λ t. x ∷ t) (append_nil xs)

module _ {Event : Type 0} where
  -- The events for which `Emit` returned nil in the steps, in order.
  abbrev pub accepted_now : SlogEmitter Event → Step Event → List Event
  accepted_now e (sends event) = if has_room e then event ∷ [] else []
  accepted_now e signals = []
  accepted_now e closes = []
  accepted_now e drains = []

  unfoldable pub accepted : SlogEmitter Event → List (Step Event) → List Event
  accepted e [] = []
  accepted e (x ∷ xs) = accepted_now e x ++ accepted (step e x) xs

  abbrev held : SlogEmitter Event → List Event
  held e = e.logged ++ e.event_ch

  drain-held :
      (e : SlogEmitter Event) (es : List Event) → e.event_ch ≡ es → held (drain e es) ≡ held e ++ []
  unfolding drain
  drain-held e [] h = sym (append_nil (held e))
  drain-held e (x ∷ es) h =
      append_assoc e.logged (x ∷ []) es
      ∙ ap (λ t. e.logged ++ t) (sym h)
      ∙ sym (append_nil (held e))

  send-held :
      (e : SlogEmitter Event) (x : Event)
      → held (send e x) ≡ held e ++ (if has_room e then x ∷ [] else [])
  unfolding send
  send-held e x = elim (Bool-cases e.event_ch_closed) [
    | inl y ↦ rw y (sym (append_nil (held e)))
    | inr y ↦ elim (Bool-cases (ltb (length e.event_ch) e.buffer_size)) [
      | inl z ↦ rw (y, z) (sym (append_assoc e.logged e.event_ch (x ∷ [])))
      | inr z ↦ rw (y, z) (sym (append_nil (held e)))
    ]
  ]

  step-held :
      (e : SlogEmitter Event) (x : Step Event) → held (step e x) ≡ held e ++ accepted_now e x
  unfolding step
  step-held e (sends event) = send-held e event
  step-held e signals = sym (append_nil (held e))
  step-held e closes = sym (append_nil (held e))
  step-held e drains =
      if_cases (λ e'. held e' ≡ held e ++ []) e.done e (drain e e.event_ch)
        (sym (append_nil (held e))) (drain-held e e.event_ch refl)

  run-held :
      (e : SlogEmitter Event) (xs : List (Step Event)) → held (run e xs) ≡ held e ++ accepted e xs
  unfolding run accepted
  run-held e [] = sym (append_nil (held e))
  run-held e (x ∷ xs) =
      run-held (step e x) xs
      ∙ ap (λ t. t ++ accepted (step e x) xs) (step-held e x)
      ∙ append_assoc (held e) (accepted_now e x) (accepted (step e x) xs)

  -- The channel is closed after the signal, and the loop ends on a closed and empty channel.
  record IsSound (e : SlogEmitter Event) : Type 0 where
    pub in_order : e.event_ch_closed ≡ true → e.close_ch ≡ true
    pub ended : e.done ≡ true → (e.event_ch ≡ []) × (e.event_ch_closed ≡ true)

  send-IsSound : (e : SlogEmitter Event) (x : Event) → IsSound e → IsSound (send e x)
  unfolding send
  send-IsSound e x s = elim (Bool-cases e.event_ch_closed) [
    | inl y ↦ if_of_true IsSound _ _ y (record { in_order = s.in_order; ended = s.ended })
    | inr y ↦ if_of_false IsSound _ _ y (
        if_cases IsSound (ltb (length e.event_ch) e.buffer_size)
          (record e { event_ch = e.event_ch ++ (x ∷ []) }) e
          (record { in_order = s.in_order; ended = λ d. absurd (ground (arith, y, (s.ended d).1)) })
          s)
  ]

  drain-IsSound :
      (e : SlogEmitter Event) (es : List Event)
      → e.event_ch ≡ es
      → e.done ≡ false
      → IsSound e
      → IsSound (drain e es)
  unfolding drain
  drain-IsSound e [] h d s = record { in_order = s.in_order; ended = λ c. (h, c) }
  drain-IsSound e (x ∷ es) h d s = record {
    in_order = s.in_order;
    ended = λ c. absurd (ground (arith, c, d));
  }

  step-IsSound : (e : SlogEmitter Event) (x : Step Event) → IsSound e → IsSound (step e x)
  unfolding step
  step-IsSound e (sends event) s = send-IsSound e event s
  step-IsSound e signals s = record { in_order = λ c. refl; ended = s.ended }
  step-IsSound e closes s = record {
    in_order = λ c. c;
    ended = λ d. ((s.ended d).0, s.in_order (s.ended d).1);
  }
  step-IsSound e drains s = elim (Bool-cases e.done) [
    | inl y ↦ if_of_true IsSound e (drain e e.event_ch) y s
    | inr y ↦ if_of_false IsSound e (drain e e.event_ch) y (drain-IsSound e e.event_ch refl y s)
  ]

  run-IsSound : (e : SlogEmitter Event) (xs : List (Step Event)) → IsSound e → IsSound (run e xs)
  unfolding run
  run-IsSound e [] s = s
  run-IsSound e (x ∷ xs) s = run-IsSound (step e x) xs (step-IsSound e x s)

  -- After any steps of emitters, of `Close` and of the loop, in any order, the events for which `Emit` returned nil
  -- are, in order and each once, those that have been logged and then those that the channel still holds; once
  -- the loop is done, which `Close` waits for, all of them have been logged.
  pub run-flushed :
      (buffer_size : ℕ) (xs : List (Step Event))
      → (run (new_slog_emitter buffer_size) xs).logged
          ++ (if (run (new_slog_emitter buffer_size) xs).done
              then []
              else (run (new_slog_emitter buffer_size) xs).event_ch)
        ≡ accepted (new_slog_emitter buffer_size) xs
  run-flushed n xs =
      let start : SlogEmitter Event = new_slog_emitter n in
      let s = run-IsSound start xs (record {
        in_order = λ c. absurd (ground (arith, c));
        ended = λ c. absurd (ground (arith, c));
      }) in
      let e = run start xs in
      elim (Bool-cases e.done) [
        | inl y ↦
            if_of_true (λ t. e.logged ++ t ≡ accepted start xs) [] e.event_ch y
              (ap (λ t. e.logged ++ t) (sym (s.ended y).0) ∙ run-held start xs)
        | inr y ↦
            if_of_false (λ t. e.logged ++ t ≡ accepted start xs) [] e.event_ch y (run-held start xs)
      ]
