-- ===== src/Relay/RateLimit/Sweeping.antt =====
-- Sweeping the stale entries changes no answer, if a bucket is full again before its entry is stale.
use mathlib.Core.Path.{subst}
use atlax.Base.{
  ℕ, ◌+◌, ◌≤◌, ◌≡◌, refl, sym, ap, ◌∙◌, Bytes, false, List, [], ◌∷◌, Option, none, some, ◌=?◌,
  bytes_eq_inst, bytes_eq_iff, Bool-cases, inl, inr,
}
use atlax.Base.Int.{ℤ}
use atlax.Base.Map.{lookup}
use atlax.Base.Map.Count.{UniqueKeys, insert-UniqueKeys}
use atlax.Relay.RateLimit.{
  RateLibrary, default_stale_timeout, IpEntry, IpRateLimiter, new_ip_rate_limiter, limiter_of,
  allow, sweep, Event, asks, ticks, answers,
}
use atlax.Relay.RateLimit.Isolation.{
  lookup-sweep, sweep-UniqueKeys, lookup-insert_here, lookup-insert_away,
}
use atlax.Relay.RateLimit.Buckets.{
  Used, Refills, Alike, neither, bucket_of, Alike-keep, Alike-later, Alike-answer, Alike-Used,
  Alike-asked,
}

-- The events less the ticks of the cleanup loop.
pub unswept : List Event → List Event
unswept [] = []
unswept (asks j seen asked ∷ rest) = asks j seen asked ∷ unswept rest
unswept (ticks now ∷ rest) = unswept rest

-- From the time `start` on, the clock readings by which buckets answer and entries are swept are in
-- order, and at most the ten minutes less `refill` lie between the two readings of an `Allow`.
abbrev pub Timely : ℕ → ℕ → List Event → Type 0
Timely refill start [] = Unit
Timely refill start (asks j seen asked ∷ rest) =
    (start ≤ asked) × (asked + refill ≤ seen + default_stale_timeout) × Timely refill asked rest
Timely refill start (ticks now ∷ rest) = (start ≤ now) × Timely refill now rest

module _ {Limit Limiter : Type 0} (lib : RateLibrary Limit Limiter) (rps : Limit) (burst : ℤ) where
  -- The limiter with the sweeps and the one without, as far as one address sees them.
  record Follows (ip : Bytes) (refill t : ℕ) (rl rl' : IpRateLimiter Limit Limiter) : Type 0 where
    its_rps : rl.rps ≡ rps
    its_burst : rl.burst ≡ burst
    its_rps' : rl'.rps ≡ rps
    its_burst' : rl'.burst ≡ burst
    alike : Alike lib rps burst refill t (lookup ip rl.entries) (lookup ip rl'.entries)
    unique : UniqueKeys rl.entries

  limiter_of_bucket :
      (rl : IpRateLimiter Limit Limiter) (o : Option (IpEntry Limiter))
      → rl.rps ≡ rps
      → rl.burst ≡ burst
      → limiter_of lib rl o ≡ bucket_of lib rps burst o
  unfolding limiter_of bucket_of
  limiter_of_bucket rl none p q = λ i. lib.new_limiter (p i) (q i)
  limiter_of_bucket rl (some e) p q = refl

  Follows-asked :
      (ip : Bytes) (refill t : ℕ) (rl rl' : IpRateLimiter Limit Limiter) (seen asked : ℕ)
      → Refills lib rps burst refill
      → t ≤ asked
      → asked + refill ≤ seen + default_stale_timeout
      → Follows ip refill t rl rl'
      → ((allow lib rl ip seen asked).0 ≡ (allow lib rl' ip seen asked).0)
        × Follows ip refill asked (allow lib rl ip seen asked).1 (allow lib rl' ip seen asked).1
  unfolding allow
  Follows-asked ip refill t rl rl' seen asked r h q f =
      let o = lookup ip rl.entries in
      let o' = lookup ip rl'.entries in
      let b = limiter_of_bucket rl o f.its_rps f.its_burst in
      let b' = limiter_of_bucket rl' o' f.its_rps' f.its_burst' in
      let answer =
        ap (λ l. lib.allow_at l asked) b
        ∙ Alike-answer lib rps burst refill t asked o o' r h f.alike
        ∙ ap (λ l. lib.allow_at l asked) (sym b') in
      let used =
        subst (λ l. Used lib rps burst (lib.allow_at l asked).1 asked) (sym b)
          (Alike-Used lib rps burst refill t asked o o' h f.alike) in
      (
        ap (λ x. x.0) answer,
        record {
          its_rps = f.its_rps;
          its_burst = f.its_burst;
          its_rps' = f.its_rps';
          its_burst' = f.its_burst';
          alike =
              rw (lookup-insert_here lib ip _ rl.entries, lookup-insert_here lib ip _ rl'.entries)
                (Alike-asked lib rps burst refill seen asked _ _ q answer used);
          unique = insert-UniqueKeys ip _ rl.entries f.unique;
        },
      )

  Follows-other :
      (ip j : Bytes) (refill t : ℕ) (rl rl' : IpRateLimiter Limit Limiter) (seen asked : ℕ)
      → (j =? ip) ≡ false
      → t ≤ asked
      → Follows ip refill t rl rl'
      → Follows ip refill asked (allow lib rl j seen asked).1 (allow lib rl' j seen asked).1
  unfolding allow
  Follows-other ip j refill t rl rl' seen asked d h f = record {
    its_rps = f.its_rps;
    its_burst = f.its_burst;
    its_rps' = f.its_rps';
    its_burst' = f.its_burst';
    alike =
        rw (lookup-insert_away lib ip j _ rl.entries d, lookup-insert_away lib ip j _ rl'.entries d)
          (Alike-later lib rps burst refill t asked _ _ h f.alike);
    unique = insert-UniqueKeys j _ rl.entries f.unique;
  }

  Follows-sweep :
      (ip : Bytes) (refill t now : ℕ) (rl rl' : IpRateLimiter Limit Limiter)
      → t ≤ now
      → Follows ip refill t rl rl'
      → Follows ip refill now (sweep lib rl now) rl'
  unfolding sweep
  Follows-sweep ip refill t now rl rl' h f = record {
    its_rps = f.its_rps;
    its_burst = f.its_burst;
    its_rps' = f.its_rps';
    its_burst' = f.its_burst';
    alike =
        rw (lookup-sweep lib ip now rl.entries f.unique)
          (Alike-keep lib rps burst refill t now _ _ h f.alike);
    unique = sweep-UniqueKeys lib now rl.entries f.unique;
  }

  answers-Follows :
      (ip : Bytes) (refill t : ℕ) (rl rl' : IpRateLimiter Limit Limiter) (events : List Event)
      → Refills lib rps burst refill
      → Timely refill t events
      → Follows ip refill t rl rl'
      → answers lib ip rl events ≡ answers lib ip rl' (unswept events)
  unfolding answers unswept Timely
  answers-Follows ip refill t rl rl' [] r w f = refl
  answers-Follows ip refill t rl rl' (asks j seen asked ∷ rest) r w f =
      elim (Bool-cases (j =? ip)) [
        | inl h ↦
            let s =
              subst
                (λ k.
                  ((allow lib rl k seen asked).0 ≡ (allow lib rl' k seen asked).0)
                  × Follows ip refill asked (allow lib rl k seen asked).1
                      (allow lib rl' k seen asked).1)
                (sym ((bytes_eq_iff j ip).0 h))
                (Follows-asked ip refill t rl rl' seen asked r w.0 w.1 f) in
            let later =
              answers-Follows ip refill asked (allow lib rl j seen asked).1
                (allow lib rl' j seen asked).1 rest r w.2 s.1 in
            rw h (λ i. s.0 i ∷ later i)
        | inr h ↦ rw h (
            answers-Follows ip refill asked (allow lib rl j seen asked).1
              (allow lib rl' j seen asked).1 rest r w.2
              (Follows-other ip j refill t rl rl' seen asked h w.0 f))
      ]
  answers-Follows ip refill t rl rl' (ticks now ∷ rest) r w f =
      answers-Follows ip refill now (sweep lib rl now) rl' rest r w.1
        (Follows-sweep ip refill t now rl rl' w.0 f)

  -- The sweeps change no answer: from a new limiter every address gets the answers that it would get if
  -- nothing were ever swept, if every bucket left alone for longer than `refill` is full again, the
  -- clock readings by which buckets answer and entries are swept are in order, and the two readings of
  -- a call lie no further apart than ten minutes less `refill`.
  pub answers-unswept :
      (ip : Bytes) (refill : ℕ) (events : List Event)
      → Refills lib rps burst refill
      → Timely refill 0 events
      → answers lib ip (new_ip_rate_limiter lib rps burst) events
        ≡ answers lib ip (new_ip_rate_limiter lib rps burst) (unswept events)
  unfolding new_ip_rate_limiter lookup
  answers-unswept ip refill events r w =
      let rl = new_ip_rate_limiter lib rps burst in
      answers-Follows ip refill 0 rl rl events r w (record {
        its_rps = refl;
        its_burst = refl;
        its_rps' = refl;
        its_burst' = refl;
        alike = neither;
        unique = tt;
      })
