-- ===== src/Relay/RateLimit/Isolation.antt =====
-- An address has a bucket of its own, and the sweep takes out the stale entries.
use mathlib.Core.Path.{subst}
use atlax.Base.{
  ℕ, ◌≡◌, refl, sym, ap, ◌∙◌, Bytes, Bool, true, false, List, [], ◌∷◌, Option, none, some, ◌=?◌,
  bytes_eq_inst, bytes_eq_iff, if◌then◌else◌, arith, Bool-cases, inl, inr,
}
use atlax.Base.Int.{ℤ}
use atlax.Base.Map.{Map, lookup, insert, lookup-insert}
use atlax.Base.Map.Count.{UniqueKeys, insert-UniqueKeys}
use atlax.Relay.RateLimit.{
  RateLibrary, IpEntry, IpRateLimiter, new_ip_rate_limiter, limiter_of, allow, is_stale,
  sweep_entries, sweep, Event, asks, ticks, answers,
}

-- The events less the calls for other addresses.
pub own : Bytes → List Event → List Event
own ip [] = []
own ip (asks j seen asked ∷ rest) = if j =? ip then asks j seen asked ∷ own ip rest else own ip rest
own ip (ticks now ∷ rest) = ticks now ∷ own ip rest

module _ {Limit Limiter : Type 0} (lib : RateLibrary Limit Limiter) where
  unfoldable pub keep : ℕ → Option (IpEntry Limiter) → Option (IpEntry Limiter)
  keep now none = none
  keep now (some entry) = if is_stale lib now entry then none else some entry

  lookup-sweep_none :
      (ip : Bytes) (now : ℕ) (m : Map Bytes (IpEntry Limiter))
      → lookup ip m ≡ none
      → lookup ip (sweep_entries lib now m) ≡ none
  unfolding lookup sweep_entries
  lookup-sweep_none ip now [] h = refl
  lookup-sweep_none ip now ((j, entry) ∷ m) h = ground (arith, lookup-sweep_none ip now m)

  pub lookup-sweep :
      (ip : Bytes) (now : ℕ) (m : Map Bytes (IpEntry Limiter))
      → UniqueKeys m
      → lookup ip (sweep_entries lib now m) ≡ keep now (lookup ip m)
  unfolding lookup sweep_entries keep
  lookup-sweep ip now [] u = refl
  lookup-sweep ip now ((j, entry) ∷ m) u =
      ground (arith, lookup-sweep ip now m u.1, lookup-sweep_none j now m u.0, bytes_eq_iff j ip)

  pub sweep-UniqueKeys :
      (now : ℕ) (m : Map Bytes (IpEntry Limiter))
      → UniqueKeys m
      → UniqueKeys (sweep_entries lib now m)
  unfolding sweep_entries
  sweep-UniqueKeys now [] u = tt
  sweep-UniqueKeys now ((j, entry) ∷ m) u =
      ground (arith, sweep-UniqueKeys now m u.1, lookup-sweep_none j now m u.0)

  -- Two limiters that treat an address alike.
  pub record Agrees (ip : Bytes) (rl rl' : IpRateLimiter Limit Limiter) : Type 0 where
    pub same_rps : rl.rps ≡ rl'.rps
    pub same_burst : rl.burst ≡ rl'.burst
    pub same_entry : lookup ip rl.entries ≡ lookup ip rl'.entries
    pub unique : UniqueKeys rl.entries
    pub unique' : UniqueKeys rl'.entries

  pub limiter_of_eq :
      (rl rl' : IpRateLimiter Limit Limiter) (o o' : Option (IpEntry Limiter))
      → rl.rps ≡ rl'.rps
      → rl.burst ≡ rl'.burst
      → o ≡ o'
      → limiter_of lib rl o ≡ limiter_of lib rl' o'
  unfolding limiter_of
  limiter_of_eq rl rl' none o' p q e =
      subst (λ x. lib.new_limiter rl.rps rl.burst ≡ limiter_of lib rl' x) e
        (λ i. lib.new_limiter (p i) (q i))
  limiter_of_eq rl rl' (some entry) o' p q e =
      subst (λ x. entry.limiter ≡ limiter_of lib rl' x) e refl

  pub lookup-insert_here :
      (ip : Bytes) (v : IpEntry Limiter) (m : Map Bytes (IpEntry Limiter))
      → lookup ip (insert ip v m) ≡ some v
  lookup-insert_here ip v m =
      lookup-insert ip ip v m
      ∙ ap (λ b. if b then some v else lookup ip m) ((bytes_eq_iff ip ip).1 refl)

  pub lookup-insert_away :
      (ip j : Bytes) (v : IpEntry Limiter) (m : Map Bytes (IpEntry Limiter))
      → (j =? ip) ≡ false
      → lookup ip (insert j v m) ≡ lookup ip m
  lookup-insert_away ip j v m d =
      lookup-insert j ip v m ∙ ap (λ b. if b then some v else lookup ip m) d

  abbrev entry_at : ℕ → Limiter → IpEntry Limiter
  entry_at seen l = record { limiter = l; last_seen = seen }

  allow-Agrees :
      (ip : Bytes) (rl rl' : IpRateLimiter Limit Limiter) (seen asked : ℕ)
      → Agrees ip rl rl'
      → ((allow lib rl ip seen asked).0 ≡ (allow lib rl' ip seen asked).0)
        × Agrees ip (allow lib rl ip seen asked).1 (allow lib rl' ip seen asked).1
  unfolding allow
  allow-Agrees ip rl rl' seen asked a =
      let b =
        limiter_of_eq rl rl' (lookup ip rl.entries) (lookup ip rl'.entries) a.same_rps a.same_burst
          a.same_entry in
      let r = ap (λ l. lib.allow_at l asked) b in
      (
        ap (λ x. x.0) r,
        record {
          same_rps = a.same_rps;
          same_burst = a.same_burst;
          same_entry =
              lookup-insert_here ip _ rl.entries
              ∙ ap (λ (x : Bool × Limiter). some (entry_at seen x.1)) r
              ∙ sym (lookup-insert_here ip _ rl'.entries);
          unique = insert-UniqueKeys ip _ rl.entries a.unique;
          unique' = insert-UniqueKeys ip _ rl'.entries a.unique';
        },
      )

  allow-other :
      (ip j : Bytes) (rl rl' : IpRateLimiter Limit Limiter) (seen asked : ℕ)
      → (j =? ip) ≡ false
      → Agrees ip rl rl'
      → Agrees ip (allow lib rl j seen asked).1 rl'
  unfolding allow
  allow-other ip j rl rl' seen asked d a = record {
    same_rps = a.same_rps;
    same_burst = a.same_burst;
    same_entry = lookup-insert_away ip j _ rl.entries d ∙ a.same_entry;
    unique = insert-UniqueKeys j _ rl.entries a.unique;
    unique' = a.unique';
  }

  sweep-Agrees :
      (ip : Bytes) (rl rl' : IpRateLimiter Limit Limiter) (now : ℕ)
      → Agrees ip rl rl'
      → Agrees ip (sweep lib rl now) (sweep lib rl' now)
  unfolding sweep
  sweep-Agrees ip rl rl' now a = record {
    same_rps = a.same_rps;
    same_burst = a.same_burst;
    same_entry =
        lookup-sweep ip now rl.entries a.unique
        ∙ ap (keep now) a.same_entry
        ∙ sym (lookup-sweep ip now rl'.entries a.unique');
    unique = sweep-UniqueKeys now rl.entries a.unique;
    unique' = sweep-UniqueKeys now rl'.entries a.unique';
  }

  answers-hit :
      (ip j : Bytes) (rl : IpRateLimiter Limit Limiter) (seen asked : ℕ) (rest : List Event)
      → (j =? ip) ≡ true
      → answers lib ip rl (asks j seen asked ∷ rest)
        ≡ (allow lib rl j seen asked).0 ∷ answers lib ip (allow lib rl j seen asked).1 rest
  unfolding answers
  answers-hit ip j rl seen asked rest h = rw h refl

  answers-Agrees :
      (ip : Bytes) (rl rl' : IpRateLimiter Limit Limiter) (events : List Event)
      → Agrees ip rl rl'
      → answers lib ip rl events ≡ answers lib ip rl' (own ip events)
  unfolding answers own
  answers-Agrees ip rl rl' [] a = refl
  answers-Agrees ip rl rl' (asks j seen asked ∷ rest) a = elim (Bool-cases (j =? ip)) [
    | inl h ↦
        let s =
          subst
            (λ k.
              ((allow lib rl k seen asked).0 ≡ (allow lib rl' k seen asked).0)
              × Agrees ip (allow lib rl k seen asked).1 (allow lib rl' k seen asked).1)
            (sym ((bytes_eq_iff j ip).0 h)) (allow-Agrees ip rl rl' seen asked a) in
        let later =
          answers-Agrees ip (allow lib rl j seen asked).1 (allow lib rl' j seen asked).1 rest s.1 in
        rw h ((λ i. s.0 i ∷ later i) ∙ sym (answers-hit ip j rl' seen asked (own ip rest) h))
    | inr h ↦ rw h (
        answers-Agrees ip (allow lib rl j seen asked).1 rl' rest
          (allow-other ip j rl rl' seen asked h a))
  ]
  answers-Agrees ip rl rl' (ticks now ∷ rest) a =
      answers-Agrees ip (sweep lib rl now) (sweep lib rl' now) rest (sweep-Agrees ip rl rl' now a)

  -- The answers that an address gets are those that it would get if the other addresses had asked
  -- nothing: from a new limiter, whatever the calls, the sweeps and their times.
  pub answers-own :
      (ip : Bytes) (rps : Limit) (burst : ℤ) (events : List Event)
      → answers lib ip (new_ip_rate_limiter lib rps burst) events
        ≡ answers lib ip (new_ip_rate_limiter lib rps burst) (own ip events)
  unfolding new_ip_rate_limiter
  answers-own ip rps burst events =
      let rl = new_ip_rate_limiter lib rps burst in
      answers-Agrees ip rl rl events (record {
        same_rps = refl;
        same_burst = refl;
        same_entry = refl;
        unique = tt;
        unique' = tt;
      })
