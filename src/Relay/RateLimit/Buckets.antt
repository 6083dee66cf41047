-- ===== src/Relay/RateLimit/Buckets.antt =====
-- The bucket of one address with and without the sweeps.
use mathlib.Core.Path.{subst}
use atlax.Base.{
  ℕ, ◌+◌, ◌≤◌, ◌<◌, ◌≡◌, refl, sym, Bool, Option, none, some, bytes_eq_inst, arith, ltb→lt,
  Bool-cases, inl, inr,
}
use atlax.Base.Int.{ℤ}
use atlax.Relay.RateLimit.{RateLibrary, default_stale_timeout, IpEntry, is_stale}
use atlax.Relay.RateLimit.Isolation.{keep}

module _ {Limit Limiter : Type 0} (lib : RateLibrary Limit Limiter) (rps : Limit) (burst : ℤ) where
  -- A bucket that was made with `rps` and `burst` and was last asked at a time.
  pub data Used : Limiter → ℕ → Type 0 where
    first : (a : ℕ) → Used (lib.allow_at (lib.new_limiter rps burst) a).1 a
    again : (l : Limiter) (a b : ℕ) → Used l a → a ≤ b → Used (lib.allow_at l b).1 b

  -- Left alone for longer than `refill`, a bucket is full: it answers, and goes on, as a new one.
  abbrev pub Refills : ℕ → Type 0
  Refills refill =
      (l : Limiter) (a now : ℕ)
      → Used l a
      → a + refill < now
      → lib.allow_at l now ≡ lib.allow_at (lib.new_limiter rps burst) now

  -- An entry of the limiter that is swept, beside the one of the limiter that is not.
  pub data Alike (refill now : ℕ)
      : Option (IpEntry Limiter) → Option (IpEntry Limiter) → Type 0 where
    neither : Alike refill now none none
    both :
        (e : IpEntry Limiter) (a : ℕ)
        → Used e.limiter a
        → a ≤ now
        → a + refill ≤ e.last_seen + default_stale_timeout
        → Alike refill now (some e) (some e)
    swept :
        (e : IpEntry Limiter) (a : ℕ)
        → Used e.limiter a
        → a + refill < now
        → Alike refill now none (some e)

  pub Alike-keep :
      (refill t now : ℕ) (o o' : Option (IpEntry Limiter))
      → t ≤ now
      → Alike refill t o o'
      → Alike refill now (keep lib now o) o'
  unfolding keep is_stale
  Alike-keep refill t now _ _ h neither = neither
  Alike-keep refill t now _ _ h (both e a u w q) = elim (Bool-cases (is_stale lib now e)) [
    | inl st ↦ rw st (swept e a u (omega (arith, ltb→lt _ _ st)))
    | inr st ↦ rw st (both e a u (omega arith) q)
  ]
  Alike-keep refill t now _ _ h (swept e a u q) = swept e a u (omega arith)

  pub Alike-later :
      (refill t now : ℕ) (o o' : Option (IpEntry Limiter))
      → t ≤ now
      → Alike refill t o o'
      → Alike refill now o o'
  Alike-later refill t now _ _ h neither = neither
  Alike-later refill t now _ _ h (both e a u w q) = both e a u (omega arith) q
  Alike-later refill t now _ _ h (swept e a u q) = swept e a u (omega arith)

  unfoldable pub bucket_of : Option (IpEntry Limiter) → Limiter
  bucket_of none = lib.new_limiter rps burst
  bucket_of (some e) = e.limiter

  pub Alike-answer :
      (refill t asked : ℕ) (o o' : Option (IpEntry Limiter))
      → Refills refill
      → t ≤ asked
      → Alike refill t o o'
      → lib.allow_at (bucket_of o) asked ≡ lib.allow_at (bucket_of o') asked
  unfolding bucket_of
  Alike-answer refill t asked _ _ r h neither = refl
  Alike-answer refill t asked _ _ r h (both e a u w q) = refl
  Alike-answer refill t asked _ _ r h (swept e a u q) = sym (r e.limiter a asked u (omega arith))

  pub Alike-Used :
      (refill t asked : ℕ) (o o' : Option (IpEntry Limiter))
      → t ≤ asked
      → Alike refill t o o'
      → Used (lib.allow_at (bucket_of o) asked).1 asked
  unfolding bucket_of
  Alike-Used refill t asked _ _ h neither = first asked
  Alike-Used refill t asked _ _ h (both e a u w q) = again e.limiter a asked u (omega arith)
  Alike-Used refill t asked _ _ h (swept e a u q) = first asked

  pub Alike-asked :
      (refill seen asked : ℕ) (x x' : Bool × Limiter)
      → asked + refill ≤ seen + default_stale_timeout
      → x ≡ x'
      → Used x.1 asked
      → Alike refill asked
          (some (record { limiter = x.1; last_seen = seen }))
          (some (record { limiter = x'.1; last_seen = seen }))
  Alike-asked refill seen asked x x' q e u =
      subst
        (λ (y : Bool × Limiter).
          Alike refill asked (some (record { limiter = x.1; last_seen = seen }))
            (some (record { limiter = y.1; last_seen = seen })))
        e (both _ asked u (omega arith) q)
