-- ===== src/Relay/RateLimit.antt =====
-- pkg/relay/ratelimit.go: one token bucket for each source address.
-- The bucket is golang.org/x/time/rate's and is a parameter. Times are nanoseconds; the clock is read
-- where the source reads it, and the readings are arguments. `Allow` is one step: the bucket that it
-- found is its own from then on, whatever becomes of the map.
pub mod Isolation
pub mod Buckets
pub mod Sweeping
use atlax.Base.{
  ℕ, ◌+◌, ◌*◌, ◌^◌, Bytes, Bool, true, false, List, [], ◌∷◌, Option, none, some, ltb, length, ◌=?◌,
  bytes_eq_inst, if◌then◌else◌,
}
use atlax.Base.Int.{ℤ}
use atlax.Base.Map.{Map, lookup, insert}

-- `rate.NewLimiter`, and `(*Limiter).Allow` at a time.
pub record RateLibrary (Limit Limiter : Type 0) : Type 0 where
  pub new_limiter : Limit → ℤ → Limiter
  pub allow_at : Limiter → ℕ → Bool × Limiter

-- `defaultStaleTimeout`, ten minutes.
abbrev pub default_stale_timeout : ℕ
default_stale_timeout = 10 * 60 * 10 ^ 9

pub record IpEntry (Limiter : Type 0) : Type 0 where
  pub limiter : Limiter
  pub last_seen : ℕ

pub record IpRateLimiter (Limit Limiter : Type 0) : Type 0 where
  pub rps : Limit
  pub burst : ℤ
  pub entries : Map Bytes (IpEntry Limiter)

-- What happens to a limiter: calls of `Allow`, and the ticks on which the cleanup loop sweeps.
pub data Event : Type 0 where
  asks : Bytes → ℕ → ℕ → Event
  ticks : ℕ → Event

module _ {Limit Limiter : Type 0} (lib : RateLibrary Limit Limiter) where
  unfoldable pub new_ip_rate_limiter : Limit → ℤ → IpRateLimiter Limit Limiter
  new_ip_rate_limiter rps burst = record { rps = rps; burst = burst; entries = [] }

  -- The bucket of an address: the one in the map, or a new one.
  unfoldable pub limiter_of : IpRateLimiter Limit Limiter → Option (IpEntry Limiter) → Limiter
  limiter_of rl none = lib.new_limiter rl.rps rl.burst
  limiter_of rl (some entry) = entry.limiter

  -- `Allow`; `seen` is the time that goes into the entry, `asked` the one that the bucket reads.
  unfoldable pub allow :
      IpRateLimiter Limit Limiter → Bytes → ℕ → ℕ → Bool × IpRateLimiter Limit Limiter
  unfolding limiter_of
  allow rl ip seen asked =
      let r = lib.allow_at (limiter_of rl (lookup ip rl.entries)) asked in
      (
        r.0,
        record rl { entries = insert ip (record { limiter = r.1; last_seen = seen }) rl.entries },
      )

  unfoldable pub len : IpRateLimiter Limit Limiter → ℕ
  len rl = length rl.entries

  -- `entry.lastSeen.Before(cutoff)`, the cutoff being ten minutes before `now`.
  unfoldable pub is_stale : ℕ → IpEntry Limiter → Bool
  is_stale now entry = ltb (entry.last_seen + default_stale_timeout) now

  unfoldable pub sweep_entries : ℕ → Map Bytes (IpEntry Limiter) → Map Bytes (IpEntry Limiter)
  unfolding is_stale
  sweep_entries now [] = []
  sweep_entries now ((ip, entry) ∷ rest) =
      if is_stale now entry then sweep_entries now rest else (ip, entry) ∷ sweep_entries now rest

  unfoldable pub sweep : IpRateLimiter Limit Limiter → ℕ → IpRateLimiter Limit Limiter
  unfolding sweep_entries
  sweep rl now = record rl { entries = sweep_entries now rl.entries }

  -- The answers that one address gets.
  unfoldable pub answers : Bytes → IpRateLimiter Limit Limiter → List Event → List Bool
  unfolding allow sweep
  answers ip rl [] = []
  answers ip rl (asks j seen asked ∷ rest) =
      let r = allow rl j seen asked in
      let later = answers ip r.1 rest in if j =? ip then r.0 ∷ later else later
  answers ip rl (ticks now ∷ rest) = answers ip (sweep rl now) rest
