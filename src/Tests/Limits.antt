-- ===== src/Tests/Limits.antt =====
-- Rate limits: pkg/relay/ratelimit.go.
-- The bucket here gives one token and the next one a second later.
use atlax.Base.{
  ℕ, ◌+◌, ◌*◌, ◌^◌, ◌≤◌, ◌≡◌, refl, true, false, List, [], ◌∷◌, arith, ltb, if◌then◌else◌, bytes_eq,
}
use atlax.Base.Map.{lookup, insert}
use atlax.Base.Int.{pos}
use atlax.Relay.RateLimit.{RateLibrary, new_ip_rate_limiter, Event, asks, ticks, answers}
use atlax.Relay.RateLimit.Isolation.{own, answers-own}
use atlax.Relay.RateLimit.Buckets.{Used, first, again, Refills}
use atlax.Relay.RateLimit.Sweeping.{Timely, unswept, answers-unswept}

abbrev second : ℕ
second = 10 ^ 9

abbrev one_a_second : RateLibrary (Unit {0}) ℕ
one_a_second = record {
  new_limiter = λ rps burst. 0;
  allow_at = λ next now. if ltb now next then (false, next) else (true, now + second);
}

-- Three calls of one address and one of another; the entry of the first is swept in between.
abbrev traffic : List Event
traffic =
    asks (1 ∷ []) 0 0
    ∷ asks (2 ∷ []) 5 5
    ∷ asks (1 ∷ []) 10 10
    ∷ ticks (700 * second)
    ∷ asks (1 ∷ []) (700 * second) (700 * second)
    ∷ []

traffic-answers :
    answers one_a_second (1 ∷ []) (new_ip_rate_limiter one_a_second tt (pos 1)) traffic
    ≡ true ∷ false ∷ true ∷ []
unfolding answers new_ip_rate_limiter bytes_eq lookup insert
traffic-answers = refl

answers-own_example :
    answers one_a_second (1 ∷ []) (new_ip_rate_limiter one_a_second tt (pos 1)) traffic
    ≡ answers one_a_second
        (1 ∷ [])
        (new_ip_rate_limiter one_a_second tt (pos 1))
        (own (1 ∷ []) traffic)
answers-own_example = answers-own one_a_second (1 ∷ []) tt (pos 1) traffic

Used-bound : (l a : ℕ) → Used one_a_second tt (pos 1) l a → l ≤ a + second
Used-bound _ _ (first a) = ground arith
Used-bound _ _ (again l a b u o) = ground (arith, Used-bound l a u)

one_a_second-Refills : Refills one_a_second tt (pos 1) second
one_a_second-Refills l a now u h = ground (arith, Used-bound l a u)

traffic-Timely : Timely second 0 traffic
traffic-Timely = ground arith

answers-unswept_example :
    answers one_a_second (1 ∷ []) (new_ip_rate_limiter one_a_second tt (pos 1)) traffic
    ≡ answers one_a_second (1 ∷ []) (new_ip_rate_limiter one_a_second tt (pos 1)) (unswept traffic)
answers-unswept_example =
    answers-unswept one_a_second tt (pos 1) (1 ∷ []) second traffic one_a_second-Refills
      traffic-Timely
