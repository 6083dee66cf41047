-- ===== src/Relay/Listeners/Limiters.antt =====
-- What becomes of a rate limiter.
use atlax.Base.{
  ◌≡◌, inl, inr, ℕ, ◌<◌, Bytes, bytes_eq, bytes_eq_inst, int_eq, Bool, true, false, List, [], ◌∷◌,
  ◌++◌, Option, none, some, arith, All, Bool-cases,
}
use atlax.Base.Int.{ℤ}
use atlax.Base.Map.{Map, lookup, insert}
use atlax.Relay.Listeners.Values.{
  Without, Below, Distinct, Below-suc, Without-append, Below-append, Below-insert, Without-insert,
  Distinct-insert, lookup-Without, Without-replaced,
}
use atlax.Relay.Listeners.{
  ClientListener, new_client_listener, set_rate_limiter, start_port, stop_port, stop_listener,
  start_port_with_listener, stop, values, Call, sets_rate_limiter, starts_port, stops_port, stops,
  or_unchanged, step, run,
}

-- The numbers in use are distinct, none is to come, and none of them was stopped.
pub record IsSound (cl : ClientListener) : Type 0 where
  pub used : Below cl.next_limiter (values cl.rate_limiters)
  pub distinct : Distinct (values cl.rate_limiters)
  pub stopped_old : Below cl.next_limiter cl.stopped
  pub running : All (λ x. Without x (values cl.rate_limiters)) cl.stopped

running-insert :
    (n : ℕ) (c : Bytes) (m : Map Bytes ℕ) (xs : List ℕ)
    → Below n xs
    → All (λ x. Without x (values m)) xs
    → All (λ x. Without x (values (insert c n m))) xs
running-insert n c m [] b r = tt
running-insert n c m (x ∷ xs) b r =
    (Without-insert n c x m (ground (arith, b.0)) r.0, running-insert n c m xs b.1 r.1)

none_used : (xs : List ℕ) → All (λ x. Without x []) xs
none_used [] = tt
none_used (x ∷ xs) = (tt, none_used xs)

set_rate_limiter-IsSound :
    (cl : ClientListener) (c : Bytes) (positive : Bool)
    → IsSound cl
    → IsSound (set_rate_limiter cl c positive)
unfolding set_rate_limiter
set_rate_limiter-IsSound cl c false s = s
set_rate_limiter-IsSound cl c true s = record {
  used = Below-insert cl.next_limiter c cl.rate_limiters s.used;
  distinct = Distinct-insert cl.next_limiter c cl.rate_limiters s.used s.distinct;
  stopped_old = Below-suc cl.next_limiter cl.stopped s.stopped_old;
  running = running-insert cl.next_limiter c cl.rate_limiters cl.stopped s.stopped_old s.running;
}

stop_listener-IsSound :
    (cl : ClientListener) (p : ℤ) (o : Option ℕ)
    → IsSound cl
    → IsSound (or_unchanged cl (stop_listener cl p o))
unfolding stop_listener
stop_listener-IsSound cl p none s = s
stop_listener-IsSound cl p (some ln) s = record {
  used = s.used;
  distinct = s.distinct;
  stopped_old = s.stopped_old;
  running = s.running;
}

step-IsSound : (cl : ClientListener) (x : Call) → IsSound cl → IsSound (step cl x)
unfolding step start_port start_port_with_listener stop_port stop
step-IsSound cl (sets_rate_limiter c positive) s = set_rate_limiter-IsSound cl c positive s
step-IsSound cl (starts_port none p) s = s
step-IsSound cl (starts_port (some ln) p) s = record {
  used = s.used;
  distinct = s.distinct;
  stopped_old = s.stopped_old;
  running = s.running;
}
step-IsSound cl (stops_port p) s = stop_listener-IsSound cl p (lookup p cl.listeners) s
step-IsSound cl stops s = record {
  used = tt;
  distinct = tt;
  stopped_old =
      Below-append cl.next_limiter (values cl.rate_limiters) cl.stopped s.used s.stopped_old;
  running = none_used (values cl.rate_limiters ++ cl.stopped);
}

run-IsSound : (cl : ClientListener) (xs : List Call) → IsSound cl → IsSound (run cl xs)
unfolding run
run-IsSound cl [] s = s
run-IsSound cl (x ∷ xs) s = run-IsSound (step cl x) xs (step-IsSound cl x s)

-- No later call can name the limiter, so none stops it.
record IsLost (k : ℕ) (cl : ClientListener) : Type 0 where
  pub unlisted : Without k (values cl.rate_limiters)
  pub unstopped : Without k cl.stopped
  pub old : k < cl.next_limiter

stop_listener-IsLost :
    (k : ℕ) (cl : ClientListener) (p : ℤ) (o : Option ℕ)
    → IsLost k cl
    → IsLost k (or_unchanged cl (stop_listener cl p o))
unfolding stop_listener
stop_listener-IsLost k cl p none l = l
stop_listener-IsLost k cl p (some ln) l = record {
  unlisted = l.unlisted;
  unstopped = l.unstopped;
  old = l.old;
}

step-IsLost : (k : ℕ) (cl : ClientListener) (x : Call) → IsLost k cl → IsLost k (step cl x)
unfolding step set_rate_limiter start_port start_port_with_listener stop_port stop
step-IsLost k cl (sets_rate_limiter c false) l = l
step-IsLost k cl (sets_rate_limiter c true) l = record {
  unlisted = Without-insert cl.next_limiter c k cl.rate_limiters (ground (arith, l.old)) l.unlisted;
  unstopped = l.unstopped;
  old = omega (arith, l.old);
}
step-IsLost k cl (starts_port none p) l = l
step-IsLost k cl (starts_port (some ln) p) l = record {
  unlisted = l.unlisted;
  unstopped = l.unstopped;
  old = l.old;
}
step-IsLost k cl (stops_port p) l = stop_listener-IsLost k cl p (lookup p cl.listeners) l
step-IsLost k cl stops l = record {
  unlisted = tt;
  unstopped = Without-append k (values cl.rate_limiters) cl.stopped l.unlisted l.unstopped;
  old = l.old;
}

run-IsLost : (k : ℕ) (cl : ClientListener) (xs : List Call) → IsLost k cl → IsLost k (run cl xs)
unfolding run
run-IsLost k cl [] l = l
run-IsLost k cl (x ∷ xs) l = run-IsLost k (step cl x) xs (step-IsLost k cl x l)

lookup-Below :
    (n k : ℕ) (c : Bytes) (m : Map Bytes ℕ) → lookup c m ≡ some k → Below n (values m) → k < n
unfolding lookup
lookup-Below n k c [] l b = absurd (ground arith)
lookup-Below n k c ((d, v) ∷ m) l b = elim (Bool-cases (bytes_eq d c)) [
  | inl y ↦ ground (arith, l, y, b.0)
  | inr y ↦ lookup-Below n k c m (ground (arith, l, y)) b.1
]

still_running :
    (k : ℕ) (c : Bytes) (m : Map Bytes ℕ) (xs : List ℕ)
    → lookup c m ≡ some k
    → All (λ x. Without x (values m)) xs
    → Without k xs
still_running k c m [] l r = tt
still_running k c m (x ∷ xs) l r =
    (ground (arith, lookup-Without 0 c k x m l r.0), still_running k c m xs l r.1)

replaced-IsLost :
    (cl : ClientListener) (c : Bytes) (k : ℕ)
    → IsSound cl
    → lookup c cl.rate_limiters ≡ some k
    → IsLost k (set_rate_limiter cl c true)
unfolding set_rate_limiter
replaced-IsLost cl c k s l =
    let k<n : k < cl.next_limiter = lookup-Below cl.next_limiter k c cl.rate_limiters l s.used in
    record {
      unlisted =
          Without-replaced cl.next_limiter c k cl.rate_limiters (ground (arith, k<n)) s.distinct l;
      unstopped = still_running k c cl.rate_limiters cl.stopped l s.running;
      old = omega (arith, k<n);
    }

-- The limiter that a tenant has after any calls is never stopped once `SetRateLimiter` with a positive
-- rate has replaced it: no later call stops it, whatever the calls, `Stop` included.
pub set_rate_limiter-leaks :
    (before after : List Call) (c : Bytes) (k : ℕ)
    → lookup c (run new_client_listener before).rate_limiters ≡ some k
    → Without k (run (set_rate_limiter (run new_client_listener before) c true) after).stopped
set_rate_limiter-leaks before after c k l =
    let sound =
      run-IsSound new_client_listener before
        (record { used = tt; distinct = tt; stopped_old = tt; running = tt }) in
    (run-IsLost k (set_rate_limiter (run new_client_listener before) c true) after
      (replaced-IsLost (run new_client_listener before) c k sound l)).unstopped
