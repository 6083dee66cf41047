-- ===== src/Agent/Forwarder/Invariant.antt =====
-- What holds all along a forwarding.
use mathlib.Core.Path.{subst}
use mathlib.Core.Option.{some-injective}
use mathlib.Core.List.{append_assoc}
use atlax.Base.{ℕ, ◌≡◌, refl, sym, Bool, true, List, [], ◌∷◌, ◌++◌, Option, some, arith}
use atlax.Agent.Forwarder.{
  ForwardLink, Direction, phase_of, set_phase, filter, stream_to_local, local_to_stream, CopyPhase,
  copying, copied, half_closed, reported, half_close, AwaitPhase, first_direction, first_aborted,
  last_aborted, second_direction, second_aborted, returned, await_expires, after_await, abort,
  Forwarding, forward, Step, copies, half_closes, reports, receives, expires, reporters_after,
  reporters, Run, rests, steps,
}
use atlax.Agent.Forwarder.Ends.{
  EndsClosed, after_await-EndsClosed, abort-EndsClosed, half_close-EndsClosed,
}
use atlax.Agent.Forwarder.Reports.{
  Busy, Busy-down, Busy-up, Reports, aborted-Reports, filter-Handed, is_copied, is_copying,
  is_half_closed, neither, Reports-down, Reports-up,
}
use atlax.Agent.Forwarder.Awaits.{Awaits, at_first, expires-Awaits, receives-Awaits}

-- A copy that is past its half-close has closed what it wrote to.
unfoldable pub Past : CopyPhase → Bool → Type 0
Past copying b = Unit
Past (copied e) b = Unit
Past (half_closed e) b = b ≡ true
Past (reported e) b = b ≡ true

-- A call that has returned has released the local connection.
unfoldable pub Freed : AwaitPhase → Bool → Type 0
Freed (returned r) b = b ≡ true
Freed first_direction b = Unit
Freed first_aborted b = Unit
Freed last_aborted b = Unit
Freed (second_direction first) b = Unit
Freed (second_aborted first) b = Unit

pub record Inv (s : Forwarding) (order : List Direction) : Type 0 where
  pub ends : s.link.aborted ≡ true → EndsClosed s.link
  pub stream_side : Past s.down s.link.stream_closed
  pub local_side : Freed s.await s.link.local_closed
  pub taken : List (Option ℕ)
  pub awaits : Awaits s.link.aborted s.await taken
  pub reports_so_far : Reports s.link.aborted s.up s.down (taken ++ s.done) order

after_await_aborted : (a : AwaitPhase) (l : ForwardLink) → (after_await a l).aborted ≡ l.aborted
unfolding after_await
after_await_aborted first_direction l = refl
after_await_aborted first_aborted l = refl
after_await_aborted last_aborted l = refl
after_await_aborted (second_direction first) l = refl
after_await_aborted (second_aborted first) l = refl
after_await_aborted (returned r) l = refl

abort_aborted : (l : ForwardLink) → (abort l).aborted ≡ true
unfolding abort
abort_aborted l = ground arith

after_await_stream :
    (a : AwaitPhase) (l : ForwardLink) → (after_await a l).stream_closed ≡ l.stream_closed
unfolding after_await
after_await_stream first_direction l = refl
after_await_stream first_aborted l = refl
after_await_stream last_aborted l = refl
after_await_stream (second_direction first) l = refl
after_await_stream (second_aborted first) l = refl
after_await_stream (returned r) l = refl

after_await-Freed : (a : AwaitPhase) (l : ForwardLink) → Freed a (after_await a l).local_closed
unfolding after_await Freed
after_await-Freed first_direction l = tt
after_await-Freed first_aborted l = tt
after_await-Freed last_aborted l = tt
after_await-Freed (second_direction first) l = tt
after_await-Freed (second_aborted first) l = tt
after_await-Freed (returned r) l = refl

abort-Past :
    (p : CopyPhase) (l : ForwardLink) → Past p l.stream_closed → Past p (abort l).stream_closed
unfolding Past abort
abort-Past copying l h = tt
abort-Past (copied e) l h = tt
abort-Past (half_closed e) l h = ground (arith, h)
abort-Past (reported e) l h = ground (arith, h)

expires-Freed : (a a' : AwaitPhase) (b : Bool) → await_expires a ≡ some a' → Freed a' b
unfolding await_expires Freed
expires-Freed first_direction a' b h = subst (λ x. Freed x b) (some-injective first_aborted a' h) tt
expires-Freed (second_direction first) a' b h =
    subst (λ x. Freed x b) (some-injective (second_aborted first) a' h) tt
expires-Freed first_aborted a' b h = absurd (ground (arith, h))
expires-Freed last_aborted a' b h = absurd (ground (arith, h))
expires-Freed (second_aborted first) a' b h = absurd (ground (arith, h))
expires-Freed (returned r) a' b h = absurd (ground (arith, h))

copies-Inv :
    (d : Direction) (s : Forwarding) (e : Option ℕ) (order : List Direction)
    → phase_of d s ≡ copying
    → Inv s order
    → Inv (set_phase d (copied e) s) order
unfolding Past
copies-Inv stream_to_local s e order h v = record {
  ends = v.ends;
  stream_side = v.stream_side;
  local_side = v.local_side;
  taken = v.taken;
  awaits = v.awaits;
  reports_so_far =
      Busy-up _ s.up _ _ _ _ (subst Busy (sym h) is_copying) (is_copied e) v.reports_so_far;
}
copies-Inv local_to_stream s e order h v = record {
  ends = v.ends;
  stream_side = tt;
  local_side = v.local_side;
  taken = v.taken;
  awaits = v.awaits;
  reports_so_far =
      Busy-down _ _ s.down _ _ _ (subst Busy (sym h) is_copying) (is_copied e) v.reports_so_far;
}

half_closes-Inv :
    (d : Direction) (s : Forwarding) (e : Option ℕ) (order : List Direction)
    → phase_of d s ≡ copied e
    → Inv s order
    → Inv (record (set_phase d (half_closed e) s) { link = half_close d s.link }) order
unfolding Past half_close
half_closes-Inv stream_to_local s e order h v = record {
  ends = λ t. half_close-EndsClosed stream_to_local s.link (v.ends t);
  stream_side = v.stream_side;
  local_side = v.local_side;
  taken = v.taken;
  awaits = v.awaits;
  reports_so_far =
      Busy-up _ s.up _ _ _ _ (subst Busy (sym h) (is_copied e)) (is_half_closed e) v.reports_so_far;
}
half_closes-Inv local_to_stream s e order h v = record {
  ends = λ t. half_close-EndsClosed local_to_stream s.link (v.ends t);
  stream_side = refl;
  local_side = v.local_side;
  taken = v.taken;
  awaits = v.awaits;
  reports_so_far =
      Busy-down _ _ s.down _ _ _ (subst Busy (sym h) (is_copied e)) (is_half_closed e)
        v.reports_so_far;
}

reports-Inv :
    (d : Direction) (s : Forwarding) (e : Option ℕ) (order : List Direction)
    → phase_of d s ≡ half_closed e
    → Inv s order
    → Inv
        (record (set_phase d (reported e) s) { done = s.done ++ (filter s.link e ∷ []) })
        (order ++ (d ∷ []))
unfolding Past
reports-Inv stream_to_local s e order h v = record {
  ends = v.ends;
  stream_side = v.stream_side;
  local_side = v.local_side;
  taken = v.taken;
  awaits = v.awaits;
  reports_so_far = rw (sym (append_assoc v.taken s.done (filter s.link e ∷ []))) (
      Reports-up _ s.up _ _ _ e _ (subst Busy (sym h) (is_half_closed e)) (filter-Handed s.link e)
        v.reports_so_far);
}
reports-Inv local_to_stream s e order h v = record {
  ends = v.ends;
  stream_side = subst (λ p. Past p s.link.stream_closed) h v.stream_side;
  local_side = v.local_side;
  taken = v.taken;
  awaits = v.awaits;
  reports_so_far = rw (sym (append_assoc v.taken s.done (filter s.link e ∷ []))) (
      Reports-down _ _ s.down _ _ e _ (subst Busy (sym h) (is_half_closed e))
        (filter-Handed s.link e) v.reports_so_far);
}

Step-Inv :
    (s t : Forwarding) (order : List Direction) (h : Step s t)
    → Inv s order
    → Inv t (reporters_after s t h order)
Step-Inv s _ order (copies d e h) v = copies-Inv d s e order h v
Step-Inv s _ order (half_closes d e h) v = half_closes-Inv d s e order h v
Step-Inv s _ order (reports d e h) v = reports-Inv d s e order h v
Step-Inv s _ order (receives r rest a h k) v = record {
  ends = λ t. after_await-EndsClosed a s.link (v.ends (rw (sym (after_await_aborted a s.link)) t));
  stream_side = rw (after_await_stream a s.link) v.stream_side;
  local_side = after_await-Freed a s.link;
  taken = v.taken ++ (r ∷ []);
  awaits = rw (after_await_aborted a s.link) (receives-Awaits _ s.await a _ r k v.awaits);
  reports_so_far =
      rw (after_await_aborted a s.link, append_assoc v.taken (r ∷ []) rest)
        (subst (λ d. Reports s.link.aborted s.up s.down (v.taken ++ d) order) h v.reports_so_far);
}
Step-Inv s _ order (expires a k) v = record {
  ends = λ t. abort-EndsClosed s.link v.ends;
  stream_side = abort-Past s.down s.link v.stream_side;
  local_side = expires-Freed s.await a _ k;
  taken = v.taken;
  awaits = rw (abort_aborted s.link) (expires-Awaits _ s.await a _ k v.awaits);
  reports_so_far = rw (abort_aborted s.link) (aborted-Reports _ _ _ _ _ v.reports_so_far);
}

pub Run-Inv :
    (n : ℕ) (s t : Forwarding) (order : List Direction) (r : Run n s t)
    → Inv s order
    → Inv t (reporters n s t r order)
Run-Inv _ _ _ order (rests s) v = v
Run-Inv _ _ _ order (steps n s t u h r) v =
    Run-Inv n t u (reporters_after s t h order) r (Step-Inv s t order h v)

pub start-Inv : (session tcp : Bool) → Inv (forward session tcp) []
unfolding forward Past Freed
start-Inv session tcp = record {
  stream_side = tt;
  local_side = tt;
  taken = [];
  awaits = at_first;
  ends = λ t. absurd (ground (arith, t));
  reports_so_far = neither copying copying is_copying is_copying;
}
