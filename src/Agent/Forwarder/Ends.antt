-- ===== src/Agent/Forwarder/Ends.antt =====
-- What an abort does to the two ends of a forwarding.
use atlax.Base.{◌||◌, inl, inr, Bool-cases, ◌≡◌, refl, true, arith}
use atlax.Agent.Forwarder.{
  ForwardLink, Direction, stream_to_local, local_to_stream, half_close, AwaitPhase, first_direction,
  first_aborted, last_aborted, second_direction, second_aborted, returned, after_await, abort,
}

-- An abort has closed both ends, which is what makes the copies end.
abbrev pub EndsClosed : ForwardLink → Type 0
EndsClosed l = (l.local_closed ≡ true) × ((l.stream_reset || l.stream_closed) ≡ true)

pub after_await-EndsClosed :
    (a : AwaitPhase) (l : ForwardLink) → EndsClosed l → EndsClosed (after_await a l)
unfolding after_await
after_await-EndsClosed first_direction l h = h
after_await-EndsClosed first_aborted l h = h
after_await-EndsClosed last_aborted l h = h
after_await-EndsClosed (second_direction first) l h = h
after_await-EndsClosed (second_aborted first) l h = h
after_await-EndsClosed (returned r) l h = (refl, h.1)

pub abort-EndsClosed : (l : ForwardLink) → (l.aborted ≡ true → EndsClosed l) → EndsClosed (abort l)
unfolding abort
abort-EndsClosed l h = elim (Bool-cases l.aborted) [
  | inl t ↦ rw t (h t)
  | inr f ↦ rw f (ground arith)
]

pub half_close-EndsClosed :
    (d : Direction) (l : ForwardLink) → EndsClosed l → EndsClosed (half_close d l)
unfolding half_close
half_close-EndsClosed stream_to_local l h = h
half_close-EndsClosed local_to_stream l h = ground (arith, h)
