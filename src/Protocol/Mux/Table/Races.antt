-- ===== src/Protocol/Mux/Table/Races.antt =====
-- A `Close` of a stream that another goroutine interrupts.
-- `Close` of pkg/protocol/stream_impl.go unlocks the stream before it runs `onLocalClose`, which is
-- `maybeRemoveStream` of mux_session.go. Here it is two steps.
use mathlib.Core.Option.{some-injective}
use atlax.Base.{ℕ, ◌≡◌, refl, sym, ap, ◌∙◌, true, List, ◌∷◌, Option, none, some, nat_eq, arith}
use atlax.Base.Map.{lookup}
use atlax.Protocol.Stream
use atlax.Protocol.Stream.{StreamSession, open_state, closed}
use atlax.Protocol.Mux.Table.{
  Table, put, owns_id, free_id, remove_id, alloc_id, maybe_remove_stream, close_stream,
  close_object, after_close, remote_close_stream, remote_close_object,
}
use atlax.Protocol.Mux.Table.Inv.{Inv}

-- `Close` up to its unlock.
unlock_object : Table → ℕ → Option StreamSession → Table
unlock_object t h none = t
unlock_object t h (some s) = put t h (Stream.close s).0

unfoldable pub begin_close : Table → ℕ → Table
unfolding unlock_object
begin_close t h = unlock_object t h (t.heap h)

-- The callback of a `Close` that notifies; it reads the state of the stream again.
notify_object : Table → Option StreamSession → Table
notify_object t none = t
notify_object t (some s) = maybe_remove_stream t s.id s.state

unfoldable pub finish_close : Table → ℕ → Table
unfolding notify_object
finish_close t h = notify_object t (t.heap h)

here : (t : Table) (h : ℕ) (s : StreamSession) → (put t h s).heap h ≡ some s
here t h s = ground arith

-- The two steps with nothing in between are the whole `Close`, if it notifies.
uninterrupted :
    (t : Table) (h : ℕ) (s : StreamSession)
    → t.heap h ≡ some s
    → (Stream.close s).1 ≡ true
    → finish_close (begin_close t h) h ≡ close_stream t h
unfolding begin_close finish_close close_stream close_object after_close
uninterrupted t h s e f = rw (e, here t h (Stream.close s).0, f) refl

-- The stream once both sides have closed it.
both_closed : StreamSession → StreamSession
both_closed s = Stream.remote_close (Stream.close s).0

both_closed_facts :
    (s : StreamSession)
    → s.state ≡ open_state
    → ((both_closed s).id ≡ s.id) × ((both_closed s).state ≡ closed)
unfolding both_closed Stream.close Stream.remote_close
both_closed_facts s e = (ground (arith, e), ground (arith, e))

peer_closes :
    (t : Table) (id h : ℕ) (s : StreamSession)
    → t.heap h ≡ some s
    → (Stream.remote_close s).state ≡ closed
    → remote_close_stream t id h ≡ remove_id (put t h (Stream.remote_close s)) id
unfolding remote_close_stream remote_close_object maybe_remove_stream
peer_closes t id h s e c = rw (e, c) refl

notifies :
    (t : Table) (id h : ℕ) (s : StreamSession)
    → t.heap h ≡ some s
    → s.state ≡ closed
    → s.id ≡ id
    → finish_close t h ≡ remove_id t id
unfolding finish_close maybe_remove_stream
notifies t id h s e c i = rw (e, c, i) refl

begins :
    (t : Table) (h : ℕ) (s : StreamSession)
    → t.heap h ≡ some s
    → begin_close t h ≡ put t h (Stream.close s).0
unfolding begin_close
begins t h s e = rw e refl

removed_heap :
    (t : Table) (id h : ℕ) (s : StreamSession) → (remove_id (put t h s) id).heap h ≡ some s
unfolding remove_id free_id
removed_heap t id h s = here t h s

interrupted :
    (t : Table) (id h : ℕ) (s : StreamSession)
    → t.heap h ≡ some s
    → s.id ≡ id
    → s.state ≡ open_state
    → finish_close (remote_close_stream (begin_close t h) id h) h
      ≡ remove_id (remove_id (put (put t h (Stream.close s).0) h (both_closed s)) id) id
unfolding both_closed
interrupted t id h s e i o =
    let (j, c) = both_closed_facts s o in
    let t1 = put t h (Stream.close s).0 in
    let t2 = remove_id (put t1 h (both_closed s)) id in
    ap (λ u. finish_close (remote_close_stream u id h) h) (begins t h s e)
    ∙ ap (λ u. finish_close u h)
        (peer_closes t1 id h (Stream.close s).0 (here t h (Stream.close s).0) c)
    ∙ notifies t2 id h (both_closed s) (removed_heap t1 id h (both_closed s)) c (j ∙ i)

freed_twice :
    (t : Table) (id : ℕ)
    → owns_id t id ≡ true
    → (remove_id (remove_id t id) id).free_ids ≡ id ∷ id ∷ t.free_ids
unfolding remove_id free_id
freed_twice t id w = rw w refl

next_ids :
    (t : Table) (id : ℕ) (rest : List ℕ)
    → t.free_ids ≡ id ∷ id ∷ rest
    → ((alloc_id t).0 ≡ id) × ((alloc_id (alloc_id t).1).0 ≡ id)
unfolding alloc_id
next_ids t id rest e = rw e (refl, refl)

-- If the peer's STREAM_CLOSE of an open stream of this side comes between the two steps of `Close`, both
-- free the id, and the next two streams opened on this side get the same id. The table is sound before.
pub finish_close-frees_twice :
    (t : Table) (id h : ℕ) (s : StreamSession)
    → Inv t
    → lookup id t.streams ≡ some h
    → t.heap h ≡ some s
    → s.state ≡ open_state
    → owns_id t id ≡ true
    → let t' = finish_close (remote_close_stream (begin_close t h) id h) h in
      (t'.free_ids ≡ id ∷ id ∷ t.free_ids)
      × ((alloc_id t').0 ≡ id)
      × ((alloc_id (alloc_id t').1).0 ≡ id)
finish_close-frees_twice t id h s v l e o w =
    let (r, f, i, _) = v.owned_live id h l in
    let j : s.id ≡ id = ap (λ (x : StreamSession). x.id) (some-injective s r (sym e ∙ f)) ∙ i in
    let t2 = put (put t h (Stream.close s).0) h (both_closed s) in
    let q = freed_twice t2 id w in
    let n = next_ids (remove_id (remove_id t2 id) id) id t.free_ids q in
    rw (interrupted t id h s e j o) (q, n.0, n.1)
