-- ===== src/Protocol/Mux/Table/Ending.antt =====
-- The ways in which a stream ends keep the ownership invariant.
use mathlib.Core.Path.{subst}
use atlax.Base.{
  ℕ, ◌≡◌, refl, sym, Bool, true, false, Option, none, some, nat_eq, inl, inr, ◌⊎◌, arith,
  Bool-cases,
}
use atlax.Base.Map.{lookup, lookup-delete}
use atlax.Protocol.Stream
use atlax.Protocol.Stream.{StreamSession, is_finished}
use atlax.Protocol.Stream.Lifecycle
use atlax.Protocol.Mux.Table.{
  Table, put, remove_id, maybe_remove_stream, close_stream, close_object, after_close,
  remote_close_stream, remote_close_object, reset_stream, reset_object, after_reset,
}
use atlax.Protocol.Mux.Table.Inv.{Inv, put-Inv, retire-Inv}

-- What `Close` does to a stream in a legal state.
pub close_facts :
    (s : StreamSession)
    → Lifecycle.Inv s
    → Lifecycle.Inv (Stream.close s).0
      × ((Stream.close s).0.id ≡ s.id)
      × ((((Stream.close s).1 ≡ true) × (is_finished s.state ≡ false))
          ⊎ (((Stream.close s).1 ≡ false)
              × (is_finished (Stream.close s).0.state ≡ is_finished s.state)))
close_facts s v = unfold Stream.close in (ground arith, ground arith, ground arith)

-- A live stream that changed: it is taken out of the map if it is finished now.
maybe_remove_stream-Inv :
    (t : Table) (h : ℕ) (s s' : StreamSession)
    → Inv t
    → t.heap h ≡ some s
    → is_finished s.state ≡ false
    → s'.id ≡ s.id
    → Lifecycle.Inv s'
    → Inv (maybe_remove_stream (put t h s') s.id s'.state)
unfolding maybe_remove_stream
maybe_remove_stream-Inv t h s s' v e l i w = elim (Bool-cases (is_finished s'.state)) [
  | inl f ↦ rw f (retire-Inv t h s s' v e l i f w)
  | inr f ↦ rw f (put-Inv t h s s' v e i (ground arith) w)
]

after_close-Inv :
    (t : Table) (h : ℕ) (s s' : StreamSession) (fired : Bool)
    → Inv t
    → t.heap h ≡ some s
    → Lifecycle.Inv s'
    → s'.id ≡ s.id
    → ((fired ≡ true) × (is_finished s.state ≡ false))
      ⊎ ((fired ≡ false) × (is_finished s'.state ≡ is_finished s.state))
    → Inv (after_close t h (s', fired))
unfolding after_close
after_close-Inv t h s s' true v e w i (inl (a, l)) =
    subst (λ k. Inv (maybe_remove_stream (put t h s') k s'.state)) (sym i)
      (maybe_remove_stream-Inv t h s s' v e l i w)
after_close-Inv t h s s' true v e w i (inr (a, l)) = absurd (ground arith)
after_close-Inv t h s s' false v e w i (inl (a, l)) = absurd (ground arith)
after_close-Inv t h s s' false v e w i (inr (a, l)) = put-Inv t h s s' v e i l w

close_object-Inv :
    (t : Table) (h : ℕ) (o : Option StreamSession) → t.heap h ≡ o → Inv t → Inv (close_object t h o)
unfolding close_object
close_object-Inv t h none e v = v
close_object-Inv t h (some s) e v =
    let (w, i, c) = close_facts s (v.stream_inv h s e) in
    after_close-Inv t h s (Stream.close s).0 (Stream.close s).1 v e w i c

-- `Close` on any stream pointer, also one whose stream is gone and whose id another stream has now.
pub close_stream-Inv : (t : Table) (h : ℕ) → Inv t → Inv (close_stream t h)
unfolding close_stream
close_stream-Inv t h v = close_object-Inv t h (t.heap h) refl v

remote_close_facts :
    (s : StreamSession)
    → Lifecycle.Inv s
    → Lifecycle.Inv (Stream.remote_close s) × ((Stream.remote_close s).id ≡ s.id)
remote_close_facts s v = unfold Stream.remote_close in (ground arith, ground arith)

remote_close_object-Inv :
    (t : Table) (h id : ℕ) (o : Option StreamSession)
    → t.heap h ≡ o
    → lookup id t.streams ≡ some h
    → Inv t
    → Inv (remote_close_object t id h o)
unfolding remote_close_object
remote_close_object-Inv t h id none e m v = v
remote_close_object-Inv t h id (some s) e m v =
    let (r, p, i, l) = v.owned_live id h m in
    let (w, j) = remote_close_facts s (v.stream_inv h s e) in
    let k : s.id ≡ id = ground arith in
    subst
      (λ n.
        Inv (maybe_remove_stream (put t h (Stream.remote_close s)) n (Stream.remote_close s).state))
      k (maybe_remove_stream-Inv t h s (Stream.remote_close s) v e (ground arith) j w)

-- The peer closes its side of a stream of the map.
pub remote_close_stream-Inv :
    (t : Table) (h id : ℕ) → lookup id t.streams ≡ some h → Inv t → Inv (remote_close_stream t id h)
unfolding remote_close_stream
remote_close_stream-Inv t h id m v = remote_close_object-Inv t h id (t.heap h) refl m v

pub reset_facts :
    (s : StreamSession)
    → Lifecycle.Inv s
    → Lifecycle.Inv (Stream.reset s).0
      × ((Stream.reset s).0.id ≡ s.id)
      × ((((Stream.reset s).1 ≡ true)
            × (is_finished s.state ≡ false)
            × (is_finished (Stream.reset s).0.state ≡ true))
          ⊎ (((Stream.reset s).1 ≡ false)
              × (is_finished s.state ≡ true)
              × (is_finished (Stream.reset s).0.state ≡ true)))
reset_facts s v = unfold Stream.reset in (ground arith, ground arith, ground arith)

after_reset-Inv :
    (t : Table) (h : ℕ) (s s' : StreamSession) (fired : Bool) (o : Option ℕ)
    → Inv t
    → t.heap h ≡ some s
    → lookup s.id t.streams ≡ o
    → Lifecycle.Inv s'
    → s'.id ≡ s.id
    → ((fired ≡ true) × (is_finished s.state ≡ false) × (is_finished s'.state ≡ true))
      ⊎ ((fired ≡ false) × (is_finished s.state ≡ true) × (is_finished s'.state ≡ true))
    → Inv (after_reset t h (s', fired) o).0
unfolding after_reset
after_reset-Inv t h s s' true none v e m w i (inl (a, l, f)) =
    absurd (ground (arith, v.live_owned h s))
after_reset-Inv t h s s' true (some k) v e m w i (inl (a, l, f)) =
    subst (λ k. Inv (remove_id (put t h s') k)) (sym i) (retire-Inv t h s s' v e l i f w)
after_reset-Inv t h s s' true o v e m w i (inr (a, l, f)) = absurd (ground arith)
after_reset-Inv t h s s' false o v e m w i (inl (a, l, f)) = absurd (ground arith)
after_reset-Inv t h s s' false none v e m w i (inr (a, l, f)) =
    put-Inv t h s s' v e i (ground arith) w
after_reset-Inv t h s s' false (some k) v e m w i (inr (a, l, f)) =
    put-Inv t h s s' v e i (ground arith) w

reset_object-Inv :
    (t : Table) (h : ℕ) (o : Option StreamSession)
    → t.heap h ≡ o
    → Inv t
    → Inv (reset_object t h o).0
unfolding reset_object
reset_object-Inv t h none e v = v
reset_object-Inv t h (some s) e v =
    let (w, i, c) = reset_facts s (v.stream_inv h s e) in
    after_reset-Inv t h s (Stream.reset s).0 (Stream.reset s).1 (lookup s.id t.streams) v e refl w i
      c

-- `Reset` on any stream pointer.
pub reset_stream-Inv : (t : Table) (h : ℕ) → Inv t → Inv (reset_stream t h).0
unfolding reset_stream
reset_stream-Inv t h v = reset_object-Inv t h (t.heap h) refl v

-- `Reset` of a stream whose id was taken out of the map first: the callback finds nothing to do.
after_reset_removed :
    (t : Table) (h id : ℕ) (s' : StreamSession) (fired : Bool) (o : Option ℕ)
    → o ≡ none
    → (after_reset (remove_id t id) h (s', fired) o).0 ≡ remove_id (put t h s') id
unfolding after_reset remove_id
after_reset_removed t h id s' true none e = refl
after_reset_removed t h id s' true (some k) e = cc
after_reset_removed t h id s' false none e = refl
after_reset_removed t h id s' false (some k) e = cc

pub reset_removed :
    (t : Table) (h id : ℕ) (s : StreamSession)
    → t.heap h ≡ some s
    → s.id ≡ id
    → (reset_stream (remove_id t id) h).0 ≡ remove_id (put t h (Stream.reset s).0) id
unfolding reset_stream reset_object
reset_removed t h id s e i =
    let e' : (remove_id t id).heap h ≡ some s = unfold remove_id in e in
    rw e' (
      after_reset_removed t h id (Stream.reset s).0 (Stream.reset s).1
        (lookup s.id (remove_id t id).streams)
        (unfold remove_id in ground (arith, lookup-delete id s.id t.streams)))

after_reset_owned :
    (t : Table) (h id k : ℕ) (s' : StreamSession) (fired : Bool) (o : Option ℕ)
    → fired ≡ true
    → o ≡ some k
    → s'.id ≡ id
    → ((after_reset t h (s', fired) o).1 ≡ true)
      × (lookup id (after_reset t h (s', fired) o).0.streams ≡ none)
unfolding after_reset remove_id
after_reset_owned t h id k s' true none f m i = cc
after_reset_owned t h id k s' true (some n) f m i =
    (refl, ground (arith, lookup-delete s'.id id t.streams))
after_reset_owned t h id k s' false o f m i = cc

-- `Reset` of a stream of the map: its callback finds it, takes it out and reports that it did.
pub reset_owned :
    (t : Table) (h id : ℕ)
    → lookup id t.streams ≡ some h
    → Inv t
    → ((reset_stream t h).1 ≡ true) × (lookup id (reset_stream t h).0.streams ≡ none)
unfolding reset_stream reset_object
reset_owned t h id m v =
    let (s, e, i, l) = v.owned_live id h m in
    let (w, j, c) = reset_facts s (v.stream_inv h s e) in
    rw e (
      after_reset_owned t h id h (Stream.reset s).0 (Stream.reset s).1 (lookup s.id t.streams)
        (ground arith) (ground arith) (ground arith))
