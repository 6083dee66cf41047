-- ===== src/Protocol/Mux/Table/Accounts.antt =====
-- Every id that was ever allocated locally is in use or recycled: none is lost.
use atlax.Base.{
  ℕ, ◌+◌, ◌*◌, ◌%◌, ◌^◌, ◌≤◌, ◌<◌, ◌≡◌, refl, sym, Bytes, Bool, true, false, List, [], ◌∷◌, Option,
  none, some, ◌==◌, nat_eq, length, inl, inr, arith, Bool-cases,
}
use atlax.Base.Int.{ℤ}
use atlax.Base.Map.{lookup}
use atlax.Base.Map.Count.{
  count, UniqueKeys, insert-UniqueKeys, delete-UniqueKeys, count-insert_new, count-delete,
  count-le-length,
}
use atlax.Protocol.Stream
use atlax.Protocol.Stream.{StreamSession, is_finished}
use atlax.Protocol.Mux.Table.{
  Table, Role, relay, agent, start_id, new_table, put, owns_id, remove_id, alloc_id, alloc_from,
  add_stream, maybe_remove_stream, close_stream, close_object, after_close, remote_close_stream,
  remote_close_object, reset_stream, reset_object, after_reset,
}
use mathlib.Core.Path.{subst}
use atlax.Protocol.Mux.Table.Ending.{close_facts, reset_facts}
use atlax.Protocol.Mux.Table.Inv.{Inv, alloc_id-Allocates}

-- The ids that a side of this role allocates.
abbrev pub is_local : Role → ℕ → Bool
is_local r id = id % 2 == start_id r % 2

abbrev pub local_count : Role → Table → ℕ
local_count r t = count (is_local r) t.streams

pub record Accounts (r : Role) (max : ℕ) (t : Table) : Type 0 where
  pub unique : UniqueKeys t.streams
  pub all_counted : t.next_stream_id ≡ start_id r + 2 * (local_count r t + length t.free_ids)
  pub bounded : t.next_stream_id ≤ start_id r + 2 * max

pub new_table-Accounts : (r : Role) (max : ℕ) → Accounts r max (new_table r)
unfolding new_table
new_table-Accounts relay max = omega arith
new_table-Accounts agent max = omega arith

module _ (r : Role) (max : ℕ) where
  pub put-Accounts :
      (t : Table) (h : ℕ) (s : StreamSession) → Accounts r max t → Accounts r max (put t h s)
  put-Accounts t h s a = record {
    unique = a.unique;
    all_counted = a.all_counted;
    bounded = a.bounded;
  }

  pub remove_id-Accounts :
      (t : Table) (id h : ℕ)
      → lookup id t.streams ≡ some h
      → Accounts r max t
      → Accounts r max (remove_id t id)
  unfolding remove_id
  remove_id-Accounts t id h e a = record {
    unique = delete-UniqueKeys id t.streams a.unique;
    all_counted = ground (arith, count-delete (is_local r) id h t.streams a.unique e);
    bounded = a.bounded;
  }

  -- The parity of the next fresh id never changes.
  owns_id-is_local : (t : Table) (id : ℕ) → Accounts r max t → owns_id t id ≡ is_local r id
  owns_id-is_local t id a = ground (arith, a.all_counted)

  alloc_from-is_local :
      (t : Table) (fs : List ℕ)
      → t.free_ids ≡ fs
      → Inv t
      → Accounts r max t
      → is_local r (alloc_from t fs).0 ≡ true
  unfolding alloc_from
  alloc_from-is_local t (id ∷ rest) e v a =
      ground (arith, owns_id-is_local t id a, v.free_unused id)
  alloc_from-is_local t [] e v a = ground (arith, owns_id-is_local t t.next_stream_id a)

  alloc_from-Accounts :
      (t : Table) (fs : List ℕ) (w : ℤ) (p : Bytes)
      → t.free_ids ≡ fs
      → lookup (alloc_from t fs).0 t.streams ≡ none
      → is_local r (alloc_from t fs).0 ≡ true
      → start_id r + 2 * max < 2 ^ 32
      → length t.streams < max
      → Accounts r max t
      → Accounts r max (add_stream (alloc_from t fs).1 (alloc_from t fs).0 w p)
  unfolding alloc_from add_stream
  alloc_from-Accounts t (id ∷ rest) w p e n o b l a = record {
    unique = insert-UniqueKeys id t.next_handle t.streams a.unique;
    all_counted = ground (arith, count-insert_new (is_local r) id t.next_handle t.streams n);
    bounded = a.bounded;
  }
  alloc_from-Accounts t [] w p e n o b l a = record {
    unique = insert-UniqueKeys t.next_stream_id t.next_handle t.streams a.unique;
    all_counted = ground (
      arith,
      count-insert_new (is_local r) t.next_stream_id t.next_handle t.streams n,
      count-le-length (is_local r) t.streams,
    );
    bounded = ground (arith, count-le-length (is_local r) t.streams);
  }

  pub add_local-Accounts :
      (t : Table) (w : ℤ) (p : Bytes)
      → Inv t
      → start_id r + 2 * max + 2 < 2 ^ 32
      → length t.streams < max
      → Accounts r max t
      → Accounts r max (add_stream (alloc_id t).1 (alloc_id t).0 w p)
  unfolding alloc_id
  add_local-Accounts t w p v b l a =
      alloc_from-Accounts t t.free_ids w p refl
        (alloc_id-Allocates t (omega (arith, a.bounded)) v).unowned
        (alloc_from-is_local t t.free_ids refl v a) (omega arith) l a

  pub add_peer-Accounts :
      (t : Table) (id : ℕ) (w : ℤ) (p : Bytes)
      → lookup id t.streams ≡ none
      → owns_id t id ≡ false
      → Accounts r max t
      → Accounts r max (add_stream t id w p)
  unfolding add_stream
  add_peer-Accounts t id w p e o a = record {
    unique = insert-UniqueKeys id t.next_handle t.streams a.unique;
    all_counted = ground (
      arith,
      owns_id-is_local t id a,
      count-insert_new (is_local r) id t.next_handle t.streams e,
    );
    bounded = a.bounded;
  }

  maybe_remove-Accounts :
      (t : Table) (h : ℕ) (s s' : StreamSession)
      → lookup s.id t.streams ≡ some h
      → Accounts r max t
      → Accounts r max (maybe_remove_stream (put t h s') s.id s'.state)
  unfolding maybe_remove_stream
  maybe_remove-Accounts t h s s' e a = elim (Bool-cases (is_finished s'.state)) [
    | inl f ↦ rw f (remove_id-Accounts (put t h s') s.id h e (put-Accounts t h s' a))
    | inr f ↦ rw f (put-Accounts t h s' a)
  ]

  close_object-Accounts :
      (t : Table) (h : ℕ) (o : Option StreamSession)
      → t.heap h ≡ o
      → Inv t
      → Accounts r max t
      → Accounts r max (close_object t h o)
  unfolding close_object after_close
  close_object-Accounts t h none e v a = a
  close_object-Accounts t h (some s) e v a =
      let (w, i, c) = close_facts s (v.stream_inv h s e) in
      elim c [
        | inl (f, l) ↦ rw f (
            subst
              (λ k.
                Accounts r max
                  (maybe_remove_stream (put t h (Stream.close s).0) k (Stream.close s).0.state))
              (sym i) (maybe_remove-Accounts t h s (Stream.close s).0 (v.live_owned h s e l) a))
        | inr (f, l) ↦ rw f (put-Accounts t h (Stream.close s).0 a)
      ]

  pub close_stream-Accounts :
      (t : Table) (h : ℕ) → Inv t → Accounts r max t → Accounts r max (close_stream t h)
  unfolding close_stream
  close_stream-Accounts t h v a = close_object-Accounts t h (t.heap h) refl v a

  remote_close_object-Accounts :
      (t : Table) (h id : ℕ) (o : Option StreamSession)
      → t.heap h ≡ o
      → lookup id t.streams ≡ some h
      → Inv t
      → Accounts r max t
      → Accounts r max (remote_close_object t id h o)
  unfolding remote_close_object
  remote_close_object-Accounts t h id none e m v a = a
  remote_close_object-Accounts t h id (some s) e m v a =
      let (x, p, i, l) = v.owned_live id h m in
      let k : s.id ≡ id = ground arith in
      subst
        (λ n.
          Accounts r max
            (maybe_remove_stream (put t h (Stream.remote_close s)) n (Stream.remote_close s).state))
        k (maybe_remove-Accounts t h s (Stream.remote_close s) (ground arith) a)

  pub remote_close_stream-Accounts :
      (t : Table) (h id : ℕ)
      → lookup id t.streams ≡ some h
      → Inv t
      → Accounts r max t
      → Accounts r max (remote_close_stream t id h)
  unfolding remote_close_stream
  remote_close_stream-Accounts t h id m v a =
      remote_close_object-Accounts t h id (t.heap h) refl m v a

  after_reset-Accounts :
      (t : Table) (h : ℕ) (s' : StreamSession) (fired : Bool) (id : ℕ) (o : Option ℕ)
      → s'.id ≡ id
      → lookup id t.streams ≡ o
      → Accounts r max t
      → Accounts r max (after_reset t h (s', fired) o).0
  unfolding after_reset
  after_reset-Accounts t h s' true id none i m a = put-Accounts t h s' a
  after_reset-Accounts t h s' true id (some k) i m a =
      remove_id-Accounts (put t h s') s'.id k (rw i m) (put-Accounts t h s' a)
  after_reset-Accounts t h s' false id none i m a = put-Accounts t h s' a
  after_reset-Accounts t h s' false id (some k) i m a = put-Accounts t h s' a

  reset_object-Accounts :
      (t : Table) (h : ℕ) (o : Option StreamSession)
      → Inv t
      → t.heap h ≡ o
      → Accounts r max t
      → Accounts r max (reset_object t h o).0
  unfolding reset_object
  reset_object-Accounts t h none v e a = a
  reset_object-Accounts t h (some s) v e a =
      after_reset-Accounts t h (Stream.reset s).0 (Stream.reset s).1 s.id (lookup s.id t.streams)
        (reset_facts s (v.stream_inv h s e)).1 refl a

  pub reset_stream-Accounts :
      (t : Table) (h : ℕ) → Inv t → Accounts r max t → Accounts r max (reset_stream t h).0
  unfolding reset_stream
  reset_stream-Accounts t h v a = reset_object-Accounts t h (t.heap h) v refl a
