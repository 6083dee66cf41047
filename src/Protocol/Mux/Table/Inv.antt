-- ===== src/Protocol/Mux/Table/Inv.antt =====
-- The ownership invariant of the stream table.
use atlax.Base.{
  ℕ, ◌+◌, ◌^◌, ◌≤◌, ◌<◌, ◌≡◌, refl, Bytes, Bool, true, false, ◌||◌, List, [], ◌∷◌, none, some, ◌==◌,
  nat_eq, inl, inr, if◌then◌else◌, arith, Bool-cases, Option-cases,
}
use mathlib.Core.Path.{subst}
use atlax.Base.Int.{ℤ}
use atlax.Base.Map.{lookup, lookup-insert, lookup-delete}
use atlax.Protocol.Stream.Lifecycle
use atlax.Protocol.Stream.{StreamSession, is_finished}
use atlax.Protocol.Mux.Table.{
  Table, update, put, owns_id, remove_id, alloc_id, alloc_from, opened, add_stream, new_table, Role,
}

abbrev pub has : ℕ → List ℕ → Bool
has x [] = false
has x (y ∷ ys) = x == y || has x ys

abbrev pub AllDistinct : List ℕ → Type 0
AllDistinct [] = Unit {0}
AllDistinct (x ∷ xs) = (has x xs ≡ false) × AllDistinct xs

-- The ids in the map are owned by the unfinished streams, each by the one that carries it; a recycled
-- id is owned by nobody, is of the local parity, is below the next fresh id, and is listed once.
pub record Inv (t : Table) : Type 0 where
  pub live_owned :
      (h : ℕ) (s : StreamSession)
      → t.heap h ≡ some s
      → is_finished s.state ≡ false
      → lookup s.id t.streams ≡ some h
  pub owned_live :
      (id h : ℕ)
      → lookup id t.streams ≡ some h
      → (s : StreamSession) × (t.heap h ≡ some s) × (s.id ≡ id) × (is_finished s.state ≡ false)
  pub fresh_handle : (h : ℕ) → t.next_handle ≤ h → t.heap h ≡ none
  pub free_unused :
      (id : ℕ)
      → has id t.free_ids ≡ true
      → (lookup id t.streams ≡ none) × (owns_id t id ≡ true) × (id < t.next_stream_id)
  pub local_below :
      (id h : ℕ) → lookup id t.streams ≡ some h → owns_id t id ≡ true → id < t.next_stream_id
  pub free_distinct : AllDistinct t.free_ids
  pub stream_inv : (h : ℕ) (s : StreamSession) → t.heap h ≡ some s → Lifecycle.Inv s

update-Inv :
    (t : Table) (h : ℕ) (s : StreamSession)
    → Inv t
    → Lifecycle.Inv s
    → (k : ℕ) (r : StreamSession) → update t.heap h s k ≡ some r
    → Lifecycle.Inv r
update-Inv t h s v w k r e = elim (Bool-cases (h == k)) [
  | inl y ↦ subst Lifecycle.Inv (ground arith) w
  | inr n ↦ v.stream_inv k r (ground arith)
]

-- A change of a stream that neither moves its id nor finishes it.
pub put-Inv :
    (t : Table) (h : ℕ) (s s' : StreamSession)
    → Inv t
    → t.heap h ≡ some s
    → s'.id ≡ s.id
    → is_finished s'.state ≡ is_finished s.state
    → Lifecycle.Inv s'
    → Inv (put t h s')
put-Inv t h s s' v e i f w = record {
  live_owned = λ k r p q. ground (arith, v.live_owned k r, v.live_owned h s);
  owned_live = λ id k p.
      let o = v.owned_live id k p in
      (
        if h == k then s' else o.0,
        ground arith,
        ground (arith, o.1, o.2),
        ground (arith, o.1, o.3),
      );
  fresh_handle = λ k p. ground (arith, v.fresh_handle k);
  free_unused = v.free_unused;
  local_below = v.local_below;
  free_distinct = v.free_distinct;
  stream_inv = update-Inv t h s' v w;
}

-- A stream that ends leaves the map, and its id may be recycled.
pub retire-Inv :
    (t : Table) (h : ℕ) (s s' : StreamSession)
    → Inv t
    → t.heap h ≡ some s
    → is_finished s.state ≡ false
    → s'.id ≡ s.id
    → is_finished s'.state ≡ true
    → Lifecycle.Inv s'
    → Inv (remove_id (put t h s') s.id)
unfolding remove_id
retire-Inv t h s s' v e l i f w = record {
  live_owned = λ k r p q.
      ground (arith, v.live_owned k r, lookup-delete s.id r.id t.streams, v.live_owned h s);
  owned_live = λ id k p.
      let o = v.owned_live id k (ground (arith, p, lookup-delete s.id id t.streams)) in
      (
        o.0,
        ground (arith, p, o.1, o.2, v.live_owned h s, lookup-delete s.id id t.streams),
        o.2,
        o.3,
      );
  fresh_handle = λ k p. ground (arith, v.fresh_handle k);
  free_unused = λ id p. ground (
    arith,
    v.free_unused id,
    lookup-delete s.id id t.streams,
    v.local_below s.id h,
    v.live_owned h s,
  );
  local_below = λ id k p q. ground (arith, v.local_below id k, lookup-delete s.id id t.streams);
  free_distinct = ground (arith, v.free_distinct, v.free_unused s.id, v.live_owned h s);
  stream_inv = update-Inv t h s' v w;
}

opened_facts :
    (id : ℕ) (w : ℤ) (p : Bytes)
    → ((opened id w p).id ≡ id)
      × (is_finished (opened id w p).state ≡ false)
      × Lifecycle.Inv (opened id w p)
unfolding opened
opened_facts id w p = (refl, refl, ground arith)

-- A new stream, under an id that nobody owns.
pub add_stream-Inv :
    (t : Table) (id : ℕ) (w : ℤ) (p : Bytes)
    → Inv t
    → lookup id t.streams ≡ none
    → has id t.free_ids ≡ false
    → (owns_id t id ≡ true → id < t.next_stream_id)
    → Inv (add_stream t id w p)
unfolding add_stream
add_stream-Inv t id w p v free out below = record {
  live_owned = λ h r e l. ground (
    arith,
    e,
    v.live_owned h r,
    opened_facts id w p,
    lookup-insert id r.id t.next_handle t.streams,
  );
  owned_live = λ k h e. elim (Bool-cases (id == k)) [
    | inl y ↦ (
      opened id w p,
      ground (arith, e, lookup-insert id k t.next_handle t.streams),
      ground (arith, opened_facts id w p),
      (opened_facts id w p).1,
    )
    | inr n ↦
        let o = v.owned_live k h (ground (arith, e, lookup-insert id k t.next_handle t.streams)) in
        (o.0, ground (arith, o.1, v.fresh_handle h), o.2, o.3)
  ];
  fresh_handle = λ h l. ground (arith, v.fresh_handle h);
  free_unused = λ k e. ground (arith, v.free_unused k, lookup-insert id k t.next_handle t.streams);
  local_below =
      λ k h e o. ground (arith, v.local_below k h, lookup-insert id k t.next_handle t.streams);
  free_distinct = v.free_distinct;
  stream_inv = λ k r e. elim (Bool-cases (t.next_handle == k)) [
    | inl y ↦ subst Lifecycle.Inv {x = opened id w p} (ground arith) (opened_facts id w p).2
    | inr n ↦ v.stream_inv k r (ground arith)
  ];
}

-- The state that a new session starts in.
pub new_table-Inv : (r : Role) → Inv (new_table r)
unfolding new_table lookup
new_table-Inv r = record {
  live_owned = λ h s e l. cc;
  owned_live = λ id h e. absurd (ground arith);
  fresh_handle = λ h l. refl;
  free_unused = λ id e. cc;
  local_below = λ id h e o. ground arith;
  free_distinct = tt;
  stream_inv = λ h s e. absurd (ground arith);
}

-- The allocated id is nobody's, of the local parity, below the next fresh id; what is left satisfies the
-- invariant and does not list it.
pub record Allocates (t : Table) (r : ℕ × Table) : Type 0 where
  pub kept : Inv r.1
  pub same_streams : r.1.streams ≡ t.streams
  pub unowned : lookup r.0 t.streams ≡ none
  pub unlisted : has r.0 r.1.free_ids ≡ false
  pub local_id : owns_id r.1 r.0 ≡ true
  pub below_next : r.0 < r.1.next_stream_id

alloc_from-Allocates :
    (t : Table) (fs : List ℕ)
    → t.free_ids ≡ fs
    → t.next_stream_id + 2 < 2 ^ 32
    → Inv t
    → Allocates t (alloc_from t fs)
unfolding alloc_from
alloc_from-Allocates t (id ∷ rest) e b v = record {
  kept = record {
    live_owned = v.live_owned;
    owned_live = v.owned_live;
    fresh_handle = v.fresh_handle;
    free_unused = λ k p. ground (arith, v.free_unused k);
    local_below = v.local_below;
    free_distinct = ground (arith, v.free_distinct);
    stream_inv = v.stream_inv;
  };
  same_streams = refl;
  unowned = ground (arith, v.free_unused id);
  unlisted = ground (arith, v.free_distinct);
  local_id = ground (arith, v.free_unused id);
  below_next = ground (arith, v.free_unused id);
}
alloc_from-Allocates t [] e b v = record {
  kept = record {
    live_owned = v.live_owned;
    owned_live = v.owned_live;
    fresh_handle = v.fresh_handle;
    free_unused = λ k p. ground (arith, v.free_unused k);
    local_below = λ k h p q. ground (arith, v.local_below k h);
    free_distinct = v.free_distinct;
    stream_inv = v.stream_inv;
  };
  same_streams = refl;
  unowned = elim (Option-cases (lookup t.next_stream_id t.streams)) [
    | inl n ↦ n
    | inr (h, n) ↦ absurd (ground (arith, v.local_below t.next_stream_id h))
  ];
  unlisted = ground arith;
  local_id = ground arith;
  below_next = ground arith;
}

pub alloc_id-Allocates :
    (t : Table) → t.next_stream_id + 2 < 2 ^ 32 → Inv t → Allocates t (alloc_id t)
unfolding alloc_id
alloc_id-Allocates t b v = alloc_from-Allocates t t.free_ids refl b v
