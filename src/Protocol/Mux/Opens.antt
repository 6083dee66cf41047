-- ===== src/Protocol/Mux/Opens.antt =====
-- Which id a locally opened stream gets.
use mathlib.Core.Path.{subst}
use atlax.Base.{
  ℕ, ◌+◌, ◌^◌, ◌<◌, ◌≡◌, ◌∙◌, Bytes, true, none, some, leb, length, nat_eq, if_cases, arith,
}
use atlax.Base.Map.{lookup, lookup-insert}
use atlax.Protocol.Mux.Table.{Table, owns_id, alloc_id, add_stream}
use atlax.Protocol.Mux.Table.Inv.{Inv, alloc_id-Allocates}
use atlax.Protocol.Mux.Session.{
  MuxSession, Opening, going_away_error, max_streams_exceeded, awaiting_ack, start_open,
  open_stream_with_payload,
}

-- What the waiting half of an open knows.
abbrev pub Opened : MuxSession → ℕ → ℕ → MuxSession → Type 0
Opened m h id m' =
    (lookup id m.table.streams ≡ none)
    × (owns_id m.table id ≡ true)
    × (lookup id m'.table.streams ≡ some h)
    × (lookup id m'.pending_open ≡ some h)
    × (m.table.heap h ≡ none)

OpenedBy : MuxSession → Opening → Type 0
OpenedBy m going_away_error = Unit
OpenedBy m max_streams_exceeded = Unit
OpenedBy m (awaiting_ack h id m') = Opened m h id m'

started :
    (m : MuxSession) (p : Bytes) (x : ℕ × Table)
    → x.1.next_handle ≡ m.table.next_handle
    → lookup x.0 m.table.streams ≡ none
    → owns_id m.table x.0 ≡ true
    → m.table.heap m.table.next_handle ≡ none
    → OpenedBy m (start_open m p x)
unfolding OpenedBy start_open add_stream
started m p (k, t) a c d e = (
  c,
  d,
  lookup-insert k k t.next_handle t.streams ∙ ground arith,
  lookup-insert k k t.next_handle m.pending_open ∙ ground arith,
  rw a e,
)

alloc_handle : (t : Table) → (alloc_id t).1.next_handle ≡ t.next_handle
unfolding alloc_id
alloc_handle t = ground arith

alloc_parity :
    (t : Table) (k : ℕ)
    → t.next_stream_id + 2 < 2 ^ 32
    → owns_id (alloc_id t).1 k ≡ true
    → owns_id t k ≡ true
unfolding alloc_id
alloc_parity t k b e = ground (arith, e)

opened_by :
    (m : MuxSession) (p : Bytes)
    → m.table.next_stream_id + 2 < 2 ^ 32
    → Inv m.table
    → OpenedBy m (open_stream_with_payload m p)
unfolding open_stream_with_payload OpenedBy
opened_by m p b v =
    let a = alloc_id-Allocates m.table b v in
    if_cases (OpenedBy m) m.going_away _ _ tt (
      if_cases (OpenedBy m) (leb m.config.max_concurrent_streams (length m.table.streams)) _ _ tt (
        started m p (alloc_id m.table) (alloc_handle m.table) a.unowned
          (alloc_parity m.table (alloc_id m.table).0 b a.local_id)
          (v.fresh_handle m.table.next_handle (omega arith))))

-- An open that is not refused waits on a new stream: its id was in use by no stream and is of the
-- parity this side allocates, its object is a new one, and the id is from then on in the map and
-- among the opens that wait for their ack. This holds in a sound session whose ids are not exhausted.
pub open_stream_with_payload-Opened :
    (m m' : MuxSession) (p : Bytes) (h id : ℕ)
    → m.table.next_stream_id + 2 < 2 ^ 32
    → Inv m.table
    → open_stream_with_payload m p ≡ awaiting_ack h id m'
    → Opened m h id m'
unfolding OpenedBy
open_stream_with_payload-Opened m m' p h id b v e = subst (OpenedBy m) e (opened_by m p b v)
