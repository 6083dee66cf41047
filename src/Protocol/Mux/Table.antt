-- ===== src/Protocol/Mux/Table.antt =====
-- The part of a mux session that says which stream owns which id.
-- A `*StreamSession` outlives its place in the map: `heap` holds every stream that was made, by a
-- handle that stands for the pointer, and `streams` maps an id to the handle that owns it. The slice
-- `freeIDs` is a stack whose top is the head of the list.
pub mod Inv
pub mod Ending
pub mod Accounts
pub mod Heap
pub mod Races
use atlax.Base.{
  ℕ, suc, ◌+◌, ◌%◌, ◌^◌, Bytes, Bool, true, false, List, [], ◌∷◌, Option, none, some, ◌==◌, length,
  nat_eq, if◌then◌else◌,
}
use atlax.Base.Int.{ℤ}
use atlax.Base.Map.{Map, lookup, insert, delete}
use atlax.Protocol.Stream
use atlax.Protocol.Stream.{
  StreamSession, StreamState, is_finished, new_stream_session, open_stream, set_open_payload,
}

pub record Table : Type 0 where
  pub heap : ℕ → Option StreamSession
  pub next_handle : ℕ
  pub streams : Map ℕ ℕ
  pub next_stream_id : ℕ
  pub free_ids : List ℕ

pub data Role : Type 0 where
  relay agent : Role

abbrev pub start_id : Role → ℕ
start_id relay = 1
start_id agent = 2

unfoldable pub new_table : Role → Table
new_table role = record {
  heap = λ h. none;
  next_handle = 0;
  streams = [];
  next_stream_id = start_id role;
  free_ids = [];
}

abbrev pub update : (ℕ → Option StreamSession) → ℕ → StreamSession → ℕ → Option StreamSession
update heap h s k = if h == k then some s else heap k

-- A change of the object behind a pointer.
abbrev pub put : Table → ℕ → StreamSession → Table
put t h s = record t { heap = update t.heap h s }

-- `ownsID`: the id is of the parity that this side allocates.
abbrev pub owns_id : Table → ℕ → Bool
owns_id t id = id % 2 == t.next_stream_id % 2

-- `freeID`
unfoldable pub free_id : Table → ℕ → Table
free_id t id = record t { free_ids = if owns_id t id then id ∷ t.free_ids else t.free_ids }

-- `delete(m.streams, id); m.freeID(id)`
unfoldable pub remove_id : Table → ℕ → Table
unfolding free_id
remove_id t id = free_id (record t { streams = delete id t.streams }) id

-- The id of the next local stream: the last one recycled, else `nextStreamID`, which goes up by two.
alloc_from : Table → List ℕ → ℕ × Table
alloc_from t (id ∷ rest) = (id, record t { free_ids = rest })
alloc_from t [] = (t.next_stream_id, record t { next_stream_id = (t.next_stream_id + 2) % 2 ^ 32 })

unfoldable pub alloc_id : Table → ℕ × Table
unfolding alloc_from
alloc_id t = alloc_from t t.free_ids

-- The object of a new stream: opened before it can be seen.
unfoldable pub opened : ℕ → ℤ → Bytes → StreamSession
unfolding open_stream set_open_payload new_stream_session
opened id window payload = open_stream (set_open_payload (new_stream_session id window) payload)

-- It is stored under its id. Its handle is `next_handle`.
unfoldable pub add_stream : Table → ℕ → ℤ → Bytes → Table
add_stream t id window payload = record t {
  heap = update t.heap t.next_handle (opened id window payload);
  next_handle = suc t.next_handle;
  streams = insert id t.next_handle t.streams;
}

-- `maybeRemoveStream`
unfoldable pub maybe_remove_stream : Table → ℕ → StreamState → Table
maybe_remove_stream t id state = if is_finished state then remove_id t id else t

-- `StreamSession.Close` of an object in the heap, with the callback of `setupStreamClose`.
after_close : Table → ℕ → StreamSession × Bool → Table
after_close t h (s, fired) =
    if fired then maybe_remove_stream (put t h s) s.id s.state else put t h s

close_object : Table → ℕ → Option StreamSession → Table
unfolding after_close
close_object t h none = t
close_object t h (some s) = after_close t h (Stream.close s)

unfoldable pub close_stream : Table → ℕ → Table
unfolding close_object
close_stream t h = close_object t h (t.heap h)

-- `RemoteClose` and `maybeRemoveStream`, as the handlers of STREAM_CLOSE and of a final STREAM_DATA
-- run them.
remote_close_object : Table → ℕ → ℕ → Option StreamSession → Table
remote_close_object t id h none = t
remote_close_object t id h (some s) =
    let s' = Stream.remote_close s in maybe_remove_stream (put t h s') id s'.state

unfoldable pub remote_close_stream : Table → ℕ → ℕ → Table
unfolding remote_close_object
remote_close_stream t id h = remote_close_object t id h (t.heap h)

-- `Reset` with the callback of `setupStreamReset`, while the session is not closing. The flag tells
-- whether the callback found the stream in the map; it then removes it and sends STREAM_RESET.
after_reset : Table → ℕ → StreamSession × Bool → Option ℕ → Table × Bool
after_reset t h (s, true) (some k) = (remove_id (put t h s) s.id, true)
after_reset t h (s, true) none = (put t h s, false)
after_reset t h (s, false) _ = (put t h s, false)

reset_object : Table → ℕ → Option StreamSession → Table × Bool
unfolding after_reset
reset_object t h none = (t, false)
reset_object t h (some s) = after_reset t h (Stream.reset s) (lookup s.id t.streams)

unfoldable pub reset_stream : Table → ℕ → Table × Bool
unfolding reset_object
reset_stream t h = reset_object t h (t.heap h)
