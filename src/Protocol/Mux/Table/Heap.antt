-- ===== src/Protocol/Mux/Table/Heap.antt =====
-- What the object behind a pointer is after an operation on the stream table.
use atlax.Base.{ℕ, ◌≡◌, some, nat_eq, arith}
use atlax.Protocol.Stream
use atlax.Protocol.Stream.{StreamSession, StreamState, is_finished}
use atlax.Protocol.Mux.Table.{
  Table, put, remove_id, free_id, maybe_remove_stream, remote_close_stream, remote_close_object,
}

maybe_remove_stream_heap :
    (t : Table) (id : ℕ) (state : StreamState) (h : ℕ)
    → (maybe_remove_stream t id state).heap h ≡ t.heap h
unfolding maybe_remove_stream remove_id free_id
maybe_remove_stream_heap t id state h = ground arith

pub remote_close_stream_heap :
    (t : Table) (id h : ℕ) (s : StreamSession)
    → t.heap h ≡ some s
    → (remote_close_stream t id h).heap h ≡ some (Stream.remote_close s)
unfolding remote_close_stream remote_close_object
remote_close_stream_heap t id h s e =
    let s' = Stream.remote_close s in
    rw (e, maybe_remove_stream_heap (put t h s') id s'.state h) (ground arith)
