-- ===== src/Protocol/Mux/Drain.antt =====
-- The goroutine of pkg/protocol/mux_session.go that carries a stream's writes to the write queue.
pub mod Order
pub mod Open
use atlax.Base.{ℕ, Bytes, Bool, true, false, List, [], ◌∷◌, Option, none, some, if◌then◌else◌}
use atlax.Protocol.Frame.{cmd_stream_data, cmd_stream_close, flag_fin}
use atlax.Protocol.WriteQueue.{priority_data}
use atlax.Protocol.Stream.{StreamSession}
use atlax.Protocol.Mux.Table.{put}
use atlax.Protocol.Mux.Session.{MuxSession, mk_frame, send}

-- `drainStream` takes one chunk, or, told of the local close, everything that is queued and then FIN.
unfoldable pub enqueue_stream_data : MuxSession → ℕ → Bytes → MuxSession
enqueue_stream_data m id body = send m (mk_frame cmd_stream_data 0 id body) priority_data

unfoldable pub drain_chunk : MuxSession → ℕ → StreamSession → List Bytes → MuxSession
unfolding enqueue_stream_data
drain_chunk m h s [] = m
drain_chunk m h s (body ∷ rest) =
    enqueue_stream_data (record m { table = put m.table h (record s { write_out = rest }) }) s.id
      body

unfoldable pub flush_chunks : MuxSession → ℕ → List Bytes → MuxSession
unfolding enqueue_stream_data
flush_chunks m id [] = m
flush_chunks m id (body ∷ rest) = flush_chunks (enqueue_stream_data m id body) id rest

unfoldable pub flush_and_fin : MuxSession → ℕ → StreamSession → MuxSession
flush_and_fin m h s =
    send
      (flush_chunks
        (record m { table = put m.table h (record s { write_out = []; fin_ch = false }) }) s.id
        s.write_out)
      (mk_frame cmd_stream_close flag_fin s.id []) priority_data

unfoldable pub drain_object : MuxSession → ℕ → Bool → Option StreamSession → MuxSession
unfolding drain_chunk flush_and_fin
drain_object m h fin none = m
drain_object m h true (some s) = if s.fin_ch then flush_and_fin m h s else m
drain_object m h false (some s) = drain_chunk m h s s.write_out

-- One round of the drain goroutine of a stream; the flag tells whether its `select` took `finCh`.
unfoldable pub drain_stream : MuxSession → ℕ → Bool → MuxSession
unfolding drain_object
drain_stream m h fin = drain_object m h fin (m.table.heap h)
