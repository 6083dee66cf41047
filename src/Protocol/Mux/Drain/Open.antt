-- ===== src/Protocol/Mux/Drain/Open.antt =====
-- A drain round leaves the session open.
use atlax.Base.{
  ℕ, zero, suc, ◌≡◌, refl, ◌∙◌, Bytes, Bool, true, false, List, [], ◌∷◌, Option, none, some,
  if_cases,
}
use atlax.Protocol.Stream.{StreamSession}
use atlax.Protocol.Mux.Session.{MuxSession}
use atlax.Protocol.Mux.Drain.{
  drain_stream, drain_object, drain_chunk, flush_and_fin, flush_chunks, enqueue_stream_data,
}
use atlax.Protocol.Mux.Drain.Order.{drain_chunks}

flush_chunks_open :
    (m : MuxSession) (id : ℕ) (l : List Bytes) → (flush_chunks m id l).close_ch ≡ m.close_ch
unfolding flush_chunks enqueue_stream_data
flush_chunks_open m id [] = refl
flush_chunks_open m id (b ∷ l) = flush_chunks_open (enqueue_stream_data m id b) id l

drain_object_open :
    (m : MuxSession) (h : ℕ) (fin : Bool) (o : Option StreamSession)
    → (drain_object m h fin o).close_ch ≡ m.close_ch
unfolding drain_object drain_chunk flush_and_fin enqueue_stream_data
drain_object_open m h fin none = refl
drain_object_open m h true (some s) =
    if_cases (λ (r : MuxSession). r.close_ch ≡ m.close_ch) s.fin_ch _ m
      (flush_chunks_open _ s.id s.write_out) refl
drain_object_open m h false (some s) = drain_chunk_open m h s s.write_out
  where
    drain_chunk_open :
        (m : MuxSession) (h : ℕ) (s : StreamSession) (l : List Bytes)
        → (drain_chunk m h s l).close_ch ≡ m.close_ch
    drain_chunk_open m h s [] = refl
    drain_chunk_open m h s (b ∷ l) = refl

pub drain_stream_open :
    (m : MuxSession) (h : ℕ) (fin : Bool) → (drain_stream m h fin).close_ch ≡ m.close_ch
unfolding drain_stream
drain_stream_open m h fin = drain_object_open m h fin (m.table.heap h)

pub drain_chunks_open :
    (k : ℕ) (m : MuxSession) (h : ℕ) → (drain_chunks k m h).close_ch ≡ m.close_ch
unfolding drain_chunks
drain_chunks_open zero m h = refl
drain_chunks_open (suc k) m h =
    drain_chunks_open k (drain_stream m h false) h ∙ drain_stream_open m h false
