-- ===== src/Protocol/Mux/Drain/Order.antt =====
-- A local close never overtakes the data written before it.
use mathlib.Core.List.{append_assoc, append-nil}
use atlax.Base.{
  ℕ, zero, suc, ◌≡◌, refl, sym, ap, ◌∙◌, Bytes, true, false, List, [], ◌∷◌, ◌++◌, some, map,
  if_of_true, arith,
}
use atlax.Protocol.Frame.{Frame, cmd_stream_data, cmd_stream_close, flag_fin}
use atlax.Protocol.WriteQueue.{WriteQueue, enqueue, priority_data}
use atlax.Protocol.Stream.{StreamSession}
use atlax.Protocol.Mux.Table.{put}
use atlax.Protocol.Mux.Session.{MuxSession, mk_frame}
use atlax.Protocol.Mux.Drain.{
  drain_stream, drain_object, drain_chunk, flush_and_fin, flush_chunks, enqueue_stream_data,
}

-- The frames that carry the chunks of a stream.
abbrev pub data_frames_of : ℕ → List Bytes → List Frame
data_frames_of id = map (mk_frame cmd_stream_data 0 id)

abbrev pub fin_frame : ℕ → Frame
fin_frame id = mk_frame cmd_stream_close flag_fin id []

enqueue_data :
    (q : WriteQueue) (f : Frame)
    → q.closed ≡ false
    → enqueue q f priority_data ≡ record q { data_frames = q.data_frames ++ (f ∷ []) }
unfolding enqueue
enqueue_data q f o = rw o

flush_queue :
    (m : MuxSession) (id : ℕ) (l : List Bytes)
    → m.write_queue.closed ≡ false
    → (flush_chunks m id l).write_queue
      ≡ record m.write_queue { data_frames = m.write_queue.data_frames ++ data_frames_of id l }
unfolding flush_chunks enqueue_stream_data
flush_queue m id [] o = ap (λ d. record m.write_queue { data_frames = d }) (sym (append-nil _))
flush_queue m id (b ∷ l) o =
    let f = mk_frame cmd_stream_data 0 id b in
    let e = enqueue_data m.write_queue f o in
    flush_queue (enqueue_stream_data m id b) id l (ap (λ (q : WriteQueue). q.closed) e ∙ o)
    ∙ rw e (
        ap (λ d. record m.write_queue { data_frames = d })
          (append_assoc m.write_queue.data_frames (f ∷ []) (data_frames_of id l)))

-- The queue behind which everything that the stream still holds, and then FIN, has been put.
abbrev pub flushed : WriteQueue → StreamSession → WriteQueue
flushed q s = record q {
  data_frames = q.data_frames ++ (data_frames_of s.id s.write_out ++ (fin_frame s.id ∷ []));
}

flush_and_fin_queue :
    (m : MuxSession) (h : ℕ) (s : StreamSession)
    → m.write_queue.closed ≡ false
    → (flush_and_fin m h s).write_queue ≡ flushed m.write_queue s
unfolding flush_and_fin
flush_and_fin_queue m h s o =
    let m' = record m { table = put m.table h (record s { write_out = []; fin_ch = false }) } in
    let q = flush_queue m' s.id s.write_out o in
    rw q (
      enqueue_data _ (fin_frame s.id) o
      ∙ ap (λ d. record m.write_queue { data_frames = d })
          (append_assoc m.write_queue.data_frames (data_frames_of s.id s.write_out)
            (fin_frame s.id ∷ [])))

fin_round :
    (m : MuxSession) (h : ℕ) (s : StreamSession)
    → m.table.heap h ≡ some s
    → s.fin_ch ≡ true
    → m.write_queue.closed ≡ false
    → (drain_stream m h true).write_queue ≡ flushed m.write_queue s
unfolding drain_stream drain_object
fin_round m h s e f o = rw e (
    if_of_true (λ (r : MuxSession). r.write_queue ≡ flushed m.write_queue s) _ _ f
      (flush_and_fin_queue m h s o))

-- `k` rounds in which the `select` of the drain loop takes a chunk.
unfoldable pub drain_chunks : ℕ → MuxSession → ℕ → MuxSession
drain_chunks zero m h = m
drain_chunks (suc k) m h = drain_chunks k (drain_stream m h false) h

chunk_round :
    (m : MuxSession) (h : ℕ) (s : StreamSession) (b : Bytes) (l : List Bytes)
    → m.table.heap h ≡ some s
    → s.write_out ≡ b ∷ l
    → m.write_queue.closed ≡ false
    → ((drain_stream m h false).write_queue ≡ record m.write_queue {
      data_frames = m.write_queue.data_frames ++ (mk_frame cmd_stream_data 0 s.id b ∷ []);
    })
      × ((drain_stream m h false).table.heap h ≡ some (record s { write_out = l }))
unfolding drain_stream drain_object drain_chunk enqueue_stream_data
chunk_round m h s b l e w o = rw (e, w) (enqueue_data m.write_queue _ o, ground arith)

empty_round :
    (m : MuxSession) (h : ℕ) (s : StreamSession)
    → m.table.heap h ≡ some s
    → s.write_out ≡ []
    → drain_stream m h false ≡ m
unfolding drain_stream drain_object drain_chunk
empty_round m h s e w = rw (e, w) refl

flushed_rest :
    (q : WriteQueue) (s : StreamSession) (b : Bytes) (l : List Bytes)
    → s.write_out ≡ b ∷ l
    → flushed
        (record q { data_frames = q.data_frames ++ (mk_frame cmd_stream_data 0 s.id b ∷ []) })
        (record s { write_out = l })
      ≡ flushed q s
flushed_rest q s b l w = rw w (
    ap (λ d. record q { data_frames = d })
      (append_assoc q.data_frames (mk_frame cmd_stream_data 0 s.id b ∷ [])
        (data_frames_of s.id l ++ (fin_frame s.id ∷ []))))

-- After any number of rounds that took a chunk, the round that takes the local close leaves in the
-- queue, behind what was there at the start, every chunk the stream held, in the order it was written
-- and each once, and then one STREAM_CLOSE with FIN; this holds of a stream whose close is
-- signalled, while the queue is open.
pub drain_stream-order :
    (k : ℕ) (m : MuxSession) (h : ℕ) (s : StreamSession) (l : List Bytes)
    → s.write_out ≡ l
    → m.table.heap h ≡ some s
    → s.fin_ch ≡ true
    → m.write_queue.closed ≡ false
    → (drain_stream (drain_chunks k m h) h true).write_queue ≡ flushed m.write_queue s
unfolding drain_chunks
drain_stream-order zero m h s l w e f o = fin_round m h s e f o
drain_stream-order (suc k) m h s [] w e f o =
    rw (empty_round m h s e w) (drain_stream-order k m h s [] w e f o)
drain_stream-order (suc k) m h s (b ∷ l) w e f o =
    let r = chunk_round m h s b l e w o in
    drain_stream-order k (drain_stream m h false) h (record s { write_out = l }) l refl r.1 f
      (ap (λ (q : WriteQueue). q.closed) r.0 ∙ o)
    ∙ ap (λ (q : WriteQueue). flushed q (record s { write_out = l })) r.0
    ∙ flushed_rest m.write_queue s b l w
