-- ===== src/Protocol/Mux/Transfer.antt =====
-- A stream from one end of a connection to the other: the drain goroutine and the write loop of
-- pkg/protocol/mux_session.go on one side, the read loop and the handlers on the other.
use mathlib.Core.List.{append_assoc, append-nil}
use mathlib.Core.Path.{subst}
use atlax.Base.{
  ℕ, ◌+◌, ◌≤◌, ◌≡◌, refl, ap, sym, ◌∙◌, Bytes, true, false, List, [], ◌∷◌, ◌++◌, some, All, length,
  length-append, nat_eq, arith,
}
use atlax.Base.Int.{ℤ, pos, ◌-ℤ◌, int_laws}
use atlax.Base.Map.{lookup}
use atlax.Protocol.Frame.{Frame, IsByte, IsU32, cmd_stream_data, max_payload_size}
use atlax.Protocol.Codec.RoundTrip.{IsSendable, all_bytes}
use atlax.Protocol.Mux.Loops.{read_loop, write_loop}
use atlax.Protocol.Mux.Loops.Wire.{receive, receive-append, read_loop-receive, write_loop-pending}
use atlax.Protocol.WriteQueue.Order.{pending}
use atlax.Protocol.Stream
use atlax.Protocol.Stream.{StreamSession, deliver}
use atlax.Protocol.Mux.Table.Heap.{remote_close_stream_heap}
use atlax.Protocol.Mux.Session.{MuxSession, mk_frame}
use atlax.Protocol.Mux.Drain.{drain_stream}
use atlax.Protocol.Mux.Drain.Open.{drain_stream_open, drain_chunks_open}
use atlax.Protocol.Mux.Drain.Order.{data_frames_of, fin_frame, drain_chunks, drain_stream-order}
use atlax.Protocol.Mux.Handlers.{
  handle_frame, handle_stream_data, data_to, deliver_object, handle_stream_close, close_to,
}

-- The bytes of chunks, in order.
abbrev pub flatten : List Bytes → Bytes
flatten [] = []
flatten (b ∷ l) = b ++ flatten l

-- A stream object that an id of a session reaches.
abbrev pub Reaches : MuxSession → ℕ → ℕ → StreamSession → Type 0
Reaches r id h t = (lookup id r.table.streams ≡ some h) × (r.table.heap h ≡ some t)

window-zero : (w : ℤ) → w -ℤ pos 0 ≡ w
window-zero w = grind int_laws

window-add : (w : ℤ) (m n : ℕ) → w -ℤ pos m -ℤ pos n ≡ w -ℤ pos (m + n)
window-add w m n = grind int_laws

deliver-nil : (t : StreamSession) → deliver t [] ≡ t
unfolding deliver
deliver-nil t =
    let w = window-zero t.recv_window in
    λ i. record t { read_buf = append-nil t.read_buf i; recv_window = w i }

deliver-append : (t : StreamSession) (b c : Bytes) → deliver (deliver t b) c ≡ deliver t (b ++ c)
unfolding deliver
deliver-append t b c =
    let w =
      window-add t.recv_window (length b) (length c)
      ∙ ap (λ n. t.recv_window -ℤ pos n) (sym (length-append b c)) in
    λ i. record t { read_buf = append_assoc t.read_buf b c i; recv_window = w i }

chunk_arrives :
    (r : MuxSession) (id h : ℕ) (t : StreamSession) (b : Bytes)
    → Reaches r id h t
    → Reaches (handle_frame r (mk_frame cmd_stream_data 0 id b) true) id h (deliver t b)
unfolding handle_frame handle_stream_data data_to deliver_object
chunk_arrives r id h t [] e = rw (e.0, deliver-nil t) e
chunk_arrives r id h t (x ∷ b) e = rw (e.0, e.1) (e.0, ground arith)

chunks_arrive :
    (r : MuxSession) (id h : ℕ) (t : StreamSession) (l : List Bytes)
    → Reaches r id h t
    → Reaches (receive r (data_frames_of id l)) id h (deliver t (flatten l))
unfolding receive
chunks_arrive r id h t [] e = rw (deliver-nil t) e
chunks_arrive r id h t (b ∷ l) e =
    let f = mk_frame cmd_stream_data 0 id b in
    subst (Reaches (receive (handle_frame r f true) (data_frames_of id l)) id h)
      (deliver-append t b (flatten l))
      (chunks_arrive (handle_frame r f true) id h (deliver t b) l (chunk_arrives r id h t b e))

fin_arrives :
    (r : MuxSession) (id h : ℕ) (t : StreamSession)
    → Reaches r id h t
    → (handle_frame r (fin_frame id) true).table.heap h ≡ some (Stream.remote_close t)
unfolding handle_frame handle_stream_close close_to
fin_arrives r id h t e = rw (e.0) (remote_close_stream_heap r.table id h t e.1)

-- The receiver gets the frames of a stream: its object takes the bytes, then the remote close.
stream_arrives :
    (r : MuxSession) (id h : ℕ) (t : StreamSession) (l : List Bytes)
    → Reaches r id h t
    → (receive r (data_frames_of id l ++ (fin_frame id ∷ []))).table.heap h
      ≡ some (Stream.remote_close (deliver t (flatten l)))
stream_arrives r id h t l e = rw (receive-append r (data_frames_of id l) (fin_frame id ∷ [])) (
    unfold receive in
    fin_arrives (receive r (data_frames_of id l)) id h (deliver t (flatten l))
      (chunks_arrive r id h t l e))

-- A chunk that fits one frame.
abbrev pub Fits : Bytes → Type 0
Fits b = All IsByte b × (length b ≤ max_payload_size)

IsSendable-data :
    (id : ℕ) (b : Bytes) → IsU32 id → Fits b → IsSendable (mk_frame cmd_stream_data 0 id b)
IsSendable-data id b u f = record {
  wire = record {
    version_range = omega arith;
    command_range = omega arith;
    flags_range = omega arith;
    stream_id_range = u;
    payload_range = f.0;
  };
  current = refl;
  bounded = f.1;
}

IsSendable-fin : (id : ℕ) → IsU32 id → IsSendable (fin_frame id)
IsSendable-fin id u = record {
  wire = record {
    version_range = omega arith;
    command_range = omega arith;
    flags_range = omega arith;
    stream_id_range = u;
    payload_range = tt;
  };
  current = refl;
  bounded = omega arith;
}

stream-IsSendable :
    (id : ℕ) (l : List Bytes)
    → IsU32 id
    → All Fits l
    → All IsSendable (data_frames_of id l ++ (fin_frame id ∷ []))
stream-IsSendable id [] u f = (IsSendable-fin id u, tt)
stream-IsSendable id (b ∷ l) u f = (IsSendable-data id b u f.0, stream-IsSendable id l u f.1)

append-All : (P : Frame → Type 0) (xs ys : List Frame) → All P xs → All P ys → All P (xs ++ ys)
append-All P [] ys p q = q
append-All P (x ∷ xs) ys p q = (p.0, append-All P xs ys p.1 q)

-- Both ends of a connection, `n` frames long: what the write loop of one puts on the wire, and what
-- the read loop of the other makes of it.
pub record Transfer (m r : MuxSession) (s t : StreamSession) (h : ℕ) : Type 0 where
  pub n : ℕ
  pub bytes : Bytes
  pub on_the_wire : (write_loop n m []).1 ≡ bytes
  pub arrived :
      (read_loop n bytes r).table.heap h
      ≡ some (Stream.remote_close (deliver t (flatten s.write_out)))

-- Everything that a stream holds when its local close is signalled reaches the other end of the
-- connection: after any number of drain rounds that took a chunk and the one that takes the close, the
-- write loop puts the whole queue on the wire, and once the read loop there has read these bytes the
-- stream object that it keeps under this id holds, behind what it held when the frames queued earlier
-- were handled, exactly the bytes written, in order, and then knows the remote close. The session and its
-- queue are open, the frames queued earlier are sendable, the chunks fit a frame each, and the id
-- still reaches that object when the frames queued earlier have been handled.
pub drain-receive :
    (k : ℕ) (m r : MuxSession) (h h' : ℕ) (s t : StreamSession)
    → m.table.heap h ≡ some s
    → s.fin_ch ≡ true
    → m.close_ch ≡ false
    → m.write_queue.closed ≡ false
    → IsU32 s.id
    → All Fits s.write_out
    → All IsSendable (pending m.write_queue)
    → Reaches (receive r (pending m.write_queue)) s.id h' t
    → Transfer (drain_stream (drain_chunks k m h) h true) r s t h'
drain-receive k m r h h' s t e f c o u fits p reaches =
    let before = pending m.write_queue in
    let frames = data_frames_of s.id s.write_out ++ (fin_frame s.id ∷ []) in
    let m' = drain_stream (drain_chunks k m h) h true in
    let order =
      ap pending (drain_stream-order k m h s s.write_out refl e f o)
      ∙ sym (append_assoc m.write_queue.control m.write_queue.data_frames frames) in
    let all = append-All IsSendable before frames p (stream-IsSendable s.id s.write_out u fits) in
    let opened = drain_stream_open (drain_chunks k m h) h true ∙ drain_chunks_open k m h ∙ c in
    record {
      n = length (before ++ frames);
      bytes = all_bytes (before ++ frames);
      on_the_wire =
          subst (λ fs. (write_loop (length fs) m' []).1 ≡ all_bytes fs) order
            (write_loop-pending m' opened (subst (All IsSendable) (sym order) all));
      arrived =
          ap (λ (x : MuxSession). x.table.heap h')
            (read_loop-receive (before ++ frames) r all ∙ receive-append r before frames)
          ∙ stream_arrives (receive r before) s.id h' t s.write_out reaches;
    }
