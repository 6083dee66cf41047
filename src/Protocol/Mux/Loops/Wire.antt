-- ===== src/Protocol/Mux/Loops/Wire.antt =====
-- What the write loop puts on the wire, the read loop of the other side hands to its handlers.
use mathlib.Core.List.{append_assoc, append-nil}
use atlax.Base.{◌≡◌, refl, sym, ◌∙◌, Bytes, Bool, false, List, [], ◌∷◌, ◌++◌, All, length, true}
use atlax.Protocol.Frame.{Frame}
use atlax.Protocol.Codec.RoundTrip.{
  IsSendable, wire_bytes, all_bytes, read_frame_bytes, write_frame_bytes,
}
use atlax.Protocol.WriteQueue.{dequeue}
use atlax.Protocol.WriteQueue.Order.{pending}
use atlax.Protocol.Mux.Session.{MuxSession}
use atlax.Protocol.Mux.Handlers.{handle_frame}
use atlax.Protocol.Mux.Loops.{read_loop, write_loop}

-- The handlers of an open session, over the frames that come in.
unfoldable pub receive : MuxSession → List Frame → MuxSession
receive r [] = r
receive r (f ∷ fs) = receive (handle_frame r f true) fs

pub receive-append :
    (r : MuxSession) (fs gs : List Frame) → receive r (fs ++ gs) ≡ receive (receive r fs) gs
unfolding receive
receive-append r [] gs = refl
receive-append r (f ∷ fs) gs = receive-append (handle_frame r f true) fs gs

pub read_loop-receive :
    (fs : List Frame) (r : MuxSession)
    → All IsSendable fs
    → read_loop (length fs) (all_bytes fs) r ≡ receive r fs
unfolding read_loop receive
read_loop-receive [] r s = refl
read_loop-receive (f ∷ fs) r s =
    rw (read_frame_bytes f (all_bytes fs) s.0, read_loop)
      (read_loop-receive fs (handle_frame r f true) s.1)

-- A session with given frames to write.
abbrev with_frames : MuxSession → List Frame → List Frame → Bool → MuxSession
with_frames m cs ds b = record m {
  write_queue = record { control = cs; data_frames = ds; closed = b };
}

next_bytes :
    (w w' : Bytes) (f : Frame) (fs : List Frame)
    → w' ≡ (w ++ wire_bytes f) ++ all_bytes fs
    → w' ≡ w ++ all_bytes (f ∷ fs)
next_bytes w w' f fs e = e ∙ append_assoc w (wire_bytes f) (all_bytes fs)

write_data :
    (m : MuxSession) (ds : List Frame) (b : Bool) (w : Bytes)
    → m.close_ch ≡ false
    → All IsSendable ds
    → (write_loop (length ds) (with_frames m [] ds b) w).1 ≡ w ++ all_bytes ds
unfolding write_loop dequeue
write_data m [] b w o s = sym (append-nil w)
write_data m (f ∷ ds) b w o s =
    next_bytes w _ f ds
      (rw (o, write_frame_bytes w f s.0, write_loop) (write_data m ds b (w ++ wire_bytes f) o s.1))

write_both :
    (m : MuxSession) (cs ds : List Frame) (b : Bool) (w : Bytes)
    → m.close_ch ≡ false
    → All IsSendable (cs ++ ds)
    → (write_loop (length (cs ++ ds)) (with_frames m cs ds b) w).1 ≡ w ++ all_bytes (cs ++ ds)
unfolding write_loop dequeue
write_both m [] ds b w o s = write_data m ds b w o s
write_both m (f ∷ cs) ds b w o s =
    next_bytes w _ f (cs ++ ds) (
      rw (o, write_frame_bytes w f s.0, write_loop)
        (write_both m cs ds b (w ++ wire_bytes f) o s.1))

-- With one round for each frame that is queued, the write loop of an open session puts exactly the bytes
-- of these frames on the wire, in the order in which the queue gives them out; they are sendable.
pub write_loop-pending :
    (m : MuxSession)
    → m.close_ch ≡ false
    → All IsSendable (pending m.write_queue)
    → (write_loop (length (pending m.write_queue)) m []).1 ≡ all_bytes (pending m.write_queue)
write_loop-pending m o s =
    write_both m m.write_queue.control m.write_queue.data_frames m.write_queue.closed [] o s
