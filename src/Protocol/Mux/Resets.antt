-- ===== src/Protocol/Mux/Resets.antt =====
-- What the other side hears, or does not hear, when a stream ends early.
use atlax.Base.{
  ℕ, ◌≡◌, refl, sym, ap, ◌∙◌, ◌+◌, ◌*◌, ◌^◌, ◌/◌, ◌%◌, Bytes, All, Bool, true, false, [], ◌∷◌, ◌++◌,
  Option, none, some, nat_eq, if_of_false, arith,
}
use atlax.Base.Map.{lookup, delete}
use atlax.Protocol.Codec.{put_uint32, uint32}
use atlax.Protocol.Frame.{Frame, IsByte, cmd_stream_reset}
use atlax.Protocol.WriteQueue.{WriteQueue, enqueue}
use atlax.Protocol.Stream
use atlax.Protocol.Stream.{StreamSession}
use atlax.Protocol.Mux.Table.{Table, owns_id, free_id, remove_id, alloc_id, put, reset_stream}
use atlax.Protocol.Mux.Table.Inv.{Inv}
use atlax.Protocol.Mux.Table.Ending.{reset_owned, reset_removed}
use atlax.Protocol.Mux.Session.{
  MuxSession, mk_frame, reset_payload, local_reset, reset_open, after_local_reset, on_ctx_done,
  finish_open, after_finish, cleanup_pending_open, remove_stream, remove_found,
}
use atlax.Protocol.Mux.Handlers.{handle_stream_reset, reset_to, reset_code, remove_if_present}

-- The queue with one more control frame.
abbrev pub with_control : WriteQueue → Frame → WriteQueue
with_control q f = record q { control = q.control ++ (f ∷ []) }

echoed :
    (m : MuxSession) (id code : ℕ) (x : Table × Bool)
    → x.1 ≡ true
    → m.write_queue.closed ≡ false
    → lookup id x.0.streams ≡ none
    → (lookup id (after_local_reset m id code x).table.streams ≡ none)
      × ((after_local_reset m id code x).write_queue
          ≡ with_control m.write_queue (mk_frame cmd_stream_reset 0 id (reset_payload code)))
unfolding after_local_reset enqueue
echoed m id code (t, true) e o n = (n, rw o refl)
echoed m id code (t, false) e o n = absurd (ground arith)

local_reset_sends :
    (m : MuxSession) (h id code : ℕ)
    → Inv m.table
    → lookup id m.table.streams ≡ some h
    → m.close_ch ≡ false
    → m.write_queue.closed ≡ false
    → (lookup id (local_reset m h code).table.streams ≡ none)
      × ((local_reset m h code).write_queue
          ≡ with_control m.write_queue (mk_frame cmd_stream_reset 0 id (reset_payload code)))
unfolding local_reset reset_open
local_reset_sends m h id code v l c o =
    let (s, e, i, _) = v.owned_live id h l in
    let (f, n) = reset_owned m.table h id l v in
    rw (e, i)
      (if_of_false
        (λ (m' : MuxSession).
          (lookup id m'.table.streams ≡ none)
          × (m'.write_queue
              ≡ with_control m.write_queue (mk_frame cmd_stream_reset 0 id (reset_payload code))))
        _ _ c (echoed m id code (reset_stream m.table h) f o n))

removed_already : (m : MuxSession) (id : ℕ) (x : Option ℕ) → x ≡ none → remove_if_present m id x ≡ m
unfolding remove_if_present
removed_already m id none e = refl
removed_already m id (some h) e = absurd (ground arith)

-- The code in the payload of a reset, as bytes: the first four of them, or four zeros if there are
-- fewer.
abbrev pub code_bytes : Bytes → Bytes
code_bytes (a ∷ b ∷ c ∷ d ∷ rest) = a ∷ b ∷ c ∷ d ∷ []
code_bytes _ = 0 ∷ 0 ∷ 0 ∷ 0 ∷ []

byte3 :
    (a b c d : ℕ)
    → IsByte a
    → IsByte b
    → IsByte c
    → IsByte d
    → (a * 2 ^ 24 + b * 2 ^ 16 + c * 2 ^ 8 + d) / 2 ^ 24 % 256 ≡ a
byte3 a b c d h i j k = omega arith

byte2 :
    (a b c d : ℕ)
    → IsByte a
    → IsByte b
    → IsByte c
    → IsByte d
    → (a * 2 ^ 24 + b * 2 ^ 16 + c * 2 ^ 8 + d) / 2 ^ 16 % 256 ≡ b
byte2 a b c d h i j k = omega arith

byte1 :
    (a b c d : ℕ)
    → IsByte a
    → IsByte b
    → IsByte c
    → IsByte d
    → (a * 2 ^ 24 + b * 2 ^ 16 + c * 2 ^ 8 + d) / 2 ^ 8 % 256 ≡ c
byte1 a b c d h i j k = omega arith

byte0 :
    (a b c d : ℕ)
    → IsByte a
    → IsByte b
    → IsByte c
    → IsByte d
    → (a * 2 ^ 24 + b * 2 ^ 16 + c * 2 ^ 8 + d) % 256 ≡ d
byte0 a b c d h i j k = omega arith

put-uint32 :
    (a b c d : ℕ)
    → IsByte a
    → IsByte b
    → IsByte c
    → IsByte d
    → put_uint32 (uint32 a b c d) ≡ a ∷ b ∷ c ∷ d ∷ []
unfolding put_uint32 uint32
put-uint32 a b c d h i j k =
    cc (byte3 a b c d h i j k, byte2 a b c d h i j k, byte1 a b c d h i j k, byte0 a b c d h i j k)

reset_payload-code : (p : Bytes) → All IsByte p → reset_payload (reset_code p) ≡ code_bytes p
unfolding reset_code put_uint32
reset_payload-code [] h = refl
reset_payload-code (a ∷ []) h = refl
reset_payload-code (a ∷ b ∷ []) h = refl
reset_payload-code (a ∷ b ∷ c ∷ []) h = refl
reset_payload-code (a ∷ b ∷ c ∷ d ∷ rest) (h, (i, (j, (k, _)))) = put-uint32 a b c d h i j k

-- A STREAM_RESET for a stream of the map takes the stream out, and is answered with a STREAM_RESET of
-- the same id, whose payload is the first four bytes of the one that came, or four zeros if it had
-- fewer, put behind the other control frames; the session is sound, not closing, and its queue is open.
pub handle_stream_reset-echoes :
    (m : MuxSession) (f : Frame) (h : ℕ)
    → Inv m.table
    → lookup f.stream_id m.table.streams ≡ some h
    → m.close_ch ≡ false
    → m.write_queue.closed ≡ false
    → All IsByte f.payload
    → (lookup f.stream_id (handle_stream_reset m f).table.streams ≡ none)
      × ((handle_stream_reset m f).write_queue
          ≡ with_control m.write_queue
              (mk_frame cmd_stream_reset 0 f.stream_id (code_bytes f.payload)))
unfolding handle_stream_reset reset_to
handle_stream_reset-echoes m f h v l c o bytes =
    let r = local_reset_sends m h f.stream_id (reset_code f.payload) v l c o in
    rw (l, removed_already (local_reset m h (reset_code f.payload)) f.stream_id _ r.0)
      (rw (sym (reset_payload-code f.payload bytes)) r)

freed_next : (t : Table) (id : ℕ) → owns_id t id ≡ true → (alloc_id (remove_id t id)).0 ≡ id
unfolding remove_id free_id alloc_id
freed_next t id e = rw e refl

removed_quietly :
    (m : MuxSession) (id h : ℕ) (o : Option ℕ)
    → o ≡ some h
    → Inv m.table
    → lookup id m.table.streams ≡ some h
    → owns_id m.table id ≡ true
    → ((remove_found m id o).write_queue ≡ m.write_queue)
      × ((alloc_id (remove_found m id o).table).0 ≡ id)
unfolding remove_found
removed_quietly m id h none e v l w = absurd (ground arith)
removed_quietly m id h (some k) e v l w =
    let (s, f, i, _) = v.owned_live id k (l ∙ sym e) in
    (
      refl,
      ap (λ (t : Table). (alloc_id t).0) (reset_removed m.table k id s f i)
          ∙ freed_next (put m.table k (Stream.reset s).0) id w,
    )

-- An open that its caller gives up puts nothing into the write queue, so the other side, which may have
-- accepted the stream, is not told; and the id is the first one handed out again. The session is
-- sound, and the stream is still in the map, under an id of the local parity.
pub finish_open-silent :
    (m : MuxSession) (id h : ℕ)
    → Inv m.table
    → lookup id m.table.streams ≡ some h
    → owns_id m.table id ≡ true
    → ((after_finish m (finish_open m h id on_ctx_done)).write_queue ≡ m.write_queue)
      × ((alloc_id (after_finish m (finish_open m h id on_ctx_done)).table).0 ≡ id)
unfolding finish_open cleanup_pending_open remove_stream
finish_open-silent m id h v l w =
    removed_quietly (record m { pending_open = delete id m.pending_open }) id h
      (lookup id m.table.streams) l v l w
