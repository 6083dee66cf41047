-- ===== src/Protocol/Codec/RoundTrip.antt =====
-- What `write_frame` writes, `read_frame` reads back, one frame or a whole connection of them.
use mathlib.Core.List.{append_assoc, append-nil}
use atlax.Base.{
  ℕ, zero, suc, ◌/◌, ◌%◌, ◌^◌, ◌≤◌, ◌≡◌, refl, ap, sym, ◌∙◌, Bytes, List, [], ◌∷◌, ◌++◌, some,
  length, length-append, take-append, drop-append, All, arith,
}
use atlax.Protocol.Frame.{Frame, IsWireFrame, IsU32, protocol_version, max_payload_size}
use atlax.Protocol.Codec.{
  Result, ok, ◌>>=◌, Header, uint32, read_full, read_header, payload_len, validate_header, frame_of,
  read_body, read_frame, header_bytes, write_frame,
}

-- The four bytes of a uint32 give it back.
pub uint32-put :
    (n : ℕ) → IsU32 n → uint32 (n / 2 ^ 24 % 256) (n / 2 ^ 16 % 256) (n / 2 ^ 8 % 256) (n % 256) ≡ n
unfolding uint32
uint32-put n h = omega arith

read_full-append : (xs ys : Bytes) → read_full (length xs) (xs ++ ys) ≡ ok (xs, ys)
unfolding read_full
read_full-append xs ys =
    rw (take-append xs ys, drop-append xs ys) (ground (arith, length-append xs ys))

-- A frame that the writer accepts and the reader does not refuse.
pub record IsSendable (f : Frame) : Type 0 where
  pub wire : IsWireFrame f
  pub current : f.version ≡ protocol_version
  pub bounded : length f.payload ≤ max_payload_size

abbrev pub wire_bytes : Frame → Bytes
unfolding header_bytes
wire_bytes f = header_bytes f ++ f.payload

pub write_frame_bytes :
    (w : Bytes) (f : Frame) → IsSendable f → write_frame w (some f) ≡ ok (w ++ wire_bytes f)
unfolding write_frame
write_frame_bytes w f s = ground arith

-- The header of a frame, as `read_header` finds it.
abbrev header_of : Frame → Header
header_of f =
    let n = length f.payload % 2 ^ 32 in
    record {
      h0 = f.version;
      h1 = f.command;
      h2 = f.flags;
      h3 = 0;
      h4 = f.stream_id / 2 ^ 24 % 256;
      h5 = f.stream_id / 2 ^ 16 % 256;
      h6 = f.stream_id / 2 ^ 8 % 256;
      h7 = f.stream_id % 256;
      h8 = n / 2 ^ 24 % 256;
      h9 = n / 2 ^ 16 % 256;
      h10 = n / 2 ^ 8 % 256;
      h11 = n % 256;
    }

payload_len-header :
    (f : Frame) → length f.payload ≤ max_payload_size → payload_len (header_of f) ≡ length f.payload
payload_len-header f h = uint32-put (length f.payload % 2 ^ 32) (omega arith) ∙ omega arith

validate-header_of : (f : Frame) → IsSendable f → validate_header (header_of f) ≡ ok tt
unfolding validate_header
validate-header_of f s = rw (payload_len-header f s.bounded, s.current) (ground arith)

read_body_lem :
    (hdr : Header) (xs ys : Bytes)
    → payload_len hdr ≡ length xs
    → read_body hdr (xs ++ ys) ≡ ok (frame_of hdr xs, ys)
unfolding read_body
read_body_lem hdr [] ys e = rw e
read_body_lem hdr (x ∷ xs) ys e = rw (e, read_full-append (x ∷ xs) ys) (ground arith)

frame_of-header : (f : Frame) → IsSendable f → frame_of (header_of f) f.payload ≡ f
frame_of-header f s =
    ap (λ i. record f { stream_id = i }) (uint32-put f.stream_id s.wire.stream_id_range)

pub read_frame_bytes :
    (f : Frame) (rest : Bytes) → IsSendable f → read_frame (wire_bytes f ++ rest) ≡ ok (f, rest)
unfolding read_frame read_header header_bytes
read_frame_bytes f rest s =
    rw
      (
        validate-header_of f s,
        read_body_lem (header_of f) f.payload rest (payload_len-header f s.bounded),
      )
      (ap (λ (g : Frame). ok (g, rest)) (frame_of-header f s))

-- Every sendable frame is written, and whatever follows it on the connection, the reader gets that
-- frame back and stops exactly behind it.
pub read-write_frame :
    (w : Bytes) (f : Frame) (rest : Bytes)
    → IsSendable f
    → (bytes : Bytes) × (write_frame w (some f) ≡ ok (w ++ bytes))
      × (read_frame (bytes ++ rest) ≡ ok (f, rest))
read-write_frame w f rest s = (wire_bytes f, write_frame_bytes w f s, read_frame_bytes f rest s)

-- The write loop of a connection, over the frames it dequeues, and the read loop, on fuel.
pub write_frames : Bytes → List Frame → Result Bytes
write_frames w [] = ok w
write_frames w (f ∷ fs) = write_frame w (some f) >>= λ w'. write_frames w' fs

pub read_frames : ℕ → Bytes → Result (List Frame)
read_frames zero r = ok []
read_frames (suc n) r = read_frame r >>= λ p. read_frames n p.1 >>= λ fs. ok (p.0 ∷ fs)

abbrev pub all_bytes : List Frame → Bytes
all_bytes [] = []
all_bytes (f ∷ fs) = wire_bytes f ++ all_bytes fs

write_frames_bytes :
    (w : Bytes) (fs : List Frame) → All IsSendable fs → write_frames w fs ≡ ok (w ++ all_bytes fs)
unfolding write_frames
write_frames_bytes w [] s = ap ok (sym (append-nil w))
write_frames_bytes w (f ∷ fs) s =
    rw (write_frame_bytes w f s.0, write_frames_bytes (w ++ wire_bytes f) fs s.1)
      (ap ok (append_assoc w (wire_bytes f) (all_bytes fs)))

read_frames_bytes :
    (fs : List Frame) → All IsSendable fs → read_frames (length fs) (all_bytes fs) ≡ ok fs
unfolding read_frames
read_frames_bytes [] s = refl
read_frames_bytes (f ∷ fs) s = rw (read_frame_bytes f (all_bytes fs) s.0, read_frames_bytes fs s.1)

-- A connection carries any sequence of sendable frames: the reader gets the same frames, in order.
pub read-write_frames :
    (fs : List Frame)
    → All IsSendable fs
    → (bytes : Bytes) × (write_frames [] fs ≡ ok bytes) × (read_frames (length fs) bytes ≡ ok fs)
read-write_frames fs s = (all_bytes fs, write_frames_bytes [] fs s, read_frames_bytes fs s)
