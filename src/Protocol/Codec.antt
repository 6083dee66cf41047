-- ===== src/Protocol/Codec.antt =====
-- pkg/protocol/frame_codec.go: frames to bytes and back.
-- A reader is the bytes that are left, and `io.ReadFull` on it takes all of `n` or fails; a writer
-- is the bytes written so far, and does not fail.
pub mod RoundTrip
use atlax.Base.{
  ℕ, ◌+◌, ◌*◌, ◌/◌, ◌%◌, ◌^◌, Bytes, Bool, true, not, List, [], ◌∷◌, ◌++◌, Option, none, some, ◌==◌,
  ltb, length, take, drop, if◌then◌else◌,
}
use atlax.Protocol.Frame.{Frame, protocol_version, header_size, max_payload_size}

pub data CodecError : Type 0 where
  short_header short_payload unsupported_version payload_too_large nil_frame : CodecError

pub data Result {ℓ} (A : Type ℓ) : Type ℓ where
  ok : A → Result A
  err : CodecError → Result A

infixl 5 ◌>>=◌
abbrev pub ◌>>=◌ {ℓ κ} : {A : Type ℓ} {B : Type κ} → Result A → (A → Result B) → Result B
ok a >>= f = f a
err e >>= f = err e

-- `binary.BigEndian.PutUint32`
unfoldable pub put_uint32 : ℕ → Bytes
put_uint32 n = (n / 2 ^ 24 % 256) ∷ (n / 2 ^ 16 % 256) ∷ (n / 2 ^ 8 % 256) ∷ (n % 256) ∷ []

-- `binary.BigEndian.Uint32`, of four bytes
unfoldable pub uint32 : ℕ → ℕ → ℕ → ℕ → ℕ
uint32 a b c d = a * 2 ^ 24 + b * 2 ^ 16 + c * 2 ^ 8 + d

-- The twelve bytes of `[HeaderSize]byte`.
pub record Header : Type 0 where
  pub h0 : ℕ
  pub h1 : ℕ
  pub h2 : ℕ
  pub h3 : ℕ
  pub h4 : ℕ
  pub h5 : ℕ
  pub h6 : ℕ
  pub h7 : ℕ
  pub h8 : ℕ
  pub h9 : ℕ
  pub h10 : ℕ
  pub h11 : ℕ

-- `io.ReadFull` of a payload: the bytes read and those left.
unfoldable pub read_full : ℕ → Bytes → Result (Bytes × Bytes)
read_full n r = if ltb (length r) n then err short_payload else ok (take n r, drop n r)

unfoldable pub read_header : Bytes → Result (Header × Bytes)
read_header (a ∷ b ∷ c ∷ d ∷ e ∷ f ∷ g ∷ h ∷ i ∷ j ∷ k ∷ l ∷ rest) = ok (
  record {
    h0 = a;
    h1 = b;
    h2 = c;
    h3 = d;
    h4 = e;
    h5 = f;
    h6 = g;
    h7 = h;
    h8 = i;
    h9 = j;
    h10 = k;
    h11 = l;
  },
  rest,
)
read_header _ = err short_header

abbrev payload_len : Header → ℕ
payload_len hdr = uint32 hdr.h8 hdr.h9 hdr.h10 hdr.h11

unfoldable pub validate_header : Header → Result (Unit {0})
validate_header hdr =
    if not (hdr.h0 == protocol_version)
    then err unsupported_version
    else if ltb max_payload_size (payload_len hdr)
    then err payload_too_large
    else ok tt

abbrev frame_of : Header → Bytes → Frame
frame_of hdr body = record {
  version = hdr.h0;
  command = hdr.h1;
  flags = hdr.h2;
  stream_id = uint32 hdr.h4 hdr.h5 hdr.h6 hdr.h7;
  payload = body;
}

unfoldable pub read_body : Header → Bytes → Result (Frame × Bytes)
unfolding read_full
read_body hdr r =
    if payload_len hdr == 0
    then ok (frame_of hdr [], r)
    else (read_full (payload_len hdr) r >>= λ p. ok (frame_of hdr p.0, p.1))

-- The frame read, and what is left of the reader.
unfoldable pub read_frame : Bytes → Result (Frame × Bytes)
unfolding read_header validate_header read_body
read_frame r = read_header r >>= λ p. validate_header p.0 >>= λ _. read_body p.0 p.1

header_bytes : Frame → Bytes
unfolding put_uint32
header_bytes f =
    f.version
    ∷ f.command
    ∷ f.flags
    ∷ 0x00
    ∷ (put_uint32 f.stream_id ++ put_uint32 (length f.payload % 2 ^ 32))

-- What the writer holds afterwards. `none` is the nil frame.
unfoldable pub write_frame : Bytes → Option Frame → Result Bytes
unfolding header_bytes
write_frame w none = err nil_frame
write_frame w (some f) =
    if ltb max_payload_size (length f.payload)
    then err payload_too_large
    else ok (w ++ (header_bytes f ++ f.payload))
