-- ===== src/Protocol/Udp.antt =====
-- pkg/protocol/udp.go: the payload of a UDP_DATA frame, one length byte, the address, the datagram.
-- A Go nil slice and an empty one are both the empty list.
pub mod RoundTrip
use atlax.Base.{ℕ, suc, ◌+◌, Bytes, List, [], ◌∷◌, ◌++◌, ltb, length, take, drop, if◌then◌else◌}
use atlax.Protocol.Frame.{Frame, protocol_version, cmd_udp_bind, cmd_udp_data, cmd_udp_unbind}

pub record UdpDatagram : Type 0 where
  pub source_addr : Bytes
  pub payload : Bytes

pub data UdpError : Type 0 where
  empty_payload short_address addr_too_long : UdpError

pub data Result {ℓ} (A : Type ℓ) : Type ℓ where
  ok : A → Result A
  err : UdpError → Result A

infixl 5 ◌>>=◌
abbrev pub ◌>>=◌ {ℓ κ} : {A : Type ℓ} {B : Type κ} → Result A → (A → Result B) → Result B
ok a >>= f = f a
err e >>= f = err e

unfoldable pub parse_udp_data_payload : Bytes → Result UdpDatagram
parse_udp_data_payload [] = err empty_payload
parse_udp_data_payload (addr_len ∷ rest) =
    if ltb (suc (length rest)) (1 + addr_len)
    then err short_address
    else ok (record { source_addr = take addr_len rest; payload = drop addr_len rest })

unfoldable pub build_udp_data_payload : Bytes → Bytes → Result Bytes
build_udp_data_payload source_addr body =
    if ltb 255 (length source_addr)
    then err addr_too_long
    else ok (length source_addr ∷ (source_addr ++ body))

unfoldable pub new_udp_bind_frame : Bytes → Frame
new_udp_bind_frame bind_addr = record {
  version = protocol_version;
  command = cmd_udp_bind;
  flags = 0;
  stream_id = 0;
  payload = bind_addr;
}

unfoldable pub new_udp_unbind_frame : Bytes → Frame
new_udp_unbind_frame bind_addr = record {
  version = protocol_version;
  command = cmd_udp_unbind;
  flags = 0;
  stream_id = 0;
  payload = bind_addr;
}

udp_data_frame : ℕ → Bytes → Frame
udp_data_frame stream_id body = record {
  version = protocol_version;
  command = cmd_udp_data;
  flags = 0;
  stream_id = stream_id;
  payload = body;
}

unfoldable pub new_udp_data_frame : ℕ → Bytes → Bytes → Result Frame
unfolding build_udp_data_payload udp_data_frame
new_udp_data_frame stream_id source_addr body = do
  payload ← build_udp_data_payload source_addr body
  ok (udp_data_frame stream_id payload)
