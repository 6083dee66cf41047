-- ===== src/Protocol/Frame.antt =====
-- pkg/protocol/frame.go: commands, flags and frames.
-- A byte is a number below 256 and a uint32 one below 2 ^ 32; `IsWireFrame` states the ranges.
use Prim.Native.Nat.{bit_and}
use Prim.Native.Char.{code}
use Prim.Native.String.{String}
use atlax.Base.{
  ℕ, ◌+◌, ◌*◌, ◌/◌, ◌%◌, ◌^◌, ◌<◌, Bytes, Bool, true, false, not, [], ◌∷◌, ◌++◌, Option, none, some,
  ◌==◌, ltb, All, if◌then◌else◌, nat_eq,
}
use atlax.Base.Map.{Map, lookup}

abbrev pub protocol_version : ℕ
protocol_version = 0x01

abbrev pub header_size : ℕ
header_size = 12

abbrev pub max_payload_size : ℕ
max_payload_size = 16 * 1024 * 1024

-- `Command` and `Flag` are bytes in the source, and are numbers here.
abbrev pub cmd_stream_open : ℕ
cmd_stream_open = 0x01

abbrev pub cmd_stream_data : ℕ
cmd_stream_data = 0x02

abbrev pub cmd_stream_close : ℕ
cmd_stream_close = 0x03

abbrev pub cmd_stream_reset : ℕ
cmd_stream_reset = 0x04

abbrev pub cmd_ping : ℕ
cmd_ping = 0x05

abbrev pub cmd_pong : ℕ
cmd_pong = 0x06

abbrev pub cmd_window_update : ℕ
cmd_window_update = 0x07

abbrev pub cmd_go_away : ℕ
cmd_go_away = 0x08

abbrev pub cmd_udp_bind : ℕ
cmd_udp_bind = 0x09

abbrev pub cmd_udp_data : ℕ
cmd_udp_data = 0x0A

abbrev pub cmd_udp_unbind : ℕ
cmd_udp_unbind = 0x0B

abbrev pub cmd_update_manifest : ℕ
cmd_update_manifest = 0x0C

abbrev pub cmd_update_binary : ℕ
cmd_update_binary = 0x0D

abbrev pub cmd_service_list : ℕ
cmd_service_list = 0x0E

-- The bytes of a text literal.
abbrev pub codes : String → Bytes
codes String.[] = []
codes (String.◌∷◌ c s) = code c ∷ codes s

command_names : Map ℕ String
command_names =
    (cmd_stream_open, "STREAM_OPEN")
    ∷ (cmd_stream_data, "STREAM_DATA")
    ∷ (cmd_stream_close, "STREAM_CLOSE")
    ∷ (cmd_stream_reset, "STREAM_RESET")
    ∷ (cmd_ping, "PING")
    ∷ (cmd_pong, "PONG")
    ∷ (cmd_window_update, "WINDOW_UPDATE")
    ∷ (cmd_go_away, "GOAWAY")
    ∷ (cmd_udp_bind, "UDP_BIND")
    ∷ (cmd_udp_data, "UDP_DATA")
    ∷ (cmd_udp_unbind, "UDP_UNBIND")
    ∷ (cmd_update_manifest, "UPDATE_MANIFEST")
    ∷ (cmd_update_binary, "UPDATE_BINARY")
    ∷ (cmd_service_list, "SERVICE_LIST")
    ∷ []

hex_digit : ℕ → ℕ
hex_digit d = if ltb d 10 then b'0' + d else b'a' + (d % 10)

-- `%02x` of a byte.
hex_byte : ℕ → Bytes
unfolding hex_digit
hex_byte b = hex_digit (b / 16) ∷ hex_digit (b % 16) ∷ []

name_or_unknown : ℕ → Option String → Bytes
unfolding hex_byte
name_or_unknown c none = codes "UNKNOWN(0x" ++ (hex_byte c ++ codes ")")
name_or_unknown c (some name) = codes name

unfoldable pub command_string : ℕ → Bytes
unfolding name_or_unknown command_names lookup
command_string c = name_or_unknown c (lookup c command_names)

abbrev is_some {ℓ} : {A : Type ℓ} → Option A → Bool
is_some none = false
is_some (some a) = true

unfoldable pub command_is_valid : ℕ → Bool
unfolding command_names lookup
command_is_valid c = is_some (lookup c command_names)

abbrev pub flag_fin : ℕ
flag_fin = 1

abbrev pub flag_ack : ℕ
flag_ack = 2

-- `f.Flags & flag != 0`
abbrev pub has_flag : ℕ → ℕ → Bool
has_flag flags flag = not (bit_and flags flag == 0)

unfoldable pub flag_string : ℕ → Bytes
unfolding hex_byte
flag_string f =
    if f == 0
    then codes "0x00"
    else if f == flag_fin
    then codes "FIN"
    else if f == flag_ack
    then codes "ACK"
    else if f == flag_fin + flag_ack
    then codes "FIN|ACK"
    else codes "0x" ++ hex_byte f

pub record Frame : Type 0 where
  pub version : ℕ
  pub command : ℕ
  pub flags : ℕ
  pub stream_id : ℕ
  pub payload : Bytes

abbrev pub IsByte : ℕ → Type 0
IsByte b = b < 256

abbrev pub IsU32 : ℕ → Type 0
IsU32 n = n < 2 ^ 32

-- The field ranges that Go's types give.
pub record IsWireFrame (f : Frame) : Type 0 where
  pub version_range : IsByte f.version
  pub command_range : IsByte f.command
  pub flags_range : IsByte f.flags
  pub stream_id_range : IsU32 f.stream_id
  pub payload_range : All IsByte f.payload

abbrev pub reset_code_protocol_error : ℕ
reset_code_protocol_error = 2
