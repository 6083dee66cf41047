-- ===== src/Tests/Wire.antt =====
-- Frames, datagrams, windows and queues: pkg/protocol without streams and sessions.
use atlax.Base.{
  ◌-◌, ◌^◌, ◌≡◌, refl, Bytes, true, List, [], ◌∷◌, ◌++◌, some, arith, if◌then◌else◌, ◌==◌,
}
use atlax.Base.Int.{pos, negsuc}
use atlax.Protocol.Frame.{
  Frame, cmd_stream_data, cmd_ping, flag_fin, command_string, flag_string, codes,
}
use atlax.Protocol.Codec.{ok, uint32, write_frame, read_frame}
use atlax.Protocol.Codec.RoundTrip.{IsSendable, write_frames, read_frames, read-write_frames}
use atlax.Protocol.Window.{FlowWindow, Call, consumes, updates, resets, run}
use atlax.Protocol.Window.Bounds.{IsValid, ideal_run, run-eq-ideal}
use atlax.Protocol.WriteQueue.{WriteQueue, priority_control, enqueue}
use atlax.Protocol.WriteQueue.Order.{pending, pending-enqueue}
use atlax.Protocol.Mux.Session.{mk_frame}

abbrev greeting : Frame
greeting = mk_frame cmd_stream_data flag_fin 258 (104 ∷ 105 ∷ [])

abbrev probe : Frame
probe = mk_frame cmd_ping 0 0 (1 ∷ 2 ∷ [])

abbrev greeting_bytes : Bytes
greeting_bytes = 1 ∷ 2 ∷ 1 ∷ 0 ∷ 0 ∷ 0 ∷ 1 ∷ 2 ∷ 0 ∷ 0 ∷ 0 ∷ 2 ∷ 104 ∷ 105 ∷ []

write_greeting : write_frame [] (some greeting) ≡ ok greeting_bytes
unfolding write_frame
write_greeting = refl

read_greeting : read_frame (greeting_bytes ++ (9 ∷ [])) ≡ ok (greeting, 9 ∷ [])
unfolding read_frame uint32
read_greeting = refl

unknown_command : command_string 0x2f ≡ codes "UNKNOWN(0x2f)"
unfolding command_string
unknown_command = refl

both_flags : flag_string 3 ≡ codes "FIN|ACK"
unfolding flag_string
both_flags = refl

greeting-IsSendable : IsSendable greeting
greeting-IsSendable = omega arith

probe-IsSendable : IsSendable probe
probe-IsSendable = omega arith

read-write_frames_example :
    (bytes : Bytes) × (write_frames [] (greeting ∷ probe ∷ []) ≡ ok bytes)
    × (read_frames 2 bytes ≡ ok (greeting ∷ probe ∷ []))
read-write_frames_example =
    read-write_frames (greeting ∷ probe ∷ []) (greeting-IsSendable, (probe-IsSendable, tt))

abbrev half_open : FlowWindow
half_open = record { available = pos 10; initial_size = pos 64 }

half_open-IsValid : IsValid half_open
half_open-IsValid = omega arith

abbrev window_calls : List Call
window_calls =
    consumes (pos 8)
    ∷ updates (pos (2 ^ 31 - 1))
    ∷ updates (negsuc 3)
    ∷ consumes (pos 3)
    ∷ resets
    ∷ []

run-eq-ideal_example :
    (run half_open window_calls ≡ ideal_run half_open window_calls)
    × IsValid (run half_open window_calls)
run-eq-ideal_example = run-eq-ideal half_open window_calls half_open-IsValid (omega arith)

abbrev busy_queue : WriteQueue
busy_queue = record { control = probe ∷ []; data_frames = greeting ∷ []; closed = true }

pending-enqueue_busy : pending (enqueue busy_queue probe priority_control) ≡ (
    if busy_queue.closed
    then pending busy_queue
    else if priority_control == priority_control
    then busy_queue.control ++ (probe ∷ busy_queue.data_frames)
    else pending busy_queue ++ (probe ∷ []))
pending-enqueue_busy = pending-enqueue busy_queue probe priority_control
