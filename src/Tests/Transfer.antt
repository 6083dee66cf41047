-- ===== src/Tests/Transfer.antt =====
-- A stream across a connection: pkg/protocol/mux_session.go at both ends.
use atlax.Base.{refl, true, false, [], ◌∷◌, arith, nat_eq}
use atlax.Base.Int.{pos}
use atlax.Base.Map.{lookup, insert}
use atlax.Protocol.Frame.{Frame, cmd_stream_open}
use atlax.Protocol.Stream
use atlax.Protocol.Stream.{StreamSession}
use atlax.Protocol.Mux.Table.{relay, agent, put, new_table, opened, add_stream}
use atlax.Protocol.Mux.Session.{MuxConfig, MuxSession, new_mux_session, mk_frame}
use atlax.Protocol.Mux.Drain.{drain_stream}
use atlax.Protocol.Mux.Drain.Order.{drain_chunks}
use atlax.Protocol.Mux.Handlers.{handle_frame, handle_stream_open}
use atlax.Protocol.Mux.Loops.Wire.{receive}
use atlax.Protocol.Mux.Transfer.{Transfer, Reaches, drain-receive}

abbrev settings : MuxConfig
settings = record {
  max_concurrent_streams = 50;
  initial_stream_window = pos 262144;
  connection_window = pos 1048576;
}

-- A stream of the relay, opened, written to twice, and closed; the STREAM_OPEN is still queued.
abbrev writing : StreamSession
writing = record {
  id = 5;
  state = Stream.half_closed_local;
  read_buf = [];
  recv_window = pos 100;
  write_out = (1 ∷ 2 ∷ []) ∷ (3 ∷ []) ∷ [];
  fin_ch = true;
  closed_ch = false;
  open_payload = [];
  local_close_once = true;
  reset_once = false;
}

abbrev opening : Frame
opening = mk_frame cmd_stream_open 0 5 (115 ∷ [])

abbrev sender : MuxSession
sender = record (new_mux_session relay settings) {
  table = put (new_table relay) 0 writing;
  write_queue = record { control = []; data_frames = opening ∷ []; closed = false };
}

abbrev receiver : MuxSession
receiver = new_mux_session agent settings

abbrev accepted : StreamSession
accepted = opened 5 (pos 262144) (115 ∷ [])

Reaches-accepted : Reaches (receive receiver (opening ∷ [])) 5 0 accepted
unfolding new_mux_session receive lookup handle_frame handle_stream_open add_stream insert
Reaches-accepted = (refl, refl)

drain-receive_example :
    Transfer (drain_stream (drain_chunks 1 sender 0) 0 true) receiver writing accepted 0
unfolding new_mux_session
drain-receive_example =
    drain-receive 1 sender receiver 0 0 writing accepted refl refl refl refl (omega arith)
      (((omega arith, (omega arith, tt)), omega arith), (((omega arith, tt), omega arith), tt))
      (
        record {
          wire = record {
            version_range = omega arith;
            command_range = omega arith;
            flags_range = omega arith;
            stream_id_range = omega arith;
            payload_range = (omega arith, tt);
          };
          current = refl;
          bounded = omega arith;
        },
        tt,
      )
      Reaches-accepted
