-- ===== src/Tests/Session.antt =====
-- Mux sessions: pkg/protocol/mux_session.go.
use atlax.Base.{◌≡◌, refl, true, false, List, [], ◌∷◌, none, arith, nat_eq}
use atlax.Base.Int.{pos}
use atlax.Base.Map.{lookup, insert}
use atlax.Protocol.Frame.{Frame, cmd_stream_open, cmd_stream_data, cmd_stream_reset, flag_fin}
use atlax.Protocol.WriteQueue.{enqueue}
use atlax.Protocol.Stream
use atlax.Protocol.Stream.{StreamSession, open_stream, new_stream_session}
use atlax.Protocol.Mux.Table.{
  opened, remote_close_stream, relay, put, new_table, alloc_id, add_stream,
}
use atlax.Protocol.Mux.Table.Inv.{Inv}
use atlax.Protocol.Mux.Session.{
  MuxConfig, MuxSession, new_mux_session, mk_frame, open_stream_with_payload, on_ctx_done,
  finish_open, after_finish,
}
use atlax.Protocol.Mux.Handlers.{handle_stream_reset}
use atlax.Protocol.Mux.Run.{Event, opens, receives, resets_stream, after_opening, run}
use atlax.Protocol.Mux.Run.Inv.{IsSound}
use atlax.Protocol.Mux.Run.Reachable.{run-IsSound}
use atlax.Protocol.Mux.Table.Races.{begin_close, finish_close, finish_close-frees_twice}
use atlax.Protocol.Mux.Opens.{Opened, open_stream_with_payload-Opened}
use atlax.Protocol.Mux.Resets.{with_control, handle_stream_reset-echoes, finish_open-silent}

-- What `NewAgentListener` and `TunnelClient.Connect` use.
abbrev usual : MuxConfig
usual = record {
  max_concurrent_streams = 50;
  initial_stream_window = pos 262144;
  connection_window = pos 1048576;
}

abbrev busy : List Event
busy =
    opens (115 ∷ [])
    ∷ receives (mk_frame cmd_stream_open 0 2 []) true
    ∷ receives (mk_frame cmd_stream_data flag_fin 2 (7 ∷ [])) true
    ∷ resets_stream 0 1
    ∷ opens []
    ∷ []

run-IsSound_example : IsSound relay 50 (run (new_mux_session relay usual) busy).table
run-IsSound_example = run-IsSound relay usual busy (omega arith)

abbrev writing : StreamSession
writing = record {
  id = 5;
  state = Stream.half_closed_local;
  read_buf = [];
  recv_window = pos 100;
  write_out = (1 ∷ []) ∷ (2 ∷ []) ∷ [];
  fin_ch = true;
  closed_ch = false;
  open_payload = [];
  local_close_once = true;
  reset_once = false;
}

abbrev draining : MuxSession
draining = record (new_mux_session relay usual) { table = put (new_table relay) 0 writing }

abbrev opened_once : MuxSession
opened_once =
    after_opening (new_mux_session relay usual)
      (open_stream_with_payload (new_mux_session relay usual) (115 ∷ []))

open_stream_with_payload-Opened_example : Opened (new_mux_session relay usual) 0 1 opened_once
unfolding new_mux_session open_stream_with_payload run alloc_id
open_stream_with_payload-Opened_example =
    open_stream_with_payload-Opened (new_mux_session relay usual) opened_once (115 ∷ []) 0 1
      (omega arith) (run-IsSound relay usual [] (omega arith)).owners refl

-- A relay that has opened the stream 1.
abbrev opened_run : MuxSession
opened_run = run (new_mux_session relay usual) (opens (115 ∷ []) ∷ [])

opened_run-Inv : Inv opened_run.table
opened_run-Inv = (run-IsSound relay usual (opens (115 ∷ []) ∷ []) (omega arith)).owners

abbrev reset_frame : Frame
reset_frame = mk_frame cmd_stream_reset 0 1 (0 ∷ 0 ∷ 0 ∷ 9 ∷ [])

handle_stream_reset-echoes_example :
    (lookup 1 (handle_stream_reset opened_run reset_frame).table.streams ≡ none)
    × ((handle_stream_reset opened_run reset_frame).write_queue
        ≡ with_control opened_run.write_queue (mk_frame cmd_stream_reset 0 1 (0 ∷ 0 ∷ 0 ∷ 9 ∷ [])))
unfolding new_mux_session run open_stream_with_payload alloc_id enqueue lookup add_stream insert
handle_stream_reset-echoes_example =
    handle_stream_reset-echoes opened_run reset_frame 0 opened_run-Inv refl refl refl
      (omega arith, (omega arith, (omega arith, (omega arith, tt))))

abbrev first_stream : StreamSession
first_stream = opened 1 (pos 262144) []

finish_close-frees_twice_example :
    let t' = finish_close (remote_close_stream (begin_close opened_run.table 0) 1 0) 0 in
    (t'.free_ids ≡ 1 ∷ 1 ∷ []) × ((alloc_id t').0 ≡ 1) × ((alloc_id (alloc_id t').1).0 ≡ 1)
unfolding new_mux_session run open_stream_with_payload alloc_id lookup add_stream insert opened
finish_close-frees_twice_example =
    finish_close-frees_twice opened_run.table 1 0 first_stream opened_run-Inv refl refl refl refl

finish_open-silent_example :
    ((after_finish opened_run (finish_open opened_run 0 1 on_ctx_done)).write_queue
      ≡ opened_run.write_queue)
    × ((alloc_id (after_finish opened_run (finish_open opened_run 0 1 on_ctx_done)).table).0 ≡ 1)
unfolding new_mux_session run open_stream_with_payload alloc_id lookup add_stream insert
finish_open-silent_example = finish_open-silent opened_run 1 0 opened_run-Inv refl refl
