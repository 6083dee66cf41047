-- ===== src/Protocol/Mux/Run/Reachable.antt =====
-- What a mux session promises after any events, on a connection that is not closed.
-- The default limits, 50 streams on either side, are far below the bound that the theorems ask for.
use atlax.Base.{◌+◌, ◌*◌, ◌^◌, ◌<◌, refl, Bool, false, List, [], ◌∷◌, nat_eq, if_cases}
use atlax.Base.Map.{lookup}
use atlax.Protocol.Frame.{Frame, has_flag, flag_ack}
use atlax.Protocol.WriteQueue
use atlax.Protocol.WriteQueue.{Dequeued, frame, canceled, go_away, waiting}
use atlax.Protocol.Mux.Table.{Role, start_id}
use atlax.Protocol.Mux.Session
use atlax.Protocol.Mux.Session.{
  MuxSession, MuxConfig, new_mux_session, Opening, open_stream_with_payload, start_open, Wakeup,
  on_ack, on_ctx_done, on_closed, cleanup_pending_open, remove_stream, remove_found, finish_open,
  Accepted, accepted, accept_waits, accept_stream, accept_from, ping, local_close, local_reset,
  reset_open, after_local_reset,
}
use atlax.Protocol.Mux.Handlers.{
  handle_frame, handle_stream_open, handle_stream_data, handle_stream_close, handle_stream_reset,
  handle_ping, handle_pong, handle_window_update, handle_go_away, handle_service_list,
}
use atlax.Protocol.Mux.Run.{
  Event, opens, finishes, accepts, goes_away, pings, closes_stream, resets_stream, reads_stream,
  writes_stream, drains, sends_frame, receives, after_dequeue, step, run,
}
use atlax.Protocol.Mux.Run.Steps.{
  Sound, open-Sound, finish-Sound, accept-Sound, close_to-Sound, data_to-Sound, ack-Sound,
  peer_open-Sound,
}
use atlax.Protocol.Mux.Run.Rounds.{
  local_reset-Sound, reset_to-Sound, window_payload-Sound, drain-Sound, read-IsSound, write-IsSound,
}
use atlax.Protocol.Mux.Run.Inv.{IsSound, close-IsSound, new_table-IsSound}

-- What holds of every handler's result, and of the session itself, holds after `handleFrame`.
handle_frame_cases :
    (P : MuxSession → Type 0) (m : MuxSession) (f : Frame) (d : Bool)
    → P m
    → P (handle_stream_open m f d)
    → P (handle_stream_data m f)
    → P (handle_stream_close m f)
    → P (handle_stream_reset m f)
    → P (handle_ping m f)
    → P (handle_pong m)
    → P (handle_window_update m f)
    → P (handle_go_away m)
    → P (handle_service_list m f)
    → P (handle_frame m f d)
unfolding handle_frame
handle_frame_cases P m f d p po pd pc pr pi pn pw pg ps = if_cases P _ _ _ po (
    if_cases P _ _ _ pd (
      if_cases P _ _ _ pc (
        if_cases P _ _ _ pr (
          if_cases P _ _ _ pi (
            if_cases P _ _ _ pn
              (if_cases P _ _ _ pw (if_cases P _ _ _ pg (if_cases P _ _ _ ps p))))))))

module _ (r : Role) (c : MuxConfig) where
  frame-Sound :
      (m : MuxSession) (f : Frame) (d : Bool) → Sound r c m → Sound r c (handle_frame m f d)
  unfolding handle_stream_open handle_stream_data handle_stream_close handle_stream_reset
      handle_ping handle_pong handle_window_update handle_go_away handle_service_list
  frame-Sound m f d v =
      handle_frame_cases (Sound r c) m f d v
        (if_cases (Sound r c) (has_flag f.flags flag_ack) _ _
          (ack-Sound r c m f.stream_id (lookup f.stream_id m.pending_open) v)
          (peer_open-Sound r c m f d (lookup f.stream_id m.table.streams) refl v))
        (data_to-Sound r c m f (lookup f.stream_id m.table.streams) refl v)
        (close_to-Sound r c m f.stream_id (lookup f.stream_id m.table.streams) refl v)
        (reset_to-Sound r c m f (lookup f.stream_id m.table.streams) refl v) v v
        (window_payload-Sound r c m f.stream_id f.payload v) v v

  dequeue-Sound : (m : MuxSession) (d : Dequeued) → Sound r c m → Sound r c (after_dequeue m d)
  dequeue-Sound m (frame f q) v = v
  dequeue-Sound m canceled v = v
  dequeue-Sound m go_away v = v
  dequeue-Sound m waiting v = v

  step-Sound :
      (m : MuxSession) (e : Event)
      → start_id r + 2 * c.max_concurrent_streams + 2 < 2 ^ 32
      → Sound r c m
      → Sound r c (step m e)
  unfolding step accept_stream
  step-Sound m (opens payload) b v = open-Sound r c m payload b v
  step-Sound m (finishes h id w) b v = finish-Sound r c m h id w v
  step-Sound m accepts b v = accept-Sound r c m m.accept_ch v
  step-Sound m (goes_away code) b v = unfold Session.go_away in v
  step-Sound m (pings stamp) b v = unfold ping in v
  step-Sound m (closes_stream h) b (q, v) = unfold local_close in (q, close-IsSound r _ m.table h v)
  step-Sound m (resets_stream h code) b v = local_reset-Sound r c m h code v
  step-Sound m (reads_stream h n) b (q, v) =
      (q, read-IsSound r c m.table h n (m.table.heap h) refl v)
  step-Sound m (writes_stream h p) b (q, v) =
      (q, write-IsSound r c m.table h p (m.table.heap h) refl v)
  step-Sound m (drains h fin) b v = drain-Sound r c m h fin v
  step-Sound m sends_frame b v = dequeue-Sound m (WriteQueue.dequeue false m.write_queue) v
  step-Sound m (receives f d) b v = frame-Sound m f d v

  run-Sound :
      (m : MuxSession) (es : List Event)
      → start_id r + 2 * c.max_concurrent_streams + 2 < 2 ^ 32
      → Sound r c m
      → Sound r c (run m es)
  unfolding run
  run-Sound m [] b v = v
  run-Sound m (e ∷ es) b v = run-Sound (step m e) es b (step-Sound m e b v)

  new-Sound : Sound r c (new_mux_session r c)
  unfolding new_mux_session
  new-Sound = ((refl, refl), new_table-IsSound r _)

  -- A session of either role reached by any events (calls of its user, frames of any content, drain and
  -- write rounds, in any order, each call and each handler run to its end before the next begins, the
  -- session not being closed): an id is in the map exactly for the
  -- unfinished stream that carries it, recycled ids are distinct, unused and of the local parity, and
  -- the ids handed out so far are those in use and those recycled, so `nextStreamID` stays within
  -- twice the stream limit of its start and does not wrap.
  pub run-IsSound :
      (es : List Event)
      → start_id r + 2 * c.max_concurrent_streams + 2 < 2 ^ 32
      → IsSound r c.max_concurrent_streams (run (new_mux_session r c) es).table
  run-IsSound es b = (run-Sound (new_mux_session r c) es b new-Sound).1
