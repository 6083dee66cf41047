-- ===== src/Tests/Copying.antt =====
-- Copying bytes: pkg/agent/forwarder_impl.go and `copyBidirectional` of pkg/relay/router_impl.go.
use atlax.Base.{◌≤◌, ◌⊎◌, refl, true, false, [], none, some}
use atlax.Agent.Forwarder.{
  stream_to_local, local_to_stream, reported, returned, second_direction, second_aborted, copying,
  reporters, Forwarding, forward, copies, half_closes, reports, receives, expires, Run, rests,
  steps, await_receives, await_expires, after_await, half_close, abort, filter,
}
use atlax.Agent.Forwarder.Results.{Outcome, forward-Outcome}
use atlax.Relay.Router.Copies
use atlax.Relay.Router.Copies.{Copies, client, stream, copy_bidirectional, receive, close_both}
use atlax.Relay.Router.Copies.Accounts.{Silent}
use atlax.Relay.Router.Copies.Ending.{Over, copy_bidirectional-ends}

-- The stream ends without an error; the local service fails with the error 7 when the linger time is
-- over and the link has been aborted.
abbrev lingered : Forwarding
lingered = record {
  link = record {
    session = true;
    tcp = true;
    aborted = true;
    local_closed = true;
    local_write_closed = true;
    stream_reset = true;
    stream_closed = true;
  };
  up = reported none;
  down = reported (some 7);
  done = [];
  await = returned none;
}

lingers : Run 9 (forward true true) lingered
unfolding forward await_receives await_expires after_await half_close abort filter
lingers = steps _ _ _ _ (copies stream_to_local none refl) (
    steps _ _ _ _ (half_closes stream_to_local none refl) (
      steps _ _ _ _ (reports stream_to_local none refl) (
        steps _ _ _ _ (receives none [] (second_direction none) refl refl) (
          steps _ _ _ _ (expires (second_aborted none) refl) (
            steps _ _ _ _ (copies local_to_stream (some 7) refl) (
              steps _ _ _ _ (half_closes local_to_stream (some 7) refl) (
                steps _ _ _ _ (reports local_to_stream (some 7) refl)
                  (steps _ _ _ _ (receives none [] (returned none) refl refl) (rests _)))))))))

forward-Outcome_example :
    Outcome lingered (reporters 9 (forward true true) lingered lingers []) none
forward-Outcome_example = forward-Outcome true true 9 lingered none lingers refl

-- The copy to the local service has reported; the other one may still wait for an answer.
abbrev half_forwarded : Forwarding
half_forwarded = record {
  link = record {
    session = true;
    tcp = true;
    aborted = false;
    local_closed = false;
    local_write_closed = true;
    stream_reset = false;
    stream_closed = false;
  };
  up = reported none;
  down = copying;
  done = [];
  await = second_direction none;
}

-- The client has sent all it had; its end of file ends the copy to the stream, and the connection
-- is closed while the answer is still under way.
abbrev half_done : Copies
half_done = record {
  session = true;
  done = true;
  closer = true;
  client_closed = true;
  stream_reset = true;
  stream_closed = false;
  to_client = Copies.copying;
  to_stream = Copies.canceled none;
  err_ch = [];
  main = Copies.awaits_first;
}

closes_early : Copies.Run 3 (copy_bidirectional true) half_done
unfolding copy_bidirectional close_both
closes_early = Copies.steps _ _ _ _ (Copies.copies stream none refl) (
    Copies.steps _ _ _ _ (Copies.cancels stream none refl)
      (Copies.steps _ _ _ _ (Copies.closes refl refl) (Copies.rests _)))

-- The copy to the client then fails with the error 5, which comes first and is lost.
abbrev lost : Copies
lost = record {
  session = true;
  done = true;
  closer = true;
  client_closed = true;
  stream_reset = true;
  stream_closed = false;
  to_client = Copies.reported (some 5);
  to_stream = Copies.reported none;
  err_ch = [];
  main = Copies.returned none;
}

loses : Copies.Run 9 (copy_bidirectional true) lost
unfolding copy_bidirectional receive close_both
loses = Copies.steps _ _ _ _ (Copies.copies stream none refl) (
    Copies.steps _ _ _ _ (Copies.cancels stream none refl) (
      Copies.steps _ _ _ _ (Copies.closes refl refl) (
        Copies.steps _ _ _ _ (Copies.copies client (some 5) refl) (
          Copies.steps _ _ _ _ (Copies.cancels client (some 5) refl) (
            Copies.steps _ _ _ _ (Copies.reports client (some 5) refl) (
              Copies.steps _ _ _ _ (Copies.reports stream none refl) (
                Copies.steps _ _ _ _ (Copies.receives (some 5) _ _ refl refl) (
                  Copies.steps _ _ _ _ (Copies.receives none _ _ refl refl) (Copies.rests _)))))))))

copy_bidirectional-ends_example :
    (9 ≤ 10) × Silent lost.main × (Over lost ⊎ ((t : Copies) × Copies.Step lost t))
copy_bidirectional-ends_example = copy_bidirectional-ends true 9 lost loses
