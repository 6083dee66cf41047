-- ===== src/Agent/Runner.antt =====
-- pkg/agent/tunnel_impl.go: the loop of `Start`, which accepts streams on the client's session and
-- reconnects when the session ends.
pub mod Owned
pub mod Heartbeats
use atlax.Base.{ℕ, Bytes, Bool, true, false, List, [], ◌∷◌, Option, none, some, if◌then◌else◌}
use atlax.Base.Int.{ℤ}
use atlax.Base.Map.{Map}
use atlax.Agent.{resolve_target}
use atlax.Agent.Client.{
  TunnelClient, Attempt, Reconnected, reconnected, gave_up, exhausted, reconnect, heartbeat_tick,
}

-- Where `Start` is: in `acceptLoop` on a session, or returned, without or with an error.
pub data Phase : Type 0 where
  accepting : ℕ → Phase
  stopped failed : Phase

-- `forwarded` and `rejected` hold the streams handed to the forwarder and those reset, the latest first.
pub record TunnelRunner : Type 0 where
  pub client : TunnelClient
  pub phase : Phase
  pub forwarded : List (ℕ × Bytes)
  pub rejected : List ℕ

-- The outcome of `Reconnect`; a client that reconnected has the session that the loop takes next.
abbrev pub accept_on : Option ℕ → Phase
accept_on none = failed
accept_on (some conn) = accepting conn

unfoldable pub after_reconnect : TunnelRunner → Reconnected → TunnelRunner
after_reconnect r (reconnected c) = record r { client = c; phase = accept_on c.mux }
after_reconnect r (gave_up c) = record r { client = c; phase = failed }
after_reconnect r (exhausted c) = record r { client = c; phase = failed }

-- The session of the accept loop ended: the signal of the heartbeat, if there is one, is taken, and the
-- client reconnects.
unfoldable pub session_lost : TunnelRunner → ℤ → (ℕ → Attempt) → TunnelRunner
unfolding after_reconnect
session_lost r configured outcome =
    after_reconnect r (reconnect (record r.client { disconnect_ch = false }) configured outcome)

-- A stream with the payload of its STREAM_OPEN: without a target it is reset.
unfoldable pub accept_target : TunnelRunner → ℕ → Bytes → TunnelRunner
accept_target r stream [] = record r { rejected = stream ∷ r.rejected }
accept_target r stream (b ∷ target) = record r { forwarded = (stream, b ∷ target) ∷ r.forwarded }

unfoldable pub accept_one : TunnelRunner → Map Bytes Bytes → ℕ → Bytes → TunnelRunner
unfolding accept_target
accept_one r services stream payload = accept_target r stream (resolve_target services payload)

-- What happens while `Start` runs, in the order in which it does.
pub data Event : Type 0 where
  accepts : ℕ → Bytes → Event
  session_ends : (ℕ → Attempt) → Event
  context_ends : Event
  ticks : Bool → Event

module _ (services : Map Bytes Bytes) (configured : ℤ) where
  unfoldable pub on_event : TunnelRunner → Phase → Event → TunnelRunner
  unfolding session_lost accept_one
  on_event r (accepting conn) (accepts stream payload) = accept_one r services stream payload
  on_event r (accepting conn) (session_ends outcome) = session_lost r configured outcome
  on_event r (accepting conn) context_ends = record r { phase = stopped }
  on_event r (accepting conn) (ticks pong) = record r { client = heartbeat_tick r.client pong }
  on_event r stopped e = r
  on_event r failed e = r

  unfoldable pub run : TunnelRunner → List Event → TunnelRunner
  unfolding on_event
  run r [] = r
  run r (e ∷ es) = run (on_event r r.phase e) es
