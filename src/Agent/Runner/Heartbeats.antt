-- ===== src/Agent/Runner/Heartbeats.antt =====
-- What the loop makes of a heartbeat that fails.
use atlax.Base.{◌≡◌, ℕ, Bytes, Bool, true, false, List, [], ◌∷◌, Option, none, some, All, arith}
use atlax.Base.Int.{ℤ}
use atlax.Base.Map.{Map}
use atlax.Agent.{resolve_target}
use atlax.Agent.Client.{heartbeat_tick, tick_session, tick_running}
use atlax.Agent.Runner.{
  TunnelRunner, Phase, accepting, stopped, failed, Event, accepts, session_ends, context_ends,
  ticks, accept_target, accept_one, on_event, run,
}

-- Neither the session nor the context ends.
abbrev pub is_quiet : Event → Bool
is_quiet (accepts stream payload) = true
is_quiet (session_ends outcome) = false
is_quiet context_ends = false
is_quiet (ticks pong) = true

-- The loop waits on this session, the client counts as connected on it, and these sessions were closed.
abbrev pub Waits : TunnelRunner → ℕ → List ℕ → Type 0
Waits r conn ended =
    (r.phase ≡ accepting conn)
    × (r.client.mux ≡ some conn)
    × (r.client.is_connected ≡ true)
    × (r.client.ended ≡ ended)

accept_target-Waits :
    (r : TunnelRunner) (stream conn : ℕ) (ended : List ℕ) (target : Bytes)
    → Waits r conn ended
    → Waits (accept_target r stream target) conn ended
unfolding accept_target
accept_target-Waits r stream conn ended [] w = w
accept_target-Waits r stream conn ended (b ∷ target) w = w

tick_session-Waits :
    (r : TunnelRunner) (o : Option ℕ) (pong : Bool) (conn : ℕ) (ended : List ℕ)
    → Waits r conn ended
    → Waits (record r { client = tick_session r.client o pong }) conn ended
unfolding tick_session
tick_session-Waits r none pong conn ended w = w
tick_session-Waits r (some k) true conn ended w = w
tick_session-Waits r (some k) false conn ended w = w

tick_running-Waits :
    (r : TunnelRunner) (o : Option ℕ) (pong : Bool) (conn : ℕ) (ended : List ℕ)
    → Waits r conn ended
    → Waits (record r { client = tick_running r.client o pong }) conn ended
unfolding tick_running
tick_running-Waits r none pong conn ended w = w
tick_running-Waits r (some k) pong conn ended w =
    tick_session-Waits r r.client.mux pong conn ended w

module _ (services : Map Bytes Bytes) (configured : ℤ) where
  on_event-Waits :
      (r : TunnelRunner) (p : Phase) (e : Event) (conn : ℕ) (ended : List ℕ)
      → is_quiet e ≡ true
      → Waits r conn ended
      → Waits (on_event services configured r p e) conn ended
  unfolding on_event accept_one heartbeat_tick
  on_event-Waits r (accepting k) (accepts stream payload) conn ended q w =
      accept_target-Waits r stream conn ended (resolve_target services payload) w
  on_event-Waits r (accepting k) (ticks pong) conn ended q w =
      tick_running-Waits r r.client.heartbeat pong conn ended w
  on_event-Waits r (accepting k) (session_ends outcome) conn ended q w = absurd (ground (arith, q))
  on_event-Waits r (accepting k) context_ends conn ended q w = absurd (ground (arith, q))
  on_event-Waits r stopped e conn ended q w = w
  on_event-Waits r failed e conn ended q w = w

  -- While neither the session nor the context ends, the loop stays on the session, the client counts as
  -- connected on it and nothing is closed, whatever the heartbeats report: one that fails does not make
  -- the agent reconnect.
  pub run-Waits :
      (r : TunnelRunner) (es : List Event) (conn : ℕ) (ended : List ℕ)
      → All (λ e. is_quiet e ≡ true) es
      → Waits r conn ended
      → Waits (run services configured r es) conn ended
  unfolding run
  run-Waits r [] conn ended q w = w
  run-Waits r (e ∷ es) conn ended q w =
      run-Waits (on_event services configured r r.phase e) es conn ended q.1
        (on_event-Waits r r.phase e conn ended q.0 w)
