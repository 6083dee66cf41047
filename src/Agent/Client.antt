-- ===== src/Agent/Client.antt =====
-- pkg/agent/client_impl.go: the agent's connection to the relay.
-- A connection with its mux session is named by a number, the next one free at each dial that succeeds.
-- `ended` holds those that `teardown` closed, the latest first.
pub mod Attempts
use atlax.Base.{ℕ, zero, suc, Bool, true, false, List, [], ◌∷◌, Option, none, some, if◌then◌else◌}
use atlax.Base.Int.{ℤ, pos, pos_part, leb_ℤ}

pub record TunnelClient : Type 0 where
  pub mux : Option ℕ
  pub is_connected : Bool
  pub heartbeat : Option ℕ
  pub closed : Bool
  pub disconnect_ch : Bool
  pub next_conn : ℕ
  pub ended : List ℕ

abbrev pub new_client : TunnelClient
new_client = record {
  mux = none;
  is_connected = false;
  heartbeat = none;
  closed = false;
  disconnect_ch = false;
  next_conn = 0;
  ended = [];
}

-- `Connect` once the dial has succeeded; `none` is its error for a closed client.
unfoldable pub store_connection : TunnelClient → TunnelClient
store_connection c = record c {
  mux = some c.next_conn;
  is_connected = true;
  heartbeat = some c.next_conn;
  next_conn = suc c.next_conn;
}

unfoldable pub connect : TunnelClient → Bool → Option TunnelClient
unfolding store_connection
connect c dials = if c.closed then none else if dials then some (store_connection c) else none

abbrev pub end_session : Option ℕ → List ℕ → List ℕ
end_session none ended = ended
end_session (some conn) ended = conn ∷ ended

unfoldable pub teardown : TunnelClient → TunnelClient
teardown c = record c {
  mux = none;
  is_connected = false;
  heartbeat = none;
  ended = end_session c.mux c.ended;
}

unfoldable pub close : TunnelClient → TunnelClient
unfolding teardown
close c = if c.closed then c else teardown (record c { closed = true })

-- How one attempt of `Reconnect` goes: its context ends while it waits, its dial fails, or it succeeds.
pub data Attempt : Type 0 where
  canceled fails dials : Attempt

pub data Reconnected : Type 0 where
  reconnected : TunnelClient → Reconnected
  gave_up : TunnelClient → Reconnected
  exhausted : TunnelClient → Reconnected

abbrev pub max_attempts : ℤ → ℕ
max_attempts configured = if leb_ℤ configured (pos 0) then 10 else pos_part configured

-- What follows from `Connect`; `rest` is the rest of the loop.
abbrev pub after_connect : Option TunnelClient → Reconnected → Reconnected
after_connect none rest = rest
after_connect (some c) rest = reconnected c

unfoldable pub after_attempt : TunnelClient → Attempt → Reconnected → Reconnected
unfolding connect
after_attempt c canceled rest = gave_up c
after_attempt c fails rest = after_connect (connect c false) rest
after_attempt c dials rest = after_connect (connect c true) rest

-- The attempts from `i` on, `n` of them.
unfoldable pub attempts : TunnelClient → ℕ → ℕ → (ℕ → Attempt) → Reconnected
unfolding after_attempt
attempts c zero i outcome = exhausted c
attempts c (suc n) i outcome = after_attempt c (outcome i) (attempts c n (suc i) outcome)

unfoldable pub reconnect : TunnelClient → ℤ → (ℕ → Attempt) → Reconnected
unfolding attempts teardown
reconnect c configured outcome = attempts (teardown c) (max_attempts configured) 0 outcome

-- One tick of `runHeartbeat`, if its goroutine still runs: `heartbeat` is `none` once it has returned.
unfoldable pub tick_session : TunnelClient → Option ℕ → Bool → TunnelClient
tick_session c none pong = record c { heartbeat = none }
tick_session c (some conn) true = c
tick_session c (some conn) false = record c { disconnect_ch = true; heartbeat = none }

unfoldable pub tick_running : TunnelClient → Option ℕ → Bool → TunnelClient
unfolding tick_session
tick_running c none pong = c
tick_running c (some conn) pong = tick_session c c.mux pong

unfoldable pub heartbeat_tick : TunnelClient → Bool → TunnelClient
unfolding tick_running
heartbeat_tick c pong = tick_running c c.heartbeat pong
