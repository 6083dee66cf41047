-- ===== src/Agent/Runner/Owned.antt =====
-- The loop holds one connection at a time and closes those before it.
use atlax.Base.{
  ◌≡◌, ◌⊎◌, inl, inr, refl, ap, ℕ, zero, suc, ◌<◌, Bytes, Bool, true, false, ◌||◌, ◌==◌, ==_iff,
  List, [], ◌∷◌, Option, none, some, arith, if_cases,
}
use atlax.Base.Int.{ℤ}
use atlax.Base.Map.{Map}
use atlax.Agent.{resolve_target}
use atlax.Agent.Client.{
  TunnelClient, store_connection, connect, end_session, teardown, Attempt, canceled, fails, dials,
  Reconnected, reconnected, gave_up, exhausted, max_attempts, after_connect, after_attempt,
  attempts, reconnect, heartbeat_tick, tick_session, tick_running,
}
use atlax.Agent.Runner.{
  TunnelRunner, Phase, accepting, stopped, failed, after_reconnect, session_lost, Event, accepts,
  session_ends, context_ends, ticks, accept_target, accept_one, on_event, run,
}

abbrev pub contains : ℕ → List ℕ → Bool
contains k [] = false
contains k (x ∷ xs) = (x == k) || contains k xs

-- Each connection that was made is the current one or was closed.
abbrev pub AllHeld : TunnelClient → Type 0
AllHeld c = (k : ℕ) → k < c.next_conn → (c.mux ≡ some k) ⊎ (contains k c.ended ≡ true)

-- What the client holds where the loop is.
abbrev pub Held : Phase → TunnelClient → Type 0
Held (accepting conn) c = (c.mux ≡ some conn) × (c.is_connected ≡ true)
Held stopped c = Unit {0}
Held failed c = (c.mux ≡ none) × (c.is_connected ≡ false)

pub record OwnsAll (r : TunnelRunner) : Type 0 where
  pub held : Held r.phase r.client
  pub all_held : AllHeld r.client

-- The client has no connection, and all those it had are closed.
record IsDown (c : TunnelClient) : Type 0 where
  pub down : (c.mux ≡ none) × (c.is_connected ≡ false)
  pub all_ended : (k : ℕ) → k < c.next_conn → contains k c.ended ≡ true

ended_held :
    (c : TunnelClient) (o : Option ℕ) (k : ℕ)
    → c.mux ≡ o
    → (c.mux ≡ some k) ⊎ (contains k c.ended ≡ true)
    → contains k (end_session o c.ended) ≡ true
ended_held c none k e h = ground (arith, e, h)
ended_held c (some x) k e h = ground (arith, e, h, ==_iff x k)

teardown-IsDown : (c : TunnelClient) → AllHeld c → IsDown (teardown c)
unfolding teardown
teardown-IsDown c h = record {
  down = (refl, refl);
  all_ended = λ k l. ended_held c c.mux k refl (h k l);
}

-- What is wanted of a reconnection: the runner that follows is sound.
abbrev Good : TunnelRunner → Reconnected → Type 0
Good r x = OwnsAll (after_reconnect r x)

lt_suc-cases : (k n : ℕ) → k < suc n → (n ≡ k) ⊎ (k < n)
lt_suc-cases k n l = ground (arith, l)

newest_held :
    (c : TunnelClient) (k : ℕ)
    → IsDown c
    → (c.next_conn ≡ k) ⊎ (k < c.next_conn)
    → (some c.next_conn ≡ some k) ⊎ (contains k c.ended ≡ true)
newest_held c k d (inl e) = inl (ap (λ n. some n) e)
newest_held c k d (inr l) = inr (d.all_ended k l)

store-Good :
    (r : TunnelRunner) (c : TunnelClient) → IsDown c → Good r (reconnected (store_connection c))
unfolding after_reconnect store_connection
store-Good r c d = record {
  held = (refl, refl);
  all_held = λ k l. newest_held c k d (lt_suc-cases k c.next_conn l);
}

down-Good :
    (r : TunnelRunner) (c : TunnelClient) → IsDown c → Good r (gave_up c) × Good r (exhausted c)
unfolding after_reconnect
down-Good r c d = (
  record { held = d.down; all_held = λ k l. inr (d.all_ended k l) },
  record { held = d.down; all_held = λ k l. inr (d.all_ended k l) },
)

connect-Good :
    (r : TunnelRunner) (c : TunnelClient) (dialed : Bool) (rest : Reconnected)
    → IsDown c
    → Good r rest
    → Good r (after_connect (connect c dialed) rest)
unfolding connect
connect-Good r c false rest d g =
    if_cases (λ o. Good r (after_connect o rest)) c.closed none none g g
connect-Good r c true rest d g =
    if_cases (λ o. Good r (after_connect o rest)) c.closed none (some (store_connection c)) g
      (store-Good r c d)

attempt-Good :
    (r : TunnelRunner) (c : TunnelClient) (a : Attempt) (rest : Reconnected)
    → IsDown c
    → Good r rest
    → Good r (after_attempt c a rest)
unfolding after_attempt
attempt-Good r c canceled rest d g = (down-Good r c d).0
attempt-Good r c fails rest d g = connect-Good r c false rest d g
attempt-Good r c dials rest d g = connect-Good r c true rest d g

attempts-Good :
    (r : TunnelRunner) (c : TunnelClient) (n i : ℕ) (outcome : ℕ → Attempt)
    → IsDown c
    → Good r (attempts c n i outcome)
unfolding attempts
attempts-Good r c zero i outcome d = (down-Good r c d).1
attempts-Good r c (suc n) i outcome d =
    attempt-Good r c (outcome i) (attempts c n (suc i) outcome) d
      (attempts-Good r c n (suc i) outcome d)

accept_target-OwnsAll :
    (r : TunnelRunner) (stream : ℕ) (target : Bytes)
    → OwnsAll r
    → OwnsAll (accept_target r stream target)
unfolding accept_target
accept_target-OwnsAll r stream [] s = record { held = s.held; all_held = s.all_held }
accept_target-OwnsAll r stream (b ∷ target) s = record { held = s.held; all_held = s.all_held }

-- A tick changes neither the session nor the status.
silent-Held :
    (p : Phase) (c : TunnelClient) (b : Bool)
    → Held p c
    → Held p (record c { disconnect_ch = b; heartbeat = none })
silent-Held (accepting conn) c b h = h
silent-Held stopped c b h = h
silent-Held failed c b h = h

tick_session-OwnsAll :
    (r : TunnelRunner) (o : Option ℕ) (pong : Bool)
    → OwnsAll r
    → OwnsAll (record r { client = tick_session r.client o pong })
unfolding tick_session
tick_session-OwnsAll r none pong s = record {
  held = silent-Held r.phase r.client r.client.disconnect_ch s.held;
  all_held = s.all_held;
}
tick_session-OwnsAll r (some k) true s = s
tick_session-OwnsAll r (some k) false s = record {
  held = silent-Held r.phase r.client true s.held;
  all_held = s.all_held;
}

tick_running-OwnsAll :
    (r : TunnelRunner) (o : Option ℕ) (pong : Bool)
    → OwnsAll r
    → OwnsAll (record r { client = tick_running r.client o pong })
unfolding tick_running
tick_running-OwnsAll r none pong s = s
tick_running-OwnsAll r (some k) pong s = tick_session-OwnsAll r r.client.mux pong s

module _ (services : Map Bytes Bytes) (configured : ℤ) where
  on_event-OwnsAll :
      (r : TunnelRunner) (p : Phase) (e : Event)
      → r.phase ≡ p
      → OwnsAll r
      → OwnsAll (on_event services configured r p e)
  unfolding on_event accept_one session_lost reconnect heartbeat_tick
  on_event-OwnsAll r (accepting k) (accepts stream payload) q s =
      accept_target-OwnsAll r stream (resolve_target services payload) s
  on_event-OwnsAll r (accepting k) (ticks pong) q s =
      tick_running-OwnsAll r r.client.heartbeat pong s
  on_event-OwnsAll r (accepting k) (session_ends outcome) q s =
      let c = record r.client { disconnect_ch = false } in
      attempts-Good r (teardown c) (max_attempts configured) 0 outcome
        (teardown-IsDown c s.all_held)
  on_event-OwnsAll r (accepting k) context_ends q s = record { held = tt; all_held = s.all_held }
  on_event-OwnsAll r stopped e q s = s
  on_event-OwnsAll r failed e q s = s

  -- If it held before, then after any events: while the loop accepts streams, it does so on the connection that
  -- the client holds and counts as connected on; once the loop has failed, the client holds none; and every
  -- connection that was ever made is the one that the client holds or has been closed.
  pub run-OwnsAll :
      (r : TunnelRunner) (es : List Event) → OwnsAll r → OwnsAll (run services configured r es)
  unfolding run
  run-OwnsAll r [] s = s
  run-OwnsAll r (e ∷ es) s =
      run-OwnsAll (on_event services configured r r.phase e) es
        (on_event-OwnsAll r r.phase e refl s)
