-- ===== src/Relay/Router/Isolation.antt =====
-- Which agent a client reaches.
use atlax.Base.{ℕ, ◌≡◌, ◌⊎◌, Bytes, bytes_eq_inst, int_eq, Bool, true, List, some}
use atlax.Base.Int.{ℤ, pos, ◌≤ℤ◌, ◌<ℤ◌}
use atlax.Protocol.Mux.Session.{MuxSession, Opening, open_stream_with_payload, num_streams}
use atlax.Relay.Agents.{Event}
use atlax.Relay.Agents.Authentic.{shown}
use atlax.Relay.Router.Ports.{owner}
use atlax.Relay.Router.{
  PortRouter, get_port, service_of, max_streams_of, Routed, agent_not_found, Handled, no_mapping,
  rate_limited, routed,
}

-- The number of streams, as it was when they were counted, is below the limit of the port if that has one.
abbrev pub HasRoom : ℤ → ℕ → Type 0
HasRoom limit n = (limit ≤ℤ pos 0) ⊎ (pos n <ℤ limit)

inner : Handled → Routed
inner no_mapping = agent_not_found
inner rate_limited = agent_not_found
inner (routed r) = r

-- What must hold for a client to get a stream: the listener events so far are `es`.
abbrev pub IsRouted :
    PortRouter
    → PortRouter
    → List Event
    → (ℕ → MuxSession)
    → (ℕ → MuxSession)
    → (Bytes → Bool)
    → ℤ
    → ℕ
    → Opening
    → Type 0
IsRouted before now es counted muxes allowed port conn o =
    (tenant : Bytes) × (owner (get_port before port) ≡ some tenant)
    × (shown tenant conn es ≡ true)
    × (allowed tenant ≡ true)
    × (o ≡ open_stream_with_payload (muxes conn) (service_of (get_port now port)))
    × HasRoom (max_streams_of (get_port now port)) (num_streams (counted conn))
