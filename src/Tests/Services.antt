-- ===== src/Tests/Services.antt =====
-- The services of an agent: cmd/agent/main.go, pkg/agent/client_impl.go, pkg/relay/listener.go.
use atlax.Base.{◌≡◌, ◌≢◌, refl, [], ◌∷◌, List, arith}
use atlax.Base.Int.{pos}
use atlax.Protocol.Mux.Table.{relay, agent}
use atlax.Protocol.Mux.Session.{MuxConfig, MuxSession, new_mux_session}
use atlax.Protocol.Mux.ServiceList.{any_line_break, join_lines}
use atlax.Relay.Reports.{LiveConnection, new_live_connection}
use atlax.Agent.Services.{ServiceMapping, service_names}
use atlax.Agent.Services.Announced.{IsAnnounced, configured_names, announce-reported}

abbrev limits : MuxConfig
limits = record {
  max_concurrent_streams = 50;
  initial_stream_window = pos 262144;
  connection_window = pos 1048576;
}

-- Two services with a name and one without.
abbrev configured_services : List ServiceMapping
configured_services =
    record {
      name = 119 ∷ 101 ∷ 98 ∷ [];
      protocol = [];
      local_addr = 58 ∷ 56 ∷ [];
      relay_port = pos 80;
    }
    ∷ record { name = []; protocol = []; local_addr = 58 ∷ 49 ∷ []; relay_port = pos 81 }
    ∷ record { name = 100 ∷ 98 ∷ []; protocol = []; local_addr = 58 ∷ 57 ∷ []; relay_port = pos 82 }
    ∷ []

named_services : service_names configured_services ≡ (119 ∷ 101 ∷ 98 ∷ []) ∷ (100 ∷ 98 ∷ []) ∷ []
unfolding service_names
named_services = refl

abbrev agent_side : MuxSession
agent_side = new_mux_session agent limits

abbrev relay_side : MuxSession
relay_side = new_mux_session relay limits

abbrev connection : LiveConnection
connection = new_live_connection (97 ∷ []) relay_side [] 1000

some_names : configured_names configured_services ≢ []
unfolding service_names
some_names h = absurd (ground (arith, h))

announce-reported_example : IsAnnounced configured_services agent_side relay_side connection
unfolding service_names new_mux_session any_line_break join_lines
announce-reported_example =
    announce-reported configured_services agent_side relay_side connection some_names (omega arith)
      refl (omega arith) refl
