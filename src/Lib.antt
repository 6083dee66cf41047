-- ===== src/Lib.antt =====
-- atlax: a relay and its agents. An agent behind a NAT keeps one connection to the relay; a client
-- connects to a TCP port of the relay, and the relay opens a stream on the connection of the agent
-- whose tenant owns that port. The agent forwards the stream to a local service.
--
-- The parts, from the wire up, and the files that model them.
--   Base: numbers, integers, byte strings, lists, and maps as association lists.
--   Protocol/Frame, Protocol/Codec: pkg/protocol/frame.go and frame_codec.go. `read_frame` and
--     `write_frame` are FrameCodec.ReadFrame and WriteFrame on lists of bytes.
--   Protocol/Udp: pkg/protocol/udp.go.
--   Protocol/Window: pkg/protocol/window.go, FlowWindow with its int32 counters.
--   Protocol/WriteQueue: pkg/protocol/write_queue.go, the two lists that feed the connection.
--   Protocol/Stream: pkg/protocol/stream.go and stream_impl.go, one stream as a state machine.
--   Protocol/Mux: pkg/protocol/mux.go and mux_session.go. Table holds the map of streams, the store
--     of stream objects and the ids; Session the whole state and the calls of the user; Handlers one
--     function for each frame; Drain the writer's round over the streams; ServiceList the list that an
--     agent announces; Run the session as a machine whose events come in any order;
--     Loops the read and the write loop on the
--     bytes of a connection; Transfer a stream from one end of it to the other.
--   Relay/Registry: pkg/relay/registry_impl.go, which connection serves which tenant.
--   Relay/Reports: pkg/relay/connection.go, ListConnectedAgents, and what admin.go and admin_status.go
--     report of the agents; Reports/Orders has the agents in no order, as a quotient.
--   Relay/Router: pkg/relay/router_impl.go and handleClient of client_listener.go; Router/Copies is
--     copyBidirectional, its goroutines as a step relation.
--   Relay/RateLimit: pkg/relay/ratelimit.go, on the token buckets of golang.org/x/time/rate.
--   Relay/Listeners: the listeners and limiters of pkg/relay/client_listener.go.
--   Relay/Requests: the bodies of the admin API's requests and their checks, in pkg/relay/admin.go.
--   Relay/Admin: the requests of pkg/relay/admin.go that change ports or drop an agent, on a state that
--     joins router, listeners, registry, sidecar file and audit. What the system answers while a request
--     is served (whether the listener starts, whether the file is written) stands in the request.
--     Admin/Calls adds POST /reload, so that all requests that change something come in one sequence.
--   Relay/Store: pkg/relay/store.go, and the merge of the sidecar into the port index in
--     cmd/relay/main.go.
--   Relay/Server: Start and Stop of pkg/relay/server_impl.go; Relay/Server/Started joins Start with the
--     admin API and the sidecar over a restart.
--   Relay/Agents: handleConnection of pkg/relay/listener.go and ExtractIdentity of
--     pkg/auth/identity.go, from a handshake to the registry.
--   Relay/Reload: pkg/relay/admin_reload.go. Reload has the diff of the ports, Reload/Whole the rest of
--     applyReload and Reload itself.
--   Config: pkg/config/config.go and loader.go.
--   Agent: resolveTarget of pkg/agent/tunnel_impl.go. Agent/Client: pkg/agent/client_impl.go, one
--     connection at a time. Agent/Runner: the loop of Start in tunnel_impl.go, driven by what happens to
--     the session, the context and the heartbeat.
--   Agent/Services: what an agent announces and serves, from cmd/agent/main.go, client_impl.go and
--     tunnel_impl.go to handleConnection of the relay.
--   Agent/Forwarder: pkg/agent/forwarder_impl.go, the two copies and `await` as a step relation. Of
--     io.CopyBuffer it is taken that it may end at any time, and is sure to end only once both of its ends
--     are closed.
--   Auth: pkg/auth/certs_impl.go and mtls.go, the current certificate, its rotation, and the check of
--     the file with the chain.
--   Audit: pkg/audit/emitter.go, the channel between emitters and the loop that logs.
--   Tests: runs of the definitions on concrete inputs, and the theorems at concrete inputs.
--
-- How state is modelled. A struct is a record, a map an association list, and a method a function from
-- the state before to the state after with what it returns. A method that holds its mutex throughout is
-- one step, so an interleaving is a list of calls. Streams, connections and pending opens that several parts hold are
-- numbers: a stream object is a number into the session's store, so the map of streams, the accept
-- queue and the caller of an open share it. A method that releases its lock
-- in the middle (Close and Reset of a stream, removeStream and handleStreamReset of a session, each with
-- its callback) is one step too, so what is proved of sequences of calls is of calls that do not overlap;
-- Protocol/Mux/Table/Races has Close in two steps with another call in between. Route reads the sessions
-- twice, and Stop takes its list of agents as an argument, since others may act in between. Where the source spawns a goroutine or selects
-- between channels, the outcome of the race is an argument or an event.
--
-- Numbers. Bytes and unsigned fields are natural numbers; where the width matters, the theorems say
-- that they fit, and the int32 counters of a window and the uint32 stream ids wrap as in the source.
-- A Go int that may be negative is ℤ without a bound.
--
-- Fuel. Only the loops of the writer that wait for others are cut into rounds; `dequeue_all`,
-- `read_loop`, `write_loop` and the drain runs take a number of rounds, and their theorems say how
-- many are enough. Reconnect's loop counts its attempts down, as the source bounds them. The loop
-- over the PEM blocks of a file has one unit more than the file has bytes. The step relations of
-- the copies bound their own runs. All other loops are structural recursion.
--
-- Not modelled: deadlines and timers other than as events, the TLS handshake, metrics, logging, the
-- HTTP server, floating-point backoff, the bytes that a forwarding moves, and the tools under
-- scripts/. The YAML parser, the JSON encoding, net and tls are third-party code; the parts that
-- depend on them take their answers, or functions with named assumptions, as arguments.
pub mod Base
pub mod Protocol
pub mod Relay
pub mod Config
pub mod Agent
pub mod Audit
pub mod Auth
pub mod Tests
