-- ===== src/Relay/Agents.antt =====
-- pkg/relay/listener.go, handleConnection, with ExtractIdentity of pkg/auth/identity.go: how an agent's
-- connection comes into the registry.
-- TLS is third-party: a connection comes with what the handshake made of it, the common names of the
-- peer's chain, leaf first. Fingerprints, dates and the service list are left out.
pub mod Authentic
use atlax.Base.{
  ℕ, Bytes, bytes_eq, Bool, true, false, ◌&&◌, ◌==◌, List, [], ◌∷◌, Option, none, some,
  if◌then◌else◌,
}
use atlax.Base.Int.{pos}
use atlax.Relay.Registry.{MemoryRegistry, Call, register, step}
use atlax.Protocol.Mux.Table.{relay}
use atlax.Protocol.Mux.Session.{MuxSession, MuxConfig, new_mux_session}
use atlax.Relay.Store.{is_empty}

pub record Identity : Type 0 where
  pub customer_id : Bytes
  pub relay_id : Bytes

-- `strings.HasPrefix`, the prefix second
abbrev pub has_prefix : Bytes → Bytes → Bool
has_prefix s [] = true
has_prefix [] (p ∷ ps) = false
has_prefix (b ∷ s) (p ∷ ps) = (b == p) && has_prefix s ps

-- "customer-"
abbrev pub customer_prefix : Bytes
customer_prefix = 99 ∷ 117 ∷ 115 ∷ 116 ∷ 111 ∷ 109 ∷ 101 ∷ 114 ∷ 45 ∷ []

-- "relay"
abbrev pub relay_prefix : Bytes
relay_prefix = 114 ∷ 101 ∷ 108 ∷ 97 ∷ 121 ∷ []

-- `none` is an error: no certificate, or a name of another form.
unfoldable pub identity_of : Bytes → Option Identity
identity_of cn =
    if has_prefix cn customer_prefix
    then some (record { customer_id = cn; relay_id = [] })
    else if has_prefix cn relay_prefix
    then some (record { customer_id = []; relay_id = cn })
    else none

unfoldable pub extract_identity : List Bytes → Option Identity
unfolding identity_of
extract_identity [] = none
extract_identity (cn ∷ chain) = identity_of cn

-- A connection as `Accept` and the handshake leave it.
pub data Peer : Type 0 where
  not_tls handshake_failed : Peer
  verified : List Bytes → Peer

pub data AuditEvent : Type 0 where
  auth_failure : AuditEvent
  auth_success agent_connected : Bytes → AuditEvent

-- The registry, the sessions by connection, the connections closed and the audit, the latest first.
pub record AgentListener : Type 0 where
  pub registry : MemoryRegistry
  pub muxes : ℕ → Option MuxSession
  pub closed : List ℕ
  pub audits : List AuditEvent
  pub max_streams_per_agent : ℕ

abbrev pub close_conn : AgentListener → ℕ → AgentListener
close_conn l conn = record l { closed = conn ∷ l.closed }

abbrev pub emit : AgentListener → AuditEvent → AgentListener
emit l e = record l { audits = e ∷ l.audits }

abbrev pub mux_config : ℕ → MuxConfig
mux_config n = record {
  max_concurrent_streams = n;
  initial_stream_window = pos 262144;
  connection_window = pos 1048576;
}

-- The connection of a customer: its session is made, and it is registered, which cannot fail.
unfoldable pub register_agent : AgentListener → ℕ → Bytes → AgentListener
register_agent l conn customer_id =
    emit
      (record (emit l (auth_success customer_id)) {
        muxes = λ c.
            if c == conn
            then some (new_mux_session relay (mux_config l.max_streams_per_agent))
            else l.muxes c;
        registry = register l.registry customer_id conn;
      })
      (agent_connected customer_id)

unfoldable pub handle_identity : AgentListener → ℕ → Option Identity → AgentListener
unfolding register_agent
handle_identity l conn none = close_conn (emit l auth_failure) conn
handle_identity l conn (some identity) =
    if is_empty identity.customer_id
    then close_conn l conn
    else register_agent l conn identity.customer_id

unfoldable pub handle_connection : AgentListener → ℕ → Peer → AgentListener
unfolding handle_identity extract_identity
handle_connection l conn not_tls = close_conn l conn
handle_connection l conn handshake_failed = close_conn (emit l auth_failure) conn
handle_connection l conn (verified chain) = handle_identity l conn (extract_identity chain)

-- What reaches the registry while the relay runs: agents, and the calls of others.
pub data Event : Type 0 where
  connects : ℕ → Peer → Event
  unregisters : Bytes → Event
  heartbeats : Bytes → Event

unfoldable pub on_event : AgentListener → Event → AgentListener
unfolding handle_connection
on_event l (connects conn peer) = handle_connection l conn peer
on_event l (unregisters c) = record l { registry = step l.registry (Call.unregisters c) }
on_event l (heartbeats c) = record l { registry = step l.registry (Call.heartbeats c) }

unfoldable pub on_events : AgentListener → List Event → AgentListener
unfolding on_event
on_events l [] = l
on_events l (e ∷ es) = on_events (on_event l e) es
