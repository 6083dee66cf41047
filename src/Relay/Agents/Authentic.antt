-- ===== src/Relay/Agents/Authentic.antt =====
-- Who can be registered under the name of a customer.
use atlax.Base.{
  ◌≡◌, inl, inr, refl, sym, ◌∙◌, ℕ, Bytes, bytes_eq, bytes_eq_inst, Bool, true, false, ◌&&◌, ◌||◌,
  ◌==◌, ==_iff, List, [], ◌∷◌, none, some, if◌then◌else◌, arith, Bool-cases,
}
use atlax.Relay.Registry.{MemoryRegistry, Call, register, lookup_agent, step, run}
use atlax.Relay.Registry.Runs.{run-serving}
use atlax.Relay.Agents.{
  has_prefix, customer_prefix, relay_prefix, identity_of, extract_identity, Peer, not_tls,
  handshake_failed, verified, AgentListener, register_agent, handle_identity, handle_connection,
  Event, connects, unregisters, heartbeats, on_event, on_events,
}

-- The handshake verified a certificate whose common name is the customer's id.
abbrev pub presents : Bytes → Peer → Bool
presents c not_tls = false
presents c handshake_failed = false
presents c (verified []) = false
presents c (verified (cn ∷ chain)) = has_prefix cn customer_prefix && bytes_eq cn c

-- Some event is that connection with such a certificate.
abbrev pub shown : Bytes → ℕ → List Event → Bool
shown c conn [] = false
shown c conn (connects k peer ∷ es) = ((k == conn) && presents c peer) || shown c conn es
shown c conn (unregisters d ∷ es) = shown c conn es
shown c conn (heartbeats d ∷ es) = shown c conn es

register-lookup :
    (r : MemoryRegistry) (c d : Bytes) (conn : ℕ)
    → lookup_agent (register r d conn) c ≡ (if bytes_eq d c then some conn else lookup_agent r c)
unfolding run step
register-lookup r c d conn = run-serving r c (Call.registers d conn ∷ [])

handle_connection-lookup :
    (l : AgentListener) (conn : ℕ) (peer : Peer) (c : Bytes)
    → lookup_agent (handle_connection l conn peer).registry c
      ≡ (if presents c peer then some conn else lookup_agent l.registry c)
unfolding handle_connection handle_identity extract_identity register_agent identity_of
handle_connection-lookup l conn not_tls c = refl
handle_connection-lookup l conn handshake_failed c = refl
handle_connection-lookup l conn (verified []) c = refl
handle_connection-lookup l conn (verified ([] ∷ chain)) c = refl
handle_connection-lookup l conn (verified ((b ∷ cn) ∷ chain)) c =
    elim (Bool-cases (has_prefix (b ∷ cn) customer_prefix)) [
      | inl y ↦ rw y (register-lookup l.registry c (b ∷ cn) conn)
      | inr y ↦ elim (Bool-cases (has_prefix (b ∷ cn) relay_prefix)) [
        | inl z ↦ rw (y, z) refl
        | inr z ↦ rw (y, z) refl
      ]
    ]

shown_later :
    (c : Bytes) (conn : ℕ) (e : Event) (es : List Event)
    → shown c conn es ≡ true
    → shown c conn (e ∷ es) ≡ true
shown_later c conn (connects k peer) es h = ground (arith, h)
shown_later c conn (unregisters d) es h = h
shown_later c conn (heartbeats d) es h = h

shown_now :
    (c : Bytes) (conn : ℕ) (e : Event) (es : List Event)
    → shown c conn (e ∷ []) ≡ true
    → shown c conn (e ∷ es) ≡ true
shown_now c conn (connects k peer) es h = ground (arith, h)
shown_now c conn (unregisters d) es h = absurd (ground (arith, h))
shown_now c conn (heartbeats d) es h = absurd (ground (arith, h))

-- What holds of the connections in the registry, and of those that present themselves, holds ever after.
module _ (Good : Bytes → ℕ → Type 0) where
  abbrev AllGood : AgentListener → Type 0
  AllGood l = (c : Bytes) (conn : ℕ) → lookup_agent l.registry c ≡ some conn → Good c conn

  on_event-AllGood :
      (l : AgentListener) (e : Event)
      → ((c : Bytes) (conn : ℕ) → shown c conn (e ∷ []) ≡ true → Good c conn)
      → AllGood l
      → AllGood (on_event l e)
  unfolding on_event run
  on_event-AllGood l (connects k peer) s g c conn h = elim (Bool-cases (presents c peer)) [
    | inl y ↦
        let e : k ≡ conn = ground (arith, h, handle_connection-lookup l k peer c, y) in
        s c conn (ground (arith, y, (==_iff k conn).1 e))
    | inr y ↦ g c conn (ground (arith, h, handle_connection-lookup l k peer c, y))
  ]
  on_event-AllGood l (unregisters d) s g c conn h =
      let q = run-serving l.registry c (Call.unregisters d ∷ []) in
      elim (Bool-cases (bytes_eq d c)) [
        | inl y ↦ absurd (ground (arith, h, q, y))
        | inr y ↦ g c conn (ground (arith, h, q, y))
      ]
  on_event-AllGood l (heartbeats d) s g c conn h =
      g c conn (sym (run-serving l.registry c (Call.heartbeats d ∷ [])) ∙ h)

  on_events-AllGood :
      (l : AgentListener) (es : List Event)
      → ((c : Bytes) (conn : ℕ) → shown c conn es ≡ true → Good c conn)
      → AllGood l
      → AllGood (on_events l es)
  unfolding on_events
  on_events-AllGood l [] s g = g
  on_events-AllGood l (e ∷ es) s g =
      on_events-AllGood (on_event l e) es (λ c k h. s c k (shown_later c k e es h))
        (on_event-AllGood l e (λ c k h. s c k (shown_now c k e es h)) g)

-- The agent that the registry gives for a customer, after any connections, unregistrations and heartbeats on
-- an empty registry, is a connection whose handshake verified a certificate with exactly this customer's id
-- as its common name, and that name starts with "customer-".
pub on_events-authentic :
    (l : AgentListener) (es : List Event) (c : Bytes) (conn : ℕ)
    → ((d : Bytes) → lookup_agent l.registry d ≡ none)
    → lookup_agent (on_events l es).registry c ≡ some conn
    → shown c conn es ≡ true
on_events-authentic l es c conn empty h =
    on_events-AllGood (λ d k. shown d k es ≡ true) l es (λ d k s. s)
      (λ d k g. absurd (ground (arith, empty d, g))) c conn h
