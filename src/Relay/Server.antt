-- ===== src/Relay/Server.antt =====
-- pkg/relay/server_impl.go: the relay's start from a port index, and its stop.
-- Of each port of the index, `bound` is the listener that `net.Listen` gives, or `none`.
pub mod Started
pub mod Stopped
use atlax.Base.{ℕ, Bytes, bytes_eq_inst, int_eq, List, [], ◌∷◌, Option, none, some}
use atlax.Base.Int.{ℤ}
use atlax.Base.Map.{Map, lookup}
use atlax.Config.{PortIndexEntry}
use atlax.Relay.Reports.{AgentInfo}
use atlax.Relay.Registry.{MemoryRegistry, effect, sent_go_away, lookup_agent, unregister}
use atlax.Relay.Router.{PortRouter, add_port_mapping}
use atlax.Relay.Listeners
use atlax.Relay.Listeners.{ClientListener, start_port, or_unchanged}

pub record Relay : Type 0 where
  pub router : PortRouter
  pub client_listener : ClientListener
  pub registry : MemoryRegistry

module _ {R : Type 0} where
  unfoldable pub add_mappings : PortRouter → Map ℤ (PortIndexEntry R) → PortRouter
  add_mappings r [] = r
  add_mappings r ((port, e) ∷ index) =
      add_mappings (add_port_mapping r e.customer_id port e.service e.listen_addr e.max_streams)
        index

  unfoldable pub start_listeners :
      (ℤ → Option ℕ) → ClientListener → Map ℤ (PortIndexEntry R) → ClientListener
  start_listeners bound cl [] = cl
  start_listeners bound cl ((port, e) ∷ index) =
      start_listeners bound (or_unchanged cl (start_port cl (bound port) port)) index

  -- `Start`, up to the loops of the listeners.
  unfoldable pub start : (ℤ → Option ℕ) → Relay → Map ℤ (PortIndexEntry R) → Relay
  unfolding add_mappings start_listeners
  start bound s index = record s {
    router = add_mappings s.router index;
    client_listener = start_listeners bound s.client_listener index;
  }

-- The customers of the entries that `ListConnectedAgents` gives.
abbrev pub customers : List AgentInfo → List Bytes
customers [] = []
customers (agent ∷ agents) = agent.customer_id ∷ customers agents

abbrev pub go_away_found : MemoryRegistry → Option ℕ → MemoryRegistry
go_away_found r none = r
go_away_found r (some conn) = effect r (sent_go_away conn)

unfoldable pub go_away_all : MemoryRegistry → List Bytes → MemoryRegistry
go_away_all r [] = r
go_away_all r (c ∷ cs) = go_away_all (go_away_found r (lookup_agent r c)) cs

unfoldable pub unregister_all : MemoryRegistry → List Bytes → MemoryRegistry
unregister_all r [] = r
unregister_all r (c ∷ cs) = unregister_all (unregister r c) cs

-- `Stop`, with what `ListConnectedAgents` gave: `s` is the relay after that, and an agent that has connected
-- in between is not in the list.
unfoldable pub stop : List AgentInfo → Relay → Relay
unfolding go_away_all unregister_all
stop agents s = record s {
  client_listener = Listeners.stop s.client_listener;
  registry = unregister_all (go_away_all s.registry (customers agents)) (customers agents);
}
