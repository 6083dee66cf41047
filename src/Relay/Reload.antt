-- ===== src/Relay/Reload.antt =====
-- pkg/relay/admin_reload.go: how a new configuration changes the port router. The rate limiters, the
-- sidecar and `Reload` itself are in Whole; `binds` tells of a port whether its listener starts.
pub mod Index
pub mod OnePort
pub mod PerPort
pub mod Tenants
pub mod Whole
use atlax.Base.{
  ℕ, suc, ◌+◌, Bytes, bytes_eq, bytes_eq_inst, int_eq, Bool, true, false, not, ◌||◌, List, [], ◌∷◌,
  ◌++◌, Option, none, some, if◌then◌else◌,
}
use atlax.Base.Int.{ℤ, eqb_ℤ}
use atlax.Base.Map.{Map, lookup, insert}
use atlax.Config.{PortConfig, CustomerConfig, RelayConfig, PortIndexEntry, entry_of}
use atlax.Relay.Router.{
  PortEntry, PortRouter, add_port_mapping, update_port_mapping, remove_port_mapping, or_same,
}

pub record ReloadSummary : Type 0 where
  pub ports_added : ℕ
  pub ports_removed : ℕ
  pub ports_updated : ℕ
  pub ports_rejected : ℕ

-- The router and the summary that a reload works on.
pub record Reloading : Type 0 where
  pub router : PortRouter
  pub summary : ReloadSummary

-- A successful call of the router, counted; a failed one changes nothing.
abbrev pub counted : Reloading → Option PortRouter → ReloadSummary → Reloading
counted a none s = a
counted a (some r) s = record { router = r; summary = s }

unfoldable pub reject_customer_change : Reloading → Reloading
reject_customer_change a = record a {
  summary = record a.summary { ports_rejected = suc a.summary.ports_rejected };
}

unfoldable pub no_changes : ReloadSummary
no_changes = record { ports_added = 0; ports_removed = 0; ports_updated = 0; ports_rejected = 0 }

module _ {R : Type 0} where
  unfoldable pub index_ports_of :
      Map ℤ (PortIndexEntry R) → CustomerConfig R → List PortConfig → Map ℤ (PortIndexEntry R)
  index_ports_of out c [] = out
  index_ports_of out c (p ∷ ps) = index_ports_of (insert p.port (entry_of c p) out) c ps

  unfoldable pub index_customers :
      Map ℤ (PortIndexEntry R) → List (CustomerConfig R) → Map ℤ (PortIndexEntry R)
  unfolding index_ports_of
  index_customers out [] = out
  index_customers out (c ∷ cs) = index_customers (index_ports_of out c c.ports) cs

  unfoldable pub index_ports : Option (RelayConfig R) → Map ℤ (PortIndexEntry R)
  unfolding index_customers
  index_ports none = []
  index_ports (some cfg) = index_customers [] cfg.customers

  abbrev pub port_mutable_fields_differ : PortIndexEntry R → PortIndexEntry R → Bool
  port_mutable_fields_differ a b =
      not (bytes_eq a.service b.service)
      || not (bytes_eq a.listen_addr b.listen_addr)
      || not (eqb_ℤ a.max_streams b.max_streams)

  -- `addPort`: the mapping is stored first, and taken back if the listener does not start.
  unfoldable pub add_port : (ℤ → Bool) → Reloading → ℤ → PortIndexEntry R → Reloading
  add_port binds a port e =
      let r = add_port_mapping a.router e.customer_id port e.service e.listen_addr e.max_streams in
      if binds port
      then record {
        router = r;
        summary = record a.summary { ports_added = suc a.summary.ports_added };
      }
      else record a { router = or_same r (remove_port_mapping r e.customer_id port) }

  unfoldable pub remove_port : Reloading → ℤ → PortIndexEntry R → Reloading
  remove_port a port e =
      counted a (remove_port_mapping a.router e.customer_id port)
        (record a.summary { ports_removed = suc a.summary.ports_removed })

  unfoldable pub update_port_reload : Reloading → ℤ → PortIndexEntry R → Reloading
  update_port_reload a port e =
      counted a (update_port_mapping a.router port e.service e.listen_addr e.max_streams)
        (record a.summary { ports_updated = suc a.summary.ports_updated })

  -- The `switch` on one port of the new configuration; the option is what the old one has for it.
  unfoldable pub apply_port :
      (ℤ → Bool) → Reloading → ℤ → PortIndexEntry R → Option (PortIndexEntry R) → Reloading
  unfolding add_port update_port_reload reject_customer_change
  apply_port binds a port new none = add_port binds a port new
  apply_port binds a port new (some old) =
      if not (bytes_eq old.customer_id new.customer_id)
      then reject_customer_change a
      else if port_mutable_fields_differ old new
      then update_port_reload a port new
      else a

  -- The loop over the new configuration, and the one over the old.
  unfoldable pub apply_ports :
      (ℤ → Bool) → Map ℤ (PortIndexEntry R) → Reloading → Map ℤ (PortIndexEntry R) → Reloading
  unfolding apply_port
  apply_ports binds old a [] = a
  apply_ports binds old a ((port, new) ∷ rest) =
      apply_ports binds old (apply_port binds a port new (lookup port old)) rest

  unfoldable pub remove_gone :
      Reloading → ℤ → PortIndexEntry R → Option (PortIndexEntry R) → Reloading
  unfolding remove_port
  remove_gone a port old (some new) = a
  remove_gone a port old none = remove_port a port old

  unfoldable pub remove_ports :
      Map ℤ (PortIndexEntry R) → Reloading → Map ℤ (PortIndexEntry R) → Reloading
  unfolding remove_gone
  remove_ports new a [] = a
  remove_ports new a ((port, old) ∷ rest) =
      remove_ports new (remove_gone a port old (lookup port new)) rest

  -- The ports' part of `applyReload`.
  unfoldable pub apply_reload :
      (ℤ → Bool) → PortRouter → Map ℤ (PortIndexEntry R) → Map ℤ (PortIndexEntry R) → Reloading
  unfolding apply_ports remove_ports no_changes
  apply_reload binds r old new =
      remove_ports new (apply_ports binds old (record { router = r; summary = no_changes }) new) old
