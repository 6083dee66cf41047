-- ===== src/Relay/Reload/Whole/Commit.antt =====
-- What a reload leaves, whether it is applied or refused.
use atlax.Base.{
  ◌≡◌, ◌⊎◌, refl, ap, ◌∙◌, inl, inr, Bytes, int_eq, bytes_eq_inst, Bool, List, [], ◌∷◌, Option,
  none, some, if_cases,
}
use atlax.Base.Int.{ℤ}
use atlax.Base.Map.{Map, lookup, insert}
use atlax.Base.Map.Count.{UniqueKeys, insert-UniqueKeys}
use atlax.Config.{
  PortConfig, CustomerConfig, RelayConfig, PortIndexEntry, Built, index, assigned_twice, entry_of,
  build_port_index,
}
use atlax.Relay.Router.{get_port}
use atlax.Relay.Store.{SidecarData}
use atlax.Relay.Reload.{index_ports_of, index_customers, index_ports, apply_reload}
use atlax.Relay.Reload.Index.{index_ports-build_port_index}
use atlax.Relay.Reload.OnePort.{applied}
use atlax.Relay.Reload.PerPort.{apply_reload-applied}
use atlax.Relay.Reload.Whole.{Reloadable, Applied, reload_checked, reload_loaded, reload}

module _ {R : Type 0} where
  index_ports_of-UniqueKeys :
      (out : Map ℤ (PortIndexEntry R)) (c : CustomerConfig R) (ps : List PortConfig)
      → UniqueKeys out
      → UniqueKeys (index_ports_of out c ps)
  unfolding index_ports_of
  index_ports_of-UniqueKeys out c [] u = u
  index_ports_of-UniqueKeys out c (p ∷ ps) u =
      index_ports_of-UniqueKeys (insert p.port (entry_of c p) out) c ps
        (insert-UniqueKeys p.port (entry_of c p) out u)

  index_customers-UniqueKeys :
      (out : Map ℤ (PortIndexEntry R)) (cs : List (CustomerConfig R))
      → UniqueKeys out
      → UniqueKeys (index_customers out cs)
  unfolding index_customers
  index_customers-UniqueKeys out [] u = u
  index_customers-UniqueKeys out (c ∷ cs) u =
      index_customers-UniqueKeys (index_ports_of out c c.ports) cs
        (index_ports_of-UniqueKeys out c c.ports u)

  index_ports-UniqueKeys : (cfg : Option (RelayConfig R)) → UniqueKeys (index_ports cfg)
  unfolding index_ports
  index_ports-UniqueKeys none = tt
  index_ports-UniqueKeys (some cfg) = index_customers-UniqueKeys [] cfg.customers tt

  -- The reload is refused: nothing changes.
  abbrev pub Refused : Reloadable R → Reloadable R × Option Applied → Type 0
  Refused s (s', result) = (s' ≡ s) × (result ≡ none)

  -- It is applied: the new configuration lists no port twice and is current, and each port is what `applied`
  -- says of it, from what the index of the old configuration and that of the new one have for it.
  abbrev pub Committed :
      (ℤ → Bool) → Reloadable R → Option (RelayConfig R) → Reloadable R × Option Applied → Type 0
  Committed binds s loaded (s', result) =
      (cfg : RelayConfig R) × (m : Map ℤ (PortIndexEntry R)) × (loaded ≡ some cfg)
      × (build_port_index cfg.customers ≡ index m)
      × (s'.current ≡ some cfg)
      × ((p : ℤ)
          → get_port s'.router p
            ≡ applied (binds p) (lookup p (index_ports s.current)) (lookup p m)
                (get_port s.router p))

committed_port :
    {R : Type 0} (binds : ℤ → Bool) (s : Reloadable R) (cfg : RelayConfig R)
    (m : Map ℤ (PortIndexEntry R)) (p : ℤ)
    → build_port_index cfg.customers ≡ index m
    → get_port
        (apply_reload binds s.router (index_ports s.current) (index_ports (some cfg))).router
        p
      ≡ applied (binds p) (lookup p (index_ports s.current)) (lookup p m) (get_port s.router p)
committed_port binds s cfg m p e =
    let old = index_ports s.current in
    apply_reload-applied binds s.router old (index_ports (some cfg)) p
      (index_ports-UniqueKeys s.current) (index_ports-UniqueKeys (some cfg))
    ∙ ap (λ new. applied (binds p) (lookup p old) (lookup p new) (get_port s.router p))
        (index_ports-build_port_index cfg m e)

module _ {R : Type 0} (rate_limit_equal : R → R → Bool) (is_positive : R → Bool)
    (marshal : SidecarData → Bytes) where
  checked-Committed :
      (binds : ℤ → Bool) (saves : Bool) (s : Reloadable R) (cfg : RelayConfig R) (b : Built R)
      → build_port_index cfg.customers ≡ b
      → Refused s (reload_checked rate_limit_equal is_positive marshal binds saves s cfg b)
        ⊎ Committed binds s
            (some cfg)
            (reload_checked rate_limit_equal is_positive marshal binds saves s cfg b)
  unfolding reload_checked
  checked-Committed binds saves s cfg (assigned_twice p a c) e = inl (refl, refl)
  checked-Committed binds saves s cfg (index m) e =
      inr (cfg, m, refl, e, refl, λ p. committed_port binds s cfg m p e)

  loaded-Committed :
      (binds : ℤ → Bool) (saves : Bool) (s : Reloadable R) (loaded : Option (RelayConfig R))
      → Refused s (reload_loaded rate_limit_equal is_positive marshal binds saves s loaded)
        ⊎ Committed binds s loaded
            (reload_loaded rate_limit_equal is_positive marshal binds saves s loaded)
  unfolding reload_loaded
  loaded-Committed binds saves s none = inl (refl, refl)
  loaded-Committed binds saves s (some cfg) =
      checked-Committed binds saves s cfg (build_port_index cfg.customers) refl

  pub reload-cases :
      (binds : ℤ → Bool) (saves : Bool) (s : Reloadable R) (loaded : Option (RelayConfig R))
      → Refused s (reload rate_limit_equal is_positive marshal binds saves s loaded)
        ⊎ Committed binds s loaded
            (reload rate_limit_equal is_positive marshal binds saves s loaded)
  unfolding reload
  reload-cases binds saves s loaded =
      if_cases (λ x. Refused s x ⊎ Committed binds s loaded x) s.has_config_path
        (reload_loaded rate_limit_equal is_positive marshal binds saves s loaded) (s, none)
        (loaded-Committed binds saves s loaded) (inl (refl, refl))
