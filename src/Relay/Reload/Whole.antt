-- ===== src/Relay/Reload/Whole.antt =====
-- The whole of `Reload`: from the configuration that was read to the one that is current. The listeners of
-- the ports stand in `binds`; of `client_listener` only the limiters change here. What a limit says is a
-- parameter: whether two are equal, and whether the rate is positive.
pub mod Commit
use atlax.Base.{
  ℕ, zero, suc, Bytes, bytes_eq, bytes_eq_inst, int_eq, Bool, true, false, not, ◌&&◌, List, [], ◌∷◌,
  ◌++◌, Option, none, some, if◌then◌else◌,
}
use atlax.Base.Int.{ℤ}
use atlax.Base.Map.{Map, lookup, insert}
use atlax.Config.{
  TlsPaths, CustomerConfig, RelayConfig, PortIndexEntry, Built, index, assigned_twice,
  build_port_index,
}
use atlax.Relay.Router.{PortRouter, list_ports}
use atlax.Relay.Listeners.{ClientListener, set_rate_limiter}
use atlax.Relay.Store.{File, SidecarData, save_current_state}
use atlax.Relay.Reload.{ReloadSummary, index_ports, apply_reload}

pub data RestartField : Type 0 where
  server_agent_listen_addr server_listen_addr tls_ca_file tls_cert_file : RestartField
  tls_client_ca_file tls_key_file : RestartField

abbrev pub if_differ : Bytes → Bytes → RestartField → List RestartField → List RestartField
if_differ a b field rest = if bytes_eq a b then rest else field ∷ rest

module _ {R : Type 0} where
  -- `diffRestartRequired`, its result sorted by the fields' names.
  abbrev pub differing : RelayConfig R → RelayConfig R → List RestartField
  differing old new =
      if_differ old.agent_listen_addr new.agent_listen_addr server_agent_listen_addr (
        if_differ old.listen_addr new.listen_addr server_listen_addr (
          if_differ old.tls.ca_file new.tls.ca_file tls_ca_file (
            if_differ old.tls.cert_file new.tls.cert_file tls_cert_file (
              if_differ old.tls.client_ca_file new.tls.client_ca_file tls_client_ca_file
                (if_differ old.tls.key_file new.tls.key_file tls_key_file [])))))

  unfoldable pub diff_restart_required : Option (RelayConfig R) → RelayConfig R → List RestartField
  diff_restart_required none new = []
  diff_restart_required (some old) new = differing old new

  -- `rateLimits`
  unfoldable pub limits_of : Map Bytes R → List (CustomerConfig R) → Map Bytes R
  limits_of out [] = out
  limits_of out (c ∷ cs) = limits_of (insert c.id c.rate_limit out) cs

  unfoldable pub rate_limits : Option (RelayConfig R) → Map Bytes R
  unfolding limits_of
  rate_limits none = []
  rate_limits (some cfg) = limits_of [] cfg.customers

-- The admin server as a reload sees it; `current` is currentCfg, and the flag tells of a config path.
pub record Reloadable (R : Type 0) : Type 0 where
  pub router : PortRouter
  pub client_listener : ClientListener
  pub store : Option File
  pub current : Option (RelayConfig R)
  pub has_config_path : Bool

pub record Applied : Type 0 where
  pub ports : ReloadSummary
  pub rate_limits_changed : ℕ
  pub restart_required : List RestartField

module _ {R : Type 0} (rate_limit_equal : R → R → Bool) (is_positive : R → Bool)
    (marshal : SidecarData → Bytes) where
  abbrev pub is_unchanged : Option R → R → Bool
  is_unchanged none new = false
  is_unchanged (some old) new = rate_limit_equal old new

  -- One customer of `applyRateLimitChanges`, with the number of limiters set so far.
  unfoldable pub apply_rate_limit : ClientListener × ℕ → Bytes → Option R → R → ClientListener × ℕ
  apply_rate_limit (cl, changed) customer_id old new =
      if not (is_unchanged old new) && is_positive new
      then (set_rate_limiter cl customer_id true, suc changed)
      else (cl, changed)

  unfoldable pub apply_rate_limits :
      ClientListener × ℕ → Map Bytes R → Map Bytes R → ClientListener × ℕ
  unfolding apply_rate_limit
  apply_rate_limits acc old [] = acc
  apply_rate_limits acc old ((customer_id, new) ∷ rest) =
      apply_rate_limits (apply_rate_limit acc customer_id (lookup customer_id old) new) old rest

  abbrev pub saved : Option File → Bool → PortRouter → Option File
  saved none saves r = none
  saved (some f) saves r = some (save_current_state marshal saves f (list_ports r))

  -- The new configuration, once its ports have been checked.
  unfoldable pub reload_checked :
      (ℤ → Bool) → Bool → Reloadable R → RelayConfig R → Built R → Reloadable R × Option Applied
  unfolding apply_rate_limits
  reload_checked binds saves s cfg (assigned_twice p a b) = (s, none)
  reload_checked binds saves s cfg (index m) =
      let a = apply_reload binds s.router (index_ports s.current) (index_ports (some cfg)) in
      let l =
        apply_rate_limits (s.client_listener, 0) (rate_limits s.current) (rate_limits (some cfg)) in
      (
        record s {
          router = a.router;
          client_listener = l.0;
          current = some cfg;
          store = saved s.store saves a.router;
        },
        some (record {
          ports = a.summary;
          rate_limits_changed = l.1;
          restart_required = diff_restart_required s.current cfg;
        }),
      )

  unfoldable pub reload_loaded :
      (ℤ → Bool) → Bool → Reloadable R → Option (RelayConfig R) → Reloadable R × Option Applied
  unfolding reload_checked
  reload_loaded binds saves s none = (s, none)
  reload_loaded binds saves s (some cfg) =
      reload_checked binds saves s cfg (build_port_index cfg.customers)

  -- `Reload`; the option is what `LoadRelayConfig` gives, and `none` in the result is an error.
  unfoldable pub reload :
      (ℤ → Bool) → Bool → Reloadable R → Option (RelayConfig R) → Reloadable R × Option Applied
  unfolding reload_loaded
  reload binds saves s loaded =
      if s.has_config_path then reload_loaded binds saves s loaded else (s, none)
