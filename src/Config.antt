-- ===== src/Config.antt =====
-- pkg/config/loader.go: the configuration of relay and agent after the YAML file has been read.
-- The environment is a function, "" for a variable that is not set. A rate limit is carried along as
-- it is, so its type is a parameter.
pub mod Checks
pub mod Ports
use atlax.Base.{
  ℕ, suc, Bytes, bytes_eq_inst, int_eq, Bool, true, false, List, [], ◌∷◌, ◌++◌, Option, none, some,
  if◌then◌else◌, map,
}
use atlax.Base.Int.{ℤ}
use atlax.Base.Map.{Map, lookup, insert}

pub record TlsPaths : Type 0 where
  pub cert_file : Bytes
  pub key_file : Bytes
  pub ca_file : Bytes
  pub client_ca_file : Bytes

pub record PortConfig : Type 0 where
  pub port : ℤ
  pub service : Bytes
  pub description : Bytes
  pub listen_addr : Bytes

pub record CustomerConfig (RateLimit : Type 0) : Type 0 where
  pub id : Bytes
  pub ports : List PortConfig
  pub max_connections : ℤ
  pub max_streams : ℤ
  pub max_bandwidth_mbps : ℤ
  pub rate_limit : RateLimit

-- The fields of the two configurations that the loader reads or changes.
pub record AgentConfig : Type 0 where
  pub relay_addr : Bytes
  pub tls : TlsPaths
  pub logging_level : Bytes

pub record RelayConfig (RateLimit : Type 0) : Type 0 where
  pub listen_addr : Bytes
  pub agent_listen_addr : Bytes
  pub tls : TlsPaths
  pub customers : List (CustomerConfig RateLimit)
  pub logging_level : Bytes

-- The environment variables that the loader reads.
pub data Variable : Type 0 where
  relay_addr_var listen_addr_var agent_listen_addr_var tls_cert_var tls_key_var : Variable
  tls_ca_var tls_client_ca_var log_level_var : Variable

-- `if v := os.Getenv(name); v != "" { field = v }`
abbrev pub or_field : Bytes → Bytes → Bytes
or_field [] field = field
or_field (b ∷ v) field = b ∷ v

unfoldable pub apply_agent_env_overrides : (Variable → Bytes) → AgentConfig → AgentConfig
apply_agent_env_overrides env cfg = record {
  relay_addr = or_field (env relay_addr_var) cfg.relay_addr;
  tls = record cfg.tls {
    cert_file = or_field (env tls_cert_var) cfg.tls.cert_file;
    key_file = or_field (env tls_key_var) cfg.tls.key_file;
    ca_file = or_field (env tls_ca_var) cfg.tls.ca_file;
  };
  logging_level = or_field (env log_level_var) cfg.logging_level;
}

-- The field that is missing.
pub data Invalid : Type 0 where
  no_relay_addr no_cert_file no_key_file no_ca_file no_listen_addr no_client_ca_file : Invalid
  no_customers : Invalid
  no_customer_id : ℕ → Invalid

-- A check followed by the remaining ones.
abbrev pub require : Bytes → Invalid → Option Invalid → Option Invalid
require [] e rest = some e
require (b ∷ v) e rest = rest

unfoldable pub validate_agent_config : AgentConfig → Option Invalid
validate_agent_config cfg = require cfg.relay_addr no_relay_addr (
    require cfg.tls.cert_file no_cert_file
      (require cfg.tls.key_file no_key_file (require cfg.tls.ca_file no_ca_file none)))

-- `LoadAgentConfig` after the file has been parsed.
unfoldable pub load_agent_config : (Variable → Bytes) → AgentConfig → AgentConfig × Option Invalid
load_agent_config env cfg =
    let cfg' = apply_agent_env_overrides env cfg in (cfg', validate_agent_config cfg')

module _ {RateLimit : Type 0} where
  unfoldable pub apply_relay_env_overrides :
      (Variable → Bytes) → RelayConfig RateLimit → RelayConfig RateLimit
  apply_relay_env_overrides env cfg = record cfg {
    listen_addr = or_field (env listen_addr_var) cfg.listen_addr;
    agent_listen_addr = or_field (env agent_listen_addr_var) cfg.agent_listen_addr;
    tls = record {
      cert_file = or_field (env tls_cert_var) cfg.tls.cert_file;
      key_file = or_field (env tls_key_var) cfg.tls.key_file;
      ca_file = or_field (env tls_ca_var) cfg.tls.ca_file;
      client_ca_file = or_field (env tls_client_ca_var) cfg.tls.client_ca_file;
    };
    logging_level = or_field (env log_level_var) cfg.logging_level;
  }

  -- The loop over the customers, `i` counting them.
  unfoldable pub validate_customers : ℕ → List (CustomerConfig RateLimit) → Option Invalid
  validate_customers i [] = none
  validate_customers i (c ∷ cs) = require c.id (no_customer_id i) (validate_customers (suc i) cs)

  unfoldable pub validate_some_customers : List (CustomerConfig RateLimit) → Option Invalid
  unfolding validate_customers
  validate_some_customers [] = some no_customers
  validate_some_customers (c ∷ cs) = validate_customers 0 (c ∷ cs)

  unfoldable pub validate_relay_config : RelayConfig RateLimit → Option Invalid
  unfolding validate_some_customers
  validate_relay_config cfg = require cfg.listen_addr no_listen_addr (
      require cfg.tls.cert_file no_cert_file (
        require cfg.tls.key_file no_key_file (
          require cfg.tls.client_ca_file no_client_ca_file
            (validate_some_customers cfg.customers))))

  unfoldable pub load_relay_config :
      (Variable → Bytes) → RelayConfig RateLimit → RelayConfig RateLimit × Option Invalid
  load_relay_config env cfg =
      let cfg' = apply_relay_env_overrides env cfg in (cfg', validate_relay_config cfg')

pub record PortIndexEntry (RateLimit : Type 0) : Type 0 where
  pub customer_id : Bytes
  pub service : Bytes
  pub max_streams : ℤ
  pub listen_addr : Bytes
  pub rate_limit : RateLimit

-- "0.0.0.0"
abbrev pub all_interfaces : Bytes
all_interfaces = 48 ∷ 46 ∷ 48 ∷ 46 ∷ 48 ∷ 46 ∷ 48 ∷ []

-- `BuildPortIndex`; the error names the port and the two customers.
pub data Built (RateLimit : Type 0) : Type 0 where
  index : Map ℤ (PortIndexEntry RateLimit) → Built RateLimit
  assigned_twice : ℤ → Bytes → Bytes → Built RateLimit

module _ {RateLimit : Type 0} where
  abbrev pub entry_of : CustomerConfig RateLimit → PortConfig → PortIndexEntry RateLimit
  entry_of c p = record {
    customer_id = c.id;
    service = p.service;
    max_streams = c.max_streams;
    listen_addr = or_field p.listen_addr all_interfaces;
    rate_limit = c.rate_limit;
  }

  abbrev pub bind_built :
      Built RateLimit → (Map ℤ (PortIndexEntry RateLimit) → Built RateLimit) → Built RateLimit
  bind_built (index m) k = k m
  bind_built (assigned_twice p a b) k = assigned_twice p a b

  -- One port; `existing` is what the index holds for it.
  unfoldable pub add_port :
      Map ℤ (PortIndexEntry RateLimit)
      → CustomerConfig RateLimit
      → PortConfig
      → Option (PortIndexEntry RateLimit)
      → Built RateLimit
  add_port m c p (some existing) = assigned_twice p.port existing.customer_id c.id
  add_port m c p none = index (insert p.port (entry_of c p) m)

  unfoldable pub add_ports :
      Map ℤ (PortIndexEntry RateLimit)
      → CustomerConfig RateLimit
      → List PortConfig
      → Built RateLimit
  unfolding add_port
  add_ports m c [] = index m
  add_ports m c (p ∷ ps) = bind_built (add_port m c p (lookup p.port m)) (λ m'. add_ports m' c ps)

  unfoldable pub add_customers :
      Map ℤ (PortIndexEntry RateLimit) → List (CustomerConfig RateLimit) → Built RateLimit
  unfolding add_ports
  add_customers m [] = index m
  add_customers m (c ∷ cs) = bind_built (add_ports m c c.ports) (λ m'. add_customers m' cs)

  unfoldable pub build_port_index : List (CustomerConfig RateLimit) → Built RateLimit
  unfolding add_customers
  build_port_index customers = add_customers [] customers
