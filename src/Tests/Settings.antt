-- ===== src/Tests/Settings.antt =====
-- Configuration files and the agent's services: pkg/config and pkg/agent.
use atlax.Base.{ℕ, ◌≡◌, ◌↔◌, ◌⊎◌, Bytes, [], ◌∷◌, none, some, bytes_eq_inst, int_eq}
use atlax.Base.Int.{pos}
use atlax.Base.Map.{Map, lookup}
use atlax.Base.Map.Count.{UniqueKeys}
use atlax.Config.{
  AgentConfig, RelayConfig, PortConfig, TlsPaths, CustomerConfig, Variable, tls_cert_var,
  validate_agent_config, build_port_index, index,
}
use atlax.Config.Checks.{IsCompleteAgent, validate_agent_config-IsCompleteAgent}
use atlax.Config.Ports.{listed, build_port_index-listed}
use atlax.Agent.{resolve_target}
use atlax.Agent.Targets.{resolve_target-listed}

abbrev files : TlsPaths
files = record { cert_file = 1 ∷ []; key_file = 2 ∷ []; ca_file = 3 ∷ []; client_ca_file = 4 ∷ [] }

abbrev laptop : AgentConfig
laptop = record { relay_addr = []; tls = files; logging_level = [] }

validate_agent_config-IsCompleteAgent_example :
    (validate_agent_config laptop ≡ none) ↔ IsCompleteAgent laptop
validate_agent_config-IsCompleteAgent_example = validate_agent_config-IsCompleteAgent laptop

abbrev port_80 : PortConfig
port_80 = record { port = pos 80; service = 119 ∷ []; description = []; listen_addr = [] }

abbrev customer : CustomerConfig ℕ
customer = record {
  id = 97 ∷ [];
  ports = port_80 ∷ [];
  max_connections = pos 1;
  max_streams = pos 5;
  max_bandwidth_mbps = pos 0;
  rate_limit = 7;
}

abbrev server : RelayConfig ℕ
server = record {
  listen_addr = 1 ∷ [];
  agent_listen_addr = [];
  tls = files;
  customers = customer ∷ [];
  logging_level = [];
}

abbrev only_cert : Variable → Bytes
only_cert tls_cert_var = 9 ∷ []
only_cert _ = []

build_port_index-listed_example :
    (build_port_index (customer ∷ customer ∷ []) ≡ index (listed (customer ∷ customer ∷ []))) ↔ (
      (listed (customer ∷ customer ∷ []) ≡ listed (customer ∷ customer ∷ []))
      × UniqueKeys (listed (customer ∷ customer ∷ [])))
build_port_index-listed_example =
    build_port_index-listed (customer ∷ customer ∷ []) (listed (customer ∷ customer ∷ []))

abbrev services : Map Bytes Bytes
services = (119 ∷ [], 1 ∷ []) ∷ (115 ∷ [], 2 ∷ []) ∷ []

resolve_target-listed_example :
    (resolve_target services (115 ∷ []) ≡ [])
    ⊎ (lookup (115 ∷ []) services ≡ some (resolve_target services (115 ∷ [])))
    ⊎ ((name : Bytes) × (services ≡ (name, resolve_target services (115 ∷ [])) ∷ []))
resolve_target-listed_example = resolve_target-listed services (115 ∷ [])
