-- ===== src/Config/Checks.antt =====
-- Which configurations the loader accepts.
use atlax.Base.{ℕ, suc, ◌≡◌, ◌≢◌, ◌↔◌, refl, Bytes, List, [], ◌∷◌, Option, none, arith, All}
use atlax.Config
use atlax.Config.{
  TlsPaths, CustomerConfig, AgentConfig, RelayConfig, Variable, or_field, apply_agent_env_overrides,
  validate_agent_config, load_agent_config, Invalid, require, apply_relay_env_overrides,
  validate_customers, validate_some_customers, validate_relay_config, load_relay_config,
}

-- The fields that must be there.
abbrev pub IsCompleteAgent : AgentConfig → Type 0
IsCompleteAgent c =
    (c.relay_addr ≢ []) × (c.tls.cert_file ≢ []) × (c.tls.key_file ≢ []) × (c.tls.ca_file ≢ [])

abbrev pub IsCompleteRelay : {R : Type 0} → RelayConfig R → Type 0
IsCompleteRelay {R} c =
    (c.listen_addr ≢ [])
    × (c.tls.cert_file ≢ [])
    × (c.tls.key_file ≢ [])
    × (c.tls.client_ca_file ≢ [])
    × (c.customers ≢ [])
    × All (λ (k : CustomerConfig R). k.id ≢ []) c.customers

require_iff :
    (v : Bytes) (e : Invalid) (rest : Option Invalid)
    → (require v e rest ≡ none) ↔ ((v ≢ []) × (rest ≡ none))
require_iff [] e rest = ground arith
require_iff (b ∷ v) e rest = ground arith

override_nonempty : (v field : Bytes) → field ≢ [] → or_field v field ≢ []
override_nonempty [] field n = n
override_nonempty (b ∷ v) field n = λ e. absurd (ground (arith, e))

-- The agent's configuration is accepted exactly when the four required fields are not empty.
pub validate_agent_config-IsCompleteAgent :
    (c : AgentConfig) → (validate_agent_config c ≡ none) ↔ IsCompleteAgent c
unfolding validate_agent_config
validate_agent_config-IsCompleteAgent c =
    let d = require_iff c.tls.ca_file Config.no_ca_file none in
    let k =
      require_iff c.tls.key_file Config.no_key_file
        (require c.tls.ca_file Config.no_ca_file none) in
    let f = require_iff c.tls.cert_file Config.no_cert_file _ in
    let a = require_iff c.relay_addr Config.no_relay_addr _ in
    (
      λ e.
          let (a1, e1) = a.0 e in
          let (f1, e2) = f.0 e1 in let (k1, e3) = k.0 e2 in (a1, f1, k1, (d.0 e3).0),
      λ (a1, f1, k1, d1). a.1 (a1, f.1 (f1, k.1 (k1, d.1 (d1, refl)))),
    )

module _ {R : Type 0} where
  customers_iff :
      (i : ℕ) (cs : List (CustomerConfig R))
      → (validate_customers i cs ≡ none) ↔ All (λ (k : CustomerConfig R). k.id ≢ []) cs
  unfolding validate_customers
  customers_iff i [] = (λ _. tt, λ _. refl)
  customers_iff i (c ∷ cs) =
      let a = require_iff c.id (Config.no_customer_id i) (validate_customers (suc i) cs) in
      let b = customers_iff (suc i) cs in
      (λ e. ((a.0 e).0, b.0 (a.0 e).1), λ (n, x). a.1 (n, b.1 x))

  some_customers_iff :
      (cs : List (CustomerConfig R))
      → (validate_some_customers cs ≡ none)
        ↔ ((cs ≢ []) × All (λ (k : CustomerConfig R). k.id ≢ []) cs)
  unfolding validate_some_customers
  some_customers_iff [] = (λ e. absurd (ground (arith, e)), λ (n, _). absurd (n refl))
  some_customers_iff (c ∷ cs) =
      let b = customers_iff 0 (c ∷ cs) in
      (λ e. ((λ f. absurd (ground (arith, f))), b.0 e), λ (_, x). b.1 x)

  -- The relay's configuration is accepted exactly when the four required fields are not empty, there
  -- is a customer, and no customer's id is empty.
  pub validate_relay_config-IsCompleteRelay :
      (c : RelayConfig R) → (validate_relay_config c ≡ none) ↔ IsCompleteRelay c
  unfolding validate_relay_config
  validate_relay_config-IsCompleteRelay c =
      let l = require_iff c.listen_addr Config.no_listen_addr _ in
      let f = require_iff c.tls.cert_file Config.no_cert_file _ in
      let k = require_iff c.tls.key_file Config.no_key_file _ in
      let d =
        require_iff c.tls.client_ca_file Config.no_client_ca_file
          (validate_some_customers c.customers) in
      let s = some_customers_iff c.customers in
      (
        λ e.
            let (l1, e1) = l.0 e in
            let (f1, e2) = f.0 e1 in
            let (k1, e3) = k.0 e2 in
            let (d1, e4) = d.0 e3 in let (n, x) = s.0 e4 in (l1, f1, k1, d1, n, x),
        λ (l1, f1, k1, d1, n, x). l.1 (l1, f.1 (f1, k.1 (k1, d.1 (d1, s.1 (n, x))))),
      )

  -- The environment only ever repairs a configuration: what is accepted as it stands in the file is
  -- accepted after the overrides, whatever the environment holds.
  pub load_relay_config-accepts :
      (env : Variable → Bytes) (c : RelayConfig R)
      → validate_relay_config c ≡ none
      → (load_relay_config env c).1 ≡ none
  unfolding load_relay_config apply_relay_env_overrides
  load_relay_config-accepts env c e =
      let (l, f, k, d, n, x) = (validate_relay_config-IsCompleteRelay c).0 e in
      (validate_relay_config-IsCompleteRelay (apply_relay_env_overrides env c)).1 (
        override_nonempty _ c.listen_addr l,
        override_nonempty _ c.tls.cert_file f,
        override_nonempty _ c.tls.key_file k,
        override_nonempty _ c.tls.client_ca_file d,
        n,
        x,
      )
