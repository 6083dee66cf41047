-- ===== src/Auth.antt =====
-- pkg/auth/certs_impl.go and mtls.go: the certificate that handshakes get, and its rotation.
-- The file system is a function from a path to the bytes there, at the time of a read; `crypto/sha256`,
-- `crypto/tls`, `crypto/x509` and `encoding/pem` are parameters.
pub mod Rotation
pub mod Chain
use atlax.Base.{
  ℕ, zero, suc, Bytes, bytes_eq, Bool, true, false, List, [], ◌∷◌, Option, none, some, ◌==◌, length,
  if◌then◌else◌,
}

abbrev pub Files : Type 0
Files = Bytes → Option Bytes

-- `sha256.Sum256` in hex, `tls.LoadX509KeyPair` and `x509.CertPool` from PEM, the last two failing with
-- `none`.
pub record CryptoLibrary (Cert Pool : Type 0) : Type 0 where
  pub sha256_hex : Bytes → Bytes
  pub load_x509_key_pair : Files → Bytes → Bytes → Option Cert
  pub pool_from_pem : Bytes → Option Pool

pub record TlsPaths : Type 0 where
  pub cert_file : Bytes
  pub key_file : Bytes
  pub ca_file : Bytes
  pub client_ca_file : Bytes

pub data AuthError : Type 0 where
  load_certificate_error load_ca_error : AuthError

-- The pointer that the callbacks of the `tls.Config` read.
pub record Configurator (Cert : Type 0) : Type 0 where
  pub current_cert : Option Cert

-- What `WatchForRotation` keeps, beside the configurator that its callback reloads.
pub record Watcher (Cert : Type 0) : Type 0 where
  pub last_fingerprint : Bytes
  pub configurator : Configurator Cert

module _ {Cert Pool : Type 0} (lib : CryptoLibrary Cert Pool) where
  unfoldable pub load_certificate : Files → Bytes → Bytes → Option Cert
  load_certificate files cert_path key_path = lib.load_x509_key_pair files cert_path key_path

  pem_pool : Option Bytes → Option Pool
  pem_pool none = none
  pem_pool (some pem) = lib.pool_from_pem pem

  unfoldable pub load_certificate_authority : Files → Bytes → Option Pool
  unfolding pem_pool
  load_certificate_authority files path = pem_pool (files path)

  unfoldable pub reload : Configurator Cert → Cert → Configurator Cert
  reload c cert = record { current_cert = some cert }

  -- `ServerTLSConfig` and `ClientTLSConfig` differ in the file of the authorities. The certificate is
  -- in place even if these cannot be loaded.
  with_authorities : Configurator Cert → Option Pool → (Option AuthError) × Configurator Cert
  with_authorities c none = (some load_ca_error, c)
  with_authorities c (some pool) = (none, c)

  with_certificate :
      Configurator Cert → Files → Bytes → Option Cert → (Option AuthError) × Configurator Cert
  unfolding with_authorities
  with_certificate c files ca none = (some load_certificate_error, c)
  with_certificate c files ca (some cert) =
      with_authorities (record { current_cert = some cert }) (load_certificate_authority files ca)

  unfoldable pub server_tls_config :
      Configurator Cert → TlsPaths → Files → (Option AuthError) × Configurator Cert
  unfolding with_certificate
  server_tls_config c paths files =
      with_certificate c files paths.client_ca_file
        (load_certificate files paths.cert_file paths.key_file)

  unfoldable pub client_tls_config :
      Configurator Cert → TlsPaths → Files → (Option AuthError) × Configurator Cert
  unfolding with_certificate
  client_tls_config c paths files =
      with_certificate c files paths.ca_file (load_certificate files paths.cert_file paths.key_file)

  fingerprint_of : Option Bytes → Option Bytes
  fingerprint_of none = none
  fingerprint_of (some data_bytes) = some (lib.sha256_hex data_bytes)

  unfoldable pub cert_fingerprint : Files → Bytes → Option Bytes
  unfolding fingerprint_of
  cert_fingerprint files path = fingerprint_of (files path)

  -- `WatchForRotation` up to its loop; without a first fingerprint it returns.
  start_from : Configurator Cert → Option Bytes → Option (Watcher Cert)
  start_from c none = none
  start_from c (some fp) = some (record { last_fingerprint = fp; configurator = c })

  unfoldable pub start_watch : Configurator Cert → TlsPaths → Files → Option (Watcher Cert)
  unfolding start_from
  start_watch c paths files = start_from c (cert_fingerprint files paths.cert_file)

  -- A tick reads the files twice: for the fingerprint, and to load.
  rotate : Watcher Cert → Bytes → Option Cert → Watcher Cert
  rotate w fp none = w
  rotate w fp (some cert) = record {
    last_fingerprint = fp;
    configurator = reload w.configurator cert;
  }

  compare_fingerprint : Watcher Cert → TlsPaths → Files → Option Bytes → Watcher Cert
  unfolding rotate
  compare_fingerprint w paths files none = w
  compare_fingerprint w paths files (some fp) =
      if bytes_eq fp w.last_fingerprint
      then w
      else rotate w fp (load_certificate files paths.cert_file paths.key_file)

  unfoldable pub watch_tick : Watcher Cert → TlsPaths → Files → Files → Watcher Cert
  unfolding compare_fingerprint
  watch_tick w paths files files' =
      compare_fingerprint w paths files' (cert_fingerprint files paths.cert_file)

  unfoldable pub watch : Watcher Cert → TlsPaths → List (Files × Files) → Watcher Cert
  unfolding watch_tick
  watch w paths [] = w
  watch w paths ((files, files') ∷ rest) = watch (watch_tick w paths files files') paths rest

-- `pem.Decode`: the next block, if there is one, and what is left; the flag tells whether its type is
-- CERTIFICATE.
abbrev pub PemDecoder : Type 0
PemDecoder = Bytes → Option (Bool × Bytes)

pub data ChainError : Type 0 where
  unreadable no_certificates single_certificate : ChainError

-- The loop over the blocks, on fuel.
unfoldable pub count_certificates : PemDecoder → ℕ → Bytes → ℕ → Option ℕ
count_certificates decode zero rest count = none
count_certificates decode (suc fuel) rest count = elim (decode rest) [
  | none ↦ some count
  | some block ↦ count_certificates decode fuel block.1 (if block.0 then suc count else count)
]

pub data Verdict : Type 0 where
  valid : Verdict
  invalid : ChainError → Verdict
  out_of_fuel : Verdict

unfoldable pub verdict_of : Option ℕ → Verdict
verdict_of none = out_of_fuel
verdict_of (some count) =
    if count == 0
    then invalid no_certificates
    else if count == 1
    then invalid single_certificate
    else valid

validate_data : PemDecoder → Option Bytes → Verdict
unfolding count_certificates verdict_of
validate_data decode none = invalid unreadable
validate_data decode (some pem) = verdict_of (count_certificates decode (suc (length pem)) pem 0)

unfoldable pub validate_chain_cert_file : PemDecoder → Files → Bytes → Verdict
unfolding validate_data
validate_chain_cert_file decode files path = validate_data decode (files path)
