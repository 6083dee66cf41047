-- ===== src/Tests/Certificates.antt =====
-- Certificates: pkg/auth/certs_impl.go.
use mathlib.Core.Option.{some-injective}
use atlax.Base.{
  ℕ, ◌≡◌, ◌≢◌, inl, inr, refl, ap, Bytes, Bool, List, [], ◌∷◌, Option, none, some, ◌==◌, length,
  if◌then◌else◌, arith,
}
use atlax.Auth.{
  Files, CryptoLibrary, TlsPaths, Watcher, watch, cert_fingerprint, load_certificate,
  load_certificate_authority, server_tls_config, start_watch, PemDecoder, validate_chain_cert_file,
  invalid, single_certificate, no_certificates, valid,
}
use atlax.Auth.Rotation.{watch-rotates}
use atlax.Auth.Chain.{Decodes, Shrinks, certificates, validate_chain_cert_file-counts}

-- A certificate is the first byte of its file, and a fingerprint the file itself.
abbrev first_byte : Option Bytes → Option ℕ
first_byte none = none
first_byte (some []) = none
first_byte (some (b ∷ rest)) = some b

abbrev plain : CryptoLibrary ℕ (Unit {0})
plain = record {
  sha256_hex = λ b. b;
  load_x509_key_pair = λ files cert_path key_path. first_byte (files cert_path);
  pool_from_pem = λ b. some tt;
}

abbrev paths : TlsPaths
paths = record { cert_file = 1 ∷ []; key_file = 2 ∷ []; ca_file = 3 ∷ []; client_ca_file = 4 ∷ [] }

abbrev holding : Bytes → Files
holding content path = some content

abbrev unreadable_files : Files
unreadable_files path = none

abbrev watching : Watcher ℕ
watching = record { last_fingerprint = 5 ∷ []; configurator = record { current_cert = some 5 } }

watching_started :
    start_watch plain
      (server_tls_config plain (record { current_cert = none }) paths (holding (5 ∷ []))).1
      paths
      (holding (5 ∷ []))
    ≡ some watching
unfolding start_watch server_tls_config load_certificate load_certificate_authority cert_fingerprint
watching_started = refl

abbrev renewed : Bytes
renewed = 9 ∷ []

other_content : renewed ≢ watching.last_fingerprint
other_content h = absurd (ground (arith, h))

watch-rotates_example :
    watch plain watching paths (
      (unreadable_files, unreadable_files)
      ∷ (holding (9 ∷ []), holding (9 ∷ []))
      ∷ (holding (9 ∷ []), holding (9 ∷ []))
      ∷ [])
    ≡ record { last_fingerprint = 9 ∷ []; configurator = record { current_cert = some 9 } }
unfolding cert_fingerprint load_certificate
watch-rotates_example =
    watch-rotates plain paths watching ((unreadable_files, unreadable_files) ∷ [])
      ((holding (9 ∷ []), holding (9 ∷ [])) ∷ []) (holding (9 ∷ [])) (holding (9 ∷ [])) (9 ∷ []) 9
      (inl refl, tt) refl other_content refl (inr (inl refl), tt)

-- A block is one byte, and a certificate is a 1.
abbrev one_byte_blocks : PemDecoder
one_byte_blocks [] = none
one_byte_blocks (b ∷ rest) = some (b == 1, rest)

one_byte_blocks-Shrinks : Shrinks one_byte_blocks
one_byte_blocks-Shrinks [] rest' c e = absurd (ground (arith, e))
one_byte_blocks-Shrinks (b ∷ rest) rest' c e =
    omega
      (arith, ap (λ (x : Bool × Bytes). length x.1) (some-injective (b == 1, rest) (c, rest') e))

validate_chain_cert_file-counts_example :
    (blocks : List Bool) × Decodes one_byte_blocks (1 ∷ 0 ∷ []) blocks
    × (validate_chain_cert_file one_byte_blocks (holding (1 ∷ 0 ∷ [])) (1 ∷ []) ≡ (
        if certificates blocks == 0
        then invalid no_certificates
        else if certificates blocks == 1
        then invalid single_certificate
        else valid))
validate_chain_cert_file-counts_example =
    validate_chain_cert_file-counts one_byte_blocks (holding (1 ∷ 0 ∷ [])) (1 ∷ []) (1 ∷ 0 ∷ [])
      one_byte_blocks-Shrinks refl

bare_leaf :
    validate_chain_cert_file one_byte_blocks (holding (1 ∷ 0 ∷ [])) (1 ∷ [])
    ≡ invalid single_certificate
unfolding validate_chain_cert_file
bare_leaf = refl
