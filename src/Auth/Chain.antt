-- ===== src/Auth/Chain.antt =====
-- The check of the certificate file counts its certificates, and ends.
use atlax.Base.{
  ℕ, zero, suc, ◌+◌, ◌<◌, ◌≡◌, ap, ◌∙◌, Bytes, Bool, true, false, List, [], ◌∷◌, none, some, ◌==◌,
  length, if◌then◌else◌, Option-cases, inl, inr, arith,
}
use atlax.Auth.{
  Files, PemDecoder, no_certificates, single_certificate, count_certificates, valid, invalid,
  verdict_of, validate_chain_cert_file, validate_data,
}

-- The types of the blocks that a decoder finds in a text, one after the other.
pub data Decodes (decode : PemDecoder) : Bytes → List Bool → Type 0 where
  ends : (rest : Bytes) → decode rest ≡ none → Decodes decode rest []
  next :
      (rest rest' : Bytes) (is_certificate : Bool) (blocks : List Bool)
      → decode rest ≡ some (is_certificate, rest')
      → Decodes decode rest' blocks
      → Decodes decode rest (is_certificate ∷ blocks)

pub certificates : List Bool → ℕ
certificates [] = 0
certificates (true ∷ blocks) = suc (certificates blocks)
certificates (false ∷ blocks) = certificates blocks

-- A block takes up text.
abbrev pub Shrinks : PemDecoder → Type 0
Shrinks decode =
    (rest rest' : Bytes) (is_certificate : Bool)
    → decode rest ≡ some (is_certificate, rest')
    → length rest' < length rest

certificates-next :
    (c : Bool) (blocks : List Bool) (count : ℕ)
    → certificates blocks + (if c then suc count else count) ≡ certificates (c ∷ blocks) + count
unfolding certificates
certificates-next true blocks count = omega arith
certificates-next false blocks count = omega arith

-- What the loop counts from `rest` on, given that it ends.
Counted : PemDecoder → ℕ → Bytes → ℕ → Type 0
Counted decode fuel rest count =
    (blocks : List Bool) × Decodes decode rest blocks
    × (count_certificates decode fuel rest count ≡ some (certificates blocks + count))

count_lem :
    (decode : PemDecoder) (fuel : ℕ) (rest : Bytes) (count : ℕ)
    → Shrinks decode
    → length rest < fuel
    → Counted decode fuel rest count
unfolding Counted count_certificates
count_lem decode zero rest count s h = absurd (omega (arith, h))
count_lem decode (suc fuel) rest count s h = elim (Option-cases (decode rest)) [
  | inl n ↦
      ([], ends rest n, rw (n, count_certificates) (ap some (unfold certificates in omega arith)))
  | inr (block, e) ↦
      let (blocks, d, c) =
        count_lem decode fuel block.1 (if block.0 then suc count else count) s
          (omega (arith, h, s rest block.1 block.0 e)) in
      (
        block.0 ∷ blocks,
        next rest block.1 block.0 blocks e d,
        rw (e, count_certificates) (c ∙ ap some (certificates-next block.0 blocks count)),
      )
]

add_zero : (n : ℕ) → n + 0 ≡ n
add_zero n = omega arith

-- The check of a file that can be read ends: it goes through all PEM blocks of the file, and accepts the
-- file exactly if at least two of them are certificates, saying otherwise whether there is none or
-- one; every block takes up some text.
pub validate_chain_cert_file-counts :
    (decode : PemDecoder) (files : Files) (path pem : Bytes)
    → Shrinks decode
    → files path ≡ some pem
    → (blocks : List Bool) × Decodes decode pem blocks
      × (validate_chain_cert_file decode files path ≡ (
          if certificates blocks == 0
          then invalid no_certificates
          else if certificates blocks == 1
          then invalid single_certificate
          else valid))
unfolding validate_chain_cert_file validate_data verdict_of Counted
validate_chain_cert_file-counts decode files path pem s e =
    let (blocks, d, c) = count_lem decode (suc (length pem)) pem 0 s (omega arith) in
    (blocks, d, rw (e, c) (ap (λ n. verdict_of (some n)) (add_zero (certificates blocks))))
