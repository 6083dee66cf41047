-- ===== src/Relay/Listeners/Values.antt =====
-- The numbers that the map of rate limiters holds: a new one differs from all, and takes the place of one.
use atlax.Base.{
  ◌≡◌, ◌≢◌, inl, inr, ℕ, ◌<◌, suc, Bytes, bytes_eq, bytes_eq_inst, List, [], ◌∷◌, ◌++◌, some, arith,
  All, Bool-cases,
}
use mathlib.Core.Path.{subst}
use atlax.Base.Map.{Map, lookup, insert}
use atlax.Relay.Listeners.{values}

abbrev pub Without : ℕ → List ℕ → Type 0
Without k xs = All (λ x. x ≢ k) xs

abbrev pub Below : ℕ → List ℕ → Type 0
Below n xs = All (λ x. x < n) xs

abbrev pub Distinct : List ℕ → Type 0
Distinct [] = Unit {0}
Distinct (x ∷ xs) = Without x xs × Distinct xs

pub Below-suc : (n : ℕ) (xs : List ℕ) → Below n xs → Below (suc n) xs
Below-suc n [] b = tt
Below-suc n (x ∷ xs) b = (omega (arith, b.0), Below-suc n xs b.1)

pub Below→Without : (n : ℕ) (xs : List ℕ) → Below n xs → Without n xs
Below→Without n [] b = tt
Below→Without n (x ∷ xs) b = (ground (arith, b.0), Below→Without n xs b.1)

pub Without-append : (k : ℕ) (xs ys : List ℕ) → Without k xs → Without k ys → Without k (xs ++ ys)
Without-append k [] ys a b = b
Without-append k (x ∷ xs) ys a b = (a.0, Without-append k xs ys a.1 b)

pub Below-append : (n : ℕ) (xs ys : List ℕ) → Below n xs → Below n ys → Below n (xs ++ ys)
Below-append n [] ys a b = b
Below-append n (x ∷ xs) ys a b = (a.0, Below-append n xs ys a.1 b)

module _ (n : ℕ) (c : Bytes) where
  pub Below-insert : (m : Map Bytes ℕ) → Below n (values m) → Below (suc n) (values (insert c n m))
  unfolding insert
  Below-insert [] b = (omega arith, tt)
  Below-insert ((d, v) ∷ m) b = elim (Bool-cases (bytes_eq d c)) [
    | inl y ↦ rw y (omega arith, Below-suc n (values m) b.1)
    | inr y ↦ rw y (omega (arith, b.0), Below-insert m b.1)
  ]

  pub Without-insert :
      (k : ℕ) (m : Map Bytes ℕ) → n ≢ k → Without k (values m) → Without k (values (insert c n m))
  unfolding insert
  Without-insert k [] d w = (d, tt)
  Without-insert k ((c', v) ∷ m) d w = elim (Bool-cases (bytes_eq c' c)) [
    | inl y ↦ rw y (d, w.1)
    | inr y ↦ rw y (w.0, Without-insert k m d w.1)
  ]

  pub Distinct-insert :
      (m : Map Bytes ℕ)
      → Below n (values m)
      → Distinct (values m)
      → Distinct (values (insert c n m))
  unfolding insert
  Distinct-insert [] b u = (tt, tt)
  Distinct-insert ((d, v) ∷ m) b u = elim (Bool-cases (bytes_eq d c)) [
    | inl y ↦ rw y (Below→Without n (values m) b.1, u.1)
    | inr y ↦ rw y (Without-insert v m (ground (arith, b.0)) u.0, Distinct-insert m b.1 u.1)
  ]

  pub lookup-Without :
      (k x : ℕ) (m : Map Bytes ℕ) → lookup c m ≡ some k → Without x (values m) → k ≢ x
  unfolding lookup
  lookup-Without k x [] l w = absurd (ground arith)
  lookup-Without k x ((d, v) ∷ m) l w = elim (Bool-cases (bytes_eq d c)) [
    | inl y ↦ ground (arith, l, y, w.0)
    | inr y ↦ lookup-Without k x m (ground (arith, l, y)) w.1
  ]

  -- The value that `insert` replaces is gone.
  pub Without-replaced :
      (k : ℕ) (m : Map Bytes ℕ)
      → n ≢ k
      → Distinct (values m)
      → lookup c m ≡ some k
      → Without k (values (insert c n m))
  unfolding insert lookup
  Without-replaced k [] d u l = absurd (ground arith)
  Without-replaced k ((c', v) ∷ m) d u l = elim (Bool-cases (bytes_eq c' c)) [
    | inl y ↦
        let v≡k : v ≡ k = ground (arith, l, y) in
        rw y (d, subst (λ j. Without j (values m)) v≡k u.0)
    | inr y ↦
        let l' : lookup c m ≡ some k = ground (arith, l, y) in
        rw y (ground (arith, lookup-Without k v m l' u.0), Without-replaced k m d u.1 l')
  ]
