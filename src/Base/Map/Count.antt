-- ===== src/Base/Map/Count.antt =====
-- Counting the entries of a map whose keys pass a test; a Go map holds each key once.
use atlax.Base.Lists.{length}
use atlax.Base.Equality.{Eq}
use atlax.Base.Map.{Map, lookup, insert, delete, lookup-insert, lookup-delete}
use Prim.Native.Nat.{ℕ, ◌+◌, ◌≤◌}
use mathlib.Core.Path.{◌≡◌, refl}
use mathlib.Core.Bool.{Bool, true, false}
use mathlib.Core.Option.{none, some}
use mathlib.Core.List.{[], ◌∷◌}
use native.Mathlib.Omega.{arith}

abbrev pub bit : Bool → ℕ
bit true = 1
bit false = 0

module _ {ℓ κ} {K : Type ℓ} {V : Type κ} ⦃e : Eq K⦄ where
  abbrev pub UniqueKeys : Map K V → Type κ
  UniqueKeys [] = Unit {κ}
  UniqueKeys ((k, v) ∷ m) = (lookup k m ≡ none) × UniqueKeys m

  pub insert-UniqueKeys : (k : K) (v : V) (m : Map K V) → UniqueKeys m → UniqueKeys (insert k v m)
  unfolding insert lookup
  insert-UniqueKeys k v [] u = (refl, tt)
  insert-UniqueKeys k v ((j, w) ∷ m) u =
      ground
        (arith, insert-UniqueKeys k v m u.1, lookup-insert k j v m, e.beq_iff j k, e.beq_iff k j)

  pub delete-UniqueKeys : (k : K) (m : Map K V) → UniqueKeys m → UniqueKeys (delete k m)
  unfolding delete
  delete-UniqueKeys k [] u = tt
  delete-UniqueKeys k ((j, w) ∷ m) u =
      ground (arith, delete-UniqueKeys k m u.1, lookup-delete k j m)

  module _ (p : K → Bool) where
    abbrev pub count : Map K V → ℕ
    count [] = 0
    count ((k, v) ∷ m) = bit (p k) + count m

    pub count-le-length : (m : Map K V) → count m ≤ length m
    count-le-length [] = omega arith
    count-le-length ((k, v) ∷ m) = ground (arith, count-le-length m)

    pub count-insert_new :
        (k : K) (v : V) (m : Map K V)
        → lookup k m ≡ none
        → count (insert k v m) ≡ count m + bit (p k)
    unfolding insert lookup
    count-insert_new k v [] h = ground arith
    count-insert_new k v ((j, w) ∷ m) h = ground (arith, count-insert_new k v m)

    pub count-delete-none : (k : K) (m : Map K V) → lookup k m ≡ none → count (delete k m) ≡ count m
    unfolding delete lookup
    count-delete-none k [] h = refl
    count-delete-none k ((j, w) ∷ m) h = ground (arith, count-delete-none k m)

    pub count-delete :
        (k : K) (v : V) (m : Map K V)
        → UniqueKeys m
        → lookup k m ≡ some v
        → count (delete k m) + bit (p k) ≡ count m
    unfolding delete lookup
    count-delete k v [] u h = absurd (ground arith)
    count-delete k v ((j, w) ∷ m) u h =
        ground (arith, count-delete k v m, count-delete-none k m, e.beq_iff j k)
