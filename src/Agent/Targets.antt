-- ===== src/Agent/Targets.antt =====
-- What a stream can reach behind the agent.
use atlax.Base.{◌≡◌, ◌⊎◌, inl, inr, refl, Bytes, bytes_eq_inst, [], ◌∷◌, Option, none, some}
use atlax.Base.Map.{Map, lookup}
use atlax.Agent.{sole_service, found_or_sole, resolve_target}

sole_is_listed :
    (services : Map Bytes Bytes)
    → (sole_service services ≡ [])
      ⊎ ((name : Bytes) × (services ≡ (name, sole_service services) ∷ []))
unfolding sole_service
sole_is_listed [] = inl refl
sole_is_listed ((name, addr) ∷ []) = inr (name, refl)
sole_is_listed (s ∷ s' ∷ services) = inl refl

found_is_listed :
    (services : Map Bytes Bytes) (payload : Bytes) (o : Option Bytes)
    → lookup payload services ≡ o
    → (found_or_sole services o ≡ [])
      ⊎ (lookup payload services ≡ some (found_or_sole services o))
      ⊎ ((name : Bytes) × (services ≡ (name, found_or_sole services o) ∷ []))
unfolding found_or_sole
found_is_listed services payload (some addr) e = inr (inl e)
found_is_listed services payload none e = elim (sole_is_listed services) [
  | inl x ↦ inl x
  | inr x ↦ inr (inr x)
]

-- A stream reaches no address but those the agent lists: it has no target, or the one listed under the
-- service name that it carries, or that of the only service there is.
pub resolve_target-listed :
    (services : Map Bytes Bytes) (payload : Bytes)
    → (resolve_target services payload ≡ [])
      ⊎ (lookup payload services ≡ some (resolve_target services payload))
      ⊎ ((name : Bytes) × (services ≡ (name, resolve_target services payload) ∷ []))
unfolding resolve_target
resolve_target-listed services [] = elim (sole_is_listed services) [
  | inl x ↦ inl x
  | inr x ↦ inr (inr x)
]
resolve_target-listed services (b ∷ payload) =
    found_is_listed services (b ∷ payload) (lookup (b ∷ payload) services) refl
