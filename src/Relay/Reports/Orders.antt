-- ===== src/Relay/Reports/Orders.antt =====
-- Ranging over a Go map gives its entries in some order: the agents of the relay without one.
use mathlib.Core.List.{Permᴰ}
use mathlib.Core.Path.{subst}
use mathlib.Core.Quot
use mathlib.Core.Quot.{Quot, Quot-set}
use atlax.Base.{ℕ, suc, ◌≡◌, refl, ap, ◌∙◌, Bytes, bytes_eq_inst, List, ◌∷◌, All, length}
use atlax.Base.Map.{Map}
use atlax.Relay.Reports.{LiveConnection, AgentInfo, agent_info, list_connected_agents}

module _ {ℓ} {A : Type ℓ} where
  pub length-Permᴰ : (xs ys : List A) → Permᴰ xs ys → length xs ≡ length ys
  length-Permᴰ _ _ Permᴰ.nil = refl
  length-Permᴰ _ _ (Permᴰ.cons e p) = ap suc (length-Permᴰ _ _ p)
  length-Permᴰ _ _ (Permᴰ.swap e e') = refl
  length-Permᴰ _ _ (Permᴰ.trans p q) = length-Permᴰ _ _ p ∙ length-Permᴰ _ _ q

  pub All-Permᴰ {κ} : (P : A → Type κ) (xs ys : List A) → Permᴰ xs ys → All P xs → All P ys
  All-Permᴰ P _ _ Permᴰ.nil h = h
  All-Permᴰ P _ _ (Permᴰ.cons e p) h = (subst P e h.0, All-Permᴰ P _ _ p h.1)
  All-Permᴰ P _ _ (Permᴰ.swap e e') h = (subst P e' h.1.0, (subst P e h.0, h.1.1))
  All-Permᴰ P _ _ (Permᴰ.trans p q) h = All-Permᴰ P _ _ q (All-Permᴰ P _ _ p h)

-- Ranging over the map in another order lists the same agents in another order.
pub list-Permᴰ :
    (live : ℕ → LiveConnection) (m m' : Map Bytes ℕ)
    → Permᴰ m m'
    → Permᴰ (list_connected_agents live m) (list_connected_agents live m')
unfolding list_connected_agents
list-Permᴰ live _ _ Permᴰ.nil = Permᴰ.nil
list-Permᴰ live _ _ (Permᴰ.cons e p) =
    Permᴰ.cons (ap (λ (x : Bytes × ℕ). agent_info (live x.1)) e) (list-Permᴰ live _ _ p)
list-Permᴰ live _ _ (Permᴰ.swap e e') =
    Permᴰ.swap (ap (λ (x : Bytes × ℕ). agent_info (live x.1)) e)
      (ap (λ (x : Bytes × ℕ). agent_info (live x.1)) e')
list-Permᴰ live _ _ (Permᴰ.trans p q) = Permᴰ.trans (list-Permᴰ live _ _ p) (list-Permᴰ live _ _ q)

-- The agents of the relay, in no order.
abbrev pub Agents : Type 0
Agents = Quot (Permᴰ {A = AgentInfo})

unfoldable pub add : AgentInfo → Agents → Agents
add ag =
    Quot.lift Quot-set (λ agents. Quot.mk (ag ∷ agents)) (λ xs ys p. Quot.sound (Permᴰ.cons refl p))

-- The agents of a registry.
unfoldable pub agents_of : (ℕ → LiveConnection) → Map Bytes ℕ → Agents
agents_of live m = Quot.mk (list_connected_agents live m)
