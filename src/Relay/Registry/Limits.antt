-- ===== src/Relay/Registry/Limits.antt =====
-- The connection limits of a registry on which no limit but 1 was set.
use atlax.Base.{
  ℕ, zero, suc, ◌≡◌, inl, inr, refl, Bytes, bytes_eq_inst, bytes_eq, Bool, true, false, Option,
  none, some, if◌then◌else◌, arith, Bool-cases,
}
use atlax.Base.Int.{ℤ, pos, negsuc, leb_ℤ, ◌≤ℤ◌}
use atlax.Base.Map.{lookup-insert}
use atlax.Relay.Registry.{
  MemoryRegistry, Call, sets_limit, registers, unregisters, heartbeats, set_customer_limit,
  register, unregister, remove_agent, replace_old, store_agent, heartbeat, refresh, after_heartbeat,
  step, limit_of,
}

-- Every customer has the default limit.
abbrev pub IsSingle : MemoryRegistry → Type 0
IsSingle r = (c : Bytes) → limit_of r c ≡ pos 1

-- The call names no limit other than 1.
abbrev pub IsSingleCall : Call → Type 0
IsSingleCall (sets_limit c n) = n ≤ℤ pos 1
IsSingleCall (registers c live) = Unit
IsSingleCall (unregisters c) = Unit
IsSingleCall (heartbeats c) = Unit

one_of_small : (n : ℤ) → n ≤ℤ pos 1 → (if leb_ℤ n (pos 0) then pos 1 else n) ≡ pos 1
one_of_small (pos zero) b = ground arith
one_of_small (pos (suc zero)) b = ground arith
one_of_small (pos (suc (suc n))) b = absurd (omega arith)
one_of_small (negsuc n) b = ground arith

set_limit-IsSingle :
    (r : MemoryRegistry) (c : Bytes) (n : ℤ)
    → n ≤ℤ pos 1
    → IsSingle r
    → IsSingle (set_customer_limit r c n)
unfolding set_customer_limit limit_of
set_limit-IsSingle r c n b i d = elim (Bool-cases (bytes_eq c d)) [
  | inl e ↦ rw (lookup-insert c d n r.customer_limits, e) (one_of_small n b)
  | inr e ↦ rw (lookup-insert c d n r.customer_limits, e) (i d)
]

replace_limits :
    (r : MemoryRegistry) (c : Bytes) (o : Option ℕ) (b : Bool)
    → (replace_old r c o b).customer_limits ≡ r.customer_limits
unfolding replace_old
replace_limits r c (some h) true = refl
replace_limits r c (some h) false = refl
replace_limits r c none b = refl

remove_limits :
    (r : MemoryRegistry) (c : Bytes) (o : Option ℕ)
    → (remove_agent r c o).customer_limits ≡ r.customer_limits
unfolding remove_agent
remove_limits r c (some h) = refl
remove_limits r c none = refl

refresh_limits :
    (r : MemoryRegistry) (o : Option ℕ)
    → (after_heartbeat r (refresh r o)).customer_limits ≡ r.customer_limits
unfolding refresh
refresh_limits r (some h) = refl
refresh_limits r none = refl

limits-IsSingle :
    (r q : MemoryRegistry) → q.customer_limits ≡ r.customer_limits → IsSingle r → IsSingle q
unfolding limit_of
limits-IsSingle r q e i c = rw e (i c)

pub step-IsSingle :
    (r : MemoryRegistry) (x : Call) → IsSingleCall x → IsSingle r → IsSingle (step r x)
unfolding step register unregister heartbeat store_agent
step-IsSingle r (sets_limit c n) b i = set_limit-IsSingle r c n b i
step-IsSingle r (registers c live) b i =
    limits-IsSingle r (register r c live) (replace_limits _ c _ _) i
step-IsSingle r (unregisters c) b i = limits-IsSingle r (unregister r c) (remove_limits r c _) i
step-IsSingle r (heartbeats c) b i =
    limits-IsSingle r (step r (heartbeats c)) (refresh_limits r _) i
