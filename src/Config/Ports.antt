-- ===== src/Config/Ports.antt =====
-- The index of the ports against the configuration it is built from.
use mathlib.Core.Path.{subst}
use mathlib.Core.List.{append_assoc, append-nil}
use atlax.Base.{
  ◌≡◌, ◌≢◌, ◌↔◌, Bool-cases, refl, sym, ap, ◌∙◌, int_eq, Bytes, List, [], ◌∷◌, ◌++◌, Option, none,
  some, arith, inl, inr,
}
use atlax.Base.Int.{ℤ, eqb_ℤ, eqb_ℤ_iff}
use atlax.Base.Map.{Map, lookup, insert}
use atlax.Base.Map.Count.{UniqueKeys, insert-UniqueKeys}
use atlax.Config.{
  PortConfig, CustomerConfig, PortIndexEntry, Built, index, assigned_twice, entry_of, or_field,
  all_interfaces, bind_built, add_port, add_ports, add_customers, build_port_index,
}

insert_new :
    {V : Type 0} (k : ℤ) (v : V) (m : Map ℤ V)
    → lookup k m ≡ none
    → insert k v m ≡ m ++ ((k, v) ∷ [])
unfolding lookup insert
insert_new k v [] e = refl
insert_new k v ((j, w) ∷ m) e = ground (arith, insert_new k v m, e)

lookup_there : {V : Type 0} (k : ℤ) (v : V) (m n : Map ℤ V) → lookup k (m ++ ((k, v) ∷ n)) ≢ none
unfolding lookup
lookup_there k v [] n e = absurd (ground (arith, e, (eqb_ℤ_iff k k).1 refl))
lookup_there k v ((j, w) ∷ m) n e = ground (arith, e, lookup_there k v m n)

unique_prefix :
    {V : Type 0} (k : ℤ) (v : V) (m n : Map ℤ V)
    → UniqueKeys (m ++ ((k, v) ∷ n))
    → lookup k m ≡ none
unfolding lookup
unique_prefix k v [] n u = refl
unique_prefix k v ((j, w) ∷ m) n u = elim (Bool-cases (eqb_ℤ j k)) [
  | inl y ↦ absurd (
      lookup_there k v m n
        (ap (λ i. lookup i (m ++ ((k, v) ∷ n))) (sym ((eqb_ℤ_iff j k).0 y)) ∙ u.0))
  | inr y ↦ rw y (unique_prefix k v m n u.1)
]

lookup_front : {V : Type 0} (k : ℤ) (m n : Map ℤ V) → lookup k (m ++ n) ≡ none → lookup k m ≡ none
unfolding lookup
lookup_front k [] n e = refl
lookup_front k ((j, w) ∷ m) n e = ground (arith, e, lookup_front k m n)

unique_front : {V : Type 0} (m n : Map ℤ V) → UniqueKeys (m ++ n) → UniqueKeys m
unique_front [] n u = tt
unique_front ((j, w) ∷ m) n (u, v) = (lookup_front j m n u, unique_front m n v)

-- "0.0.0.0", where no address is listed.
abbrev address_of : Bytes → Bytes
address_of [] = 48 ∷ 46 ∷ 48 ∷ 46 ∷ 48 ∷ 46 ∷ 48 ∷ []
address_of (b ∷ v) = b ∷ v

entry_lem : (v : Bytes) → or_field v all_interfaces ≡ address_of v
entry_lem [] = refl
entry_lem (b ∷ v) = refl

module _ {R : Type 0} where
  -- The ports as the configuration lists them, each with the customer that lists it, its service and
  -- address, the customer's stream limit and rate limit. A port without an address listens on all.
  abbrev pub listed_ports : CustomerConfig R → List PortConfig → Map ℤ (PortIndexEntry R)
  listed_ports c [] = []
  listed_ports c (p ∷ ps) =
      (
        p.port,
        record {
          customer_id = c.id;
          service = p.service;
          max_streams = c.max_streams;
          listen_addr = address_of p.listen_addr;
          rate_limit = c.rate_limit;
        },
      )
      ∷ listed_ports c ps

  abbrev pub listed : List (CustomerConfig R) → Map ℤ (PortIndexEntry R)
  listed [] = []
  listed (c ∷ cs) = listed_ports c c.ports ++ listed cs

  -- What a part of the construction promises: it lists what it was given, or finds a port twice.
  abbrev Extends : Map ℤ (PortIndexEntry R) → Map ℤ (PortIndexEntry R) → Built R → Type 0
  Extends m l b =
      ((m' : Map ℤ (PortIndexEntry R))
        → b ≡ index m'
        → UniqueKeys m
        → (m' ≡ m ++ l) × UniqueKeys m')
      × (UniqueKeys (m ++ l) → b ≡ index (m ++ l))

  map_of : Built R → Map ℤ (PortIndexEntry R)
  map_of (index m) = m
  map_of (assigned_twice p a c) = []

  bind_index :
      (b : Built R) (k : Map ℤ (PortIndexEntry R) → Built R) (m' : Map ℤ (PortIndexEntry R))
      → bind_built b k ≡ index m'
      → (m : Map ℤ (PortIndexEntry R)) × (b ≡ index m) × (k m ≡ index m')
  bind_index (index m) k m' e = (m, refl, e)
  bind_index (assigned_twice p a c) k m' e = absurd (ground (arith, e))

  bind-Extends :
      (m l l' : Map ℤ (PortIndexEntry R)) (b : Built R) (k : Map ℤ (PortIndexEntry R) → Built R)
      → Extends m l b
      → ((m' : Map ℤ (PortIndexEntry R)) → Extends m' l' (k m'))
      → Extends m (l ++ l') (bind_built b k)
  bind-Extends m l l' b k x y = (
    λ m' e u.
        let (n, f, g) = bind_index b k m' e in
        let (p, v) = x.0 n f u in
        let (q, w) = (y n).0 m' g v in
        (q ∙ ap (λ (j : Map ℤ (PortIndexEntry R)). j ++ l') p ∙ append_assoc m l l', w),
    λ u.
        rw
          (x.1 (
            unique_front (m ++ l) l' (
              subst (λ (j : Map ℤ (PortIndexEntry R)). UniqueKeys j) (sym (append_assoc m l l'))
                u)))
          ((y (m ++ l)).1
              (subst (λ (j : Map ℤ (PortIndexEntry R)). UniqueKeys j) (sym (append_assoc m l l')) u)
            ∙ ap index (append_assoc m l l')),
  )

  index_inj : (m m' : Map ℤ (PortIndexEntry R)) → index m ≡ index m' → m ≡ m'
  unfolding map_of
  index_inj m m' e = ap map_of e

  extended :
      (m m' : Map ℤ (PortIndexEntry R)) (k : ℤ) (v : PortIndexEntry R)
      → lookup k m ≡ none
      → insert k v m ≡ m'
      → UniqueKeys m
      → (m' ≡ m ++ ((k, v) ∷ [])) × UniqueKeys m'
  extended m m' k v e f u = (
    sym f ∙ insert_new k v m e,
    subst (λ (j : Map ℤ (PortIndexEntry R)). UniqueKeys j) f (insert-UniqueKeys k v m u),
  )

  port-Extends :
      (m : Map ℤ (PortIndexEntry R)) (c : CustomerConfig R) (p : PortConfig)
      (o : Option (PortIndexEntry R))
      → lookup p.port m ≡ o
      → Extends m ((p.port, entry_of c p) ∷ []) (add_port m c p o)
  unfolding add_port
  port-Extends m c p none e = (
    λ m' f u. extended m m' p.port (entry_of c p) e (index_inj _ m' f) u,
    λ u. ap index (insert_new p.port (entry_of c p) m e),
  )
  port-Extends m c p (some x) e = (
    λ m' f u. absurd (ground (arith, f)),
    λ u. absurd (ground (arith, e, unique_prefix p.port (entry_of c p) m [] u)),
  )

  nothing-Extends : (m : Map ℤ (PortIndexEntry R)) → Extends m [] (index m)
  nothing-Extends m = (
    λ m' f u.
        let e = index_inj m m' f in
        (sym e ∙ sym (append-nil m), subst (λ (j : Map ℤ (PortIndexEntry R)). UniqueKeys j) e u),
    λ u. ap index (sym (append-nil m)),
  )

  ports_extend :
      (m : Map ℤ (PortIndexEntry R)) (c : CustomerConfig R) (ps : List PortConfig)
      → Extends m (listed_ports c ps) (add_ports m c ps)
  unfolding add_ports
  ports_extend m c [] = nothing-Extends m
  ports_extend m c (p ∷ ps) = rw (sym (entry_lem p.listen_addr)) (
      bind-Extends m ((p.port, entry_of c p) ∷ []) (listed_ports c ps) _ _
        (port-Extends m c p (lookup p.port m) refl) (λ m'. ports_extend m' c ps))

  customers_extend :
      (m : Map ℤ (PortIndexEntry R)) (cs : List (CustomerConfig R))
      → Extends m (listed cs) (add_customers m cs)
  unfolding add_customers
  customers_extend m [] = nothing-Extends m
  customers_extend m (c ∷ cs) =
      bind-Extends m (listed_ports c c.ports) (listed cs) _ _ (ports_extend m c c.ports)
        (λ m'. customers_extend m' cs)

  -- The index is built exactly when no port is listed twice, by one customer or by several, and then it
  -- holds each listed port once, with the customer, service, limit, address and rate limit
  -- listed for it, and nothing else.
  pub build_port_index-listed :
      (cs : List (CustomerConfig R)) (m : Map ℤ (PortIndexEntry R))
      → (build_port_index cs ≡ index m) ↔ ((m ≡ listed cs) × UniqueKeys (listed cs))
  unfolding build_port_index
  build_port_index-listed cs m =
      let x = customers_extend [] cs in
      (
        λ e.
            let (p, u) = x.0 m e tt in
            (p, subst (λ (j : Map ℤ (PortIndexEntry R)). UniqueKeys j) p u),
        λ (p, u). x.1 u ∙ ap index (sym p),
      )
