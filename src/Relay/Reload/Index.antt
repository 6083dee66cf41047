-- ===== src/Relay/Reload/Index.antt =====
-- The index that a reload compares is the one that the start of the relay validates.
use atlax.Base.{◌≡◌, refl, ap, ◌∙◌, int_eq, List, [], ◌∷◌, Option, none, some, arith}
use atlax.Base.Int.{ℤ}
use atlax.Base.Map.{Map, lookup, insert}
use atlax.Config
use atlax.Config.{
  PortConfig, CustomerConfig, RelayConfig, PortIndexEntry, Built, index, assigned_twice, bind_built,
  entry_of, add_ports, add_customers, build_port_index,
}
use atlax.Relay.Reload.{index_ports_of, index_customers, index_ports}

module _ {R : Type 0} where
  map_or : Map ℤ (PortIndexEntry R) → Built R → Map ℤ (PortIndexEntry R)
  map_or d (index m) = m
  map_or d (assigned_twice p a b) = d

  Follows : Map ℤ (PortIndexEntry R) → Built R → Type 0
  Follows m b = (m' : Map ℤ (PortIndexEntry R)) → b ≡ index m' → m ≡ m'

  Follows-index : (m : Map ℤ (PortIndexEntry R)) → Follows m (index m)
  unfolding Follows map_or
  Follows-index m m' e = ap (map_or m) e

  Follows-bind :
      (b : Built R) (k : Map ℤ (PortIndexEntry R) → Built R)
      (f : Map ℤ (PortIndexEntry R) → Map ℤ (PortIndexEntry R)) (m : Map ℤ (PortIndexEntry R))
      → Follows m b
      → ((n : Map ℤ (PortIndexEntry R)) → Follows (f n) (k n))
      → Follows (f m) (bind_built b k)
  unfolding Follows
  Follows-bind (index n) k f m x y m' e = ap f (x n refl) ∙ y n m' e
  Follows-bind (assigned_twice p a c) k f m x y m' e = absurd (ground (arith, e))

  port-Follows :
      (m : Map ℤ (PortIndexEntry R)) (c : CustomerConfig R) (p : PortConfig)
      (o : Option (PortIndexEntry R))
      → Follows (insert p.port (entry_of c p) m) (Config.add_port m c p o)
  unfolding Config.add_port Follows
  port-Follows m c p none = Follows-index (insert p.port (entry_of c p) m)
  port-Follows m c p (some x) = λ m' e. absurd (ground (arith, e))

  ports_follow :
      (m : Map ℤ (PortIndexEntry R)) (c : CustomerConfig R) (ps : List PortConfig)
      → Follows (index_ports_of m c ps) (add_ports m c ps)
  unfolding add_ports index_ports_of
  ports_follow m c [] = Follows-index m
  ports_follow m c (p ∷ ps) =
      Follows-bind (Config.add_port m c p (lookup p.port m)) _ (λ n. index_ports_of n c ps)
        (insert p.port (entry_of c p) m) (port-Follows m c p (lookup p.port m))
        (λ n. ports_follow n c ps)

  customers_follow :
      (m : Map ℤ (PortIndexEntry R)) (cs : List (CustomerConfig R))
      → Follows (index_customers m cs) (add_customers m cs)
  unfolding add_customers index_customers
  customers_follow m [] = Follows-index m
  customers_follow m (c ∷ cs) =
      Follows-bind (add_ports m c c.ports) _ (λ n. index_customers n cs)
        (index_ports_of m c c.ports) (ports_follow m c c.ports) (λ n. customers_follow n cs)

  -- Of a configuration that passes the check for ports assigned twice, `indexPorts` and
  -- `BuildPortIndex` make the same index.
  pub index_ports-build_port_index :
      (cfg : RelayConfig R) (m : Map ℤ (PortIndexEntry R))
      → build_port_index cfg.customers ≡ index m
      → index_ports (some cfg) ≡ m
  unfolding index_ports build_port_index Follows
  index_ports-build_port_index cfg m e = customers_follow [] cfg.customers m e
