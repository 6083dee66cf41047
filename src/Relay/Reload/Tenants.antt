-- ===== src/Relay/Reload/Tenants.antt =====
-- The tenant boundary across a reload.
use atlax.Base.{◌≡◌, ◌≢◌, ap, ◌∙◌, bytes_eq_iff, int_eq, Bool, Option, none, some, arith}
use atlax.Base.Int.{ℤ}
use atlax.Base.Map.{Map, lookup}
use atlax.Base.Map.Count.{UniqueKeys}
use atlax.Config.{PortIndexEntry}
use atlax.Relay.Router.{PortEntry, PortRouter, get_port}
use atlax.Relay.Router.Ports.{owner}
use atlax.Relay.Reload.{apply_reload}
use atlax.Relay.Reload.OnePort.{applied}
use atlax.Relay.Reload.PerPort.{apply_reload-applied}

module _ {R : Type 0} where
  pub kept :
      (started : Bool) (o n : PortIndexEntry R) (x : Option PortEntry)
      → owner (applied started (some o) (some n) x) ≡ owner x
  kept started o n none = ground arith
  kept started o n (some x) = ground arith

  -- A port that both configurations list belongs after the reload to whom it belonged before, also
  -- if the new configuration gives it to somebody else.
  pub apply_reload-owner :
      (binds : ℤ → Bool) (r : PortRouter) (old new : Map ℤ (PortIndexEntry R)) (p : ℤ)
      (o n : PortIndexEntry R)
      → UniqueKeys old
      → UniqueKeys new
      → lookup p old ≡ some o
      → lookup p new ≡ some n
      → owner (get_port (apply_reload binds r old new).router p) ≡ owner (get_port r p)
  apply_reload-owner binds r old new p o n u v e f =
      ap owner (apply_reload-applied binds r old new p u v)
      ∙ rw (e, f) (kept (binds p) o n (get_port r p))

  -- Once a reload has refused to give a port to another customer, the next reload, for which the refused
  -- configuration is the old one, does not drop the port when it is no longer listed: its first
  -- owner keeps it.
  pub apply_reload-stuck :
      (binds binds' : ℤ → Bool) (r : PortRouter) (first second third : Map ℤ (PortIndexEntry R))
      (p : ℤ) (o n : PortIndexEntry R) (x : PortEntry)
      → UniqueKeys first
      → UniqueKeys second
      → UniqueKeys third
      → lookup p first ≡ some o
      → lookup p second ≡ some n
      → lookup p third ≡ none
      → o.customer_id ≢ n.customer_id
      → get_port r p ≡ some x
      → x.customer_id ≡ o.customer_id
      → get_port
          (apply_reload binds' (apply_reload binds r first second).router second third).router
          p
        ≡ some x
  apply_reload-stuck binds binds' r first second third p o n x u v w e f g d h i =
      apply_reload-applied binds' (apply_reload binds r first second).router second third p v w
      ∙ rw (apply_reload-applied binds r first second p u v, e, f, g, h)
          (ground (
            arith,
            d,
            i,
            bytes_eq_iff o.customer_id n.customer_id,
            bytes_eq_iff x.customer_id n.customer_id,
          ))
