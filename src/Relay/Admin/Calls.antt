-- ===== src/Relay/Admin/Calls.antt =====
-- The whole of the admin API, POST /reload of pkg/relay/admin_reload.go included, and the tenant of a port.
use mathlib.Core.Path.{subst}
use mathlib.Core.Option.{some-injective}
use atlax.Base.{
  ◌≡◌, inl, inr, refl, sym, ap, ◌∙◌, Bytes, Bool, true, false, int_eq, List, [], ◌∷◌, Option, none,
  some, All, arith,
}
use atlax.Base.Int.{ℤ}
use atlax.Base.Map.{lookup}
use atlax.Config.{RelayConfig, PortIndexEntry}
use atlax.Relay.Router.{PortEntry, get_port}
use atlax.Relay.Router.Ports.{owner}
use atlax.Relay.Store.{SidecarData}
use atlax.Relay.Admin.{AdminServer, ResourceRequest, Method, get, post, put, other, serve}
use atlax.Relay.Admin.Owners.{leaves, serve-owner}
use atlax.Relay.Reload.{index_ports}
use atlax.Relay.Reload.Index.{index_ports-build_port_index}
use atlax.Relay.Reload.OnePort.{applied}
use atlax.Relay.Reload.Tenants.{kept}
use atlax.Relay.Reload.Whole.{Reloadable, Applied, reload}
use atlax.Relay.Reload.Whole.Commit.{Committed, reload-cases}

-- The admin server with the configuration that is current.
pub record AdminState (R : Type 0) : Type 0 where
  pub server : AdminServer
  pub current : Option (RelayConfig R)
  pub has_config_path : Bool

-- A request; of one for /reload, which listeners start, whether the sidecar is written, and the
-- configuration that is read, if that can be loaded.
pub data AdminCall (R : Type 0) : Type 0 where
  resource : ResourceRequest → AdminCall R
  reloads : Method → (ℤ → Bool) → Bool → Option (RelayConfig R) → AdminCall R

abbrev is_there : {R : Type 0} → Option (PortIndexEntry R) → Bool
is_there none = false
is_there (some e) = true

module _ {R : Type 0} where
  abbrev pub as_reloadable : AdminState R → Reloadable R
  as_reloadable s = record {
    router = s.server.router;
    client_listener = s.server.client_listener;
    store = s.server.store;
    current = s.current;
    has_config_path = s.has_config_path;
  }

  abbrev pub with_reloaded : AdminState R → Reloadable R → AdminState R
  with_reloaded s r = record s {
    server = record s.server {
      router = r.router;
      client_listener = r.client_listener;
      store = r.store;
    };
    current = r.current;
  }

  -- The configuration lists the port.
  abbrev pub lists : ℤ → Option (RelayConfig R) → Bool
  lists p cfg = is_there (lookup p (index_ports cfg))

  -- What the call must not do for the tenant of the port to stay: post the port, delete it, or load a
  -- configuration that differs from the first one, of which `listed` tells, in whether it lists the port.
  abbrev pub Leaves : ℤ → Bool → AdminCall R → Type 0
  Leaves p listed (resource q) = leaves p q ≡ true
  Leaves p listed (reloads method binds saves none) = Unit
  Leaves p listed (reloads method binds saves (some cfg)) = lists p (some cfg) ≡ listed

  same_listing :
      (started : Bool) (o n : Option (PortIndexEntry R)) (x : Option PortEntry)
      → is_there o ≡ is_there n
      → owner (applied started o n x) ≡ owner x
  same_listing started none none x e = refl
  same_listing started (some o) (some n) x e = kept started o n x
  same_listing started none (some n) x e = absurd (ground (arith, e))
  same_listing started (some o) none x e = absurd (ground (arith, e))

  -- After a reload the port belongs to whom it belonged, and the current configuration lists it as before.
  abbrev Unmoved : ℤ → Bool → Reloadable R → Reloadable R → Type 0
  Unmoved p listed s s' =
      (owner (get_port s'.router p) ≡ owner (get_port s.router p)) × (lists p s'.current ≡ listed)

  Committed-Unmoved :
      (p : ℤ) (listed : Bool) (method : Method) (binds : ℤ → Bool) (saves : Bool) (s : Reloadable R)
      (loaded : Option (RelayConfig R)) (r : Reloadable R × Option Applied)
      → lists p s.current ≡ listed
      → Leaves p listed (reloads method binds saves loaded)
      → Committed binds s loaded r
      → Unmoved p listed s r.0
  Committed-Unmoved p listed method binds saves s none r e l (cfg, m, h, _, _, _) =
      absurd (ground (arith, h))
  Committed-Unmoved p listed method binds saves s (some c) r e l (cfg, m, h, b, now, ports) =
      let same : c ≡ cfg = some-injective c cfg h in
      let l' : lists p (some cfg) ≡ listed = subst (λ x. lists p (some x) ≡ listed) same l in
      let there : lookup p (index_ports (some cfg)) ≡ lookup p m =
        ap (lookup p) (index_ports-build_port_index cfg m b) in
      (
        ap owner (ports p)
            ∙ same_listing (binds p) (lookup p (index_ports s.current)) (lookup p m)
                (get_port s.router p) (e ∙ sym l' ∙ ap is_there there),
        ap (lists p) now ∙ l',
      )

module _ {R : Type 0} (rate_limit_equal : R → R → Bool) (is_positive : R → Bool)
    (marshal : SidecarData → Bytes) (is_ip : Bytes → Bool) where
  unfoldable pub call : AdminState R → AdminCall R → AdminState R
  unfolding serve reload
  call s (resource q) = record s { server = (serve marshal is_ip s.server q).0 }
  call s (reloads post binds saves loaded) =
      with_reloaded s
        (reload rate_limit_equal is_positive marshal binds saves (as_reloadable s) loaded).0
  call s (reloads get binds saves loaded) = s
  call s (reloads put binds saves loaded) = s
  call s (reloads Method.delete binds saves loaded) = s
  call s (reloads other binds saves loaded) = s

  unfoldable pub call_all : AdminState R → List (AdminCall R) → AdminState R
  unfolding call
  call_all s [] = s
  call_all s (c ∷ cs) = call_all (call s c) cs

  reload-Unmoved :
      (p : ℤ) (listed : Bool) (binds : ℤ → Bool) (saves : Bool) (s : Reloadable R)
      (loaded : Option (RelayConfig R))
      → lists p s.current ≡ listed
      → Leaves p listed (reloads post binds saves loaded)
      → Unmoved p listed s (reload rate_limit_equal is_positive marshal binds saves s loaded).0
  reload-Unmoved p listed binds saves s loaded e l =
      let r = reload rate_limit_equal is_positive marshal binds saves s loaded in
      elim (reload-cases rate_limit_equal is_positive marshal binds saves s loaded) [
        | inl (h, _) ↦ subst (Unmoved p listed s) (sym h) (refl, e)
        | inr h ↦ Committed-Unmoved p listed post binds saves s loaded r e l h
      ]

  Keeps : ℤ → Bytes → Bool → AdminState R → Type 0
  Keeps p c listed s = (owner (get_port s.server.router p) ≡ some c) × (lists p s.current ≡ listed)

  call-Keeps :
      (s : AdminState R) (x : AdminCall R) (p : ℤ) (c : Bytes) (listed : Bool)
      → Leaves p listed x
      → Keeps p c listed s
      → Keeps p c listed (call s x)
  unfolding call Keeps
  call-Keeps s (resource q) p c listed l (o, e) = (serve-owner marshal is_ip s.server q p c l o, e)
  call-Keeps s (reloads post binds saves loaded) p c listed l (o, e) =
      let u = reload-Unmoved p listed binds saves (as_reloadable s) loaded e l in (u.0 ∙ o, u.1)
  call-Keeps s (reloads get binds saves loaded) p c listed l k = k
  call-Keeps s (reloads put binds saves loaded) p c listed l k = k
  call-Keeps s (reloads Method.delete binds saves loaded) p c listed l k = k
  call-Keeps s (reloads other binds saves loaded) p c listed l k = k

  call_all-Keeps :
      (s : AdminState R) (xs : List (AdminCall R)) (p : ℤ) (c : Bytes) (listed : Bool)
      → All (Leaves p listed) xs
      → Keeps p c listed s
      → Keeps p c listed (call_all s xs)
  unfolding call_all
  call_all-Keeps s [] p c listed l k = k
  call_all-Keeps s (x ∷ xs) p c listed l k =
      call_all-Keeps (call s x) xs p c listed l.1 (call-Keeps s x p c listed l.0 k)

  -- The tenant of a port stays its tenant through any requests to the admin API, one after the other and
  -- reloads among them, of which none is a POST of this port or a DELETE of it, and none loads a
  -- configuration that lists the port where the current one at the start does not, or the other way
  -- round: no PUT moves a port to another tenant, no reload does whose configuration gives a listed port to
  -- somebody else, and no request for another port or for an agent does.
  pub call_all-owner :
      (s : AdminState R) (xs : List (AdminCall R)) (p : ℤ) (c : Bytes)
      → All (Leaves p (lists p s.current)) xs
      → owner (get_port s.server.router p) ≡ some c
      → owner (get_port (call_all s xs).server.router p) ≡ some c
  unfolding Keeps
  call_all-owner s xs p c l o = (call_all-Keeps s xs p c (lists p s.current) l (o, refl)).0
