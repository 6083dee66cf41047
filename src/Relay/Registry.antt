-- ===== src/Relay/Registry.antt =====
-- pkg/relay/registry_impl.go: which agent connection serves a customer.
-- A `*LiveConnection` is named by a number. What a call does to a connection or to the metrics, apart
-- from the two maps, is recorded in `effects`, the latest first.
pub mod Runs
pub mod Limits
pub mod Leaks
use atlax.Base.{
  ℕ, Bytes, bytes_eq_inst, Bool, true, false, ◌&&◌, List, [], ◌∷◌, Option, none, some,
  if◌then◌else◌,
}
use atlax.Base.Int.{ℤ, pos, leb_ℤ, eqb_ℤ}
use atlax.Base.Map.{Map, lookup, insert, delete}

pub data Effect : Type 0 where
  connection_registered connection_unregistered : Bytes → Effect
  sent_go_away closed seen : ℕ → Effect

pub record MemoryRegistry : Type 0 where
  pub agents : Map Bytes ℕ
  pub customer_limits : Map Bytes ℤ
  pub effects : List Effect

unfoldable pub new_memory_registry : MemoryRegistry
new_memory_registry = record { agents = []; customer_limits = []; effects = [] }

unfoldable pub set_customer_limit : MemoryRegistry → Bytes → ℤ → MemoryRegistry
set_customer_limit r customer_id max_conns = record r {
  customer_limits = insert customer_id max_conns r.customer_limits;
}

abbrev pub effect : MemoryRegistry → Effect → MemoryRegistry
effect r x = record r { effects = x ∷ r.effects }

-- A missing limit reads as 0, and a limit that is not positive means 1.
abbrev configured : Option ℤ → ℤ
configured none = pos 0
configured (some n) = n

unfoldable pub limit_of : MemoryRegistry → Bytes → ℤ
limit_of r customer_id =
    let limit = configured (lookup customer_id r.customer_limits) in
    if leb_ℤ limit (pos 0) then pos 1 else limit

unfoldable pub store_agent : MemoryRegistry → Bytes → ℕ → MemoryRegistry
store_agent r customer_id live = record r { agents = insert customer_id live r.agents }

-- What happens to the connection that is in the way.
unfoldable pub replace_old : MemoryRegistry → Bytes → Option ℕ → Bool → MemoryRegistry
replace_old r customer_id (some old) true =
    effect (effect (effect r (connection_unregistered customer_id)) (sent_go_away old)) (closed old)
replace_old r customer_id (some old) false = r
replace_old r customer_id none single = r

unfoldable pub register : MemoryRegistry → Bytes → ℕ → MemoryRegistry
unfolding limit_of store_agent replace_old
register r customer_id live =
    effect
      (replace_old (store_agent r customer_id live) customer_id (lookup customer_id r.agents)
        (eqb_ℤ (limit_of r customer_id) (pos 1)))
      (connection_registered customer_id)

unfoldable pub remove_agent : MemoryRegistry → Bytes → Option ℕ → MemoryRegistry
remove_agent r customer_id none = r
remove_agent r customer_id (some conn) =
    effect
      (effect (record r { agents = delete customer_id r.agents })
        (connection_unregistered customer_id))
      (closed conn)

unfoldable pub unregister : MemoryRegistry → Bytes → MemoryRegistry
unfolding remove_agent
unregister r customer_id = remove_agent r customer_id (lookup customer_id r.agents)

-- `Lookup`; `none` is ErrAgentNotFound.
unfoldable pub lookup_agent : MemoryRegistry → Bytes → Option ℕ
lookup_agent r customer_id = lookup customer_id r.agents

-- `Heartbeat`; `none` is ErrAgentNotFound.
unfoldable pub refresh : MemoryRegistry → Option ℕ → Option MemoryRegistry
refresh r none = none
refresh r (some conn) = some (effect r (seen conn))

unfoldable pub heartbeat : MemoryRegistry → Bytes → Option MemoryRegistry
unfolding refresh
heartbeat r customer_id = refresh r (lookup customer_id r.agents)

-- The calls that change the registry, in the order in which its mutex lets them through.
pub data Call : Type 0 where
  sets_limit : Bytes → ℤ → Call
  registers : Bytes → ℕ → Call
  unregisters : Bytes → Call
  heartbeats : Bytes → Call

abbrev pub after_heartbeat : MemoryRegistry → Option MemoryRegistry → MemoryRegistry
after_heartbeat r none = r
after_heartbeat r (some r') = r'

unfoldable pub step : MemoryRegistry → Call → MemoryRegistry
step r (sets_limit c n) = set_customer_limit r c n
step r (registers c live) = register r c live
step r (unregisters c) = unregister r c
step r (heartbeats c) = after_heartbeat r (heartbeat r c)

unfoldable pub run : MemoryRegistry → List Call → MemoryRegistry
unfolding step
run r [] = r
run r (c ∷ cs) = run (step r c) cs
