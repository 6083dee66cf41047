-- ===== src/Relay/Requests.antt =====
-- The bodies of the admin API's requests on ports, and their checks: createPort and
-- decodePortUpdateRequest of pkg/relay/admin.go. The test whether a text is an IP address is a parameter.
use atlax.Base.{Bytes, Bool, true, false, not, ◌&&◌, ◌||◌, Option, none, some, if◌then◌else◌}
use atlax.Base.Int.{ℤ, pos, leb_ℤ, ltb_ℤ}
use atlax.Config.{or_field, all_interfaces}
use atlax.Relay.Router.{PortEntry}
use atlax.Relay.Store.{is_empty}

pub record PortCreateRequest : Type 0 where
  pub port : ℤ
  pub customer_id : Bytes
  pub service : Bytes
  pub max_streams : ℤ
  pub listen_addr : Bytes

pub record PortUpdateRequest : Type 0 where
  pub service : Bytes
  pub max_streams : Option ℤ
  pub listen_addr : Bytes

pub data BadRequest : Type 0 where
  invalid_json port_range required_fields invalid_listen_addr negative_max_streams : BadRequest
  nothing_to_update invalid_port : BadRequest

-- The checks of `createPort`, in their order.
unfoldable pub validate_create : (Bytes → Bool) → PortCreateRequest → Option BadRequest
validate_create is_ip q =
    if leb_ℤ q.port (pos 0) || ltb_ℤ (pos 65535) q.port
    then some port_range
    else if is_empty q.customer_id || is_empty q.service
    then some required_fields
    else if not (is_empty q.listen_addr) && not (is_ip q.listen_addr)
    then some invalid_listen_addr
    else if ltb_ℤ q.max_streams (pos 0)
    then some negative_max_streams
    else none

-- The mapping that a request asks for.
abbrev pub requested : PortCreateRequest → PortEntry
requested q = record {
  customer_id = q.customer_id;
  service = q.service;
  max_streams = q.max_streams;
  listen_addr = or_field q.listen_addr all_interfaces;
}

abbrev pub is_none {ℓ} : {A : Type ℓ} → Option A → Bool
is_none none = true
is_none (some x) = false

abbrev pub is_negative : Option ℤ → Bool
is_negative none = false
is_negative (some n) = ltb_ℤ n (pos 0)

-- `decodePortUpdateRequest`
unfoldable pub validate_update : (Bytes → Bool) → PortUpdateRequest → Option BadRequest
validate_update is_ip q =
    if is_empty q.service && is_empty q.listen_addr && is_none q.max_streams
    then some nothing_to_update
    else if not (is_empty q.listen_addr) && not (is_ip q.listen_addr)
    then some invalid_listen_addr
    else if is_negative q.max_streams
    then some negative_max_streams
    else none

abbrev pub or_limit : Option ℤ → ℤ → ℤ
or_limit none n = n
or_limit (some n) m = n

-- `mergePortUpdate`, with the customer that the port has.
abbrev pub merge_port_update : PortEntry → PortUpdateRequest → PortEntry
merge_port_update existing q = record {
  customer_id = existing.customer_id;
  service = or_field q.service existing.service;
  max_streams = or_limit q.max_streams existing.max_streams;
  listen_addr = or_field q.listen_addr existing.listen_addr;
}
