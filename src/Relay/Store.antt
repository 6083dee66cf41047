-- ===== src/Relay/Store.antt =====
-- pkg/relay/store.go and the part of cmd/relay/main.go that reads it: the sidecar file, which lets port
-- mappings made at runtime survive a restart.
-- The JSON encoding of a payload is a parameter, as is the test whether a text is an IP address.
pub mod Merge
pub mod Restart
use atlax.Base.{
  ℕ, Bytes, bytes_eq, int_eq, Bool, true, false, not, ◌&&◌, ◌||◌, List, [], ◌∷◌, Option, none, some,
  if◌then◌else◌, map,
}
use atlax.Base.Int.{ℤ, pos, leb_ℤ, ltb_ℤ, eqb_ℤ}
use atlax.Base.Map.{Map, lookup, insert}
use atlax.Config.{PortIndexEntry, or_field, all_interfaces}
use atlax.Relay.Router.{PortInfo}

pub record SidecarPort : Type 0 where
  pub port : ℤ
  pub customer_id : Bytes
  pub service : Bytes
  pub listen_addr : Bytes
  pub max_streams : ℤ

pub record SidecarData : Type 0 where
  pub version : Bytes
  pub ports : List SidecarPort

-- "1"
abbrev pub sidecar_version : Bytes
sidecar_version = 49 ∷ []

-- What the file at the store's path holds for `os.ReadFile`.
pub data File : Type 0 where
  missing unreadable : File
  holds : Bytes → File

-- `SaveCurrentState`: the payload made of a snapshot of the router.
abbrev pub sidecar_port : PortInfo → SidecarPort
sidecar_port p = record {
  port = p.port;
  customer_id = p.customer_id;
  service = p.service;
  listen_addr = p.listen_addr;
  max_streams = p.max_streams;
}

abbrev pub sidecar_data : List PortInfo → SidecarData
sidecar_data ports = record { version = sidecar_version; ports = map sidecar_port ports }

-- `Save`: the file is written beside and renamed, so a save that fails leaves the old file.
unfoldable pub save_current_state : (SidecarData → Bytes) → Bool → File → List PortInfo → File
save_current_state marshal succeeds file ports =
    if succeeds then holds (marshal (sidecar_data ports)) else file

-- `Load`; `none` is an error.
unfoldable pub check_version : Option SidecarData → Option SidecarData
check_version none = none
check_version (some d) = if bytes_eq d.version sidecar_version then some d else none

unfoldable pub load : (Bytes → Option SidecarData) → File → Option SidecarData
unfolding check_version
load unmarshal missing = some (record { version = sidecar_version; ports = [] })
load unmarshal unreadable = none
load unmarshal (holds b) = check_version (unmarshal b)

abbrev pub is_empty : Bytes → Bool
is_empty [] = true
is_empty (b ∷ bs) = false

abbrev pub contains : ℤ → List ℤ → Bool
contains port [] = false
contains port (p ∷ ps) = eqb_ℤ p port || contains port ps

-- The guards of the loop over the sidecar's ports.
abbrev pub is_usable : (Bytes → Bool) → SidecarPort → Bool
is_usable is_ip sp =
    not (leb_ℤ sp.port (pos 0) || ltb_ℤ (pos 65535) sp.port)
    && not (is_empty sp.customer_id || is_empty sp.service)
    && not (not (is_empty sp.listen_addr) && not (is_ip sp.listen_addr))
    && not (ltb_ℤ sp.max_streams (pos 0))

module _ {R : Type 0} (is_ip : Bytes → Bool) (no_limit : R) where
  abbrev pub merged_entry : SidecarPort → PortIndexEntry R
  merged_entry sp = record {
    customer_id = sp.customer_id;
    service = sp.service;
    max_streams = sp.max_streams;
    listen_addr = or_field sp.listen_addr all_interfaces;
    rate_limit = no_limit;
  }

  -- The ports seen, and the index; the option is what the index holds for the port.
  pub record Merging : Type 0 where
    pub seen : List ℤ
    pub entries : Map ℤ (PortIndexEntry R)

  unfoldable pub merge_usable : Merging → SidecarPort → Option (PortIndexEntry R) → Merging
  merge_usable m sp (some existing) = record m { seen = sp.port ∷ m.seen }
  merge_usable m sp none = record {
    seen = sp.port ∷ m.seen;
    entries = insert sp.port (merged_entry sp) m.entries;
  }

  unfoldable pub merge_port : Merging → SidecarPort → Merging
  unfolding merge_usable
  merge_port m sp =
      if not (is_usable is_ip sp)
      then m
      else if contains sp.port m.seen
      then m
      else merge_usable m sp (lookup sp.port m.entries)

  unfoldable pub merge_ports : Merging → List SidecarPort → Merging
  unfolding merge_port
  merge_ports m [] = m
  merge_ports m (sp ∷ sps) = merge_ports (merge_port m sp) sps

  -- The index that the relay starts with: that of relay.yaml, and what the file adds to it. A file that
  -- cannot be loaded adds nothing.
  unfoldable pub merge_loaded :
      Map ℤ (PortIndexEntry R) → Option SidecarData → Map ℤ (PortIndexEntry R)
  unfolding merge_ports
  merge_loaded index none = index
  merge_loaded index (some d) =
      (merge_ports (record { seen = []; entries = index }) d.ports).entries
