-- ===== src/Peers.antt =====
-- runar-node/src/network/transport/peer_registry.rs: the registry of known peers. The clock is an
-- argument `now` of each operation that reads it; times and durations are natural numbers.
pub mod Indexed
pub mod Cleanup
pub mod Refinement
mod Tests
use rust_mono.Prelude.{
  ℕ, zero, suc, ◌+◌, ◌-◌, Bool, true, false, not, eqb, ltb, leb, String, Option, none, some, List,
  [], ◌∷◌, map, is_empty, retain, if◌then◌else◌,
}
use rust_mono.Prelude.Result.{Result, ok, err}
use rust_mono.Prelude.HashMap as Map
use rust_mono.Prelude.HashMap.{HashMap}

pub record PeerInfo : Type 0 where
  pub public_key : String
  pub addresses : List String

pub record PeerId : Type 0 where
  pub public_key : String

pub data PeerStatus : Type 0 where
  discovered connecting connected disconnecting disconnected : PeerStatus

abbrev rank : PeerStatus → ℕ
rank discovered = 0
rank connecting = 1
rank connected = 2
rank disconnecting = 3
rank disconnected = 4

abbrev pub status_eq : PeerStatus → PeerStatus → Bool
status_eq a b = eqb (rank a) (rank b)

pub record PeerEntry : Type 0 where
  pub peer_info : PeerInfo
  pub last_seen : ℕ
  pub status : PeerStatus
  pub status_changed : ℕ
  pub connection_attempts : ℕ
  pub metadata : HashMap String

-- `PeerEntry::new`.
unfoldable pub new_entry : ℕ → PeerInfo → PeerEntry
new_entry now info = record {
  peer_info = info;
  last_seen = now;
  status = discovered;
  status_changed = now;
  connection_attempts = 0;
  metadata = [];
}

unfoldable pub set_status : ℕ → PeerStatus → PeerEntry → PeerEntry
set_status now status e = record e { status = status; status_changed = now }

unfoldable pub set_metadata : String → String → PeerEntry → PeerEntry
set_metadata key value e = record e { metadata = Map.insert key value e.metadata }

-- What `add_peer` and `update_peer` write into an entry that is there.
unfoldable pub seen_again : ℕ → PeerInfo → PeerEntry → PeerEntry
seen_again now info e = record e { peer_info = info; last_seen = now }

pub record PeerRegistryOptions : Type 0 where
  pub max_peers_per_network : ℕ
  pub peer_ttl : ℕ
  pub cleanup_interval : ℕ

-- In seconds.
abbrev pub default_options : PeerRegistryOptions
default_options = record { max_peers_per_network = 100; peer_ttl = 3600; cleanup_interval = 300 }

pub record PeerRegistry : Type 0 where
  pub peers : HashMap PeerEntry
  pub options : PeerRegistryOptions

unfoldable pub with_options : PeerRegistryOptions → PeerRegistry
with_options options = record { peers = []; options = options }

unfoldable pub new : PeerRegistry
unfolding with_options
new = with_options default_options

pub data PeerError : Type 0 where
  peer_not_found peer_not_found_for_update : String → PeerError

-- The new state, and `Ok(())` or the error.
abbrev pub Outcome : Type 0
Outcome = PeerRegistry × Result PeerError (Unit {0})

abbrev pub with_peers : HashMap PeerEntry → PeerRegistry → PeerRegistry
with_peers peers r = record r { peers = peers }

unfoldable pub find_peer : String → PeerRegistry → Option PeerEntry
find_peer key r = Map.get key r.peers

-- A change of the entry that `get_mut` gave.
unfoldable pub change_entry :
    String → (PeerEntry → PeerEntry) → PeerError → PeerRegistry → Option PeerEntry → Outcome
change_entry key change missing r none = (r, err missing)
change_entry key change missing r (some e) =
    (with_peers (Map.insert key (change e) r.peers) r, ok tt)

unfoldable pub add_or_update : ℕ → PeerInfo → PeerRegistry → Option PeerEntry → PeerRegistry
unfolding new_entry seen_again
add_or_update now info r none =
    with_peers (Map.insert info.public_key (new_entry now info) r.peers) r
add_or_update now info r (some e) =
    with_peers (Map.insert info.public_key (seen_again now info e) r.peers) r

unfoldable pub add_peer : ℕ → PeerInfo → PeerRegistry → Outcome
unfolding add_or_update
add_peer now info r = (add_or_update now info r (Map.get info.public_key r.peers), ok tt)

unfoldable pub update_peer_status : ℕ → PeerId → PeerStatus → PeerRegistry → Outcome
unfolding change_entry set_status
update_peer_status now id status r =
    change_entry id.public_key (set_status now status) (peer_not_found id.public_key) r
      (Map.get id.public_key r.peers)

unfoldable pub update_peer : ℕ → PeerInfo → PeerRegistry → Outcome
unfolding change_entry seen_again
update_peer now info r =
    change_entry info.public_key (seen_again now info) (peer_not_found_for_update info.public_key) r
      (Map.get info.public_key r.peers)

abbrev values : HashMap PeerEntry → List PeerEntry
values peers = map (λ (p : String × PeerEntry). p.1) peers

unfoldable pub find_peers_by_status : PeerStatus → PeerRegistry → List PeerEntry
find_peers_by_status status r = retain (λ p. status_eq p.status status) (values r.peers)

unfoldable pub get_all_peers : PeerRegistry → List PeerEntry
get_all_peers r = values r.peers

-- The removal that `HashMap::remove` does, and its answer.
unfoldable pub remove_entry : String → PeerRegistry → Option PeerEntry → Outcome
remove_entry key r none = (r, err (peer_not_found key))
remove_entry key r (some e) = (with_peers (Map.remove key r.peers) r, ok tt)

unfoldable pub remove_peer : PeerId → PeerRegistry → Outcome
unfolding remove_entry
remove_peer id r = remove_entry id.public_key r (Map.get id.public_key r.peers)

-- `SystemTime::elapsed`: an error for a time that is still to come.
abbrev pub elapsed : ℕ → ℕ → Option ℕ
elapsed now time = if leb time now then some (now - time) else none

abbrev longer_than : ℕ → Option ℕ → Bool
longer_than ttl none = false
longer_than ttl (some d) = ltb ttl d

unfoldable pub is_stale : ℕ → ℕ → PeerEntry → Bool
is_stale now ttl peer = longer_than ttl (elapsed now peer.last_seen)

unfoldable pub stale_keys : ℕ → PeerRegistry → List String
unfolding is_stale
stale_keys now r =
    map (λ (p : String × PeerEntry). p.0)
      (retain (λ (p : String × PeerEntry). is_stale now r.options.peer_ttl p.1) r.peers)

unfoldable pub remove_all : List String → HashMap PeerEntry → ℕ → HashMap PeerEntry × ℕ
remove_all [] peers removed_count = (peers, removed_count)
remove_all (key ∷ keys) peers removed_count =
    remove_all keys (Map.remove key peers) (removed_count + 1)

unfoldable pub remove_stale : List String → PeerRegistry → PeerRegistry × ℕ
unfolding remove_all
remove_stale keys r =
    if is_empty keys
    then (r, 0)
    else (let (peers, removed_count) = remove_all keys r.peers 0 in
        (with_peers peers r, removed_count))

-- The two locks one after the other: nothing happens between the search and the removals.
unfoldable pub cleanup_stale_peers : ℕ → PeerRegistry → PeerRegistry × ℕ
unfolding stale_keys remove_stale
cleanup_stale_peers now r = remove_stale (stale_keys now r) r
