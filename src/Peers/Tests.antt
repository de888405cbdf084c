-- ===== src/Peers/Tests.antt =====
-- runar-node/src/network/transport/peer_registry.rs: a registry with two peers, one of them stale.
use rust_mono.Prelude.{ℕ, ◌+◌, length, ◌≡◌, refl, String, List, [], ◌∷◌}
use rust_mono.Prelude.HashMap as Map
use rust_mono.Peers.{
  PeerInfo, connected, PeerRegistry, new, with_options, new_entry, set_status, find_peer,
  update_peer_status, change_entry, is_stale, stale_keys, remove_all, remove_stale,
  cleanup_stale_peers, add_peer, add_or_update,
}
use rust_mono.Peers.Indexed.{IsIndexed}
use rust_mono.Peers.Cleanup.{fresh, find_peer-cleanup_stale_peers}
use rust_mono.Peers.Refinement.{Call, add, mark, run, run_all, abstract_run_all, find_peer-run_all}

abbrev ann : PeerInfo
ann = record { public_key = "ann"; addresses = "10.0.0.1:9" ∷ [] }

abbrev bob : PeerInfo
bob = record { public_key = "bob"; addresses = [] }

abbrev two_adds : List (ℕ × Call)
two_adds =
    (1, add ann) ∷ (3000, add bob) ∷ (3001, mark (record { public_key = "bob" }) connected) ∷ []

abbrev two_peers : PeerRegistry
two_peers = run_all two_adds new

new-IsIndexed : IsIndexed new.peers
unfolding IsIndexed new with_options
new-IsIndexed = tt

two_peers-IsIndexed : IsIndexed two_peers.peers
two_peers-IsIndexed = (find_peer-run_all two_adds new new-IsIndexed).0

cleaned : (cleanup_stale_peers 4000 two_peers).1 ≡ 1
unfolding cleanup_stale_peers stale_keys is_stale remove_stale remove_all run_all run add_peer
    add_or_update new_entry Map.get Map.insert Map.remove update_peer_status change_entry set_status
    new with_options
cleaned = refl

find_peer-run_all_example :
    IsIndexed (run_all two_adds new).peers
    × ((key : String)
        → find_peer key (run_all two_adds new)
          ≡ abstract_run_all new.options.peer_ttl two_adds (λ j. find_peer j new) key)
find_peer-run_all_example = find_peer-run_all two_adds new new-IsIndexed

find_peer-cleanup_stale_peers_example :
    ((key : String)
      → find_peer key (cleanup_stale_peers 4000 two_peers).0
        ≡ fresh 4000 two_peers.options.peer_ttl (find_peer key two_peers))
    × ((cleanup_stale_peers 4000 two_peers).1 + length (cleanup_stale_peers 4000 two_peers).0.peers
        ≡ length two_peers.peers)
find_peer-cleanup_stale_peers_example =
    find_peer-cleanup_stale_peers 4000 two_peers two_peers-IsIndexed
