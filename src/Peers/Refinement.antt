-- ===== src/Peers/Refinement.antt =====
-- runar-node/src/network/transport/peer_registry.rs: a registry behaves as a function from keys to
-- entries, whatever calls are made one after the other.
use rust_mono.Prelude.{
  ℕ, ◌≡◌, refl, sym, ap, ◌∙◌, String, ◌==◌, eq_iff, Option, none, some, List, [], ◌∷◌,
  if◌then◌else◌, arith,
}
use mathlib.Core.Path.{subst}
use rust_mono.Prelude.HashMap as Map
use rust_mono.Prelude.HashMap.{HashMap, get-insert, get-remove}
use rust_mono.Peers.{
  discovered, PeerInfo, PeerId, PeerStatus, PeerEntry, PeerRegistry, PeerRegistryOptions, new_entry,
  seen_again, set_status, find_peer, change_entry, add_or_update, add_peer, PeerError,
  update_peer_status, update_peer, remove_entry, remove_peer, cleanup_stale_peers,
}
use rust_mono.Peers.Indexed.{
  IsIndexed, IsIndexed-insert, IsIndexed-remove, IsIndexed-retain, get-own_key,
}
use rust_mono.Peers.Cleanup.{
  fresh, options-cleanup_stale_peers, peers-cleanup_stale_peers, get-left_of,
}

-- The calls that change a registry.
pub data Call : Type 0 where
  add refresh : PeerInfo → Call
  mark : PeerId → PeerStatus → Call
  remove : PeerId → Call
  cleanup : Call

unfoldable pub run : ℕ → Call → PeerRegistry → PeerRegistry
unfolding add_peer update_peer update_peer_status remove_peer cleanup_stale_peers
run now (add info) r = (add_peer now info r).0
run now (refresh info) r = (update_peer now info r).0
run now (mark id status) r = (update_peer_status now id status r).0
run now (remove id) r = (remove_peer id r).0
run now cleanup r = (cleanup_stale_peers now r).0

unfoldable pub run_all : List (ℕ × Call) → PeerRegistry → PeerRegistry
unfolding run
run_all [] r = r
run_all ((now, call) ∷ calls) r = run_all calls (run now call r)

-- The abstract state: which entry a key has.
abbrev pub Peers : Type 0
Peers = String → Option PeerEntry

abbrev update : String → (Option PeerEntry → Option PeerEntry) → Peers → Peers
update key change peers k = if key == k then change (peers key) else peers k

abbrev seen : ℕ → PeerInfo → PeerEntry → PeerEntry
seen now info e = record e { peer_info = info; last_seen = now }

abbrev added : ℕ → PeerInfo → Option PeerEntry → Option PeerEntry
added now info none = some (record {
  peer_info = info;
  last_seen = now;
  status = discovered;
  status_changed = now;
  connection_attempts = 0;
  metadata = [];
})
added now info (some e) = some (seen now info e)

abbrev marked : ℕ → PeerStatus → PeerEntry → PeerEntry
marked now status e = record e { status = status; status_changed = now }

abbrev changed : (PeerEntry → PeerEntry) → Option PeerEntry → Option PeerEntry
changed f none = none
changed f (some e) = some (f e)

abbrev pub abstract_run : ℕ → ℕ → Call → Peers → Peers
abstract_run ttl now (add info) peers = update info.public_key (added now info) peers
abstract_run ttl now (refresh info) peers = update info.public_key (changed (seen now info)) peers
abstract_run ttl now (mark id status) peers =
    update id.public_key (changed (marked now status)) peers
abstract_run ttl now (remove id) peers = update id.public_key (λ e. none) peers
abstract_run ttl now cleanup peers = λ k. fresh now ttl (peers k)

abbrev pub abstract_run_all : ℕ → List (ℕ × Call) → Peers → Peers
abstract_run_all ttl [] peers = peers
abstract_run_all ttl ((now, call) ∷ calls) peers =
    abstract_run_all ttl calls (abstract_run ttl now call peers)

-- A registry that came out of another one as the abstract change says.
Follows : PeerRegistry → (Peers → Peers) → PeerRegistry → Type 0
Follows r change after =
    IsIndexed after.peers
    × ((k : String) → Map.get k after.peers ≡ change (λ j. Map.get j r.peers) k)
    × (after.options ≡ r.options)

Follows-change_entry :
    (key : String) (f : PeerEntry → PeerEntry) (missing : PeerError) (r : PeerRegistry)
    → ((e : PeerEntry) → e.peer_info.public_key ≡ key → (f e).peer_info.public_key ≡ key)
    → IsIndexed r.peers
    → (o : Option PeerEntry) → Map.get key r.peers ≡ o
    → Follows r (update key (changed f)) (change_entry key f missing r o).0
unfolding Follows change_entry
Follows-change_entry key f missing r own h none absent =
    (h, λ k. rw absent (ground (arith, absent, eq_iff key k)), refl)
Follows-change_entry key f missing r own h (some e) found = (
  IsIndexed-insert key (f e) r.peers (own e (get-own_key key e r.peers h found)) h,
  λ k. rw found (get-insert key k (f e) r.peers),
  refl,
)

Follows-add_or_update :
    (now : ℕ) (info : PeerInfo) (r : PeerRegistry)
    → IsIndexed r.peers
    → (o : Option PeerEntry) → Map.get info.public_key r.peers ≡ o
    → Follows r (update info.public_key (added now info)) (add_or_update now info r o)
unfolding Follows add_or_update new_entry seen_again
Follows-add_or_update now info r h none absent = (
  IsIndexed-insert info.public_key (new_entry now info) r.peers refl h,
  λ k. rw absent (get-insert info.public_key k (new_entry now info) r.peers),
  refl,
)
Follows-add_or_update now info r h (some e) found = (
  IsIndexed-insert info.public_key (seen_again now info e) r.peers refl h,
  λ k. rw found (get-insert info.public_key k (seen_again now info e) r.peers),
  refl,
)

Follows-remove_entry :
    (key : String) (r : PeerRegistry)
    → IsIndexed r.peers
    → (o : Option PeerEntry) → Map.get key r.peers ≡ o
    → Follows r (update key (λ e. none)) (remove_entry key r o).0
unfolding Follows remove_entry
Follows-remove_entry key r h none absent = (h, λ k. ground (arith, absent, eq_iff key k), refl)
Follows-remove_entry key r h (some e) found =
    (IsIndexed-remove key r.peers h, λ k. get-remove key k r.peers, refl)

Follows-cleanup :
    (now : ℕ) (r : PeerRegistry)
    → IsIndexed r.peers
    → Follows r (λ peers k. fresh now r.options.peer_ttl (peers k)) (cleanup_stale_peers now r).0
unfolding Follows
Follows-cleanup now r h =
    let left = peers-cleanup_stale_peers now r h in
    (
      subst IsIndexed (sym left) (IsIndexed-retain _ r.peers h),
      λ k. ap (Map.get k) left ∙ get-left_of now r.options.peer_ttl k r.peers h,
      options-cleanup_stale_peers now r,
    )

Follows-run :
    (now : ℕ) (call : Call) (r : PeerRegistry)
    → IsIndexed r.peers
    → Follows r (abstract_run r.options.peer_ttl now call) (run now call r)
unfolding run add_peer update_peer update_peer_status remove_peer set_status seen_again
Follows-run now (add info) r h = Follows-add_or_update now info r h _ refl
Follows-run now (refresh info) r h =
    Follows-change_entry info.public_key (seen_again now info) _ r (λ e own. refl) h _ refl
Follows-run now (mark id status) r h =
    Follows-change_entry id.public_key (set_status now status) _ r (λ e own. own) h _ refl
Follows-run now (remove id) r h = Follows-remove_entry id.public_key r h _ refl
Follows-run now cleanup r h = Follows-cleanup now r h

-- Abstract runs from states that agree everywhere agree.
abstract_run-agrees :
    (ttl now : ℕ) (call : Call) (f g : Peers)
    → ((k : String) → f k ≡ g k)
    → (k : String) → abstract_run ttl now call f k ≡ abstract_run ttl now call g k
abstract_run-agrees ttl now (add info) f g same k = rw (same info.public_key, same k) refl
abstract_run-agrees ttl now (refresh info) f g same k = rw (same info.public_key, same k) refl
abstract_run-agrees ttl now (mark id status) f g same k = rw (same id.public_key, same k) refl
abstract_run-agrees ttl now (remove id) f g same k = rw (same k) refl
abstract_run-agrees ttl now cleanup f g same k = rw (same k) refl

abstract_run_all-agrees :
    (ttl : ℕ) (calls : List (ℕ × Call)) (f g : Peers)
    → ((k : String) → f k ≡ g k)
    → (k : String) → abstract_run_all ttl calls f k ≡ abstract_run_all ttl calls g k
abstract_run_all-agrees ttl [] f g same = same
abstract_run_all-agrees ttl ((now, call) ∷ calls) f g same =
    abstract_run_all-agrees ttl calls _ _ (abstract_run-agrees ttl now call f g same)

-- From a registry whose map holds each peer once, under its own public key, any sequence of
-- `add_peer`, `update_peer`, `update_peer_status`, `remove_peer` and `cleanup_stale_peers` leads to
-- another such registry, and `find_peer` then answers as the function from keys to entries does
-- that each call changes at its own key only, a cleanup at the stale entries.
-- `max_peers_per_network`, documented as the most peers to track, is read by none of them: no call
-- is refused and no peer dropped because there are too many.
pub find_peer-run_all :
    (calls : List (ℕ × Call)) (r : PeerRegistry)
    → IsIndexed r.peers
    → IsIndexed (run_all calls r).peers
      × ((key : String)
          → find_peer key (run_all calls r)
            ≡ abstract_run_all r.options.peer_ttl calls (λ j. find_peer j r) key)
unfolding run_all find_peer Follows
find_peer-run_all [] r h = (h, λ key. refl)
find_peer-run_all ((now, call) ∷ calls) r h =
    let (indexed, lookups, options) = Follows-run now call r h in
    let (all_indexed, rest) = find_peer-run_all calls (run now call r) indexed in
    (
      all_indexed,
      λ key.
          rest key
          ∙ ap
              (λ (o : PeerRegistryOptions).
                abstract_run_all o.peer_ttl calls (λ j. Map.get j (run now call r).peers) key)
              options
          ∙ abstract_run_all-agrees r.options.peer_ttl calls _ _ lookups key,
    )
