-- ===== src/Peers/Cleanup.antt =====
-- runar-node/src/network/transport/peer_registry.rs: what `cleanup_stale_peers` leaves.
use rust_mono.Prelude.{
  ℕ, ◌+◌, ◌≡◌, refl, ap, ap₂, ◌∙◌, Bool, false, not, leb, ◌||◌, inl, inr, String, ◌==◌, eq_iff,
  eq_refl, Option, none, some, List, [], ◌∷◌, map, length, retain, if◌then◌else◌, Bool-cases, arith,
}
use rust_mono.Prelude.HashMap as Map
use rust_mono.Prelude.HashMap.{HashMap, remove_absent}
use rust_mono.Peers.Indexed.{IsIndexed}
use rust_mono.Peers.{
  PeerEntry, PeerRegistry, find_peer, is_stale, stale_keys, remove_all, remove_stale,
  cleanup_stale_peers,
}

-- A peer that a cleanup leaves: seen within the time to live, or at a time still to come.
abbrev pub fresh : ℕ → ℕ → Option PeerEntry → Option PeerEntry
fresh now ttl none = none
fresh now ttl (some e) = if leb now (e.last_seen + ttl) then some e else none

member : String → List String → Bool
member k [] = false
member k (j ∷ js) = (j == k) || member k js

remove-skip :
    (j k : String) (e : PeerEntry) (m : HashMap PeerEntry)
    → (j == k) ≡ false
    → Map.remove k ((j, e) ∷ m) ≡ (j, e) ∷ Map.remove k m
unfolding Map.remove
remove-skip j k e m apart = rw apart refl

remove-hit :
    (j : String) (e : PeerEntry) (m : HashMap PeerEntry)
    → Map.get j m ≡ none
    → Map.remove j ((j, e) ∷ m) ≡ m
unfolding Map.remove
remove-hit j e m single = rw (eq_refl j) (remove_absent j m single)

removed_count-remove_all :
    (ks : List String) (m : HashMap PeerEntry) (n : ℕ) → (remove_all ks m n).1 ≡ n + length ks
unfolding remove_all
removed_count-remove_all [] m n = omega arith
removed_count-remove_all (k ∷ ks) m n =
    omega (arith, removed_count-remove_all ks (Map.remove k m) (n + 1))

is_stale_lem :
    (now ttl : ℕ) (e : PeerEntry) → is_stale now ttl e ≡ not (leb now (e.last_seen + ttl))
unfolding is_stale
is_stale_lem now ttl e = ground arith

module _ (now ttl : ℕ) where
  abbrev stale_entry : String × PeerEntry → Bool
  stale_entry p = is_stale now ttl p.1

  abbrev stale_of : HashMap PeerEntry → List String
  stale_of m = map (λ (p : String × PeerEntry). p.0) (retain stale_entry m)

  abbrev pub left_of : HashMap PeerEntry → HashMap PeerEntry
  left_of m = retain (λ p. not (stale_entry p)) m

  member-stale_of :
      (k : String) (m : HashMap PeerEntry) → Map.get k m ≡ none → member k (stale_of m) ≡ false
  unfolding member Map.get
  member-stale_of k [] h = refl
  member-stale_of k ((j, e) ∷ m) h = ground (arith, member-stale_of k m)

  remove_all-skip :
      (ks : List String) (j : String) (e : PeerEntry) (m : HashMap PeerEntry) (n : ℕ)
      → member j ks ≡ false
      → (remove_all ks ((j, e) ∷ m) n).0 ≡ (j, e) ∷ (remove_all ks m n).0
  unfolding member remove_all Map.remove
  remove_all-skip [] j e m n h = refl
  remove_all-skip (k ∷ ks) j e m n h =
      let apart : (j == k) ≡ false = ground (arith, eq_iff j k, eq_iff k j) in
      ap (λ (l : HashMap PeerEntry). (remove_all ks l (n + 1)).0) (remove-skip j k e m apart)
      ∙ remove_all-skip ks j e (Map.remove k m) (n + 1) (ground arith)

  remove_all-stale_of :
      (m : HashMap PeerEntry) (n : ℕ) → IsIndexed m → (remove_all (stale_of m) m n).0 ≡ left_of m
  unfolding remove_all Map.remove IsIndexed
  remove_all-stale_of [] n h = refl
  remove_all-stale_of ((j, e) ∷ m) n (single, own, h) = elim (Bool-cases (is_stale now ttl e)) [
    | inl old ↦ rw old (
        ap (λ (l : HashMap PeerEntry). (remove_all (stale_of m) l (n + 1)).0)
          (remove-hit j e m single)
        ∙ remove_all-stale_of m (n + 1) h)
    | inr recent ↦ rw recent (
        remove_all-skip (stale_of m) j e m n (member-stale_of j m single)
        ∙ ap (λ (rest : HashMap PeerEntry). (j, e) ∷ rest) (remove_all-stale_of m n h))
  ]

  pub get-left_of :
      (k : String) (m : HashMap PeerEntry)
      → IsIndexed m
      → Map.get k (left_of m) ≡ fresh now ttl (Map.get k m)
  unfolding Map.get IsIndexed
  get-left_of k [] h = refl
  get-left_of k ((j, e) ∷ m) (single, own, h) =
      ground (arith, single, eq_iff j k, is_stale_lem now ttl e, get-left_of k m h)

  length-left_of : (m : HashMap PeerEntry) → length (stale_of m) + length (left_of m) ≡ length m
  length-left_of [] = refl
  length-left_of (p ∷ m) = ground (arith, length-left_of m)

remove_stale-remove_all :
    (keys : List String) (r : PeerRegistry)
    → ((remove_stale keys r).0.peers ≡ (remove_all keys r.peers 0).0)
      × ((remove_stale keys r).1 ≡ length keys)
unfolding remove_stale remove_all
remove_stale-remove_all [] r = (refl, refl)
remove_stale-remove_all (key ∷ keys) r =
    (refl, removed_count-remove_all (key ∷ keys) r.peers 0 ∙ omega arith)

pub peers-cleanup_stale_peers :
    (now : ℕ) (r : PeerRegistry)
    → IsIndexed r.peers
    → (cleanup_stale_peers now r).0.peers ≡ left_of now r.options.peer_ttl r.peers
unfolding cleanup_stale_peers stale_keys
peers-cleanup_stale_peers now r h =
    (remove_stale-remove_all (stale_keys now r) r).0
    ∙ remove_all-stale_of now r.options.peer_ttl r.peers 0 h

options-remove_stale :
    (keys : List String) (r : PeerRegistry) → (remove_stale keys r).0.options ≡ r.options
unfolding remove_stale
options-remove_stale [] r = refl
options-remove_stale (key ∷ keys) r = refl

pub options-cleanup_stale_peers :
    (now : ℕ) (r : PeerRegistry) → (cleanup_stale_peers now r).0.options ≡ r.options
unfolding cleanup_stale_peers
options-cleanup_stale_peers now r = options-remove_stale (stale_keys now r) r

-- If the map holds each peer once, under its own public key, then after `cleanup_stale_peers`
-- `find_peer` gives the peers it gave before that were seen within the time to live or have a time
-- of last sight still to come, and no others; the number it answers and the number of peers left
-- make the number of peers before.
pub find_peer-cleanup_stale_peers :
    (now : ℕ) (r : PeerRegistry)
    → IsIndexed r.peers
    → ((key : String)
        → find_peer key (cleanup_stale_peers now r).0
          ≡ fresh now r.options.peer_ttl (find_peer key r))
      × ((cleanup_stale_peers now r).1 + length (cleanup_stale_peers now r).0.peers
          ≡ length r.peers)
unfolding find_peer cleanup_stale_peers stale_keys
find_peer-cleanup_stale_peers now r h =
    let ttl = r.options.peer_ttl in
    (
      λ key.
          ap (Map.get key) (peers-cleanup_stale_peers now r h) ∙ get-left_of now ttl key r.peers h,
      ap₂ (λ (n : ℕ) (l : HashMap PeerEntry). n + length l)
            ((remove_stale-remove_all (stale_keys now r) r).1) (peers-cleanup_stale_peers now r h)
          ∙ length-left_of now ttl r.peers,
    )
