-- ===== src/Trie/Networks/Own.antt =====
-- runar-node/src/routing/path_registry.rs: taking away everything that stands under a topic's key,
-- and what a search for any path then misses.
use rust_mono.Prelude.{
  ℕ, ◌+◌, ◌≡◌, refl, ap, ap₂, sym, ◌∙◌, inl, inr, Bool, true, false, ◌&&◌, String, ◌==◌, eq_iff,
  List, [], ◌∷◌, map, length, ltb, arith, if◌then◌else◌, Bool-cases, retain,
}
use rust_mono.Prelude.Bag.{total, total-map, total-retain, total_one}
use rust_mono.Routing.TopicPath.{TopicPath, get_segments}
use rust_mono.Trie.{PathTrie, node, get_child}
use rust_mono.Trie.Search.{find}
use rust_mono.Trie.Removal.{remove_handler}
use rust_mono.Trie.Entries.{Key, text, star, param, tail, keys, Entry}
use rust_mono.Trie.Entries.OneChild.{ChildMaps-get_child}
use rust_mono.Trie.Entries.Find.{fits, total-fitting, if_fits}
use rust_mono.Trie.Entries.Dropping.{same_key, same_keys, drop_key}
use rust_mono.Trie.Entries.Remove.{under_key}
use rust_mono.Trie.Entries.Removed.{removed_in-total, handler_removed-total}
use rust_mono.Trie.Networks.{
  IsRegistry, entries_of, find-fitting, total-remove_handler, remove_handler-IsRegistry,
}

-- A registration under a topic is found by a search.
abbrev pub serves : TopicPath → TopicPath → Bool
serves topic q =
    topic.network_id == q.network_id && fits (keys (get_segments topic)) (get_segments q)

same_key_sound : (a b : Key) → same_key a b ≡ true → a ≡ b
same_key_sound (text a) (text b) h = ap text ((eq_iff a b).0 h)
same_key_sound star star h = refl
same_key_sound param param h = refl
same_key_sound tail tail h = refl
same_key_sound _ _ h = cc

same_keys_sound : (as' bs : List Key) → same_keys as' bs ≡ true → as' ≡ bs
same_keys_sound [] [] h = refl
same_keys_sound (a ∷ as') (b ∷ bs) h =
    ap₂ (λ x xs. x ∷ xs) (same_key_sound a b (ground arith)) (same_keys_sound as' bs (ground arith))
same_keys_sound _ _ h = cc

module _ {X : Type 0} where
  abbrev pub all_of : X → Bool
  all_of x = true

  -- The handlers that stand under a topic's key.
  abbrev pub own : TopicPath → PathTrie X → List X
  own topic trie =
      map (λ e. e.1)
        (retain (under_key all_of (keys (get_segments topic))) (entries_of topic.network_id trie))

  total-own :
      (w : X → ℕ) (topic : TopicPath) (t : PathTrie X)
      → total w (own topic t)
        ≡ total
            (λ e. if under_key all_of (keys (get_segments topic)) e then w e.1 else 0)
            (entries_of topic.network_id t)
  total-own w topic t = simp (total-map, total-retain)

  -- Under one key either all handlers fit a path or none.
  total-split :
      (ks : List Key) (q : List String) (w : X → ℕ) (es : List (Entry X))
      → total (drop_key all_of ks (if_fits q w)) es
          + (if fits ks q then total (λ e. if under_key all_of ks e then w e.1 else 0) es else 0)
        ≡ total (if_fits q w) es
  total-split ks q w [] = ground arith
  total-split ks q w ((js, x) ∷ es) = elim (Bool-cases (same_keys js ks)) [
    | inl same ↦
        rw same
          (ground (arith, total-split ks q w es, ap (λ k. fits k q) (same_keys_sound js ks same)))
    | inr other ↦ rw other (ground (arith, total-split ks q w es))
  ]

  -- What is lost to a search by taking everything under a topic away.
  pub find-remove_own :
      (topic q : TopicPath) (w : X → ℕ) (t : PathTrie X)
      → IsRegistry t
      → q.is_pattern ≡ false
      → total w (find (remove_handler all_of topic t).0 q)
          + (if serves topic q then total w (own topic t) else 0)
        ≡ total w (find t q)
  find-remove_own topic q w t m concrete =
      let n = q.network_id in
      let ks = keys (get_segments topic) in
      let segments = get_segments q in
      let after = (remove_handler all_of topic t).0 in
      let v = if_fits segments w in
      let found_after =
        find-fitting after q (remove_handler-IsRegistry all_of topic t m) concrete w
        ∙ total-fitting segments w (entries_of n after) in
      let found_before =
        find-fitting t q m concrete w ∙ total-fitting segments w (entries_of n t) in
      let removal = total-remove_handler all_of topic t n v m in
      elim (Bool-cases (topic.network_id == n)) [
        | inl same ↦
            let owned =
              total-own w topic t
              ∙ ap
                  (λ (k : String).
                    total (λ e. if under_key all_of ks e then w e.1 else 0) (entries_of k t))
                  ((eq_iff topic.network_id n).0 same) in
            let dropped : total v (entries_of n after)
                ≡ total (drop_key all_of ks v) (entries_of n t) =
              rw same at removal in
            ground (
              arith,
              found_after,
              found_before,
              dropped,
              owned,
              same,
              total-split ks segments w (entries_of n t),
            )
        | inr other ↦
            let untouched : total v (entries_of n after) ≡ total v (entries_of n t) =
              rw other at removal in
            ground (arith, found_after, found_before, untouched, other)
      ]

  -- The answer of `remove_handler`: did something stand under the topic?
  pub remove_handler-own :
      (topic : TopicPath) (t : PathTrie X)
      → IsRegistry t
      → (remove_handler all_of topic t).1 ≡ ltb 0 (length (own topic t))
  unfolding remove_handler
  remove_handler-own topic (node c ch wc tm name mw nw) m =
      let t = node c ch wc tm name mw nw in
      let n = topic.network_id in
      let segments = get_segments topic in
      removed_in-total all_of _ (keys segments) (get_child n nw)
        (handler_removed-total all_of segments) (ChildMaps-get_child n nw m)
      ∙ ap (ltb 0) (sym (total-own (λ _. 1) topic t) ∙ total_one (own topic t))

  pub own-unmatched :
      (topic : TopicPath) (t : PathTrie X)
      → IsRegistry t
      → topic.is_pattern ≡ false
      → serves topic topic ≡ true
      → find t topic ≡ []
      → (w : X → ℕ) → total w (own topic t) ≡ 0
  own-unmatched topic t m concrete self nothing w =
      ground (arith, find-remove_own topic topic w t m concrete, ap (total w) nothing, self)
