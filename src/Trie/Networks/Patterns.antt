-- ===== src/Trie/Networks/Patterns.antt =====
-- runar-node/src/routing/path_registry.rs: `find` with a wildcard pattern, by `find_wildcard_matches`.
use rust_mono.Prelude.{ℕ, ◌≡◌, sym, ◌∙◌, true, String, List, [], ◌++◌, map, arith}
use rust_mono.Prelude.Bag.{total, total-append, total-map, SameItems}
use rust_mono.Routing.TopicPath.{TopicPath, get_segments}
use rust_mono.Trie.{PathTrie, node, Child, absent, present, get_child}
use rust_mono.Trie.Search.{
  find, find_matches, find_wildcard_matches, collect_in, collect_wildcard_matches,
}
use rust_mono.Trie.Entries.{Entry, entries_child, total-present, total-absent}
use rust_mono.Trie.Entries.Distinct.{HasMaps, ChildMaps}
use rust_mono.Trie.Entries.OneChild.{ChildMaps-get_child}
use rust_mono.Trie.Entries.Collect.{
  selects, selects_before, selected, if_collects, total-collects, gathered-collect_wildcard_matches,
}
use rust_mono.Trie.Networks.{IsRegistry, entries_of}

module _ {ℓ} {T : Type ℓ} where
  abbrev selected_by : List String → List (Entry T) → List T
  selected_by q es = selected (selects q) es ++ selected (selects_before q) es

  total-selected_by :
      (q : List String) (w : T → ℕ) (es : List (Entry T))
      → total w (selected_by q es) ≡ total (if_collects q w) es
  total-selected_by q w es =
      total-append w (selected (selects q) es) (selected (selects_before q) es)
      ∙ sym (total-collects q w es)

  collected_in :
      (q : List String) (c : Child T)
      → ChildMaps c
      → SameItems
          (map (λ m. m.content) (collect_in (collect_wildcard_matches q) c []))
          (selected_by q (entries_child c))
  unfolding HasMaps
  collected_in q absent m w =
      sym (total-selected_by q w (entries_child absent) ∙ total-absent (if_collects q w))
  collected_in q (present t) m w =
      total-map w (λ m'. m'.content) (collect_wildcard_matches q t [])
      ∙ omega (
        arith,
        gathered-collect_wildcard_matches q w t [] m,
        total-selected_by q w (entries_child (present t)),
        total-present (if_collects q w) t,
      )

  -- For a wildcard pattern `find` implements its specification: it finds, up to order, exactly the
  -- handlers of the pattern's network whose keys the pattern selects as it is documented (`*` one
  -- segment of any kind, `>` one or more that are left, any other segment the same text) and beside
  -- them, against the documentation, those whose whole keys are selected by what stands before the
  -- pattern's final `>`, which so takes no segment; the maps of the trie hold each key once.
  pub find-selected :
      (t : PathTrie T) (q : TopicPath)
      → IsRegistry t
      → q.is_pattern ≡ true
      → SameItems (find t q) (
          selected (selects (get_segments q)) (entries_of q.network_id t)
          ++ selected (selects_before (get_segments q)) (entries_of q.network_id t))
  unfolding find find_matches find_wildcard_matches get_segments
  find-selected (node c ch wc tm name mw nw) q m wild w = rw wild (
      collected_in (get_segments q) (get_child q.network_id nw)
        (ChildMaps-get_child q.network_id nw m) w)
