-- ===== src/Trie/Entries/Collect.antt =====
-- runar-node/src/routing/path_registry.rs: `collect_wildcard_matches` yields the handlers of the
-- entries whose keys fit a pattern.
use rust_mono.Prelude.{
  ℕ, ◌+◌, ◌≡◌, refl, ap, ◌∙◌, inl, inr, Bool, true, false, ◌&&◌, String, ◌==◌, eq_iff, List, [],
  ◌∷◌, ◌++◌, map, arith, if◌then◌else◌, Bool-cases, retain,
}
use rust_mono.Prelude.Bag.{total, total-append, total-map, total_ext, total_zero, total-retain}
use rust_mono.Trie.{
  PathTrie, node, Children, no_children, child_entry, Child, absent, present, PathTrieMatch,
  get_child,
}
use rust_mono.Trie.Search.{
  with_params, collect_all_handlers, collect_all_children, collect_all_child, Collector,
  collect_each, collect_in, collect_level, collect_wildcard_matches,
}
use rust_mono.Trie.Entries.{
  Key, text, star, param, tail, Entry, below, entries, entries_children, entries_child,
  total-entries, total-entries_children, total-no_children, total-absent, total-present,
}
use rust_mono.Trie.Entries.Distinct.{HasMaps, ChildrenMaps, ChildMaps}
use rust_mono.Trie.Entries.OneChild.{ChildMaps-get_child, total-no_text, total-one_child}

abbrev one_segment : Key → Bool
one_segment tail = false
one_segment _ = true

abbrev is_text_of : String → Key → Bool
is_text_of s (text a) = a == s
is_text_of s _ = false

-- Whether a pattern that is searched for selects a key, as it is documented: `*` selects one segment
-- of any kind, `>` one or more, and any other segment the same text.
unfoldable pub selects : List String → List Key → Bool
selects [] [] = true
selects [] (k ∷ ks) = false
selects (s ∷ q) [] = false
selects (s ∷ q) (k ∷ ks) =
    if s == "*"
    then one_segment k && selects q ks
    else if s == ">"
    then true
    else is_text_of s k && selects q ks

-- Whether what stands before the final `>` of a pattern selects the whole key.
unfoldable pub selects_before : List String → List Key → Bool
selects_before [] ks = false
selects_before (s ∷ q) [] = if s == "*" then false else s == ">"
selects_before (s ∷ q) (k ∷ ks) =
    if s == "*"
    then one_segment k && selects_before q ks
    else if s == ">"
    then false
    else is_text_of s k && selects_before q ks

-- Whether the search collects the handlers of a key: a final `>` takes what is left, if anything.
unfoldable pub collects : List String → List Key → Bool
collects [] [] = true
collects [] (k ∷ ks) = false
collects (s ∷ q) [] = if s == "*" then false else s == ">"
collects (s ∷ q) (k ∷ ks) =
    if s == "*"
    then one_segment k && collects q ks
    else if s == ">"
    then true
    else is_text_of s k && collects q ks

module _ {ℓ} {T : Type ℓ} where
  abbrev pub gathered : (T → ℕ) → List (PathTrieMatch T) → ℕ
  gathered w results = total (λ m. w m.content) results

  abbrev pub every : (T → ℕ) → Entry T → ℕ
  every w (ks, h) = w h

  abbrev pub if_collects : List String → (T → ℕ) → Entry T → ℕ
  if_collects q w (ks, h) = if collects q ks then w h else 0

  gathered-append :
      (w : T → ℕ) (hs : List T) (results : List (PathTrieMatch T))
      → gathered w (results ++ map (with_params []) hs) ≡ gathered w results + total w hs
  gathered-append w hs results = simp (total-append, total-map)

  mutual
    unfolding collect_all_handlers

    gathered-all :
        (w : T → ℕ) (t : PathTrie T) (results : List (PathTrieMatch T))
        → gathered w (collect_all_handlers t results)
          ≡ gathered w results + total (every w) (entries t)
    gathered-all w (node c ch wc tm name mw nw) results =
        let here = results ++ map (with_params []) c ++ map (with_params []) mw in
        let in_children = collect_all_children ch here in
        let in_wildcard = collect_all_child wc in_children in
        omega (
          arith,
          total-entries (every w) c ch wc tm name mw nw,
          gathered-append w c results,
          gathered-append w mw (results ++ map (with_params []) c),
          gathered-all_children w ch here,
          gathered-all_child w wc in_children,
          gathered-all_child w tm in_wildcard,
        )

    gathered-all_children :
        (w : T → ℕ) (c : Children T) (results : List (PathTrieMatch T))
        → gathered w (collect_all_children c results)
          ≡ gathered w results + total (every w) (entries_children c)
    gathered-all_children w no_children results = omega (arith, total-no_children (every w))
    gathered-all_children w (child_entry k t c) results = omega (
      arith,
      total-entries_children (every w) k t c,
      gathered-all w t results,
      gathered-all_children w c (collect_all_handlers t results),
    )

    gathered-all_child :
        (w : T → ℕ) (c : Child T) (results : List (PathTrieMatch T))
        → gathered w (collect_all_child c results)
          ≡ gathered w results + total (every w) (entries_child c)
    gathered-all_child w absent results = omega (arith, total-absent (every w))
    gathered-all_child w (present t) results =
        omega (arith, total-present (every w) t, gathered-all w t results)

  -- What one level collects, if the deeper levels collect what the rest collects.
  module _ (q : List String) (w : T → ℕ) (deeper : PathTrie T → Collector T)
      (ih : (t : PathTrie T) (results : List (PathTrieMatch T))
        → HasMaps t
        → gathered w (deeper t results)
          ≡ gathered w results + total (if_collects q w) (entries t)) where
    gathered-in :
        (c : Child T) (results : List (PathTrieMatch T))
        → ChildMaps c
        → gathered w (collect_in deeper c results)
          ≡ gathered w results + total (if_collects q w) (entries_child c)
    unfolding HasMaps
    gathered-in absent results m = omega (arith, total-absent (if_collects q w))
    gathered-in (present t) results m =
        omega (arith, ih t results m, total-present (if_collects q w) t)

    gathered-each :
        (v : Entry T → ℕ) (c : Children T) (results : List (PathTrieMatch T))
        → ((j : String) (e : Entry T) → below (text j) v e ≡ if_collects q w e)
        → ChildrenMaps c
        → gathered w (collect_each deeper c results)
          ≡ gathered w results + total v (entries_children c)
    unfolding HasMaps
    gathered-each v no_children results same m = omega (arith, total-no_children v)
    gathered-each v (child_entry k t c) results same (fresh, here, later) = omega (
      arith,
      total-entries_children v k t c,
      total_ext (below (text k) v) (if_collects q w) (entries t) (same k),
      ih t results here,
      gathered-each v c (deeper t results) same later,
    )

    gathered-collect_level :
        (segment : String) (t : PathTrie T) (results : List (PathTrieMatch T))
        → HasMaps t
        → gathered w (collect_level deeper segment t results)
          ≡ gathered w results + total (if_collects (segment ∷ q) w) (entries t)
    unfolding collect_level HasMaps collects
    gathered-collect_level segment (node c ch wc tm name mw nw) results (mc, m1, m2) =
        elim (Bool-cases (segment == "*")) [
          | inl a ↦
              let v : Entry T → ℕ = if_collects ("*" ∷ q) w in
              rw ((eq_iff segment "*").0 a) (
                omega (
                  arith,
                  total-entries v c ch wc tm name mw nw,
                  total_zero (λ h. v ([], h)) c (λ h. refl),
                  total_zero (λ h. v (tail ∷ [], h)) mw (λ h. refl),
                  gathered-each v ch results (λ j e. refl) mc,
                  gathered-in wc (collect_each deeper ch results) m1,
                  gathered-in tm (collect_in deeper wc (collect_each deeper ch results)) m2,
                ))
          | inr a ↦ elim (Bool-cases (segment == ">")) [
            | inl b ↦ rw ((eq_iff segment ">").0 b) (
                gathered-all w (node c ch wc tm name mw nw) results
                ∙ ap (λ n. gathered w results + n)
                    (total_ext (every w) (if_collects (">" ∷ q) w)
                      (entries (node c ch wc tm name mw nw)) (every_collected)))
            | inr b ↦
                let v : Entry T → ℕ = if_collects (segment ∷ q) w in
                rw (a, b)
                  (omega (
                    arith,
                    total-entries v c ch wc tm name mw nw,
                    total_zero (λ h. v ([], h)) c (λ h. rw (a, b) refl),
                    total_zero (λ h. v (tail ∷ [], h)) mw (λ h. rw (a, b) refl),
                    total_zero (below star v) (entries_child wc) (λ e. rw (a, b) refl),
                    total_zero (below param v) (entries_child tm) (λ e. rw (a, b) refl),
                    total-one_child v (if_collects q w) segment (λ j same e. rw (a, b, same) refl)
                        (λ j other e. rw (a, b, other) refl) ch mc,
                    gathered-in (get_child segment ch) results (ChildMaps-get_child segment ch mc),
                  ))
          ]
        ]
      where
        every_collected : (e : Entry T) → every w e ≡ if_collects (">" ∷ q) w e
        every_collected ([], h) = refl
        every_collected (k ∷ ks, h) = refl

  pub gathered-collect_wildcard_matches :
      (q : List String) (w : T → ℕ) (t : PathTrie T) (results : List (PathTrieMatch T))
      → HasMaps t
      → gathered w (collect_wildcard_matches q t results)
        ≡ gathered w results + total (if_collects q w) (entries t)
  unfolding collect_wildcard_matches collects
  gathered-collect_wildcard_matches [] w (node c ch wc tm name mw nw) results m =
      let v : Entry T → ℕ = if_collects [] w in
      omega (
        arith,
        gathered-append w c results,
        total-entries v c ch wc tm name mw nw,
        total_zero (λ h. v (tail ∷ [], h)) mw (λ h. refl),
        total-no_text v ch (λ j e. refl),
        total_zero (below star v) (entries_child wc) (λ e. refl),
        total_zero (below param v) (entries_child tm) (λ e. refl),
      )
  gathered-collect_wildcard_matches (segment ∷ rest) w t results m =
      gathered-collect_level rest w (collect_wildcard_matches rest)
        (λ t' results' m'. gathered-collect_wildcard_matches rest w t' results' m') segment t
        results m

  -- The handlers of the entries that a test of their keys accepts.
  abbrev pub selected : (List Key → Bool) → List (Entry T) → List T
  selected test es = map (λ e. e.1) (retain (λ e. test e.0) es)

  abbrev pub if_selected : (List Key → Bool) → (T → ℕ) → Entry T → ℕ
  if_selected test w (ks, h) = if test ks then w h else 0

  pub total-selected :
      (test : List Key → Bool) (w : T → ℕ) (es : List (Entry T))
      → total w (selected test es) ≡ total (if_selected test w) es
  total-selected test w es = simp (total-map, total-retain)

  if_collects_lem :
      (q : List String) (w : T → ℕ) (e : Entry T)
      → if_collects q w e ≡ if_selected (selects q) w e + if_selected (selects_before q) w e
  unfolding collects selects selects_before
  if_collects_lem [] w ([], h) = omega arith
  if_collects_lem [] w (k ∷ ks, h) = refl
  if_collects_lem (s ∷ q) w ([], h) = ground arith
  if_collects_lem (s ∷ q) w (k ∷ ks, h) = ground (arith, if_collects_lem q w (ks, h))

  -- What is collected, in the documented part and the other.
  pub total-collects :
      (q : List String) (w : T → ℕ) (es : List (Entry T))
      → total (if_collects q w) es
        ≡ total w (selected (selects q) es) + total w (selected (selects_before q) es)
  total-collects q w [] = refl
  total-collects q w (e ∷ es) = ground (
    arith,
    total-selected (selects q) w (e ∷ es),
    total-selected (selects_before q) w (e ∷ es),
    total-selected (selects q) w es,
    total-selected (selects_before q) w es,
    if_collects_lem q w e,
    total-collects q w es,
  )
