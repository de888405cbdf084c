-- ===== src/Trie/Entries/Find.antt =====
-- Searching a trie for a concrete path finds the handlers of the entries whose keys fit, and leaves
-- the map of current parameters as it was.
use rust_mono.Prelude.{
  ℕ, ◌+◌, ◌≡◌, refl, ap, ◌∙◌, inl, inr, Bool, true, false, ◌&&◌, String, ◌==◌, Option, none, some,
  List, [], ◌∷◌, map, map-append, arith, if◌then◌else◌, Option-cases, retain,
}
use rust_mono.Prelude.Bag.{total, total-append, total-map, total_zero, total-retain, SameItems}
use rust_mono.Prelude.HashMap as Map
use rust_mono.Prelude.HashMap.{HashMap, remove-insert, insert-insert_old}
use rust_mono.Trie.{PathTrie, node, Children, Child, absent, present, get_child}
use rust_mono.Trie.Search.{
  Found, push_all, visit, visit_template, restore, find_level, find_matches_internal,
}
use rust_mono.Trie.Entries.{
  Key, text, star, param, tail, Entry, below, entries, entries_children, entries_child,
  total-entries, total-absent, total-present,
}
use rust_mono.Trie.Entries.OneChild.{ChildMaps-get_child, total-no_text, total-one_child}
use rust_mono.Trie.Entries.Distinct.{HasMaps, ChildrenMaps, ChildMaps}

-- Whether a key fits the segments of a path that is asked for: `>` wants at least one segment.
unfoldable pub fits : List Key → List String → Bool
fits [] [] = true
fits (tail ∷ ks) (s ∷ q) = true
fits (text a ∷ ks) (s ∷ q) = a == s && fits ks q
fits (star ∷ ks) (s ∷ q) = fits ks q
fits (param ∷ ks) (s ∷ q) = fits ks q
fits _ _ = false

restore-insert :
    (name segment : String) (params : HashMap String)
    → restore name (Map.get name params) (Map.insert name segment params) ≡ params
restore-insert name segment params = elim (Option-cases (Map.get name params)) [
  | inl fresh ↦ rw fresh (remove-insert name segment params fresh)
  | inr (old, e) ↦ rw e (insert-insert_old name segment old params e)
]

module _ {ℓ} {T : Type ℓ} where
  -- The weight of an entry for a search.
  abbrev pub if_fits : List String → (T → ℕ) → Entry T → ℕ
  if_fits q w (ks, h) = if fits ks q then w h else 0

  abbrev pub weight : (T → ℕ) → Found T → ℕ
  weight w s = total w (map (λ m. m.content) s.0)

  params-visit :
      (deeper : PathTrie T → Found T → Found T)
      → ((t : PathTrie T) (s : Found T) → (deeper t s).1 ≡ s.1)
      → (c : Child T) (s : Found T) → (visit deeper c s).1 ≡ s.1
  params-visit deeper ih absent s = refl
  params-visit deeper ih (present t) s = ih t s

  params-visit_template :
      (deeper : PathTrie T → Found T → Found T)
      → ((t : PathTrie T) (s : Found T) → (deeper t s).1 ≡ s.1)
      → (name : Option String) (segment : String) (c : Child T) (s : Found T)
      → (visit_template deeper name segment c s).1 ≡ s.1
  params-visit_template deeper ih name segment absent s = refl
  params-visit_template deeper ih none segment (present t) s = ih t s
  params-visit_template deeper ih (some n) segment (present t) (results, params) =
      ap (restore n (Map.get n params)) (ih t (results, Map.insert n segment params))
      ∙ restore-insert n segment params

  params-find_level :
      (deeper : PathTrie T → Found T → Found T)
      → ((t : PathTrie T) (s : Found T) → (deeper t s).1 ≡ s.1)
      → (segment : String) (t : PathTrie T) (s : Found T) → (find_level deeper segment t s).1 ≡ s.1
  unfolding find_level
  params-find_level deeper ih segment (node c ch w tm name mw nw) s =
      params-visit_template deeper ih name segment tm _
      ∙ params-visit deeper ih w _
      ∙ params-visit deeper ih (get_child segment ch) _

  -- `find_matches_internal` leaves the map of current parameters as it found it: every parameter
  -- that it sets on its way is restored or taken out again.
  pub params-find_matches_internal :
      (q : List String) (t : PathTrie T) (s : Found T) → (find_matches_internal q t s).1 ≡ s.1
  unfolding find_matches_internal
  params-find_matches_internal [] t s = refl
  params-find_matches_internal (segment ∷ rest) t s =
      params-find_level (find_matches_internal rest) (params-find_matches_internal rest) segment t s

  total-get_child :
      (q : List String) (s : String) (w : T → ℕ) (c : Children T)
      → ChildrenMaps c
      → total (if_fits (s ∷ q) w) (entries_children c)
        ≡ total (if_fits q w) (entries_child (get_child s c))
  unfolding fits
  total-get_child q s w =
      total-one_child (if_fits (s ∷ q) w) (if_fits q w) s (λ j same e. rw same refl)
        (λ j other e. rw other refl)

  weight-push_all :
      (w : T → ℕ) (hs : List T) (s : Found T) → weight w (push_all hs s) ≡ weight w s + total w hs
  weight-push_all w hs (results, params) = simp (map-append, total-append, total-map)

  -- What one level of the search finds, if the deeper levels find what fits.
  module _ (q : List String) (w : T → ℕ) (deeper : PathTrie T → Found T → Found T)
      (ih : (t : PathTrie T) (s : Found T)
        → HasMaps t
        → weight w (deeper t s) ≡ weight w s + total (if_fits q w) (entries t)) where
    weight-visit :
        (c : Child T) (s : Found T)
        → ChildMaps c
        → weight w (visit deeper c s) ≡ weight w s + total (if_fits q w) (entries_child c)
    unfolding HasMaps
    weight-visit absent s m = omega (arith, total-absent (if_fits q w))
    weight-visit (present t) s m = omega (arith, ih t s m, total-present (if_fits q w) t)

    weight-visit_template :
        (name : Option String) (segment : String) (c : Child T) (s : Found T)
        → ChildMaps c
        → weight w (visit_template deeper name segment c s)
          ≡ weight w s + total (if_fits q w) (entries_child c)
    unfolding HasMaps
    weight-visit_template name segment absent s m = omega (arith, total-absent (if_fits q w))
    weight-visit_template none segment (present t) s m =
        omega (arith, ih t s m, total-present (if_fits q w) t)
    weight-visit_template (some n) segment (present t) (results, params) m =
        omega (arith, ih t (results, Map.insert n segment params) m, total-present (if_fits q w) t)

    weight-find_level :
        (segment : String) (t : PathTrie T) (s : Found T)
        → HasMaps t
        → weight w (find_level deeper segment t s)
          ≡ weight w s + total (if_fits (segment ∷ q) w) (entries t)
    unfolding find_level HasMaps fits
    weight-find_level segment (node c ch wc tm name mw nw) s (mc, m1, m2) =
        let child = get_child segment ch in
        let at_level = push_all mw s in
        let in_children = visit deeper child at_level in
        let in_wildcard = visit deeper wc in_children in
        omega (
          arith,
          total-entries (if_fits (segment ∷ q) w) c ch wc tm name mw nw,
          total_zero (λ h. if_fits (segment ∷ q) w ([], h)) c (λ h. refl),
          weight-push_all w mw s,
          weight-visit child at_level (ChildMaps-get_child segment ch mc),
          total-get_child q segment w ch mc,
          weight-visit wc in_children m1,
          weight-visit_template name segment tm in_wildcard m2,
        )

  pub weight-find_matches_internal :
      (q : List String) (w : T → ℕ) (t : PathTrie T) (s : Found T)
      → HasMaps t
      → weight w (find_matches_internal q t s) ≡ weight w s + total (if_fits q w) (entries t)
  unfolding find_matches_internal fits
  weight-find_matches_internal [] w (node c ch wc tm name mw nw) s m = omega (
    arith,
    weight-push_all w c s,
    total-entries (if_fits [] w) c ch wc tm name mw nw,
    total_zero (λ h. if_fits [] w (tail ∷ [], h)) mw (λ h. refl),
    total-no_text (if_fits [] w) ch (λ j e. refl),
    total_zero (below star (if_fits [] w)) (entries_child wc) (λ (ks, h). refl),
    total_zero (below param (if_fits [] w)) (entries_child tm) (λ (ks, h). refl),
  )
  weight-find_matches_internal (segment ∷ rest) w t s m =
      weight-find_level rest w (find_matches_internal rest)
        (λ t' s' m'. weight-find_matches_internal rest w t' s' m') segment t s m

  -- The handlers of the entries that fit a concrete path.
  abbrev pub fitting : List String → List (Entry T) → List T
  fitting q es = map (λ e. e.1) (retain (λ e. fits e.0 q) es)

  pub total-fitting :
      (q : List String) (w : T → ℕ) (es : List (Entry T))
      → total w (fitting q es) ≡ total (if_fits q w) es
  total-fitting q w es = simp (total-map, total-retain)

  -- Below a network, `find_matches_internal` with no results yet yields, up to order, exactly the
  -- handlers whose keys fit the segments, whatever the current parameters are, if the maps of the
  -- trie hold each key once.
  pub find_matches_internal-fitting :
      (q : List String) (t : PathTrie T) (params : HashMap String)
      → HasMaps t
      → SameItems
          (map (λ m. m.content) (find_matches_internal q t ([], params)).0)
          (fitting q (entries t))
  find_matches_internal-fitting q t params m w =
      omega
        (arith, weight-find_matches_internal q w t ([], params) m, total-fitting q w (entries t))
