-- ===== src/Trie/Entries/Remove.antt =====
-- Removing handlers from a trie takes entries of one key out, and leaves all others.
use rust_mono.Prelude.{
  ℕ, ◌≡◌, refl, sym, ◌∙◌, inl, inr, Bool, true, not, ◌&&◌, String, ◌==◌, List, [], ◌∷◌, map, arith,
  Bool-cases, retain,
}
use rust_mono.Prelude.Bag.{total, total_ext, total_zero, total-retain, SameItems}
use rust_mono.Routing.Segment.{is_template_param}
use rust_mono.Trie.{PathTrie, node}
use rust_mono.Trie.Removal.{
  kept, remove_level, remove_values_internal, remove_handler_level, remove_handler_internal,
}
use rust_mono.Trie.Entries.{
  Key, key_of, tail, keys, Entry, entries, total-entries, is_tail, is_star, is_param, is_text,
  segment_kind,
}
use rust_mono.Trie.Entries.Distinct.{HasMaps}
use rust_mono.Trie.Entries.Dropping.{
  same_keys, drop_key, total-kept, total-children_ext, total-at_star, total-at_param, total-at_text,
}

module _ {ℓ} {T : Type ℓ} (p : T → Bool) where
  -- Is the handler under the key, and does the predicate accept it?
  abbrev pub under_key : List Key → Entry T → Bool
  under_key ks (js, h) = same_keys js ks && p h

  pub total-remove_handler_internal :
      (segments : List String) (w : Entry T → ℕ) (t : PathTrie T)
      → HasMaps t
      → total w (entries (remove_handler_internal p segments t))
        ≡ total (drop_key p (keys segments) w) (entries t)
  unfolding remove_handler_internal remove_handler_level keys HasMaps
  total-remove_handler_internal [] w (node c ch wc tm name mw nw) m =
      let v = drop_key p [] w in
      omega (
        arith,
        total-entries w (kept p c) ch wc tm name mw nw,
        total-entries v c ch wc tm name mw nw,
        total-kept p (λ h. w ([], h)) c,
        total-children_ext v w (λ j e. refl) ch,
      )
  total-remove_handler_internal (s ∷ rest) w (node c ch wc tm name mw nw) (m1, m2, m3) =
      let deeper = remove_handler_internal p rest in
      elim (segment_kind s) [
        | is_tail a b d ↦ rw a (
            let v = drop_key p (tail ∷ []) w in
            omega (
              arith,
              total-entries w c ch wc tm name (kept p mw) nw,
              total-entries v c ch wc tm name mw nw,
              total-kept p (λ h. w (tail ∷ [], h)) mw,
              total-children_ext v w (λ j e. refl) ch,
            ))
        | is_star a b d ↦
            rw (a, b)
              (total-at_star p deeper (keys rest) (total-remove_handler_internal rest) w c ch wc tm
                name mw nw m2)
        | is_param a b d ↦
            rw (a, b, d)
              (total-at_param p deeper (keys rest) (total-remove_handler_internal rest) w c ch wc tm
                name mw nw m3)
        | is_text a b d ↦
            rw (a, b, d)
              (total-at_text p deeper (keys rest) (total-remove_handler_internal rest) w s c ch wc
                tm name mw nw m1)
      ]

  -- `remove_handler_internal` takes out exactly the entries under the key of the segments that the
  -- predicate accepts, if the maps of the trie hold each key once.
  pub entries-remove_handler_internal :
      (segments : List String) (t : PathTrie T)
      → HasMaps t
      → SameItems
          (entries (remove_handler_internal p segments t))
          (retain (λ e. not (under_key (keys segments) e)) (entries t))
  entries-remove_handler_internal segments t m = λ w.
      total-remove_handler_internal segments w t m
      ∙ total_ext _ _ (entries t) (λ e. ground arith)
      ∙ sym (total-retain w (λ e. not (under_key (keys segments) e)) (entries t))

module _ {ℓ} {T : Type ℓ} where
  abbrev everything : T → Bool
  everything h = true

  total-remove_values_internal :
      (segments : List String) (w : Entry T → ℕ) (t : PathTrie T)
      → HasMaps t
      → total w (entries (remove_values_internal segments t))
        ≡ total (drop_key everything (map key_of segments) w) (entries t)
  unfolding remove_values_internal remove_level HasMaps
  total-remove_values_internal [] w (node c ch wc tm name mw nw) m =
      let v = drop_key everything [] w in
      omega (
        arith,
        total-entries w [] ch wc tm name mw nw,
        total-entries v c ch wc tm name mw nw,
        total_zero (λ h. v ([], h)) c (λ h. refl),
        total-children_ext v w (λ j e. refl) ch,
      )
  total-remove_values_internal (s ∷ rest) w (node c ch wc tm name mw nw) (m1, m2, m3) =
      let deeper = remove_values_internal rest in
      let deeper_lem = total-remove_values_internal rest in
      let ks = map key_of rest in
      elim (Bool-cases (s == "*")) [
        | inl a ↦ rw a (total-at_star everything deeper ks deeper_lem w c ch wc tm name mw nw m2)
        | inr a ↦ elim (Bool-cases (is_template_param s)) [
          | inl b ↦
              rw (a, b) (total-at_param everything deeper ks deeper_lem w c ch wc tm name mw nw m3)
          | inr b ↦
              rw (a, b) (total-at_text everything deeper ks deeper_lem w s c ch wc tm name mw nw m1)
        ]
      ]

  -- `remove_values_internal` takes out exactly the entries under the segments' keys, where `>`
  -- counts as a text and so names no multi-wildcard handler, if the maps of the trie hold each key
  -- once.
  pub entries-remove_values_internal :
      (segments : List String) (t : PathTrie T)
      → HasMaps t
      → SameItems
          (entries (remove_values_internal segments t))
          (retain (λ e. not (under_key everything (map key_of segments) e)) (entries t))
  entries-remove_values_internal segments t m = λ w.
      total-remove_values_internal segments w t m
      ∙ total_ext _ _ (entries t) (λ e. ground arith)
      ∙ sym (total-retain w (λ e. not (under_key everything (map key_of segments) e)) (entries t))
