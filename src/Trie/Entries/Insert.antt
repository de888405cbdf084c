-- ===== src/Trie/Entries/Insert.antt =====
-- Inserting handlers into a trie adds them to its entries, each under the key of the path, and
-- changes nothing else.
use rust_mono.Prelude.{
  ℕ, ◌+◌, ◌≡◌, refl, ap, sym, inl, inr, String, ◌==◌, eq_iff, List, [], ◌∷◌, ◌++◌, map, arith,
  if◌then◌else◌, Bool-cases,
}
use mathlib.Core.Path.{subst}
use rust_mono.Prelude.Bag.{total, total-append, total-map, SameItems}
use rust_mono.Trie.{
  PathTrie, node, Children, no_children, child_entry, Child, absent, present, new, entry, or_new,
  param_name, set_level, set_values_internal,
}
use rust_mono.Trie.Entries.{
  Key, key_of, is_tail, is_star, is_param, is_text, segment_kind, text, star, param, tail, keys,
  Entry, stored, below, entries, entries_children, entries_child, total-entries,
  total-entries_children, entries-new, total-no_children, total-present,
}

module _ {ℓ} {T : Type ℓ} where
  total-entry :
      (w : Entry T → ℕ) (k : String) (f : PathTrie T → PathTrie T) (d : ℕ)
      → ((t : PathTrie T)
          → total (below (text k) w) (entries (f t)) ≡ total (below (text k) w) (entries t) + d)
      → (c : Children T)
      → total w (entries_children (entry k f c)) ≡ total w (entries_children c) + d
  unfolding entry
  total-entry w k f d h no_children = omega (
    arith,
    total-entries_children w k (f new) no_children,
    h new,
    ap (total (below (text k) w)) (entries-new {T = T}),
    total-no_children w,
  )
  total-entry w k f d h (child_entry j t c) = elim (Bool-cases (j == k)) [
    | inl same ↦
        let e = (eq_iff j k).0 same in
        let step : total (below (text j) w) (entries (f t))
            ≡ total (below (text j) w) (entries t) + d =
          subst
            (λ (i : String).
              total (below (text i) w) (entries (f t)) ≡ total (below (text i) w) (entries t) + d)
            (sym e) (h t) in
        rw same
          (omega (arith, total-entries_children w j (f t) c, total-entries_children w j t c, step))
    | inr other ↦ rw other (
        omega (
          arith,
          total-entries_children w j t (entry k f c),
          total-entries_children w j t c,
          total-entry w k f d h c,
        ))
  ]

  entries_child-or_new : (c : Child T) → entries (or_new c) ≡ entries_child c
  unfolding or_new entries
  entries_child-or_new absent = entries-new
  entries_child-or_new (present t) = refl

  pub total-or_new :
      (w : Entry T → ℕ) (c : Child T) → total w (entries (or_new c)) ≡ total w (entries_child c)
  total-or_new w c = ap (total w) (entries_child-or_new c)

  total-set_level :
      (handlers : List T) (deeper : PathTrie T → PathTrie T) (ks : List Key) (segment : String)
      → ((w : Entry T → ℕ) (t : PathTrie T)
          → total w (entries (deeper t)) ≡ total w (entries t) + total (λ h. w (ks, h)) handlers)
      → (w : Entry T → ℕ) (t : PathTrie T)
      → total w (entries (set_level handlers deeper segment t))
        ≡ total w (entries t)
          + total (λ h. w ((if segment == ">" then tail ∷ [] else key_of segment ∷ ks), h)) handlers
  unfolding set_level
  total-set_level handlers deeper ks segment ih w (node c ch wc tm name mw nw) =
      elim (segment_kind segment) [
        | is_tail t s p ↦ rw t (
            omega (
              arith,
              total-entries w c ch wc tm name (mw ++ handlers) nw,
              total-entries w c ch wc tm name mw nw,
              total-append (λ h. w (tail ∷ [], h)) mw handlers,
            ))
        | is_star t s p ↦
            rw (t, s)
              (omega (
                arith,
                total-entries w c ch (present (deeper (or_new wc))) tm name mw nw,
                total-entries w c ch wc tm name mw nw,
                total-present (below star w) (deeper (or_new wc)),
                ih (below star w) (or_new wc),
                total-or_new (below star w) wc,
              ))
        | is_param t s p ↦
            rw (t, s, p)
              (omega (
                arith,
                total-entries w c ch wc (present (deeper (or_new tm))) (param_name tm name segment)
                    mw nw,
                total-entries w c ch wc tm name mw nw,
                total-present (below param w) (deeper (or_new tm)),
                ih (below param w) (or_new tm),
                total-or_new (below param w) tm,
              ))
        | is_text t s p ↦
            rw (t, s, p)
              (omega (
                arith,
                total-entries w c (entry segment deeper ch) wc tm name mw nw,
                total-entries w c ch wc tm name mw nw,
                total-entry w segment deeper (total (λ h. w (text segment ∷ ks, h)) handlers)
                    (ih (below (text segment) w)) ch,
              ))
      ]

  total-set_values_internal :
      (segments : List String) (handlers : List T) (w : Entry T → ℕ) (t : PathTrie T)
      → total w (entries (set_values_internal segments handlers t))
        ≡ total w (entries t) + total (λ h. w (keys segments, h)) handlers
  unfolding keys set_values_internal
  total-set_values_internal [] handlers w (node c ch wc tm name mw nw) = omega (
    arith,
    total-entries w (c ++ handlers) ch wc tm name mw nw,
    total-entries w c ch wc tm name mw nw,
    total-append (λ h. w ([], h)) c handlers,
  )
  total-set_values_internal (segment ∷ rest) handlers w t =
      total-set_level handlers (set_values_internal rest handlers) (keys rest) segment
        (total-set_values_internal rest handlers) w t

  -- `set_values_internal` adds the new handlers to the entries of a trie under the key of the
  -- segments, and changes no other entry.
  pub entries-set_values_internal :
      (segments : List String) (handlers : List T) (t : PathTrie T)
      → SameItems
          (entries (set_values_internal segments handlers t))
          (entries t ++ map (stored (keys segments)) handlers)
  entries-set_values_internal segments handlers t w = omega (
    arith,
    total-set_values_internal segments handlers w t,
    total-append w (entries t) (map (stored (keys segments)) handlers),
    total-map w (stored (keys segments)) handlers,
  )
