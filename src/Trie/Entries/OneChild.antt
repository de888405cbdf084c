-- ===== src/Trie/Entries/OneChild.antt =====
-- The handlers below one literal child of a trie, for weighings that see no other child.
use rust_mono.Prelude.{ℕ, ◌≡◌, inl, inr, true, false, String, ◌==◌, eq_iff, arith, Bool-cases}
use rust_mono.Prelude.Bag.{total, total_ext, total_zero}
use rust_mono.Trie.{Children, no_children, child_entry, get_child}
use rust_mono.Trie.Entries.{
  Entry, text, below, entries, entries_children, entries_child, total-entries_children,
  total-no_children, total-absent, total-present,
}
use rust_mono.Trie.Entries.Distinct.{HasMaps, ChildrenMaps, ChildMaps, has_child}

module _ {ℓ} {T : Type ℓ} where
  pub ChildMaps-get_child :
      (s : String) (c : Children T) → ChildrenMaps c → ChildMaps (get_child s c)
  unfolding get_child HasMaps
  ChildMaps-get_child s no_children m = tt
  ChildMaps-get_child s (child_entry j t c) (fresh, here, later) = elim (Bool-cases (j == s)) [
    | inl same ↦ rw same here
    | inr other ↦ rw other (ChildMaps-get_child s c later)
  ]

  pub total-no_text :
      (v : Entry T → ℕ) (c : Children T)
      → ((j : String) (e : Entry T) → below (text j) v e ≡ 0)
      → total v (entries_children c) ≡ 0
  total-no_text v no_children miss = total-no_children v
  total-no_text v (child_entry j t c) miss = omega (
    arith,
    total-entries_children v j t c,
    total_zero (below (text j) v) (entries t) (miss j),
    total-no_text v c miss,
  )

  -- `v` weighs what is below the child `s` as `u` does, and everything else as nothing.
  module _ (v u : Entry T → ℕ) (s : String)
      (hit : (j : String) → (j == s) ≡ true → (e : Entry T) → below (text j) v e ≡ u e)
      (miss : (j : String) → (j == s) ≡ false → (e : Entry T) → below (text j) v e ≡ 0) where
    total-without : (c : Children T) → has_child s c ≡ false → total v (entries_children c) ≡ 0
    unfolding has_child
    total-without no_children h = total-no_children v
    total-without (child_entry j t c) h = omega (
      arith,
      total-entries_children v j t c,
      total_zero (below (text j) v) (entries t) (miss j (ground arith)),
      total-without c (ground arith),
    )

    pub total-one_child :
        (c : Children T)
        → ChildrenMaps c
        → total v (entries_children c) ≡ total u (entries_child (get_child s c))
    unfolding get_child HasMaps
    total-one_child no_children m = omega (arith, total-no_children v, total-absent u)
    total-one_child (child_entry j t c) (fresh, here, later) = elim (Bool-cases (j == s)) [
      | inl same ↦
          let gone : has_child s c ≡ false = rw ((eq_iff j s).0 same) at fresh in
          rw same (
            omega (
              arith,
              total-entries_children v j t c,
              total_ext (below (text j) v) u (entries t) (hit j same),
              total-without c gone,
              total-present u t,
            ))
      | inr other ↦ rw other (
          omega (
            arith,
            total-entries_children v j t c,
            total_zero (below (text j) v) (entries t) (miss j other),
            total-one_child c later,
          ))
    ]
