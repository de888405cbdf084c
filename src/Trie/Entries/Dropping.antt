-- ===== src/Trie/Entries/Dropping.antt =====
-- What a removal at a key does to the weight of a trie, one level at a time.
use mathlib.Core.Path.{subst}
use rust_mono.Prelude.{
  ℕ, ◌≡◌, refl, sym, ◌∙◌, inl, inr, Bool, true, false, not, ◌&&◌, String, ◌==◌, eq_iff, eq_refl,
  Option, List, [], ◌∷◌, arith, if◌then◌else◌, Bool-cases,
}
use rust_mono.Prelude.Bag.{total, total_ext, total-retain}
use rust_mono.Trie.{
  PathTrie, node, Children, no_children, child_entry, Child, absent, present, modify, modify_child,
}
use rust_mono.Trie.Removal.{kept}
use rust_mono.Trie.Entries.{
  Key, text, star, param, tail, Entry, below, entries, entries_children, entries_child,
  total-entries, total-entries_children, total-no_children, total-absent, total-present,
}
use rust_mono.Trie.Entries.Distinct.{HasMaps, ChildrenMaps, ChildMaps, has_child}

abbrev pub same_key : Key → Key → Bool
same_key (text a) (text b) = a == b
same_key star star = true
same_key param param = true
same_key tail tail = true
same_key _ _ = false

abbrev pub same_keys : List Key → List Key → Bool
same_keys [] [] = true
same_keys (a ∷ as') (b ∷ bs) = same_key a b && same_keys as' bs
same_keys _ _ = false

same_key_refl : (k : Key) → same_key k k ≡ true
same_key_refl (text a) = eq_refl a
same_key_refl star = refl
same_key_refl param = refl
same_key_refl tail = refl

pub same_keys_refl : (ks : List Key) → same_keys ks ks ≡ true
same_keys_refl [] = refl
same_keys_refl (k ∷ ks) = rw (same_key_refl k, same_keys_refl ks) refl

module _ {ℓ} {T : Type ℓ} (p : T → Bool) where
  -- The weighing that forgets the handlers under a key that the predicate accepts.
  abbrev pub drop_key : List Key → (Entry T → ℕ) → Entry T → ℕ
  drop_key ks w (js, h) = if same_keys js ks && p h then 0 else w (js, h)

  pub total-kept :
      (w : T → ℕ) (hs : List T)
      → total w (kept p hs) ≡ total (λ h. if true && p h then 0 else w h) hs
  total-kept w hs = total-retain w (λ h. not (p h)) hs ∙ total_ext _ _ hs (λ h. ground arith)

module _ {ℓ} {T : Type ℓ} where
  total-untouched :
      (v w : Entry T → ℕ) (k : String)
      → ((j : String) → (j == k) ≡ false → (e : Entry T) → below (text j) w e ≡ below (text j) v e)
      → (c : Children T) → has_child k c ≡ false
      → total w (entries_children c) ≡ total v (entries_children c)
  unfolding has_child
  total-untouched v w k miss no_children h = omega (arith, total-no_children v, total-no_children w)
  total-untouched v w k miss (child_entry j t c) h = omega (
    arith,
    total-entries_children v j t c,
    total-entries_children w j t c,
    total_ext (below (text j) w) (below (text j) v) (entries t) (miss j (ground arith)),
    total-untouched v w k miss c (ground arith),
  )

  total-hit :
      (w v : Entry T → ℕ) (k : String) (f : PathTrie T → PathTrie T)
      → ((t : PathTrie T)
          → HasMaps t
          → total (below (text k) w) (entries (f t)) ≡ total (below (text k) v) (entries t))
      → (j : String) → j ≡ k
      → (t : PathTrie T) → HasMaps t
      → total (below (text j) w) (entries (f t)) ≡ total (below (text j) v) (entries t)
  total-hit w v k f hit j same t m =
      subst (λ i. total (below (text i) w) (entries (f t)) ≡ total (below (text i) v) (entries t))
        (sym same) (hit t m)

  pub total-children_ext :
      (v w : Entry T → ℕ)
      → ((j : String) (e : Entry T) → below (text j) w e ≡ below (text j) v e)
      → (c : Children T) → total w (entries_children c) ≡ total v (entries_children c)
  total-children_ext v w same no_children = omega (arith, total-no_children v, total-no_children w)
  total-children_ext v w same (child_entry j t c) = omega (
    arith,
    total-entries_children v j t c,
    total-entries_children w j t c,
    total_ext (below (text j) w) (below (text j) v) (entries t) (same j),
    total-children_ext v w same c,
  )

  -- A write to one child, from what it does there and that the other children weigh the same.
  total-modify :
      (v w : Entry T → ℕ) (k : String) (f : PathTrie T → PathTrie T)
      → ((t : PathTrie T)
          → HasMaps t
          → total (below (text k) w) (entries (f t)) ≡ total (below (text k) v) (entries t))
      → ((j : String) → (j == k) ≡ false → (e : Entry T) → below (text j) w e ≡ below (text j) v e)
      → (c : Children T) → ChildrenMaps c
      → total w (entries_children (modify k f c)) ≡ total v (entries_children c)
  unfolding modify HasMaps
  total-modify v w k f hit miss no_children m =
      omega (arith, total-no_children v, total-no_children w)
  total-modify v w k f hit miss (child_entry j t c) (fresh, here, later) =
      elim (Bool-cases (j == k)) [
        | inl same ↦ rw same (
            omega (
              arith,
              total-entries_children w j (f t) c,
              total-entries_children v j t c,
              total-hit w v k f hit j ((eq_iff j k).0 same) t here,
              total-untouched v w k miss c
                  (subst (λ i. has_child i c ≡ false) ((eq_iff j k).0 same) fresh),
            ))
        | inr other ↦ rw other (
            omega (
              arith,
              total-entries_children w j t (modify k f c),
              total-entries_children v j t c,
              total_ext (below (text j) w) (below (text j) v) (entries t) (miss j other),
              total-modify v w k f hit miss c later,
            ))
      ]

  pub total-modify_child :
      (v w : Entry T → ℕ) (f : PathTrie T → PathTrie T)
      → ((t : PathTrie T) → HasMaps t → total w (entries (f t)) ≡ total v (entries t))
      → (c : Child T) → ChildMaps c
      → total w (entries_child (modify_child f c)) ≡ total v (entries_child c)
  unfolding HasMaps
  total-modify_child v w f hit absent m = omega (arith, total-absent v, total-absent w)
  total-modify_child v w f hit (present t) m =
      omega (arith, total-present w (f t), total-present v t, hit t m)

  module _ (p : T → Bool) (deeper : PathTrie T → PathTrie T) (ks : List Key)
      (ih : (w : Entry T → ℕ) (t : PathTrie T)
        → HasMaps t
        → total w (entries (deeper t)) ≡ total (drop_key p ks w) (entries t)) where
    pub total-at_star :
        (w : Entry T → ℕ) (c : List T) (ch : Children T) (wc tm : Child T) (name : Option String)
        (mw : List T) (nw : Children T)
        → ChildMaps wc
        → total w (entries (node c ch (modify_child deeper wc) tm name mw nw))
          ≡ total (drop_key p (star ∷ ks) w) (entries (node c ch wc tm name mw nw))
    total-at_star w c ch wc tm name mw nw m =
        let v = drop_key p (star ∷ ks) w in
        omega (
          arith,
          total-entries w c ch (modify_child deeper wc) tm name mw nw,
          total-entries v c ch wc tm name mw nw,
          total-modify_child (below star v) (below star w) deeper (ih (below star w)) wc m,
          total-children_ext v w (λ j e. refl) ch,
        )

    pub total-at_param :
        (w : Entry T → ℕ) (c : List T) (ch : Children T) (wc tm : Child T) (name : Option String)
        (mw : List T) (nw : Children T)
        → ChildMaps tm
        → total w (entries (node c ch wc (modify_child deeper tm) name mw nw))
          ≡ total (drop_key p (param ∷ ks) w) (entries (node c ch wc tm name mw nw))
    total-at_param w c ch wc tm name mw nw m =
        let v = drop_key p (param ∷ ks) w in
        omega (
          arith,
          total-entries w c ch wc (modify_child deeper tm) name mw nw,
          total-entries v c ch wc tm name mw nw,
          total-modify_child (below param v) (below param w) deeper (ih (below param w)) tm m,
          total-children_ext v w (λ j e. refl) ch,
        )

    pub total-at_text :
        (w : Entry T → ℕ) (k : String) (c : List T) (ch : Children T) (wc tm : Child T)
        (name : Option String) (mw : List T) (nw : Children T)
        → ChildrenMaps ch
        → total w (entries (node c (modify k deeper ch) wc tm name mw nw))
          ≡ total (drop_key p (text k ∷ ks) w) (entries (node c ch wc tm name mw nw))
    total-at_text w k c ch wc tm name mw nw m =
        let v = drop_key p (text k ∷ ks) w in
        omega (
          arith,
          total-entries w c (modify k deeper ch) wc tm name mw nw,
          total-entries v c ch wc tm name mw nw,
          total-modify v w k deeper
              (λ t m'.
                ih (below (text k) w) t m' ∙ total_ext _ _ (entries t) (λ e. rw (eq_refl k) refl))
              (λ j other e. rw other refl) ch m,
        )
