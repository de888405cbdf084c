-- ===== src/Trie/Entries/Removed.antt =====
-- What the Boolean result of `remove_handler_internal` tells: whether an entry was taken out.
use rust_mono.Prelude.{
  ℕ, ◌+◌, ◌≡◌, refl, sym, Option, ap, ◌∙◌, Bool, true, ◌&&◌, String, List, [], ◌∷◌, length, ltb,
  arith, if◌then◌else◌,
}
use rust_mono.Prelude.Bag.{total, total_zero}
use rust_mono.Trie.{PathTrie, node, Children, Child, absent, present, get_child}
use rust_mono.Trie.Removal.{kept, shrunk, removed_in, removed_level, handler_removed}
use rust_mono.Trie.Entries.{
  Key, text, star, param, tail, keys, Entry, below, entries, entries_children, entries_child,
  total-entries, total-absent, total-present, segment_kind, is_tail, is_star, is_param, is_text,
}
use rust_mono.Trie.Entries.Distinct.{HasMaps, ChildrenMaps, ChildMaps}
use rust_mono.Trie.Entries.OneChild.{ChildMaps-get_child, total-no_text, total-one_child}
use rust_mono.Trie.Entries.Remove.{under_key}

module _ {ℓ} {T : Type ℓ} (p : T → Bool) where
  -- One for each entry under a key that the predicate accepts.
  abbrev pub one_if : List Key → Entry T → ℕ
  one_if ks e = if under_key p ks e then 1 else 0

  length-kept :
      (hs : List T) → length (kept p hs) + total (λ h. if true && p h then 1 else 0) hs ≡ length hs
  length-kept [] = refl
  length-kept (h ∷ hs) = ground (arith, length-kept hs)

  shrunk-total : (hs : List T) → shrunk p hs ≡ ltb 0 (total (λ h. if true && p h then 1 else 0) hs)
  shrunk-total hs = ground (arith, length-kept hs)

  total-at_child :
      (ks : List Key) (s : String) (c : Children T)
      → ChildrenMaps c
      → total (one_if (text s ∷ ks)) (entries_children c)
        ≡ total (one_if ks) (entries_child (get_child s c))
  total-at_child ks s =
      total-one_child (one_if (text s ∷ ks)) (one_if ks) s (λ j same e. rw same refl)
        (λ j other e. rw other refl)

  pub removed_in-total :
      (removed : PathTrie T → Bool) (ks : List Key) (c : Child T)
      → ((t : PathTrie T) → HasMaps t → removed t ≡ ltb 0 (total (one_if ks) (entries t)))
      → ChildMaps c
      → removed_in p removed c ≡ ltb 0 (total (one_if ks) (entries_child c))
  unfolding HasMaps
  removed_in-total removed ks absent ih m = rw (total-absent (one_if ks)) refl
  removed_in-total removed ks (present t) ih m = rw (total-present (one_if ks) t) (ih t m)

  one_if-at_end :
      (c : List T) (ch : Children T) (wc tm : Child T) (name : Option String) (mw : List T)
      (nw : Children T)
      → total (one_if ([])) (entries (node c ch wc tm name mw nw))
        ≡ total (λ h. if true && p h then 1 else 0) c
  one_if-at_end c ch wc tm name mw nw =
      let v = one_if ([]) in
      omega (
        arith,
        total-entries v c ch wc tm name mw nw,
        total_zero (λ h. v (tail ∷ [], h)) mw (λ h. refl),
        total-no_text v ch (λ j e. refl),
        total_zero (below star v) (entries_child wc) (λ e. refl),
        total_zero (below param v) (entries_child tm) (λ e. refl),
      )

  one_if-at_tail :
      (c : List T) (ch : Children T) (wc tm : Child T) (name : Option String) (mw : List T)
      (nw : Children T)
      → total (one_if (tail ∷ [])) (entries (node c ch wc tm name mw nw))
        ≡ total (λ h. if true && p h then 1 else 0) mw
  one_if-at_tail c ch wc tm name mw nw =
      let v = one_if (tail ∷ []) in
      omega (
        arith,
        total-entries v c ch wc tm name mw nw,
        total_zero (λ h. v ([], h)) c (λ h. refl),
        total-no_text v ch (λ j e. refl),
        total_zero (below star v) (entries_child wc) (λ e. refl),
        total_zero (below param v) (entries_child tm) (λ e. refl),
      )

  one_if-at_star :
      (ks : List Key) (c : List T) (ch : Children T) (wc tm : Child T) (name : Option String)
      (mw : List T) (nw : Children T)
      → total (one_if (star ∷ ks)) (entries (node c ch wc tm name mw nw))
        ≡ total (one_if ks) (entries_child wc)
  one_if-at_star ks c ch wc tm name mw nw =
      let v = one_if (star ∷ ks) in
      omega (
        arith,
        total-entries v c ch wc tm name mw nw,
        total_zero (λ h. v ([], h)) c (λ h. refl),
        total_zero (λ h. v (tail ∷ [], h)) mw (λ h. refl),
        total-no_text v ch (λ j e. refl),
        total_zero (below param v) (entries_child tm) (λ e. refl),
      )

  one_if-at_param :
      (ks : List Key) (c : List T) (ch : Children T) (wc tm : Child T) (name : Option String)
      (mw : List T) (nw : Children T)
      → total (one_if (param ∷ ks)) (entries (node c ch wc tm name mw nw))
        ≡ total (one_if ks) (entries_child tm)
  one_if-at_param ks c ch wc tm name mw nw =
      let v = one_if (param ∷ ks) in
      omega (
        arith,
        total-entries v c ch wc tm name mw nw,
        total_zero (λ h. v ([], h)) c (λ h. refl),
        total_zero (λ h. v (tail ∷ [], h)) mw (λ h. refl),
        total-no_text v ch (λ j e. refl),
        total_zero (below star v) (entries_child wc) (λ e. refl),
      )

  one_if-at_text :
      (ks : List Key) (s : String) (c : List T) (ch : Children T) (wc tm : Child T)
      (name : Option String) (mw : List T) (nw : Children T)
      → ChildrenMaps ch
      → total (one_if (text s ∷ ks)) (entries (node c ch wc tm name mw nw))
        ≡ total (one_if ks) (entries_child (get_child s ch))
  one_if-at_text ks s c ch wc tm name mw nw m =
      let v = one_if (text s ∷ ks) in
      omega (
        arith,
        total-entries v c ch wc tm name mw nw,
        total_zero (λ h. v ([], h)) c (λ h. refl),
        total_zero (λ h. v (tail ∷ [], h)) mw (λ h. refl),
        total-at_child ks s ch m,
        total_zero (below star v) (entries_child wc) (λ e. refl),
        total_zero (below param v) (entries_child tm) (λ e. refl),
      )

  pub handler_removed-total :
      (segments : List String) (t : PathTrie T)
      → HasMaps t
      → handler_removed p segments t ≡ ltb 0 (total (one_if (keys segments)) (entries t))
  unfolding handler_removed removed_level keys HasMaps
  handler_removed-total [] (node c ch wc tm name mw nw) m =
      shrunk-total c ∙ ap (ltb 0) (sym (one_if-at_end c ch wc tm name mw nw))
  handler_removed-total (s ∷ rest) (node c ch wc tm name mw nw) (m1, m2, m3) =
      let ks = keys rest in
      let deeper = handler_removed p rest in
      let ih = handler_removed-total rest in
      elim (segment_kind s) [
        | is_tail a b d ↦
            rw a (shrunk-total mw ∙ ap (ltb 0) (sym (one_if-at_tail c ch wc tm name mw nw)))
        | is_star a b d ↦
            rw (a, b)
              (removed_in-total deeper ks wc ih m2
                ∙ ap (ltb 0) (sym (one_if-at_star ks c ch wc tm name mw nw)))
        | is_param a b d ↦
            rw (a, b, d)
              (removed_in-total deeper ks tm ih m3
                ∙ ap (ltb 0) (sym (one_if-at_param ks c ch wc tm name mw nw)))
        | is_text a b d ↦
            rw (a, b, d)
              (removed_in-total deeper ks (get_child s ch) ih (ChildMaps-get_child s ch m1)
                ∙ ap (ltb 0) (sym (one_if-at_text ks s c ch wc tm name mw nw m1)))
      ]
