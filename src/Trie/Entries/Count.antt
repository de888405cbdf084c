-- ===== src/Trie/Entries/Count.antt =====
-- How many handlers a trie holds, after insertions of one and of many.
use rust_mono.Prelude.{
  ℕ, ◌+◌, ◌*◌, ◌≡◌, refl, inl, inr, true, String, ◌==◌, List, [], ◌∷◌, length, length-append, arith,
  Bool-cases,
}
use rust_mono.Routing.TopicPath.{TopicPath, get_segments}
use rust_mono.Trie.{
  PathTrie, node, Children, no_children, child_entry, Child, absent, present, new, entry, or_new,
  set_level, set_values_internal, set_values, add_batch_values, handler_count, count_children,
  count_child, is_empty_trie,
}
use rust_mono.Trie.Entries.{segment_kind, is_tail, is_star, is_param, is_text}

module _ {ℓ} {T : Type ℓ} where
  -- A change that adds a number of handlers to every trie.
  abbrev Adds : ℕ → (PathTrie T → PathTrie T) → Type ℓ
  Adds n f = (t : PathTrie T) → handler_count (f t) ≡ handler_count t + n

  count_children-entry :
      (n : ℕ) (k : String) (f : PathTrie T → PathTrie T) (c : Children T)
      → Adds n f
      → count_children (entry k f c) ≡ count_children c + n
  unfolding handler_count entry new
  count_children-entry n k f no_children h = omega (arith, h new)
  count_children-entry n k f (child_entry j t c) h = elim (Bool-cases (j == k)) [
    | inl same ↦ rw same (omega (arith, h t))
    | inr other ↦ rw other (omega (arith, count_children-entry n k f c h))
  ]

  handler_count-or_new : (c : Child T) → handler_count (or_new c) ≡ count_child c
  unfolding handler_count or_new new
  handler_count-or_new absent = refl
  handler_count-or_new (present t) = refl

  handler_count-set_level :
      (handlers : List T) (deeper : PathTrie T → PathTrie T) (segment : String)
      → Adds (length handlers) deeper
      → Adds (length handlers) (set_level handlers deeper segment)
  unfolding handler_count set_level
  handler_count-set_level handlers deeper segment h (node c ch w tm name mw nw) =
      elim (segment_kind segment) [
        | is_tail t s p ↦ rw t (omega (arith, length-append mw handlers))
        | is_star t s p ↦ rw (t, s) (omega (arith, h (or_new w), handler_count-or_new w))
        | is_param t s p ↦ rw (t, s, p) (omega (arith, h (or_new tm), handler_count-or_new tm))
        | is_text t s p ↦
            rw (t, s, p) (omega (arith, count_children-entry (length handlers) segment deeper ch h))
      ]

  handler_count-set_values_internal :
      (segments : List String) (handlers : List T)
      → Adds (length handlers) (set_values_internal segments handlers)
  unfolding handler_count set_values_internal
  handler_count-set_values_internal [] handlers (node c ch w tm name mw nw) =
      omega (arith, length-append c handlers)
  handler_count-set_values_internal (segment ∷ rest) handlers t =
      handler_count-set_level handlers (set_values_internal rest handlers) segment
        (handler_count-set_values_internal rest handlers) t

  pub handler_count-set_values :
      (topic : TopicPath) (handlers : List T) (t : PathTrie T)
      → handler_count (set_values topic handlers t) ≡ handler_count t + length handlers
  unfolding handler_count set_values
  handler_count-set_values topic handlers (node c ch w tm name mw nw) = omega (
    arith,
    count_children-entry (length handlers) topic.network_id _ nw
        (handler_count-set_values_internal (get_segments topic) handlers),
  )

  -- `add_batch_values` adds as many handlers to the `handler_count` as there are topics times
  -- contents.
  pub handler_count-add_batch_values :
      (topics : List TopicPath) (handlers : List T) (t : PathTrie T)
      → handler_count (add_batch_values topics handlers t)
        ≡ handler_count t + length topics * length handlers
  unfolding add_batch_values
  handler_count-add_batch_values [] handlers t = omega arith
  handler_count-add_batch_values (topic ∷ topics) handlers t = ground (
    arith,
    handler_count-add_batch_values topics handlers (set_values topic handlers t),
    handler_count-set_values topic handlers t,
  )

  pub is_empty_trie-handler_count : (t : PathTrie T) → is_empty_trie t ≡ true → handler_count t ≡ 0
  unfolding is_empty_trie handler_count
  is_empty_trie-handler_count (node [] no_children absent absent name [] no_children) h = refl
  is_empty_trie-handler_count (node [] no_children absent absent name [] (child_entry _ _ _)) h =
      ground arith
  is_empty_trie-handler_count (node [] no_children absent absent name (_ ∷ _) networks) h =
      ground arith
  is_empty_trie-handler_count (node [] no_children absent (present _) name mw networks) h =
      ground arith
  is_empty_trie-handler_count (node [] no_children (present _) tm name mw networks) h = ground arith
  is_empty_trie-handler_count (node [] (child_entry _ _ _) w tm name mw networks) h = ground arith
  is_empty_trie-handler_count (node (_ ∷ _) ch w tm name mw networks) h = ground arith
