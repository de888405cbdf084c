-- ===== src/Trie/Entries/Distinct.antt =====
-- The maps of a trie hold each key once; every operation of the trie keeps them so.
use rust_mono.Prelude.{
  ◌≡◌, refl, ◌∙◌, inl, inr, Bool, false, ◌||◌, String, ◌==◌, eq_iff, List, [], ◌∷◌, arith,
  Bool-cases,
}
use rust_mono.Trie.{
  PathTrie, node, Children, no_children, child_entry, Child, absent, present, new, entry, modify,
  modify_child, or_new, set_level, set_values_internal,
}
use rust_mono.Trie.Removal.{
  remove_level, remove_values_internal, remove_handler_level, remove_handler_internal,
}
use rust_mono.Trie.Entries.{is_tail, is_star, is_param, is_text, segment_kind}

module _ {ℓ} {T : Type ℓ} where
  unfoldable pub has_child : String → Children T → Bool
  has_child k no_children = false
  has_child k (child_entry j t c) = j == k || has_child k c

  unfoldable mutual
    pub HasMaps : PathTrie T → Type 0
    HasMaps (node c ch w tm name mw nw) = ChildrenMaps ch × ChildMaps w × ChildMaps tm

    pub ChildrenMaps : Children T → Type 0
    ChildrenMaps no_children = Unit {0}
    ChildrenMaps (child_entry k t c) = (has_child k c ≡ false) × HasMaps t × ChildrenMaps c

    pub ChildMaps : Child T → Type 0
    ChildMaps absent = Unit {0}
    ChildMaps (present t) = HasMaps t

pub HasMaps-new {ℓ} : (T : Type ℓ) → HasMaps (new {T = T})
unfolding HasMaps new
HasMaps-new T = (tt, tt, tt)

module _ {ℓ} {T : Type ℓ} where
  abbrev pub Keeps : (PathTrie T → PathTrie T) → Type ℓ
  Keeps f = (t : PathTrie T) → HasMaps t → HasMaps (f t)

  has_child-entry :
      (j k : String) (f : PathTrie T → PathTrie T) (c : Children T)
      → has_child j (entry k f c) ≡ (has_child j c || k == j)
  unfolding has_child entry
  has_child-entry j k f no_children = ground arith
  has_child-entry j k f (child_entry i t c) =
      ground (arith, eq_iff i k, eq_iff i j, eq_iff k j, has_child-entry j k f c)

  has_child-modify :
      (j k : String) (f : PathTrie T → PathTrie T) (c : Children T)
      → has_child j (modify k f c) ≡ has_child j c
  unfolding has_child modify
  has_child-modify j k f no_children = refl
  has_child-modify j k f (child_entry i t c) = ground (arith, has_child-modify j k f c)

  pub ChildrenMaps-entry :
      (k : String) (f : PathTrie T → PathTrie T) (c : Children T)
      → Keeps f
      → ChildrenMaps c
      → ChildrenMaps (entry k f c)
  unfolding HasMaps entry
  ChildrenMaps-entry k f no_children keep m =
      (unfold has_child in refl, keep new (HasMaps-new T), tt)
  ChildrenMaps-entry k f (child_entry i t c) keep (fresh, here, later) =
      elim (Bool-cases (i == k)) [
        | inl same ↦ rw same (fresh, keep t here, later)
        | inr other ↦ rw other (
          has_child-entry i k f c ∙ rw fresh (ground (arith, eq_iff i k, eq_iff k i)),
          here,
          ChildrenMaps-entry k f c keep later,
        )
      ]

  pub ChildrenMaps-modify :
      (k : String) (f : PathTrie T → PathTrie T) (c : Children T)
      → Keeps f
      → ChildrenMaps c
      → ChildrenMaps (modify k f c)
  unfolding HasMaps modify
  ChildrenMaps-modify k f no_children keep m = tt
  ChildrenMaps-modify k f (child_entry i t c) keep (fresh, here, later) =
      elim (Bool-cases (i == k)) [
        | inl same ↦ rw same (fresh, keep t here, later)
        | inr other ↦
            rw other (has_child-modify i k f c ∙ fresh, here, ChildrenMaps-modify k f c keep later)
      ]

  ChildMaps-or_new : (c : Child T) → ChildMaps c → HasMaps (or_new c)
  unfolding HasMaps or_new
  ChildMaps-or_new absent m = HasMaps-new T
  ChildMaps-or_new (present t) m = m

  ChildMaps-modify_child :
      (f : PathTrie T → PathTrie T) (c : Child T)
      → Keeps f
      → ChildMaps c
      → ChildMaps (modify_child f c)
  unfolding HasMaps
  ChildMaps-modify_child f absent keep m = tt
  ChildMaps-modify_child f (present t) keep m = keep t m

  set_level-Keeps :
      (handlers : List T) (deeper : PathTrie T → PathTrie T) (segment : String)
      → Keeps deeper
      → Keeps (set_level handlers deeper segment)
  unfolding set_level HasMaps
  set_level-Keeps handlers deeper segment keep (node c ch w tm name mw nw) (mc, m1, m2) =
      elim (segment_kind segment) [
        | is_tail t s p ↦ rw t (mc, m1, m2)
        | is_star t s p ↦ rw (t, s) (mc, keep (or_new w) (ChildMaps-or_new w m1), m2)
        | is_param t s p ↦ rw (t, s, p) (mc, m1, keep (or_new tm) (ChildMaps-or_new tm m2))
        | is_text t s p ↦ rw (t, s, p) (ChildrenMaps-entry segment deeper ch keep mc, m1, m2)
      ]

  -- Insertion keeps every map of the trie free of repeated keys.
  pub set_values_internal-Keeps :
      (segments : List String) (handlers : List T) → Keeps (set_values_internal segments handlers)
  unfolding set_values_internal HasMaps
  set_values_internal-Keeps [] handlers (node c ch w tm name mw nw) m = m
  set_values_internal-Keeps (segment ∷ rest) handlers t m =
      set_level-Keeps handlers (set_values_internal rest handlers) segment
        (set_values_internal-Keeps rest handlers) t m

  remove_level-Keeps :
      (deeper : PathTrie T → PathTrie T) (segment : String)
      → Keeps deeper
      → Keeps (remove_level deeper segment)
  unfolding remove_level HasMaps
  remove_level-Keeps deeper segment keep (node c ch w tm name mw nw) (mc, m1, m2) =
      elim (segment_kind segment) [
        | is_tail t s p ↦ rw (s, p) (ChildrenMaps-modify segment deeper ch keep mc, m1, m2)
        | is_star t s p ↦ rw s (mc, ChildMaps-modify_child deeper w keep m1, m2)
        | is_param t s p ↦ rw (s, p) (mc, m1, ChildMaps-modify_child deeper tm keep m2)
        | is_text t s p ↦ rw (s, p) (ChildrenMaps-modify segment deeper ch keep mc, m1, m2)
      ]

  pub remove_values_internal-Keeps :
      (segments : List String) → Keeps (remove_values_internal segments)
  unfolding remove_values_internal HasMaps
  remove_values_internal-Keeps [] (node c ch w tm name mw nw) m = m
  remove_values_internal-Keeps (segment ∷ rest) t m =
      remove_level-Keeps (remove_values_internal rest) segment (remove_values_internal-Keeps rest) t
        m

  remove_handler_level-Keeps :
      (p : T → Bool) (deeper : PathTrie T → PathTrie T) (segment : String)
      → Keeps deeper
      → Keeps (remove_handler_level p deeper segment)
  unfolding remove_handler_level HasMaps
  remove_handler_level-Keeps p deeper segment keep (node c ch w tm name mw nw) (mc, m1, m2) =
      elim (segment_kind segment) [
        | is_tail t s q ↦ rw t (mc, m1, m2)
        | is_star t s q ↦ rw (t, s) (mc, ChildMaps-modify_child deeper w keep m1, m2)
        | is_param t s q ↦ rw (t, s, q) (mc, m1, ChildMaps-modify_child deeper tm keep m2)
        | is_text t s q ↦ rw (t, s, q) (ChildrenMaps-modify segment deeper ch keep mc, m1, m2)
      ]

  pub remove_handler_internal-Keeps :
      (p : T → Bool) (segments : List String) → Keeps (remove_handler_internal p segments)
  unfolding remove_handler_internal HasMaps
  remove_handler_internal-Keeps p [] (node c ch w tm name mw nw) m = m
  remove_handler_internal-Keeps p (segment ∷ rest) t m =
      remove_handler_level-Keeps p (remove_handler_internal p rest) segment
        (remove_handler_internal-Keeps p rest) t m
