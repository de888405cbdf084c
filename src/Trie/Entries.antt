-- ===== src/Trie/Entries.antt =====
-- The abstract view of a trie: the list of its handlers, each with the key it is stored under. A key
-- is a path with the names of its parameters forgotten.
pub mod Insert
pub mod Distinct
pub mod OneChild
pub mod Find
pub mod Collect
pub mod Dropping
pub mod Remove
pub mod Removed
pub mod Count
use rust_mono.Prelude.{
  ℕ, zero, ◌+◌, ◌≡◌, refl, ap, ◌∙◌, Bool, true, false, String, ◌==◌, Option, List, [], ◌∷◌, ◌++◌,
  map, arith, if◌then◌else◌, sym, inl, inr, eq_iff, Bool-cases,
}
use mathlib.Core.Path.{subst}
use rust_mono.Prelude.Text.{starts_with_char}
use rust_mono.Prelude.Bag.{total, total-append, total-map}
use rust_mono.Routing.Segment.{is_template_param}
use rust_mono.Trie.{PathTrie, node, Children, no_children, child_entry, Child, absent, present, new}

pub data Key : Type 0 where
  text : String → Key
  star param tail : Key

abbrev pub key_of : String → Key
key_of segment =
    if segment == "*" then star else if is_template_param segment then param else text segment

-- The four kinds of segment, with what the tests of the source answer on each.
pub data SegmentKind (s : String) : Type 0 where
  is_tail : (s == ">") ≡ true → (s == "*") ≡ false → is_template_param s ≡ false → SegmentKind s
  is_star : (s == ">") ≡ false → (s == "*") ≡ true → is_template_param s ≡ false → SegmentKind s
  is_param : (s == ">") ≡ false → (s == "*") ≡ false → is_template_param s ≡ true → SegmentKind s
  is_text : (s == ">") ≡ false → (s == "*") ≡ false → is_template_param s ≡ false → SegmentKind s

pub segment_kind : (s : String) → SegmentKind s
segment_kind s = elim (Bool-cases (s == ">")) [
  | inl t ↦
      subst SegmentKind (sym ((eq_iff s ">").0 t))
        (is_tail refl refl (unfold is_template_param starts_with_char in refl))
  | inr not_tail ↦ elim (Bool-cases (s == "*")) [
    | inl t ↦
        subst SegmentKind (sym ((eq_iff s "*").0 t))
          (is_star refl refl (unfold is_template_param starts_with_char in refl))
    | inr not_star ↦ elim (Bool-cases (is_template_param s)) [
      | inl t ↦ is_param not_tail not_star t
      | inr not_param ↦ is_text not_tail not_star not_param
    ]
  ]
]

-- The key of a registered path: what stands behind `>` is not looked at.
unfoldable pub keys : List String → List Key
keys [] = []
keys (segment ∷ rest) = if segment == ">" then tail ∷ [] else key_of segment ∷ keys rest

abbrev pub Entry {ℓ} : Type ℓ → Type ℓ
Entry T = List Key × T

abbrev pub under {ℓ} : {T : Type ℓ} → Key → Entry T → Entry T
under k (ks, h) = (k ∷ ks, h)

abbrev pub stored {ℓ} : {T : Type ℓ} → List Key → T → Entry T
stored ks h = (ks, h)

unfoldable mutual
  pub entries {ℓ} : {T : Type ℓ} → PathTrie T → List (Entry T)
  entries (node c ch w tm name mw nw) =
      map (stored []) c
      ++ (map (stored (tail ∷ [])) mw
          ++ (entries_children ch
              ++ (map (under star) (entries_child w) ++ map (under param) (entries_child tm))))

  pub entries_children {ℓ} : {T : Type ℓ} → Children T → List (Entry T)
  entries_children no_children = []
  entries_children (child_entry k t c) = map (under (text k)) (entries t) ++ entries_children c

  pub entries_child {ℓ} : {T : Type ℓ} → Child T → List (Entry T)
  entries_child absent = []
  entries_child (present t) = entries t

module _ {ℓ} {T : Type ℓ} where
  -- A weighing of the handlers below a key, from a weighing of all handlers.
  abbrev pub below : Key → (Entry T → ℕ) → Entry T → ℕ
  below k w e = w (under k e)

  pub total-entries :
      (w : Entry T → ℕ) (c : List T) (ch : Children T) (wc tm : Child T) (name : Option String)
      (mw : List T) (nw : Children T)
      → total w (entries (node c ch wc tm name mw nw))
        ≡ total (λ h. w ([], h)) c
          + total (λ h. w (tail ∷ [], h)) mw
          + total w (entries_children ch)
          + total (below star w) (entries_child wc)
          + total (below param w) (entries_child tm)
  unfolding entries
  total-entries w c ch wc tm name mw nw = simp (total-append, total-map) (omega arith)

  pub total-entries_children :
      (w : Entry T → ℕ) (k : String) (t : PathTrie T) (c : Children T)
      → total w (entries_children (child_entry k t c))
        ≡ total (below (text k) w) (entries t) + total w (entries_children c)
  unfolding entries
  total-entries_children w k t c = simp (total-append, total-map) refl

  pub entries-new : entries (new {T = T}) ≡ []
  unfolding entries new
  entries-new = refl

  pub total-no_children : (w : Entry T → ℕ) → total w (entries_children no_children) ≡ 0
  unfolding entries
  total-no_children w = refl

  pub total-absent : (w : Entry T → ℕ) → total w (entries_child absent) ≡ 0
  unfolding entries
  total-absent w = refl

  pub total-present :
      (w : Entry T → ℕ) (t : PathTrie T) → total w (entries_child (present t)) ≡ total w (entries t)
  unfolding entries
  total-present w t = refl
