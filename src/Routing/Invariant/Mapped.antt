-- ===== src/Routing/Invariant/Mapped.antt =====
-- The bitmap stays a faithful map of the segments when a segment is pushed or popped.
use rust_mono.Prelude.{
  ℕ, zero, suc, ◌<◌, ◌≡◌, refl, ap, ◌∙◌, ◌⊎◌, inl, inr, some, List, [], ◌∷◌, ◌++◌, length,
  get_elem?, init, arith,
}
use rust_mono.Routing.Segment.{PathSegment, literal, template, single_wildcard, multi_wildcard}
use rust_mono.Routing.Bitmap.{set_segment_type}
use rust_mono.Routing.Bitmap.Laws.{set-lt, get-set_self, get-set_ne}
use rust_mono.Routing.TopicPath.{segment_type}
use rust_mono.Routing.Invariant.{IsMapped}

module _ {ℓ} {A : Type ℓ} where
  pub get_elem?-concat :
      (xs : List A) (s t : A) (j : ℕ)
      → get_elem? (xs ++ s ∷ []) j ≡ some t
      → ((j < length xs) × (get_elem? xs j ≡ some t)) ⊎ ((j ≡ length xs) × (s ≡ t))
  get_elem?-concat [] s t zero h = inr (refl, cc)
  get_elem?-concat [] s t (suc j) h = cc
  get_elem?-concat (x ∷ xs) s t zero h = inl (omega arith, h)
  get_elem?-concat (x ∷ xs) s t (suc j) h = elim (get_elem?-concat xs s t j h) [
    | inl (lt, e) ↦ inl (omega arith, e)
    | inr (e, f) ↦ inr (ap suc e, f)
  ]

  pub get_elem?-init :
      (xs : List A) (t : A) (j : ℕ)
      → get_elem? (init xs) j ≡ some t
      → (suc j < length xs) × (get_elem? xs j ≡ some t)
  get_elem?-init [] t j h = cc
  get_elem?-init (x ∷ []) t j h = cc
  get_elem?-init (x ∷ y ∷ xs) t zero h = (omega arith, h)
  get_elem?-init (x ∷ y ∷ xs) t (suc j) h =
      let (lt, e) = get_elem?-init (y ∷ xs) t j h in (omega arith, e)

pub segment_type-lt : (s : PathSegment) → segment_type s < 4
unfolding segment_type
segment_type-lt (literal s) = omega arith
segment_type-lt (template s) = omega arith
segment_type-lt single_wildcard = omega arith
segment_type-lt multi_wildcard = omega arith

pub IsMapped-concat :
    (b : ℕ) (xs : List PathSegment) (s : PathSegment)
    → length xs < 32
    → IsMapped b xs
    → IsMapped (set_segment_type b (length xs) (segment_type s)) (xs ++ s ∷ [])
IsMapped-concat b xs s room m = record {
  in_range = set-lt b (length xs) (segment_type s) m.in_range room (segment_type-lt s);
  describes = λ j t h. elim (get_elem?-concat xs s t j h) [
    | inl (lt, e) ↦
        get-set_ne b (length xs) j (segment_type s) m.in_range room (omega arith)
          (segment_type-lt s) (λ p. absurd (omega arith))
        ∙ m.describes j t e
    | inr (e, f) ↦
        rw (e, f) (get-set_self b (length xs) (segment_type t) m.in_range room (segment_type-lt t))
  ];
}
