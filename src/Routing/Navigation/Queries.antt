-- ===== src/Routing/Navigation/Queries.antt =====
-- The loops over the bitmap answer questions about the segments.
use rust_mono.Prelude.{
  ℕ, zero, suc, ◌+◌, ◌<◌, ◌≤◌, ◌≡◌, refl, ap, ◌∙◌, Bool, some, List, [], ◌∷◌, length, get_elem?,
  any, arith, eqb,
}
use rust_mono.Routing.Segment.{
  PathSegment, literal, template, single_wildcard, multi_wildcard, is_wildcard, is_multi_wildcard,
  is_template,
}
use rust_mono.Routing.Bitmap.{get_segment_type}
use rust_mono.Routing.TopicPath.{TopicPath, segment_type}
use rust_mono.Routing.Invariant.{IsMapped, IsWellFormed}
use rust_mono.Routing.Navigation.{has_segment_type, any_index, has_multi_wildcard, is_wildcard_type}

-- A test on indices that agrees with a test on the elements.
pub any_index-any {ℓ} :
    {A : Type ℓ} (test : ℕ → Bool) (p : A → Bool) (xs : List A) (first : ℕ)
    → ((i : ℕ) (x : A) → get_elem? xs i ≡ some x → test (first + i) ≡ p x)
    → any_index test (length xs) first ≡ any p xs
unfolding any_index
any_index-any test p [] first h = refl
any_index-any test p (x ∷ xs) first h =
    let here : test first ≡ p x = ap test (omega arith) ∙ h 0 x refl in
    let later : any_index test (length xs) (first + 1) ≡ any p xs =
      any_index-any test p xs (first + 1) (λ i y e. ap test (omega arith) ∙ h (suc i) y e) in
    rw (here, later) refl

pub wildcard_type : (s : PathSegment) → is_wildcard_type (segment_type s) ≡ is_wildcard s
unfolding segment_type is_wildcard
wildcard_type (literal s) = refl
wildcard_type (template s) = refl
wildcard_type single_wildcard = refl
wildcard_type multi_wildcard = refl

pub multi_wildcard_type : (s : PathSegment) → eqb (segment_type s) 3 ≡ is_multi_wildcard s
unfolding segment_type is_multi_wildcard
multi_wildcard_type (literal s) = refl
multi_wildcard_type (template s) = refl
multi_wildcard_type single_wildcard = refl
multi_wildcard_type multi_wildcard = refl

pub template_type : (s : PathSegment) → eqb (segment_type s) 1 ≡ is_template s
unfolding segment_type is_template
template_type (literal s) = refl
template_type (template s) = refl
template_type single_wildcard = refl
template_type multi_wildcard = refl

pub get_elem?-lt {ℓ} :
    {A : Type ℓ} (xs : List A) (i : ℕ) (x : A) → get_elem? xs i ≡ some x → i < length xs
get_elem?-lt [] i x h = cc
get_elem?-lt (y ∷ xs) zero x h = omega arith
get_elem?-lt (y ∷ xs) (suc i) x h = omega (arith, get_elem?-lt xs i x h)

-- A loop over the types of a described bitmap is a search of the segments.
pub any_type-any :
    (q : ℕ → Bool) (p : PathSegment → Bool) (b : ℕ) (xs : List PathSegment)
    → ((s : PathSegment) → q (segment_type s) ≡ p s)
    → IsMapped b xs
    → any_index (λ i. q (get_segment_type b i)) (length xs) 0 ≡ any p xs
any_type-any q p b xs same m =
    any_index-any (λ i. q (get_segment_type b i)) p xs 0
      λ i s e.
        let index : 0 + i ≡ i = omega arith in
        ap (λ (k : ℕ). q (get_segment_type b k)) index ∙ ap q (m.describes i s e) ∙ same s

-- For a well-formed path of at most 32 segments, `has_multi_wildcard` answers by the bitmap whether
-- some segment is `>`.
pub has_multi_wildcard-any :
    (tp : TopicPath)
    → IsWellFormed tp
    → length tp.segments ≤ 32
    → has_multi_wildcard tp ≡ any is_multi_wildcard tp.segments
unfolding has_multi_wildcard
has_multi_wildcard-any tp w fits =
    ap (λ (n : ℕ). any_index (λ i. has_segment_type tp i 3) n 0) w.counted
    ∙ any_index-any (λ i. has_segment_type tp i 3) is_multi_wildcard tp.segments 0 at_index
  where
    at_index :
        (i : ℕ) (s : PathSegment)
        → get_elem? tp.segments i ≡ some s
        → has_segment_type tp (0 + i) 3 ≡ is_multi_wildcard s
    at_index i s e =
        let described = (w.mapped fits).describes i s e in
        let index : 0 + i ≡ i = omega arith in
        rw index (
          unfold has_segment_type in
          ground
            (arith, described, multi_wildcard_type s, get_elem?-lt tp.segments i s e, w.counted))
