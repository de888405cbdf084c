-- ===== src/Routing/Matching/Relation.antt =====
-- When a pattern fits a concrete path, as a relation; the loops of `segments_match` decide it.
use mathlib.Core.Path.{subst}
use rust_mono.Prelude.{
  ◌≡◌, ◌↔◌, ◌⊎◌, inl, inr, refl, true, false, String, eq_iff, List, [], ◌∷◌, length, arith, any,
  map, ◌++◌,
}
use rust_mono.Routing.Segment.{
  PathSegment, literal, template, single_wildcard, multi_wildcard, is_multi_wildcard, seg_eq,
}
use rust_mono.Routing.Matching.{prefix_match, differing_match, exact_match}

-- One segment of a pattern fits one literal of a concrete path.
pub data SegmentFits : PathSegment → String → Type 0 where
  same : (s : String) → SegmentFits (literal s) s
  parameter : (name s : String) → SegmentFits (template name) s
  any_segment : (s : String) → SegmentFits single_wildcard s

-- A pattern fits a path as it is documented: a final `>` takes one or more segments.
pub data Fits : List PathSegment → List String → Type 0 where
  finished : Fits [] []
  all_the_rest : (t : String) (ts : List String) → Fits (multi_wildcard ∷ []) (t ∷ ts)
  step :
      {p : PathSegment} {ps : List PathSegment} {t : String} {ts : List String}
      → SegmentFits p t
      → Fits ps ts
      → Fits (p ∷ ps) (t ∷ ts)

-- What stands before the final `>` of a pattern fits the whole path.
pub data FitsBefore : List PathSegment → List String → Type 0 where
  nothing_left : FitsBefore (multi_wildcard ∷ []) []
  step_before :
      {p : PathSegment} {ps : List PathSegment} {t : String} {ts : List String}
      → SegmentFits p t
      → FitsBefore ps ts
      → FitsBefore (p ∷ ps) (t ∷ ts)

-- What the loops decide: a final `>` takes whatever is left, nothing included.
pub data FitsLoosely : List PathSegment → List String → Type 0 where
  at_end : FitsLoosely [] []
  whatever_is_left : (ts : List String) → FitsLoosely (multi_wildcard ∷ []) ts
  step_loosely :
      {p : PathSegment} {ps : List PathSegment} {t : String} {ts : List String}
      → SegmentFits p t
      → FitsLoosely ps ts
      → FitsLoosely (p ∷ ps) (t ∷ ts)

FitsLoosely-cases :
    {ps : List PathSegment} {ts : List String} → FitsLoosely ps ts → Fits ps ts ⊎ FitsBefore ps ts
FitsLoosely-cases at_end = inl finished
FitsLoosely-cases (whatever_is_left []) = inr nothing_left
FitsLoosely-cases (whatever_is_left (t ∷ ts)) = inl (all_the_rest t ts)
FitsLoosely-cases (step_loosely s r) = elim (FitsLoosely-cases r) [
  | inl f ↦ inl (step s f)
  | inr b ↦ inr (step_before s b)
]

FitsLoosely-of_Fits : {ps : List PathSegment} {ts : List String} → Fits ps ts → FitsLoosely ps ts
FitsLoosely-of_Fits finished = at_end
FitsLoosely-of_Fits (all_the_rest t ts) = whatever_is_left (t ∷ ts)
FitsLoosely-of_Fits (step s r) = step_loosely s (FitsLoosely-of_Fits r)

FitsLoosely-of_FitsBefore :
    {ps : List PathSegment} {ts : List String} → FitsBefore ps ts → FitsLoosely ps ts
FitsLoosely-of_FitsBefore nothing_left = whatever_is_left []
FitsLoosely-of_FitsBefore (step_before s r) = step_loosely s (FitsLoosely-of_FitsBefore r)

pub FitsLoosely-iff :
    (ps : List PathSegment) (ts : List String) → FitsLoosely ps ts ↔ (Fits ps ts ⊎ FitsBefore ps ts)
FitsLoosely-iff ps ts = (
  FitsLoosely-cases,
  λ c. elim c [ inl f ↦ FitsLoosely-of_Fits f | inr b ↦ FitsLoosely-of_FitsBefore b ],
)

FitsLoosely-cons :
    {p : PathSegment} {ps : List PathSegment} {t : String} {ts : List String}
    → FitsLoosely (p ∷ ps) (t ∷ ts)
    → is_multi_wildcard p ≡ false
    → SegmentFits p t × FitsLoosely ps ts
unfolding is_multi_wildcard
FitsLoosely-cons (whatever_is_left us) h = absurd (cc)
FitsLoosely-cons (step_loosely s r) h = (s, r)

FitsLoosely-cons-nil :
    {p : PathSegment} {ps : List PathSegment}
    → FitsLoosely (p ∷ ps) []
    → is_multi_wildcard p ≡ false
    → ⊥
unfolding is_multi_wildcard
FitsLoosely-cons-nil (whatever_is_left us) h = cc

SegmentFits-literal : {s t : String} → SegmentFits (literal s) t → s ≡ t
SegmentFits-literal (same s) = refl

SegmentFits-of_eq : (s t : String) → s ≡ t → SegmentFits (literal s) t
SegmentFits-of_eq s t e = subst (SegmentFits (literal s)) e (same s)

-- The loop over a prefix, on a concrete path, finds out whether the prefix and a `>` fit.
pub prefix_match_iff :
    (ps : List PathSegment) (ts : List String)
    → any is_multi_wildcard ps ≡ false
    → (prefix_match ps (map literal ts) ≡ true) ↔ FitsLoosely (ps ++ multi_wildcard ∷ []) ts
unfolding prefix_match is_multi_wildcard
prefix_match_iff [] ts h = (λ _. whatever_is_left ts, λ _. refl)
prefix_match_iff (multi_wildcard ∷ ps) ts h = absurd (cc)
prefix_match_iff (p ∷ ps) [] h =
    (λ e. absurd (cc), λ f. absurd (FitsLoosely-cons-nil f (ground arith)))
prefix_match_iff (literal s ∷ ps) (t ∷ ts) h =
    let (to, from) = prefix_match_iff ps ts h in
    (
      λ e. step_loosely (SegmentFits-of_eq s t ((eq_iff s t).0 (ground arith))) (to (ground arith)),
      λ f.
          let (here, later) = FitsLoosely-cons f refl in
          rw ((eq_iff s t).1 (SegmentFits-literal here)) (from later),
    )
prefix_match_iff (template n ∷ ps) (t ∷ ts) h =
    let (to, from) = prefix_match_iff ps ts h in
    (λ e. step_loosely (parameter n t) (to e), λ f. from (FitsLoosely-cons f refl).1)
prefix_match_iff (single_wildcard ∷ ps) (t ∷ ts) h =
    let (to, from) = prefix_match_iff ps ts h in
    (λ e. step_loosely (any_segment t) (to e), λ f. from (FitsLoosely-cons f refl).1)

-- The loop over equally long lists decides a fit without `>`.
pub exact_match_iff :
    (ps : List PathSegment) (ts : List String)
    → any is_multi_wildcard ps ≡ false
    → ((length ps ≡ length ts) × (exact_match ps (map literal ts) ≡ true)) ↔ FitsLoosely ps ts
unfolding exact_match is_multi_wildcard seg_eq differing_match
exact_match_iff [] [] h = (λ _. at_end, λ _. (refl, refl))
exact_match_iff [] (t ∷ ts) h = (λ (e, _). absurd (omega arith), λ f. elim f [ ])
exact_match_iff (multi_wildcard ∷ ps) ts h = absurd (cc)
exact_match_iff (p ∷ ps) [] h =
    (λ (e, _). absurd (omega arith), λ f. absurd (FitsLoosely-cons-nil f (ground arith)))
exact_match_iff (literal s ∷ ps) (t ∷ ts) h =
    let (to, from) = exact_match_iff ps ts h in
    (
      λ (l, e).
          step_loosely (SegmentFits-of_eq s t ((eq_iff s t).0 (ground arith)))
            (to (omega arith, ground arith)),
      λ f.
          let (here, later) = FitsLoosely-cons f refl in
          let (l, e) = from later in
          (omega arith, rw ((eq_iff s t).1 (SegmentFits-literal here)) e),
    )
exact_match_iff (template n ∷ ps) (t ∷ ts) h =
    let (to, from) = exact_match_iff ps ts h in
    (
      λ (l, e). step_loosely (parameter n t) (to (omega arith, e)),
      λ f. let (l, e) = from (FitsLoosely-cons f refl).1 in (omega arith, e),
    )
exact_match_iff (single_wildcard ∷ ps) (t ∷ ts) h =
    let (to, from) = exact_match_iff ps ts h in
    (
      λ (l, e). step_loosely (any_segment t) (to (omega arith, e)),
      λ f. let (l, e) = from (FitsLoosely-cons f refl).1 in (omega arith, e),
    )
