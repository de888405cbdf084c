-- ===== src/Routing/Matching/Laws.antt =====
-- runar-node/src/routing/mod.rs: what `segments_match` and `matches` decide.
use mathlib.Core.Path.{subst}
use rust_mono.Prelude.{
  ◌≤◌, ◌≡◌, ◌≢◌, ◌↔◌, ◌⊎◌, refl, ap, sym, ◌∙◌, inl, inr, true, false, ◌&&◌, String, ◌==◌, eq_iff,
  List, [], ◌∷◌, ◌++◌, map, length, length-append, length-map, init, any, arith,
}
use rust_mono.Routing.Segment.{
  PathSegment, literal, template, single_wildcard, multi_wildcard, is_wildcard, is_multi_wildcard,
  is_template, to_string,
}
use rust_mono.Routing.TopicPath.{TopicPath}
use rust_mono.Routing.Invariant.{IsWellFormed, IsPrinted, multi_last}
use rust_mono.Routing.Equality.Laws.{parts_of_path_eq}
use rust_mono.Routing.Navigation.Queries.{has_multi_wildcard-any}
use rust_mono.Routing.Matching.{ends_with_multi, prefix_match, segments_match, matches}
use rust_mono.Routing.Matching.Relation.{
  Fits, FitsBefore, FitsLoosely, FitsLoosely-iff, prefix_match_iff, exact_match_iff,
}

pub last_cases :
    (ps : List PathSegment)
    → multi_last ps ≡ true
    → ((any is_multi_wildcard ps ≡ false) × (ends_with_multi ps ≡ false))
      ⊎ ((any is_multi_wildcard (init ps) ≡ false)
          × (ps ≡ init ps ++ multi_wildcard ∷ [])
          × (ends_with_multi ps ≡ true))
unfolding is_multi_wildcard
last_cases [] h = inl (refl, refl)
last_cases (literal s ∷ []) h = inl (refl, refl)
last_cases (template s ∷ []) h = inl (refl, refl)
last_cases (single_wildcard ∷ []) h = inl (refl, refl)
last_cases (multi_wildcard ∷ []) h = inr (refl, refl, refl)
last_cases (p ∷ q ∷ ps) h = elim (last_cases (q ∷ ps) (ground arith)) [
  | inl (none_left, open') ↦ inl (ground arith, open')
  | inr (none_before, e, closed) ↦
      inr (ground arith, ap (λ (ss : List PathSegment). p ∷ ss) e, closed)
]

prefix_match-le :
    (ps topic : List PathSegment) → prefix_match ps topic ≡ true → length ps ≤ length topic
unfolding prefix_match
prefix_match-le [] topic h = omega arith
prefix_match-le (p ∷ ps) [] h = cc
prefix_match-le (literal s ∷ ps) (literal t ∷ ts) h =
    let fits = prefix_match-le ps ts (ground arith) in omega (arith, fits)
prefix_match-le (literal s ∷ ps) (template t ∷ ts) h = cc
prefix_match-le (literal s ∷ ps) (single_wildcard ∷ ts) h = cc
prefix_match-le (literal s ∷ ps) (multi_wildcard ∷ ts) h = cc
prefix_match-le (template s ∷ ps) (literal t ∷ ts) h = omega (arith, prefix_match-le ps ts h)
prefix_match-le (template s ∷ ps) (template t ∷ ts) h = cc
prefix_match-le (template s ∷ ps) (single_wildcard ∷ ts) h = cc
prefix_match-le (template s ∷ ps) (multi_wildcard ∷ ts) h = cc
prefix_match-le (single_wildcard ∷ ps) (t ∷ ts) h = omega (arith, prefix_match-le ps ts h)
prefix_match-le (multi_wildcard ∷ ps) (t ∷ ts) h = cc

ends_with_multi-any :
    (ps : List PathSegment) → any is_multi_wildcard ps ≡ false → ends_with_multi ps ≡ false
unfolding is_multi_wildcard
ends_with_multi-any [] h = refl
ends_with_multi-any (literal s ∷ []) h = refl
ends_with_multi-any (template s ∷ []) h = refl
ends_with_multi-any (single_wildcard ∷ []) h = refl
ends_with_multi-any (multi_wildcard ∷ []) h = cc
ends_with_multi-any (p ∷ q ∷ ps) h = ends_with_multi-any (q ∷ ps) (ground arith)

-- On the segments of a concrete path, `segments_match` answers yes exactly when the pattern's
-- segments fit, if `>` stands at most at the end of the pattern.
pub segments_match_iff :
    (ps : List PathSegment) (ts : List String)
    → multi_last ps ≡ true
    → (segments_match ps (map literal ts) ≡ true) ↔ FitsLoosely ps ts
unfolding segments_match
segments_match_iff ps ts h = elim (last_cases ps h) [
  | inl (plain, open') ↦
      let (to, from) = exact_match_iff ps ts plain in
      let same_length = length-map literal ts in
      (
        λ e. to (ground (arith, same_length), ground (arith, same_length)),
        λ f. let (l, e) = from f in ground (arith, same_length),
      )
  | inr (plain, shape, closed) ↦
      let (to, from) = prefix_match_iff (init ps) ts plain in
      (
        λ e. subst (λ (qs : List PathSegment). FitsLoosely qs ts) (sym shape) (to (ground arith)),
        λ f.
            let matched = from (subst (λ (qs : List PathSegment). FitsLoosely qs ts) shape f) in
            let enough = prefix_match-le (init ps) (map literal ts) matched in
            let whole = ap length shape ∙ length-append (init ps) (multi_wildcard ∷ []) in
            ground (arith, matched, enough, whole, closed),
      )
]

-- The texts of a path without wildcards and parameters.
concrete :
    (ss : List PathSegment)
    → any is_wildcard ss ≡ false
    → any is_template ss ≡ false
    → ss ≡ map literal (map to_string ss)
unfolding is_wildcard is_template to_string
concrete [] h k = refl
concrete (literal s ∷ ss) h k = ap (λ (ts : List PathSegment). literal s ∷ ts) (concrete ss h k)
concrete (template s ∷ ss) h k = cc
concrete (single_wildcard ∷ ss) h k = cc
concrete (multi_wildcard ∷ ss) h k = cc

-- A path of `new` or `child`: its caches and its text agree with its segments.
pub record IsPath (tp : TopicPath) : Type 0 where
  pub well_formed : IsWellFormed tp
  pub printed : IsPrinted tp
  pub last : multi_last tp.segments ≡ true
  pub short : length tp.segments ≤ 32

no_multi-length :
    (ps ts : List PathSegment)
    → any is_multi_wildcard ps ≡ false
    → segments_match ps ts ≡ true
    → length ps ≡ length ts
unfolding segments_match
no_multi-length ps ts none_left h = ground (arith, ends_with_multi-any ps none_left)

matches-eq :
    (p t : TopicPath)
    → IsPath p
    → IsPath t
    → p.is_pattern ≡ true
    → p.has_templates ≡ false
    → t.is_pattern ≡ false
    → t.has_templates ≡ false
    → matches p t ≡ (p.network_id == t.network_id && segments_match p.segments t.segments)
unfolding matches
matches-eq p t vp vt wild bare plain literals = ground (
  arith,
  eq_iff p.path t.path,
  distinct,
  has_multi_wildcard-any p vp.well_formed vp.short,
  no_multi-length p.segments t.segments,
)
  where
    distinct : p.path ≢ t.path
    distinct e =
        let (_, s) = parts_of_path_eq p t vp.printed vt.printed e in
        let flags : p.is_pattern ≡ t.is_pattern =
          vp.well_formed.pattern ∙ ap (any is_wildcard) s ∙ sym vt.well_formed.pattern in
        cc

-- `matches` of a wildcard pattern without parameters and a concrete path, both as `new` builds them
-- and of at most 32 segments, answers yes exactly when the networks are the same and the pattern's
-- segments fit the path's as it is documented, a final `>` one or more of them, or, against the
-- documentation, what stands before the pattern's final `>` fits the whole path, so that the `>`
-- takes no segment.
pub matches_iff :
    (p t : TopicPath)
    → IsPath p
    → IsPath t
    → p.is_pattern ≡ true
    → p.has_templates ≡ false
    → t.is_pattern ≡ false
    → t.has_templates ≡ false
    → (matches p t ≡ true) ↔ (
        (p.network_id ≡ t.network_id)
        × (Fits p.segments (map to_string t.segments)
            ⊎ FitsBefore p.segments (map to_string t.segments)))
unfolding matches
matches_iff p t vp vt wild bare plain literals =
    let same_texts =
      concrete t.segments (sym vt.well_formed.pattern ∙ plain)
        (sym vt.well_formed.templates ∙ literals) in
    let (to, from) = segments_match_iff p.segments (map to_string t.segments) vp.last in
    let (apart, together) = FitsLoosely-iff p.segments (map to_string t.segments) in
    let decided = matches-eq p t vp vt wild bare plain literals in
    let onto : segments_match p.segments t.segments
        ≡ segments_match p.segments (map literal (map to_string t.segments)) =
      ap (segments_match p.segments) same_texts in
    (
      λ e. ((eq_iff p.network_id t.network_id).0 (ground arith), apart (to (ground arith))),
      λ (n, f).
          let matched = from (together f) in ground (arith, eq_iff p.network_id t.network_id, n),
    )
