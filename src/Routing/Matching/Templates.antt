-- ===== src/Routing/Matching/Templates.antt =====
-- runar-node/src/routing/mod.rs: `matches` of a path without parameters and a topic with some.
use mathlib.Core.Path.{subst}
use rust_mono.Prelude.{
  ◌≡◌, ◌≢◌, refl, sym, ap, ap₂, ◌∙◌, inl, inr, Bool, true, false, ◌||◌, String, ◌==◌, eq_iff, List,
  [], ◌∷◌, map, length, length-map, leb, is_empty, any, arith, Bool-cases,
}
use rust_mono.Prelude.Result.{ok}
use rust_mono.Prelude.Text.{empty, split, join, starts_with_char}
use rust_mono.Prelude.Text.Split.{Free}
use rust_mono.Routing.Segment.{PathSegment, from_str, is_template, is_template_param}
use rust_mono.Routing.TopicPath.{TopicPath, Hasher, new, path_pieces, action_text, get_segments}
use rust_mono.Routing.Invariant.{IsWellFormed}
use rust_mono.Routing.Parsing.{new-IsParsed, new-IsWellFormed, new-IsPrinted}
use rust_mono.Routing.Equality.Laws.{parts_of_path_eq}
use rust_mono.Routing.Matching.{template_loop, matches_template, matches}
use rust_mono.Routing.Template.Laws.{path_pieces-join-path_pieces, get_segments-pieces, some_piece}

-- Without parameters the loop over a template compares the segments.
template_loop-literal :
    (ts ps : List String)
    → any is_template_param ts ≡ false
    → length ts ≡ length ps
    → template_loop ts ps ≡ true
    → ts ≡ ps
unfolding template_loop
template_loop-literal [] [] plain same h = refl
template_loop-literal [] (p ∷ ps) plain same h = ground arith
template_loop-literal (t ∷ ts) [] plain same h = ground arith
template_loop-literal (t ∷ ts) (p ∷ ps) plain same h =
    ap₂ (λ x xs. x ∷ xs) ((eq_iff t p).0 (ground arith))
      (template_loop-literal ts ps (ground arith) (omega arith) (ground arith))

is_template-from_str : (s : String) → is_template (from_str s) ≡ is_template_param s
unfolding is_template from_str is_template_param starts_with_char
is_template-from_str s = elim (Bool-cases (s == "*")) [
  | inl a ↦
      subst (λ x. is_template (from_str x) ≡ is_template_param x) (sym ((eq_iff s "*").0 a)) refl
  | inr a ↦ elim (Bool-cases (s == ">")) [
    | inl b ↦
        subst (λ x. is_template (from_str x) ≡ is_template_param x) (sym ((eq_iff s ">").0 b)) refl
    | inr b ↦ elim (Bool-cases (is_template_param s)) [
      | inl c ↦ rw (a, b, c) refl
      | inr c ↦ rw (a, b, c) refl
    ]
  ]
]

any-from_str : (ps : List String) → any is_template (map from_str ps) ≡ any is_template_param ps
any-from_str [] = refl
any-from_str (p ∷ ps) = ap₂ (λ x y. x || y) (is_template-from_str p) (any-from_str ps)

bool_false : (b : Bool) → b ≢ true → b ≡ false
bool_false true never = absurd (never refl)
bool_false false never = refl

action_text-short : (ss : List PathSegment) → leb (length ss) 1 ≡ true → action_text ss ≡ ""
unfolding action_text
action_text-short ss short = rw short refl

no_action_piece : (s : String) → s ≡ "" → length (path_pieces s) ≡ 0
unfolding path_pieces split
no_action_piece s e = ap (λ x. length (path_pieces x)) e

module _ (hasher : Hasher) where
  cached_action_path-new :
      (a d : String) (tp : TopicPath)
      → new hasher a d ≡ ok tp
      → tp.cached_action_path ≡ action_text tp.segments
  cached_action_path-new a d tp h =
      subst (λ (x : TopicPath). x.cached_action_path ≡ action_text x.segments)
        (new-IsParsed hasher a d tp h).result refl

  -- The pieces of the action path are the segments, or there is but one segment and no piece.
  action_pieces :
      (tp : TopicPath) (r : String)
      → tp.cached_action_path ≡ action_text tp.segments
      → tp.segments ≡ map from_str (path_pieces r)
      → is_empty (path_pieces r) ≡ false
      → leb (length tp.segments) 1 ≡ false
      → path_pieces tp.cached_action_path ≡ path_pieces r
  unfolding action_text
  action_pieces tp r cached pieces some_left long =
      ap path_pieces (
        cached
        ∙ rw long
            (ap (join "/") (unfold get_segments in get_segments-pieces tp (path_pieces r) pieces)))
      ∙ path_pieces-join-path_pieces r some_left

  -- A path without parameters does not pass for a template with some.
  not-matches_template :
      (p t : TopicPath) (r r' : String)
      → IsWellFormed p
      → IsWellFormed t
      → p.cached_action_path ≡ action_text p.segments
      → p.segments ≡ map from_str (path_pieces r)
      → t.segments ≡ map from_str (path_pieces r')
      → p.has_templates ≡ false
      → t.has_templates ≡ true
      → matches_template t p.cached_action_path ≡ true
      → path_pieces r ≡ path_pieces r'
  unfolding matches_template
  not-matches_template p t r r' wp wt cached pp pt none_here some_there h =
      let plain : any is_template_param (path_pieces r) ≡ false =
        sym (any-from_str (path_pieces r))
        ∙ ap (any is_template) (sym pp)
        ∙ sym wp.templates
        ∙ none_here in
      let segments = get_segments-pieces t (path_pieces r') pt in
      let count : length (path_pieces p.cached_action_path) ≡ t.segment_count =
        ground (arith, h, some_there) in
      let loop : template_loop (path_pieces p.cached_action_path) (get_segments t) ≡ true =
        ground (arith, h, some_there) in
      let t_length : t.segment_count ≡ length (path_pieces r') =
        wt.counted ∙ ap length pt ∙ length-map from_str (path_pieces r') in
      let some_left = some_piece p.segments (path_pieces r) pp wp.nonempty in
      elim (Bool-cases (leb (length p.segments) 1)) [
        | inl short ↦
            let nothing : length (path_pieces p.cached_action_path) ≡ 0 =
              no_action_piece p.cached_action_path (cached ∙ action_text-short p.segments short) in
            absurd (omega (arith, nothing, count, wt.counted, wt.nonempty))
        | inr long ↦
            let e = action_pieces p r cached pp some_left long in
            template_loop-literal (path_pieces r) (path_pieces r') plain
              (ap length (sym e) ∙ count ∙ t_length)
              (subst (λ (xs : List String). template_loop xs (path_pieces r') ≡ true) e
                (subst
                  (λ (ys : List String). template_loop (path_pieces p.cached_action_path) ys ≡ true)
                  segments loop))
      ]

  -- `matches` of a path without parameters and a topic with some, both built by `new` with default
  -- networks that are neither empty nor contain a colon, answers no, whatever the texts are.
  pub matches_template_topic :
      (a b d d' : String) (p t : TopicPath)
      → Free ":" d × (empty d ≡ false)
      → Free ":" d' × (empty d' ≡ false)
      → new hasher a d ≡ ok p
      → new hasher b d' ≡ ok t
      → p.has_templates ≡ false
      → t.has_templates ≡ true
      → matches p t ≡ false
  unfolding matches
  matches_template_topic a b d d' p t (f, e) (f', e') made_p made_t none_here some_there =
      let printed_p = new-IsPrinted hasher a d p f e made_p in
      let printed_t = new-IsPrinted hasher b d' t f' e' made_t in
      let wp = (new-IsWellFormed hasher a d p made_p).0 in
      let wt = (new-IsWellFormed hasher b d' t made_t).0 in
      let differ : p.segments ≢ t.segments = λ same. cc (
        sym none_here ∙ wp.templates ∙ ap (any is_template) same ∙ sym wt.templates ∙ some_there) in
      let other_path : (p.path == t.path) ≡ false = bool_false (p.path == t.path) (λ same.
        differ (parts_of_path_eq p t printed_p printed_t ((eq_iff p.path t.path).0 same)).1) in
      let no_match : matches_template t p.cached_action_path ≡ false =
        bool_false (matches_template t p.cached_action_path) (λ h. differ (
          printed_p.pieces
          ∙ ap (map from_str) (
              not-matches_template p t printed_p.rest printed_t.rest wp wt
                (cached_action_path-new a d p made_p) printed_p.pieces printed_t.pieces none_here
                some_there h)
          ∙ sym printed_t.pieces)) in
      ground (arith, other_path, no_match, none_here, some_there)
