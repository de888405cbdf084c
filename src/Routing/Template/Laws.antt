-- ===== src/Routing/Template/Laws.antt =====
-- runar-node/src/routing/mod.rs: `extract_params` inverts `from_template`, and agrees with
-- `matches_template`.
use mathlib.Core.Path.{subst}
use rust_mono.Prelude.{
  ◌<◌, ◌≡◌, refl, sym, ap, ◌∙◌, ◌↔◌, inl, inr, Bool, true, false, not, ◌&&◌, ◌||◌, String, ◌==◌,
  eq_iff, eq_refl, some, List, [], ◌∷◌, map, length, length-map, is_empty, eqb, eqb_iff,
  if◌then◌else◌, Bool-cases, arith, retain, All, All-retain,
}
use rust_mono.Prelude.Result.{ok, ok-injective}
use rust_mono.Prelude.HashMap as Map
use rust_mono.Prelude.HashMap.{HashMap, get-insert}
use rust_mono.Prelude.Text.{empty, has_char, inner, split, join}
use rust_mono.Prelude.Text.Split.{Free, split-join, split-Free, split-Free_other, join-Free}
use rust_mono.Routing.Segment.{
  PathSegment, literal, is_template_param, from_str, to_string, map-to_string-from_str,
}
use rust_mono.Routing.TopicPath.{TopicPath, Hasher, parse_network, path_pieces, get_segments, new}
use rust_mono.Routing.Invariant.{IsWellFormed}
use rust_mono.Routing.Parsing.{
  new-IsWellFormed, new-IsPrinted, new_accepts_iff, get_segments-new, ok_parts,
}
use rust_mono.Routing.Matching.{template_loop, matches_template}
use rust_mono.Routing.Template.{extract_loop, extract_params, fill_segment, fill, from_template}

-- A template with its parameters replaced by their values.
pub data Fills (params : HashMap String) : List String → List String → Type 0 where
  filled : Fills params [] []
  parameter :
      {t p : String} {ts ps : List String}
      → is_template_param t ≡ true
      → Map.get (inner t) params ≡ some p
      → Fills params ts ps
      → Fills params (t ∷ ts) (p ∷ ps)
  same :
      {t : String} {ts ps : List String}
      → is_template_param t ≡ false
      → Fills params ts ps
      → Fills params (t ∷ ts) (t ∷ ps)

-- Is the name one of the template's parameters? Are these all different?
unfoldable pub named : String → List String → Bool
named k [] = false
named k (t ∷ ts) = (is_template_param t && inner t == k) || named k ts

unfoldable pub distinct_names : List String → Bool
distinct_names [] = true
distinct_names (t ∷ ts) = not (is_template_param t && named (inner t) ts) && distinct_names ts

get-extract_loop :
    (k : String) (ts ps : List String) (params out : HashMap String)
    → named k ts ≡ false
    → length ps ≡ length ts
    → extract_loop ts ps params ≡ ok out
    → Map.get k out ≡ Map.get k params
unfolding named extract_loop
get-extract_loop k [] ps params out n e h = ap (Map.get k) (sym (ok-injective h))
get-extract_loop k (t ∷ ts) [] params out n e h = cc
get-extract_loop k (t ∷ ts) (p ∷ ps) params out n e h = elim (Bool-cases (is_template_param t)) [
  | inl yes_param ↦
      get-extract_loop k ts ps (Map.insert (inner t) p params) out (ground arith) (omega arith)
        (rw yes_param at h)
      ∙ get-insert (inner t) k p params
      ∙ ground arith
  | inr no_param ↦ elim (Bool-cases (t == p)) [
    | inl equal ↦
        get-extract_loop k ts ps params out (ground arith) (omega arith) (rw (no_param, equal) at h)
    | inr other ↦ cc (rw (no_param, other) at h)
  ]
]

extract_loop-Fills :
    (ts ps : List String) (params out : HashMap String)
    → distinct_names ts ≡ true
    → length ps ≡ length ts
    → extract_loop ts ps params ≡ ok out
    → Fills out ts ps
unfolding distinct_names extract_loop
extract_loop-Fills [] [] params out d e h = filled
extract_loop-Fills [] (p ∷ ps) params out d e h = ground arith
extract_loop-Fills (t ∷ ts) [] params out d e h = cc
extract_loop-Fills (t ∷ ts) (p ∷ ps) params out d e h = elim (Bool-cases (is_template_param t)) [
  | inl yes_param ↦
      let rest = rw yes_param at h in
      parameter yes_param
        (get-extract_loop (inner t) ts ps (Map.insert (inner t) p params) out (ground arith)
            (omega arith) rest
          ∙ get-insert (inner t) (inner t) p params
          ∙ rw (eq_refl (inner t)) refl)
        (extract_loop-Fills ts ps (Map.insert (inner t) p params) out (ground arith) (omega arith)
          rest)
  | inr no_param ↦ elim (Bool-cases (t == p)) [
    | inl equal ↦
        subst (λ x. Fills out (t ∷ ts) (x ∷ ps)) ((eq_iff t p).0 equal)
          (same no_param (
            extract_loop-Fills ts ps params out (ground arith) (omega arith)
              (rw (no_param, equal) at h)))
    | inr other ↦ cc (rw (no_param, other) at h)
  ]
]

fill-Fills :
    (params : HashMap String) (ts ps : List String)
    → Fills params ts ps
    → fill params ts ≡ ok (map literal ps)
unfolding fill fill_segment
fill-Fills params [] [] filled = refl
fill-Fills params [] (p ∷ ps) f = elim f [ ]
fill-Fills params (t ∷ ts) [] f = elim f [ ]
fill-Fills params (t ∷ ts) (p ∷ ps) (parameter yes_param found rest) =
    rw (yes_param, found, fill-Fills params ts ps rest) refl
fill-Fills params (t ∷ ts) (_ ∷ ps) (same no_param rest) =
    rw (no_param, fill-Fills params ts ps rest) refl

map-to_string-literal : (ps : List String) → map to_string (map literal ps) ≡ ps
unfolding to_string
map-to_string-literal [] = refl
map-to_string-literal (p ∷ ps) = ap (λ qs. p ∷ qs) (map-to_string-literal ps)

retain_idem : {A : Type 0} (p : A → Bool) (xs : List A) → retain p (retain p xs) ≡ retain p xs
retain_idem p [] = refl
retain_idem p (x ∷ xs) = ground (arith, retain_idem p xs)

-- The non-empty pieces of a text, joined again, have the same non-empty pieces.
pub path_pieces-join-path_pieces :
    (r : String)
    → is_empty (path_pieces r) ≡ false
    → path_pieces (join "/" (path_pieces r)) ≡ path_pieces r
unfolding path_pieces
path_pieces-join-path_pieces r some_left =
    at (path_pieces r) some_left
      (All-retain (Free "/") (λ p. not (empty p)) (split "/" r) (split-Free "/" r))
      (retain_idem (λ p. not (empty p)) (split "/" r))
  where
    at :
        (ps : List String)
        → is_empty ps ≡ false
        → All (Free "/") ps
        → retain (λ p. not (empty p)) ps ≡ ps
        → retain (λ p. not (empty p)) (split "/" (join "/" ps)) ≡ ps
    at [] e free kept = cc
    at (p ∷ ps) e free kept = ap (retain (λ q. not (empty q))) (split-join "/" p ps free) ∙ kept

-- What `extract_params` reads off a path, and that the template filled with it is the path.
pub extract_params-Fills :
    (tp : TopicPath) (pattern : String) (params : HashMap String)
    → distinct_names (path_pieces pattern) ≡ true
    → extract_params tp pattern ≡ ok params
    → Fills params (path_pieces pattern) (get_segments tp)
unfolding extract_params
extract_params-Fills tp pattern params d h =
    elim (Bool-cases (eqb (length (get_segments tp)) (length (path_pieces pattern)))) [
      | inl agree ↦
          extract_loop-Fills (path_pieces pattern) (get_segments tp) [] params d
            ((eqb_iff (length (get_segments tp)) (length (path_pieces pattern))).0 agree)
            (rw agree at h)
      | inr differ ↦ cc (rw differ at h)
    ]

extract_loop-succeeds :
    (ts ps : List String) (params : HashMap String)
    → length ps ≡ length ts
    → ((out : HashMap String) × (extract_loop ts ps params ≡ ok out)) ↔ (template_loop ts ps ≡ true)
unfolding extract_loop template_loop
extract_loop-succeeds [] ps params e = (λ _. refl, λ _. (params, refl))
extract_loop-succeeds (t ∷ ts) [] params e = (λ (out, h). cc, λ h. cc)
extract_loop-succeeds (t ∷ ts) (p ∷ ps) params e =
    elim (Bool-cases (not (is_template_param t) && not (t == p))) [
      | inl bad ↦ rw bad (λ (out, h). cc, λ h. cc)
      | inr good ↦ rw good (
          extract_loop-succeeds ts ps
            (if is_template_param t then Map.insert (inner t) p params else params) (omega arith))
    ]

-- For a well-formed path and a template with an opening brace, `extract_params` succeeds exactly
-- when `matches_template` answers yes.
pub extract_params-matches_template :
    (tp : TopicPath) (pattern : String)
    → IsWellFormed tp
    → has_char "{" pattern ≡ true
    → ((params : HashMap String) × (extract_params tp pattern ≡ ok params))
      ↔ (matches_template tp pattern ≡ true)
unfolding extract_params matches_template get_segments
extract_params-matches_template tp pattern well braced =
    let n = length (map to_string tp.segments) in
    let m = length (path_pieces pattern) in
    let counted : tp.segment_count ≡ n = well.counted ∙ sym (length-map to_string tp.segments) in
    elim (Bool-cases (eqb n m)) [
      | inl agree ↦
          let same_length = (eqb_iff n m).0 agree in
          let agree' : eqb m tp.segment_count ≡ true =
            (eqb_iff m tp.segment_count).1 (sym same_length ∙ sym counted) in
          rw (agree, agree', braced)
            (ground (
              arith,
              extract_loop-succeeds (path_pieces pattern) (map to_string tp.segments) []
                  same_length,
            ))
      | inr differ ↦
          let differ' : eqb m tp.segment_count ≡ false = ground (arith, counted, differ) in
          rw (differ, differ', braced) (λ (params, h). cc, λ h. ground (arith, h))
    ]

pub get_segments-pieces :
    (tp : TopicPath) (pieces : List String)
    → tp.segments ≡ map from_str pieces
    → get_segments tp ≡ pieces
unfolding get_segments
get_segments-pieces tp pieces e = ap (map to_string) e ∙ map-to_string-from_str pieces

pub some_piece :
    (ss : List PathSegment) (ps : List String)
    → ss ≡ map from_str ps
    → 0 < length ss
    → is_empty ps ≡ false
some_piece ss [] e pos = ground (arith, ap length e)
some_piece ss (p ∷ ps) e pos = refl

join_pieces-Free : (r : String) → Free ":" r → Free ":" (join "/" (path_pieces r))
unfolding path_pieces
join_pieces-Free r free =
    join-Free ":" "/" _
      (All-retain (Free ":") (λ p. not (empty p)) (split "/" r) (split-Free_other ":" "/" r free))
      (ground arith)

pub parse_network-bare : (text d : String) → Free ":" text → parse_network text d ≡ ok (d, text)
unfolding parse_network
parse_network-bare text d free = rw free refl

module _ (hasher : Hasher) where
  from_template-Fills :
      (params : HashMap String) (pattern network : String) (ps : List String)
      → Fills params (path_pieces pattern) ps
      → from_template hasher pattern params network ≡ new hasher (join "/" ps) network
  unfolding from_template
  from_template-Fills params pattern network ps f =
      rw (fill-Fills params (path_pieces pattern) ps f, map-to_string-literal ps) refl

  -- If `extract_params` reads the parameters of a template with different parameter names off a
  -- path that `new` built, then `from_template` with these parameters and the path's network
  -- succeeds, and gives a path of the same network and the same segment texts.
  pub from_template-extract_params :
      (p d pattern : String) (tp : TopicPath) (params : HashMap String)
      → Free ":" d × (empty d ≡ false)
      → new hasher p d ≡ ok tp
      → distinct_names (path_pieces pattern) ≡ true
      → extract_params tp pattern ≡ ok params
      → (again : TopicPath) × (from_template hasher pattern params tp.network_id ≡ ok again)
        × (again.network_id ≡ tp.network_id)
        × (get_segments again ≡ get_segments tp)
  from_template-extract_params p d pattern tp params (free, some_network) h distinct extracted =
      let printed = new-IsPrinted hasher p d tp free some_network h in
      let (well, last) = new-IsWellFormed hasher p d tp h in
      let n = tp.network_id in
      let pieces = path_pieces printed.rest in
      let text = join "/" pieces in
      let segments : get_segments tp ≡ pieces = get_segments-pieces tp pieces printed.pieces in
      let some_left : is_empty pieces ≡ false =
        some_piece tp.segments pieces printed.pieces well.nonempty in
      let again_pieces = path_pieces-join-path_pieces printed.rest some_left in
      let parsed : parse_network text n ≡ ok (n, text) =
        parse_network-bare text n (join_pieces-Free printed.rest printed.rest_free) in
      let (again, made) = (new_accepts_iff hasher text n).1 (
        (n, text),
        parsed,
        rw again_pieces some_left,
        rw (again_pieces, sym printed.pieces) last,
      ) in
      let (parts, read, network, _, printed_again) = get_segments-new hasher text n again made in
      let (same_n, same_text) = ok_parts n text parts.0 parts.1 (sym parsed ∙ read) in
      (
        again,
        from_template-Fills params pattern n (get_segments tp)
              (extract_params-Fills tp pattern params distinct extracted)
            ∙ ap (λ qs. new hasher (join "/" qs) n) segments
            ∙ made,
        network ∙ sym same_n,
        printed_again ∙ ap path_pieces (sym same_text) ∙ again_pieces ∙ sym segments,
      )
