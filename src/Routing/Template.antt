-- ===== src/Routing/Template.antt =====
-- runar-node/src/routing/mod.rs: `extract_params` and `from_template`.
pub mod Laws
use rust_mono.Prelude.{
  ℕ, Bool, true, false, not, ◌&&◌, String, ◌==◌, Option, none, some, List, [], ◌∷◌, map, length,
  eqb, if◌then◌else◌,
}
use rust_mono.Prelude.Result.{ok, err, ◌>>=◌}
use rust_mono.Prelude.HashMap as Map
use rust_mono.Prelude.HashMap.{HashMap}
use rust_mono.Prelude.Text.{inner, join}
use rust_mono.Routing.Segment.{PathSegment, literal, is_template_param, to_string}
use rust_mono.Routing.TopicPath.{
  TopicPath, Fallible, Hasher, missing_parameter, segment_count_mismatch, segment_mismatch,
  path_pieces, get_segments, new,
}

-- The loop over the template's segments. (`path_segments[i]` is in bounds, as the counts agree.)
unfoldable pub extract_loop : List String → List String → HashMap String → Fallible (HashMap String)
extract_loop [] ps params = ok params
extract_loop (t ∷ ts) [] params = err (segment_count_mismatch 0 (length (t ∷ ts)))
extract_loop (t ∷ ts) (p ∷ ps) params =
    if not (is_template_param t) && not (t == p)
    then err (segment_mismatch p t)
    else extract_loop ts ps (if is_template_param t then Map.insert (inner t) p params else params)

unfoldable pub extract_params : TopicPath → String → Fallible (HashMap String)
extract_params tp pattern =
    let path_segments = get_segments tp in
    let template_segments = path_pieces pattern in
    if not (eqb (length path_segments) (length template_segments))
    then err (segment_count_mismatch (length path_segments) (length template_segments))
    else extract_loop template_segments path_segments []

abbrev pub value_of : String → Option String → Fallible PathSegment
value_of name none = err (missing_parameter name)
value_of name (some value) = ok (literal value)

unfoldable pub fill_segment : HashMap String → String → Fallible PathSegment
fill_segment params t =
    if is_template_param t then value_of (inner t) (Map.get (inner t) params) else ok (literal t)

unfoldable pub fill : HashMap String → List String → Fallible (List PathSegment)
fill params [] = ok []
fill params (t ∷ ts) = do
  segment ← fill_segment params t
  segments ← fill params ts
  ok (segment ∷ segments)

module _ (hasher : Hasher) where
  unfoldable pub from_template : String → HashMap String → String → Fallible TopicPath
  from_template pattern params network_id = do
    segments ← fill params (path_pieces pattern)
    new hasher (join "/" (map to_string segments)) network_id
