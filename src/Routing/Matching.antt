-- ===== src/Routing/Matching.antt =====
-- runar-node/src/routing/mod.rs: `matches`, `segments_match` and `matches_template`.
pub mod Relation
pub mod Laws
pub mod Templates
use rust_mono.Prelude.{
  ℕ, ◌-◌, Bool, true, false, not, ◌&&◌, ◌||◌, String, ◌==◌, Option, none, some, List, [], ◌∷◌,
  length, init, get_last?, ltb, eqb, if◌then◌else◌,
}
use rust_mono.Prelude.Text.{has_char, contains}
use rust_mono.Routing.Segment.{
  PathSegment, literal, template, single_wildcard, multi_wildcard, is_template_param, seg_eq,
}
use rust_mono.Routing.TopicPath.{TopicPath, path_pieces, get_segments}
use rust_mono.Routing.Navigation.{has_multi_wildcard}

-- The loop over the template's segments. (`path_segments[i]` is in bounds, as the counts agree.)
unfoldable pub template_loop : List String → List String → Bool
template_loop [] path_segments = true
template_loop (t ∷ ts) [] = false
template_loop (t ∷ ts) (p ∷ ps) =
    if not (is_template_param t) && not (t == p) then false else template_loop ts ps

unfoldable pub matches_template : TopicPath → String → Bool
matches_template tp pattern =
    let template_segments = path_pieces pattern in
    if not tp.has_templates && not (has_char "{" pattern)
    then contains tp.path pattern
    else if not (eqb (length template_segments) tp.segment_count)
    then false
    else template_loop template_segments (get_segments tp)

abbrev pub ends : Option PathSegment → Bool
ends (some multi_wildcard) = true
ends _ = false

abbrev pub ends_with_multi : List PathSegment → Bool
ends_with_multi segments = ends (get_last? segments)

-- The loop over the segments before a final `>`. (The topic is long enough; a `>` here is
-- `unreachable!`.)
unfoldable pub prefix_match : List PathSegment → List PathSegment → Bool
prefix_match [] topic = true
prefix_match (p ∷ ps) [] = false
prefix_match (literal p ∷ ps) (literal t ∷ ts) = if p == t then prefix_match ps ts else false
prefix_match (template _ ∷ ps) (literal _ ∷ ts) = prefix_match ps ts
prefix_match (single_wildcard ∷ ps) (t ∷ ts) = prefix_match ps ts
prefix_match (_ ∷ ps) (t ∷ ts) = false

-- What the second loop does with segments that are not identical.
unfoldable pub differing_match : PathSegment → PathSegment → Bool
differing_match (template _) (literal _) = true
differing_match single_wildcard t = true
differing_match _ _ = false

-- The loop over all segments, the lengths being equal.
unfoldable pub exact_match : List PathSegment → List PathSegment → Bool
exact_match [] topic = true
exact_match (p ∷ ps) [] = false
exact_match (p ∷ ps) (t ∷ ts) =
    if seg_eq p t || differing_match p t then exact_match ps ts else false

unfoldable pub segments_match : List PathSegment → List PathSegment → Bool
segments_match pattern topic =
    if ends_with_multi pattern
    then (if ltb (length topic) (length pattern - 1)
        then false
        else prefix_match (init pattern) topic)
    else if not (eqb (length pattern) (length topic))
    then false
    else exact_match pattern topic

unfoldable pub matches : TopicPath → TopicPath → Bool
matches self topic =
    if not (self.network_id == topic.network_id)
    then false
    else if self.path == topic.path
    then true
    else if not (eqb self.segment_count topic.segment_count) && not (has_multi_wildcard self)
    then false
    else if not self.is_pattern
        && not topic.is_pattern
        && not self.has_templates
        && not topic.has_templates
    then false
    else if self.has_templates && not topic.has_templates
    then false
    else if not self.has_templates && topic.has_templates
    then matches_template topic self.cached_action_path
    else segments_match self.segments topic.segments
