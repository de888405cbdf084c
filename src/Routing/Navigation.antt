-- ===== src/Routing/Navigation.antt =====
-- runar-node/src/routing/mod.rs: `child`, `parent` and the queries on the bitmap.
pub mod Queries
pub mod Laws
use Prim.Native.Nat.{bit_and}
use rust_mono.Prelude.{
  ℕ, zero, suc, ◌+◌, ◌-◌, ◌*◌, Bool, true, false, ◌||◌, String, List, [], ◌∷◌, ◌++◌, map, length,
  init, leb, eqb, if◌then◌else◌,
}
use rust_mono.Prelude.Result.{ok, err}
use rust_mono.Prelude.Text.{empty, has_char, glue, join}
use rust_mono.Routing.Segment.{from_str, to_string, is_wildcard, is_template}
use rust_mono.Routing.Bitmap.{
  segment_type_template, segment_type_single_wildcard, segment_type_multi_wildcard, shl64, not64,
  set_segment_type, get_segment_type,
}
use rust_mono.Routing.TopicPath.{TopicPath, Fallible, segment_type, child_with_slash, no_parent}

unfoldable pub has_segment_type : TopicPath → ℕ → ℕ → Bool
has_segment_type tp index segment_type =
    if leb tp.segment_count index
    then false
    else eqb (get_segment_type tp.segment_type_bitmap index) segment_type

-- `for i in first..first + rounds { if test(i) { return true; } } false`
unfoldable pub any_index : (ℕ → Bool) → ℕ → ℕ → Bool
any_index test zero first = false
any_index test (suc rounds) first = test first || any_index test rounds (first + 1)

unfoldable pub has_multi_wildcard : TopicPath → Bool
has_multi_wildcard tp =
    any_index (λ i. has_segment_type tp i segment_type_multi_wildcard) tp.segment_count 0

unfoldable pub child_text : TopicPath → String → String
child_text tp segment =
    if empty tp.cached_action_path
    then glue "/" tp.service_path segment
    else glue "/" tp.cached_action_path segment

unfoldable pub child : TopicPath → String → Fallible TopicPath
child tp segment =
    let new_segment = from_str segment in
    let new_path = child_text tp segment in
    if has_char "/" segment
    then err (child_with_slash segment)
    else ok (record {
      path = glue ":" tp.network_id new_path;
      network_id = tp.network_id;
      segments = tp.segments ++ new_segment ∷ [];
      is_pattern = tp.is_pattern || is_wildcard new_segment;
      has_templates = tp.has_templates || is_template new_segment;
      service_path = tp.service_path;
      cached_action_path = new_path;
      segment_count = tp.segment_count + 1;
      hash_components = [];
      segment_type_bitmap =
          set_segment_type tp.segment_type_bitmap tp.segment_count (segment_type new_segment);
    })

-- `bitmap &= !(0b11 << ((count - 1) * 2))`
unfoldable pub clear_last : ℕ → ℕ → ℕ
clear_last bitmap count = bit_and bitmap (not64 (shl64 3 ((count - 1) * 2)))

abbrev pub is_wildcard_type : ℕ → Bool
is_wildcard_type t = eqb t segment_type_single_wildcard || eqb t segment_type_multi_wildcard

-- The path that `parent` returns.
unfoldable pub parent_topic : TopicPath → TopicPath
parent_topic tp =
    let parent_segments = init tp.segments in
    let path_text = join "/" (map to_string parent_segments) in
    let bitmap = clear_last tp.segment_type_bitmap tp.segment_count in
    record {
      path = glue ":" tp.network_id path_text;
      network_id = tp.network_id;
      segments = parent_segments;
      is_pattern =
          any_index (λ i. is_wildcard_type (get_segment_type bitmap i)) (length parent_segments) 0;
      has_templates =
          any_index (λ i. eqb (get_segment_type bitmap i) segment_type_template)
            (length parent_segments) 0;
      service_path = tp.service_path;
      cached_action_path = path_text;
      segment_count = tp.segment_count - 1;
      hash_components = [];
      segment_type_bitmap = bitmap;
    }

unfoldable pub parent : TopicPath → Fallible TopicPath
unfolding parent_topic
parent tp = if leb (length tp.segments) 1 then err no_parent else ok (parent_topic tp)
