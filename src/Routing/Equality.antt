-- ===== src/Routing/Equality.antt =====
-- runar-node/src/routing/mod.rs: `PartialEq` and `Hash` for `TopicPath`.
pub mod Laws
use rust_mono.Prelude.{
  ℕ, Bool, true, false, not, ◌&&◌, ◌||◌, String, ◌==◌, List, [], ◌∷◌, ◌++◌, map, is_empty, eqb,
  if◌then◌else◌,
}
use mathlib.Core.List.{flat_map}
use rust_mono.Routing.Segment.{PathSegment, seg_eq}
use rust_mono.Routing.TopicPath.{TopicPath, HashWrite, write_str, write_u64, segment_writes}

-- The loop over `zip`: it ends with the shorter list.
unfoldable pub zip_eq : List PathSegment → List PathSegment → Bool
zip_eq (a ∷ as') (b ∷ bs) = if not (seg_eq a b) then false else zip_eq as' bs
zip_eq _ _ = true

unfoldable pub topic_eq : TopicPath → TopicPath → Bool
topic_eq a b =
    if a.path == b.path
    then true
    else if not (a.network_id == b.network_id)
    then false
    else if not (eqb a.segment_count b.segment_count)
    then false
    else zip_eq a.segments b.segments

-- What `Hash::hash` feeds to the state, in order.
unfoldable pub hash_writes : TopicPath → List HashWrite
hash_writes tp =
    write_str tp.network_id
    ∷ (if not (is_empty tp.hash_components)
        then map write_u64 tp.hash_components
        else flat_map segment_writes tp.segments)
