-- ===== src/Routing/Invariant.antt =====
-- What every `TopicPath` satisfies: its cached fields agree with its segments, its bitmap with
-- their types, and its text with both.
pub mod Mapped
pub mod Scanning
use rust_mono.Prelude.{
  ℕ, suc, ◌<◌, ◌≤◌, ◌^◌, ◌≡◌, Bool, true, false, ◌&&◌, not, some, String, List, [], ◌∷◌, map,
  length, get_elem?, any,
}
use rust_mono.Prelude.Text.{glue}
use rust_mono.Prelude.Text.Split.{Free}
use rust_mono.Routing.Segment.{PathSegment, from_str, is_wildcard, is_multi_wildcard, is_template}
use rust_mono.Routing.Bitmap.{get_segment_type}
use rust_mono.Routing.TopicPath.{TopicPath, segment_type, service_text, path_pieces}

-- The bitmap holds the type of each segment.
abbrev pub Describes : ℕ → List PathSegment → Type 0
Describes bitmap segments =
    (i : ℕ) (s : PathSegment)
    → get_elem? segments i ≡ some s
    → get_segment_type bitmap i ≡ segment_type s

pub record IsMapped (bitmap : ℕ) (segments : List PathSegment) : Type 0 where
  pub in_range : bitmap < 2 ^ 64
  pub describes : Describes bitmap segments

pub record IsWellFormed (tp : TopicPath) : Type 0 where
  pub counted : tp.segment_count ≡ length tp.segments
  pub nonempty : 0 < length tp.segments
  pub pattern : tp.is_pattern ≡ any is_wildcard tp.segments
  pub templates : tp.has_templates ≡ any is_template tp.segments
  pub service : tp.service_path ≡ service_text tp.segments
  pub mapped : length tp.segments ≤ 32 → IsMapped tp.segment_type_bitmap tp.segments

-- No `>` stands before the last segment.
abbrev pub multi_last : List PathSegment → Bool
multi_last [] = true
multi_last (s ∷ []) = true
multi_last (s ∷ t ∷ ss) = not (is_multi_wildcard s) && multi_last (t ∷ ss)

-- The text is the network, a colon and a rest whose pieces are the segments.
pub record IsPrinted (tp : TopicPath) : Type 0 where
  pub rest : String
  pub text : tp.path ≡ glue ":" tp.network_id rest
  pub network_free : Free ":" tp.network_id
  pub rest_free : Free ":" rest
  pub pieces : tp.segments ≡ map from_str (path_pieces rest)
