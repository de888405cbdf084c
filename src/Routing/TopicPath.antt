-- ===== src/Routing/TopicPath.antt =====
-- runar-node/src/routing/mod.rs: `TopicPath`, its constructors and its accessors.
use rust_mono.Prelude.{
  ℕ, ◌+◌, ◌-◌, Bool, false, not, ◌&&◌, ◌||◌, String, ◌==◌, List, [], ◌∷◌, ◌++◌, map, length,
  is_empty, retain, ltb, leb, if◌then◌else◌,
}
use text.Mathlib.Text.{starts_with as str_starts_with}
use rust_mono.Prelude.Result.{Result, ok, err, ◌>>=◌}
use rust_mono.Prelude.Text.{empty, has_char, glue, split, join}
use rust_mono.Routing.Segment.{
  PathSegment, literal, template, single_wildcard, multi_wildcard, from_str, to_string, is_wildcard,
  is_template,
}
use rust_mono.Routing.Bitmap.{
  segment_type_literal, segment_type_template, segment_type_single_wildcard,
  segment_type_multi_wildcard, set_segment_type,
}

-- The `Err` strings, with what they quote.
pub data PathError : Type 0 where
  invalid_format empty_network_id no_segments : String → PathError
  multi_wildcard_not_last action_on_action_path no_parent : PathError
  child_with_slash missing_parameter : String → PathError
  segment_count_mismatch : ℕ → ℕ → PathError
  segment_mismatch : String → String → PathError

abbrev pub Fallible : Type 0 → Type 0
Fallible A = Result PathError A

-- What is fed to a hasher, and the hash that it ends with, is the standard library's.
pub data HashWrite : Type 0 where
  write_i32 write_u64 : ℕ → HashWrite
  write_str : String → HashWrite

abbrev pub Hasher : Type 0
Hasher = List HashWrite → ℕ

pub record TopicPath : Type 0 where
  pub path : String
  pub network_id : String
  pub segments : List PathSegment
  pub is_pattern : Bool
  pub has_templates : Bool
  pub service_path : String
  pub cached_action_path : String
  pub segment_count : ℕ
  pub hash_components : List ℕ
  pub segment_type_bitmap : ℕ

unfoldable pub segment_type : PathSegment → ℕ
segment_type (literal _) = segment_type_literal
segment_type (template _) = segment_type_template
segment_type single_wildcard = segment_type_single_wildcard
segment_type multi_wildcard = segment_type_multi_wildcard

unfoldable pub segment_writes : PathSegment → List HashWrite
segment_writes (literal s) = write_i32 0 ∷ write_str s ∷ []
segment_writes (template s) = write_i32 3 ∷ write_str s ∷ []
segment_writes single_wildcard = write_i32 1 ∷ []
segment_writes multi_wildcard = write_i32 2 ∷ []

-- The network and the rest of the text, from `network:rest` or from `rest` and the default.
abbrev pub two_parts : String → List String → Fallible (String × String)
two_parts path (network ∷ rest ∷ []) =
    if empty network then err (empty_network_id path) else ok (network, rest)
two_parts path _ = err (invalid_format path)

unfoldable pub parse_network : String → String → Fallible (String × String)
parse_network path default_network =
    if has_char ":" path then two_parts path (split ":" path) else ok (default_network, path)

-- `split('/').filter(|s| !s.is_empty())`
unfoldable pub path_pieces : String → List String
path_pieces s = retain (λ p. not (empty p)) (split "/" s)

-- The variables of the loop in `TopicPath::new`.
pub record Scan : Type 0 where
  pub segments : List PathSegment
  pub is_pattern : Bool
  pub has_templates : Bool
  pub hash_components : List ℕ
  pub segment_type_bitmap : ℕ

abbrev pub no_scan : Scan
no_scan = record {
  segments = [];
  is_pattern = false;
  has_templates = false;
  hash_components = [];
  segment_type_bitmap = 0;
}

-- `get_segments`
unfoldable pub get_segments : TopicPath → List String
get_segments tp = map to_string tp.segments

abbrev pub service_text : List PathSegment → String
service_text [] = ""
service_text (s ∷ ss) = to_string s

unfoldable pub action_text : List PathSegment → String
action_text segments = if leb (length segments) 1 then "" else join "/" (map to_string segments)

module _ (hasher : Hasher) where
  unfoldable pub scan_add : ℕ → PathSegment → Scan → Scan
  scan_add i segment s = record {
    segments = s.segments ++ segment ∷ [];
    is_pattern = s.is_pattern || is_wildcard segment;
    has_templates = s.has_templates || is_template segment;
    hash_components = s.hash_components ++ hasher (segment_writes segment) ∷ [];
    segment_type_bitmap = set_segment_type s.segment_type_bitmap i (segment_type segment);
  }

  -- One round, for segment `i` of `count`.
  unfoldable pub scan_segment : ℕ → ℕ → PathSegment → Scan → Fallible Scan
  scan_segment count i multi_wildcard s =
      if ltb i (count - 1) then err multi_wildcard_not_last else ok (scan_add i multi_wildcard s)
  scan_segment count i segment s = ok (scan_add i segment s)

  unfoldable pub scan : ℕ → ℕ → List String → Scan → Fallible Scan
  scan count i [] s = ok s
  scan count i (text ∷ rest) s = scan_segment count i (from_str text) s >>= scan count (i + 1) rest

  abbrev pub built : String → String → Scan → TopicPath
  built network rest s = record {
    path = glue ":" network rest;
    network_id = network;
    segments = s.segments;
    is_pattern = s.is_pattern;
    has_templates = s.has_templates;
    service_path = service_text s.segments;
    cached_action_path = action_text s.segments;
    segment_count = length s.segments;
    hash_components = s.hash_components;
    segment_type_bitmap = s.segment_type_bitmap;
  }

  -- The part of `new` after the network is split off.
  unfoldable pub from_parts : String → String × String → Fallible TopicPath
  from_parts path (network, rest) =
      let pieces = path_pieces rest in
      if is_empty pieces
      then err (no_segments path)
      else do s ← scan (length pieces) 0 pieces no_scan; ok (built network rest s)

  unfoldable pub new : String → String → Fallible TopicPath
  new path default_network = do parts ← parse_network path default_network; from_parts path parts

  unfoldable pub new_action_topic : TopicPath → String → Fallible TopicPath
  new_action_topic tp action_name =
      if ltb 1 (length tp.segments)
      then err action_on_action_path
      else new (glue ":" tp.network_id (glue "/" tp.service_path action_name)) tp.network_id

  unfoldable pub new_event_topic : TopicPath → String → Fallible TopicPath
  new_event_topic tp event_name = do path ← new_action_topic tp event_name; ok path

unfoldable pub new_service : String → String → TopicPath
new_service network_id service_name = record {
  path = glue ":" network_id service_name;
  network_id = network_id;
  segments = literal service_name ∷ [];
  is_pattern = false;
  has_templates = false;
  service_path = service_name;
  cached_action_path = "";
  segment_count = 1;
  hash_components = [];
  segment_type_bitmap = 0;
}

unfoldable pub starts_with : TopicPath → TopicPath → Bool
starts_with tp other =
    tp.network_id == other.network_id && str_starts_with tp.service_path other.service_path
