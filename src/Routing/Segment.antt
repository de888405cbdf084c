-- ===== src/Routing/Segment.antt =====
-- runar-node/src/routing/mod.rs: `PathSegment`, its parser and its display form.
use rust_mono.Prelude.{
  ◌≡◌, refl, Bool, true, false, ◌&&◌, String, ◌==◌, eq_iff, arith, if◌then◌else◌, ap, List, [], ◌∷◌,
  map, eq_refl,
}
use rust_mono.Prelude.Text.{starts_with_char, ends_with_char, inner, braced}
use rust_mono.Prelude.Text.Braces.{braced-inner}

pub data PathSegment : Type 0 where
  literal template : String → PathSegment
  single_wildcard multi_wildcard : PathSegment

-- `segment.starts_with('{') && segment.ends_with('}')`
unfoldable pub is_template_param : String → Bool
is_template_param s = starts_with_char "{" s && ends_with_char "}" s

unfoldable pub from_str : String → PathSegment
from_str segment =
    if segment == "*"
    then single_wildcard
    else if segment == ">"
    then multi_wildcard
    else if is_template_param segment
    then template (inner segment)
    else literal segment

-- `Display for PathSegment`
unfoldable pub to_string : PathSegment → String
to_string (literal s) = s
to_string (template name) = braced name
to_string single_wildcard = "*"
to_string multi_wildcard = ">"

unfoldable pub is_wildcard : PathSegment → Bool
is_wildcard single_wildcard = true
is_wildcard multi_wildcard = true
is_wildcard _ = false

unfoldable pub is_multi_wildcard : PathSegment → Bool
is_multi_wildcard multi_wildcard = true
is_multi_wildcard _ = false

unfoldable pub is_template : PathSegment → Bool
is_template (template _) = true
is_template _ = false

-- `#[derive(PartialEq)]`
unfoldable pub seg_eq : PathSegment → PathSegment → Bool
seg_eq (literal s) (literal t) = s == t
seg_eq (template s) (template t) = s == t
seg_eq single_wildcard single_wildcard = true
seg_eq multi_wildcard multi_wildcard = true
seg_eq _ _ = false

pub seg_eq_sound : (a b : PathSegment) → seg_eq a b ≡ true → a ≡ b
unfolding seg_eq
seg_eq_sound (literal s) (literal t) h = ap literal ((eq_iff s t).0 h)
seg_eq_sound (template s) (template t) h = ap template ((eq_iff s t).0 h)
seg_eq_sound single_wildcard single_wildcard h = refl
seg_eq_sound multi_wildcard multi_wildcard h = refl
seg_eq_sound _ _ h = cc

pub seg_eq_refl : (a : PathSegment) → seg_eq a a ≡ true
unfolding seg_eq
seg_eq_refl (literal s) = eq_refl s
seg_eq_refl (template s) = eq_refl s
seg_eq_refl single_wildcard = refl
seg_eq_refl multi_wildcard = refl

-- Printing a parsed segment gives its text back.
pub to_string-from_str : (s : String) → to_string (from_str s) ≡ s
unfolding from_str to_string is_template_param
to_string-from_str s = ground (arith, eq_iff s "*", eq_iff s ">", braced-inner s)

pub map-to_string-from_str : (ss : List String) → map to_string (map from_str ss) ≡ ss
map-to_string-from_str [] = refl
map-to_string-from_str (s ∷ ss) = ground (arith, to_string-from_str s, map-to_string-from_str ss)
