-- ===== src/Prelude/Text.antt =====
-- The operations of Rust's `str` that the sources use, over native strings.
pub mod Split
pub mod Braces
pub mod Order
use Prim.Native.Char.{Char, code}
use Prim.Native.String.{String}
use Prim.Native.String as Str
use mathlib.Core.Bool.{Bool, true, false, ◌||◌}
use mathlib.Core.Option.{Option, none, some}
use mathlib.Core.List.{List, [], ◌∷◌}
use text.Mathlib.Text.{find?}
use rust_mono.Prelude.Tests.{eqb}

abbrev pub empty : String → Bool
empty String.[] = true
empty (String.◌∷◌ c s) = false

-- `s.contains(char)`
unfoldable pub has_char : Char → String → Bool
has_char k String.[] = false
has_char k (String.◌∷◌ c s) = eqb (code c) (code k) || has_char k s

-- `s.contains(&str)`
abbrev pub is_some {ℓ} : {A : Type ℓ} → Option A → Bool
is_some none = false
is_some (some a) = true

unfoldable pub contains : String → String → Bool
contains s t = is_some (find? s t)

-- `s.starts_with(char)` and `s.ends_with(char)`
unfoldable pub starts_with_char : Char → String → Bool
starts_with_char k String.[] = false
starts_with_char k (String.◌∷◌ c s) = eqb (code c) (code k)

unfoldable pub ends_with_char : Char → String → Bool
ends_with_char k String.[] = false
ends_with_char k (String.◌∷◌ c String.[]) = eqb (code c) (code k)
ends_with_char k (String.◌∷◌ c (String.◌∷◌ d s)) = ends_with_char k (String.◌∷◌ d s)

-- `&s[1..s.len() - 1]`, where the first and the last character have one byte.
abbrev drop_last : String → String
drop_last String.[] = String.[]
drop_last (String.◌∷◌ c String.[]) = String.[]
drop_last (String.◌∷◌ c (String.◌∷◌ d s)) = String.◌∷◌ c (drop_last (String.◌∷◌ d s))

abbrev drop_first : String → String
drop_first String.[] = String.[]
drop_first (String.◌∷◌ c s) = s

unfoldable pub inner : String → String
inner s = drop_last (drop_first s)

-- `format!("{{{s}}}")`
unfoldable pub braced : String → String
braced s = String.◌∷◌ "{" (Str.◌++◌ s "}")

-- `format!("{a}{k}{b}")` for a separating character `k`
unfoldable pub glue : Char → String → String → String
glue k a b = Str.◌++◌ a (String.◌∷◌ k b)

-- `s.split(char)`: one piece more than there are separators.
abbrev push_front : Char → List String → List String
push_front c [] = String.◌∷◌ c "" ∷ []
push_front c (p ∷ ps) = String.◌∷◌ c p ∷ ps

abbrev split_step : Bool → Char → List String → List String
split_step true c ps = "" ∷ ps
split_step false c ps = push_front c ps

unfoldable pub split : Char → String → List String
split k String.[] = "" ∷ []
split k (String.◌∷◌ c s) = split_step (eqb (code c) (code k)) c (split k s)

-- `parts.join(k)`
unfoldable pub join : Char → List String → String
unfolding glue
join k [] = ""
join k (p ∷ []) = p
join k (p ∷ q ∷ ps) = glue k p (join k (q ∷ ps))
