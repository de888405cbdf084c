-- ===== src/Prelude/Text/Braces.antt =====
-- A text between braces is its inside between braces.
use Prim.Native.Char.{Char}
use Prim.Native.String.{String}
use Prim.Native.String as Str
use mathlib.Core.Path.{◌≡◌, refl, ap, ap₂, sym}
use mathlib.Core.Bool.{true}
use native.Mathlib.Omega.{arith}
use text.Mathlib.TextLemmas.{nil-append, cons-append}
use text.Mathlib.TextEquality.{Char-path}
use rust_mono.Prelude.Tests.{eqb_iff}
use rust_mono.Prelude.Text.{starts_with_char, ends_with_char, drop_last, inner, braced}

drop_last-append :
    (c : Char) (s : String)
    → ends_with_char "}" (String.◌∷◌ c s) ≡ true
    → Str.◌++◌ (drop_last (String.◌∷◌ c s)) "}" ≡ String.◌∷◌ c s
unfolding ends_with_char
drop_last-append c String.[] h =
    rw nil-append
      (ap (λ (d : Char). String.◌∷◌ d String.[]) (sym (Char-path _ _ ((eqb_iff _ _).0 h))))
drop_last-append c (String.◌∷◌ d s) h = rw cons-append (ap (String.◌∷◌ c) (drop_last-append d s h))

pub braced-inner :
    (s : String)
    → starts_with_char "{" s ≡ true
    → ends_with_char "}" s ≡ true
    → braced (inner s) ≡ s
unfolding starts_with_char ends_with_char inner braced
braced-inner String.[] h g = cc
braced-inner (String.◌∷◌ c String.[]) h g = absurd (ground arith)
braced-inner (String.◌∷◌ c (String.◌∷◌ d s)) h g =
    ap₂ String.◌∷◌ (sym (Char-path _ _ ((eqb_iff _ _).0 h))) (drop_last-append d s g)

starts-braced : (s : String) → starts_with_char "{" (braced s) ≡ true
unfolding starts_with_char braced
starts-braced s = refl

append-ends : (s : String) → ends_with_char "}" (Str.◌++◌ s "}") ≡ true
unfolding ends_with_char
append-ends String.[] = refl
append-ends (String.◌∷◌ c String.[]) = rw cons-append refl
append-ends (String.◌∷◌ c (String.◌∷◌ d s)) =
    rw cons-append (rw cons-append (rw cons-append at (append-ends (String.◌∷◌ d s))))

pub ends-braced : (s : String) → ends_with_char "}" (braced s) ≡ true
unfolding ends_with_char braced
ends-braced String.[] = refl
ends-braced (String.◌∷◌ d s) = rw cons-append (rw cons-append at (append-ends (String.◌∷◌ d s)))
