-- ===== src/Prelude/Text/Order.antt =====
-- Rust's order of texts.
use Prim.Native.Char.{code}
use Prim.Native.String.{String}
use text.Mathlib.Text.{◌==◌}
use text.Mathlib.TextEquality.{Char-path, eq_iff}
use mathlib.Core.Path.{◌≡◌, refl, ap₂}
use mathlib.Core.Logic.{◌≢◌, inl, inr}
use mathlib.Core.Bool.{Bool, true, false, not, ◌&&◌, ◌||◌}
use native.Mathlib.Omega.{arith}
use rust_mono.Prelude.Tests.{ltb, eqb, eqb_iff, Bool-cases}

-- `<` on texts: by code points, which is the order of their bytes in UTF-8.
unfoldable pub lt_text : String → String → Bool
lt_text String.[] String.[] = false
lt_text String.[] (String.◌∷◌ d t) = true
lt_text (String.◌∷◌ c s) String.[] = false
lt_text (String.◌∷◌ c s) (String.◌∷◌ d t) =
    ltb (code c) (code d) || (eqb (code c) (code d) && lt_text s t)

pub lt_text-swap : (s t : String) → s ≢ t → lt_text t s ≡ not (lt_text s t)
unfolding lt_text
lt_text-swap String.[] String.[] h = absurd (h refl)
lt_text-swap String.[] (String.◌∷◌ d t) h = refl
lt_text-swap (String.◌∷◌ c s) String.[] h = refl
lt_text-swap (String.◌∷◌ c s) (String.◌∷◌ d t) h = elim (Bool-cases (eqb (code c) (code d))) [
  | inl same ↦
      let codes : code c ≡ code d = (eqb_iff (code c) (code d)).0 same in
      let tails : s ≢ t = λ e. h (ap₂ String.◌∷◌ (Char-path c d codes) e) in
      ground (arith, codes, lt_text-swap s t tails)
  | inr other ↦ ground (arith, other)
]

pub lt_text_trans : (s t u : String) → lt_text s t ≡ true → lt_text t u ≡ true → lt_text s u ≡ true
unfolding lt_text
lt_text_trans String.[] String.[] u h g = cc
lt_text_trans String.[] (String.◌∷◌ d t) String.[] h g = cc
lt_text_trans String.[] (String.◌∷◌ d t) (String.◌∷◌ e u) h g = refl
lt_text_trans (String.◌∷◌ c s) String.[] u h g = cc
lt_text_trans (String.◌∷◌ c s) (String.◌∷◌ d t) String.[] h g = cc
lt_text_trans (String.◌∷◌ c s) (String.◌∷◌ d t) (String.◌∷◌ e u) h g =
    ground (arith, lt_text_trans s t u)

-- What is below a third text and a second that is not, in between.
pub lt_text-between :
    (s t u : String) → lt_text s t ≡ true → lt_text s u ≡ false → lt_text u t ≡ true
lt_text-between s t u h g = elim (Bool-cases (lt_text u t)) [
  | inl below ↦ below
  | inr other ↦ elim (Bool-cases (u == t)) [
    | inl same ↦ absurd (cc ((eq_iff u t).0 same))
    | inr apart ↦
        let above : lt_text t u ≡ true =
          ground (arith, lt_text-swap u t (λ e. absurd (ground (arith, (eq_iff u t).1 e)))) in
        absurd (cc (lt_text_trans s t u h above))
  ]
]
