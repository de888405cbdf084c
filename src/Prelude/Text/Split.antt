-- ===== src/Prelude/Text/Split.antt =====
-- Splitting at a separator undoes gluing and joining, and its pieces are free of the separator.
use Prim.Native.Char.{Char, code}
use Prim.Native.String.{String}
use mathlib.Core.Path.{◌≡◌, refl}
use mathlib.Core.Logic.{◌≢◌}
use mathlib.Core.Bool.{Bool, true, false}
use mathlib.Core.List.{List, [], ◌∷◌, ◌++◌}
use native.Mathlib.Omega.{arith}
use text.Mathlib.TextLemmas.{nil-append, cons-append}
use rust_mono.Prelude.Tests.{eqb, eqb_refl}
use rust_mono.Prelude.Lists.{All, is_empty}
use rust_mono.Prelude.Text.{has_char, glue, push_front, split_step, split, join}

abbrev pub Free : Char → String → Type 0
Free k s = has_char k s ≡ false

pub split_of_Free : (k : Char) (s : String) → Free k s → split k s ≡ s ∷ []
unfolding split has_char
split_of_Free k String.[] h = refl
split_of_Free k (String.◌∷◌ c s) h = ground (arith, split_of_Free k s)

pub split-glue : (k : Char) (a b : String) → Free k a → split k (glue k a b) ≡ a ∷ split k b
unfolding split has_char glue
split-glue k String.[] b h = rw nil-append (rw eqb_refl refl)
split-glue k (String.◌∷◌ c a) b h = rw cons-append (ground (arith, split-glue k a b))

pub has_char-glue :
    (j k : Char) (a b : String) → Free j a → Free j b → code k ≢ code j → Free j (glue k a b)
unfolding has_char glue
has_char-glue j k String.[] b h g n = rw nil-append (ground arith)
has_char-glue j k (String.◌∷◌ c a) b h g n = rw cons-append (ground (arith, has_char-glue j k a b))

pub has_char-glue_self : (k : Char) (a b : String) → has_char k (glue k a b) ≡ true
unfolding has_char glue
has_char-glue_self k String.[] b = rw nil-append (rw eqb_refl refl)
has_char-glue_self k (String.◌∷◌ c a) b = rw cons-append (ground (arith, has_char-glue_self k a b))

push_front-append :
    (c : Char) (xs ys : List String)
    → is_empty xs ≡ false
    → push_front c (xs ++ ys) ≡ push_front c xs ++ ys
push_front-append c [] ys h = cc
push_front-append c (x ∷ xs) ys h = refl

is_empty-split_step :
    (b : Bool) (c : Char) (ps : List String) → is_empty (split_step b c ps) ≡ false
is_empty-split_step true c ps = refl
is_empty-split_step false c [] = refl
is_empty-split_step false c (p ∷ ps) = refl

is_empty-split : (k : Char) (s : String) → is_empty (split k s) ≡ false
unfolding split
is_empty-split k String.[] = refl
is_empty-split k (String.◌∷◌ c s) = is_empty-split_step (eqb (code c) (code k)) c (split k s)

split_step-append :
    (b : Bool) (c : Char) (xs ys : List String)
    → is_empty xs ≡ false
    → split_step b c (xs ++ ys) ≡ split_step b c xs ++ ys
split_step-append true c xs ys h = refl
split_step-append false c xs ys h = push_front-append c xs ys h

-- The pieces of two texts with a separator between them.
pub split-glue_all : (k : Char) (a b : String) → split k (glue k a b) ≡ split k a ++ split k b
unfolding split glue
split-glue_all k String.[] b = rw nil-append (rw eqb_refl refl)
split-glue_all k (String.◌∷◌ c a) b = rw cons-append (
    rw (split-glue_all k a b)
      (split_step-append (eqb (code c) (code k)) c (split k a) (split k b) (is_empty-split k a)))

pub split-Free : (k : Char) (s : String) → All (Free k) (split k s)
unfolding split has_char
split-Free k String.[] = (refl, tt)
split-Free k (String.◌∷◌ c s) = step (split k s) (split-Free k s) (eqb (code c) (code k)) refl
  where
    step :
        (ps : List String)
        → All (Free k) ps
        → (b : Bool) → eqb (code c) (code k) ≡ b
        → All (Free k) (split_step b c ps)
    step ps h true e = (refl, h)
    step [] h false e = (ground arith, tt)
    step (p ∷ ps) h false e = (ground arith, h.1)

-- A character that the text does not hold is in none of its pieces.
pub split-Free_other : (j k : Char) (s : String) → Free j s → All (Free j) (split k s)
unfolding split has_char
split-Free_other j k String.[] h = (refl, tt)
split-Free_other j k (String.◌∷◌ c s) h =
    step (split k s) (split-Free_other j k s (ground arith)) (eqb (code c) (code k))
  where
    step : (ps : List String) → All (Free j) ps → (b : Bool) → All (Free j) (split_step b c ps)
    step ps g true = (refl, g)
    step [] g false = (ground arith, tt)
    step (p ∷ ps) g false = (ground arith, g.1)

pub split-join :
    (k : Char) (p : String) (ps : List String)
    → All (Free k) (p ∷ ps)
    → split k (join k (p ∷ ps)) ≡ p ∷ ps
unfolding join
split-join k p [] h = split_of_Free k p h.0
split-join k p (q ∷ ps) h =
    rw (split-glue k p (join k (q ∷ ps)) h.0) (rw (split-join k q ps h.1) refl)

pub join-Free :
    (j k : Char) (ps : List String) → All (Free j) ps → code k ≢ code j → Free j (join k ps)
unfolding join
join-Free j k [] h n = unfold has_char in refl
join-Free j k (p ∷ []) h n = h.0
join-Free j k (p ∷ q ∷ ps) h n = has_char-glue j k p _ h.0 (join-Free j k (q ∷ ps) h.1 n) n
