-- ===== src/Prelude/Bag.antt =====
-- Multisets of list elements, by weights: two lists hold the same elements equally often when every
-- weighing of the elements gives both the same total.
use mathlib.Core.Path.{fun_ext}
use mathlib.Core.Path.{◌≡◌, refl, ap}
use Prim.Native.Nat.{ℕ, ◌+◌}
use mathlib.Core.Bool.{Bool}
use mathlib.Core.List.{List, [], ◌∷◌, ◌++◌, map}
use native.Mathlib.Omega.{arith}
use rust_mono.Prelude.Tests.{if◌then◌else◌}
use rust_mono.Prelude.Lists.{retain, length}

module _ {ℓ} {A : Type ℓ} where
  abbrev pub total : (A → ℕ) → List A → ℕ
  total w [] = 0
  total w (x ∷ xs) = w x + total w xs

  abbrev pub SameItems : List A → List A → Type ℓ
  SameItems xs ys = (w : A → ℕ) → total w xs ≡ total w ys

  pub total-append : (w : A → ℕ) (xs ys : List A) → total w (xs ++ ys) ≡ total w xs + total w ys
  total-append w [] ys = omega arith
  total-append w (x ∷ xs) ys = omega (arith, total-append w xs ys)

  pub total-retain :
      (w : A → ℕ) (p : A → Bool) (xs : List A)
      → total w (retain p xs) ≡ total (λ x. if p x then w x else 0) xs
  total-retain w p [] = refl
  total-retain w p (x ∷ xs) = ground (arith, total-retain w p xs)

  pub total_ext : (v w : A → ℕ) (xs : List A) → ((x : A) → v x ≡ w x) → total v xs ≡ total w xs
  total_ext v w xs h = ap (λ (u : A → ℕ). total u xs) (fun_ext h)

  pub total_zero : (w : A → ℕ) (xs : List A) → ((x : A) → w x ≡ 0) → total w xs ≡ 0
  total_zero w [] h = refl
  total_zero w (x ∷ xs) h = omega (arith, h x, total_zero w xs h)

  pub total_one : (xs : List A) → total (λ _. 1) xs ≡ length xs
  total_one [] = refl
  total_one (x ∷ xs) = omega (arith, total_one xs)

module _ {ℓ κ} {A : Type ℓ} {B : Type κ} where
  pub total-map :
      (w : B → ℕ) (f : A → B) (xs : List A) → total w (map f xs) ≡ total (λ x. w (f x)) xs
  total-map w f [] = refl
  total-map w f (x ∷ xs) = omega (arith, total-map w f xs)
