-- ===== src/Prelude/Int.antt =====
-- Signed 64-bit numbers: the order that the sources compare versions by, and addition of one, which
-- wraps around (`AtomicI64::fetch_add`).
use Prim.Native.Nat.{ℕ, zero, suc, ◌+◌, ◌-◌, ◌^◌}
use mathlib.Core.Path.{◌≡◌, refl}
use mathlib.Core.Bool.{Bool, true, false}
use native.Mathlib.Omega.{arith}
use rust_mono.Prelude.Tests.{if◌then◌else◌, ltb, eqb}

-- `negsuc n` is -(n + 1).
pub data ℤ : Type 0 where
  pos : ℕ → ℤ
  negsuc : ℕ → ℤ

abbrev pub ltb_ℤ : ℤ → ℤ → Bool
ltb_ℤ (pos m) (pos n) = ltb m n
ltb_ℤ (pos m) (negsuc n) = false
ltb_ℤ (negsuc m) (pos n) = true
ltb_ℤ (negsuc m) (negsuc n) = ltb n m

abbrev pub next_i64 : ℤ → ℤ
next_i64 (pos n) = if eqb (n + 1) (2 ^ 63) then negsuc (2 ^ 63 - 1) else pos (n + 1)
next_i64 (negsuc zero) = pos 0
next_i64 (negsuc (suc n)) = negsuc n

pub ltb_ℤ_trans : (a b c : ℤ) → ltb_ℤ a b ≡ true → ltb_ℤ b c ≡ true → ltb_ℤ a c ≡ true
ltb_ℤ_trans (pos a) (pos b) (pos c) p q = ground arith
ltb_ℤ_trans (pos a) (pos b) (negsuc c) p q = cc
ltb_ℤ_trans (pos a) (negsuc b) c p q = cc
ltb_ℤ_trans (negsuc a) (pos b) (pos c) p q = refl
ltb_ℤ_trans (negsuc a) (pos b) (negsuc c) p q = cc
ltb_ℤ_trans (negsuc a) (negsuc b) (pos c) p q = refl
ltb_ℤ_trans (negsuc a) (negsuc b) (negsuc c) p q = ground arith

pub ltb_ℤ_irrefl : (a : ℤ) → ltb_ℤ a a ≡ false
ltb_ℤ_irrefl (pos a) = ground arith
ltb_ℤ_irrefl (negsuc a) = ground arith

pub ltb_ℤ_asymm : (a b : ℤ) → ltb_ℤ a b ≡ true → ltb_ℤ b a ≡ false
ltb_ℤ_asymm (pos a) (pos b) p = ground arith
ltb_ℤ_asymm (pos a) (negsuc b) p = cc
ltb_ℤ_asymm (negsuc a) (pos b) p = refl
ltb_ℤ_asymm (negsuc a) (negsuc b) p = ground arith
