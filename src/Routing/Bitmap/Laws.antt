-- ===== src/Routing/Bitmap/Laws.antt =====
-- For the 32 segments that a `u64` has room for, the bitmap is a faithful array of segment types.
use rust_mono.Prelude.{ℕ, ◌*◌, ◌%◌, ◌^◌, ◌≤◌, ◌<◌, ◌≡◌, ◌≢◌, sym, arith}
use Prim.Native.Nat.{bit_and}
use native.Mathlib.Nat.{mod-eq_of_lt}
use rust_mono.Routing.Bitmap.{shl64, not64, set_segment_type, get_segment_type}
use rust_mono.Routing.Bitmap.Digits.{
  pow4, pow4-pow, pow4-le, mask_out, mask_out-eq, put, digit, and-mask_out, or-put, and_three,
  digit-div, digit-put_self, digit-put_ne, put-lt-pow4,
}

shift_small : (i : ℕ) → i < 32 → i * 2 % 64 ≡ i * 2
shift_small i h = omega arith

shl64-eq : (x i : ℕ) → x < 4 → i < 32 → shl64 x (i * 2) ≡ x * pow4 i
unfolding shl64
shl64-eq x i hx h =
    let small : pow4 i ≤ pow4 31 = pow4-le i 31 (omega arith) in
    rw (shift_small i h, ← pow4-pow i) (mod-eq_of_lt (grind (arith, small)))

get-eq : (b i : ℕ) → i < 32 → get_segment_type b i ≡ digit b i
unfolding get_segment_type
get-eq b i h = rw (shift_small i h, ← pow4-pow i, and_three) (sym (digit-div i b))

mask-eq : (i : ℕ) → i < 32 → not64 (shl64 3 (i * 2)) ≡ mask_out 32 i
unfolding not64
mask-eq i h = rw (shl64-eq 3 i (omega arith) h) (omega (arith, mask_out-eq 32 i h))

set-eq : (b i t : ℕ) → b < 2 ^ 64 → i < 32 → t < 4 → set_segment_type b i t ≡ put b i t
unfolding set_segment_type
set-eq b i t hb hi ht =
    rw (mask-eq i hi, and-mask_out 32 i b hi hb, shl64-eq t i ht hi) (or-put i b t ht)

-- Writing a type stays within 64 bits.
pub set-lt : (b i t : ℕ) → b < 2 ^ 64 → i < 32 → t < 4 → set_segment_type b i t < 2 ^ 64
set-lt b i t hb hi ht = rw (set-eq b i t hb hi ht) (put-lt-pow4 32 i b t hi ht hb)

-- On a 64-bit bitmap, reading the type of one of the first 32 segments gives the two-bit type that
-- was last set for it.
pub get-set_self :
    (b i t : ℕ) → b < 2 ^ 64 → i < 32 → t < 4 → get_segment_type (set_segment_type b i t) i ≡ t
get-set_self b i t hb hi ht =
    rw (set-eq b i t hb hi ht, get-eq (put b i t) i hi) (digit-put_self i b t ht)

-- On a 64-bit bitmap, setting the type of one of the first 32 segments leaves the types of the
-- others as they were.
pub get-set_ne :
    (b i j t : ℕ)
    → b < 2 ^ 64
    → i < 32
    → j < 32
    → t < 4
    → i ≢ j
    → get_segment_type (set_segment_type b i t) j ≡ get_segment_type b j
get-set_ne b i j t hb hi hj ht n =
    rw (set-eq b i t hb hi ht, get-eq (put b i t) j hj, get-eq b j hj) (digit-put_ne i j b t ht n)

-- Clearing the bits of one segment.
clear-eq : (b i : ℕ) → b < 2 ^ 64 → i < 32 → bit_and b (not64 (shl64 3 (i * 2))) ≡ put b i 0
clear-eq b i hb hi = rw (mask-eq i hi) (and-mask_out 32 i b hi hb)

pub clear-lt : (b i : ℕ) → b < 2 ^ 64 → i < 32 → bit_and b (not64 (shl64 3 (i * 2))) < 2 ^ 64
clear-lt b i hb hi = rw (clear-eq b i hb hi) (put-lt-pow4 32 i b 0 hi (omega arith) hb)

pub get-clear_ne :
    (b i j : ℕ)
    → b < 2 ^ 64
    → i < 32
    → j < 32
    → i ≢ j
    → get_segment_type (bit_and b (not64 (shl64 3 (i * 2)))) j ≡ get_segment_type b j
get-clear_ne b i j hb hi hj n =
    rw (clear-eq b i hb hi, get-eq (put b i 0) j hj, get-eq b j hj)
      (digit-put_ne i j b 0 (omega arith) n)
