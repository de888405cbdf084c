-- ===== src/Routing/Bitmap/Digits.antt =====
-- Bit operations of `u64` read digit by digit, in base four: clearing and writing one digit.
use Prim.Native.Nat.{min, max, bit_and, bit_or, digits, bitwise, bit_and-bitwise, bit_or-bitwise}
use native.Mathlib.Numerals.{unary_clauses}
use native.Mathlib.Nat.{div-div-eq-div-mul, pow-suc}
use rust_mono.Prelude.{
  ℕ, zero, suc, ◌+◌, ◌-◌, ◌*◌, ◌/◌, ◌%◌, ◌≤◌, ◌<◌, ◌^◌, ◌≡◌, ◌≢◌, ◌∙◌, refl, sym, ap, arith,
}

-- `bitwise` hands its first argument on as a bound on the rounds; a larger bound changes nothing.
spare_rounds :
    (rest : ℕ → ℕ) (op : ℕ → ℕ → ℕ) (spare rounds x y : ℕ)
    → x ≤ rounds
    → digits rest op (rounds + spare) x y ≡ digits rest op rounds x y
spare_rounds rest op zero rounds x y bound = ap (λ (r : ℕ). digits rest op r x y) (omega arith)
spare_rounds rest op (suc spare) zero zero y bound = simp unary_clauses refl
spare_rounds rest op (suc spare) zero (suc x) y bound = ground arith
spare_rounds rest op (suc spare) (suc rounds) zero y bound = simp unary_clauses refl
spare_rounds rest op (suc spare) (suc rounds) (suc x) y bound =
    let one_more : suc rounds + suc spare ≡ suc (rounds + suc spare) = omega arith in
    rw one_more (
      ap (λ (high : ℕ). high * 2 + op (suc x % 2) (y % 2))
        (spare_rounds rest op (suc spare) rounds (suc x / 2) (y / 2) (omega arith)))

-- The lowest digit, and the rest.
peel :
    (rest : ℕ → ℕ) (op : ℕ → ℕ → ℕ) (x y : ℕ)
    → bitwise rest op (suc x) y ≡ bitwise rest op (suc x / 2) (y / 2) * 2 + op (suc x % 2) (y % 2)
peel rest op x y =
    let half = suc x / 2 in
    let bound : half + (x - half) ≡ x = omega arith in
    ap (λ (high : ℕ). high * 2 + op (suc x % 2) (y % 2))
      (ap (λ (r : ℕ). digits rest op r half (y / 2)) (sym bound)
        ∙ spare_rounds rest op (x - half) half half (y / 2) (omega arith))

peel_or : (x y : ℕ) → bit_or x y ≡ bit_or (x / 2) (y / 2) * 2 + max (x % 2) (y % 2)
peel_or zero y = rw (bit_or-bitwise 0 y, bit_or-bitwise (0 / 2) (y / 2)) (omega arith)
peel_or (suc x) y =
    rw (bit_or-bitwise (suc x) y, bit_or-bitwise (suc x / 2) (y / 2)) (peel (λ r. r) max x y)

peel_and : (x y : ℕ) → bit_and x y ≡ bit_and (x / 2) (y / 2) * 2 + min (x % 2) (y % 2)
peel_and zero y = rw (bit_and-bitwise 0 y, bit_and-bitwise (0 / 2) (y / 2)) (omega arith)
peel_and (suc x) y =
    rw (bit_and-bitwise (suc x) y, bit_and-bitwise (suc x / 2) (y / 2)) (peel (λ r. 0) min x y)

-- Two binary digits at once.
quarter : (a : ℕ) → a / 2 / 2 ≡ a / 4
quarter a = omega arith

and_quarter :
    (a b : ℕ)
    → bit_and a b
      ≡ bit_and (a / 4) (b / 4) * 4 + (min (a / 2 % 2) (b / 2 % 2) * 2 + min (a % 2) (b % 2))
and_quarter a b = rw (peel_and a b, peel_and (a / 2) (b / 2), quarter a, quarter b) (omega arith)

or_quarter :
    (a b : ℕ)
    → bit_or a b
      ≡ bit_or (a / 4) (b / 4) * 4 + (max (a / 2 % 2) (b / 2 % 2) * 2 + max (a % 2) (b % 2))
or_quarter a b = rw (peel_or a b, peel_or (a / 2) (b / 2), quarter a, quarter b) (omega arith)

and-zero_fuel : (n a : ℕ) → a ≤ n → bit_and a 0 ≡ 0
and-zero_fuel zero zero h = refl
and-zero_fuel zero (suc a) h = absurd (omega arith)
and-zero_fuel (suc n) zero h = refl
and-zero_fuel (suc n) (suc a) h =
    omega (arith, peel_and (suc a) 0, and-zero_fuel n (suc a / 2) (omega arith))

pub and_three : (a : ℕ) → bit_and a 3 ≡ a % 4
and_three a = omega (arith, and_quarter a 3, and-zero_fuel (a / 4) (a / 4) (omega arith))

or-zero_fuel : (n a : ℕ) → a ≤ n → bit_or a 0 ≡ a
or-zero_fuel zero zero h = refl
or-zero_fuel zero (suc a) h = absurd (omega arith)
or-zero_fuel (suc n) zero h = refl
or-zero_fuel (suc n) (suc a) h =
    omega (arith, peel_or (suc a) 0, or-zero_fuel n (suc a / 2) (omega arith))

or-zero : (a : ℕ) → bit_or a 0 ≡ a
or-zero a = or-zero_fuel a a (omega arith)

-- Powers of four, and the mask of `n` digits that leaves out digit `i`.
abbrev pub pow4 : ℕ → ℕ
pow4 zero = 1
pow4 (suc n) = 4 * pow4 n

abbrev pub ones : ℕ → ℕ
ones zero = 0
ones (suc n) = 4 * ones n + 3

abbrev pub mask_out : ℕ → ℕ → ℕ
mask_out zero i = 0
mask_out (suc n) zero = 4 * ones n
mask_out (suc n) (suc i) = 4 * mask_out n i + 3

abbrev pub digit : ℕ → ℕ → ℕ
digit b zero = b % 4
digit b (suc i) = digit (b / 4) i

abbrev pub put : ℕ → ℕ → ℕ → ℕ
put b zero t = b / 4 * 4 + t
put b (suc i) t = put (b / 4) i t * 4 + b % 4

pub and-ones : (n b : ℕ) → b < pow4 n → bit_and b (ones n) ≡ b
and-ones zero zero h = refl
and-ones zero (suc b) h = absurd (omega arith)
and-ones (suc n) b h =
    rw (and_quarter b (ones (suc n)))
      (rw (shift_down n) (omega (arith, and-ones n (b / 4) (omega arith))))
  where
    shift_down : (n : ℕ) → (4 * ones n + 3) / 4 ≡ ones n
    shift_down n = omega arith

pub and-mask_out : (n i b : ℕ) → i < n → b < pow4 n → bit_and b (mask_out n i) ≡ put b i 0
and-mask_out zero i b h g = absurd (omega arith)
and-mask_out (suc n) zero b h g =
    rw (and_quarter b (mask_out (suc n) zero))
      (rw (shift_down n) (omega (arith, and-ones n (b / 4) (omega arith))))
  where
    shift_down : (n : ℕ) → 4 * ones n / 4 ≡ ones n
    shift_down n = omega arith
and-mask_out (suc n) (suc i) b h g =
    rw (and_quarter b (mask_out (suc n) (suc i)))
      (rw (shift_down n i) (omega (arith, and-mask_out n i (b / 4) (omega arith) (omega arith))))
  where
    shift_down : (n i : ℕ) → (4 * mask_out n i + 3) / 4 ≡ mask_out n i
    shift_down n i = omega arith

pub or-put : (i b t : ℕ) → t < 4 → bit_or (put b i 0) (t * pow4 i) ≡ put b i t
or-put zero b t h = rw (or_quarter (put b zero 0) (t * 1)) (
    let low : t * 1 / 4 ≡ 0 = omega arith in
    let high : (b / 4 * 4 + 0) / 4 ≡ b / 4 = omega arith in
    rw (low, high) (omega (arith, or-zero (b / 4))))
or-put (suc i) b t h = rw (or_quarter (put b (suc i) 0) (t * pow4 (suc i))) (
    let low : t * (4 * pow4 i) / 4 ≡ t * pow4 i = omega arith in
    let high : (put (b / 4) i 0 * 4 + b % 4) / 4 ≡ put (b / 4) i 0 = omega arith in
    rw (low, high) (omega (arith, or-put i (b / 4) t h)))

put_shift : (i b t : ℕ) → (put (b / 4) i t * 4 + b % 4) / 4 ≡ put (b / 4) i t
put_shift i b t = omega arith

pub digit-put_self : (i b t : ℕ) → t < 4 → digit (put b i t) i ≡ t
digit-put_self zero b t h = omega arith
digit-put_self (suc i) b t h = rw (put_shift i b t) (digit-put_self i (b / 4) t h)

pub digit-put_ne : (i j b t : ℕ) → t < 4 → i ≢ j → digit (put b i t) j ≡ digit b j
digit-put_ne zero zero b t h n = absurd (n refl)
digit-put_ne zero (suc j) b t h n =
    let high : (b / 4 * 4 + t) / 4 ≡ b / 4 = omega arith in rw high refl
digit-put_ne (suc i) zero b t h n = omega arith
digit-put_ne (suc i) (suc j) b t h n =
    rw (put_shift i b t) (digit-put_ne i j (b / 4) t h (λ e. n (ap suc e)))

pub put-lt-pow4 : (n i b t : ℕ) → i < n → t < 4 → b < pow4 n → put b i t < pow4 n
put-lt-pow4 zero i b t h g k = absurd (omega arith)
put-lt-pow4 (suc n) zero b t h g k = omega arith
put-lt-pow4 (suc n) (suc i) b t h g k =
    omega (arith, put-lt-pow4 n i (b / 4) t (omega arith) g (omega arith))

pub pow4-pos : (n : ℕ) → 0 < pow4 n
pow4-pos zero = omega arith
pow4-pos (suc n) = omega (arith, pow4-pos n)

pub digit-div : (j b : ℕ) → digit b j ≡ b / pow4 j % 4
digit-div zero b = omega arith
digit-div (suc j) b = digit-div j (b / 4) ∙ ap (λ (q : ℕ). q % 4) (div-div-eq-div-mul b 4 (pow4 j))

-- The mask is all ones but three times the power of its digit.
pub mask_out-eq : (n i : ℕ) → i < n → mask_out n i + 3 * pow4 i ≡ ones n
mask_out-eq zero i h = absurd (omega arith)
mask_out-eq (suc n) zero h = omega arith
mask_out-eq (suc n) (suc i) h = omega (arith, mask_out-eq n i (omega arith))

pub pow4-pow : (i : ℕ) → pow4 i ≡ 2 ^ (i * 2)
pow4-pow zero = refl
pow4-pow (suc i) =
    let e : suc i * 2 ≡ suc (suc (i * 2)) = omega arith in
    rw (e, pow-suc 2 (suc (i * 2)), pow-suc 2 (i * 2)) (omega (arith, pow4-pow i))

pub pow4-le : (i n : ℕ) → i ≤ n → pow4 i ≤ pow4 n
pow4-le zero n h = omega (arith, pow4-pos n)
pow4-le (suc i) zero h = absurd (omega arith)
pow4-le (suc i) (suc n) h = omega (arith, pow4-le i n (omega arith))
