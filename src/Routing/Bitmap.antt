-- ===== src/Routing/Bitmap.antt =====
-- runar-node/src/routing/mod.rs: the bitmap of segment types in `TopicPath`, two bits a segment.
-- Shifts of a `u64` take their amount modulo 64, as in a release build.
pub mod Digits
pub mod Laws
use Prim.Native.Nat.{bit_and, bit_or}
use rust_mono.Prelude.{ℕ, ◌-◌, ◌*◌, ◌/◌, ◌%◌, ◌^◌}

abbrev pub segment_type_literal : ℕ
segment_type_literal = 0

abbrev pub segment_type_template : ℕ
segment_type_template = 1

abbrev pub segment_type_single_wildcard : ℕ
segment_type_single_wildcard = 2

abbrev pub segment_type_multi_wildcard : ℕ
segment_type_multi_wildcard = 3

unfoldable pub shl64 : ℕ → ℕ → ℕ
shl64 x shift = x * 2 ^ (shift % 64) % 2 ^ 64

unfoldable pub shr64 : ℕ → ℕ → ℕ
shr64 x shift = x / 2 ^ (shift % 64)

unfoldable pub not64 : ℕ → ℕ
not64 x = 2 ^ 64 - 1 - x

unfoldable pub set_segment_type : ℕ → ℕ → ℕ → ℕ
set_segment_type bitmap index segment_type =
    let shift = index * 2 in
    bit_or (bit_and bitmap (not64 (shl64 3 shift))) (shl64 segment_type shift)

unfoldable pub get_segment_type : ℕ → ℕ → ℕ
unfolding shr64
get_segment_type bitmap index = bit_and (shr64 bitmap (index * 2)) 3
