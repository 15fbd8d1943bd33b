-- ===== src/Protocol/Position/Packing.antt =====
-- Packing and unpacking of block positions are inverse to one another.
use cubic.Common.{ℕ, ◌+◌, ◌*◌, ◌/◌, ◌%◌, ◌^◌, ◌<◌, bit_and, bit_or, ◌≡◌, ◌↔◌, ap, ◌∙◌, arith}
use cubic.Common.Bits.{and_low_mask, or_fields}
use cubic.Common.Int.{ℤ, pos, negsuc, ◌≤ℤ◌, IsSigned, to_signed, to_unsigned}
use cubic.Common.Result.{ok}
use cubic.Common.{List, ◌++◌, subst}
use cubic.Protocol.Reader.{read_u64}
use cubic.Protocol.Reader.Decodes.{Decodes, Decodes-map}
use cubic.Protocol.Reader.Fixed.{read_u64-write_u64}
use cubic.Protocol.Writer.{CodecWriter, written, write_u64}
use cubic.Protocol.Position.{
  BlockPosition, new, to_packed, from_packed, sign_extend, min_xz, max_xz, min_y, max_y,
  read_block_position, write_block_position,
}

-- the positions that `new` accepts
pub record InRange (p : BlockPosition) : Type 0 where
  pub x_low : min_xz ≤ℤ p.x
  pub x_high : p.x ≤ℤ max_xz
  pub y_low : min_y ≤ℤ p.y
  pub y_high : p.y ≤ℤ max_y
  pub z_low : min_xz ≤ℤ p.z
  pub z_high : p.z ≤ℤ max_xz

-- The three fields of a packed position as arithmetic.
join_fields :
    (x z y : ℕ)
    → bit_or
        (bit_or (bit_and x 0x03ff_ffff * 2 ^ 38 % 2 ^ 64) (bit_and z 0x03ff_ffff * 2 ^ 12 % 2 ^ 64))
        (bit_and y 0x0fff)
      ≡ x % 2 ^ 26 * 2 ^ 38 + z % 2 ^ 26 * 2 ^ 12 + y % 2 ^ 12
join_fields x z y = ground (
  arith,
  and_low_mask 26 x,
  and_low_mask 26 z,
  and_low_mask 12 y,
  or_fields 38 (x % 2 ^ 26) (z % 2 ^ 26 * 2 ^ 12),
  or_fields 12 (x % 2 ^ 26 * 2 ^ 26 + z % 2 ^ 26) (y % 2 ^ 12),
)

to_packed_sum :
    (p : BlockPosition)
    → to_packed p
      ≡ to_unsigned (2 ^ 63) p.x % 2 ^ 26 * 2 ^ 38
        + to_unsigned (2 ^ 63) p.z % 2 ^ 26 * 2 ^ 12
        + to_unsigned (2 ^ 63) p.y % 2 ^ 12
unfolding to_packed
to_packed_sum p =
    join_fields (to_unsigned (2 ^ 63) p.x) (to_unsigned (2 ^ 63) p.z) (to_unsigned (2 ^ 63) p.y)

sign_extend_high : (v : ℕ) → v < 2 ^ 26 → sign_extend v 26 ≡ to_signed (2 ^ 25) v
unfolding sign_extend
sign_extend_high v h = ground arith

sign_extend_low : (v : ℕ) → v < 2 ^ 12 → sign_extend v 12 ≡ to_signed (2 ^ 11) v
unfolding sign_extend
sign_extend_low v h = ground arith

-- What `from_packed` finds in a sum of fields.
from_packed_fields :
    (x z y : ℕ)
    → x < 2 ^ 26
    → z < 2 ^ 26
    → y < 2 ^ 12
    → from_packed (x * 2 ^ 38 + z * 2 ^ 12 + y)
      ≡ record { x = to_signed (2 ^ 25) x; y = to_signed (2 ^ 11) y; z = to_signed (2 ^ 25) z }
unfolding from_packed
from_packed_fields x z y hx hz hy =
    let w = x * 2 ^ 38 + z * 2 ^ 12 + y in
    let top : w / 2 ^ 38 % 2 ^ 32 ≡ x = omega arith in
    let low : bit_and w 0x0fff % 2 ^ 32 ≡ y = omega (arith, and_low_mask 12 w) in
    let middle : bit_and (w / 2 ^ 12) 0x03ff_ffff % 2 ^ 32 ≡ z =
      omega (arith, and_low_mask 26 (w / 2 ^ 12)) in
    cc (top, low, middle, sign_extend_high x hx, sign_extend_low y hy, sign_extend_high z hz)

wide_field :
    (v : ℤ) → IsSigned (2 ^ 25) v → to_signed (2 ^ 25) (to_unsigned (2 ^ 63) v % 2 ^ 26) ≡ v
wide_field (pos n) h = ground arith
wide_field (negsuc n) h = ground arith

narrow_field :
    (v : ℤ) → IsSigned (2 ^ 11) v → to_signed (2 ^ 11) (to_unsigned (2 ^ 63) v % 2 ^ 12) ≡ v
narrow_field (pos n) h = ground arith
narrow_field (negsuc n) h = ground arith

wide_bits : (w : ℕ) → w < 2 ^ 26 → to_unsigned (2 ^ 63) (to_signed (2 ^ 25) w) % 2 ^ 26 ≡ w
wide_bits w h = ground arith

narrow_bits : (w : ℕ) → w < 2 ^ 12 → to_unsigned (2 ^ 63) (to_signed (2 ^ 11) w) % 2 ^ 12 ≡ w
narrow_bits w h = ground arith

wide_IsSigned : (v : ℤ) → min_xz ≤ℤ v → v ≤ℤ max_xz → IsSigned (2 ^ 25) v
wide_IsSigned (pos n) lo hi = omega arith
wide_IsSigned (negsuc n) lo hi = omega arith

narrow_IsSigned : (v : ℤ) → min_y ≤ℤ v → v ≤ℤ max_y → IsSigned (2 ^ 11) v
narrow_IsSigned (pos n) lo hi = omega arith
narrow_IsSigned (negsuc n) lo hi = omega arith

-- `from_packed` undoes `to_packed` on every position in range.
pub from_packed-to_packed : (p : BlockPosition) → InRange p → from_packed (to_packed p) ≡ p
from_packed-to_packed p r =
    ap from_packed (to_packed_sum p)
    ∙ from_packed_fields (to_unsigned (2 ^ 63) p.x % 2 ^ 26) (to_unsigned (2 ^ 63) p.z % 2 ^ 26)
        (to_unsigned (2 ^ 63) p.y % 2 ^ 12) (omega arith) (omega arith) (omega arith)
    ∙ cc (
      wide_field p.x (wide_IsSigned p.x r.x_low r.x_high),
      narrow_field p.y (narrow_IsSigned p.y r.y_low r.y_high),
      wide_field p.z (wide_IsSigned p.z r.z_low r.z_high),
    )

wide_range :
    (w : ℕ) → w < 2 ^ 26 → (min_xz ≤ℤ to_signed (2 ^ 25) w) × (to_signed (2 ^ 25) w ≤ℤ max_xz)
wide_range w h = ground arith

narrow_range :
    (w : ℕ) → w < 2 ^ 12 → (min_y ≤ℤ to_signed (2 ^ 11) w) × (to_signed (2 ^ 11) w ≤ℤ max_y)
narrow_range w h = ground arith

fields_InRange :
    (x z y : ℕ)
    → x < 2 ^ 26
    → z < 2 ^ 26
    → y < 2 ^ 12
    → InRange
        (record { x = to_signed (2 ^ 25) x; y = to_signed (2 ^ 11) y; z = to_signed (2 ^ 25) z })
fields_InRange x z y hx hz hy =
    let (x_low, x_high) = wide_range x hx in
    let (z_low, z_high) = wide_range z hz in
    let (y_low, y_high) = narrow_range y hy in
    record {
      x_low = x_low;
      x_high = x_high;
      y_low = y_low;
      y_high = y_high;
      z_low = z_low;
      z_high = z_high;
    }

-- Every u64 is a packed position: its position is in range, and `to_packed` gives the word back.
pub to_packed-from_packed :
    (word : ℕ) → word < 2 ^ 64 → InRange (from_packed word) × (to_packed (from_packed word) ≡ word)
to_packed-from_packed word h =
    let x = word / 2 ^ 38 in
    let z = word / 2 ^ 12 % 2 ^ 26 in
    let y = word % 2 ^ 12 in
    let split : word ≡ x * 2 ^ 38 + z * 2 ^ 12 + y = omega arith in
    let fields =
      ap from_packed split ∙ from_packed_fields x z y (omega arith) (omega arith) (omega arith) in
    (
      rw fields (fields_InRange x z y (omega arith) (omega arith) (omega arith)),
      rw fields (
          to_packed_sum _
          ∙ omega (
            arith,
            wide_bits x (omega arith),
            wide_bits z (omega arith),
            narrow_bits y (omega arith),
          )),
    )

-- `new` accepts exactly the positions in range.
pub new_iff_InRange : (p : BlockPosition) → (new p.x p.y p.z ≡ ok p) ↔ InRange p
unfolding new
new_iff_InRange p = (λ e. ground arith, λ r. ground arith)

to_packed-lt : (p : BlockPosition) → to_packed p < 2 ^ 64
to_packed-lt p = omega (arith, to_packed_sum p)

-- A position in range is written, and read back from those bytes, the cursor behind them.
pub read_block_position-write_block_position :
    (p : BlockPosition) (w : CodecWriter)
    → InRange p
    → (bytes : List ℕ) × (write_block_position p.x p.y p.z w
        ≡ (ok tt, record { output = w.output ++ bytes }))
      × Decodes read_block_position bytes p
unfolding write_block_position read_block_position
read_block_position-write_block_position p w r = (
  written (write_u64 (to_packed p)),
  cc ((new_iff_InRange p).1 r),
  subst (Decodes _ (written (write_u64 (to_packed p)))) (from_packed-to_packed p r)
      (Decodes-map read_u64 from_packed _ _ (read_u64-write_u64 (to_packed p) (to_packed-lt p))),
)
