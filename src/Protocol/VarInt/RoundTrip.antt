-- ===== src/Protocol/VarInt/RoundTrip.antt =====
-- The readers of varint.rs return what its writers wrote.
use native.Mathlib.Nat.{div-add-mod}
use native.Mathlib.Numerals.{towards_suc}
use cubic.Common.{ℕ, zero, suc, ◌+◌, ◌*◌, ◌/◌, ◌%◌, ◌^◌, ◌≤◌, ◌<◌, bit_and, ◌≡◌, ap, String}
use cubic.Common.{
  List, [], ◌∷◌, ◌++◌, length, ltb, ◌==◌, All, arith, subst, Bool-cases, inl, inr, true, false,
}
use cubic.Common.Int.{ℤ, IsSigned, to_signed, to_unsigned, to_signed-to_unsigned, to_unsigned-lt}
use cubic.Common.Exec.{pure, ◌>>=◌}
use cubic.Protocol.Error.{CodecError, malformed_var_int, malformed_var_long}
use cubic.Protocol.Reader.{read_byte_with_context}
use cubic.Protocol.Reader.Decodes.{
  Decodes, Decodes-pure, Decodes-bind, Decodes-map, read_byte-Decodes,
}
use cubic.Protocol.Writer.{CodecWriter, written, new}
use cubic.Protocol.VarInt.{read_groups, read_var_int, read_var_long, write_var_int, write_var_long}
use cubic.Protocol.VarInt.Groups.{
  groups, write_groups_lem, add_group_lem, and-top_bit, groups_shape,
}

shift_seven : (i : ℕ) → 2 ^ ((i + 1) * 7) ≡ 128 * 2 ^ (i * 7)
shift_seven i =
    let e : (i + 1) * 7 ≡ i * 7 + 7 = omega arith in rw e (simp towards_suc (omega arith))

-- the lowest group of a number and the others, where they stand in the word
split_group :
    (value i : ℕ)
    → value * 2 ^ (i * 7) ≡ value % 128 * 2 ^ (i * 7) + value / 128 * 2 ^ ((i + 1) * 7)
split_group value i = omega (
  arith,
  ap (λ (t : ℕ). t * 2 ^ (i * 7)) (div-add-mod value 128),
  ap (λ (t : ℕ). value / 128 * t) (shift_seven i),
)

-- a group put above the bits that are there fills the next seven
next_bits :
    (result low i : ℕ)
    → result < 2 ^ (i * 7)
    → low < 128
    → result + low * 2 ^ (i * 7) < 2 ^ ((i + 1) * 7)
next_bits result low i h g =
    let most : low * 2 ^ (i * 7) ≤ 127 * 2 ^ (i * 7) = grind arith in omega (arith, shift_seven i)

module _ (width : ℕ) (context : String) (malformed : CodecError) where
  last_group :
      (left value index result : ℕ)
      → value < 128
      → result < 2 ^ (index * 7)
      → result + value * 2 ^ (index * 7) < 2 ^ width
      → Decodes
          (read_groups (suc left) (2 ^ width) context malformed index result)
          (value ∷ [])
          (result + value * 2 ^ (index * 7))
  unfolding read_groups
  last_group left value index result h low fits =
      let small : value % 128 ≡ value = omega arith in
      let ends : (bit_and value 0x80 == 0) ≡ true = ground (arith, and-top_bit value) in
      let total = rw small at (add_group_lem width result value index low (rw small fits)) in
      Decodes-bind (read_byte_with_context context) _ (value ∷ []) [] value _
        (read_byte-Decodes context value) (rw (ends, total) (Decodes-pure _))

  inner_group :
      (left low index result : ℕ) (bytes : List ℕ) (value : ℕ)
      → low < 128
      → result < 2 ^ (index * 7)
      → result + low * 2 ^ (index * 7) < 2 ^ width
      → Decodes
          (read_groups left
            (2 ^ width)
            context
            malformed
            (index + 1)
            (result + low * 2 ^ (index * 7)))
          bytes
          value
      → Decodes
          (read_groups (suc left) (2 ^ width) context malformed index result)
          ((low + 128) ∷ bytes)
          value
  unfolding read_groups
  inner_group left low index result bytes value h below fits d =
      let group : (low + 128) % 128 ≡ low = omega arith in
      let goes_on : (bit_and (low + 128) 0x80 == 0) ≡ false =
        ground (arith, and-top_bit (low + 128)) in
      let total =
        rw group at (add_group_lem width result (low + 128) index below (rw group fits)) in
      Decodes-bind (read_byte_with_context context) _ ((low + 128) ∷ []) bytes (low + 128) value
        (read_byte-Decodes context (low + 128)) (rw (goes_on, total) d)

  read_groups-groups :
      (k value index result : ℕ)
      → value < 128 ^ suc k
      → result < 2 ^ (index * 7)
      → result + value * 2 ^ (index * 7) < 2 ^ width
      → Decodes
          (read_groups (suc k) (2 ^ width) context malformed index result)
          (groups k value)
          (result + value * 2 ^ (index * 7))
  unfolding groups
  read_groups-groups zero value index result h low fits = last_group 0 value index result h low fits
  read_groups-groups (suc k) value index result h low fits = elim (Bool-cases (ltb value 128)) [
    | inl one ↦ rw one (last_group (suc k) value index result (ground arith) low fits)
    | inr more ↦ rw more (
        let low_part = value % 128 * 2 ^ (index * 7) in
        let parts : result + value * 2 ^ (index * 7)
            ≡ result + low_part + value / 128 * 2 ^ ((index + 1) * 7) =
          omega (arith, split_group value index) in
        rw parts (
          inner_group (suc k) (value % 128) index result (groups k (value / 128)) _ (omega arith)
            low (omega (arith, parts))
            (read_groups-groups k (value / 128) (index + 1) (result + low_part) (omega arith)
              (next_bits result (value % 128) index low (omega arith)) (omega (arith, parts)))))
  ]

module _ (width : ℕ) (context : String) (malformed : CodecError) (half : ℕ) where
  signed_groups :
      (k : ℕ) (value : ℤ)
      → IsSigned half value
      → to_unsigned half value < 128 ^ suc k
      → to_unsigned half value < 2 ^ width
      → Decodes
          (read_groups (suc k) (2 ^ width) context malformed 0 0 >>= λ x. pure (to_signed half x))
          (groups k (to_unsigned half value))
          value
  signed_groups k value h fits word =
      let same : to_signed half (0 + to_unsigned half value * 2 ^ (0 * 7)) ≡ value =
        rw
          (let e : 0 + to_unsigned half value * 2 ^ (0 * 7) ≡ to_unsigned half value =
              omega arith in
            e)
          (to_signed-to_unsigned half value h) in
      subst (Decodes _ (groups k (to_unsigned half value))) same (
        Decodes-map _ (to_signed half) _ _ (
          read_groups-groups width context malformed k (to_unsigned half value) 0 0 fits
            (omega arith) (omega arith)))

pub write_var_int-groups :
    (value : ℤ) (out : CodecWriter)
    → IsSigned (2 ^ 31) value
    → write_var_int value out
      ≡ record { output = out.output ++ groups 4 (to_unsigned (2 ^ 31) value) }
unfolding write_var_int
write_var_int-groups value out h =
    let word = to_unsigned-lt (2 ^ 31) value h in
    write_groups_lem 4 25 (to_unsigned (2 ^ 31) value) out (omega (arith, word))
      (omega (arith, word))

pub write_var_long-groups :
    (value : ℤ) (out : CodecWriter)
    → IsSigned (2 ^ 63) value
    → write_var_long value out
      ≡ record { output = out.output ++ groups 9 (to_unsigned (2 ^ 63) value) }
unfolding write_var_long
write_var_long-groups value out h =
    let word = to_unsigned-lt (2 ^ 63) value h in
    write_groups_lem 9 57 (to_unsigned (2 ^ 63) value) out (omega (arith, word))
      (omega (arith, word))

-- `read_var_int` on the bytes of `write_var_int value` returns `value`, for every i32, and leaves
-- the cursor behind them, whatever follows.
pub read_var_int-write_var_int :
    (value : ℤ)
    → IsSigned (2 ^ 31) value
    → Decodes read_var_int (written (write_var_int value)) value
unfolding read_var_int
read_var_int-write_var_int value h =
    let word = to_unsigned-lt (2 ^ 31) value h in
    rw (write_var_int-groups value new h, written)
      (signed_groups 32 "VarInt" malformed_var_int (2 ^ 31) 4 value h (omega (arith, word)) word)

-- `read_var_long` on the bytes of `write_var_long value` returns `value`, for every i64, and leaves
-- the cursor behind them, whatever follows.
pub read_var_long-write_var_long :
    (value : ℤ)
    → IsSigned (2 ^ 63) value
    → Decodes read_var_long (written (write_var_long value)) value
unfolding read_var_long
read_var_long-write_var_long value h =
    let word = to_unsigned-lt (2 ^ 63) value h in
    rw (write_var_long-groups value new h, written)
      (signed_groups 64 "VarLong" malformed_var_long (2 ^ 63) 9 value h (omega (arith, word)) word)

-- `write_var_int` appends 1 to 5 bytes to the output of every writer, for every i32.
pub write_var_int_shape :
    (value : ℤ) (out : CodecWriter)
    → IsSigned (2 ^ 31) value
    → (bytes : List ℕ) × ((write_var_int value out).output ≡ out.output ++ bytes)
      × All (λ byte. byte < 256) bytes
      × (1 ≤ length bytes)
      × (length bytes ≤ 5)
write_var_int_shape value out h =
    let word = to_unsigned-lt (2 ^ 31) value h in
    let (small, lo, hi) = groups_shape 4 (to_unsigned (2 ^ 31) value) (omega (arith, word)) in
    (
      groups 4 (to_unsigned (2 ^ 31) value),
      ap (λ w. w.output) (write_var_int-groups value out h),
      small,
      lo,
      hi,
    )
