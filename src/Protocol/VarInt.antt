-- ===== src/Protocol/VarInt.antt =====
-- varint.rs: numbers in groups of seven bits, lowest first, with the top bit set on every byte but
-- the last. The two loops of each kind differ only in their width, which is an argument here.
pub mod Groups
pub mod RoundTrip
pub mod Partial
pub mod Prefix
use mathlib.Core.Logic.{dite}
use mathlib.Core.WellFounded.{Acc}
use cubic.Common.{
  ℕ, zero, suc, ◌+◌, ◌*◌, ◌/◌, ◌%◌, ◌^◌, ◌≤◌, ◌<◌, bit_and, bit_or, String, ◌≡◌, ◌≢◌,
}
use cubic.Common.{List, [], ◌∷◌, length, take, leb, ◌==◌, if◌then◌else◌, Option, none, some, arith}
use cubic.Common.Bits.{zero-bit_and}
use cubic.Common.Int.{ℤ, to_signed, to_unsigned}
use cubic.Common.Order.{lt_wf}
use cubic.Common.Exec.{pure, raise, ◌>>=◌}
use cubic.Protocol.Error.{CodecError, malformed_var_int, malformed_var_long}
use cubic.Protocol.Reader.{Reader, read_byte_with_context}
use cubic.Protocol.Writer.{CodecWriter, Writer, write_u8}
use native.Mathlib.Decide.{ℕ_discrete}

abbrev pub max_var_int_bytes : ℕ
max_var_int_bytes = 5

abbrev pub max_var_long_bytes : ℕ
max_var_long_bytes = 10

-- `result |= (byte & 0x7f) << (index * 7)` in a word of which `modulus` is 2 to its width
unfoldable pub add_group : ℕ → ℕ → ℕ → ℕ → ℕ
add_group modulus result byte index = bit_or result (bit_and byte 0x7f * 2 ^ (index * 7) % modulus)

-- The first argument counts the indices that are left of `0..MAX`.
unfoldable pub read_groups : ℕ → ℕ → String → CodecError → ℕ → ℕ → Reader ℕ
read_groups zero modulus context malformed index result = raise malformed
read_groups (suc left) modulus context malformed index result = do
  byte ← read_byte_with_context context
  let result' = add_group modulus result byte index
  let rest = read_groups left modulus context malformed (index + 1) result'
  if bit_and byte 0x80 == 0 then pure result' else rest

unfoldable pub read_var_int : Reader ℤ
read_var_int = do
  result ← read_groups max_var_int_bytes (2 ^ 32) "VarInt" malformed_var_int 0 0
  pure (to_signed (2 ^ 31) result)

unfoldable pub read_var_long : Reader ℤ
read_var_long = do
  result ← read_groups max_var_long_bytes (2 ^ 64) "VarLong" malformed_var_long 0 0
  pure (to_signed (2 ^ 63) result)

pub shift_shrinks : (mask remaining : ℕ) → bit_and remaining mask ≢ 0 → remaining / 128 < remaining
shift_shrinks mask zero h = absurd (h (zero-bit_and mask))
shift_shrinks mask (suc n) h = omega arith

-- `loop` over `remaining`, where `mask` is `!0x7f` in the word's width
unfoldable pub write_groups : ℕ → (remaining : ℕ) → Acc ◌<◌ remaining → Writer
write_groups mask remaining (Acc.intro _ smaller) w =
    dite (ℕ_discrete (bit_and remaining mask) 0) (λ _. write_u8 (remaining % 256) w)
      (λ more.
        write_groups mask (remaining / 128) (smaller _ (shift_shrinks mask remaining more))
          (write_u8 (bit_or (bit_and remaining 0x7f) 0x80 % 256) w))

unfoldable pub write_var_int : ℤ → Writer
write_var_int value =
    let remaining = to_unsigned (2 ^ 31) value in
    write_groups 0xffff_ff80 remaining (lt_wf.apply remaining)

unfoldable pub write_var_long : ℤ → Writer
write_var_long value =
    let remaining = to_unsigned (2 ^ 63) value in
    write_groups 0xffff_ffff_ffff_ff80 remaining (lt_wf.apply remaining)

pub data PartialVarInt : Type 0 where
  complete : ℤ → ℕ → PartialVarInt
  need_more malformed : PartialVarInt

-- the loop over `input.iter().take(MAX).enumerate()`: the finished word and its bytes
unfoldable pub scan_groups : List ℕ → ℕ → ℕ → Option (ℕ × ℕ)
scan_groups [] index result = none
scan_groups (byte ∷ bytes) index result =
    let result' = add_group (2 ^ 32) result byte index in
    let rest = scan_groups bytes (index + 1) result' in
    if bit_and byte 0x80 == 0 then some (result', index + 1) else rest

after_scan : List ℕ → Option (ℕ × ℕ) → PartialVarInt
after_scan input (some (result, bytes)) = complete (to_signed (2 ^ 31) result) bytes
after_scan input none = if leb max_var_int_bytes (length input) then malformed else need_more

unfoldable pub decode_partial_var_int : List ℕ → PartialVarInt
unfolding scan_groups after_scan
decode_partial_var_int input = after_scan input (scan_groups (take max_var_int_bytes input) 0 0)
