-- ===== src/Protocol/PackedTests.antt =====
-- The theorems on block positions and bit sets at concrete inputs, and runs of their functions.
use cubic.Common.{ℕ, ◌-◌, ◌^◌, ◌≡◌, refl, arith, true, List, [], ◌∷◌, ◌++◌}
use cubic.Common.Int.{pos, negsuc}
use cubic.Common.Result.{ok, err}
use cubic.Protocol.Reader.Decodes.{Decodes}
use cubic.Protocol.Writer.{new}
use cubic.Protocol.Error.{invalid_block_position}
use cubic.Protocol.Position.{
  BlockPosition, to_packed, from_packed, read_block_position, write_block_position, min_xz, max_xz,
}
use cubic.Protocol.Position as Position
use cubic.Protocol.Position.Packing.{InRange, to_packed-from_packed}
use cubic.Protocol.BitSet.{
  BitSet, BitSetLimits, is_set, from_words, validate_words, highest_set_bit, bit_length, word_bit,
  later_or, decode, encode, maximum_encoded_words, has_bit,
}
use cubic.Protocol.BitSet.Trim.{IsTrimmed, from_words_lem}
use cubic.Protocol.BitSet.RoundTrip.{decode-encode}

abbrev corner : BlockPosition
corner = record { x = negsuc (2 ^ 25 - 1); y = negsuc 63; z = pos (2 ^ 25 - 1) }

corner-InRange : InRange corner
corner-InRange = record {
  x_low = omega arith;
  x_high = omega arith;
  y_low = omega arith;
  y_high = omega arith;
  z_low = omega arith;
  z_high = omega arith;
}

out_of_range :
    Position.new (pos (2 ^ 25)) (pos 0) (pos 0)
    ≡ err (invalid_block_position "x" (pos (2 ^ 25)) min_xz max_xz)
unfolding Position.new
out_of_range = refl

packed_word_example :
    InRange (from_packed 0xffff_0000_1234_5678)
    × (to_packed (from_packed 0xffff_0000_1234_5678) ≡ 0xffff_0000_1234_5678)
packed_word_example = to_packed-from_packed 0xffff_0000_1234_5678 (omega arith)

abbrev limits : BitSetLimits
limits = record { max_words = 4; max_bits = 100 }

abbrev two_bits : BitSet
two_bits = record { words = 1 ∷ 0x10 ∷ [] }

two_bits-valid : validate_words two_bits.words limits ≡ ok tt
unfolding validate_words highest_set_bit word_bit later_or bit_length maximum_encoded_words
two_bits-valid = refl

padded-valid : validate_words (1 ∷ 0x10 ∷ []) limits ≡ ok tt
padded-valid = two_bits-valid

set_68 : is_set two_bits 68 ≡ true
unfolding is_set has_bit
set_68 = refl

from_words_example :
    (set : BitSet) × (from_words (1 ∷ 0x10 ∷ []) limits ≡ ok set)
    × IsTrimmed set.words
    × (validate_words set.words limits ≡ ok tt)
    × ((bit : ℕ) → is_set set bit ≡ is_set two_bits bit)
from_words_example = from_words_lem (1 ∷ 0x10 ∷ []) limits padded-valid

bit_set_example :
    (bytes : List ℕ) × (encode two_bits limits new ≡ (ok tt, record { output = [] ++ bytes }))
    × Decodes (decode true limits) bytes two_bits
bit_set_example =
    decode-encode two_bits limits new (omega arith) (omega arith) (omega arith) two_bits-valid

abbrev uuid_value : ℕ
uuid_value = 0xdeadbeefcafe0123456789abcdef0000
