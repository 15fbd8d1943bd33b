-- ===== src/Protocol/BitSet.antt =====
-- bitset.rs: Java's BitSet, a list of 64-bit words of which the last is not 0. `decode` takes
-- `granted`, which says whether the allocator grants the memory for its words.
pub mod Bits
pub mod Trim
pub mod RoundTrip
use Prim.Native.Nat.{min}
use cubic.Common.{
  ℕ, zero, suc, ◌+◌, ◌-◌, ◌*◌, ◌/◌, ◌%◌, ◌^◌, bit_and, Bool, true, false, not, Option, some, none,
  String,
}
use cubic.Common.{List, [], ◌∷◌, ◌++◌, length, get_elem?, ltb, leb, ◌==◌, if◌then◌else◌}
use cubic.Common.Result.{Result, ok, err}
use cubic.Common.Result
use cubic.Common.Exec.{lift, raise, pure, ◌>>=◌, ◌>>◌}
use cubic.Protocol.Error.{
  CodecError, bit_set, bit_set_too_many_words, bit_set_bit_out_of_range, allocation_failed,
}
use cubic.Protocol.Reader.{Reader, usize_mod, read_u64}
use cubic.Protocol.Writer.{CodecWriter, Writer, write_u64}
use cubic.Protocol.Length.{TryWriter, just, read_length, write_length}

pub record BitSetLimits : Type 0 where
  pub max_words : ℕ
  pub max_bits : ℕ

unfoldable pub maximum_encoded_words : BitSetLimits → ℕ
maximum_encoded_words limits =
    let by_bits = (limits.max_bits + 63) / 64 in
    if ltb by_bits limits.max_words then by_bits else limits.max_words

pub record BitSet : Type 0 where
  pub words : List ℕ

-- the number of binary digits of a u64, `64 - leading_zeros`
unfoldable pub bit_length : ℕ → ℕ → ℕ
bit_length zero word = 0
bit_length (suc digits) word =
    let rest = bit_length digits (word / 2) in if word == 0 then 0 else suc rest

leading_zeros : ℕ → ℕ
leading_zeros word = 64 - bit_length 64 word

-- the highest bit of the word at `index`, with checked arithmetic
unfoldable pub word_bit : ℕ → ℕ → Option ℕ
unfolding leading_zeros
word_bit index word =
    let within = 63 - leading_zeros word in
    if word == 0
    then none
    else if leb usize_mod (index * 64)
    then none
    else if leb usize_mod (index * 64 + within)
    then none
    else some (index * 64 + within)

-- `.or_else` of the words behind and this word: the search goes from the last word to the first
unfoldable pub later_or : Option ℕ → Option ℕ → Option ℕ
later_or (some bit) this = some bit
later_or none this = this

unfoldable pub highest_from : ℕ → List ℕ → Option ℕ
highest_from index [] = none
highest_from index (word ∷ words) = later_or (highest_from (index + 1) words) (word_bit index word)

unfoldable pub highest_set_bit : List ℕ → Option ℕ
unfolding highest_from
highest_set_bit = highest_from 0

check_bit : ℕ → Option ℕ → Result (Unit {0}) CodecError
check_bit max_bits none = ok tt
check_bit max_bits (some bit) =
    if leb max_bits bit then err (bit_set_bit_out_of_range bit max_bits) else ok tt

unfoldable pub validate_words : List ℕ → BitSetLimits → Result (Unit {0}) CodecError
unfolding check_bit
validate_words words limits =
    let max_words = maximum_encoded_words limits in
    if ltb max_words (length words)
    then err (bit_set_too_many_words (length words) max_words)
    else check_bit limits.max_bits (highest_set_bit words)

-- a word in front of the trimmed words behind it
unfoldable pub keep : ℕ → List ℕ → List ℕ
keep word [] = if word == 0 then [] else word ∷ []
keep word (next ∷ rest) = word ∷ next ∷ rest

-- `while words.last() == Some(0) { words.pop(); }`
unfoldable pub trim : List ℕ → List ℕ
unfolding keep
trim [] = []
trim (word ∷ words) = keep word (trim words)

unfoldable pub from_words : List ℕ → BitSetLimits → Result BitSet CodecError
from_words words limits =
    Result.◌>>=◌ (validate_words words limits) (λ _. ok (record { words = trim words }))

-- `word & (1 << (bit % 64)) != 0`
unfoldable pub has_bit : ℕ → ℕ → Bool
has_bit word i = not (bit_and word (2 ^ i) == 0)

or_false : ℕ → Option ℕ → Bool
unfolding has_bit
or_false bit none = false
or_false bit (some word) = has_bit word (bit % 64)

unfoldable pub is_set : BitSet → ℕ → Bool
unfolding or_false
is_set set bit = or_false bit (get_elem? set.words (bit / 64))

unfoldable pub read_words : ℕ → Reader (List ℕ)
read_words zero = pure []
read_words (suc n) = do word ← read_u64; words ← read_words n; pure (word ∷ words)

unfoldable pub decode : Bool → BitSetLimits → Reader BitSet
decode granted limits = do
  word_count ← read_length bit_set
  let max_words = maximum_encoded_words limits
  if ltb max_words word_count
      then raise (bit_set_too_many_words word_count max_words)
      else if not granted
      then raise (allocation_failed "BitSet words" word_count)
      else do words ← read_words word_count; lift (from_words words limits)

unfoldable pub write_words : List ℕ → Writer
write_words [] w = w
write_words (word ∷ words) w = write_words words (write_u64 word w)

unfoldable pub encode : BitSet → BitSetLimits → TryWriter
encode set limits = do
  lift (validate_words set.words limits)
  write_length (length set.words) "BitSet word count"
  just (write_words set.words)
