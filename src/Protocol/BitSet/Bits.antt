-- ===== src/Protocol/BitSet/Bits.antt =====
-- The highest set bit bounds every set bit, so that the bit limit of a set is kept.
use native.Mathlib.Nat.{pow-suc, one-le-pow}
use cubic.Common.{
  ℕ, zero, suc, ◌+◌, ◌-◌, ◌*◌, ◌/◌, ◌%◌, ◌^◌, ◌≤◌, ◌<◌, bit_and, ◌≡◌, arith, true, some,
  Option-cases, inl, inr,
}
use cubic.Common.{List, [], ◌∷◌, length, get_elem?, All}
use cubic.Common.Bits.{and_high_mask, and_low_mask}
use cubic.Common.Result.{ok}
use cubic.Protocol.BitSet.{
  BitSet, BitSetLimits, bit_length, word_bit, later_or, highest_from, highest_set_bit,
  validate_words, has_bit, is_set,
}

and_one_bit : (word i : ℕ) → bit_and word (2 ^ i) ≡ word / 2 ^ i % 2 * 2 ^ i
and_one_bit word i =
    let one : 1 * 2 ^ i ≡ 2 ^ i = omega arith in
    ground (arith, one, and_high_mask i word 1, and_low_mask 1 (word / 2 ^ i))

has_bit-le : (word i : ℕ) → has_bit word i ≡ true → 2 ^ i ≤ word
unfolding has_bit
has_bit-le word i h = grind (arith, and_one_bit word i, one-le-pow i 2)

bit_length-le : (digits word : ℕ) → bit_length digits word ≤ digits
unfolding bit_length
bit_length-le zero word = omega arith
bit_length-le (suc digits) word = ground (arith, bit_length-le digits (word / 2))

lt-bit_length : (digits word i : ℕ) → word < 2 ^ digits → 2 ^ i ≤ word → i < bit_length digits word
unfolding bit_length
lt-bit_length zero word i h k = absurd (omega (arith, one-le-pow i 2))
lt-bit_length (suc digits) word zero h k = ground arith
lt-bit_length (suc digits) word (suc i) h k =
    ground (arith, pow-suc 2 i, pow-suc 2 digits, lt-bit_length digits (word / 2) i, one-le-pow i 2)

-- A set bit of a word is found by the search in that word, or a higher one is.
word_bit_above :
    (index word i : ℕ)
    → word < 2 ^ 64
    → index < 2 ^ 57
    → has_bit word i ≡ true
    → (bit : ℕ) × (word_bit index word ≡ some bit) × (index * 64 + i ≤ bit)
unfolding word_bit
word_bit_above index word i h k b =
    let at_least = has_bit-le word i b in
    let digits = lt-bit_length 64 word i h at_least in
    (
      index * 64 + (63 - (64 - bit_length 64 word)),
      ground (arith, bit_length-le 64 word, one-le-pow i 2, at_least),
      omega (arith, digits, bit_length-le 64 word),
    )

highest_from-ge :
    (index : ℕ) (words : List ℕ) (bit : ℕ) → highest_from index words ≡ some bit → index * 64 ≤ bit
unfolding highest_from word_bit later_or
highest_from-ge index [] bit h = cc
highest_from-ge index (word ∷ words) bit h = ground (arith, highest_from-ge (index + 1) words bit)

-- The search from the last word on finds a bit no lower than any that is set.
highest_from_above :
    (words : List ℕ) (index j i word : ℕ)
    → All (λ w. w < 2 ^ 64) words
    → index + length words < 2 ^ 57
    → i < 64
    → get_elem? words j ≡ some word
    → has_bit word i ≡ true
    → (bit : ℕ) × (highest_from index words ≡ some bit) × ((index + j) * 64 + i ≤ bit)
unfolding highest_from later_or
highest_from_above [] index j i word a n hi h b = cc
highest_from_above (w ∷ words) index zero i word a n hi h b =
    let (bit, e, le) = word_bit_above index w i a.0 (omega arith) (ground (arith, h, b)) in
    elim (Option-cases (highest_from (index + 1) words)) [
      | inl nothing ↦ (bit, rw nothing e, omega (arith, le))
      | inr (later, f) ↦ (later, rw f, omega (arith, highest_from-ge (index + 1) words later f))
    ]
highest_from_above (w ∷ words) index (suc j) i word a n hi h b =
    let (bit, e, le) = highest_from_above words (index + 1) j i word a.1 (omega arith) hi h b in
    (bit, rw e, omega (arith, le))

-- Where the words of a set of fewer than 2 ^ 57 u64 words pass the check, no bit at or above the
-- limit is set in them.
pub is_set-lt_max_bits :
    (set : BitSet) (limits : BitSetLimits) (bit : ℕ)
    → All (λ w. w < 2 ^ 64) set.words
    → length set.words < 2 ^ 57
    → validate_words set.words limits ≡ ok tt
    → is_set set bit ≡ true
    → bit < limits.max_bits
unfolding is_set validate_words highest_set_bit
is_set-lt_max_bits set limits bit a n v s = elim (Option-cases (get_elem? set.words (bit / 64))) [
  | inl nothing ↦ ground (arith, nothing)
  | inr (word, e) ↦
      let (top, f, le) =
        highest_from_above set.words 0 (bit / 64) (bit % 64) word a (omega arith) (omega arith) e
          (rw e at s) in
      ground (arith, f, le)
]
