-- ===== src/Protocol/BitSet/Trim.antt =====
-- Trimming drops only words that are 0, and changes no bit.
use cubic.Common.{ℕ, zero, suc, ◌+◌, ◌/◌, ◌%◌, ◌^◌, ◌≤◌, ◌≡◌, ◌≢◌, refl, ap, ◌∙◌, arith, false}
use cubic.Common.{List, [], ◌∷◌, length, get_elem?, ◌==◌, All, if_cases}
use cubic.Common.Bits.{zero-bit_and}
use cubic.Common.Result.{ok}
use cubic.Protocol.BitSet.{
  BitSet, BitSetLimits, word_bit, later_or, highest_from, highest_set_bit, validate_words, has_bit,
  or_false, is_set, keep, trim, from_words,
}

-- the invariant of a BitSet: no word that is 0 at the end
abbrev pub IsTrimmed : List ℕ → Type 0
IsTrimmed [] = Unit
IsTrimmed (word ∷ []) = word ≢ 0
IsTrimmed (word ∷ next ∷ rest) = IsTrimmed (next ∷ rest)

keep-IsTrimmed : (word : ℕ) (words : List ℕ) → IsTrimmed words → IsTrimmed (keep word words)
unfolding keep
keep-IsTrimmed word [] h =
    if_cases IsTrimmed (word == 0) [] (word ∷ []) (λ _. tt) (λ e. ground arith)
keep-IsTrimmed word (next ∷ rest) h = h

pub trim-IsTrimmed : (words : List ℕ) → IsTrimmed (trim words)
unfolding trim
trim-IsTrimmed [] = tt
trim-IsTrimmed (word ∷ words) = keep-IsTrimmed word (trim words) (trim-IsTrimmed words)

pub trim_trimmed : (words : List ℕ) → IsTrimmed words → trim words ≡ words
unfolding trim
trim_trimmed [] h = refl
trim_trimmed (word ∷ []) h = ground (arith, h)
trim_trimmed (word ∷ next ∷ rest) h = rw (trim_trimmed (next ∷ rest) h)

keep-All :
    (P : ℕ → Type 0) (word : ℕ) (words : List ℕ) → P word → All P words → All P (keep word words)
unfolding keep
keep-All P word [] p h = if_cases (All P) (word == 0) [] (word ∷ []) (λ _. tt) (λ _. (p, tt))
keep-All P word (next ∷ rest) p h = (p, h)

pub trim-All : (P : ℕ → Type 0) (words : List ℕ) → All P words → All P (trim words)
unfolding trim
trim-All P [] h = tt
trim-All P (word ∷ words) h = keep-All P word (trim words) h.0 (trim-All P words h.1)

length-keep : (word : ℕ) (words : List ℕ) → length (keep word words) ≤ suc (length words)
unfolding keep
length-keep word [] = ground arith
length-keep word (next ∷ rest) = omega arith

pub length-trim : (words : List ℕ) → length (trim words) ≤ length words
unfolding trim
length-trim [] = omega arith
length-trim (word ∷ words) = omega (arith, length-keep word (trim words), length-trim words)

highest_from-keep :
    (index word : ℕ) (words : List ℕ)
    → highest_from index (keep word words)
      ≡ later_or (highest_from (index + 1) words) (word_bit index word)
unfolding keep highest_from later_or word_bit
highest_from-keep index word [] = ground arith
highest_from-keep index word (next ∷ rest) = refl

pub highest_from-trim :
    (index : ℕ) (words : List ℕ) → highest_from index (trim words) ≡ highest_from index words
unfolding trim highest_from
highest_from-trim index [] = refl
highest_from-trim index (word ∷ words) =
    highest_from-keep index word (trim words)
    ∙ ap (λ h. later_or h (word_bit index word)) (highest_from-trim (index + 1) words)

pub validate_words-trim :
    (words : List ℕ) (limits : BitSetLimits)
    → validate_words words limits ≡ ok tt
    → validate_words (trim words) limits ≡ ok tt
unfolding validate_words highest_set_bit
validate_words-trim words limits h = ground (arith, length-trim words, highest_from-trim 0 words)

zero-has_bit : (i : ℕ) → has_bit 0 i ≡ false
unfolding has_bit
zero-has_bit i = ground (arith, zero-bit_and (2 ^ i))

or_false-keep :
    (bit word : ℕ) (words : List ℕ) (j : ℕ)
    → or_false bit (get_elem? (keep word words) j) ≡ or_false bit (get_elem? (word ∷ words) j)
unfolding keep or_false
or_false-keep bit word [] zero = ground (arith, zero-has_bit (bit % 64))
or_false-keep bit word [] (suc j) = ground arith
or_false-keep bit word (next ∷ rest) j = refl

or_false-trim :
    (bit : ℕ) (words : List ℕ) (j : ℕ)
    → or_false bit (get_elem? (trim words) j) ≡ or_false bit (get_elem? words j)
unfolding trim
or_false-trim bit [] j = refl
or_false-trim bit (word ∷ words) zero = or_false-keep bit word (trim words) zero
or_false-trim bit (word ∷ words) (suc j) =
    or_false-keep bit word (trim words) (suc j) ∙ or_false-trim bit words j

-- A set made of words that pass the check ends in no zero word, passes the check itself, and has
-- exactly the bits of the words.
pub from_words_lem :
    (words : List ℕ) (limits : BitSetLimits)
    → validate_words words limits ≡ ok tt
    → (set : BitSet) × (from_words words limits ≡ ok set)
      × IsTrimmed set.words
      × (validate_words set.words limits ≡ ok tt)
      × ((bit : ℕ) → is_set set bit ≡ is_set (record { words = words }) bit)
unfolding from_words is_set
from_words_lem words limits h = (
  record { words = trim words },
  rw h,
  trim-IsTrimmed words,
  validate_words-trim words limits h,
  λ bit. or_false-trim bit words (bit / 64),
)
