-- ===== src/Protocol/BitSet/RoundTrip.antt =====
-- `decode` reads back the set that `encode` wrote.
use cubic.Common.{ℕ, ◌^◌, ◌≤◌, ◌<◌, ◌≡◌, sym, ap, ◌∙◌, arith, true, le→ltb}
use cubic.Common.{List, [], ◌∷◌, ◌++◌, append-nil, append_assoc, length, All}
use cubic.Common.Result.{ok}
use cubic.Protocol.Error.{bit_set}
use cubic.Protocol.Reader.{read_u64}
use cubic.Protocol.Reader.Decodes.{Decodes, Decodes-bind, Decodes-map, Decodes-pure, Decodes-lift}
use cubic.Protocol.Reader.Fixed.{read_u64-write_u64}
use cubic.Protocol.Writer.{CodecWriter, written, write_u64, to_be}
use cubic.Protocol.Length.{i32_max, read_length}
use cubic.Protocol.Length.RoundTrip.{prefix, write_length-prefix, read_length-Decodes}
use cubic.Protocol.BitSet.{
  BitSet, BitSetLimits, validate_words, from_words, maximum_encoded_words, read_words, write_words,
  decode, encode,
}
use cubic.Protocol.BitSet.Trim.{IsTrimmed, trim_trimmed}

word_bytes : List ℕ → List ℕ
word_bytes [] = []
word_bytes (word ∷ words) = written (write_u64 word) ++ word_bytes words

write_words-word_bytes :
    (words : List ℕ) (w : CodecWriter)
    → write_words words w ≡ record { output = w.output ++ word_bytes words }
unfolding write_words word_bytes write_u64
write_words-word_bytes [] w = ap (λ o. record { output = o }) (sym (append-nil w.output))
write_words-word_bytes (word ∷ words) w =
    write_words-word_bytes words (write_u64 word w)
    ∙ ap (λ o. record { output = o }) (append_assoc w.output (to_be 8 word) (word_bytes words))

read_words-Decodes :
    (words : List ℕ)
    → All (λ w. w < 2 ^ 64) words
    → Decodes (read_words (length words)) (word_bytes words) words
unfolding read_words word_bytes
read_words-Decodes [] a = Decodes-pure []
read_words-Decodes (word ∷ words) a =
    Decodes-bind read_u64 _ (written (write_u64 word)) (word_bytes words) word (word ∷ words)
      (read_u64-write_u64 word a.0)
      (Decodes-map (read_words (length words)) (λ ws. word ∷ ws) (word_bytes words) words
        (read_words-Decodes words a.1))

validate_words-length :
    (words : List ℕ) (limits : BitSetLimits)
    → validate_words words limits ≡ ok tt
    → length words ≤ maximum_encoded_words limits
unfolding validate_words
validate_words-length words limits h = ground arith

-- A set of u64 words, no more than an i32 counts, that ends in no zero word and passes the check of
-- the limits is written, and read back from those bytes, the cursor behind them, where the
-- allocator grants the memory.
pub decode-encode :
    (set : BitSet) (limits : BitSetLimits) (w : CodecWriter)
    → All (λ word. word < 2 ^ 64) set.words
    → length set.words ≤ i32_max
    → IsTrimmed set.words
    → validate_words set.words limits ≡ ok tt
    → (bytes : List ℕ) × (encode set limits w ≡ (ok tt, record { output = w.output ++ bytes }))
      × Decodes (decode true limits) bytes set
unfolding encode decode from_words
decode-encode set limits w a n t v = (
  prefix (length set.words) ++ word_bytes set.words,
  rw (v, write_length-prefix (length set.words) _ w n, write_words-word_bytes set.words)
      (ap (λ o. (ok tt, record { output = o }))
        (append_assoc w.output (prefix (length set.words)) (word_bytes set.words))),
  Decodes-bind (read_length bit_set) _ (prefix (length set.words)) (word_bytes set.words)
      (length set.words) set (read_length-Decodes bit_set (length set.words) n)
      (rw (le→ltb _ _ (validate_words-length set.words limits v)) (
        Decodes-lift (read_words (length set.words)) (λ words. from_words words limits) _ set.words
          set (read_words-Decodes set.words a) (rw (v, trim_trimmed set.words t)))),
)
