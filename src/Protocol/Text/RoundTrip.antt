-- ===== src/Protocol/Text/RoundTrip.antt =====
-- `read_string` reads back the string that `write_string` wrote.
use cubic.Common.{ℕ, ◌*◌, ◌≤◌, ◌≡◌, refl, ap, arith, le→ltb}
use cubic.Common.{List, ◌++◌, length, append_assoc}
use cubic.Common.Result.{ok}
use cubic.Protocol.Error.{string}
use cubic.Protocol.Reader.{read_bytes}
use cubic.Protocol.Reader.Decodes.{Decodes, Decodes-bind, Decodes-lift, read_bytes-Decodes}
use cubic.Protocol.Writer.{CodecWriter, write_bytes}
use cubic.Protocol.Length.{i32_max, read_length}
use cubic.Protocol.Length.RoundTrip.{prefix, write_length-prefix, read_length-Decodes}
use cubic.Protocol.Text.{
  StringLimits, max_encoded_bytes, utf8, utf16_units, from_utf8, checked_text, read_string,
  write_string,
}
use cubic.Protocol.Text.Utf8.{IsText, length-utf8, from_utf8-utf8}

-- the bytes of a string on the wire
abbrev pub string_bytes : List ℕ → List ℕ
string_bytes value = prefix (length (utf8 value)) ++ utf8 value

module _ (value : List ℕ) (limits : StringLimits)
    (units : utf16_units value ≤ limits.max_utf16_units)
    (fits : length (utf8 value) ≤ max_encoded_bytes limits)
    (short : length (utf8 value) ≤ i32_max) where
  pub write_string-string_bytes :
      (w : CodecWriter)
      → write_string value limits w ≡ (ok tt, record { output = w.output ++ string_bytes value })
  unfolding write_string write_bytes
  write_string-string_bytes w =
      rw
        (
          le→ltb limits.max_utf16_units (utf16_units value) units,
          le→ltb (max_encoded_bytes limits) (length (utf8 value)) fits,
          write_length-prefix (length (utf8 value)) "string length" w short,
        )
        (ap (λ o. (ok tt, record { output = o }))
          (append_assoc w.output (prefix (length (utf8 value))) (utf8 value)))

  accepted : IsText value → checked_text limits (from_utf8 (utf8 value)) ≡ ok value
  unfolding checked_text
  accepted t =
      rw (from_utf8-utf8 value t, le→ltb limits.max_utf16_units (utf16_units value) units) refl

  pub read_string-Decodes : IsText value → Decodes (read_string limits) (string_bytes value) value
  unfolding read_string
  read_string-Decodes t =
      Decodes-bind (read_length string) _ (prefix (length (utf8 value))) (utf8 value)
        (length (utf8 value)) value (read_length-Decodes string (length (utf8 value)) short)
        (rw (le→ltb (max_encoded_bytes limits) (length (utf8 value)) fits) (
          Decodes-lift (read_bytes (length (utf8 value)) "string bytes") _ (utf8 value) (utf8 value)
            value (read_bytes-Decodes "string bytes" (utf8 value)) (accepted t)))

  -- A string of Unicode scalar values, within the limits on its UTF-16 units and on its bytes and
  -- of no more bytes than an i32 counts, is written, and read back from those bytes, the cursor
  -- behind them.
  pub read_string-write_string :
      (w : CodecWriter)
      → IsText value
      → (bytes : List ℕ) × (write_string value limits w
          ≡ (ok tt, record { output = w.output ++ bytes }))
        × Decodes (read_string limits) bytes value
  read_string-write_string w t =
      (string_bytes value, write_string-string_bytes w, read_string-Decodes t)

-- Where the byte limit allows three bytes for each UTF-16 unit, it rejects no string that the limit
-- on units admits.
pub length-max_encoded_bytes :
    (value : List ℕ) (limits : StringLimits)
    → limits.max_utf16_units * 3 ≤ limits.encoded_bytes
    → utf16_units value ≤ limits.max_utf16_units
    → length (utf8 value) ≤ max_encoded_bytes limits
unfolding max_encoded_bytes
length-max_encoded_bytes value limits room units = ground (arith, length-utf8 value, room, units)
