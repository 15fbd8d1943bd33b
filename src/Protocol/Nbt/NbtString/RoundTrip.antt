-- ===== src/Protocol/Nbt/NbtString/RoundTrip.antt =====
-- `decode` reads back the string that `encode` wrote.
use cubic.Common.{ℕ, zero, suc, ◌+◌, ◌*◌, ◌^◌, ◌≤◌, ◌<◌, ◌≡◌, refl, sym, ap, ◌∙◌, arith, true}
use cubic.Common.{
  List, [], ◌∷◌, ◌++◌, length, length-append, append_assoc, append-nil, All, le→ltb, gt→leb, subst,
}
use cubic.Common.Result.{ok}
use cubic.Protocol.Reader.{CodecReader, usize_mod, read_u16, read_bytes}
use cubic.Protocol.Reader.Decodes.{
  IsValid, unread, advance, advance-IsValid, unread-advance, read_bytes-Decodes,
}
use cubic.Protocol.Reader.Fixed.{read_u16-write_u16}
use cubic.Protocol.Writer.{CodecWriter, written, write_u16, to_be}
use cubic.Protocol.Nbt.Limits.{NbtLimits, max_string_encoded_bytes, u16_max}
use cubic.Protocol.Nbt.NbtString.{
  NbtString, units_of, encoded_len, sum_widths, validate_encoded_length, charge_budget,
  decode_units, decode, encode_units, encode, encode_unit,
}
use cubic.Protocol.Nbt.NbtString.Units.{
  unit_bytes, length-unit_bytes, encode_unit-unit_bytes, decode_units-unit_bytes,
}

abbrev pub AreUnits : List ℕ → Type 0
AreUnits units = All (λ unit. unit < 2 ^ 16) units

-- the Modified UTF-8 of a string
abbrev pub text_bytes : List ℕ → List ℕ
text_bytes [] = []
text_bytes (unit ∷ units) = unit_bytes unit ++ text_bytes units

length-text_bytes : (units : List ℕ) → length (text_bytes units) ≡ sum_widths units
unfolding sum_widths
length-text_bytes [] = refl
length-text_bytes (unit ∷ units) = omega (
  arith,
  length-append (unit_bytes unit) (text_bytes units),
  length-unit_bytes unit,
  length-text_bytes units,
)

encode_units-text_bytes :
    (units : List ℕ) (w : CodecWriter)
    → AreUnits units
    → (encode_units units w).output ≡ w.output ++ text_bytes units
unfolding encode_units
encode_units-text_bytes [] w a = sym (append-nil w.output)
encode_units-text_bytes (unit ∷ units) w a =
    encode_units-text_bytes units (encode_unit unit w) a.1
    ∙ ap (λ o. o ++ text_bytes units) (encode_unit-unit_bytes unit w a.0)
    ∙ append_assoc w.output (unit_bytes unit) (text_bytes units)

positive_width : (u : ℕ) → 1 ≤ length (unit_bytes u)
positive_width u = ground arith

-- Every round passes a byte at least, so as many rounds as there are bytes are enough.
decode_units-text_bytes :
    (units : List ℕ) (fuel offset : ℕ)
    → AreUnits units
    → length (text_bytes units) ≤ fuel
    → decode_units fuel (text_bytes units) offset ≡ ok units
unfolding decode_units
decode_units-text_bytes [] zero offset a h = refl
decode_units-text_bytes [] (suc fuel) offset a h = refl
decode_units-text_bytes (unit ∷ units) zero offset a h =
    absurd (omega (arith, length-append (unit_bytes unit) (text_bytes units), positive_width unit))
decode_units-text_bytes (unit ∷ units) (suc fuel) offset a h =
    let size = length-append (unit_bytes unit) (text_bytes units) in
    let behind = offset + length (unit_bytes unit) in
    rw
      (
        decode_units-unit_bytes unit fuel offset (text_bytes units) a.0,
        decode_units-text_bytes units fuel behind a.1 (omega (arith, size, positive_width unit)),
      )
      refl

-- the bytes of a string: their number, and the text
unfoldable pub wire : NbtString → List ℕ
unfolding to_be encoded_len
wire s = to_be 2 (encoded_len s) ++ text_bytes s.utf16_units

module _ (s : NbtString) (limits : NbtLimits) (a : AreUnits s.utf16_units)
    (fits : encoded_len s ≤ max_string_encoded_bytes limits) where
  fits_u16 : encoded_len s < 2 ^ 16
  unfolding max_string_encoded_bytes
  fits_u16 = ground (arith, fits)

  pub encode-wire :
      (w : CodecWriter) → encode s limits w ≡ (ok tt, record { output = w.output ++ wire s })
  unfolding encode validate_encoded_length write_u16 wire
  encode-wire w =
      let bytes = encode_units-text_bytes s.utf16_units (write_u16 (encoded_len s) w) a in
      rw
        (
          le→ltb (max_string_encoded_bytes limits) (encoded_len s) fits,
          le→ltb u16_max (encoded_len s) (omega (arith, fits_u16)),
        )
        (ap (λ o. (ok tt, record { output = o })) (bytes ∙ append_assoc w.output _ _))

  size : length (text_bytes s.utf16_units) ≡ encoded_len s
  unfolding encoded_len
  size = length-text_bytes s.utf16_units

  length-wire : length (wire s) ≡ 2 + encoded_len s
  unfolding wire to_be
  length-wire = omega (arith, size)

  module _ (r : CodecReader) (rest : List ℕ) (v : IsValid r) (h : unread r ≡ wire s ++ rest) where
    header : List ℕ
    header = written (write_u16 (encoded_len s))

    at_header : unread r ≡ header ++ (text_bytes s.utf16_units ++ rest)
    unfolding wire header write_u16
    at_header = h

    read_header : read_u16 r ≡ (ok (encoded_len s), advance 2 r)
    unfolding header write_u16
    read_header =
        (read_u16-write_u16 (encoded_len s) fits_u16).at r (text_bytes s.utf16_units ++ rest) v
          at_header

    read_text :
        read_bytes (encoded_len s) "NBT Modified UTF-8 bytes" (advance 2 r)
        ≡ (ok (text_bytes s.utf16_units), advance (encoded_len s) (advance 2 r))
    unfolding header write_u16
    read_text =
        subst
          (λ n.
            read_bytes n "NBT Modified UTF-8 bytes" (advance 2 r)
            ≡ (ok (text_bytes s.utf16_units), advance n (advance 2 r)))
          size
          ((read_bytes-Decodes "NBT Modified UTF-8 bytes" (text_bytes s.utf16_units)).at
            (advance 2 r) rest
            (advance-IsValid r header (text_bytes s.utf16_units ++ rest) v at_header)
            (unread-advance r header (text_bytes s.utf16_units ++ rest) v at_header))

    pub decode-wire :
        (budget : ℕ)
        → budget + encoded_len s * 2 ≤ limits.max_total_allocated_bytes
        → limits.max_total_allocated_bytes < usize_mod
        → decode true limits (r, budget)
          ≡ (ok s, (advance (length (wire s)) r, budget + encoded_len s * 2))
    unfolding decode units_of validate_encoded_length charge_budget
    decode-wire budget room small =
        let position : r.position + 2 + encoded_len s ≡ r.position + length (wire s) =
          omega (arith, length-wire) in
        rw
          (
            read_header,
            le→ltb (max_string_encoded_bytes limits) (encoded_len s) fits,
            read_text,
            gt→leb usize_mod (budget + encoded_len s * 2) (omega arith),
            le→ltb limits.max_total_allocated_bytes (budget + encoded_len s * 2) room,
            decode_units-text_bytes s.utf16_units (length (text_bytes s.utf16_units)) 0 a
                (omega arith),
          )
          (ap (λ p. (ok s, (record { input = r.input; position = p }, budget + encoded_len s * 2)))
            position)

  -- A string of u16 units whose Modified UTF-8 is within the limit is written, where the limit on
  -- allocated bytes is a usize. Wherever a valid reader stands before those bytes, and twice their
  -- number fits the budget that is left, decode returns the string, leaves the cursor behind the
  -- bytes and charges that number, where the allocator grants the memory.
  pub nbt_string_round_trips :
      (w : CodecWriter)
      → limits.max_total_allocated_bytes < usize_mod
      → (bytes : List ℕ) × (encode s limits w ≡ (ok tt, record { output = w.output ++ bytes }))
        × ((r : CodecReader) (rest : List ℕ) (budget : ℕ)
            → IsValid r
            → unread r ≡ bytes ++ rest
            → budget + encoded_len s * 2 ≤ limits.max_total_allocated_bytes
            → decode true limits (r, budget)
              ≡ (ok s, (advance (length bytes) r, budget + encoded_len s * 2)))
  nbt_string_round_trips w small =
      (wire s, encode-wire w, λ r rest budget v h room. decode-wire r rest v h budget room small)
