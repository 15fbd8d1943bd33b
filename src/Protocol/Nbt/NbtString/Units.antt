-- ===== src/Protocol/Nbt/NbtString/Units.antt =====
-- The bytes of one unit, as arithmetic, and `decode_unit` on them.
use cubic.Common.{
  ℕ, suc, ◌+◌, ◌*◌, ◌/◌, ◌%◌, ◌^◌, ◌≤◌, ◌<◌, ◌≡◌, refl, ◌∙◌, arith, bit_and, bit_or, true, false,
  ◌&&◌, some, Bool-cases, inl, inr,
}
use cubic.Common.{List, [], ◌∷◌, ◌++◌, length, leb, if◌then◌else◌, append_assoc}
use cubic.Common.Bits.{or_fields, and_low_mask, and_high_mask}
use cubic.Common.Result.{Result, ok, err}
use cubic.Common.Result
use cubic.Protocol.Writer.{CodecWriter, write_u8}
use cubic.Protocol.Nbt.Error.{NbtError}
use cubic.Protocol.Nbt.NbtString.{
  unit_width, decode_units, continuation, continued, two_bytes, three_bytes, decode_unit,
  encode_unit,
}

-- Modified UTF-8: 0 has two bytes, and a surrogate is a unit like any other.
abbrev pub unit_bytes : ℕ → List ℕ
unit_bytes unit =
    if leb 1 unit && leb unit 0x7f
    then unit ∷ []
    else if leb unit 0x07ff
    then (192 + unit / 64) ∷ (128 + unit % 64) ∷ []
    else (224 + unit / 4096) ∷ (128 + unit / 64 % 64) ∷ (128 + unit % 64) ∷ []

pub length-unit_bytes : (unit : ℕ) → length (unit_bytes unit) ≡ unit_width unit
unfolding unit_width
length-unit_bytes unit = ground arith

last_byte : (unit : ℕ) → bit_or 0x80 (bit_and unit 0x3f) % 256 ≡ 128 + unit % 64
last_byte unit = omega (
  arith,
  and_low_mask 6 unit,
  or_fields 6 2 (bit_and unit 0x3f) (omega (arith, and_low_mask 6 unit)),
)

lead_two : (unit : ℕ) → unit ≤ 0x07ff → bit_or 0xc0 (unit / 2 ^ 6) % 256 ≡ 192 + unit / 64
lead_two unit h = omega (arith, or_fields 5 6 (unit / 2 ^ 6) (omega arith))

lead_three : (unit : ℕ) → unit < 2 ^ 16 → bit_or 0xe0 (unit / 2 ^ 12) % 256 ≡ 224 + unit / 4096
lead_three unit h = omega (arith, or_fields 4 14 (unit / 2 ^ 12) (omega arith))

middle_byte : (unit : ℕ) → bit_or 0x80 (bit_and (unit / 2 ^ 6) 0x3f) % 256 ≡ 128 + unit / 64 % 64
middle_byte unit = last_byte (unit / 2 ^ 6)

pub encode_unit-unit_bytes :
    (unit : ℕ) (w : CodecWriter)
    → unit < 2 ^ 16
    → (encode_unit unit w).output ≡ w.output ++ unit_bytes unit
unfolding encode_unit write_u8
encode_unit-unit_bytes unit w h = elim (Bool-cases (leb 1 unit && leb unit 0x7f)) [
  | inl one ↦ let e : unit % 256 ≡ unit = ground arith in rw (one, e) refl
  | inr more ↦ elim (Bool-cases (leb unit 0x07ff)) [
    | inl two ↦
        rw (more, two, last_byte unit, lead_two unit (ground arith)) (append_assoc w.output _ _)
    | inr three ↦
        rw (more, three, last_byte unit, middle_byte unit, lead_three unit h)
          (append_assoc (w.output ++ _) _ _ ∙ append_assoc w.output _ _)
  ]
]

low_five : (high : ℕ) → high < 32 → bit_and (192 + high) 0x1f ≡ high
low_five high h = omega (arith, and_low_mask 5 (192 + high))

low_four : (high : ℕ) → high < 16 → bit_and (224 + high) 0x0f ≡ high
low_four high h = omega (arith, and_low_mask 4 (224 + high))

low_six : (low : ℕ) → low < 64 → bit_and (128 + low) 0x3f ≡ low
low_six low h = omega (arith, and_low_mask 6 (128 + low))

continued_lem : (offset low : ℕ) → low < 64 → continued offset (some (128 + low)) ≡ ok (128 + low)
unfolding continued
continued_lem offset low h =
    let e : (128 + low) / 2 ^ 6 ≡ 2 = omega arith in
    let top : bit_and (128 + low) 0xc0 ≡ 128 = and_high_mask 6 (128 + low) 3 ∙ (rw e refl) in
    rw top refl

-- a round of the loop on the bytes of a unit
abbrev pub after_unit : ℕ → Result (List ℕ) NbtError → Result (List ℕ) NbtError
after_unit unit rest = Result.◌>>=◌ rest (λ units. ok (unit ∷ units))

one_byte :
    (unit fuel offset : ℕ) (rest : List ℕ)
    → unit ≤ 0x7f
    → decode_units (suc fuel) (unit ∷ rest) offset
      ≡ after_unit unit (decode_units fuel rest (offset + 1))
unfolding decode_units decode_unit
one_byte unit fuel offset rest h = let e : leb unit 0x7f ≡ true = ground arith in rw e refl

two_bytes_lem :
    (unit fuel offset : ℕ) (rest : List ℕ)
    → unit ≤ 0x07ff
    → decode_units (suc fuel) ((192 + unit / 64) ∷ (128 + unit % 64) ∷ rest) offset
      ≡ after_unit unit (decode_units fuel rest (offset + 2))
unfolding decode_units decode_unit two_bytes continuation
two_bytes_lem unit fuel offset rest h =
    let high = unit / 64 in
    let low = unit % 64 in
    let e : leb (192 + high) 0x7f ≡ false = ground arith in
    let f : (leb 0xc0 (192 + high) && leb (192 + high) 0xdf) ≡ true = ground arith in
    let whole : high * 2 ^ 6 % 2 ^ 16 ≡ high * 2 ^ 6 = omega arith in
    let joined : bit_or (high * 2 ^ 6) low ≡ unit =
      omega (arith, or_fields 6 high low (omega arith)) in
    rw
      (
        e,
        f,
        continued_lem (offset + 1) low (omega arith),
        low_five high (omega arith),
        low_six low (omega arith),
        whole,
        joined,
      )
      refl

three_bytes_lem :
    (unit fuel offset : ℕ) (rest : List ℕ)
    → unit < 2 ^ 16
    → decode_units
        (suc fuel)
        ((224 + unit / 4096) ∷ (128 + unit / 64 % 64) ∷ (128 + unit % 64) ∷ rest)
        offset
      ≡ after_unit unit (decode_units fuel rest (offset + 3))
unfolding decode_units decode_unit three_bytes continuation
three_bytes_lem unit fuel offset rest h =
    let high = unit / 4096 in
    let middle = unit / 64 % 64 in
    let low = unit % 64 in
    let e : leb (224 + high) 0x7f ≡ false = ground arith in
    let f : (leb 0xc0 (224 + high) && leb (224 + high) 0xdf) ≡ false = ground arith in
    let g : (leb 0xe0 (224 + high) && leb (224 + high) 0xef) ≡ true = ground arith in
    let top : high * 2 ^ 12 % 2 ^ 16 ≡ high * 2 ^ 12 = omega arith in
    let whole : middle * 2 ^ 6 % 2 ^ 16 ≡ middle * 2 ^ 6 = omega arith in
    let upper : bit_or (high * 2 ^ 12) (middle * 2 ^ 6) ≡ (high * 64 + middle) * 2 ^ 6 =
      omega (arith, or_fields 12 high (middle * 2 ^ 6) (omega arith)) in
    let joined : bit_or ((high * 64 + middle) * 2 ^ 6) low ≡ unit =
      omega (arith, or_fields 6 (high * 64 + middle) low (omega arith)) in
    rw
      (
        e,
        f,
        g,
        continued_lem (offset + 1) middle (omega arith),
        continued_lem (offset + 2) low (omega arith),
        low_four high (omega arith),
        low_six middle (omega arith),
        low_six low (omega arith),
        top,
        whole,
        upper,
        joined,
      )
      refl

pub decode_units-unit_bytes :
    (unit fuel offset : ℕ) (rest : List ℕ)
    → unit < 2 ^ 16
    → decode_units (suc fuel) (unit_bytes unit ++ rest) offset
      ≡ after_unit unit (decode_units fuel rest (offset + length (unit_bytes unit)))
decode_units-unit_bytes unit fuel offset rest h = elim (Bool-cases (leb 1 unit && leb unit 0x7f)) [
  | inl one ↦ rw one (one_byte unit fuel offset rest (ground arith))
  | inr more ↦ elim (Bool-cases (leb unit 0x07ff)) [
    | inl two ↦ rw (more, two) (two_bytes_lem unit fuel offset rest (ground arith))
    | inr three ↦ rw (more, three) (three_bytes_lem unit fuel offset rest h)
  ]
]
