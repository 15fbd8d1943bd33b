-- ===== src/Protocol/Nbt/NbtString/Bounds.antt =====
-- `decode` on any input: it stops, and what it returns is within the limits.
use cubic.Common.{
  String, get_range, length-get_range, ℕ, zero, suc, ◌+◌, ◌*◌, ◌≤◌, ◌≡◌, refl, arith, Bool, some,
  ltb, leb, Option-cases, Bool-cases, inl, inr,
}
use cubic.Common.{List, [], ◌∷◌, length, drop, length-drop}
use cubic.Common.Result.{Result, ok, err, Result-cases}
use cubic.Protocol.Reader.{CodecReader, usize_mod, read_u16, read_bytes}
use cubic.Protocol.Nbt.Error.{NbtError}
use cubic.Protocol.Nbt.Limits.{NbtLimits, max_string_encoded_bytes}
use cubic.Protocol.Nbt.NbtString.{
  NbtString, continuation, two_bytes, three_bytes, decode_unit, decode_units, decode,
  validate_encoded_length, charge_budget, units_of,
}

two_width :
    (ahead : List ℕ) (offset first : ℕ) (found : ℕ × ℕ)
    → two_bytes ahead offset first ≡ ok found
    → 1 ≤ found.1
unfolding two_bytes
two_width ahead offset first found e = elim (Result-cases (continuation ahead offset 1)) [
  | inl (second, p) ↦ ground (arith, e, p)
  | inr (x, p) ↦ ground (arith, e, p)
]

three_width :
    (ahead : List ℕ) (offset first : ℕ) (found : ℕ × ℕ)
    → three_bytes ahead offset first ≡ ok found
    → 1 ≤ found.1
unfolding three_bytes
three_width ahead offset first found e = elim (Result-cases (continuation ahead offset 1)) [
  | inl (second, p) ↦ elim (Result-cases (continuation ahead offset 2)) [
    | inl (third, q) ↦ ground (arith, e, p, q)
    | inr (x, q) ↦ ground (arith, e, p, q)
  ]
  | inr (x, p) ↦ ground (arith, e, p)
]

decode_unit_width :
    (ahead : List ℕ) (offset first : ℕ) (found : ℕ × ℕ)
    → decode_unit ahead offset (some first) ≡ ok found
    → 1 ≤ found.1
unfolding decode_unit
decode_unit_width ahead offset first found e =
    ground (arith, e, two_width ahead offset first found, three_width ahead offset first found)

-- The loop of `decode` runs at most once for each byte: with as many rounds as there are bytes, a
-- further round changes nothing.
pub decode_units_stops :
    (fuel : ℕ) (ahead : List ℕ) (offset : ℕ)
    → length ahead ≤ fuel
    → decode_units (suc fuel) ahead offset ≡ decode_units fuel ahead offset
unfolding decode_units
decode_units_stops zero [] offset h = refl
decode_units_stops zero (first ∷ ahead) offset h = absurd (omega arith)
decode_units_stops (suc fuel) [] offset h = refl
decode_units_stops (suc fuel) (first ∷ ahead) offset h =
    elim (Result-cases (decode_unit (first ∷ ahead) offset (some first))) [
      | inl (found, e) ↦
          rw
            (
              e,
              decode_units_stops fuel (drop found.1 (first ∷ ahead)) (offset + found.1) (
                  omega (
                    arith,
                    length-drop found.1 (first ∷ ahead),
                    decode_unit_width (first ∷ ahead) offset first found e,
                  )),
            )
            refl
      | inr (x, e) ↦ rw e refl
    ]

decode_units-length :
    (fuel : ℕ) (ahead : List ℕ) (offset : ℕ) (units : List ℕ)
    → decode_units fuel ahead offset ≡ ok units
    → length units ≤ fuel
unfolding decode_units
decode_units-length zero ahead offset units e = ground (arith, e)
decode_units-length (suc fuel) [] offset units e = ground (arith, e)
decode_units-length (suc fuel) (first ∷ ahead) offset units e =
    elim (Result-cases (decode_unit (first ∷ ahead) offset (some first))) [
      | inl (found, p) ↦
          elim (Result-cases
            (decode_units fuel (drop found.1 (first ∷ ahead)) (offset + found.1))) [
              | inl (rest, q) ↦ ground (
                arith,
                e,
                p,
                q,
                decode_units-length fuel (drop found.1 (first ∷ ahead)) (offset + found.1) rest q,
              )
              | inr (x, q) ↦ ground (arith, e, p, q)
            ]
      | inr (x, p) ↦ ground (arith, e, p)
    ]

length-read_bytes :
    (count : ℕ) (context : String) (r : CodecReader) (bytes : List ℕ)
    → (read_bytes count context r).0 ≡ ok bytes
    → length bytes ≡ count
unfolding read_bytes
length-read_bytes count context r bytes e =
    elim (Option-cases (get_range r.input r.position (r.position + count))) [
      | inl p ↦ ground (arith, e, p)
      | inr (found, p) ↦
          ground (arith, e, p, length-get_range r.input r.position (r.position + count) found p)
    ]

-- what a finished `decode` has charged, and how long its string is
abbrev pub Within : NbtLimits → ℕ → Result NbtString NbtError × (CodecReader × ℕ) → Type 0
Within limits budget (ok s, (r, charged)) =
    (length s.utf16_units ≤ max_string_encoded_bytes limits)
    × (budget ≤ charged)
    × (charged ≤ limits.max_total_allocated_bytes)
Within limits budget (err e, state) = Unit {0}

abbrev text : String
text = "NBT Modified UTF-8 bytes"

-- the rest of `decode` behind the header and the bytes
behind_bytes :
    (granted : Bool) (limits : NbtLimits) (n budget : ℕ) (bytes : List ℕ) (r : CodecReader)
    → length bytes ≡ n
    → n ≤ max_string_encoded_bytes limits
    → Within limits budget (units_of granted limits n bytes (r, budget))
unfolding units_of charge_budget
behind_bytes granted limits n budget bytes r size fits =
    elim (Bool-cases (leb usize_mod (budget + n * 2))) [
      | inl over ↦ rw over tt
      | inr word ↦ elim (Bool-cases (ltb limits.max_total_allocated_bytes (budget + n * 2))) [
        | inl over ↦ rw (word, over) tt
        | inr room ↦ elim (Bool-cases granted) [
          | inl stored ↦ elim (Result-cases (decode_units (length bytes) bytes 0)) [
            | inl (units, e) ↦
                let short = decode_units-length (length bytes) bytes 0 units e in
                let charged : budget + n * 2 ≤ limits.max_total_allocated_bytes = ground arith in
                rw (word, room, stored, e) (omega arith, omega arith, charged)
            | inr (x, e) ↦ rw (word, room, stored, e) tt
          ]
          | inr refused ↦ rw (word, room, refused) tt
        ]
      ]
    ]

-- Whatever the bytes are, a string that `decode` returns has no more units than the limit has
-- bytes, and the budget that is then charged is no less than before and within its limit.
pub decode-Within :
    (granted : Bool) (limits : NbtLimits) (r : CodecReader) (budget : ℕ)
    → Within limits budget (decode granted limits (r, budget))
unfolding decode validate_encoded_length
decode-Within granted limits r budget = elim (Result-cases (read_u16 r).0) [
  | inl (n, e) ↦ elim (Bool-cases (ltb (max_string_encoded_bytes limits) n)) [
    | inl over ↦ rw (e, over) tt
    | inr fits ↦ elim (Result-cases (read_bytes n text (read_u16 r).1).0) [
      | inl (bytes, f) ↦
          rw (e, fits, f)
            (behind_bytes granted limits n budget bytes (read_bytes n text (read_u16 r).1).1
              (length-read_bytes n text (read_u16 r).1 bytes f) (ground arith))
      | inr (x, f) ↦ rw (e, fits, f) tt
    ]
  ]
  | inr (x, e) ↦ rw e tt
]
