-- ===== src/Protocol/VarInt/Prefix.antt =====
-- `decode_partial_var_int` on an input that starts with a written number.
use native.Mathlib.Decide.{dec_lt}
use cubic.Common.{ℕ, ◌+◌, ◌-◌, ◌^◌, ◌≤◌, ◌<◌, ◌≡◌, refl, sym, ◌∙◌, arith}
use cubic.Common.{
  List, [], ◌∷◌, ◌++◌, length, take, length-take, take_all, take-append_ge, take-append_le,
  length-append, ◌≢◌, Option-cases, inl, inr, some,
}
use cubic.Common.Int.{ℤ, IsSigned, to_unsigned, to_unsigned-lt}
use cubic.Common.Result.{ok}
use cubic.Protocol.Reader.{CodecReader, new}
use cubic.Protocol.Reader.Decodes.{IsValid, advance}
use cubic.Protocol.Writer
use cubic.Protocol.VarInt.{
  PartialVarInt, complete, need_more, malformed, decode_partial_var_int, scan_groups, add_group,
}
use cubic.Protocol.VarInt.Groups.{groups, groups_shape}
use cubic.Protocol.VarInt.RoundTrip.{write_var_int-groups, read_var_int-write_var_int}
use cubic.Protocol.VarInt.Partial.{announced, read_var_int-decode_partial_var_int}

announced-complete :
    (p : PartialVarInt) (r : CodecReader) (value : ℤ) (bytes : ℕ)
    → announced p r ≡ (ok value, advance bytes r)
    → p ≡ complete value bytes
announced-complete (complete v n) r value bytes e = ground arith
announced-complete need_more r value bytes e = ground arith
announced-complete malformed r value bytes e = ground arith

-- A complete number is found within five bytes, so the bytes behind those do not matter.
same_start :
    (l t : List ℕ) (value : ℤ) (bytes : ℕ)
    → take 5 l ≡ take 5 t
    → decode_partial_var_int t ≡ complete value bytes
    → decode_partial_var_int l ≡ complete value bytes
unfolding decode_partial_var_int
same_start l t value bytes e h = ground arith

pub decode_partial_var_int-groups :
    (value : ℤ) (rest : List ℕ)
    → IsSigned (2 ^ 31) value
    → decode_partial_var_int (groups 4 (to_unsigned (2 ^ 31) value) ++ rest)
      ≡ complete value (length (groups 4 (to_unsigned (2 ^ 31) value)))
decode_partial_var_int-groups value rest h =
    let word = to_unsigned-lt (2 ^ 31) value h in
    let bytes : List ℕ = groups 4 (to_unsigned (2 ^ 31) value) in
    let (_, _, short) = groups_shape 4 (to_unsigned (2 ^ 31) value) (omega (arith, word)) in
    let start : List ℕ = bytes ++ take (5 - length bytes) rest in
    let cut : take 5 (bytes ++ rest) ≡ start = take-append_ge 5 bytes rest (omega (arith, short)) in
    let size : length start ≤ 5 = rw (← cut) (omega (arith, length-take 5 (bytes ++ rest))) in
    let valid : IsValid (new start) = record {
      within = omega arith;
      addressable = omega (arith, size);
    } in
    let decodes =
      rw (write_var_int-groups value Writer.new h, Writer.written) at
        (read_var_int-write_var_int value h) in
    same_start (bytes ++ rest) start value (length bytes) (cut ∙ sym (take_all 5 start size)) (
      announced-complete _ (new start) value (length bytes) (
        sym (read_var_int-decode_partial_var_int (new start) valid)
        ∙ decodes.at (new start) (take (5 - length bytes) rest) valid refl))

scan_groups-append :
    (l more : List ℕ) (index result : ℕ) (found : ℕ × ℕ)
    → scan_groups l index result ≡ some found
    → scan_groups (l ++ more) index result ≡ some found
unfolding scan_groups
scan_groups-append [] more index result found h = cc
scan_groups-append (byte ∷ l) more index result found h =
    ground
      (arith, scan_groups-append l more (index + 1) (add_group (2 ^ 32) result byte index) found)

-- A short input that does not ask for more holds a whole number.
found_in_short :
    (l : List ℕ)
    → length l < 5
    → decode_partial_var_int l ≢ need_more
    → (found : ℕ × ℕ) × (scan_groups l 0 0 ≡ some found)
unfolding decode_partial_var_int
found_in_short l short h =
    let whole : take 5 l ≡ l = take_all 5 l (omega arith) in
    elim (Option-cases (scan_groups l 0 0)) [
      | inl missing ↦ absurd (h (rw (whole, missing) (ground arith)))
      | inr (found, e) ↦ (found, e)
    ]

append_short :
    (l more : List ℕ)
    → length l < 5
    → decode_partial_var_int l ≢ need_more
    → decode_partial_var_int (l ++ more) ≡ decode_partial_var_int l
unfolding decode_partial_var_int
append_short l more short h =
    let (found, e) = found_in_short l short h in
    let whole : take 5 l ≡ l = take_all 5 l (omega arith) in
    let longer : take 5 (l ++ more) ≡ l ++ take (5 - length l) more =
      take-append_ge 5 l more (omega arith) in
    ground (arith, whole, longer, e, scan_groups-append l (take (5 - length l) more) 0 0 found)

append_long :
    (l more : List ℕ) → 5 ≤ length l → decode_partial_var_int (l ++ more) ≡ decode_partial_var_int l
unfolding decode_partial_var_int
append_long l more long =
    let same : take 5 (l ++ more) ≡ take 5 l = take-append_le 5 l more (omega arith) in
    ground (arith, same, length-append l more)

-- An answer other than `need_more` does not change when more bytes arrive.
pub decode_partial_var_int-append :
    (l more : List ℕ)
    → decode_partial_var_int l ≢ need_more
    → decode_partial_var_int (l ++ more) ≡ decode_partial_var_int l
decode_partial_var_int-append l more h = elim (dec_lt (length l) 5) [
  | yes short ↦ append_short l more short h
  | no long ↦ append_long l more (omega arith)
]
