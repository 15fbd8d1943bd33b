-- ===== src/Protocol/Text.antt =====
-- reader.rs and writer.rs: bounded strings. A `str` is the list of its characters, each a Unicode
-- scalar value; `utf8` are its bytes and `from_utf8` is the check of the standard library.
pub mod Utf8
pub mod RoundTrip
use cubic.Common.{
  ℕ, zero, suc, ◌+◌, ◌-◌, ◌*◌, ◌/◌, ◌%◌, ◌^◌, Bool, ◌&&◌, ◌||◌, not, Option, some, none,
}
use cubic.Common.{List, [], ◌∷◌, ◌++◌, length, drop, ltb, leb, if◌then◌else◌}
use cubic.Common.Result.{Result, ok, err}
use cubic.Common.Exec.{pure, raise, lift, ◌>>=◌, ◌>>◌}
use cubic.Protocol.Error.{
  CodecError, string, invalid_utf8, string_too_long, encoded_string_too_long,
}
use cubic.Protocol.Reader.{Reader, usize_mod, read_bytes}
use cubic.Protocol.Writer.{write_bytes}
use cubic.Protocol.Length.{TryWriter, just, read_length, write_length}

pub record StringLimits : Type 0 where
  pub max_utf16_units : ℕ
  pub encoded_bytes : ℕ

-- `StringLimits::max_encoded_bytes`
unfoldable pub max_encoded_bytes : StringLimits → ℕ
max_encoded_bytes limits =
    let protocol_max = limits.max_utf16_units * 3 in
    if ltb protocol_max usize_mod && ltb protocol_max limits.encoded_bytes
    then protocol_max
    else limits.encoded_bytes

-- the UTF-8 of a character
abbrev pub char_bytes : ℕ → List ℕ
char_bytes c =
    if ltb c 0x80
    then c ∷ []
    else if ltb c 0x800
    then (0xc0 + c / 64) ∷ (0x80 + c % 64) ∷ []
    else if ltb c 0x10000
    then (0xe0 + c / 4096) ∷ (0x80 + c / 64 % 64) ∷ (0x80 + c % 64) ∷ []
    else (0xf0 + c / 262144) ∷ (0x80 + c / 4096 % 64) ∷ (0x80 + c / 64 % 64) ∷ (0x80 + c % 64) ∷ []

-- `as_bytes`
abbrev pub utf8 : List ℕ → List ℕ
utf8 [] = []
utf8 (c ∷ cs) = char_bytes c ++ utf8 cs

-- `encode_utf16().count()`
unfoldable pub utf16_units : List ℕ → ℕ
utf16_units [] = 0
utf16_units (c ∷ cs) = (if ltb c 0x10000 then 1 else 2) + utf16_units cs

abbrev pub is_scalar : ℕ → Bool
is_scalar c = ltb c 0xd800 || (leb 0xe000 c && ltb c 0x110000)

is_continuation : ℕ → Bool
is_continuation byte = leb 0x80 byte && leb byte 0xbf

-- a character of `width` bytes, which no shorter form can write
checked_char : Bool → ℕ → ℕ → ℕ → Option (ℕ × ℕ)
checked_char continued low c width =
    if continued && leb low c && is_scalar c then some (c, width) else none

-- the character at the head of the bytes, and its width
unfoldable pub next_char : List ℕ → Option (ℕ × ℕ)
unfolding is_continuation checked_char
next_char [] = none
next_char (a ∷ []) = if ltb a 0x80 then some (a, 1) else none
next_char (a ∷ b ∷ []) =
    if ltb a 0x80
    then some (a, 1)
    else if leb 0xc0 a && leb a 0xdf
    then checked_char (is_continuation b) 0x80 ((a - 0xc0) * 64 + (b - 0x80)) 2
    else none
next_char (a ∷ b ∷ c ∷ []) =
    if ltb a 0x80
    then some (a, 1)
    else if leb 0xc0 a && leb a 0xdf
    then checked_char (is_continuation b) 0x80 ((a - 0xc0) * 64 + (b - 0x80)) 2
    else if leb 0xe0 a && leb a 0xef
    then checked_char (is_continuation b && is_continuation c) 0x800
        ((a - 0xe0) * 4096 + (b - 0x80) * 64 + (c - 0x80)) 3
    else none
next_char (a ∷ b ∷ c ∷ d ∷ rest) =
    if ltb a 0x80
    then some (a, 1)
    else if leb 0xc0 a && leb a 0xdf
    then checked_char (is_continuation b) 0x80 ((a - 0xc0) * 64 + (b - 0x80)) 2
    else if leb 0xe0 a && leb a 0xef
    then checked_char (is_continuation b && is_continuation c) 0x800
        ((a - 0xe0) * 4096 + (b - 0x80) * 64 + (c - 0x80)) 3
    else if leb 0xf0 a && leb a 0xf7
    then checked_char (is_continuation b && is_continuation c && is_continuation d) 0x10000
        ((a - 0xf0) * 262144 + (b - 0x80) * 4096 + (c - 0x80) * 64 + (d - 0x80)) 4
    else none

after_char : ℕ × ℕ → Result (List ℕ) ℕ → Result (List ℕ) ℕ
after_char found (ok cs) = ok (found.0 ∷ cs)
after_char found (err e) = err e

-- The characters, or `valid_up_to`; each round passes a byte at least.
unfoldable pub scan_chars : ℕ → List ℕ → ℕ → Result (List ℕ) ℕ
unfolding after_char
scan_chars zero bytes offset = ok []
scan_chars (suc fuel) [] offset = ok []
scan_chars (suc fuel) (byte ∷ bytes) offset = elim (next_char (byte ∷ bytes)) [
  | none ↦ err offset
  | some found ↦ after_char found (scan_chars fuel (drop found.1 (byte ∷ bytes)) (offset + found.1))
]

unfoldable pub from_utf8 : List ℕ → Result (List ℕ) ℕ
from_utf8 bytes = scan_chars (length bytes) bytes 0

-- the checks behind the bytes
unfoldable pub checked_text : StringLimits → Result (List ℕ) ℕ → Result (List ℕ) CodecError
checked_text limits (err valid_up_to) = err (invalid_utf8 valid_up_to)
checked_text limits (ok value) =
    if ltb limits.max_utf16_units (utf16_units value)
    then err (string_too_long (utf16_units value) limits.max_utf16_units)
    else ok value

unfoldable pub read_string : StringLimits → Reader (List ℕ)
read_string limits = do
  count ← read_length string
  if ltb (max_encoded_bytes limits) count
      then raise (encoded_string_too_long count (max_encoded_bytes limits))
      else (do
        bytes ← read_bytes count "string bytes"
        lift (checked_text limits (from_utf8 bytes)))

unfoldable pub write_string : List ℕ → StringLimits → TryWriter
write_string value limits =
    if ltb limits.max_utf16_units (utf16_units value)
    then raise (string_too_long (utf16_units value) limits.max_utf16_units)
    else if ltb (max_encoded_bytes limits) (length (utf8 value))
    then raise (encoded_string_too_long (length (utf8 value)) (max_encoded_bytes limits))
    else do write_length (length (utf8 value)) "string length"; just (write_bytes (utf8 value))
