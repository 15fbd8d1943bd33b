-- ===== src/Protocol/TextTests.antt =====
-- The theorems on strings and on the handshake at concrete inputs, and runs of their functions.
use cubic.Common.{ℕ, ◌≡◌, refl, arith, List, [], ◌∷◌}
use cubic.Common.Int.{pos}
use cubic.Common.Result.{ok, err}
use cubic.Protocol.Reader.Decodes.{Decodes}
use cubic.Protocol.Writer.{new}
use cubic.Protocol.Frame.Codes.{framing}
use cubic.Protocol.Text.{
  StringLimits, max_encoded_bytes, utf16_units, next_char, scan_chars, from_utf8, read_string,
  write_string,
}
use cubic.Protocol.Text.Utf8.{IsText}
use cubic.Protocol.Text.RoundTrip.{read_string-write_string}
use cubic.Protocol.Handshake.{Handshake, login, encode_handshake}
use cubic.Protocol.Handshake.Carried.{IsHandshake, read_handshake, fields, encode_handshake_lem}

-- "aé€" and a character outside the basic plane
abbrev sample : List ℕ
sample = 0x61 ∷ 0xe9 ∷ 0x20ac ∷ 0x1f600 ∷ []

abbrev sixteen_units : StringLimits
sixteen_units = record { max_utf16_units = 16; encoded_bytes = 48 }

sample-IsText : IsText sample
sample-IsText = (refl, (refl, (refl, (refl, tt))))

-- an overlong form, a surrogate, and a character that is cut off
overlong : from_utf8 (0x61 ∷ 0xc0 ∷ 0x80 ∷ []) ≡ err 1
unfolding from_utf8 scan_chars next_char
overlong = refl

surrogate : from_utf8 (0xed ∷ 0xa0 ∷ 0x80 ∷ []) ≡ err 0
unfolding from_utf8 scan_chars next_char
surrogate = refl

cut_off : from_utf8 (0x61 ∷ 0x62 ∷ 0xe2 ∷ 0x82 ∷ []) ≡ err 2
unfolding from_utf8 scan_chars next_char
cut_off = refl

string_example :
    (bytes : List ℕ) × (write_string sample sixteen_units new ≡ (ok tt, record { output = bytes }))
    × Decodes (read_string sixteen_units) bytes sample
unfolding utf16_units max_encoded_bytes
string_example =
    read_string-write_string sample sixteen_units (omega arith) (omega arith) (omega arith) new
      sample-IsText

abbrev hello : Handshake
hello = record {
  protocol_version = pos 775;
  server_address = 0x61 ∷ 0x2e ∷ 0x62 ∷ [];
  server_port = 25565;
  next_state = login;
}

hello-IsHandshake : IsHandshake hello
unfolding utf16_units
hello-IsHandshake = record {
  version = omega arith;
  text = (refl, (refl, (refl, tt)));
  units = omega arith;
  port = omega arith;
}

handshake_example :
    (body : List ℕ) × (encode_handshake hello 1000 ≡ ok (framing body))
    × Decodes read_handshake body (fields hello)
handshake_example = encode_handshake_lem hello hello-IsHandshake 1000 (omega arith)
