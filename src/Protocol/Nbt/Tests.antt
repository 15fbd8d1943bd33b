-- ===== src/Protocol/Nbt/Tests.antt =====
-- The theorems on NBT at concrete inputs.
use cubic.Common.{ℕ, ◌+◌, ◌*◌, ◌≤◌, ◌≡◌, refl, arith, true, List, [], ◌∷◌, ◌++◌, length}
use cubic.Common.Result.{ok}
use cubic.Protocol.Reader.{CodecReader}
use cubic.Protocol.Reader.Decodes.{IsValid, unread, advance}
use cubic.Protocol.Writer.{CodecWriter}
use cubic.Protocol.Nbt.Limits.{default_limits, max_string_encoded_bytes}
use cubic.Protocol.Nbt.NbtString.{NbtString, encoded_len, unit_width, decode, encode}
use cubic.Protocol.Nbt.NbtString.RoundTrip.{AreUnits, nbt_string_round_trips}
use cubic.Protocol.Nbt.NbtString.Bounds.{Within, decode-Within}

-- NUL, "A", "é", a lone surrogate and the sign of the euro
abbrev odd : NbtString
odd = record { utf16_units = 0 ∷ 0x41 ∷ 0xe9 ∷ 0xd800 ∷ 0x20ac ∷ [] }

odd-AreUnits : AreUnits odd.utf16_units
odd-AreUnits = (omega arith, (omega arith, (omega arith, (omega arith, (omega arith, tt)))))

odd-len : encoded_len odd ≡ 11
unfolding encoded_len unit_width
odd-len = refl

abbrev bare : CodecWriter
bare = record { output = [] }

nbt_string_example :
    (bytes : List ℕ) × (encode odd default_limits bare
      ≡ (ok tt, record { output = bare.output ++ bytes }))
    × ((r : CodecReader) (rest : List ℕ) (budget : ℕ)
        → IsValid r
        → unread r ≡ bytes ++ rest
        → budget + encoded_len odd * 2 ≤ default_limits.max_total_allocated_bytes
        → decode true default_limits (r, budget)
          ≡ (ok odd, (advance (length bytes) r, budget + encoded_len odd * 2)))
unfolding encoded_len unit_width max_string_encoded_bytes
nbt_string_example =
    nbt_string_round_trips odd default_limits odd-AreUnits (omega arith) bare (omega arith)

-- a reader before a string of one unit of two bytes
abbrev short : CodecReader
short = record { input = 0 ∷ 2 ∷ 0xc3 ∷ 0xa9 ∷ []; position = 0 }

decode-Within_example : Within default_limits 5 (decode true default_limits (short, 5))
decode-Within_example = decode-Within true default_limits short 5
