-- ===== src/Protocol/Length/RoundTrip.antt =====
-- A length prefix and a byte array are read back as they were written.
use cubic.Common.{ℕ, ◌≤◌, ◌≡◌, List, length, String}
use cubic.Common.{◌++◌, arith, ap, le→ltb, append_assoc}
use cubic.Common.Int.{pos}
use cubic.Common.Result.{ok}
use cubic.Protocol.Error.{LengthKind, byte_array}
use cubic.Protocol.Reader.Decodes.{Decodes, Decodes-bind, read_bytes-Decodes}
use cubic.Protocol.Writer.{CodecWriter, new, written, write_bytes}
use cubic.Protocol.VarInt.{read_var_int}
use cubic.Protocol.VarInt.Groups.{groups}
use cubic.Protocol.VarInt.RoundTrip.{write_var_int-groups, read_var_int-write_var_int}
use cubic.Protocol.Length.{i32_max, read_length, write_length, read_byte_array, write_byte_array}

-- the bytes of a length prefix
abbrev pub prefix : ℕ → List ℕ
prefix count = groups 4 count

pub write_length-prefix :
    (count : ℕ) (context : String) (w : CodecWriter)
    → count ≤ i32_max
    → write_length count context w ≡ (ok tt, record { output = w.output ++ prefix count })
unfolding write_length
write_length-prefix count context w h =
    ground (arith, write_var_int-groups (pos count) w (omega arith))

pub read_length-Decodes :
    (kind : LengthKind) (count : ℕ)
    → count ≤ i32_max
    → Decodes (read_length kind) (prefix count) count
unfolding read_length
read_length-Decodes kind count h =
    let reads : Decodes read_var_int (prefix count) (pos count) =
      rw (write_var_int-groups (pos count) new (omega arith), written) at
        (read_var_int-write_var_int (pos count) (omega arith)) in
    record { at = λ r rest v e. rw (reads.at r rest v e) }

-- A byte array within both limits is written, and read back whole, the cursor behind it.
pub read_byte_array-write_byte_array :
    (value : List ℕ) (max_written max_read : ℕ) (w : CodecWriter)
    → length value ≤ i32_max
    → length value ≤ max_written
    → length value ≤ max_read
    → (bytes : List ℕ) × (write_byte_array value max_written w
        ≡ (ok tt, record { output = w.output ++ bytes }))
      × Decodes (read_byte_array max_read) bytes value
unfolding write_byte_array read_byte_array write_bytes
read_byte_array-write_byte_array value max_written max_read w h hw hr = (
  prefix (length value) ++ value,
  rw (le→ltb max_written (length value) hw, write_length-prefix (length value) _ w h)
      (ap (λ o. (ok tt, record { output = o }))
        (append_assoc w.output (prefix (length value)) value)),
  Decodes-bind (read_length byte_array) _ (prefix (length value)) value (length value) value
      (read_length-Decodes byte_array (length value) h)
      (rw (le→ltb max_read (length value) hr) (read_bytes-Decodes _ value)),
)
