-- ===== src/Protocol/Length.antt =====
-- reader.rs and writer.rs: length prefixes and byte arrays.
pub mod RoundTrip
use cubic.Common.{
  ℕ, zero, suc, ◌+◌, ◌-◌, ◌*◌, ◌^◌, ◌≤◌, ◌<◌, ◌≡◌, List, length, ltb, if◌then◌else◌, String,
}
use cubic.Common.Int.{ℤ, pos, negsuc}
use cubic.Common.Result.{Result, ok, err}
use cubic.Common.Exec.{Exec, pure, raise, ◌>>=◌, ◌>>◌}
use cubic.Protocol.Error.{
  CodecError, LengthKind, byte_array, byte_array_too_long, malformed_length_prefix,
  malformed_var_int, negative_length, value_out_of_range,
}
use cubic.Protocol.Reader.{CodecReader, Reader, read_bytes}
use cubic.Protocol.Writer.{CodecWriter, Writer, write_bytes}
use cubic.Protocol.VarInt.{read_var_int, write_var_int}

-- a method on `&mut CodecWriter` that may fail
abbrev pub TryWriter : Type 0
TryWriter = Exec CodecWriter CodecError (Unit {0})

-- a method that cannot fail, where others may
abbrev pub just : Writer → TryWriter
just m w = (ok tt, m w)

abbrev pub i32_max : ℕ
i32_max = 2 ^ 31 - 1

-- `usize::try_from` of a value that is not negative succeeds: usize has 64 bits.
length_of : LengthKind → Result ℤ CodecError → Result ℕ CodecError
length_of kind (err malformed_var_int) = err (malformed_length_prefix kind)
length_of kind (err e) = err e
length_of kind (ok (negsuc n)) = err (negative_length kind (negsuc n))
length_of kind (ok (pos n)) = ok n

unfoldable pub read_length : LengthKind → Reader ℕ
unfolding length_of
read_length kind r = (length_of kind (read_var_int r).0, (read_var_int r).1)

unfoldable pub write_length : ℕ → String → TryWriter
write_length count context w =
    if ltb i32_max count
    then (err (value_out_of_range context (pos count) (pos 0) (pos i32_max)), w)
    else (ok tt, write_var_int (pos count) w)

unfoldable pub read_byte_array : ℕ → Reader (List ℕ)
unfolding read_length read_bytes
read_byte_array max_length = do
  count ← read_length byte_array
  if ltb max_length count
      then raise (byte_array_too_long count max_length)
      else read_bytes count "byte array"

unfoldable pub write_byte_array : List ℕ → ℕ → TryWriter
unfolding write_length write_bytes
write_byte_array value max_length =
    if ltb max_length (length value)
    then raise (byte_array_too_long (length value) max_length)
    else do write_length (length value) "byte array length"; just (write_bytes value)
