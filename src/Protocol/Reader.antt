-- ===== src/Protocol/Reader.antt =====
-- reader.rs: the cursor over borrowed bytes, and its reads of fixed width. `usize` has 64 bits. A
-- float is its bit pattern.
pub mod Decodes
pub mod Fixed
use cubic.Common.{
  ℕ, zero, suc, ◌+◌, ◌-◌, ◌*◌, ◌^◌, ◌≤◌, ◌<◌, String, ◌≡◌, Bool, not, Option, some, none,
}
use cubic.Common.{List, [], ◌∷◌, length, get_range, get_from, leb, ◌==◌, if◌then◌else◌}
use cubic.Common.Int.{ℤ, pos, to_signed}
use cubic.Common.Result.{Result, ok, err, ok_or}
use cubic.Common.Exec.{Exec, pure, raise, lift, gets, ◌>>=◌}
use cubic.Protocol.Error.{CodecError, unexpected_end, value_out_of_range}

pub record CodecReader : Type 0 where
  pub input : List ℕ
  pub position : ℕ

-- a method on `&mut CodecReader`
abbrev pub Reader : Type 0 → Type 0
Reader A = Exec CodecReader CodecError A

abbrev pub usize_mod : ℕ
usize_mod = 2 ^ 64

abbrev pub new : List ℕ → CodecReader
new input = record { input = input; position = 0 }

unfoldable pub remaining : CodecReader → ℕ
remaining r = length r.input - r.position

unfoldable pub consumed_since : CodecReader → ℕ → Result (List ℕ) CodecError
consumed_since r start =
    ok_or (get_range r.input start r.position)
      (value_out_of_range "reader cursor snapshot" (pos start) (pos 0) (pos r.position))

unwrap_or_default : Option (List ℕ) → List ℕ
unwrap_or_default (some bytes) = bytes
unwrap_or_default none = []

unfoldable pub read_remaining : CodecReader → List ℕ × CodecReader
unfolding unwrap_or_default
read_remaining r =
    (unwrap_or_default (get_from r.input r.position), record r { position = length r.input })

take_bytes : ℕ → String → Option (List ℕ) → Reader (List ℕ)
unfolding remaining
take_bytes count context none r = (err (unexpected_end context count (remaining r)), r)
take_bytes count context (some bytes) r = (ok bytes, record r { position = r.position + count })

unfoldable pub read_bytes : ℕ → String → Reader (List ℕ)
unfolding take_bytes
read_bytes count context r =
    if leb usize_mod (r.position + count)
    then (
      err (value_out_of_range "reader byte length" (pos count) (pos 0) (pos (usize_mod - 1))),
      r,
    )
    else take_bytes count context (get_range r.input r.position (r.position + count)) r

first_byte : String → List ℕ → Reader ℕ
first_byte context [] = raise (unexpected_end context 1 0)
first_byte context (byte ∷ rest) = pure byte

unfoldable pub read_byte_with_context : String → Reader ℕ
unfolding read_bytes first_byte
read_byte_with_context context = do bytes ← read_bytes 1 context; first_byte context bytes

unfoldable pub read_array : ℕ → String → Reader (List ℕ)
unfolding read_bytes
read_array n context = do
  bytes ← read_bytes n context
  if length bytes == n then pure bytes else raise (unexpected_end context n (length bytes))

-- `from_be_bytes`
from_be_onto : ℕ → List ℕ → ℕ
from_be_onto acc [] = acc
from_be_onto acc (byte ∷ rest) = from_be_onto (acc * 256 + byte) rest

unfoldable pub from_be : List ℕ → ℕ
unfolding from_be_onto
from_be = from_be_onto 0

unfoldable pub read_u8 : Reader ℕ
unfolding read_byte_with_context
read_u8 = read_byte_with_context "u8"

unfoldable pub read_i8 : Reader ℤ
unfolding read_byte_with_context
read_i8 = do byte ← read_byte_with_context "i8"; pure (to_signed (2 ^ 7) byte)

unfoldable pub read_u16 : Reader ℕ
unfolding read_array from_be
read_u16 = do bytes ← read_array 2 "u16"; pure (from_be bytes)

unfoldable pub read_i16 : Reader ℤ
unfolding read_array from_be
read_i16 = do bytes ← read_array 2 "i16"; pure (to_signed (2 ^ 15) (from_be bytes))

unfoldable pub read_u32 : Reader ℕ
unfolding read_array from_be
read_u32 = do bytes ← read_array 4 "u32"; pure (from_be bytes)

unfoldable pub read_i32 : Reader ℤ
unfolding read_array from_be
read_i32 = do bytes ← read_array 4 "i32"; pure (to_signed (2 ^ 31) (from_be bytes))

unfoldable pub read_u64 : Reader ℕ
unfolding read_array from_be
read_u64 = do bytes ← read_array 8 "u64"; pure (from_be bytes)

unfoldable pub read_i64 : Reader ℤ
unfolding read_array from_be
read_i64 = do bytes ← read_array 8 "i64"; pure (to_signed (2 ^ 63) (from_be bytes))

unfoldable pub read_f32 : Reader ℕ
unfolding read_u32
read_f32 = read_u32

unfoldable pub read_f64 : Reader ℕ
unfolding read_u64
read_f64 = read_u64

unfoldable pub read_bool : Reader Bool
unfolding read_u8
read_bool = do byte ← read_u8; pure (not (byte == 0))
