-- ===== src/Protocol/Writer.antt =====
-- writer.rs: the growing output of an encoder, and its writes of fixed width.
use cubic.Common.{ℕ, zero, suc, ◌/◌, ◌%◌, ◌^◌, Bool, List, [], ◌∷◌, ◌++◌, if◌then◌else◌}
use cubic.Common.Int.{ℤ, to_unsigned}

pub record CodecWriter : Type 0 where
  pub output : List ℕ

-- a method on `&mut CodecWriter` that cannot fail
abbrev pub Writer : Type 0
Writer = CodecWriter → CodecWriter

abbrev pub new : CodecWriter
new = record { output = [] }

-- what a method writes
abbrev pub written : Writer → List ℕ
written m = (m new).output

unfoldable pub write_bytes : List ℕ → Writer
write_bytes bytes w = record { output = w.output ++ bytes }

unfoldable pub write_u8 : ℕ → Writer
write_u8 value w = record { output = w.output ++ (value ∷ []) }

-- `to_be_bytes` of a word of n bytes
unfoldable pub to_be : ℕ → ℕ → List ℕ
to_be zero value = []
to_be (suc n) value = (value / 256 ^ n % 256) ∷ to_be n value

unfoldable pub write_i8 : ℤ → Writer
unfolding write_bytes to_be
write_i8 value = write_bytes (to_be 1 (to_unsigned (2 ^ 7) value))

unfoldable pub write_u16 : ℕ → Writer
unfolding write_bytes to_be
write_u16 value = write_bytes (to_be 2 value)

unfoldable pub write_i16 : ℤ → Writer
unfolding write_bytes to_be
write_i16 value = write_bytes (to_be 2 (to_unsigned (2 ^ 15) value))

unfoldable pub write_u32 : ℕ → Writer
unfolding write_bytes to_be
write_u32 value = write_bytes (to_be 4 value)

unfoldable pub write_i32 : ℤ → Writer
unfolding write_bytes to_be
write_i32 value = write_bytes (to_be 4 (to_unsigned (2 ^ 31) value))

unfoldable pub write_u64 : ℕ → Writer
unfolding write_bytes to_be
write_u64 value = write_bytes (to_be 8 value)

unfoldable pub write_i64 : ℤ → Writer
unfolding write_bytes to_be
write_i64 value = write_bytes (to_be 8 (to_unsigned (2 ^ 63) value))

unfoldable pub write_f32 : ℕ → Writer
unfolding write_u32
write_f32 value = write_u32 value

unfoldable pub write_f64 : ℕ → Writer
unfolding write_u64
write_f64 value = write_u64 value

unfoldable pub write_bool : Bool → Writer
unfolding write_u8
write_bool value = write_u8 (if value then 1 else 0)
