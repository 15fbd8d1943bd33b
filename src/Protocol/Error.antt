-- ===== src/Protocol/Error.antt =====
-- error.rs: the structured failures of encoding and decoding. `&'static str` contexts are texts, and
-- an i128 that reports a number is an integer.
use cubic.Common.{ℕ, String}
use cubic.Common.Int.{ℤ}

pub data LengthKind : Type 0 where
  string byte_array bit_set frame : LengthKind

pub data CodecError : Type 0 where
  unexpected_end : String → ℕ → ℕ → CodecError
  malformed_var_int malformed_var_long : CodecError
  malformed_length_prefix : LengthKind → CodecError
  negative_length : LengthKind → ℤ → CodecError
  value_out_of_range : String → ℤ → ℤ → ℤ → CodecError
  invalid_utf8 : ℕ → CodecError
  string_too_long : ℕ → ℕ → CodecError
  encoded_string_too_long : ℕ → ℕ → CodecError
  byte_array_too_long : ℕ → ℕ → CodecError
  bit_set_too_many_words : ℕ → ℕ → CodecError
  bit_set_bit_out_of_range : ℕ → ℕ → CodecError
  frame_too_long : ℕ → ℕ → CodecError
  frame_buffer_too_long : ℕ → ℕ → CodecError
  invalid_block_position : String → ℤ → ℤ → ℤ → CodecError
  allocation_failed : String → ℕ → CodecError
