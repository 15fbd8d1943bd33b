-- ===== src/Protocol/Nbt/Error.antt =====
-- nbt/error.rs: what can go wrong with NBT. The messages are left out.
use cubic.Common.{ℕ, String}
use cubic.Common.Int.{ℤ}
use cubic.Protocol.Error.{CodecError}
use cubic.Protocol.Nbt.Tag.{NbtTagType}

pub data NbtCollectionKind : Type 0 where
  byte_array int_array long_array list compound : NbtCollectionKind

pub data NbtError : Type 0 where
  codec : CodecError → NbtError
  invalid_tag_id : (id : ℕ) → NbtError
  unexpected_end_tag : (context : String) → NbtError
  invalid_root_type : (found : ℕ) → NbtError
  malformed_modified_utf8 : (offset : ℕ) → NbtError
  string_too_long : (encoded_bytes max : ℕ) → NbtError
  negative_collection_length : (kind : NbtCollectionKind) (value : ℤ) → NbtError
  collection_too_large : (kind : NbtCollectionKind) (length max : ℕ) → NbtError
  collection_size_overflow : (kind : NbtCollectionKind) (length element_size : ℕ) → NbtError
  depth_limit_exceeded : (depth max : ℕ) → NbtError
  total_tag_limit_exceeded : (count max : ℕ) → NbtError
  allocation_budget_exceeded : (attempted max : ℕ) → NbtError
  allocation_failed : (context : String) (requested : ℕ) → NbtError
  heterogeneous_list : (expected found : NbtTagType) (index : ℕ) → NbtError
  end_list_with_elements : NbtError
  trailing_data : (remaining : ℕ) → NbtError
