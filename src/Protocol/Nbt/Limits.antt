-- ===== src/Protocol/Nbt/Limits.antt =====
-- nbt/limits.rs: the limits on untrusted NBT, each with its builder.
use cubic.Common.{ℕ, ◌*◌, ◌-◌, ◌^◌, ltb, if◌then◌else◌}

pub record NbtLimits : Type 0 where
  pub max_depth : ℕ
  pub max_total_tags : ℕ
  pub max_compound_entries : ℕ
  pub max_list_elements : ℕ
  pub max_array_elements : ℕ
  pub string_encoded_bytes : ℕ
  pub max_total_allocated_bytes : ℕ

-- `u16::MAX as usize`
abbrev pub u16_max : ℕ
u16_max = 2 ^ 16 - 1

-- `NbtLimits::default`
abbrev pub default_limits : NbtLimits
default_limits = record {
  max_depth = 64;
  max_total_tags = 65536;
  max_compound_entries = 4096;
  max_list_elements = 65536;
  max_array_elements = 1048576;
  string_encoded_bytes = u16_max;
  max_total_allocated_bytes = 16 * 1024 * 1024;
}

unfoldable pub max_string_encoded_bytes : NbtLimits → ℕ
max_string_encoded_bytes limits =
    if ltb limits.string_encoded_bytes u16_max then limits.string_encoded_bytes else u16_max

abbrev pub with_max_depth : ℕ → NbtLimits → NbtLimits
with_max_depth value limits = record limits { max_depth = value }

abbrev pub with_max_total_tags : ℕ → NbtLimits → NbtLimits
with_max_total_tags value limits = record limits { max_total_tags = value }

abbrev pub with_max_compound_entries : ℕ → NbtLimits → NbtLimits
with_max_compound_entries value limits = record limits { max_compound_entries = value }

abbrev pub with_max_list_elements : ℕ → NbtLimits → NbtLimits
with_max_list_elements value limits = record limits { max_list_elements = value }

abbrev pub with_max_array_elements : ℕ → NbtLimits → NbtLimits
with_max_array_elements value limits = record limits { max_array_elements = value }

abbrev pub with_max_string_encoded_bytes : ℕ → NbtLimits → NbtLimits
with_max_string_encoded_bytes value limits = record limits { string_encoded_bytes = value }

abbrev pub with_max_total_allocated_bytes : ℕ → NbtLimits → NbtLimits
with_max_total_allocated_bytes value limits = record limits { max_total_allocated_bytes = value }
