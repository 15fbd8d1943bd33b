-- ===== src/Protocol/Nbt/Usage.antt =====
-- nbt/decode.rs and nbt/encode.rs: what a decoder or an encoder has used of its limits, and the
-- checks that the two share. Each of the two has its own copy of a check in the source.
use cubic.Common.{ℕ, ◌+◌, ◌-◌, ◌*◌, ltb, leb, if◌then◌else◌}
use cubic.Common.Result.{Result, ok, err}
use cubic.Common.Exec.{Exec}
use cubic.Protocol.Reader.{usize_mod}
use cubic.Protocol.Nbt.Error.{
  NbtCollectionKind, NbtError, total_tag_limit_exceeded, depth_limit_exceeded,
  collection_size_overflow,
}
use cubic.Protocol.Nbt.Limits.{NbtLimits}

-- `DecodeContext`, and `EncodeContext` with its `resource_bytes`, less the limits
pub record Usage : Type 0 where
  pub total_tags : ℕ
  pub allocated_bytes : ℕ

abbrev pub new : Usage
new = record { total_tags = 0; allocated_bytes = 0 }

-- `size_of::<NbtString>()` and `size_of::<NbtTag>()`, which the compiler chooses
pub record Layout : Type 0 where
  pub nbt_string_size : ℕ
  pub nbt_tag_size : ℕ

-- `COMPOUND_ENTRY_BUDGET`; a `usize` has 8 bytes
abbrev pub compound_entry_budget : Layout → ℕ
compound_entry_budget layout = layout.nbt_string_size + layout.nbt_tag_size + 4 * 8

-- a method that reads and changes the usage alone
abbrev pub Using : Type 0 → Type 0
Using A = Exec Usage NbtError A

-- a change of the budget alone
abbrev pub on_budget : {A : Type 0} → Exec ℕ NbtError A → Using A
on_budget m u = ((m u.allocated_bytes).0, record u { allocated_bytes = (m u.allocated_bytes).1 })

unfoldable pub add_tag : NbtLimits → ℕ → Using (Unit {0})
add_tag limits depth u =
    let count = u.total_tags + 1 in
    let max = limits.max_total_tags in
    if ltb limits.max_depth depth
    then (err (depth_limit_exceeded depth limits.max_depth), u)
    else if leb usize_mod count
    then (err (total_tag_limit_exceeded (usize_mod - 1) max), u)
    else if ltb max count
    then (err (total_tag_limit_exceeded count max), u)
    else (ok tt, record u { total_tags = count })

unfoldable pub next_depth : NbtLimits → ℕ → Result ℕ NbtError
next_depth limits depth =
    if leb usize_mod (depth + 1)
    then err (depth_limit_exceeded (usize_mod - 1) limits.max_depth)
    else ok (depth + 1)

unfoldable pub checked_collection_bytes : NbtCollectionKind → ℕ → ℕ → Result ℕ NbtError
checked_collection_bytes kind length element_size =
    if leb usize_mod (length * element_size)
    then err (collection_size_overflow kind length element_size)
    else ok (length * element_size)
