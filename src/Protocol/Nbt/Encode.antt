-- ===== src/Protocol/Nbt/Encode.antt =====
-- nbt/encode.rs: the check of a value against the limits, and then its bytes.
pub mod Checked
pub mod Wire
use cubic.Common.{
  ℕ, ◌+◌, ◌-◌, ◌*◌, ◌^◌, List, [], ◌∷◌, length, ltb, leb, if◌then◌else◌, Option, none, some,
}
use cubic.Common.Int.{ℤ, pos}
use cubic.Common.Result.{Result, ok, err}
use cubic.Common.Result
use cubic.Common.Exec.{Exec, pure, raise, lift, ◌>>=◌, ◌>>◌}
use cubic.Protocol.Reader.{usize_mod}
use cubic.Protocol.Writer.{
  CodecWriter, Writer, write_bytes, write_u8, write_i8, write_i16, write_i32, write_i64, write_f32,
  write_f64,
}
use cubic.Protocol.Writer
use cubic.Protocol.Nbt.Error.{
  NbtCollectionKind, NbtError, collection_too_large, allocation_budget_exceeded,
}
use cubic.Protocol.Nbt.Tag.{NbtTagType, id}
use cubic.Protocol.Nbt.Limits.{NbtLimits}
use cubic.Protocol.Nbt.NbtString.{
  NbtString, NbtWriter, encoded_len, validate_encoded_length, charge_budget,
}
use cubic.Protocol.Nbt.NbtString
use cubic.Protocol.Nbt.Value.{
  NbtTag, NbtList, of_type_id, Tags, nil, cons, NbtCompound, empty, entry, NamedNbtRoot, tag_type,
  count_tags, validate_list,
}
use cubic.Protocol.Nbt.Value.Compound.{compound_len}
use cubic.Protocol.Nbt.Usage.{
  Usage, Layout, Using, compound_entry_budget, on_budget, add_tag, next_depth,
  checked_collection_bytes,
}
use cubic.Protocol.Nbt.Usage

-- `i32::MAX as usize`
abbrev pub i32_max : ℕ
i32_max = 2 ^ 31 - 1

module _ (limits : NbtLimits) where
  unfoldable pub validate_collection_length : NbtCollectionKind → ℕ → ℕ → Result (Unit {0}) NbtError
  validate_collection_length kind count configured_max =
      let max = if ltb configured_max i32_max then configured_max else i32_max in
      if ltb max count then err (collection_too_large kind count max) else ok tt

  unfoldable pub charge_bytes : ℕ → Using (Unit {0})
  unfolding charge_budget
  charge_bytes amount = on_budget (charge_budget amount limits)

  checked_double : ℕ → Result ℕ NbtError
  checked_double n =
      if leb usize_mod (n * 2)
      then err (allocation_budget_exceeded (usize_mod - 1) limits.max_total_allocated_bytes)
      else ok (n * 2)

  unfoldable pub validate_string : NbtString → Using (Unit {0})
  unfolding encoded_len validate_encoded_length checked_double charge_bytes
  validate_string s = do
    lift (validate_encoded_length (encoded_len s) limits)
    allocation ← lift (checked_double (encoded_len s))
    charge_bytes allocation

  unfoldable pub validate_array : ℕ → NbtCollectionKind → ℕ → Using (Unit {0})
  unfolding validate_collection_length checked_collection_bytes charge_bytes
  validate_array count kind element_size = do
    lift (validate_collection_length kind count limits.max_array_elements)
    bytes ← lift (checked_collection_bytes kind count element_size)
    charge_bytes bytes

module _ (layout : Layout) (limits : NbtLimits) where
  -- the checks of `validate_compound` before its loop, and the depth of the entries
  unfoldable pub compound_header : NbtCompound → ℕ → Using ℕ
  unfolding validate_collection_length next_depth compound_len
  compound_header c depth = do
    lift (
        validate_collection_length limits NbtCollectionKind.compound (compound_len c)
          limits.max_compound_entries)
    lift (next_depth limits depth)

  unfoldable mutual
    unfolding validate_collection_length charge_bytes validate_string validate_array add_tag
        next_depth checked_collection_bytes validate_list count_tags compound_header

    -- the arms of `validate_tag`, behind its `add_tag`
    pub validate_arm : NbtTag → ℕ → Using (Unit {0})
    validate_arm (NbtTag.byte v) depth = pure tt
    validate_arm (NbtTag.short v) depth = pure tt
    validate_arm (NbtTag.int v) depth = pure tt
    validate_arm (NbtTag.long v) depth = pure tt
    validate_arm (NbtTag.float v) depth = pure tt
    validate_arm (NbtTag.double v) depth = pure tt
    validate_arm (NbtTag.byte_array vs) depth =
        validate_array limits (length vs) NbtCollectionKind.byte_array 1
    validate_arm (NbtTag.string s) depth = validate_string limits s
    validate_arm (NbtTag.list l) depth = validate_elements l depth
    validate_arm (NbtTag.compound c) depth = do
      child_depth ← compound_header c depth
      validate_entries c child_depth
    validate_arm (NbtTag.int_array vs) depth =
        validate_array limits (length vs) NbtCollectionKind.int_array 4
    validate_arm (NbtTag.long_array vs) depth =
        validate_array limits (length vs) NbtCollectionKind.long_array 8

    -- the arm of a list
    pub validate_elements : NbtList → ℕ → Using (Unit {0})
    validate_elements (of_type_id t es) depth = do
      lift (validate_list t es)
      lift (
          validate_collection_length limits NbtCollectionKind.list (count_tags es)
            limits.max_list_elements)
      allocation ←
          lift (checked_collection_bytes NbtCollectionKind.list (count_tags es) layout.nbt_tag_size)
      charge_bytes limits allocation
      child_depth ← lift (next_depth limits depth)
      validate_tags es child_depth

    pub validate_tags : Tags → ℕ → Using (Unit {0})
    validate_tags nil depth = pure tt
    validate_tags (cons e es) depth = do
      add_tag limits depth
      validate_arm e depth
      validate_tags es depth

    pub validate_entries : NbtCompound → ℕ → Using (Unit {0})
    validate_entries empty depth = pure tt
    validate_entries (entry name value c) depth = do
      charge_bytes limits (compound_entry_budget layout)
      validate_string limits name
      add_tag limits depth
      validate_arm value depth
      validate_entries c depth

  unfoldable pub validate_tag : NbtTag → ℕ → Using (Unit {0})
  unfolding add_tag validate_arm
  validate_tag tag depth = do add_tag limits depth; validate_arm tag depth

  unfoldable pub validate_compound : NbtCompound → ℕ → Using (Unit {0})
  unfolding compound_header validate_entries
  validate_compound c depth = do
    child_depth ← compound_header c depth
    validate_entries c child_depth

-- a write that cannot fail, among those that can
abbrev pub writing : Writer → NbtWriter
writing m w = (ok tt, m w)

-- `i32::try_from`
unfoldable pub collection_length : ℕ → NbtCollectionKind → Result ℤ NbtError
collection_length count kind =
    if ltb i32_max count then err (collection_too_large kind count i32_max) else ok (pos count)

unfoldable pub write_values : {A : Type 0} → (A → Writer) → List A → Writer
write_values write [] w = w
write_values write (v ∷ vs) w = write_values write vs (write v w)

unfoldable pub write_length : ℕ → NbtCollectionKind → NbtWriter
unfolding collection_length write_i32
write_length count kind = do n ← lift (collection_length count kind); writing (write_i32 n)

module _ (limits : NbtLimits) where
  unfoldable mutual
    unfolding write_length write_values write_i8 write_i16 write_i32 write_i64 write_f32 write_f64
        write_bytes write_u8 NbtString.encode count_tags

    pub encode_payload : NbtTag → NbtWriter
    encode_payload (NbtTag.byte v) = writing (write_i8 v)
    encode_payload (NbtTag.short v) = writing (write_i16 v)
    encode_payload (NbtTag.int v) = writing (write_i32 v)
    encode_payload (NbtTag.long v) = writing (write_i64 v)
    encode_payload (NbtTag.float v) = writing (write_f32 v)
    encode_payload (NbtTag.double v) = writing (write_f64 v)
    encode_payload (NbtTag.byte_array vs) = do
      write_length (length vs) NbtCollectionKind.byte_array
      writing (write_bytes vs)
    encode_payload (NbtTag.string s) = NbtString.encode s limits
    encode_payload (NbtTag.list l) = encode_list l
    encode_payload (NbtTag.compound c) = encode_compound c
    encode_payload (NbtTag.int_array vs) = do
      write_length (length vs) NbtCollectionKind.int_array
      writing (write_values write_i32 vs)
    encode_payload (NbtTag.long_array vs) = do
      write_length (length vs) NbtCollectionKind.long_array
      writing (write_values write_i64 vs)

    -- the arm of a list
    pub encode_list : NbtList → NbtWriter
    encode_list (of_type_id t es) = do
      writing (write_u8 t)
      write_length (count_tags es) NbtCollectionKind.list
      encode_elements es

    pub encode_elements : Tags → NbtWriter
    encode_elements nil = pure tt
    encode_elements (cons e es) = do encode_payload e; encode_elements es

    pub encode_compound : NbtCompound → NbtWriter
    encode_compound empty = writing (write_u8 (id NbtTagType.end))
    encode_compound (entry name value c) = do
      writing (write_u8 (id (tag_type value)))
      NbtString.encode name limits
      encode_payload value
      encode_compound c

-- what a writer holds at the end
abbrev pub finished : NbtWriter → Result (List ℕ) NbtError
finished m = Result.◌>>=◌ (m Writer.new).0 (λ done. ok (m Writer.new).1.output)

module _ (layout : Layout) (limits : NbtLimits) where
  validate_name : Option NbtString → Using (Unit {0})
  unfolding validate_string
  validate_name none = pure tt
  validate_name (some name) = validate_string limits name

  unfoldable pub validate_root : NbtCompound → Option NbtString → Using (Unit {0})
  unfolding add_tag validate_name validate_compound
  validate_root root name = do
    add_tag limits 0
    validate_name name
    validate_compound layout limits root 0

  unfoldable pub encode_named_root : NamedNbtRoot → Result (List ℕ) NbtError
  unfolding validate_root encode_compound write_u8 NbtString.encode
  encode_named_root r = Result.◌>>=◌ (validate_root r.root (some r.name) Usage.new).0 (λ valid.
      finished (do
        writing (write_u8 (id NbtTagType.compound))
        NbtString.encode r.name limits
        encode_compound limits r.root))

  unfoldable pub encode_unnamed_network_root : NbtCompound → Result (List ℕ) NbtError
  unfolding validate_root encode_compound write_u8
  encode_unnamed_network_root root = Result.◌>>=◌ (validate_root root none Usage.new).0 (λ valid.
      finished (do writing (write_u8 (id NbtTagType.compound)); encode_compound limits root))

  unfoldable pub encode_unnamed_network_tag : NbtTag → Result (List ℕ) NbtError
  unfolding validate_tag encode_payload write_u8
  encode_unnamed_network_tag tag =
      Result.◌>>=◌ (validate_tag layout limits tag 0 Usage.new).0
        (λ valid. finished (do writing (write_u8 (id (tag_type tag))); encode_payload limits tag))
