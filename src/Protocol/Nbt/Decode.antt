-- ===== src/Protocol/Nbt/Decode.antt =====
-- nbt/decode.rs: the decoder of payloads. A cast of an i32 that is not negative to `usize` cannot
-- fail. A payload is decoded on `levels`, the levels of children that are still allowed, and the
-- entries of a compound on `room`, the entries that it may still have.
pub mod Reads
pub mod Stops
pub mod Room
pub mod Roots
use cubic.Common.{
  ℕ, zero, suc, ◌+◌, ◌-◌, ◌*◌, Bool, String, List, [], ◌∷◌, length, ltb, leb, ◌==◌, if◌then◌else◌,
  Option, none, some,
}
use cubic.Common.Int.{ℤ, pos, negsuc}
use cubic.Common.Result.{Result, ok, err, ok_or, map_err}
use cubic.Common.Result
use cubic.Common.Exec.{Exec, pure, raise, lift, ◌>>=◌, ◌>>◌}
use cubic.Protocol.Error.{unexpected_end}
use cubic.Protocol.Reader.{
  CodecReader, Reader, usize_mod, remaining, read_bytes, read_i8, read_i16, read_i32, read_i64,
  read_f32, read_f64,
}
use cubic.Protocol.Reader
use cubic.Protocol.Nbt.Error.{
  NbtCollectionKind, NbtError, codec, invalid_tag_id, unexpected_end_tag, invalid_root_type,
  negative_collection_length, collection_too_large, allocation_failed, end_list_with_elements,
  depth_limit_exceeded, trailing_data,
}
use cubic.Protocol.Nbt.Tag.{NbtTagType, from_id, id}
use cubic.Protocol.Nbt.Limits.{NbtLimits}
use cubic.Protocol.Nbt.NbtString.{NbtString, Decoding, charge_budget}
use cubic.Protocol.Nbt.NbtString
use cubic.Protocol.Nbt.Value.{
  NbtTag, NbtList, Tags, nil, cons, NbtCompound, NamedNbtRoot, same_type, empty_with_type_id,
  new_list,
}
use cubic.Protocol.Nbt.Value.Compound.{insert}
use cubic.Protocol.Nbt.Usage.{
  Usage, Layout, Using, compound_entry_budget, on_budget, add_tag, next_depth,
  checked_collection_bytes,
}
use cubic.Protocol.Nbt.Usage

-- a method on the reader and the usage
abbrev pub Decode : Type 0 → Type 0
Decode A = Exec (CodecReader × Usage) NbtError A

abbrev pub on_usage : {A : Type 0} → Using A → Decode A
on_usage m (r, u) = ((m u).0, (r, (m u).1))

abbrev pub on_reader : {A : Type 0} → Reader A → Decode A
on_reader m (r, u) = (map_err codec (m r).0, ((m r).1, u))

abbrev pub on_both : {A : Type 0} → Decoding A → Decode A
on_both m (r, u) =
    let done = m (r, u.allocated_bytes) in
    (done.0, (done.1.0, record u { allocated_bytes = done.1.1 }))

pub first_id : String → List ℕ → Result ℕ NbtError
first_id context [] = err (codec (unexpected_end context 1 0))
first_id context (byte ∷ rest) = ok byte

unfoldable pub read_type_id : String → Decode ℕ
unfolding first_id
read_type_id context = do bytes ← on_reader (read_bytes 1 context); lift (first_id context bytes)

unfoldable pub check_collection_limit : NbtCollectionKind → ℕ → ℕ → Result (Unit {0}) NbtError
check_collection_limit kind length max =
    if ltb max length then err (collection_too_large kind length max) else ok tt

unfoldable pub collection_length_of : NbtCollectionKind → ℤ → Result ℕ NbtError
collection_length_of kind (pos n) = ok n
collection_length_of kind (negsuc n) = err (negative_collection_length kind (negsuc n))

unfoldable pub read_collection_length : NbtCollectionKind → Decode ℕ
unfolding collection_length_of
read_collection_length kind = do value ← on_reader read_i32; lift (collection_length_of kind value)

-- `for _ in 0..length { output.push(read()?) }`
unfoldable pub read_values : {A : Type 0} → Reader A → ℕ → Reader (List A)
read_values read zero = pure []
read_values read (suc n) = do value ← read; values ← read_values read n; pure (value ∷ values)

-- Whether the allocator grants a reservation: that of a string by the position of the reader before
-- the string, and that of elements by its position when they are reserved.
pub record Allocator : Type 0 where
  pub grants_string : ℕ → Bool
  pub grants_elements : ℕ → Bool

unfoldable pub reserve : Allocator → ℕ → String → Decode (Unit {0})
reserve alloc requested context (r, u) =
    if alloc.grants_elements r.position
    then (ok tt, (r, u))
    else (err (allocation_failed context requested), (r, u))

unfoldable pub read_name : Allocator → NbtLimits → Decode NbtString
unfolding NbtString.decode
read_name alloc limits (r, u) =
    on_both (NbtString.decode (alloc.grants_string r.position) limits) (r, u)

unfoldable pub check_array_length : NbtLimits → ℕ → NbtCollectionKind → ℕ → Result ℕ NbtError
unfolding check_collection_limit checked_collection_bytes
check_array_length limits count kind element_size =
    Result.◌>>=◌ (check_collection_limit kind count limits.max_array_elements)
      (λ within. checked_collection_bytes kind count element_size)

-- The loop of a list: `next` decodes an element.
unfoldable pub decode_elements : Decode NbtTag → ℕ → Decode Tags
decode_elements next zero = pure nil
decode_elements next (suc n) = do
  element ← next
  elements ← decode_elements next n
  pure (cons element elements)

module _ (layout : Layout) (alloc : Allocator) (limits : NbtLimits) where
  unfoldable pub charge : ℕ → Decode (Unit {0})
  unfolding charge_budget
  charge amount = on_usage (on_budget (charge_budget amount limits))

  unfoldable pub decode_byte_array : Decode NbtTag
  unfolding read_collection_length check_array_length charge reserve
  decode_byte_array = do
    count ← read_collection_length NbtCollectionKind.byte_array
    same_length ← lift (check_array_length limits count NbtCollectionKind.byte_array 1)
    bytes ← on_reader (read_bytes count "TAG_Byte_Array payload")
    charge count
    reserve alloc count "TAG_Byte_Array elements"
    pure (NbtTag.byte_array bytes)

  -- The arrays of words have one shape: each word of `size` bytes is read from the bytes by `read`.
  unfoldable pub decode_words :
      {A : Type 0}
      → NbtCollectionKind
      → ℕ
      → String
      → String
      → Reader A
      → (List A → NbtTag)
      → Decode NbtTag
  unfolding read_collection_length check_array_length charge reserve read_values
  decode_words kind size payload elements read tag = do
    count ← read_collection_length kind
    byte_length ← lift (check_array_length limits count kind size)
    bytes ← on_reader (read_bytes byte_length payload)
    charge byte_length
    reserve alloc count elements
    values ← lift (map_err codec (read_values read count (Reader.new bytes)).0)
    pure (tag values)

  unfoldable pub decode_int_array : Decode NbtTag
  unfolding decode_words
  decode_int_array =
      decode_words NbtCollectionKind.int_array 4 "TAG_Int_Array payload" "TAG_Int_Array elements"
        read_i32 NbtTag.int_array

  unfoldable pub decode_long_array : Decode NbtTag
  unfolding decode_words
  decode_long_array =
      decode_words NbtCollectionKind.long_array 8 "TAG_Long_Array payload" "TAG_Long_Array elements"
        read_i64 NbtTag.long_array

  unfoldable pub count_entry : ℕ → Result ℕ NbtError
  count_entry n =
      if leb usize_mod (n + 1)
      then err (
          collection_too_large NbtCollectionKind.compound (usize_mod - 1)
            limits.max_compound_entries)
      else ok (n + 1)

  unfoldable pub too_many : ℕ → NbtCompound → Decode NbtCompound
  too_many count c =
      raise (collection_too_large NbtCollectionKind.compound count limits.max_compound_entries)

  -- `self` is `decode_payload`, by the depth of the child and its type.
  module _ (self : ℕ → NbtTagType → Decode NbtTag) (depth : ℕ) where
    -- a child in a compound
    unfoldable pub child : NbtTagType → Decode NbtTag
    unfolding next_depth
    child t = do child_depth ← lift (next_depth limits depth); self child_depth t

    -- the elements of a list, and the list
    unfoldable pub list_elements : NbtTagType → ℕ → Decode NbtTag
    unfolding next_depth decode_elements new_list
    list_elements element_type count = do
      child_depth ← lift (next_depth limits depth)
      elements ← decode_elements (self child_depth element_type) count
      lift (Result.◌>>=◌ (new_list element_type elements) (λ l. ok (NbtTag.list l)))

    -- a list with elements, behind its header
    unfoldable pub filled_list : ℕ → ℕ → Decode NbtTag
    unfolding check_collection_limit checked_collection_bytes charge reserve decode_elements
        new_list
    filled_list type_id count = do
      lift (check_collection_limit NbtCollectionKind.list count limits.max_list_elements)
      element_type ← lift (ok_or (from_id type_id) (invalid_tag_id type_id))
      if same_type element_type NbtTagType.end then raise end_list_with_elements else pure tt
      allocation ← lift (checked_collection_bytes NbtCollectionKind.list count layout.nbt_tag_size)
      charge allocation
      reserve alloc count "TAG_List elements"
      list_elements element_type count

    unfoldable pub sized_list : ℕ → ℤ → Decode NbtTag
    unfolding filled_list
    sized_list type_id (pos zero) = pure (NbtTag.list (empty_with_type_id type_id))
    sized_list type_id (pos (suc n)) = filled_list type_id (suc n)
    sized_list type_id (negsuc n) = pure (NbtTag.list (empty_with_type_id type_id))

    unfoldable pub decode_list : Decode NbtTag
    unfolding read_type_id sized_list
    decode_list = do
      type_id ← read_type_id "TAG_List element type"
      signed_length ← on_reader read_i32
      sized_list type_id signed_length

    -- An entry of a compound, behind the id of its type. `rest` is what follows it.
    unfoldable pub one_entry :
        (ℕ → NbtCompound → Decode NbtCompound) → ℕ → NbtCompound → ℕ → Decode NbtCompound
    unfolding count_entry check_collection_limit charge read_name child insert
    one_entry rest wire_entries c type_id = do
      count ← lift (count_entry wire_entries)
      lift (check_collection_limit NbtCollectionKind.compound count limits.max_compound_entries)
      child_type ← lift (ok_or (from_id type_id) (invalid_tag_id type_id))
      charge (compound_entry_budget layout)
      name ← read_name alloc limits
      value ← child child_type
      rest count (insert name value c).1

    -- a round of the loop of a compound
    unfoldable pub compound_round :
        (ℕ → NbtCompound → Decode NbtCompound) → ℕ → NbtCompound → Decode NbtCompound
    unfolding read_type_id one_entry
    compound_round rest wire_entries c = do
      type_id ← read_type_id "TAG_Compound child type"
      if type_id == id NbtTagType.end then pure c else one_entry rest wire_entries c type_id

    unfoldable pub decode_entries : ℕ → ℕ → NbtCompound → Decode NbtCompound
    unfolding compound_round too_many
    decode_entries zero = compound_round too_many
    decode_entries (suc room) = compound_round (decode_entries room)

    unfoldable pub decode_compound : Decode NbtCompound
    unfolding decode_entries
    decode_compound = decode_entries limits.max_compound_entries 0 NbtCompound.empty

    abbrev pub payload_of : NbtTagType → Decode NbtTag
    payload_of NbtTagType.end = raise (unexpected_end_tag "NBT payload")
    payload_of NbtTagType.byte = do v ← on_reader read_i8; pure (NbtTag.byte v)
    payload_of NbtTagType.short = do v ← on_reader read_i16; pure (NbtTag.short v)
    payload_of NbtTagType.int = do v ← on_reader read_i32; pure (NbtTag.int v)
    payload_of NbtTagType.long = do v ← on_reader read_i64; pure (NbtTag.long v)
    payload_of NbtTagType.float = do v ← on_reader read_f32; pure (NbtTag.float v)
    payload_of NbtTagType.double = do v ← on_reader read_f64; pure (NbtTag.double v)
    payload_of NbtTagType.byte_array = decode_byte_array
    payload_of NbtTagType.string = do s ← read_name alloc limits; pure (NbtTag.string s)
    payload_of NbtTagType.list = decode_list
    payload_of NbtTagType.compound = do c ← decode_compound; pure (NbtTag.compound c)
    payload_of NbtTagType.int_array = decode_int_array
    payload_of NbtTagType.long_array = decode_long_array

  -- Behind the last level `add_tag` refuses the depth.
  unfoldable pub decode_payload : ℕ → ℕ → NbtTagType → Decode NbtTag
  unfolding add_tag
  decode_payload zero depth t = raise (depth_limit_exceeded depth limits.max_depth)
  decode_payload (suc levels) depth t = do
    on_usage (add_tag limits depth)
    payload_of (decode_payload levels) depth t
