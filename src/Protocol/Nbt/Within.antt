-- ===== src/Protocol/Nbt/Within.antt =====
-- The decoder of tags keeps to the limits on the number of tags and on their depth.
pub mod Counting
pub mod Steps
pub mod Children
use cubic.Common.{
  ℕ, zero, suc, ◌+◌, ◌≤◌, ◌<◌, ◌≡◌, refl, sym, ap, subst, ◌∙◌, arith, inl, inr, ltb, leb,
  Bool-cases, ◌==◌, if◌then◌else◌, if_cases, List, [], ◌∷◌, String,
}
use cubic.Common.Int.{ℤ, pos, negsuc}
use cubic.Common.Result
use cubic.Common.Result.{Result, ok, err, ok_or, map_err, then-ok, ok_injective}
use cubic.Common.Exec.{pure, raise, lift, ◌>>=◌, ◌>>◌}
use cubic.Protocol.Reader.{
  CodecReader, Reader, read_bytes, read_i8, read_i16, read_i32, read_i64, read_f32, read_f64,
}
use cubic.Protocol.Reader
use cubic.Protocol.Nbt.Tag.{NbtTagType, id, from_id}
use cubic.Protocol.Nbt.Error.{
  NbtError, NbtCollectionKind, codec, invalid_tag_id, end_list_with_elements, unexpected_end_tag,
  invalid_root_type,
}
use cubic.Protocol.Nbt.Limits.{NbtLimits}
use cubic.Protocol.Nbt.Value.{
  NbtTag, NbtList, of_type_id, Tags, nil, cons, NbtCompound, NamedNbtRoot, empty, new_list,
  validate_list, same_type, empty_with_type_id,
}
use cubic.Protocol.Nbt.Value.Compound.{insert}
use cubic.Protocol.Nbt.Value.Size.{
  tags_in, tags_in_elements, tags_in_entries, Nested, NestedElements, NestedEntries,
  tags_in-inserted, inserted-NestedEntries,
}
use cubic.Protocol.Nbt.Usage
use cubic.Protocol.Nbt.Usage.{
  Usage, Layout, compound_entry_budget, add_tag, next_depth, checked_collection_bytes,
}
use cubic.Protocol.Nbt.Encode.Checked.{next_depth-ok}
use cubic.Protocol.Nbt.Within.Counting.{
  Counts, Quiet, Quiet-bind, Counts-bind, Counts-pure, Counts-then, Counts-lift, Counts-lifted,
  Counts-more, Counts-credit,
}
use cubic.Protocol.Nbt.Decode.{
  Decode, Allocator, child, list_elements, decode_elements, filled_list, sized_list, decode_list,
  one_entry, count_entry, compound_round, too_many, read_type_id, on_reader, on_usage, first_id,
  check_collection_limit, charge, read_name, decode_entries, decode_compound, payload_of,
  decode_payload, read_collection_length, check_array_length, reserve, decode_byte_array,
  decode_words, decode_int_array, decode_long_array, read_values, collection_length_of,
}
use cubic.Protocol.Nbt.Decode.Roots.{
  fresh, require_compound_root, root_compound, decode_named_root, decode_unnamed_network_tag,
}
use cubic.Protocol.Nbt.Within.Steps.{
  Counts-raise, reserve-Quiet, type_id-Quiet, length-Quiet, name-Quiet, add_tag-Counts,
  elements-Counts, new_list-ok,
}
use cubic.Protocol.Nbt.Within.Children.{entries-Counts, list-Counts, compound-Counts}

module _ (layout : Layout) (alloc : Allocator) (limits : NbtLimits) where
  -- `self` counts the children at the depth below.
  module _ (self : ℕ → NbtTagType → Decode NbtTag) (depth : ℕ) (here : depth ≤ limits.max_depth)
      (h : (t : NbtTagType)
        → Counts limits.max_total_tags
            (self (depth + 1) t)
            0
            tags_in
            (Nested limits.max_depth (depth + 1))) where
    -- a value that holds no tags
    leaf-Counts :
        {A : Type 0} (m : Decode A) (f : A → NbtTag)
        → Quiet m
        → ((a : A) → (tags_in (f a) ≤ 1) × Nested limits.max_depth depth (f a))
        → Counts limits.max_total_tags
            (m >>= λ a. pure (f a))
            1
            tags_in
            (Nested limits.max_depth depth)
    leaf-Counts m f q k = Counts-then _ 1 _ _ m _ q (λ a. Counts-pure _ 1 _ _ (f a) (k a).0 (k a).1)

    words-Counts :
        {A : Type 0} (kind : NbtCollectionKind) (size : ℕ) (payload context : String)
        (read : Reader A) (tag : List A → NbtTag)
        → ((vs : List A) → (tags_in (tag vs) ≤ 1) × Nested limits.max_depth depth (tag vs))
        → Counts limits.max_total_tags
            (decode_words layout alloc limits kind size payload context read tag)
            1
            tags_in
            (Nested limits.max_depth depth)
    unfolding decode_words charge
    words-Counts kind size payload context read tag k =
        Counts-then _ 1 _ _ (read_collection_length kind) _
          ((length-Quiet layout alloc limits) kind)
          (λ count. Counts-lift _ 1 _ _ (check_array_length limits count kind size) _ (λ bytes e.
            Counts-then _ 1 _ _ (on_reader (read_bytes bytes payload)) _ (λ r u. refl)
              (λ read_bytes.
                Counts-then _ 1 _ _ (charge layout alloc limits bytes) _ (λ r u. refl)
                  (λ a.
                    Counts-then _ 1 _ _ (reserve alloc count context) _
                      ((reserve-Quiet layout alloc limits) count context)
                      (λ a.
                        leaf-Counts
                          (lift (map_err codec (read_values read count (Reader.new read_bytes)).0))
                          tag (λ r u. refl) k)))))

    bytes-Counts :
        Counts limits.max_total_tags
          (decode_byte_array layout alloc limits)
          1
          tags_in
          (Nested limits.max_depth depth)
    unfolding decode_byte_array charge tags_in Nested
    bytes-Counts =
        Counts-then _ 1 _ _ (read_collection_length NbtCollectionKind.byte_array) _
          ((length-Quiet layout alloc limits) NbtCollectionKind.byte_array)
          (λ count.
            Counts-lift _ 1 _ _ (check_array_length limits count NbtCollectionKind.byte_array 1) _
              (λ same e.
                Counts-then _ 1 _ _ (on_reader (read_bytes count "TAG_Byte_Array payload")) _
                  (λ r u. refl)
                  (λ bytes.
                    Counts-then _ 1 _ _ (charge layout alloc limits count) _ (λ r u. refl)
                      (λ a.
                        Counts-then _ 1 _ _ (reserve alloc count "TAG_Byte_Array elements") _
                          ((reserve-Quiet layout alloc limits) count "TAG_Byte_Array elements")
                          (λ a.
                            Counts-pure _ 1 _ _ (NbtTag.byte_array bytes) (omega arith) here)))))

    payload-Counts :
        (t : NbtTagType)
        → Counts limits.max_total_tags
            (payload_of layout alloc limits self depth t)
            1
            tags_in
            (Nested limits.max_depth depth)
    unfolding tags_in Nested decode_int_array decode_long_array
    payload-Counts NbtTagType.list = (list-Counts layout alloc limits self depth here h)
    payload-Counts NbtTagType.compound = (compound-Counts layout alloc limits self depth here h)
    payload-Counts NbtTagType.end = Counts-raise _ _ _ _ (unexpected_end_tag "NBT payload")
    payload-Counts NbtTagType.byte =
        leaf-Counts (on_reader read_i8) NbtTag.byte (λ r u. refl) (λ a. (omega arith, here))
    payload-Counts NbtTagType.short =
        leaf-Counts (on_reader read_i16) NbtTag.short (λ r u. refl) (λ a. (omega arith, here))
    payload-Counts NbtTagType.int =
        leaf-Counts (on_reader read_i32) NbtTag.int (λ r u. refl) (λ a. (omega arith, here))
    payload-Counts NbtTagType.long =
        leaf-Counts (on_reader read_i64) NbtTag.long (λ r u. refl) (λ a. (omega arith, here))
    payload-Counts NbtTagType.float =
        leaf-Counts (on_reader read_f32) NbtTag.float (λ r u. refl) (λ a. (omega arith, here))
    payload-Counts NbtTagType.double =
        leaf-Counts (on_reader read_f64) NbtTag.double (λ r u. refl) (λ a. (omega arith, here))
    payload-Counts NbtTagType.byte_array = bytes-Counts
    payload-Counts NbtTagType.string =
        leaf-Counts (read_name alloc limits) NbtTag.string (name-Quiet layout alloc limits)
          (λ a. (omega arith, here))
    payload-Counts NbtTagType.int_array =
        words-Counts NbtCollectionKind.int_array 4 "TAG_Int_Array payload" "TAG_Int_Array elements"
          read_i32 NbtTag.int_array (λ vs. (omega arith, here))
    payload-Counts NbtTagType.long_array =
        words-Counts NbtCollectionKind.long_array 8 "TAG_Long_Array payload"
          "TAG_Long_Array elements" read_i64 NbtTag.long_array (λ vs. (omega arith, here))

  pub decode_payload-Counts :
      (levels depth : ℕ) (t : NbtTagType)
      → Counts limits.max_total_tags
          (decode_payload layout alloc limits levels depth t)
          0
          tags_in
          (Nested limits.max_depth depth)
  unfolding decode_payload
  decode_payload-Counts zero depth t = Counts-raise _ _ _ _ _
  decode_payload-Counts (suc levels) depth t =
      Counts-bind _ (on_usage (add_tag limits depth)) _ 0 (λ a. 1) (λ a. depth ≤ limits.max_depth) _
        _ ((add_tag-Counts layout alloc limits) depth)
        (λ a here.
          payload-Counts (decode_payload layout alloc limits levels) depth here
            (decode_payload-Counts levels (depth + 1)) t)

  root-Quiet : Quiet require_compound_root
  unfolding require_compound_root
  root-Quiet =
      Quiet-bind (read_type_id "NBT root type")
        (λ found.
          if found == id NbtTagType.end
          then raise (unexpected_end_tag "NBT root")
          else if found == id NbtTagType.compound
          then pure tt
          else raise (invalid_root_type found))
        (type_id-Quiet layout alloc limits "NBT root type") (λ found r u. ground arith)

  -- with a usage of its own
  fresh-Counts :
      {A : Type 0} (m : Decode A) (cost : A → ℕ) (P : A → Type 0)
      → Counts limits.max_total_tags m 0 cost P
      → (r : CodecReader) (a : A) → (fresh m r).0 ≡ ok a
      → (cost a ≤ limits.max_total_tags) × P a
  fresh-Counts m cost P h r a e =
      let (made, holds) = h.counted r Usage.new a e in
      let within = h.within r Usage.new (omega arith) in (omega (arith, made, within), holds)

  -- A tag that the decoder of network tags returns is made of no more tags than the limit on their
  -- number allows, and it is nested no deeper than the limit on the depth allows, whatever the bytes
  -- are and whatever the allocator grants.
  pub decode_unnamed_network_tag-Nested :
      (r : CodecReader) (t : NbtTag)
      → (decode_unnamed_network_tag layout alloc limits r).0 ≡ ok t
      → (tags_in t ≤ limits.max_total_tags) × Nested limits.max_depth 0 t
  unfolding decode_unnamed_network_tag
  decode_unnamed_network_tag-Nested r t e =
      fresh-Counts _ tags_in (Nested limits.max_depth 0)
        (Counts-then _ 0 _ _ (read_type_id "NBT root type") _
          (type_id-Quiet layout alloc limits "NBT root type")
          (λ found.
            Counts-then _ 0 _ _
              (if found == id NbtTagType.end
                then raise (unexpected_end_tag "NBT root")
                else pure tt)
              _ (λ r u. ground arith)
              (λ a.
                Counts-lift _ 0 _ _ (ok_or (from_id found) (invalid_tag_id found)) _
                  (λ type e. decode_payload-Counts (suc limits.max_depth) 0 type))))
        r t e

  -- The root of a named compound and all that it holds are no more tags than the limit on their
  -- number allows, and its values are nested no deeper than the limit on the depth allows.
  pub decode_named_root-Nested :
      (r : CodecReader) (root : NamedNbtRoot)
      → (decode_named_root layout alloc limits r).0 ≡ ok root
      → (tags_in (NbtTag.compound root.root) ≤ limits.max_total_tags)
        × Nested limits.max_depth 0 (NbtTag.compound root.root)
  unfolding decode_named_root root_compound decode_compound tags_in Nested
  decode_named_root-Nested r root e =
      fresh-Counts _ (λ n. tags_in (NbtTag.compound n.root))
        (λ n. Nested limits.max_depth 0 (NbtTag.compound n.root))
        (Counts-then _ 0 _ _ require_compound_root _ root-Quiet (λ a.
          Counts-bind _ (on_usage (add_tag limits 0)) _ 0 (λ a. 1) (λ a. 0 ≤ limits.max_depth) _ _
            (add_tag-Counts layout alloc limits 0)
            (λ a here.
              Counts-then _ 1 _ _ (read_name alloc limits) _ (name-Quiet layout alloc limits)
                (λ name.
                  Counts-bind _ (root_compound layout alloc limits) _ 1 (λ c. tags_in_entries c + 1)
                    (NestedEntries limits.max_depth 1) _ _
                    (Counts-more _ 0 _ _ _ 1 1 (omega arith) (
                      entries-Counts layout alloc limits
                        (decode_payload layout alloc limits limits.max_depth) 0 here
                        (decode_payload-Counts limits.max_depth 1) limits.max_compound_entries 0
                        empty tt))
                    (λ c hc.
                      Counts-pure _ _ _ _ (record { name = name; root = c }) (omega arith)
                        (here, hc))))))
        r root e
