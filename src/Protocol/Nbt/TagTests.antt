-- ===== src/Protocol/Nbt/TagTests.antt =====
-- The theorems on whole tags at concrete inputs.
use cubic.Common.{ℕ, ◌≡◌, refl, ◌≤◌, arith, true, List, [], ◌∷◌, ◌++◌}
use cubic.Common.Int.{pos, negsuc}
use cubic.Common.Result.{ok, err}
use cubic.Protocol.Writer.{write_u16}
use cubic.Protocol.Nbt.Error.{trailing_data}
use cubic.Protocol.Nbt.Limits.{default_limits, max_string_encoded_bytes}
use cubic.Protocol.Nbt.Tag.{id, from_id}
use cubic.Protocol.Nbt.NbtString.{
  NbtString, unit_width, encode_unit, encode_units, validate_encoded_length, units_of, decode_units,
  decode_unit,
}
use cubic.Protocol.Nbt.Value.{
  NbtTag, of_type_id, nil, cons, NbtCompound, entry, empty, NamedNbtRoot,
}
use cubic.Protocol.Nbt.Value.Compound.{compare_units}
use cubic.Protocol.Nbt.Value.WellFormed.{IsTag, IsCompound}
use cubic.Protocol.Nbt.Usage.{Layout}
use cubic.Protocol.Nbt.Decode.{
  Allocator, decode_payload, decode_entries, decode_compound, decode_list, list_elements,
  decode_int_array,
}
use cubic.Protocol.Nbt.Decode.Roots.{
  decode_unnamed_network_tag, decode_unnamed_network_tag_complete, decode_named_root_complete,
}
use cubic.Protocol.Nbt.Within.{decode_unnamed_network_tag-Nested}
use cubic.Protocol.Nbt.Value.Size.{tags_in, Nested}
use cubic.Protocol.Reader
use cubic.Protocol.Nbt.Decode.Stops.{decode_payload_stops}
use cubic.Protocol.Nbt.Decode.Room.{decode_entries_stops}
use cubic.Protocol.Nbt.Encode.{encode_unnamed_network_tag, encode_named_root}
use cubic.Protocol.Nbt.RoundTrip.Arrays.{Grants}
use cubic.Protocol.Nbt.RoundTrip.Whole.{decode_unnamed_network_tag-encode, trailing_bytes_refused}
use cubic.Protocol.Nbt.RoundTrip.CompoundRoots.{decode_named_root-encode}

abbrev layout : Layout
layout = record { nbt_string_size = 24; nbt_tag_size = 32 }

abbrev generous : Allocator
generous = record { grants_string = λ at. true; grants_elements = λ at. true }

generous-Grants : Grants generous
generous-Grants = record { strings = λ at. refl; elements = λ at. refl }

abbrev name : ℕ → NbtString
name unit = record { utf16_units = unit ∷ [] }

-- {a: [-1b], b: [I; 7, -2]}
abbrev fields : NbtCompound
fields =
    entry (name 0x61) (NbtTag.list (of_type_id 1 (cons (NbtTag.byte (negsuc 0)) nil)))
      (entry (name 0x62) (NbtTag.int_array (pos 7 ∷ negsuc 1 ∷ [])) empty)

abbrev tree : NbtTag
tree = NbtTag.compound fields

abbrev fields_bytes : List ℕ
fields_bytes =
    9 ∷ 0 ∷ 1 ∷ 0x61 ∷ 1 ∷ 0 ∷ 0 ∷ 0 ∷ 1 ∷ 255 ∷ 11 ∷ 0 ∷ 1 ∷ 0x62 ∷ 0 ∷ 0 ∷ 0 ∷ 2 ∷ 0 ∷ 0 ∷ 0 ∷ 7
    ∷ 255 ∷ 255 ∷ 255 ∷ 254 ∷ 0 ∷ []

fields-IsCompound : IsCompound fields
unfolding IsTag compare_units
fields-IsCompound = (
  (omega arith, tt),
  (omega arith, (omega arith, tt)),
  (refl, tt),
  ((omega arith, tt), (omega arith, (omega arith, tt)), tt, tt),
)

tree-IsTag : IsTag tree
unfolding IsTag
tree-IsTag = fields-IsCompound

tree_encoded : encode_unnamed_network_tag layout default_limits tree ≡ ok (10 ∷ fields_bytes)
unfolding encode_unnamed_network_tag max_string_encoded_bytes unit_width id encode_units encode_unit
    write_u16 from_id
tree_encoded = refl

abbrev named : NamedNbtRoot
named = record { name = name 0x2e; root = fields }

named_encoded :
    encode_named_root layout default_limits named ≡ ok (10 ∷ 0 ∷ 1 ∷ 0x2e ∷ fields_bytes)
unfolding encode_named_root max_string_encoded_bytes unit_width id encode_units encode_unit
    write_u16 from_id
named_encoded = refl

tag_round_trip_example :
    decode_unnamed_network_tag_complete layout generous default_limits (10 ∷ fields_bytes) ≡ ok tree
tag_round_trip_example =
    decode_unnamed_network_tag-encode layout generous default_limits generous-Grants (omega arith)
      tree (10 ∷ fields_bytes) tree-IsTag (omega arith) tree_encoded

trailing_example :
    decode_unnamed_network_tag_complete layout generous default_limits
      ((10 ∷ fields_bytes) ++ (1 ∷ 2 ∷ []))
    ≡ err (trailing_data 2)
trailing_example =
    trailing_bytes_refused layout generous default_limits generous-Grants (omega arith) tree
      (10 ∷ fields_bytes) 1 (2 ∷ []) tree-IsTag (omega arith) tree_encoded

named_root_example :
    decode_named_root_complete layout generous default_limits (10 ∷ 0 ∷ 1 ∷ 0x2e ∷ fields_bytes)
    ≡ ok named
named_root_example =
    decode_named_root-encode layout generous default_limits generous-Grants (omega arith) named
      (10 ∷ 0 ∷ 1 ∷ 0x2e ∷ fields_bytes) (omega arith, tt) fields-IsCompound (omega arith)
      named_encoded

tree_decoded :
    (decode_unnamed_network_tag layout generous default_limits (Reader.new (10 ∷ fields_bytes))).0
    ≡ ok tree
unfolding decode_unnamed_network_tag max_string_encoded_bytes id from_id compare_units
    Reader.read_bytes decode_compound Reader.read_u16 validate_encoded_length units_of decode_units
    decode_unit decode_list Reader.read_i32 list_elements Reader.read_i8 decode_int_array
tree_decoded = refl

tag_limits_example :
    (tags_in tree ≤ default_limits.max_total_tags) × Nested default_limits.max_depth 0 tree
tag_limits_example =
    decode_unnamed_network_tag-Nested layout generous default_limits
      (Reader.new (10 ∷ fields_bytes)) tree tree_decoded

payload_stops_example :
    decode_payload layout generous default_limits 66 0
    ≡ decode_payload layout generous default_limits 65 0
payload_stops_example = decode_payload_stops layout generous default_limits 65 0 (omega arith)

entries_stops_example :
    decode_entries layout generous default_limits
      (decode_payload layout generous default_limits 64)
      0
      4097
      0
    ≡ decode_entries layout generous default_limits
        (decode_payload layout generous default_limits 64)
        0
        4096
        0
entries_stops_example =
    decode_entries_stops layout generous default_limits
      (decode_payload layout generous default_limits 64) 0 4096 0 (omega arith)
