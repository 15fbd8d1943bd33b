-- ===== src/Protocol/Nbt/Decode/Roots.antt =====
-- nbt/decode.rs: the public entry points, each on the rest of a reader and on a whole input.
use cubic.Common.{ℕ, suc, ◌==◌, if◌then◌else◌, List}
use cubic.Common.Result.{Result, ok, err, ok_or}
use cubic.Common.Exec.{Exec, pure, raise, lift, ◌>>=◌, ◌>>◌}
use cubic.Protocol.Reader.{CodecReader, remaining}
use cubic.Protocol.Reader
use cubic.Protocol.Nbt.Error.{
  NbtError, invalid_tag_id, unexpected_end_tag, invalid_root_type, trailing_data,
}
use cubic.Protocol.Nbt.Tag.{NbtTagType, from_id, id}
use cubic.Protocol.Nbt.Limits.{NbtLimits}
use cubic.Protocol.Nbt.Value.{NbtTag, NbtCompound, NamedNbtRoot}
use cubic.Protocol.Nbt.Usage.{Layout, add_tag}
use cubic.Protocol.Nbt.Usage
use cubic.Protocol.Nbt.Decode.{
  Decode, Allocator, on_usage, read_type_id, read_name, decode_compound, decode_payload,
}

-- a method on the reader alone, which makes its own context
abbrev pub fresh : {A : Type 0} → Decode A → Exec CodecReader NbtError A
fresh m r = ((m (r, Usage.new)).0, (m (r, Usage.new)).1.0)

unfoldable pub require_compound_root : Decode (Unit {0})
unfolding read_type_id
require_compound_root = do
  found ← read_type_id "NBT root type"
  if found == id NbtTagType.end
      then raise (unexpected_end_tag "NBT root")
      else if found == id NbtTagType.compound
      then pure tt
      else raise (invalid_root_type found)

unfoldable pub reject_trailing : CodecReader → Result (Unit {0}) NbtError
unfolding remaining
reject_trailing r = if remaining r == 0 then ok tt else err (trailing_data (remaining r))

-- a whole input: nothing may be left behind the value
unfoldable pub complete : {A : Type 0} → Exec CodecReader NbtError A → List ℕ → Result A NbtError
unfolding reject_trailing
complete decode input =
    ((do value ← decode; (λ r. (reject_trailing r, r)); pure value) (Reader.new input)).0

module _ (layout : Layout) (alloc : Allocator) (limits : NbtLimits) where
  -- the compound of a root, at depth 0, whose children have `max_depth` levels
  unfoldable pub root_compound : Decode NbtCompound
  unfolding decode_compound decode_payload
  root_compound =
      decode_compound layout alloc limits (decode_payload layout alloc limits limits.max_depth) 0

  unfoldable pub decode_named_root : Exec CodecReader NbtError NamedNbtRoot
  unfolding require_compound_root add_tag read_name root_compound
  decode_named_root = fresh (do
    require_compound_root
    on_usage (add_tag limits 0)
    name ← read_name alloc limits
    c ← root_compound
    pure (record { name = name; root = c }))

  unfoldable pub decode_unnamed_network_root : Exec CodecReader NbtError NbtCompound
  unfolding require_compound_root add_tag root_compound
  decode_unnamed_network_root =
      fresh (do require_compound_root; on_usage (add_tag limits 0); root_compound)

  unfoldable pub decode_unnamed_network_tag : Exec CodecReader NbtError NbtTag
  unfolding read_type_id decode_payload
  decode_unnamed_network_tag = fresh (do
    found ← read_type_id "NBT root type"
    if found == id NbtTagType.end then raise (unexpected_end_tag "NBT root") else pure tt
    t ← lift (ok_or (from_id found) (invalid_tag_id found))
    decode_payload layout alloc limits (suc limits.max_depth) 0 t)

  unfoldable pub decode_named_root_complete : List ℕ → Result NamedNbtRoot NbtError
  unfolding complete decode_named_root
  decode_named_root_complete = complete decode_named_root

  unfoldable pub decode_unnamed_network_root_complete : List ℕ → Result NbtCompound NbtError
  unfolding complete decode_unnamed_network_root
  decode_unnamed_network_root_complete = complete decode_unnamed_network_root

  unfoldable pub decode_unnamed_network_tag_complete : List ℕ → Result NbtTag NbtError
  unfolding complete decode_unnamed_network_tag
  decode_unnamed_network_tag_complete = complete decode_unnamed_network_tag
