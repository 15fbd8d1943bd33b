-- ===== src/Protocol/Nbt/Decode/Stops.antt =====
-- The decoder of tags stops: the levels and the room that it starts with are never used up.
use cubic.Common.{ℕ, zero, suc, ◌+◌, ◌<◌, ◌≡◌, refl, ap, ◌∙◌, arith, inl, inr, lt→ltb}
use cubic.Common.Exec.{pure, go_on, lift, ◌>>=◌, ◌>>◌}
use cubic.Common.Result
use cubic.Common.Result.{Result, ok, err, ok_or, Result-cases}
use cubic.Protocol.Reader.{CodecReader, read_i32}
use cubic.Protocol.Nbt.Tag.{NbtTagType, id, from_id}
use cubic.Protocol.Nbt.Error.{NbtCollectionKind, invalid_tag_id, depth_limit_exceeded}
use cubic.Protocol.Nbt.Value.Compound.{insert}
use cubic.Common.Int.{ℤ, pos, negsuc}
use cubic.Common.{if◌then◌else◌, ◌==◌}
use cubic.Protocol.Nbt.Limits.{NbtLimits}
use cubic.Protocol.Nbt.Value.{new_list, NbtTag, NbtCompound, empty}
use cubic.Protocol.Nbt.Usage.{Usage, Layout, compound_entry_budget, add_tag, next_depth}
use cubic.Protocol.Nbt.Encode.Checked.{next_depth-ok}
use cubic.Protocol.Nbt.Decode.{
  Decode, Allocator, child, list_elements, decode_elements, filled_list, sized_list, decode_list,
  one_entry, count_entry, compound_round, too_many, read_type_id, on_reader, on_usage,
  check_collection_limit, charge, read_name, decode_entries, decode_compound, payload_of,
  decode_payload,
}

module _ (layout : Layout) (alloc : Allocator) (limits : NbtLimits) where
  -- Two functions for the children that agree a level below are the same to a tag.
  module _ (self other : ℕ → NbtTagType → Decode NbtTag) (depth : ℕ)
      (h : self (depth + 1) ≡ other (depth + 1)) where
    -- what follows the next depth
    deeper_stops :
        {B : Type 0} (f : (NbtTagType → Decode NbtTag) → Decode B)
        → (lift (next_depth limits depth) >>= λ d. f (self d))
          ≡ (lift (next_depth limits depth) >>= λ d. f (other d))
    deeper_stops f i s =
        elim (Result-cases (next_depth limits depth))
            as (λ c.
              go_on (λ d. f (self d)) (next_depth limits depth) s
              ≡ go_on (λ d. f (other d)) (next_depth limits depth) s) [
                | inl (d, e) ↦
                    let below : next_depth limits depth ≡ ok (depth + 1) =
                      e ∙ ap ok (next_depth-ok limits depth d e) in
                    rw below (ap (λ g. f g s) h)
                | inr (x, e) ↦ rw e refl
              ]
          i

    child_stops : child layout alloc limits self depth ≡ child layout alloc limits other depth
    unfolding child
    child_stops i t = deeper_stops (λ g. g t) i

    list_elements_stops :
        list_elements layout alloc limits self depth ≡ list_elements layout alloc limits other depth
    unfolding list_elements
    list_elements_stops i t n =
        deeper_stops
          (λ g. decode_elements (g t) n >>= λ es.
            lift (Result.◌>>=◌ (new_list t es) (λ l. ok (NbtTag.list l))))
          i

    filled_stops :
        (t n : ℕ)
        → filled_list layout alloc limits self depth t n
          ≡ filled_list layout alloc limits other depth t n
    unfolding filled_list
    filled_stops t n = rw list_elements_stops refl

    sized_stops :
        (t : ℕ) (z : ℤ)
        → sized_list layout alloc limits self depth t z
          ≡ sized_list layout alloc limits other depth t z
    unfolding sized_list
    sized_stops t (pos zero) = refl
    sized_stops t (pos (suc n)) = filled_stops t (suc n)
    sized_stops t (negsuc n) = refl

    list_stops :
        decode_list layout alloc limits self depth ≡ decode_list layout alloc limits other depth
    unfolding decode_list
    list_stops i =
        read_type_id "TAG_List element type" >>= λ t. on_reader read_i32 >>= λ z. sized_stops t z i

    entry_stops :
        (rest : ℕ → NbtCompound → Decode NbtCompound) (n : ℕ) (c : NbtCompound) (t : ℕ)
        → one_entry layout alloc limits self depth rest n c t
          ≡ one_entry layout alloc limits other depth rest n c t
    unfolding one_entry
    entry_stops rest n c t i = do
      count ← lift (count_entry layout alloc limits n)
      lift (check_collection_limit NbtCollectionKind.compound count limits.max_compound_entries)
      child_type ← lift (ok_or (from_id t) (invalid_tag_id t))
      charge layout alloc limits (compound_entry_budget layout)
      name ← read_name alloc limits
      value ← child_stops i child_type
      rest count (insert name value c).1

    round_stops :
        (rest : ℕ → NbtCompound → Decode NbtCompound)
        → compound_round layout alloc limits self depth rest
          ≡ compound_round layout alloc limits other depth rest
    unfolding compound_round
    round_stops rest i n c = read_type_id "TAG_Compound child type" >>= λ t.
        if t == id NbtTagType.end then pure c else entry_stops rest n c t i

    entries_stops :
        (room : ℕ)
        → decode_entries layout alloc limits self depth room
          ≡ decode_entries layout alloc limits other depth room
    unfolding decode_entries
    entries_stops zero = round_stops (too_many layout alloc limits)
    entries_stops (suc room) =
        round_stops (decode_entries layout alloc limits self depth room)
        ∙ ap (compound_round layout alloc limits other depth) (entries_stops room)

    compound_stops :
        payload_of layout alloc limits self depth NbtTagType.compound
        ≡ payload_of layout alloc limits other depth NbtTagType.compound
    unfolding decode_compound
    compound_stops i =
        entries_stops limits.max_compound_entries i 0 empty >>= λ c. pure (NbtTag.compound c)

    payload_stops :
        (t : NbtTagType)
        → payload_of layout alloc limits self depth t ≡ payload_of layout alloc limits other depth t
    unfolding decode_compound
    payload_stops NbtTagType.list = list_stops
    payload_stops NbtTagType.compound = compound_stops
    payload_stops NbtTagType.end = refl
    payload_stops NbtTagType.byte = refl
    payload_stops NbtTagType.short = refl
    payload_stops NbtTagType.int = refl
    payload_stops NbtTagType.long = refl
    payload_stops NbtTagType.float = refl
    payload_stops NbtTagType.double = refl
    payload_stops NbtTagType.byte_array = refl
    payload_stops NbtTagType.string = refl
    payload_stops NbtTagType.int_array = refl
    payload_stops NbtTagType.long_array = refl

  too_deep :
      (depth : ℕ) (u : Usage)
      → limits.max_depth < depth
      → add_tag limits depth u ≡ (err (depth_limit_exceeded depth limits.max_depth), u)
  unfolding add_tag
  too_deep depth u h = rw (lt→ltb limits.max_depth depth h) refl

  unreached :
      (depth : ℕ) (t : NbtTagType) (s : CodecReader × Usage)
      → limits.max_depth < depth
      → decode_payload layout alloc limits 1 depth t s
        ≡ decode_payload layout alloc limits 0 depth t s
  unfolding decode_payload
  unreached depth t (r, u) h = rw (too_deep depth u h) refl

  deepest :
      (depth : ℕ)
      → limits.max_depth < depth
      → decode_payload layout alloc limits 1 depth ≡ decode_payload layout alloc limits 0 depth
  deepest depth h i t s = unreached depth t s h i

  below_stops :
      (levels depth : ℕ)
      → decode_payload layout alloc limits (suc levels) (depth + 1)
        ≡ decode_payload layout alloc limits levels (depth + 1)
      → decode_payload layout alloc limits (suc (suc levels)) depth
        ≡ decode_payload layout alloc limits (suc levels) depth
  unfolding decode_payload
  below_stops levels depth h i t =
      on_usage (add_tag limits depth)
      >> payload_stops (decode_payload layout alloc limits (suc levels))
          (decode_payload layout alloc limits levels) depth h t i

  -- The levels of children that are left are enough for the depths that the limit allows: with one
  -- level more, the decoder of payloads does the same on every input.
  pub decode_payload_stops :
      (levels depth : ℕ)
      → limits.max_depth < levels + depth
      → decode_payload layout alloc limits (suc levels) depth
        ≡ decode_payload layout alloc limits levels depth
  decode_payload_stops zero depth h = deepest depth (omega (arith, h))
  decode_payload_stops (suc levels) depth h =
      below_stops levels depth (decode_payload_stops levels (depth + 1) (omega (arith, h)))
