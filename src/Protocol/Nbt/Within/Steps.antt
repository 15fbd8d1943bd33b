-- ===== src/Protocol/Nbt/Within/Steps.antt =====
-- The steps of the decoder of tags that count no tag or one, and the elements of a list.
use cubic.Common.{ℕ, zero, suc, ◌+◌, ◌≤◌, ◌≡◌, refl, arith, String}
use cubic.Common.Result.{ok, err, then-ok, ok_injective}
use cubic.Common.Exec.{raise, lift}
use cubic.Protocol.Reader.{read_bytes, read_i32}
use cubic.Protocol.Nbt.Tag.{NbtTagType, id}
use cubic.Protocol.Nbt.Error.{NbtError, NbtCollectionKind}
use cubic.Protocol.Nbt.Limits.{NbtLimits}
use cubic.Protocol.Nbt.Value.{NbtTag, NbtList, of_type_id, Tags, nil, cons, new_list, validate_list}
use cubic.Protocol.Nbt.Value.Size.{tags_in, tags_in_elements, Nested, NestedElements}
use cubic.Protocol.Nbt.Usage.{Layout, add_tag}
use cubic.Protocol.Nbt.Within.Counting.{
  Counts, Quiet, Quiet-bind, Counts-bind, Counts-pure, Counts-lifted, Counts-more,
}
use cubic.Protocol.Nbt.Decode.{
  Decode, Allocator, decode_elements, read_type_id, on_reader, on_usage, first_id, read_name,
  read_collection_length, reserve, collection_length_of,
}

module _ (max : ℕ) {B : Type 0} (n : ℕ) (d : B → ℕ) (Q : B → Type 0) where
  -- a step that always fails
  pub Counts-raise : (x : NbtError) → Counts max (raise x) n d Q
  Counts-raise x = Counts-lifted max n d Q (err x) (λ b e. absurd (ground (arith, e)))

module _ (layout : Layout) (alloc : Allocator) (limits : NbtLimits) where
  pub reserve-Quiet : (requested : ℕ) (context : String) → Quiet (reserve alloc requested context)
  unfolding reserve
  reserve-Quiet requested context r u = ground arith

  pub type_id-Quiet : (context : String) → Quiet (read_type_id context)
  unfolding read_type_id
  type_id-Quiet context =
      Quiet-bind (on_reader (read_bytes 1 context)) (λ bytes. lift (first_id context bytes))
        (λ r u. refl) (λ a r u. refl)

  pub length-Quiet : (kind : NbtCollectionKind) → Quiet (read_collection_length kind)
  unfolding read_collection_length
  length-Quiet kind =
      Quiet-bind (on_reader read_i32) (λ z. lift (collection_length_of kind z)) (λ r u. refl)
        (λ a r u. refl)

  pub name-Quiet : Quiet (read_name alloc limits)
  unfolding read_name
  name-Quiet r u = refl

  pub add_tag-Counts :
      (depth : ℕ)
      → Counts limits.max_total_tags
          (on_usage (add_tag limits depth))
          0
          (λ t. 1)
          (λ t. depth ≤ limits.max_depth)
  unfolding add_tag
  add_tag-Counts depth = record {
    within = λ r u w. ground (arith, w);
    counted = λ r u a e. ground (arith, e);
  }

  -- the elements of a list, at the depth of a child
  pub elements-Counts :
      (next : Decode NbtTag) (depth : ℕ)
      → Counts limits.max_total_tags next 0 tags_in (Nested limits.max_depth depth)
      → (n : ℕ)
      → Counts limits.max_total_tags
          (decode_elements next n)
          0
          tags_in_elements
          (NestedElements limits.max_depth depth)
  unfolding decode_elements tags_in_elements NestedElements
  elements-Counts next depth h zero = Counts-pure _ 0 _ _ nil (omega arith) tt
  elements-Counts next depth h (suc n) =
      Counts-bind _ next _ 0 tags_in (Nested limits.max_depth depth) _ _ h (λ e he.
        Counts-bind _ (decode_elements next n) _ (tags_in e) (λ es. tags_in_elements es + tags_in e)
          (NestedElements limits.max_depth depth) _ _
          (Counts-more _ 0 _ _ (decode_elements next n) (tags_in e) (tags_in e) (omega arith)
            (elements-Counts next depth h n))
          (λ es hes. Counts-pure _ _ _ _ (cons e es) (omega arith) (he, hes)))

  pub new_list-ok :
      (t : NbtTagType) (es : Tags) (l : NbtList) → new_list t es ≡ ok l → of_type_id (id t) es ≡ l
  unfolding new_list
  new_list-ok t es l e =
      let (a, p, q) = then-ok (validate_list (id t) es) _ l e in ok_injective _ _ q
