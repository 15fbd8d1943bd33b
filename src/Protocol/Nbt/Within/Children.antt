-- ===== src/Protocol/Nbt/Within/Children.antt =====
-- The decoders of lists and compounds, whose children are counted a level below.
use cubic.Common.{
  ℕ, zero, suc, ◌+◌, ◌≤◌, ◌≡◌, refl, sym, ap, subst, ◌∙◌, arith, ◌==◌, if◌then◌else◌, if_cases,
}
use cubic.Common.Int.{ℤ, pos, negsuc}
use cubic.Common.Result.{ok_or, then-ok, ok_injective}
use cubic.Common.Exec.{pure, raise, lift, ◌>>=◌}
use cubic.Protocol.Reader.{read_i32}
use cubic.Protocol.Nbt.Tag.{NbtTagType, id, from_id}
use cubic.Protocol.Nbt.Error.{NbtCollectionKind, invalid_tag_id, end_list_with_elements}
use cubic.Protocol.Nbt.Limits.{NbtLimits}
use cubic.Protocol.Nbt.Value.{
  NbtTag, of_type_id, NbtCompound, empty, new_list, same_type, empty_with_type_id,
}
use cubic.Protocol.Nbt.Value.Compound.{insert}
use cubic.Protocol.Nbt.Value.Size.{
  tags_in, tags_in_elements, tags_in_entries, Nested, NestedElements, NestedEntries,
  tags_in-inserted, inserted-NestedEntries,
}
use cubic.Protocol.Nbt.Usage.{Layout, compound_entry_budget, next_depth, checked_collection_bytes}
use cubic.Protocol.Nbt.Encode.Checked.{next_depth-ok}
use cubic.Protocol.Nbt.Within.Counting.{
  Counts, Counts-bind, Counts-pure, Counts-then, Counts-lift, Counts-lifted, Counts-more,
  Counts-credit,
}
use cubic.Protocol.Nbt.Decode.{
  Decode, Allocator, child, list_elements, decode_elements, filled_list, sized_list, decode_list,
  one_entry, count_entry, compound_round, too_many, read_type_id, on_reader, check_collection_limit,
  charge, read_name, decode_entries, decode_compound, payload_of, reserve,
}
use cubic.Protocol.Nbt.Within.Steps.{
  Counts-raise, reserve-Quiet, type_id-Quiet, name-Quiet, elements-Counts, new_list-ok,
}

module _ (layout : Layout) (alloc : Allocator) (limits : NbtLimits) where
  -- `self` counts the children at the depth below.
  module _ (self : ℕ → NbtTagType → Decode NbtTag) (depth : ℕ) (here : depth ≤ limits.max_depth)
      (h : (t : NbtTagType)
        → Counts limits.max_total_tags
            (self (depth + 1) t)
            0
            tags_in
            (Nested limits.max_depth (depth + 1))) where
    deeper :
        {B : Type 0} (n : ℕ) (d : B → ℕ) (Q : B → Type 0) (f : ℕ → Decode B)
        → Counts limits.max_total_tags (f (depth + 1)) n d Q
        → Counts limits.max_total_tags (lift (next_depth limits depth) >>= f) n d Q
    deeper n d Q f k = Counts-lift _ n d Q (next_depth limits depth) f (λ c e.
        subst (λ c. Counts limits.max_total_tags (f c) n d Q) (sym (next_depth-ok limits depth c e))
          k)

    list_elements-Counts :
        (t : NbtTagType) (n : ℕ)
        → Counts limits.max_total_tags
            (list_elements layout alloc limits self depth t n)
            1
            tags_in
            (Nested limits.max_depth depth)
    unfolding list_elements tags_in Nested
    list_elements-Counts t n = deeper 1 tags_in (Nested limits.max_depth depth) _ (
        Counts-bind _ (decode_elements (self (depth + 1) t) n) _ 1 (λ es. tags_in_elements es + 1)
          (NestedElements limits.max_depth (depth + 1)) _ _
          (Counts-more _ 0 _ _ (decode_elements (self (depth + 1) t) n) 1 1 (omega arith)
            ((elements-Counts layout alloc limits) (self (depth + 1) t) (depth + 1) (h t) n))
          (λ es hes. Counts-lifted _ _ _ _ _ (λ tag e.
            let (l, p, q) = then-ok (new_list t es) _ tag e in
            let made : NbtTag.list (of_type_id (id t) es) ≡ tag =
              ap NbtTag.list ((new_list-ok layout alloc limits) t es l p) ∙ ok_injective _ _ q in
            subst (λ x. (tags_in x ≤ tags_in_elements es + 1) × Nested limits.max_depth depth x)
              made (omega arith, (here, hes)))))

    filled-Counts :
        (t n : ℕ)
        → Counts limits.max_total_tags
            (filled_list layout alloc limits self depth t n)
            1
            tags_in
            (Nested limits.max_depth depth)
    unfolding filled_list charge
    filled-Counts t n =
        Counts-lift _ 1 _ _
          (check_collection_limit NbtCollectionKind.list n limits.max_list_elements) _
          (λ a e. Counts-lift _ 1 _ _ (ok_or (from_id t) (invalid_tag_id t)) _ (λ element_type e.
            Counts-then _ 1 _ _
              (if same_type element_type NbtTagType.end
                then raise end_list_with_elements
                else pure tt)
              _ (λ r u. ground arith)
              (λ a.
                Counts-lift _ 1 _ _
                  (checked_collection_bytes NbtCollectionKind.list n layout.nbt_tag_size) _
                  (λ allocation e.
                    Counts-then _ 1 _ _ (charge layout alloc limits allocation) _ (λ r u. refl)
                      (λ a.
                        Counts-then _ 1 _ _ (reserve alloc n "TAG_List elements") _
                          ((reserve-Quiet layout alloc limits) n "TAG_List elements")
                          (λ a. list_elements-Counts element_type n))))))

    sized-Counts :
        (t : ℕ) (z : ℤ)
        → Counts limits.max_total_tags
            (sized_list layout alloc limits self depth t z)
            1
            tags_in
            (Nested limits.max_depth depth)
    unfolding sized_list tags_in Nested
    sized-Counts t (pos zero) =
        Counts-pure _ 1 _ _ (NbtTag.list (empty_with_type_id t)) (omega arith) (here, tt)
    sized-Counts t (pos (suc n)) = filled-Counts t (suc n)
    sized-Counts t (negsuc n) =
        Counts-pure _ 1 _ _ (NbtTag.list (empty_with_type_id t)) (omega arith) (here, tt)

    pub list-Counts :
        Counts limits.max_total_tags
          (decode_list layout alloc limits self depth)
          1
          tags_in
          (Nested limits.max_depth depth)
    unfolding decode_list read_type_id
    list-Counts =
        Counts-then _ 1 _ _ (read_type_id "TAG_List element type") _
          ((type_id-Quiet layout alloc limits) "TAG_List element type")
          (λ t. Counts-then _ 1 _ _ (on_reader read_i32) _ (λ r u. refl) (λ z. sized-Counts t z))

    entry-Counts :
        (rest : ℕ → NbtCompound → Decode NbtCompound) (n : ℕ) (c : NbtCompound) (t : ℕ)
        → ((k : ℕ) (e : NbtCompound)
            → NestedEntries limits.max_depth (depth + 1) e
            → Counts limits.max_total_tags
                (rest k e)
                (tags_in_entries e)
                tags_in_entries
                (NestedEntries limits.max_depth (depth + 1)))
        → NestedEntries limits.max_depth (depth + 1) c
        → Counts limits.max_total_tags
            (one_entry layout alloc limits self depth rest n c t)
            (tags_in_entries c)
            tags_in_entries
            (NestedEntries limits.max_depth (depth + 1))
    unfolding one_entry charge child insert
    entry-Counts rest n c t hr hc =
        Counts-lift _ _ _ _ (count_entry layout alloc limits n) _ (λ count e.
          Counts-lift _ _ _ _
            (check_collection_limit NbtCollectionKind.compound count limits.max_compound_entries) _
            (λ a e. Counts-lift _ _ _ _ (ok_or (from_id t) (invalid_tag_id t)) _ (λ child_type e.
              Counts-then _ _ _ _ (charge layout alloc limits (compound_entry_budget layout)) _
                (λ r u. refl)
                (λ a.
                  Counts-then _ _ _ _ (read_name alloc limits) _ (name-Quiet layout alloc limits)
                    (λ name.
                      Counts-bind _ (child layout alloc limits self depth child_type) _ _
                        (λ v. tags_in v + tags_in_entries c) (Nested limits.max_depth (depth + 1)) _
                        _
                        (deeper _ _ _ (λ d. self d child_type)
                          (Counts-more _ 0 _ _ _ (tags_in_entries c) (tags_in_entries c)
                            (omega arith) (h child_type)))
                        (λ v hv. Counts-credit _ _ _ _ _ _ (tags_in-inserted name v c) (
                          hr count (insert name v c).1 (
                            inserted-NestedEntries limits.max_depth (depth + 1) name v c hv
                              hc))))))))

    round-Counts :
        (rest : ℕ → NbtCompound → Decode NbtCompound) (n : ℕ) (c : NbtCompound)
        → ((k : ℕ) (e : NbtCompound)
            → NestedEntries limits.max_depth (depth + 1) e
            → Counts limits.max_total_tags
                (rest k e)
                (tags_in_entries e)
                tags_in_entries
                (NestedEntries limits.max_depth (depth + 1)))
        → NestedEntries limits.max_depth (depth + 1) c
        → Counts limits.max_total_tags
            (compound_round layout alloc limits self depth rest n c)
            (tags_in_entries c)
            tags_in_entries
            (NestedEntries limits.max_depth (depth + 1))
    unfolding compound_round read_type_id
    round-Counts rest n c hr hc =
        Counts-then _ _ _ _ (read_type_id "TAG_Compound child type") _
          ((type_id-Quiet layout alloc limits) "TAG_Compound child type")
          (λ t.
            if_cases
              (λ m.
                Counts limits.max_total_tags m (tags_in_entries c) tags_in_entries
                  (NestedEntries limits.max_depth (depth + 1)))
              (t == id NbtTagType.end) _ _ (λ e. Counts-pure _ _ _ _ c (omega arith) hc)
              (λ e. entry-Counts rest n c t hr hc))

    pub entries-Counts :
        (room n : ℕ) (c : NbtCompound)
        → NestedEntries limits.max_depth (depth + 1) c
        → Counts limits.max_total_tags
            (decode_entries layout alloc limits self depth room n c)
            (tags_in_entries c)
            tags_in_entries
            (NestedEntries limits.max_depth (depth + 1))
    unfolding decode_entries too_many
    entries-Counts zero n c hc =
        round-Counts (too_many layout alloc limits) n c (λ k e he. Counts-raise _ _ _ _ _) hc
    entries-Counts (suc room) n c hc =
        round-Counts (decode_entries layout alloc limits self depth room) n c
          (λ k e he. entries-Counts room k e he) hc

    pub compound-Counts :
        Counts limits.max_total_tags
          (payload_of layout alloc limits self depth NbtTagType.compound)
          1
          tags_in
          (Nested limits.max_depth depth)
    unfolding decode_compound tags_in Nested
    compound-Counts =
        Counts-bind _ (decode_compound layout alloc limits self depth) _ 1
          (λ c. tags_in_entries c + 1) (NestedEntries limits.max_depth (depth + 1)) _ _
          (Counts-more _ _ _ _ _ 1 1 (omega arith)
            (entries-Counts limits.max_compound_entries 0 empty tt))
          (λ c hc. Counts-pure _ _ _ _ (NbtTag.compound c) (omega arith) (here, hc))
