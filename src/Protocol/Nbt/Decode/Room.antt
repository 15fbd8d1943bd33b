-- ===== src/Protocol/Nbt/Decode/Room.antt =====
-- The loop over the entries of a compound stops: the room that it starts with is never used up.
use cubic.Common.{
  ℕ, zero, suc, ◌+◌, ◌≤◌, ◌≡◌, refl, ap, ◌∙◌, arith, inl, inr, ltb, ◌==◌, if◌then◌else◌, Bool-cases,
  ◌⊎◌,
}
use cubic.Common.Exec.{pure, lift, ◌>>=◌, ◌>>◌}
use cubic.Common.Result.{ok, err, ok_or, Result-cases}
use cubic.Protocol.Reader.{CodecReader}
use cubic.Protocol.Nbt.Tag.{NbtTagType, id, from_id}
use cubic.Protocol.Nbt.Error.{NbtCollectionKind, collection_too_large, invalid_tag_id}
use cubic.Protocol.Nbt.Limits.{NbtLimits}
use cubic.Protocol.Nbt.Value.{NbtTag, NbtCompound}
use cubic.Protocol.Nbt.Value.Compound.{insert}
use cubic.Protocol.Nbt.Usage.{Usage, Layout, compound_entry_budget}
use cubic.Protocol.Nbt.Decode.{
  Decode, Allocator, read_type_id, check_collection_limit, charge, read_name, child, count_entry,
  too_many, one_entry, compound_round, decode_entries,
}

module _ (layout : Layout) (alloc : Allocator) (limits : NbtLimits)
    (self : ℕ → NbtTagType → Decode NbtTag) (depth : ℕ) where
  count_entry-suc : (n m : ℕ) → count_entry layout alloc limits n ≡ ok m → m ≡ n + 1
  unfolding count_entry
  count_entry-suc n m e = ground (arith, e)

  limit-cases :
      (count : ℕ)
      → (check_collection_limit NbtCollectionKind.compound count limits.max_compound_entries
          ≡ err (collection_too_large NbtCollectionKind.compound count limits.max_compound_entries))
        ⊎ ((check_collection_limit NbtCollectionKind.compound count limits.max_compound_entries
              ≡ ok tt)
            × (count ≤ limits.max_compound_entries))
  unfolding check_collection_limit
  limit-cases count = elim (Bool-cases (ltb limits.max_compound_entries count)) [
    | inl over ↦ inl (rw over refl)
    | inr fits ↦ inr (rw fits refl, ground (arith, fits))
  ]

  -- an entry behind the two checks of the count, before `rest`
  behind_checks : (NbtCompound → Decode NbtCompound) → NbtCompound → ℕ → Decode NbtCompound
  behind_checks rest c t = do
    child_type ← lift (ok_or (from_id t) (invalid_tag_id t))
    charge layout alloc limits (compound_entry_budget layout)
    name ← read_name alloc limits
    value ← child layout alloc limits self depth child_type
    rest (insert name value c).1

  -- What follows an entry is run only where the count of entries is within the limit.
  entry_agrees :
      (rest other : ℕ → NbtCompound → Decode NbtCompound) (n : ℕ) (c : NbtCompound) (t : ℕ)
      (s : CodecReader × Usage)
      → (n + 1 ≤ limits.max_compound_entries → rest (n + 1) ≡ other (n + 1))
      → one_entry layout alloc limits self depth rest n c t s
        ≡ one_entry layout alloc limits self depth other n c t s
  unfolding one_entry behind_checks
  entry_agrees rest other n c t s h = elim (Result-cases (count_entry layout alloc limits n)) [
    | inl (m, e) ↦
        let counted : count_entry layout alloc limits n ≡ ok (n + 1) =
          e ∙ ap ok (count_entry-suc n m e) in
        elim (limit-cases (n + 1)) [
          | inl over ↦ rw (counted, over) refl
          | inr (fits, within) ↦ rw (counted, fits) (ap (λ k. behind_checks k c t s) (h within))
        ]
    | inr (x, e) ↦ rw e refl
  ]

  round_agrees :
      (rest other : ℕ → NbtCompound → Decode NbtCompound) (n : ℕ)
      → (n + 1 ≤ limits.max_compound_entries → rest (n + 1) ≡ other (n + 1))
      → compound_round layout alloc limits self depth rest n
        ≡ compound_round layout alloc limits self depth other n
  unfolding compound_round
  round_agrees rest other n h i c = read_type_id "TAG_Compound child type" >>= λ t.
      if t == id NbtTagType.end then pure c else (λ s. entry_agrees rest other n c t s h i)

  -- The room that is left is enough for the entries that the limit allows: with room for one entry
  -- more, the loop over the entries does the same on every input, whatever decodes the children.
  pub decode_entries_stops :
      (room n : ℕ)
      → limits.max_compound_entries ≤ n + room
      → decode_entries layout alloc limits self depth (suc room) n
        ≡ decode_entries layout alloc limits self depth room n
  unfolding decode_entries
  decode_entries_stops zero n h =
      round_agrees (decode_entries layout alloc limits self depth zero)
        (too_many layout alloc limits) n (λ k. absurd (omega (arith, h, k)))
  decode_entries_stops (suc room) n h =
      round_agrees (decode_entries layout alloc limits self depth (suc room))
        (decode_entries layout alloc limits self depth room) n
        (λ k. decode_entries_stops room (n + 1) (omega (arith, h)))
