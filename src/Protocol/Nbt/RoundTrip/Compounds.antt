-- ===== src/Protocol/Nbt/RoundTrip/Compounds.antt =====
-- The decoder reads back a compound, given that it reads back the tags within.
use cubic.Common.{ℕ, ◌+◌, ◌^◌, ◌<◌, ◌≡◌, sym, subst, arith, List, [], ◌∷◌, ◌++◌, All, if◌then◌else◌}
use cubic.Common.Result.{ok}
use cubic.Common.Exec.{pure}
use cubic.Protocol.Reader.{usize_mod}
use cubic.Protocol.Reader.Fixed.{}
use cubic.Protocol.Nbt.Error.{NbtCollectionKind, invalid_tag_id}
use cubic.Protocol.Nbt.Tag.{NbtTagType, id}
use cubic.Protocol.Nbt.Limits.{NbtLimits}
use cubic.Protocol.Nbt.Value.{NbtTag, NbtCompound, empty, entry, tag_type}
use cubic.Protocol.Nbt.Value.Compound.{insert}
use cubic.Protocol.Nbt.Value.WellFormed.{AllNames, Behind, joined, AllNames-joined}
use cubic.Protocol.Nbt.Usage.{Usage, Layout, next_depth, compound_entry_budget}
use cubic.Protocol.Nbt.Decode.{Decode, Allocator, child, one_entry, compound_round, count_entry}
use cubic.Protocol.Nbt.Decode.Reads.{Reads, Reads-pure, Reads-lift, Reads-bind}
use cubic.Protocol.Nbt.Encode.{i32_max, charge_bytes}
use cubic.Protocol.Nbt.Encode.Wire.{payload_bytes}
use cubic.Protocol.Nbt.NbtString.RoundTrip.{wire}
use cubic.Protocol.Nbt.RoundTrip.Arrays.{Grants, Reads-charge, Reads-name}
use cubic.Protocol.Nbt.RoundTrip.Read.{Reads-type_id, id_end, from_id-id, limit-ok, ok_or-some}
use cubic.Protocol.Nbt.Encode.Checked.{StringChecked}
use cubic.Protocol.Nbt.NbtString.{NbtString}

-- The names that follow are behind those that are there.
abbrev pub AllBehind : NbtCompound → NbtCompound → Type 0
AllBehind acc c = AllNames (λ later. AllNames (λ k. Behind k later) acc) c

pub AllBehind-empty : (c : NbtCompound) → AllBehind empty c
AllBehind-empty empty = tt
AllBehind-empty (entry k v c) = (tt, AllBehind-empty c)

pub AllBehind-entry :
    (acc c : NbtCompound) (name : NbtString) (value : NbtTag)
    → AllBehind acc c
    → AllNames (Behind name) c
    → AllBehind (joined acc (entry name value empty)) c
AllBehind-entry acc empty name value h b = tt
AllBehind-entry acc (entry k v c) name value h b = (
  AllNames-joined (λ j. Behind j k) acc name value h.0 b.0,
  AllBehind-entry acc c name value h.1 b.1,
)

module _ (layout : Layout) (alloc : Allocator) (limits : NbtLimits) (g : Grants alloc)
    (word : limits.max_total_allocated_bytes < usize_mod) (self : ℕ → NbtTagType → Decode NbtTag)
    (depth : ℕ) where
  count-ok : (n : ℕ) → n < i32_max → count_entry layout alloc limits n ≡ ok (n + 1)
  unfolding count_entry
  count-ok n h = ground (arith, h)

  pub Reads-entry :
      (rest : ℕ → NbtCompound → Decode NbtCompound) (n : ℕ) (acc : NbtCompound) (name : NbtString)
      (value : NbtTag) (back : List ℕ) (u w x y v : Usage) (result : NbtCompound)
      → n < limits.max_compound_entries
      → n < i32_max
      → charge_bytes limits (compound_entry_budget layout) u ≡ (ok tt, w)
      → All (λ unit. unit < 2 ^ 16) name.utf16_units
      → StringChecked limits name w x
      → next_depth limits depth ≡ ok (depth + 1)
      → Reads (self (depth + 1) (tag_type value)) (payload_bytes value) x y value
      → Reads (rest (n + 1) (insert name value acc).1) back y v result
      → Reads
          (compound_round layout alloc limits self depth rest n acc)
          ((id (tag_type value) ∷ []) ++ (wire name ++ (payload_bytes value ++ back)))
          u
          v
          result
  unfolding compound_round one_entry child id
  Reads-entry rest n acc name value back u w x y v result within small paid units text deeper d k =
      let t = tag_type value in
      let bytes = wire name ++ (payload_bytes value ++ back) in
      Reads-bind _ _ (id t ∷ []) bytes u u v (id t) result (Reads-type_id _ (id t) u) (
        subst
          (λ b.
            Reads
              (if b then pure acc else one_entry layout alloc limits self depth rest n acc (id t))
              bytes u v result)
          (sym (id_end value))
          (Reads-bind _ _ [] bytes u u v (n + 1) result (Reads-lift _ (n + 1) u (count-ok n small))
            (Reads-bind _ _ [] bytes u u v tt result
              (Reads-lift _ tt u (
                limit-ok NbtCollectionKind.compound (n + 1) limits.max_compound_entries
                  (omega (arith, within))))
              (Reads-bind _ _ [] bytes u u v t result
                (Reads-lift _ t u (ok_or-some (id t) t (invalid_tag_id (id t)) (from_id-id t)))
                (Reads-bind _ _ [] bytes u w v tt result
                  (Reads-charge layout alloc limits g _ u w paid)
                  (Reads-bind _ _ (wire name) (payload_bytes value ++ back) w x v name result
                    (Reads-name layout alloc limits g name w x word units text)
                    (Reads-bind _ _ (payload_bytes value) back x y v value result
                      (Reads-bind _ _ [] (payload_bytes value) x x y (depth + 1) value
                        (Reads-lift _ (depth + 1) x deeper) d)
                      k)))))))

  pub Reads-end :
      (rest : ℕ → NbtCompound → Decode NbtCompound) (n : ℕ) (acc : NbtCompound) (u : Usage)
      → Reads
          (compound_round layout alloc limits self depth rest n acc)
          (id NbtTagType.end ∷ [])
          u
          u
          acc
  unfolding compound_round id
  Reads-end rest n acc u =
      Reads-bind _ _ (0 ∷ []) [] u u u 0 acc (Reads-type_id _ 0 u) (Reads-pure acc u)
