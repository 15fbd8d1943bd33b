-- ===== src/Protocol/Nbt/Value/Size.antt =====
-- nbt/tag.rs: how many tags a tag is made of, and how deep it is nested.
use Prim.Native.Nat.{Ordering}
use cubic.Common.{ℕ, suc, ◌+◌, ◌≤◌, arith}
use cubic.Protocol.Nbt.NbtString.{NbtString}
use cubic.Protocol.Nbt.Value.{
  NbtTag, NbtList, of_type_id, Tags, nil, cons, NbtCompound, empty, entry, list, compound,
}
use cubic.Protocol.Nbt.Value.Compound.{inserted, compare_names}

unfoldable mutual
  pub tags_in : NbtTag → ℕ
  tags_in (list l) = suc (tags_in_list l)
  tags_in (compound c) = suc (tags_in_entries c)
  tags_in _ = 1

  pub tags_in_list : NbtList → ℕ
  tags_in_list (of_type_id t es) = tags_in_elements es

  pub tags_in_elements : Tags → ℕ
  tags_in_elements nil = 0
  tags_in_elements (cons e es) = tags_in e + tags_in_elements es

  pub tags_in_entries : NbtCompound → ℕ
  tags_in_entries empty = 0
  tags_in_entries (entry k v m) = tags_in v + tags_in_entries m

-- At `depth`, the tag and all that it holds are no deeper than `max`.
unfoldable mutual
  pub Nested : ℕ → ℕ → NbtTag → Type 0
  Nested max depth (list l) = (depth ≤ max) × NestedList max (depth + 1) l
  Nested max depth (compound c) = (depth ≤ max) × NestedEntries max (depth + 1) c
  Nested max depth _ = depth ≤ max

  pub NestedList : ℕ → ℕ → NbtList → Type 0
  NestedList max depth (of_type_id t es) = NestedElements max depth es

  pub NestedElements : ℕ → ℕ → Tags → Type 0
  NestedElements max depth nil = Unit
  NestedElements max depth (cons e es) = Nested max depth e × NestedElements max depth es

  pub NestedEntries : ℕ → ℕ → NbtCompound → Type 0
  NestedEntries max depth empty = Unit
  NestedEntries max depth (entry k v m) = Nested max depth v × NestedEntries max depth m

pub tags_in-inserted :
    (name : NbtString) (value : NbtTag) (c : NbtCompound)
    → tags_in_entries (inserted name value c) ≤ tags_in value + tags_in_entries c
unfolding tags_in_entries inserted
tags_in-inserted name value empty = omega arith
tags_in-inserted name value (entry k v m) =
    let later = tags_in-inserted name value m in
    elim (compare_names name k)
      as (λ o.
        tags_in_entries (elim o [
          | Ordering.lt ↦ entry name value (entry k v m)
          | Ordering.eq ↦ entry k value m
          | Ordering.gt ↦ entry k v (inserted name value m)
        ])
        ≤ tags_in value + (tags_in v + tags_in_entries m)) [
          | Ordering.lt ↦ omega arith
          | Ordering.eq ↦ omega arith
          | Ordering.gt ↦ omega (arith, later)
        ]

pub inserted-NestedEntries :
    (max depth : ℕ) (name : NbtString) (value : NbtTag) (c : NbtCompound)
    → Nested max depth value
    → NestedEntries max depth c
    → NestedEntries max depth (inserted name value c)
unfolding NestedEntries inserted
inserted-NestedEntries max depth name value empty h hs = (h, hs)
inserted-NestedEntries max depth name value (entry k v m) h (hv, hs) =
    let later = inserted-NestedEntries max depth name value m h hs in
    elim (compare_names name k)
      as (λ o. NestedEntries max depth (elim o [
        | Ordering.lt ↦ entry name value (entry k v m)
        | Ordering.eq ↦ entry k value m
        | Ordering.gt ↦ entry k v (inserted name value m)
      ])) [ Ordering.lt ↦ (h, (hv, hs)) | Ordering.eq ↦ (h, hs) | Ordering.gt ↦ (hv, later) ]
