-- ===== src/Protocol/Nbt/Value/WellFormed.antt =====
-- What the types of nbt/tag.rs guarantee of a tag: numbers within their words, and the names of a
-- compound in strictly ascending order.
use Prim.Native.Nat.{Ordering}
use cubic.Common.{◌^◌, ◌<◌, ◌≡◌, refl, ap, All}
use cubic.Common.Int.{IsSigned}
use cubic.Protocol.Nbt.NbtString.{NbtString}
use cubic.Protocol.Nbt.NbtString.RoundTrip.{AreUnits}
use cubic.Protocol.Nbt.Value.{
  NbtTag, NbtList, of_type_id, Tags, nil, cons, NbtCompound, empty, entry,
}
use cubic.Protocol.Nbt.Value.Compound.{compare_names, inserted}

abbrev pub AllNames : (NbtString → Type 0) → NbtCompound → Type 0
AllNames P empty = Unit {0}
AllNames P (entry k v c) = P k × AllNames P c

-- `later` comes behind `name` in the order
abbrev pub Behind : NbtString → NbtString → Type 0
Behind name later = compare_names later name ≡ Ordering.gt

unfoldable mutual
  pub IsTag : NbtTag → Type 0
  IsTag (NbtTag.byte v) = IsSigned (2 ^ 7) v
  IsTag (NbtTag.short v) = IsSigned (2 ^ 15) v
  IsTag (NbtTag.int v) = IsSigned (2 ^ 31) v
  IsTag (NbtTag.long v) = IsSigned (2 ^ 63) v
  IsTag (NbtTag.float v) = v < 2 ^ 32
  IsTag (NbtTag.double v) = v < 2 ^ 64
  IsTag (NbtTag.byte_array vs) = All (λ v. v < 256) vs
  IsTag (NbtTag.string s) = AreUnits s.utf16_units
  IsTag (NbtTag.list l) = IsList l
  IsTag (NbtTag.compound c) = IsCompound c
  IsTag (NbtTag.int_array vs) = All (IsSigned (2 ^ 31)) vs
  IsTag (NbtTag.long_array vs) = All (IsSigned (2 ^ 63)) vs

  pub IsList : NbtList → Type 0
  IsList (of_type_id t es) = (t < 256) × AreTags es

  pub AreTags : Tags → Type 0
  AreTags nil = Unit {0}
  AreTags (cons e es) = IsTag e × AreTags es

  pub IsCompound : NbtCompound → Type 0
  IsCompound empty = Unit {0}
  IsCompound (entry name value c) =
      AreUnits name.utf16_units × IsTag value × AllNames (Behind name) c × IsCompound c

-- the entries of one compound behind those of another
abbrev pub joined : NbtCompound → NbtCompound → NbtCompound
joined empty d = d
joined (entry k v c) d = entry k v (joined c d)

pub joined_empty : (c : NbtCompound) → joined c empty ≡ c
joined_empty empty = refl
joined_empty (entry k v c) = ap (entry k v) (joined_empty c)

pub joined-entry :
    (c d : NbtCompound) (k : NbtString) (v : NbtTag)
    → joined (joined c (entry k v empty)) d ≡ joined c (entry k v d)
joined-entry empty d k v = refl
joined-entry (entry j w c) d k v = ap (entry j w) (joined-entry c d k v)

-- A name behind all names of a compound is inserted at its end.
pub inserted_last :
    (name : NbtString) (value : NbtTag) (c : NbtCompound)
    → AllNames (λ k. Behind k name) c
    → inserted name value c ≡ joined c (entry name value empty)
unfolding inserted
inserted_last name value empty h = refl
inserted_last name value (entry k v c) h =
    rw (inserted, h.0) (ap (entry k v) (inserted_last name value c h.1))

pub AllNames-joined :
    (P : NbtString → Type 0) (c : NbtCompound) (k : NbtString) (v : NbtTag)
    → AllNames P c
    → P k
    → AllNames P (joined c (entry k v empty))
AllNames-joined P empty k v h p = (p, tt)
AllNames-joined P (entry j w c) k v h p = (h.0, AllNames-joined P c k v h.1 p)
