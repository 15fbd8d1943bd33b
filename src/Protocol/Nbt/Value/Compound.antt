-- ===== src/Protocol/Nbt/Value/Compound.antt =====
-- nbt/tag.rs: NbtCompound, and the order of its names.
use Prim.Native.Nat.{compare, Ordering}
use cubic.Common.{ℕ, suc, ◌≡◌, refl, arith, List, [], ◌∷◌, Option, none, some}
use cubic.Protocol.Nbt.NbtString.{NbtString}
use cubic.Protocol.Nbt.Value.{NbtTag, NbtCompound, empty, entry, string, int}
use cubic.Common.Int.{ℤ}

-- the order on sequences of units that `Ord` derives
unfoldable pub compare_units : List ℕ → List ℕ → Ordering
compare_units [] [] = Ordering.eq
compare_units [] (b ∷ bs) = Ordering.lt
compare_units (a ∷ as') [] = Ordering.gt
compare_units (a ∷ as') (b ∷ bs) = elim (compare a b) [
  | Ordering.eq ↦ compare_units as' bs
  | Ordering.lt ↦ Ordering.lt
  | Ordering.gt ↦ Ordering.gt
]

abbrev pub compare_names : NbtString → NbtString → Ordering
compare_names a b = compare_units a.utf16_units b.utf16_units

unfoldable pub get : NbtString → NbtCompound → Option NbtTag
get name empty = none
get name (entry k v m) = elim (compare_names name k) [ Ordering.eq ↦ some v | _ ↦ get name m ]

-- the map after an insertion
unfoldable pub inserted : NbtString → NbtTag → NbtCompound → NbtCompound
inserted name value empty = entry name value empty
inserted name value (entry k v m) = elim (compare_names name k) [
  | Ordering.lt ↦ entry name value (entry k v m)
  | Ordering.eq ↦ entry k value m
  | Ordering.gt ↦ entry k v (inserted name value m)
]

-- the value that the name had, and the map
unfoldable pub insert : NbtString → NbtTag → NbtCompound → Option NbtTag × NbtCompound
unfolding get inserted
insert name value m = (get name m, inserted name value m)

unfoldable pub compound_len : NbtCompound → ℕ
compound_len empty = 0
compound_len (entry k v m) = suc (compound_len m)

int_of : Option NbtTag → Option ℤ
int_of (some (int v)) = some v
int_of _ = none

-- `get_str`, by the UTF-16 units of the name
unfoldable pub get_str : List ℕ → NbtCompound → Option NbtTag
unfolding compare_units
get_str units empty = none
get_str units (entry k v m) = elim (compare_units k.utf16_units units) [
  | Ordering.eq ↦ some v
  | _ ↦ get_str units m
]

unfoldable pub get_int : List ℕ → NbtCompound → Option ℤ
unfolding get_str int_of
get_int units m = int_of (get_str units m)

string_of : Option NbtTag → Option NbtString
string_of (some (string s)) = some s
string_of _ = none

unfoldable pub get_string : List ℕ → NbtCompound → Option NbtString
unfolding get_str string_of
get_string units m = string_of (get_str units m)

pub compare_units-eq : (as' bs : List ℕ) → compare_units as' bs ≡ Ordering.eq → as' ≡ bs
unfolding compare_units
compare_units-eq [] [] e = refl
compare_units-eq [] (b ∷ bs) e = ground (arith, e)
compare_units-eq (a ∷ as') [] e = ground (arith, e)
compare_units-eq (a ∷ as') (b ∷ bs) e = ground (arith, e, compare_units-eq as' bs)
