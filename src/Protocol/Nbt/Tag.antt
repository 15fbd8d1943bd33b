-- ===== src/Protocol/Nbt/Tag.antt =====
-- nbt/tag.rs: the types of tags and their ids on the wire.
use cubic.Common.{ℕ, ◌≡◌, ◌↔◌, arith, Option, some, List, [], ◌∷◌, get_elem?}

pub data NbtTagType : Type 0 where
  end byte short int long float double byte_array string list compound int_array long_array :
      NbtTagType

-- the types in the order of their ids, 0 to 12
abbrev pub tag_types : List NbtTagType
tag_types =
    NbtTagType.end ∷ NbtTagType.byte ∷ NbtTagType.short ∷ NbtTagType.int ∷ NbtTagType.long
    ∷ NbtTagType.float ∷ NbtTagType.double ∷ NbtTagType.byte_array ∷ NbtTagType.string
    ∷ NbtTagType.list ∷ NbtTagType.compound ∷ NbtTagType.int_array ∷ NbtTagType.long_array ∷ []

unfoldable pub from_id : ℕ → Option NbtTagType
from_id id = get_elem? tag_types id

unfoldable pub id : NbtTagType → ℕ
id NbtTagType.end = 0
id NbtTagType.byte = 1
id NbtTagType.short = 2
id NbtTagType.int = 3
id NbtTagType.long = 4
id NbtTagType.float = 5
id NbtTagType.double = 6
id NbtTagType.byte_array = 7
id NbtTagType.string = 8
id NbtTagType.list = 9
id NbtTagType.compound = 10
id NbtTagType.int_array = 11
id NbtTagType.long_array = 12

-- A byte is the id of at most one type, and that is the one `from_id` finds.
pub from_id_iff : (n : ℕ) (t : NbtTagType) → (from_id n ≡ some t) ↔ (n ≡ id t)
unfolding from_id id
from_id_iff n t = ground arith
