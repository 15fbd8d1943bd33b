-- ===== src/Protocol/Nbt/Value.antt =====
-- nbt/tag.rs: tags, lists and compounds. A float is its bit pattern, which is also how tags are
-- compared. A compound is a BTreeMap: its entries stand in the order of their names, and the names
-- are compared by their UTF-16 units.
pub mod Compound
pub mod Size
pub mod WellFormed
use cubic.Common.{Bool, ℕ, zero, suc, ◌+◌, ◌==◌, if◌then◌else◌, List, [], ◌∷◌, Option, none, some}
use cubic.Common.Int.{ℤ}
use cubic.Common.Result.{Result, ok, err, ok_or}
use cubic.Common.Result
use cubic.Protocol.Nbt.Tag.{NbtTagType, from_id, id}
use cubic.Protocol.Nbt.Error.{NbtError, invalid_tag_id, end_list_with_elements, heterogeneous_list}
use cubic.Protocol.Nbt.NbtString.{NbtString}

mutual
  pub data NbtTag : Type 0 where
    byte : ℤ → NbtTag
    short : ℤ → NbtTag
    int : ℤ → NbtTag
    long : ℤ → NbtTag
    float : ℕ → NbtTag
    double : ℕ → NbtTag
    byte_array : List ℕ → NbtTag
    string : NbtString → NbtTag
    list : NbtList → NbtTag
    compound : NbtCompound → NbtTag
    int_array : List ℤ → NbtTag
    long_array : List ℤ → NbtTag

  pub data NbtList : Type 0 where
    of_type_id : (element_type_id : ℕ) (elements : Tags) → NbtList

  pub data Tags : Type 0 where
    nil : Tags
    cons : NbtTag → Tags → Tags

  pub data NbtCompound : Type 0 where
    empty : NbtCompound
    entry : NbtString → NbtTag → NbtCompound → NbtCompound

pub record NamedNbtRoot : Type 0 where
  pub name : NbtString
  pub root : NbtCompound

abbrev pub tag_type : NbtTag → NbtTagType
tag_type (NbtTag.byte v) = NbtTagType.byte
tag_type (NbtTag.short v) = NbtTagType.short
tag_type (NbtTag.int v) = NbtTagType.int
tag_type (NbtTag.long v) = NbtTagType.long
tag_type (NbtTag.float v) = NbtTagType.float
tag_type (NbtTag.double v) = NbtTagType.double
tag_type (NbtTag.byte_array vs) = NbtTagType.byte_array
tag_type (NbtTag.string s) = NbtTagType.string
tag_type (NbtTag.list l) = NbtTagType.list
tag_type (NbtTag.compound c) = NbtTagType.compound
tag_type (NbtTag.int_array vs) = NbtTagType.int_array
tag_type (NbtTag.long_array vs) = NbtTagType.long_array

abbrev pub element_type_id : NbtList → ℕ
element_type_id (of_type_id t es) = t

abbrev pub elements : NbtList → Tags
elements (of_type_id t es) = es

abbrev pub empty_with_type_id : ℕ → NbtList
empty_with_type_id t = of_type_id t nil

-- `elements.len()` of a list
unfoldable pub count_tags : Tags → ℕ
count_tags nil = 0
count_tags (cons e es) = suc (count_tags es)

unfoldable pub list_len : NbtList → ℕ
unfolding count_tags
list_len l = count_tags (elements l)

-- `PartialEq` of the types, by their ids
abbrev pub same_type : NbtTagType → NbtTagType → Bool
same_type a b = id a == id b

-- the loop of `validate_list`, from an index on
unfoldable pub homogeneous : NbtTagType → ℕ → Tags → Result (Unit {0}) NbtError
homogeneous expected index nil = ok tt
homogeneous expected index (cons e es) =
    let rest = homogeneous expected (index + 1) es in
    if same_type (tag_type e) expected
    then rest
    else err (heterogeneous_list expected (tag_type e) index)

unfoldable pub validate_list : ℕ → Tags → Result (Unit {0}) NbtError
unfolding homogeneous
validate_list t nil = ok tt
validate_list t (cons e es) = Result.◌>>=◌ (ok_or (from_id t) (invalid_tag_id t)) (λ expected.
    if same_type expected NbtTagType.end
    then err end_list_with_elements
    else homogeneous expected 0 (cons e es))

-- `NbtList::new`
unfoldable pub new_list : NbtTagType → Tags → Result NbtList NbtError
unfolding validate_list
new_list t es = Result.◌>>=◌ (validate_list (id t) es) (λ done. ok (of_type_id (id t) es))
