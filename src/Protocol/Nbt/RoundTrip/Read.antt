-- ===== src/Protocol/Nbt/RoundTrip/Read.antt =====
-- The decoder reads back a tag that passed the encoder's check, and uses of its limits just what
-- the check used.
use cubic.Common.{
  ℕ, ◌+◌, ◌≤◌, ◌≡◌, refl, sym, ap, subst, arith, Bool, true, false, [], ◌∷◌, append-nil, le→ltb,
  ◌==◌, if◌then◌else◌, some, inl, inr, Bool-cases, Option-cases,
}
use cubic.Common.Result.{ok, ok_or}
use cubic.Common.Exec.{raise, pure}
use cubic.Protocol.Reader.{}
use cubic.Protocol.Reader.Decodes.{read_bytes-Decodes}
use cubic.Protocol.Reader.Fixed.{}
use cubic.Protocol.Nbt.Error.{NbtCollectionKind, NbtError}
use cubic.Protocol.Nbt.Tag.{NbtTagType, id, from_id, from_id_iff}
use cubic.Protocol.Nbt.Limits.{NbtLimits}
use cubic.Protocol.Nbt.Value.{NbtTag, Tags, cons, tag_type, same_type, homogeneous, validate_list}
use cubic.Protocol.Nbt.Value.WellFormed.{}
use cubic.Protocol.Nbt.Usage.{Usage, add_tag}
use cubic.Protocol.Nbt.Decode.{read_type_id, check_collection_limit}
use cubic.Protocol.Nbt.Decode.Reads.{
  Reads, Reads-pure, Reads-reader, Reads-lift, Reads-bytes, Reads-bind,
}
use cubic.Protocol.Nbt.Encode.{}
use cubic.Protocol.Nbt.Encode.Wire.{}
use cubic.Protocol.Nbt.RoundTrip.Arrays.{}

pub Reads-type_id : (context : _) (t : ℕ) (u : Usage) → Reads (read_type_id context) (t ∷ []) u u t
unfolding read_type_id
Reads-type_id context t u = Reads-bytes _ _ _ u u t (append-nil (t ∷ [])) (
    Reads-bind _ _ (t ∷ []) [] u u u (t ∷ []) t
      (Reads-reader _ (t ∷ []) (t ∷ []) u (read_bytes-Decodes context (t ∷ [])))
      (Reads-lift _ t u refl))

pub id_end : (t : NbtTag) → (id (tag_type t) == id NbtTagType.end) ≡ false
unfolding id
id_end t = ground arith

pub from_id-id : (t : NbtTagType) → from_id (id t) ≡ some t
from_id-id t = (from_id_iff (id t) t).1 refl

pub same_type-ok : (a b : NbtTagType) → same_type a b ≡ true → a ≡ b
unfolding id
same_type-ok a b e = ground (arith, e)

pub homogeneous-ok :
    (expected : NbtTagType) (index : ℕ) (e : NbtTag) (es : Tags)
    → homogeneous expected index (cons e es) ≡ ok tt
    → (tag_type e ≡ expected) × (homogeneous expected (index + 1) es ≡ ok tt)
unfolding homogeneous
homogeneous-ok expected index e es h = elim (Bool-cases (same_type (tag_type e) expected)) [
  | inl p ↦ (same_type-ok (tag_type e) expected p, ground (arith, h, p))
  | inr p ↦ ground (arith, h, p)
]

-- what the elements of a list with a valid type have in common
pub record Typed (t : ℕ) (es : Tags) : Type 0 where
  pub expected : NbtTagType
  pub known : from_id t ≡ some expected
  pub not_end : same_type expected NbtTagType.end ≡ false
  pub uniform : homogeneous expected 0 es ≡ ok tt

pub validate_list-ok :
    (t : ℕ) (e : NbtTag) (es : Tags) → validate_list t (cons e es) ≡ ok tt → Typed t (cons e es)
unfolding validate_list
validate_list-ok t e es h = elim (Option-cases (from_id t)) [
  | inl p ↦ ground (arith, h, p)
  | inr (expected, p) ↦ elim (Bool-cases (same_type expected NbtTagType.end)) [
    | inl q ↦ ground (arith, h, p, q)
    | inr q ↦ record {
      expected = expected;
      known = p;
      not_end = q;
      uniform = ground (arith, h, p, q);
    }
  ]
]

pub add_tag-depth :
    (limits : NbtLimits) (depth : ℕ) (u v : Usage)
    → add_tag limits depth u ≡ (ok tt, v)
    → depth ≤ limits.max_depth
unfolding add_tag
add_tag-depth limits depth u v e = ground (arith, e)

pub Reads-guard :
    (b : Bool) (x : NbtError) (u : Usage)
    → b ≡ false
    → Reads (if b then raise x else pure tt) [] u u tt
Reads-guard b x u e =
    subst (λ c. Reads (if c then raise x else pure tt) [] u u tt) (sym e) (Reads-pure tt u)

pub ok_or-some :
    (t : ℕ) (expected : NbtTagType) (x : NbtError)
    → from_id t ≡ some expected
    → ok_or (from_id t) x ≡ ok expected
ok_or-some t expected x e = ap (λ o. ok_or o x) e

pub limit-ok :
    (kind : NbtCollectionKind) (count max : ℕ)
    → count ≤ max
    → check_collection_limit kind count max ≡ ok tt
unfolding check_collection_limit
limit-ok kind count max h = rw (le→ltb max count h) refl
