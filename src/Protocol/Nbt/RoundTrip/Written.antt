-- ===== src/Protocol/Nbt/RoundTrip/Written.antt =====
-- The encoder writes the bytes of a tag that passed its check.
use cubic.Common.{ℕ, ◌+◌, ◌≡◌, length}
use cubic.Common.Result.{ok}
use cubic.Common.Exec.{bind-ok}
use cubic.Protocol.Writer.{write_i8, write_i16, write_i32, write_i64, write_f32, write_f64}
use cubic.Protocol.Nbt.Error.{NbtCollectionKind}
use cubic.Protocol.Nbt.Limits.{NbtLimits}
use cubic.Protocol.Nbt.Value.{
  NbtTag, NbtList, of_type_id, Tags, nil, cons, NbtCompound, empty, entry,
}
use cubic.Protocol.Nbt.Value.WellFormed.{IsTag, IsList, AreTags, IsCompound}
use cubic.Protocol.Nbt.Usage.{Usage, Layout, add_tag, compound_entry_budget}
use cubic.Protocol.Nbt.Encode.{
  validate_arm, validate_elements, validate_tags, validate_entries, charge_bytes, validate_string,
  compound_header, encode_payload, encode_list, encode_elements, encode_compound,
}
use cubic.Protocol.Nbt.Encode.Checked.{array-ok, string-ok, list-ok}
use cubic.Protocol.Nbt.Encode.Wire.{
  payload_bytes, list_bytes, elements_bytes, compound_bytes, Writes, Writes-bind, Writes-done,
  Writes-bytes, Writes-u8, Writes-i32, Writes-i64, Writes-length, Writes-values, Writes-string,
}

module _ (layout : Layout) (limits : NbtLimits) where
  mutual
    unfolding validate_arm encode_payload payload_bytes IsTag write_i8 write_i16 write_i32 write_i64
        write_f32 write_f64

    pub Writes-payload :
        (tag : NbtTag) (depth : ℕ) (u v : Usage)
        → IsTag tag
        → validate_arm layout limits tag depth u ≡ (ok tt, v)
        → Writes (encode_payload limits tag) (payload_bytes tag)
    Writes-payload (NbtTag.byte x) depth u v t e = Writes-bytes _
    Writes-payload (NbtTag.short x) depth u v t e = Writes-bytes _
    Writes-payload (NbtTag.int x) depth u v t e = Writes-bytes _
    Writes-payload (NbtTag.long x) depth u v t e = Writes-bytes _
    Writes-payload (NbtTag.float x) depth u v t e = Writes-bytes _
    Writes-payload (NbtTag.double x) depth u v t e = Writes-bytes _
    Writes-payload (NbtTag.byte_array xs) depth u v t e =
        let c = array-ok limits (length xs) 1 NbtCollectionKind.byte_array u v e in
        Writes-bind _ _ _ _ (Writes-length _ _ c.small) (Writes-bytes xs)
    Writes-payload (NbtTag.string s) depth u v t e =
        Writes-string s limits t (string-ok limits s u v e).fits
    Writes-payload (NbtTag.list l) depth u v t e = Writes-list l depth u v t e
    Writes-payload (NbtTag.compound c) depth u v t e =
        let (child, x, f, g) = bind-ok (compound_header layout limits c depth) _ u v tt e in
        Writes-compound c child x v t g
    Writes-payload (NbtTag.int_array xs) depth u v t e =
        let c = array-ok limits (length xs) 4 NbtCollectionKind.int_array u v e in
        Writes-bind _ _ _ _ (Writes-length _ _ c.small) (Writes-values write_i32 Writes-i32 xs)
    Writes-payload (NbtTag.long_array xs) depth u v t e =
        let c = array-ok limits (length xs) 8 NbtCollectionKind.long_array u v e in
        Writes-bind _ _ _ _ (Writes-length _ _ c.small) (Writes-values write_i64 Writes-i64 xs)

    Writes-list :
        (l : NbtList) (depth : ℕ) (u v : Usage)
        → IsList l
        → validate_elements layout limits l depth u ≡ (ok tt, v)
        → Writes (encode_list limits l) (list_bytes l)
    Writes-list (of_type_id k es) depth u v t e =
        let c = list-ok layout limits k es depth u v e in
        Writes-bind _ _ _ _ (Writes-u8 k) (
          Writes-bind _ _ _ _ (Writes-length _ _ c.small)
            (Writes-elements es (depth + 1) c.paid v t.1 c.tags))

    Writes-elements :
        (es : Tags) (depth : ℕ) (u v : Usage)
        → AreTags es
        → validate_tags layout limits es depth u ≡ (ok tt, v)
        → Writes (encode_elements limits es) (elements_bytes es)
    Writes-elements nil depth u v t e = Writes-done
    Writes-elements (cons x es) depth u v t e =
        let (b, y, f, g) = bind-ok (add_tag limits depth) _ u v tt e in
        let (a, w, p, q) = bind-ok (validate_arm layout limits x depth) _ y v tt g in
        Writes-bind _ _ _ _ (Writes-payload x depth y w t.0 p) (Writes-elements es depth w v t.1 q)

    pub Writes-compound :
        (c : NbtCompound) (depth : ℕ) (u v : Usage)
        → IsCompound c
        → validate_entries layout limits c depth u ≡ (ok tt, v)
        → Writes (encode_compound limits c) (compound_bytes c)
    Writes-compound empty depth u v t e = Writes-u8 _
    Writes-compound (entry name value c) depth u v (units, tag, order, rest) e =
        let (a, w, p, q) =
          bind-ok (charge_bytes limits (compound_entry_budget layout)) _ u v tt e in
        let (b, x, f, g) = bind-ok (validate_string limits name) _ w v tt q in
        let (n, z, o, l) = bind-ok (add_tag limits depth) _ x v tt g in
        let (d, y, h, k) = bind-ok (validate_arm layout limits value depth) _ z v tt l in
        Writes-bind _ _ _ _ (Writes-u8 _) (
          Writes-bind _ _ _ _ (Writes-string name limits units (string-ok limits name w x f).fits) (
            Writes-bind _ _ _ _ (Writes-payload value depth z y tag h)
              (Writes-compound c depth y v rest k)))
