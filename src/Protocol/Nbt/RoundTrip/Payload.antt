-- ===== src/Protocol/Nbt/RoundTrip/Payload.antt =====
-- The decoder reads back every tag that passed the encoder's check, and uses of its limits just what
-- the check used.
use cubic.Common.{ℕ, zero, suc, ◌+◌, ◌≤◌, ◌<◌, ◌≡◌, sym, ap, subst, arith, [], length}
use cubic.Common.Result.{ok}
use cubic.Common.Exec.{pure, bind-ok}
use cubic.Protocol.Reader.{usize_mod, read_i8, read_i16, read_i32, read_i64, read_f32, read_f64}
use cubic.Protocol.Reader.Fixed.{
  read_i8-write_i8, read_i16-write_i16, read_i32-write_i32, read_i64-write_i64, read_f32-write_f32,
  read_f64-write_f64,
}
use cubic.Protocol.Nbt.Error.{NbtCollectionKind}
use cubic.Protocol.Nbt.Tag.{NbtTagType}
use cubic.Protocol.Nbt.Limits.{NbtLimits}
use cubic.Protocol.Nbt.Value.{
  NbtTag, NbtList, of_type_id, Tags, nil, cons, NbtCompound, empty, entry, tag_type, count_tags,
  homogeneous,
}
use cubic.Protocol.Nbt.Value.Compound.{compound_len}
use cubic.Protocol.Nbt.Value.WellFormed.{IsTag, IsList, AreTags, IsCompound, joined}
use cubic.Protocol.Nbt.Usage.{Usage, Layout, add_tag, next_depth, compound_entry_budget}
use cubic.Protocol.Nbt.Decode.{
  Allocator, decode_elements, decode_list, decode_entries, decode_compound, payload_of,
  decode_payload,
}
use cubic.Protocol.Nbt.Decode.Reads.{Reads, Reads-pure, Reads-bind, Reads-map}
use cubic.Protocol.Nbt.Encode.{
  i32_max, validate_arm, validate_elements, validate_tags, validate_entries, charge_bytes,
  validate_string, compound_header,
}
use cubic.Protocol.Nbt.Encode.Checked.{array-ok, string-ok, list-ok, header-ok}
use cubic.Protocol.Nbt.Encode.Wire.{payload_bytes, list_bytes, elements_bytes, compound_bytes}
use cubic.Protocol.Nbt.RoundTrip.Arrays.{
  Grants, Reads-int_array, Reads-long_array, Reads-byte_array, Reads-name,
}
use cubic.Protocol.Nbt.RoundTrip.Read.{}
use cubic.Protocol.Nbt.RoundTrip.Lists.{Reads-list}
use cubic.Protocol.Nbt.RoundTrip.Compounds.{
  AllBehind, AllBehind-entry, AllBehind-empty, Reads-entry,
}
use cubic.Protocol.Nbt.RoundTrip.Read.{homogeneous-ok}
use cubic.Protocol.Nbt.RoundTrip.Levels.{Reads-level, Reads-number, Reads-stop, Reads-inserted}

module _ (layout : Layout) (alloc : Allocator) (limits : NbtLimits) (g : Grants alloc)
    (word : limits.max_total_allocated_bytes < usize_mod) where
  mutual
    unfolding validate_arm payload_bytes IsTag decode_elements decode_compound decode_entries
        count_tags compound_len

    pub Reads-arm :
        (tag : NbtTag) (levels depth : ℕ) (u v : Usage)
        → limits.max_depth ≤ levels + depth
        → IsTag tag
        → validate_arm layout limits tag depth u ≡ (ok tt, v)
        → Reads
            (payload_of layout alloc limits
              (decode_payload layout alloc limits levels)
              depth
              (tag_type tag))
            (payload_bytes tag)
            u
            v
            tag
    Reads-arm (NbtTag.byte x) levels depth u v h t e =
        Reads-number layout alloc limits g word read_i8 NbtTag.byte _ x u v (read_i8-write_i8 x t)
          (ap (λ p. p.1) e)
    Reads-arm (NbtTag.short x) levels depth u v h t e =
        Reads-number layout alloc limits g word read_i16 NbtTag.short _ x u v
          (read_i16-write_i16 x t) (ap (λ p. p.1) e)
    Reads-arm (NbtTag.int x) levels depth u v h t e =
        Reads-number layout alloc limits g word read_i32 NbtTag.int _ x u v (read_i32-write_i32 x t)
          (ap (λ p. p.1) e)
    Reads-arm (NbtTag.long x) levels depth u v h t e =
        Reads-number layout alloc limits g word read_i64 NbtTag.long _ x u v
          (read_i64-write_i64 x t) (ap (λ p. p.1) e)
    Reads-arm (NbtTag.float x) levels depth u v h t e =
        Reads-number layout alloc limits g word read_f32 NbtTag.float _ x u v
          (read_f32-write_f32 x t) (ap (λ p. p.1) e)
    Reads-arm (NbtTag.double x) levels depth u v h t e =
        Reads-number layout alloc limits g word read_f64 NbtTag.double _ x u v
          (read_f64-write_f64 x t) (ap (λ p. p.1) e)
    Reads-arm (NbtTag.byte_array xs) levels depth u v h t e =
        Reads-byte_array layout alloc limits g xs u v
          (array-ok limits (length xs) 1 NbtCollectionKind.byte_array u v e)
    Reads-arm (NbtTag.string s) levels depth u v h t e =
        Reads-map _ NbtTag.string _ u v s
          (Reads-name layout alloc limits g s u v word t (string-ok limits s u v e))
    Reads-arm (NbtTag.list l) levels depth u v h t e = Reads-list_arm l levels depth u v h t e
    Reads-arm (NbtTag.compound c) levels depth u v h t e =
        let (child, w, p, q) = bind-ok (compound_header layout limits c depth) _ u v tt e in
        let (header, below, free) = header-ok layout limits c depth child u w p in
        Reads-map _ NbtTag.compound _ u v c (
          Reads-entries c empty 0 limits.max_compound_entries levels depth u v h t
            (AllBehind-empty c) header.deeper (omega (arith, header.within))
            (omega (arith, header.small)) (omega (arith, header.within))
            (subst (λ k. validate_entries layout limits c k u ≡ (ok tt, v)) below
              (subst (λ x. validate_entries layout limits c child x ≡ (ok tt, v)) (sym free) q)))
    Reads-arm (NbtTag.int_array xs) levels depth u v h t e =
        Reads-int_array layout alloc limits g xs u v t
          (array-ok limits (length xs) 4 NbtCollectionKind.int_array u v e)
    Reads-arm (NbtTag.long_array xs) levels depth u v h t e =
        Reads-long_array layout alloc limits g xs u v t
          (array-ok limits (length xs) 8 NbtCollectionKind.long_array u v e)

    Reads-list_arm :
        (l : NbtList) (levels depth : ℕ) (u v : Usage)
        → limits.max_depth ≤ levels + depth
        → IsList l
        → validate_elements layout limits l depth u ≡ (ok tt, v)
        → Reads
            (decode_list layout alloc limits (decode_payload layout alloc limits levels) depth)
            (list_bytes l)
            u
            v
            (NbtTag.list l)
    Reads-list_arm (of_type_id t es) levels depth u v h valid e =
        let c = list-ok layout limits t es depth u v e in
        Reads-list layout alloc limits g (decode_payload layout alloc limits levels) depth t es u v
          c
          (λ k.
            Reads-elements es k.expected 0 levels (depth + 1) c.paid v (omega (arith, h)) valid.1
              k.uniform c.tags)

    Reads-elements :
        (es : Tags) (expected : NbtTagType) (index levels depth : ℕ) (u v : Usage)
        → limits.max_depth < levels + depth
        → AreTags es
        → homogeneous expected index es ≡ ok tt
        → validate_tags layout limits es depth u ≡ (ok tt, v)
        → Reads
            (decode_elements
              (decode_payload layout alloc limits levels depth expected)
              (count_tags es))
            (elements_bytes es)
            u
            v
            es
    Reads-elements nil expected index levels depth u v h t same e =
        subst (λ w. Reads (pure nil) [] u w nil) (ap (λ p. p.1) e) (Reads-pure nil u)
    Reads-elements (cons x es) expected index levels depth u v h t same e =
        let (a, w, p, q) = bind-ok (add_tag limits depth) _ u v tt e in
        let (b, y, f, k) = bind-ok (validate_arm layout limits x depth) _ w v tt q in
        let (here, there) = homogeneous-ok expected index x es same in
        Reads-bind _ _ (payload_bytes x) (elements_bytes es) u y v x (cons x es)
          (subst
            (λ z. Reads (decode_payload layout alloc limits levels depth z) (payload_bytes x) u y x)
            here
            (Reads-level layout alloc limits g word levels depth (tag_type x) (payload_bytes x) u w
              y x h p (λ l deep. Reads-arm x l depth w y deep t.0 f)))
          (Reads-map _ (cons x) (elements_bytes es) y v es
            (Reads-elements es expected (index + 1) levels depth y v h t.1 there k))

    pub Reads-entries :
        (c acc : NbtCompound) (n room levels depth : ℕ) (u v : Usage)
        → limits.max_depth ≤ levels + depth
        → IsCompound c
        → AllBehind acc c
        → next_depth limits depth ≡ ok (depth + 1)
        → n + compound_len c ≤ limits.max_compound_entries
        → n + compound_len c ≤ i32_max
        → compound_len c ≤ room
        → validate_entries layout limits c (depth + 1) u ≡ (ok tt, v)
        → Reads
            (decode_entries layout alloc limits
              (decode_payload layout alloc limits levels)
              depth
              room
              n
              acc)
            (compound_bytes c)
            u
            v
            (joined acc c)
    Reads-entries empty acc n room levels depth u v h t b deeper within small fuel e =
        Reads-stop layout alloc limits g word acc n room levels depth u v (ap (λ p. p.1) e)
    Reads-entries (entry name value c) acc n zero levels depth u v h t b deeper within small fuel
          e =
        absurd (omega (arith, fuel))
    Reads-entries (entry name value c) acc n (suc room) levels depth u v h (units, t, order, rest)
          (b, bs) deeper within small fuel e =
        let budget = compound_entry_budget layout in
        let child = suc depth in
        let (a0, u1, paid, e1) = bind-ok (charge_bytes limits budget) _ u v tt e in
        let (a1, u2, text, e2) = bind-ok (validate_string limits name) _ u1 v tt e1 in
        let (a2, u3, counted, e3) = bind-ok (add_tag limits (depth + 1)) _ u2 v tt e2 in
        let (a3, u4, checked, e4) =
          bind-ok (validate_arm layout limits value (depth + 1)) _ u3 v tt e3 in
        Reads-entry layout alloc limits g word (decode_payload layout alloc limits levels) depth
          (decode_entries layout alloc limits (decode_payload layout alloc limits levels) depth
            room)
          n acc name value (compound_bytes c) u u1 u2 u4 v (joined acc (entry name value c))
          (omega (arith, within)) (omega (arith, small)) paid units
          (string-ok limits name u1 u2 text) deeper
          (Reads-level layout alloc limits g word levels (depth + 1) (tag_type value)
            (payload_bytes value) u2 u3 u4 value (omega (arith, h)) counted
            (λ l deep. Reads-arm value l (depth + 1) u3 u4 deep t checked))
          (Reads-inserted layout alloc limits g word acc c name value (n + 1) room levels depth u4 v
            b
            (Reads-entries c (joined acc (entry name value empty)) (n + 1) room levels depth u4 v h
              rest (AllBehind-entry acc c name value bs order) deeper (omega (arith, within))
              (omega (arith, small)) (omega (arith, fuel)) e4))
