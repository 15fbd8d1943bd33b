-- ===== src/Protocol/Nbt/RoundTrip/CompoundRoots.antt =====
-- The round trips of the compound roots, named and unnamed, on whole inputs.
use cubic.Common.{ℕ, ◌^◌, ◌<◌, ◌≡◌, sym, ap, subst, arith, List, [], ◌∷◌, ◌++◌, length, some, none}
use cubic.Common.Result.{ok, then-ok}
use cubic.Common.Exec.{bind-ok}
use cubic.Protocol.Reader.{usize_mod}
use cubic.Protocol.Writer.{write_u8}
use cubic.Protocol.Nbt.Tag.{NbtTagType, id}
use cubic.Protocol.Nbt.Limits.{NbtLimits}
use cubic.Protocol.Nbt.NbtString.{NbtString, NbtWriter}
use cubic.Protocol.Nbt.NbtString
use cubic.Protocol.Nbt.NbtString.RoundTrip.{AreUnits, wire}
use cubic.Protocol.Nbt.Value.{NbtCompound, empty, NamedNbtRoot}
use cubic.Protocol.Nbt.Value.WellFormed.{IsCompound}
use cubic.Protocol.Nbt.Usage.{Usage, Layout, add_tag}
use cubic.Protocol.Nbt.Usage
use cubic.Protocol.Nbt.Decode.{Allocator, decode_compound}
use cubic.Protocol.Nbt.Decode.Roots.{
  require_compound_root, root_compound, decode_unnamed_network_root_complete,
  decode_named_root_complete,
}
use cubic.Protocol.Nbt.Decode.Reads.{Reads, Reads-pure, Reads-usage, Reads-bind, Reads-map}
use cubic.Protocol.Nbt.Encode.{
  writing, encode_unnamed_network_root, encode_named_root, validate_root, compound_header,
  validate_string, validate_entries, encode_compound, validate_compound,
}
use cubic.Protocol.Nbt.Encode.Checked.{string-ok, header-ok}
use cubic.Protocol.Nbt.Encode.Wire.{compound_bytes, Writes, Writes-bind, Writes-u8, Writes-string}
use cubic.Protocol.Nbt.RoundTrip.Written.{Writes-compound}
use cubic.Protocol.Nbt.RoundTrip.Read.{Reads-type_id}
use cubic.Protocol.Nbt.RoundTrip.Arrays.{Grants, Reads-name}
use cubic.Protocol.Nbt.RoundTrip.Compounds.{AllBehind-empty}
use cubic.Protocol.Nbt.RoundTrip.Payload.{Reads-entries}
use cubic.Protocol.Nbt.RoundTrip.Whole.{complete-Reads, finished-Writes}

module _ (layout : Layout) (alloc : Allocator) (limits : NbtLimits) (g : Grants alloc)
    (word : limits.max_total_allocated_bytes < usize_mod) where
  Reads-require : (u : Usage) → Reads require_compound_root (id NbtTagType.compound ∷ []) u u tt
  unfolding require_compound_root id
  Reads-require u = Reads-bind _ _ (10 ∷ []) [] u u u 10 tt (Reads-type_id _ 10 u) (Reads-pure tt u)

  Reads-root :
      (c : NbtCompound) (u v : Usage)
      → IsCompound c
      → validate_compound layout limits c 0 u ≡ (ok tt, v)
      → Reads (root_compound layout alloc limits) (compound_bytes c) u v c
  unfolding root_compound validate_compound decode_compound
  Reads-root c u v t e =
      let (child, w, p, q) = bind-ok (compound_header layout limits c 0) _ u v tt e in
      let (header, below, free) = header-ok layout limits c 0 child u w p in
      Reads-entries layout alloc limits g word c empty 0 limits.max_compound_entries
        limits.max_depth 0 u v (omega arith) t (AllBehind-empty c) header.deeper
        (omega (arith, header.within)) (omega (arith, header.small)) (omega (arith, header.within))
        (subst (λ k. validate_entries layout limits c k u ≡ (ok tt, v)) below
          (subst (λ x. validate_entries layout limits c child x ≡ (ok tt, v)) (sym free) q))

  Writes-root :
      (c : NbtCompound) (u v : Usage)
      → IsCompound c
      → validate_compound layout limits c 0 u ≡ (ok tt, v)
      → Writes (encode_compound limits c) (compound_bytes c)
  unfolding validate_compound
  Writes-root c u v t e =
      let (child, w, p, q) = bind-ok (compound_header layout limits c 0) _ u v tt e in
      Writes-compound layout limits c child w v t q

  -- A compound that is well formed is decoded from the bytes that it is encoded to as an unnamed
  -- root, where the allocator grants the memory.
  pub decode_unnamed_network_root-encode :
      (c : NbtCompound) (bytes : List ℕ)
      → IsCompound c
      → length bytes < 2 ^ 63
      → encode_unnamed_network_root layout limits c ≡ ok bytes
      → decode_unnamed_network_root_complete layout alloc limits bytes ≡ ok c
  unfolding encode_unnamed_network_root validate_root decode_unnamed_network_root_complete
  decode_unnamed_network_root-encode c bytes t small e =
      let (valid, p, q) = then-ok (validate_root layout limits c none Usage.new).0 _ bytes e in
      let v = (validate_root layout limits c none Usage.new).1 in
      let checked : validate_root layout limits c none Usage.new ≡ (ok tt, v) =
        ap (λ x. (x, v)) p in
      let (a, w, counted, inner) = bind-ok (add_tag limits 0) _ Usage.new v tt checked in
      let wrote =
        Writes-bind (writing (write_u8 (id NbtTagType.compound))) (encode_compound limits c) _ _
          (Writes-u8 _) (Writes-root c w v t inner) in
      let same = finished-Writes _ _ bytes wrote q in
      let root = Reads-root c w v t inner in
      subst (λ b. decode_unnamed_network_root_complete layout alloc limits b ≡ ok c) same
        (complete-Reads _ _ v c (subst (λ b. length b < 2 ^ 63) (sym same) small) (
          Reads-bind _ _ _ (compound_bytes c) Usage.new Usage.new v tt c (Reads-require Usage.new) (
            Reads-bind _ _ [] (compound_bytes c) Usage.new w v tt c
              (Reads-usage (add_tag limits 0) tt Usage.new w counted) root)))

  -- A named compound, with a name of u16 units, whose numbers fit their words and whose compounds
  -- are in the order of their names is decoded from the bytes that it is encoded to, fewer than 2 ^
  -- 63, with its name, where the limit on allocated bytes is a usize and the allocator grants the
  -- memory.
  pub decode_named_root-encode :
      (r : NamedNbtRoot) (bytes : List ℕ)
      → AreUnits r.name.utf16_units
      → IsCompound r.root
      → length bytes < 2 ^ 63
      → encode_named_root layout limits r ≡ ok bytes
      → decode_named_root_complete layout alloc limits bytes ≡ ok r
  unfolding encode_named_root validate_root decode_named_root_complete
  decode_named_root-encode r bytes units t small e =
      let c = r.root in
      let (valid, p, q) =
        then-ok (validate_root layout limits c (some r.name) Usage.new).0 _ bytes e in
      let v = (validate_root layout limits c (some r.name) Usage.new).1 in
      let checked : validate_root layout limits c (some r.name) Usage.new ≡ (ok tt, v) =
        ap (λ x. (x, v)) p in
      let (a, w, counted, inner) = bind-ok (add_tag limits 0) _ Usage.new v tt checked in
      let (b, x, text, last) = bind-ok (validate_string limits r.name) _ w v tt inner in
      let fits = string-ok limits r.name w x text in
      let wrote = Writes-bind (writing (write_u8 (id NbtTagType.compound))) _ _ _ (Writes-u8 _) (
        Writes-bind (NbtString.encode r.name limits) (encode_compound limits c) _ _
          (Writes-string r.name limits units fits.fits) (Writes-root c x v t last)) in
      let same = finished-Writes _ _ bytes wrote q in
      let u = Usage.new in
      subst (λ b. decode_named_root_complete layout alloc limits b ≡ ok r) same
        (complete-Reads _ _ v r (subst (λ b. length b < 2 ^ 63) (sym same) small) (
          Reads-bind _ _ _ (wire r.name ++ compound_bytes c) u u v tt r (Reads-require u) (
            Reads-bind _ _ [] (wire r.name ++ compound_bytes c) u w v tt r
              (Reads-usage (add_tag limits 0) tt u w counted)
              (Reads-bind _ _ (wire r.name) (compound_bytes c) w x v r.name r
                (Reads-name layout alloc limits g r.name w x word units fits)
                (Reads-map (root_compound layout alloc limits)
                  (λ k. record { name = r.name; root = k }) _ x v c (Reads-root c x v t last))))))
