-- ===== src/Protocol/Nbt/RoundTrip/Whole.antt =====
-- The round trips of the public entry points, on whole inputs.
use cubic.Common.{
  ℕ, suc, ◌+◌, ◌-◌, ◌^◌, ◌<◌, ◌≡◌, refl, sym, ap, ◌∙◌, subst, arith, List, [], ◌∷◌, ◌++◌,
  append-nil, length, length-append, if◌then◌else◌, ◌==◌,
}
use cubic.Common.Result.{ok, err, ok_or, then-ok, ok_injective}
use cubic.Common.Exec.{pure, raise, lift, bind-ok, ◌>>=◌, ◌>>◌}
use cubic.Protocol.Reader.{usize_mod, remaining}
use cubic.Protocol.Reader
use cubic.Protocol.Writer
use cubic.Protocol.Writer.{write_u8}
use cubic.Protocol.Nbt.Error.{invalid_tag_id, unexpected_end_tag, trailing_data}
use cubic.Protocol.Nbt.Tag.{NbtTagType, id, from_id}
use cubic.Protocol.Nbt.Limits.{NbtLimits}
use cubic.Protocol.Nbt.NbtString.{NbtWriter}
use cubic.Protocol.Nbt.Value.{NbtTag, tag_type}
use cubic.Protocol.Nbt.Value.WellFormed.{IsTag}
use cubic.Protocol.Nbt.Usage.{Usage, Layout, add_tag}
use cubic.Protocol.Nbt.Usage
use cubic.Protocol.Nbt.Decode.{Decode, Allocator, read_type_id, decode_payload}
use cubic.Protocol.Nbt.Decode.Roots.{
  fresh, complete, reject_trailing, decode_unnamed_network_tag_complete,
}
use cubic.Protocol.Nbt.Decode.Reads.{Reads, Reads-lift, Reads-bind}
use cubic.Protocol.Nbt.Encode.{
  finished, writing, validate_tag, encode_payload, encode_unnamed_network_tag,
}
use cubic.Protocol.Nbt.Encode.Wire.{payload_bytes, Writes, Writes-bind, Writes-u8}
use cubic.Protocol.Nbt.RoundTrip.Written.{Writes-payload}
use cubic.Protocol.Nbt.RoundTrip.Read.{Reads-type_id, Reads-guard, from_id-id, id_end, ok_or-some}
use cubic.Protocol.Nbt.RoundTrip.Arrays.{Grants}
use cubic.Protocol.Nbt.RoundTrip.Levels.{Reads-level}
use cubic.Protocol.Nbt.RoundTrip.Payload.{Reads-arm}

-- a decoder that reads the whole of an input
pub complete-Reads :
    {A : Type 0} (m : Decode A) (bytes : List ℕ) (v : Usage) (a : A)
    → length bytes < 2 ^ 63
    → Reads m bytes Usage.new v a
    → complete (fresh m) bytes ≡ ok a
unfolding complete remaining
complete-Reads m bytes v a small d =
    let whole = sym (append-nil bytes) in
    let done =
      d.at (Reader.new bytes) [] (record { within = omega arith; addressable = small }) whole in
    let zero_left : length bytes - (0 + length bytes) ≡ 0 = omega arith in
    ground (arith, done, zero_left)

-- a decoder that reads the front of an input
complete-trailing :
    {A : Type 0} (m : Decode A) (bytes : List ℕ) (extra : ℕ) (more : List ℕ) (v : Usage) (a : A)
    → length (bytes ++ (extra ∷ more)) < 2 ^ 63
    → Reads m bytes Usage.new v a
    → complete (fresh m) (bytes ++ (extra ∷ more)) ≡ err (trailing_data (suc (length more)))
unfolding complete remaining reject_trailing
complete-trailing m bytes extra more v a small d =
    let whole = bytes ++ (extra ∷ more) in
    let done =
      d.at (Reader.new whole) (extra ∷ more) (record { within = omega arith; addressable = small })
        refl in
    let left : length whole - (0 + length bytes) ≡ suc (length more) =
      omega (arith, length-append bytes (extra ∷ more)) in
    ground (arith, done, left)

-- what a finished writer holds
pub finished-Writes :
    (m : NbtWriter) (bytes found : List ℕ) → Writes m bytes → finished m ≡ ok found → bytes ≡ found
finished-Writes m bytes found d e =
    ok_injective bytes found
      (let out : finished m ≡ ok bytes = rw (d.at Writer.new) refl in sym out ∙ e)

module _ (layout : Layout) (alloc : Allocator) (limits : NbtLimits) (g : Grants alloc)
    (word : limits.max_total_allocated_bytes < usize_mod) where
  Reads-tag :
      (tag : NbtTag) (v : Usage)
      → IsTag tag
      → validate_tag layout limits tag 0 Usage.new ≡ (ok tt, v)
      → Reads
          (read_type_id "NBT root type" >>= λ found.
            (if found == id NbtTagType.end then raise (unexpected_end_tag "NBT root") else pure tt)
            >> (lift (ok_or (from_id found) (invalid_tag_id found)) >>= λ t.
                decode_payload layout alloc limits (suc limits.max_depth) 0 t))
          ((id (tag_type tag) ∷ []) ++ payload_bytes tag)
          Usage.new
          v
          tag
  unfolding validate_tag
  Reads-tag tag v t e =
      let (a, w, p, q) = bind-ok (add_tag limits 0) _ Usage.new v tt e in
      let k = tag_type tag in
      let bytes = payload_bytes tag in
      let u = Usage.new in
      Reads-bind _ _ (id k ∷ []) bytes u u v (id k) tag (Reads-type_id _ (id k) u) (
        Reads-bind _ _ [] bytes u u v tt tag (Reads-guard _ _ u (id_end tag)) (
          Reads-bind _ _ [] bytes u u v k tag
            (Reads-lift _ k u (ok_or-some (id k) k (invalid_tag_id (id k)) (from_id-id k)))
            (Reads-level layout alloc limits g word (suc limits.max_depth) 0 k bytes u w v tag
              (omega arith) p
              (λ l deep. Reads-arm layout alloc limits g word tag l 0 w v deep t q))))

  record Accepted (tag : NbtTag) (bytes : List ℕ) : Type 0 where
    used : Usage
    front : (id (tag_type tag) ∷ []) ++ payload_bytes tag ≡ bytes
    reads : validate_tag layout limits tag 0 Usage.new ≡ (ok tt, used)

  accepted :
      (tag : NbtTag) (bytes : List ℕ)
      → IsTag tag
      → encode_unnamed_network_tag layout limits tag ≡ ok bytes
      → Accepted tag bytes
  unfolding encode_unnamed_network_tag
  accepted tag bytes t e =
      let (valid, p, q) = then-ok (validate_tag layout limits tag 0 Usage.new).0 _ bytes e in
      let v = (validate_tag layout limits tag 0 Usage.new).1 in
      let checked : validate_tag layout limits tag 0 Usage.new ≡ (ok tt, v) = ap (λ x. (x, v)) p in
      let (a, w, counted, arm) = bind-ok (add_tag limits 0) _ Usage.new v tt checked in
      let wrote =
        Writes-bind (writing (write_u8 (id (tag_type tag)))) (encode_payload limits tag) _ _
          (Writes-u8 _) (Writes-payload layout limits tag 0 w v t arm) in
      record { used = v; front = finished-Writes _ _ bytes wrote q; reads = checked }

  -- A tag whose numbers fit their words and whose compounds are in the order of their names is
  -- decoded from the bytes that it is encoded to, fewer than 2 ^ 63, where the limit on allocated
  -- bytes is a usize and the allocator grants the memory.
  pub decode_unnamed_network_tag-encode :
      (tag : NbtTag) (bytes : List ℕ)
      → IsTag tag
      → length bytes < 2 ^ 63
      → encode_unnamed_network_tag layout limits tag ≡ ok bytes
      → decode_unnamed_network_tag_complete layout alloc limits bytes ≡ ok tag
  unfolding decode_unnamed_network_tag_complete
  decode_unnamed_network_tag-encode tag bytes t small e =
      let a = accepted tag bytes t e in
      subst (λ b. decode_unnamed_network_tag_complete layout alloc limits b ≡ ok tag) a.front
        (complete-Reads _ _ a.used tag (subst (λ b. length b < 2 ^ 63) (sym a.front) small)
          (Reads-tag tag a.used t a.reads))

  -- With more bytes behind it, fewer than 2 ^ 63 together, the encoding of a tag whose numbers fit
  -- their words and whose compounds are in the order of their names is refused, and the error says
  -- how many bytes are left, where the limit on allocated bytes is a usize and the allocator grants
  -- the memory.
  pub trailing_bytes_refused :
      (tag : NbtTag) (bytes : List ℕ) (extra : ℕ) (more : List ℕ)
      → IsTag tag
      → length (bytes ++ (extra ∷ more)) < 2 ^ 63
      → encode_unnamed_network_tag layout limits tag ≡ ok bytes
      → decode_unnamed_network_tag_complete layout alloc limits (bytes ++ (extra ∷ more))
        ≡ err (trailing_data (suc (length more)))
  unfolding decode_unnamed_network_tag_complete
  trailing_bytes_refused tag bytes extra more t small e =
      let a = accepted tag bytes t e in
      subst
        (λ b.
          decode_unnamed_network_tag_complete layout alloc limits (b ++ (extra ∷ more))
          ≡ err (trailing_data (suc (length more))))
        a.front
        (complete-trailing _ _ extra more a.used tag
          (subst (λ b. length (b ++ (extra ∷ more)) < 2 ^ 63) (sym a.front) small)
          (Reads-tag tag a.used t a.reads))
