-- ===== src/Protocol/Nbt/RoundTrip/Arrays.antt =====
-- The decoder reads back strings and arrays that passed the encoder's check.
use cubic.Common.{
  ℕ, ◌*◌, ◌^◌, ◌≤◌, ◌<◌, ◌≡◌, refl, sym, ap, subst, arith, true, String, List, [], ◌∷◌, ◌++◌,
  append-nil, length, length-append, All, le→ltb, gt→leb,
}
use cubic.Common.Int.{ℤ, pos, IsSigned}
use cubic.Common.Result.{ok, map_err}
use cubic.Protocol.Reader.{CodecReader, Reader, usize_mod, read_bytes, read_i32, read_i64}
use cubic.Protocol.Reader
use cubic.Protocol.Reader.Decodes.{
  Decodes, Decodes-pure, Decodes-bind, advance, read_bytes-Decodes, Decodes-map,
}
use cubic.Protocol.Reader.Fixed.{read_i32-write_i32, read_i64-write_i64}
use cubic.Protocol.Writer.{Writer, written, write_bytes, write_i32, write_i64, to_be}
use cubic.Protocol.Nbt.Error.{NbtCollectionKind, codec}
use cubic.Protocol.Nbt.Limits.{NbtLimits}
use cubic.Protocol.Nbt.NbtString.{NbtString, charge_budget}
use cubic.Protocol.Nbt.NbtString.RoundTrip.{AreUnits, wire, decode-wire}
use cubic.Protocol.Nbt.Value.{NbtTag}
use cubic.Protocol.Nbt.Usage.{Usage, Layout, on_budget, checked_collection_bytes}
use cubic.Protocol.Nbt.Decode.{
  Allocator, on_reader, read_collection_length, read_values, reserve, read_name, check_array_length,
  check_collection_limit, charge, decode_words, decode_byte_array, decode_int_array,
  decode_long_array,
}
use cubic.Protocol.Nbt.Decode.Reads.{
  Reads, Reads-pure, Reads-reader, Reads-usage, Reads-lift, Reads-bytes, Reads-bind,
}
use cubic.Protocol.Nbt.Encode.{i32_max, charge_bytes}
use cubic.Protocol.Nbt.Encode.Checked.{ArrayChecked, StringChecked}
use cubic.Protocol.Nbt.Encode.Wire.{length_bytes, values_bytes}

-- every reservation is granted
pub record Grants (alloc : Allocator) : Type 0 where
  pub strings : (at : ℕ) → alloc.grants_string at ≡ true
  pub elements : (at : ℕ) → alloc.grants_elements at ≡ true

pub Reads-length :
    (count : ℕ) (u : Usage)
    → count ≤ i32_max
    → Reads (on_reader read_i32) (length_bytes count) u u (pos count)
unfolding write_i32
Reads-length count u h =
    Reads-reader read_i32 _ (pos count) u (read_i32-write_i32 (pos count) (omega (arith, h)))

Reads-collection_length :
    (kind : NbtCollectionKind) (count : ℕ) (u : Usage)
    → count ≤ i32_max
    → Reads (read_collection_length kind) (length_bytes count) u u count
unfolding read_collection_length
Reads-collection_length kind count u h =
    Reads-bytes _ _ _ u u count (append-nil (length_bytes count)) (
      Reads-bind _ _ (length_bytes count) [] u u u (pos count) count (Reads-length count u h)
        (Reads-lift _ count u refl))

module _ {A : Type 0} (P : A → Type 0) (size : ℕ) (read : Reader A) (write : A → Writer)
    (reads : (v : A) → P v → Decodes read (written (write v)) v)
    (sized : (v : A) → length (written (write v)) ≡ size) where
  Decodes-values :
      (vs : List A) → All P vs → Decodes (read_values read (length vs)) (values_bytes write vs) vs
  unfolding read_values
  Decodes-values [] a = Decodes-pure []
  Decodes-values (v ∷ vs) (h, a) =
      Decodes-bind read _ (written (write v)) (values_bytes write vs) v (v ∷ vs) (reads v h) (
        Decodes-map (read_values read (length vs)) (λ rest. v ∷ rest) (values_bytes write vs) vs
          (Decodes-values vs a))

  length-values_bytes : (vs : List A) → length (values_bytes write vs) ≡ length vs * size
  length-values_bytes [] = omega arith
  length-values_bytes (v ∷ vs) = omega (
    arith,
    length-append (written (write v)) (values_bytes write vs),
    sized v,
    length-values_bytes vs,
  )

  -- The words of an array are read from its bytes alone.
  read_values-ok :
      (vs : List A)
      → All P vs
      → length (values_bytes write vs) < 2 ^ 63
      → (read_values read (length vs) (Reader.new (values_bytes write vs))).0 ≡ ok vs
  read_values-ok vs a small =
      let whole = sym (append-nil (values_bytes write vs)) in
      ap (λ p. p.0)
        ((Decodes-values vs a).at (Reader.new (values_bytes write vs)) []
          (record { within = omega arith; addressable = small }) whole)

length-write_i32 : (v : ℤ) → length (written (write_i32 v)) ≡ 4
unfolding write_i32 write_bytes to_be
length-write_i32 v = refl

length-write_i64 : (v : ℤ) → length (written (write_i64 v)) ≡ 8
unfolding write_i64 write_bytes to_be
length-write_i64 v = refl

module _ (layout : Layout) (alloc : Allocator) (limits : NbtLimits) (g : Grants alloc) where
  pub Reads-reserve :
      (count : ℕ) (context : String) (u : Usage) → Reads (reserve alloc count context) [] u u tt
  unfolding reserve
  Reads-reserve count context u = record {
    at = λ r rest valid h. rw (g.elements r.position) ((Reads-pure tt u).at r rest valid h);
  }

  pub Reads-charge :
      (amount : ℕ) (u v : Usage)
      → charge_bytes limits amount u ≡ (ok tt, v)
      → Reads (charge layout alloc limits amount) [] u v tt
  unfolding charge charge_bytes
  Reads-charge amount u v e = Reads-usage (on_budget (charge_budget amount limits)) tt u v e

  check-ok :
      (kind : NbtCollectionKind) (count size : ℕ) (u v : Usage)
      → ArrayChecked limits count size u v
      → check_array_length limits count kind size ≡ ok (count * size)
  unfolding check_array_length check_collection_limit checked_collection_bytes
  check-ok kind count size u v c =
      rw (le→ltb limits.max_array_elements count c.within, gt→leb usize_mod (count * size) c.word)
        refl

  Reads-payload_bytes :
      (n : ℕ) (context : String) (bytes : List ℕ) (u : Usage)
      → length bytes ≡ n
      → Reads (on_reader (read_bytes n context)) bytes u u bytes
  Reads-payload_bytes n context bytes u e =
      Reads-reader _ bytes bytes u (
        subst (λ k. Decodes (read_bytes k context) bytes bytes) e
          (read_bytes-Decodes context bytes))

  Reads-words :
      {A : Type 0} (P : A → Type 0) (kind : NbtCollectionKind) (size : ℕ)
      (payload elements : String) (read : Reader A) (write : A → Writer) (tag : List A → NbtTag)
      (vs : List A) (u v : Usage)
      → ((x : A) → P x → Decodes read (written (write x)) x)
      → ((x : A) → length (written (write x)) ≡ size)
      → ((n : ℕ) → n ≤ i32_max → n * size < 2 ^ 63)
      → All P vs
      → ArrayChecked limits (length vs) size u v
      → Reads
          (decode_words layout alloc limits kind size payload elements read tag)
          (length_bytes (length vs) ++ values_bytes write vs)
          u
          v
          (tag vs)
  unfolding decode_words
  Reads-words P kind size payload elements read write tag vs u v reads sized fits a c =
      let n = length vs in
      let bytes = values_bytes write vs in
      let whole = length-values_bytes P size read write reads sized vs in
      let small : n * size < 2 ^ 63 = fits n c.small in
      let got =
        ap (map_err codec)
          (read_values-ok P size read write reads sized vs a (omega (arith, small, whole))) in
      Reads-bind _ _ (length_bytes n) bytes u u v n (tag vs)
        (Reads-collection_length kind n u c.small)
        (Reads-bind _ _ [] bytes u u v (n * size) (tag vs)
          (Reads-lift _ (n * size) u (check-ok kind n size u v c))
          (Reads-bytes _ _ _ u v (tag vs) (append-nil bytes) (
            Reads-bind _ _ bytes [] u u v bytes (tag vs)
              (Reads-payload_bytes (n * size) payload bytes u whole)
              (Reads-bind _ _ [] [] u v v tt (tag vs) (Reads-charge (n * size) u v c.charged) (
                Reads-bind _ _ [] [] v v v tt (tag vs) (Reads-reserve n elements v) (
                  Reads-bind _ _ [] [] v v v vs (tag vs) (Reads-lift _ vs v got)
                    (Reads-pure (tag vs) v)))))))

  pub Reads-int_array :
      (vs : List ℤ) (u v : Usage)
      → All (IsSigned (2 ^ 31)) vs
      → ArrayChecked limits (length vs) 4 u v
      → Reads
          (decode_int_array layout alloc limits)
          (length_bytes (length vs) ++ values_bytes write_i32 vs)
          u
          v
          (NbtTag.int_array vs)
  unfolding decode_int_array
  Reads-int_array vs u v a c =
      Reads-words (IsSigned (2 ^ 31)) NbtCollectionKind.int_array 4 _ _ read_i32 write_i32
        NbtTag.int_array vs u v read_i32-write_i32 length-write_i32 (λ n h. omega (arith, h)) a c

  pub Reads-long_array :
      (vs : List ℤ) (u v : Usage)
      → All (IsSigned (2 ^ 63)) vs
      → ArrayChecked limits (length vs) 8 u v
      → Reads
          (decode_long_array layout alloc limits)
          (length_bytes (length vs) ++ values_bytes write_i64 vs)
          u
          v
          (NbtTag.long_array vs)
  unfolding decode_long_array
  Reads-long_array vs u v a c =
      Reads-words (IsSigned (2 ^ 63)) NbtCollectionKind.long_array 8 _ _ read_i64 write_i64
        NbtTag.long_array vs u v read_i64-write_i64 length-write_i64 (λ n h. omega (arith, h)) a c

  pub Reads-byte_array :
      (vs : List ℕ) (u v : Usage)
      → ArrayChecked limits (length vs) 1 u v
      → Reads
          (decode_byte_array layout alloc limits)
          (length_bytes (length vs) ++ vs)
          u
          v
          (NbtTag.byte_array vs)
  unfolding decode_byte_array
  Reads-byte_array vs u v c =
      let n = length vs in
      let one : n * 1 ≡ n = omega arith in
      let paid = subst (λ k. charge_bytes limits k u ≡ (ok tt, v)) one c.charged in
      Reads-bind _ _ (length_bytes n) vs u u v n (NbtTag.byte_array vs)
        (Reads-collection_length NbtCollectionKind.byte_array n u c.small)
        (Reads-bind _ _ [] vs u u v (n * 1) (NbtTag.byte_array vs)
          (Reads-lift _ (n * 1) u (check-ok NbtCollectionKind.byte_array n 1 u v c))
          (Reads-bytes _ _ _ u v (NbtTag.byte_array vs) (append-nil vs) (
            Reads-bind _ _ vs [] u u v vs (NbtTag.byte_array vs)
              (Reads-payload_bytes n "TAG_Byte_Array payload" vs u refl)
              (Reads-bind _ _ [] [] u v v tt (NbtTag.byte_array vs) (Reads-charge n u v paid) (
                Reads-bind _ _ [] [] v v v tt (NbtTag.byte_array vs)
                  (Reads-reserve n "TAG_Byte_Array elements" v)
                  (Reads-pure (NbtTag.byte_array vs) v))))))

  pub Reads-name :
      (s : NbtString) (u v : Usage)
      → limits.max_total_allocated_bytes < usize_mod
      → AreUnits s.utf16_units
      → StringChecked limits s u v
      → Reads (read_name alloc limits) (wire s) u v s
  unfolding read_name
  Reads-name s u v word a c = record {
    at = λ r rest valid h.
        rw
          (
            g.strings r.position,
            decode-wire s limits a c.fits r rest valid h u.allocated_bytes c.charged.room word,
          )
          (ap (λ x. (ok s, (advance (length (wire s)) r, x))) (sym c.charged.after));
  }
