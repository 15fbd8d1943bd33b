-- ===== src/Protocol/Nbt/Encode/Wire.antt =====
-- The bytes of a tag, by its structure, and that the encoder writes them once a tag has passed the
-- check.
use cubic.Common.{
  ℕ, ◌≤◌, ◌≡◌, refl, sym, ap, List, [], ◌∷◌, ◌++◌, append-nil, append_assoc, length, le→ltb,
}
use cubic.Common.Int.{ℤ}
use cubic.Common.Result.{ok}
use cubic.Common.Exec.{pure, ◌>>◌}
use cubic.Protocol.Writer.{
  CodecWriter, Writer, written, write_bytes, to_be, write_u8, write_i8, write_i16, write_i32,
  write_i64, write_f32, write_f64,
}
use cubic.Protocol.Nbt.Error.{NbtCollectionKind}
use cubic.Protocol.Nbt.Tag.{NbtTagType, id}
use cubic.Protocol.Nbt.Limits.{NbtLimits, max_string_encoded_bytes}
use cubic.Protocol.Nbt.NbtString.{NbtString, NbtWriter, encoded_len}
use cubic.Protocol.Nbt.NbtString
use cubic.Protocol.Nbt.NbtString.RoundTrip.{AreUnits, wire, encode-wire}
use cubic.Protocol.Nbt.Value.{
  NbtTag, NbtList, of_type_id, Tags, nil, cons, NbtCompound, empty, entry, tag_type, count_tags,
}
use cubic.Protocol.Nbt.Encode.{i32_max, writing, write_values, write_length, collection_length}

abbrev pub length_bytes : ℕ → List ℕ
length_bytes count = to_be 4 count

abbrev pub values_bytes : {A : Type 0} → (A → Writer) → List A → List ℕ
values_bytes write [] = []
values_bytes write (v ∷ vs) = written (write v) ++ values_bytes write vs

unfoldable mutual
  unfolding write_i8 write_i16 write_i32 write_i64 write_f32 write_f64 to_be wire count_tags

  pub payload_bytes : NbtTag → List ℕ
  payload_bytes (NbtTag.byte v) = written (write_i8 v)
  payload_bytes (NbtTag.short v) = written (write_i16 v)
  payload_bytes (NbtTag.int v) = written (write_i32 v)
  payload_bytes (NbtTag.long v) = written (write_i64 v)
  payload_bytes (NbtTag.float v) = written (write_f32 v)
  payload_bytes (NbtTag.double v) = written (write_f64 v)
  payload_bytes (NbtTag.byte_array vs) = length_bytes (length vs) ++ vs
  payload_bytes (NbtTag.string s) = wire s
  payload_bytes (NbtTag.list l) = list_bytes l
  payload_bytes (NbtTag.compound c) = compound_bytes c
  payload_bytes (NbtTag.int_array vs) = length_bytes (length vs) ++ values_bytes write_i32 vs
  payload_bytes (NbtTag.long_array vs) = length_bytes (length vs) ++ values_bytes write_i64 vs

  pub list_bytes : NbtList → List ℕ
  list_bytes (of_type_id t es) = (t ∷ []) ++ (length_bytes (count_tags es) ++ elements_bytes es)

  pub elements_bytes : Tags → List ℕ
  elements_bytes nil = []
  elements_bytes (cons e es) = payload_bytes e ++ elements_bytes es

  pub compound_bytes : NbtCompound → List ℕ
  compound_bytes empty = id NbtTagType.end ∷ []
  compound_bytes (entry name value c) =
      (id (tag_type value) ∷ []) ++ (wire name ++ (payload_bytes value ++ compound_bytes c))

-- `m` appends the bytes to the output
pub record Writes (m : NbtWriter) (bytes : List ℕ) : Type 0 where
  pub at : (w : CodecWriter) → m w ≡ (ok tt, record { output = w.output ++ bytes })

pub Writes-bind :
    (m k : NbtWriter) (front back : List ℕ)
    → Writes m front
    → Writes k back
    → Writes (m >> k) (front ++ back)
Writes-bind m k front back dm dk = record {
  at = λ w.
      rw (dm.at w, dk.at (record { output = w.output ++ front }))
        (ap (λ o. (ok tt, record { output = o })) (append_assoc w.output front back));
}

pub Writes-done : Writes (pure tt) []
Writes-done = record {
  at = λ w. ap (λ o. (ok tt, record { output = o })) (sym (append-nil w.output));
}

pub Writes-bytes : (bytes : List ℕ) → Writes (writing (write_bytes bytes)) bytes
unfolding write_bytes
Writes-bytes bytes = record { at = λ w. refl }

pub Writes-u8 : (byte : ℕ) → Writes (writing (write_u8 byte)) (byte ∷ [])
unfolding write_u8
Writes-u8 byte = record { at = λ w. refl }

pub Writes-i32 : (v : ℤ) → Writes (writing (write_i32 v)) (written (write_i32 v))
unfolding write_i32
Writes-i32 v = Writes-bytes _

pub Writes-i64 : (v : ℤ) → Writes (writing (write_i64 v)) (written (write_i64 v))
unfolding write_i64
Writes-i64 v = Writes-bytes _

pub Writes-length :
    (count : ℕ) (kind : NbtCollectionKind)
    → count ≤ i32_max
    → Writes (write_length count kind) (length_bytes count)
unfolding write_length collection_length write_i32 write_bytes
Writes-length count kind h = record { at = λ w. rw (le→ltb i32_max count h) refl }

pub Writes-values :
    {A : Type 0} (write : A → Writer)
    → ((v : A) → Writes (writing (write v)) (written (write v)))
    → (vs : List A) → Writes (writing (write_values write vs)) (values_bytes write vs)
unfolding write_values
Writes-values write d [] = Writes-done
Writes-values write d (v ∷ vs) =
    Writes-bind (writing (write v)) (writing (write_values write vs)) _ _ (d v)
      (Writes-values write d vs)

pub Writes-string :
    (s : NbtString) (limits : NbtLimits)
    → AreUnits s.utf16_units
    → encoded_len s ≤ max_string_encoded_bytes limits
    → Writes (NbtString.encode s limits) (wire s)
Writes-string s limits a fits = record { at = encode-wire s limits a fits }
