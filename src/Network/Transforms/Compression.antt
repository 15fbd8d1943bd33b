-- ===== src/Network/Transforms/Compression.antt =====
-- What is compressed is decompressed to the same body.
use cubic.Common.{
  ℕ, ◌+◌, ◌-◌, ◌^◌, ◌≤◌, ◌<◌, ◌≡◌, refl, ap, ◌∙◌, arith, Option, some, none, List, ◌++◌,
}
use cubic.Common.{
  length, ltb, leb, length-append, drop-length_append, take_all, inl, inr, Bool-cases,
}
use cubic.Common.Int.{pos}
use cubic.Common.Result.{Result, ok, err, map_err}
use cubic.Protocol.Error.{CodecError}
use cubic.Protocol.Reader.{CodecReader, read_remaining}
use cubic.Protocol.Reader
use cubic.Protocol.Reader.Decodes.{IsValid, advance}
use cubic.Protocol.Writer.{CodecWriter, write_bytes, written}
use cubic.Protocol.Writer
use cubic.Protocol.Length.RoundTrip.{prefix}
use cubic.Protocol.VarInt.{write_var_int}
use cubic.Protocol.VarInt.RoundTrip.{write_var_int-groups, read_var_int-write_var_int}
use cubic.Protocol.Frame.{encode_frame}
use cubic.Protocol.Frame.Codes.{framing, encode_frame_inv}
use cubic.Network.Transforms.{
  framing as framing_error, Zlib, IsLossless, encode_compressed, decode_compressed, after_length,
  inflate, check_length, with_packed,
}

-- the payload of a compressed packet
abbrev pub packet : ℕ → List ℕ → List ℕ
packet declared rest = prefix declared ++ rest

payload_bytes :
    (declared : ℕ) (rest : List ℕ)
    → declared < 2 ^ 31
    → (write_bytes rest (write_var_int (pos declared) Writer.new)).output ≡ packet declared rest
unfolding write_bytes
payload_bytes declared rest h = rw (write_var_int-groups (pos declared) Writer.new h)

read_remaining_behind :
    (front rest : List ℕ)
    → (read_remaining (advance (length front) (Reader.new (front ++ rest)))).0 ≡ rest
unfolding read_remaining
read_remaining_behind front rest =
    ground (arith, drop-length_append front rest, length-append front rest)

module _ (z : Zlib) where
  decode_packet :
      (declared : ℕ) (rest : List ℕ) (threshold max : ℕ)
      → declared < 2 ^ 31
      → length (packet declared rest) < 2 ^ 63
      → decode_compressed z (packet declared rest) threshold max
        ≡ inflate z (pos declared) rest threshold max
  unfolding decode_compressed after_length
  decode_packet declared rest threshold max h k =
      let valid : IsValid (Reader.new (packet declared rest)) = record {
        within = omega arith;
        addressable = k;
      } in
      let reads =
        rw (write_var_int-groups (pos declared) Writer.new h, written) at
          (read_var_int-write_var_int (pos declared) h) in
      rw (reads.at (Reader.new (packet declared rest)) rest valid refl) (
        ap (λ l. inflate z (pos declared) l threshold max)
          (read_remaining_behind (prefix declared) rest))

  inflate_packed :
      (body packed : List ℕ) (threshold max : ℕ)
      → IsLossless z
      → z.compress body ≡ some packed
      → 0 < length body
      → length body ≤ max
      → threshold ≤ length body
      → inflate z (pos (length body)) packed threshold max ≡ ok body
  unfolding inflate check_length
  inflate_packed body packed threshold max l e some_bytes fits over =
      ground (arith, l.inflates body packed (max + 1) e, take_all (max + 1) body)

  inflate_plain :
      (body : List ℕ) (threshold max : ℕ)
      → length body < threshold
      → inflate z (pos 0) body threshold max ≡ ok body
  unfolding inflate
  inflate_plain body threshold max h = ground arith

  -- the payload that `encode_compressed` frames, and that `decode_compressed` takes apart
  abbrev pub Carries : List ℕ → ℕ → ℕ → List ℕ → Type 0
  Carries body threshold max wire =
      (payload : List ℕ) × (wire ≡ framing payload)
      × (length payload ≤ max)
      × (decode_compressed z payload threshold max ≡ ok body)

  framed_packet :
      (body rest wire : List ℕ) (declared threshold max : ℕ)
      → declared < 2 ^ 31
      → encode_frame (packet declared rest) max ≡ ok wire
      → inflate z (pos declared) rest threshold max ≡ ok body
      → Carries body threshold max wire
  framed_packet body rest wire declared threshold max h e i =
      let (fits, small, same) = encode_frame_inv (packet declared rest) max wire e in
      (
        packet declared rest,
        same,
        fits,
        decode_packet declared rest threshold max h (omega (arith, small)) ∙ i,
      )

  map_err-ok :
      {A : Type 0} (r : Result A CodecError) (a : A) → map_err framing_error r ≡ ok a → r ≡ ok a
  map_err-ok (ok b) a h = cc
  map_err-ok (err e) a h = cc

  compressed_case :
      (body wire : List ℕ) (packed : Option (List ℕ)) (threshold max : ℕ)
      → IsLossless z
      → 0 < length body
      → length body ≤ max
      → threshold ≤ length body
      → length body < 2 ^ 31
      → z.compress body ≡ packed
      → with_packed z body max packed ≡ ok wire
      → Carries body threshold max wire
  unfolding with_packed
  compressed_case body wire none threshold max l n fits over small p e = cc
  compressed_case body wire (some packed) threshold max l n fits over small p e =
      framed_packet body packed wire (length body) threshold max small
        (rw (payload_bytes (length body) packed small) at (map_err-ok _ wire e))
        (inflate_packed body packed threshold max l p n fits over)

  -- With a lossless zlib, the frame that `encode_compressed` makes of a body that is not empty and
  -- within the limit holds a payload from which `decode_compressed` returns the body, whether the
  -- body reaches the threshold and is compressed or not.
  pub decode_compressed-encode_compressed :
      (body wire : List ℕ) (threshold max : ℕ)
      → IsLossless z
      → 0 < length body
      → length body ≤ max
      → encode_compressed z body threshold max ≡ ok wire
      → Carries body threshold max wire
  unfolding encode_compressed
  decode_compressed-encode_compressed body wire threshold max l n fits e =
      elim (Bool-cases (leb threshold (length body))) [
        | inl over ↦ elim (Bool-cases (ltb (2 ^ 31 - 1) (length body))) [
          | inl large ↦ ground (arith, over, large)
          | inr small ↦
              compressed_case body wire (z.compress body) threshold max l n fits (ground arith)
                (ground arith) refl (rw (over, small) at e)
        ]
        | inr under ↦
            framed_packet body body wire 0 threshold max (omega arith)
              (rw (payload_bytes 0 body (omega arith)) at (map_err-ok _ wire (rw under at e)))
              (inflate_plain body threshold max (ground arith))
      ]
