-- ===== src/Network/Transforms/Inflation.antt =====
-- Which payloads a body is decompressed from.
use cubic.Common.{
  ℕ, ◌+◌, ◌≤◌, ◌<◌, ◌≡◌, refl, true, false, sym, ap, subst, arith, Option, some, none, List,
}
use cubic.Common.{◌==◌, length, ltb, leb, ◌⊎◌, ◌↔◌, inl, inr, Bool-cases}
use cubic.Common.Int.{ℤ, pos, negsuc}
use cubic.Common.Result.{Result, ok, err, ok_injective}
use cubic.Protocol.Error.{CodecError}
use cubic.Protocol.Reader.{CodecReader, read_remaining}
use cubic.Protocol.Reader
use cubic.Protocol.VarInt.{read_var_int}
use cubic.Network.Transforms.{Zlib, decode_compressed, after_length, inflate, check_length}

some_injective : {A : Type 0} (a b : A) → (let x : Option A = some a in x ≡ some b) → a ≡ b
some_injective a b e = ground (arith, e)

pos_injective : (a b : ℕ) → pos a ≡ pos b → a ≡ b
pos_injective a b e = ground (arith, e)

module _ (z : Zlib) where
  -- The bytes behind the declared length are the body, below the threshold, where the declared
  -- length is 0; else zlib makes of them a body of the declared length, which is at the threshold or
  -- above it and within the limit.
  pub Declared : ℤ → List ℕ → List ℕ → ℕ → ℕ → Type 0
  Declared declared packed body threshold max =
      ((declared ≡ pos 0) × (body ≡ packed) × (length body < threshold))
      ⊎ ((declared ≡ pos (length body))
          × (0 < length body)
          × (threshold ≤ length body)
          × (length body ≤ max)
          × (z.decompress packed (max + 1) ≡ some body))

  check_length_iff :
      (declared : ℕ) (output : Option (List ℕ)) (body : List ℕ)
      → (check_length z declared output ≡ ok body)
        ↔ ((output ≡ some body) × (declared ≡ length body))
  unfolding check_length
  check_length_iff declared none body =
      (λ e. absurd (ground (arith, e)), λ h. absurd (ground (arith, h.0)))
  check_length_iff declared (some output) body = elim (Bool-cases (length output == declared)) [
    | inl same ↦ (
      λ e.
          let b = ok_injective output body (rw same at e) in
          (ap some b, ground (arith, same, ap length b)),
      λ h. rw same (ap ok (some_injective output body h.0)),
    )
    | inr other ↦ (
      λ e. absurd (ground (arith, rw other at e)),
      λ h. ground (arith, other, h.1, ap length (some_injective output body h.0)),
    )
  ]

  inflate_iff :
      (declared : ℤ) (packed body : List ℕ) (threshold max : ℕ)
      → (inflate z declared packed threshold max ≡ ok body)
        ↔ Declared declared packed body threshold max
  unfolding inflate check_length Declared
  inflate_iff (negsuc n) packed body threshold max =
      (λ e. absurd (ground (arith, e)), λ h. absurd (ground (arith, h)))
  inflate_iff (pos declared) packed body threshold max =
      let checked = check_length_iff declared (z.decompress packed (max + 1)) body in
      (
        λ e. elim (Bool-cases (declared == 0)) [
          | inl none_declared ↦ elim (Bool-cases (leb threshold (length packed))) [
            | inl over ↦ absurd (ground (arith, rw (none_declared, over) at e))
            | inr under ↦
                let b = ok_injective packed body (rw (none_declared, under) at e) in
                inl (
                  ap pos (ground (arith, none_declared)),
                  sym b,
                  ground (arith, under, ap length b),
                )
          ]
          | inr some_declared ↦ elim (Bool-cases (ltb max declared)) [
            | inl large ↦ absurd (ground (arith, rw (some_declared, large) at e))
            | inr fits ↦ elim (Bool-cases (ltb declared threshold)) [
              | inl small ↦ absurd (ground (arith, rw (some_declared, fits, small) at e))
              | inr over ↦
                  let (out, d) = checked.0 (rw (some_declared, fits, over) at e) in
                  inr (
                    ap pos d,
                    ground (arith, some_declared, d),
                    ground (arith, over, d),
                    ground (arith, fits, d),
                    out,
                  )
            ]
          ]
        ],
        λ h. elim h [
          | inl (d, b, under) ↦
              let none_declared : (declared == 0) ≡ true =
                ground (arith, pos_injective declared 0 d) in
              let short : leb threshold (length packed) ≡ false =
                ground (arith, under, ap length b) in
              rw (none_declared, short) (ap ok (sym b))
          | inr (d, some_bytes, over, fits, out) ↦
              let same = pos_injective declared (length body) d in
              let some_declared : (declared == 0) ≡ false = ground (arith, same, some_bytes) in
              let within : ltb max declared ≡ false = ground (arith, same, fits) in
              let reaches : ltb declared threshold ≡ false = ground (arith, same, over) in
              rw (some_declared, within, reaches) (checked.1 (out, same))
        ],
      )

  after_length_iff :
      (r : Result ℤ CodecError × CodecReader) (body : List ℕ) (threshold max : ℕ)
      → (after_length z r threshold max ≡ ok body) ↔ (
          (declared : ℤ) × (r.0 ≡ ok declared)
          × Declared declared (read_remaining r.1).0 body threshold max)
  unfolding after_length
  after_length_iff (err e, r) body threshold max =
      (λ f. absurd (ground (arith, f)), λ h. absurd (ground (arith, h.1)))
  after_length_iff (ok declared, r) body threshold max =
      let (to, from) = inflate_iff declared (read_remaining r).0 body threshold max in
      (
        λ e. (declared, refl, to e),
        λ h. from (
            subst (λ d. Declared d _ body threshold max) (sym (ok_injective declared h.0 h.1)) h.2),
      )

  -- decode_compressed returns a body just where a declared length can be read and what is behind it
  -- gives the body: as it stands, below the threshold, where the declared length is 0; else
  -- inflated by zlib, of just the declared length, which reaches the threshold and is within the
  -- limit.
  pub decode_compressed_iff :
      (payload body : List ℕ) (threshold max : ℕ)
      → (decode_compressed z payload threshold max ≡ ok body) ↔ (
          (declared : ℤ) × ((read_var_int (Reader.new payload)).0 ≡ ok declared)
          × Declared declared
              (read_remaining (read_var_int (Reader.new payload)).1).0
              body
              threshold
              max)
  unfolding decode_compressed
  decode_compressed_iff payload body threshold max =
      after_length_iff (read_var_int (Reader.new payload)) body threshold max
