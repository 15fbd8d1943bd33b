-- ===== src/Network/Transforms.antt =====
-- transforms.rs: packet compression and stream encryption around the frames. The zlib and AES crates
-- are parameters.
pub mod Compression
pub mod Inflation
use cubic.Common.{
  ℕ, zero, suc, ◌+◌, ◌-◌, ◌*◌, ◌^◌, ◌≤◌, ◌<◌, ◌≡◌, Bool, Option, some, none, List, [], ◌∷◌, ◌++◌,
}
use cubic.Common.{length, take, ltb, leb, ◌==◌, if◌then◌else◌}
use cubic.Common.Int.{ℤ, pos, negsuc}
use cubic.Common.Result
use cubic.Common.Result.{Result, ok, err, map_err, ok_or}
use cubic.Common.Exec.{Exec}
use cubic.Protocol.Error.{CodecError}
use cubic.Protocol.Reader.{CodecReader, read_remaining}
use cubic.Protocol.Reader
use cubic.Protocol.Writer.{CodecWriter, write_bytes}
use cubic.Protocol.Writer
use cubic.Protocol.VarInt.{read_var_int, write_var_int}
use cubic.Protocol.Frame.{
  FrameLimits, FrameDecoder, new_decoder, push, next_frame, buffered_len, encode_frame,
}

pub data TransformError : Type 0 where
  invalid_secret invalid_outbound_frame : TransformError
  invalid_compression_threshold : ℤ → TransformError
  negative_decompressed_length : ℤ → TransformError
  decompressed_too_large : ℕ → ℕ → TransformError
  decompressed_length_mismatch : ℕ → ℕ → TransformError
  compressed_below_threshold : ℕ → ℕ → TransformError
  compression : TransformError
  framing : CodecError → TransformError

-- The flate2 crate: `compress` is the encoder's `write_all` and `finish`, and `decompress input
-- limit` reads at most `limit` bytes of what the decoder yields. `none` is an I/O error.
pub record Zlib : Type 0 where
  pub compress : List ℕ → Option (List ℕ)
  pub decompress : List ℕ → ℕ → Option (List ℕ)

-- What the code relies on: a stream is inflated to what was deflated.
pub record IsLossless (z : Zlib) : Type 0 where
  pub inflates :
      (plain packed : List ℕ) (limit : ℕ)
      → z.compress plain ≡ some packed
      → z.decompress packed limit ≡ some (take limit plain)

-- The aes and cfb8 crates: the keyed states of a stream cipher.
pub record StreamCipher : Type 1 where
  pub State : Type 0
  pub encryptor : List ℕ → Option State
  pub decryptor : List ℕ → Option State
  pub encrypt : State → List ℕ → List ℕ × State
  pub decrypt : State → List ℕ → List ℕ × State

-- What the code relies on: the state carries on from piece to piece, and no byte is added or lost.
pub record IsContinuous (c : StreamCipher) : Type 0 where
  pub pieces :
      (s : c.State) (a b : List ℕ)
      → (c.decrypt s (a ++ b)).0 ≡ (c.decrypt s a).0 ++ (c.decrypt (c.decrypt s a).1 b).0
  pub state :
      (s : c.State) (a b : List ℕ) → (c.decrypt s (a ++ b)).1 ≡ (c.decrypt (c.decrypt s a).1 b).1
  pub empty : (s : c.State) → c.decrypt s [] ≡ ([], s)
  pub same_length : (s : c.State) (a : List ℕ) → length (c.decrypt s a).0 ≡ length a

pub record WireTransforms (c : StreamCipher) : Type 0 where
  pub encryptor : Option c.State
  pub decryptor : Option c.State
  pub compression_threshold : Option ℕ
  pub frame_limits : FrameLimits

-- `extract_single_frame`: a whole frame and nothing behind it. The two reservations are answered by
-- `stored` and `copied`.
single : Result (Option (List ℕ)) CodecError × FrameDecoder → Result (List ℕ) TransformError
single (err e, d) = err (framing e)
single (ok none, d) = err invalid_outbound_frame
single (ok (some frame), d) = if buffered_len d == 0 then ok frame else err invalid_outbound_frame

single_after : Bool → Result (Unit {0}) CodecError × FrameDecoder → Result (List ℕ) TransformError
unfolding single
single_after copied (err e, d) = err (framing e)
single_after copied (ok done, d) = single (next_frame copied d)

unfoldable pub extract_single_frame :
    Bool → Bool → List ℕ → FrameLimits → Result (List ℕ) TransformError
unfolding single_after
extract_single_frame stored copied bytes limits =
    single_after copied (push stored bytes (new_decoder limits))

module _ (z : Zlib) where
  with_packed : List ℕ → ℕ → Option (List ℕ) → Result (List ℕ) TransformError
  with_packed body max none = err compression
  with_packed body max (some packed) =
      map_err framing (
        encode_frame (write_bytes packed (write_var_int (pos (length body)) Writer.new)).output max)

  unfoldable pub encode_compressed : List ℕ → ℕ → ℕ → Result (List ℕ) TransformError
  unfolding with_packed write_bytes
  encode_compressed body threshold max =
      if leb threshold (length body)
      then (if ltb (2 ^ 31 - 1) (length body)
          then err (decompressed_too_large (length body) max)
          else with_packed body max (z.compress body))
      else map_err framing
          (encode_frame (write_bytes body (write_var_int (pos 0) Writer.new)).output max)

  check_length : ℕ → Option (List ℕ) → Result (List ℕ) TransformError
  check_length declared none = err compression
  check_length declared (some output) =
      if length output == declared
      then ok output
      else err (decompressed_length_mismatch declared (length output))

  -- `max + 1` does not overflow: frame limits are below 2 ^ 21.
  inflate : ℤ → List ℕ → ℕ → ℕ → Result (List ℕ) TransformError
  unfolding check_length
  inflate (negsuc n) compressed threshold max = err (negative_decompressed_length (negsuc n))
  inflate (pos declared) compressed threshold max =
      if declared == 0
      then (if leb threshold (length compressed)
          then err (decompressed_length_mismatch 0 (length compressed))
          else ok compressed)
      else if ltb max declared
      then err (decompressed_too_large declared max)
      else if ltb declared threshold
      then err (compressed_below_threshold declared threshold)
      else check_length declared (z.decompress compressed (max + 1))

  unfoldable pub after_length :
      Result ℤ CodecError × CodecReader → ℕ → ℕ → Result (List ℕ) TransformError
  unfolding inflate read_remaining
  after_length (err e, r) threshold max = err (framing e)
  after_length (ok declared, r) threshold max = inflate declared (read_remaining r).0 threshold max

  unfoldable pub decode_compressed : List ℕ → ℕ → ℕ → Result (List ℕ) TransformError
  decode_compressed payload threshold max =
      after_length (read_var_int (Reader.new payload)) threshold max

module _ (c : StreamCipher) where
  -- `WireTransforms::new`
  abbrev pub new_transforms : FrameLimits → WireTransforms c
  new_transforms limits = record {
    encryptor = none;
    decryptor = none;
    compression_threshold = none;
    frame_limits = limits;
  }

  -- `enable_encryption` sets the encryptor before it asks for the decryptor.
  keyed : Option c.State → Option c.State → Exec (WireTransforms c) TransformError (Unit {0})
  keyed none _ t = (err invalid_secret, t)
  keyed (some e) none t = (err invalid_secret, record t { encryptor = some e })
  keyed (some e) (some d) t = (ok tt, record t { encryptor = some e; decryptor = some d })

  unfoldable pub enable_encryption : List ℕ → Exec (WireTransforms c) TransformError (Unit {0})
  unfolding keyed
  enable_encryption secret = keyed (c.encryptor secret) (c.decryptor secret)

  unfoldable pub enable_compression : ℤ → Exec (WireTransforms c) TransformError (Unit {0})
  enable_compression (negsuc n) t = (err (invalid_compression_threshold (negsuc n)), t)
  enable_compression (pos threshold) t =
      (ok tt, record t { compression_threshold = some threshold })

  unfoldable pub decrypt_with :
      Option c.State → List ℕ → WireTransforms c → List ℕ × WireTransforms c
  decrypt_with none bytes t = (bytes, t)
  decrypt_with (some s) bytes t =
      ((c.decrypt s bytes).0, record t { decryptor = some (c.decrypt s bytes).1 })

  unfoldable pub decrypt_in_place : List ℕ → WireTransforms c → List ℕ × WireTransforms c
  decrypt_in_place bytes t = decrypt_with t.decryptor bytes t

  encrypt_with :
      Option c.State → List ℕ → WireTransforms c → Result (List ℕ) TransformError × WireTransforms c
  encrypt_with none bytes t = (ok bytes, t)
  encrypt_with (some s) bytes t =
      (ok (c.encrypt s bytes).0, record t { encryptor = some (c.encrypt s bytes).1 })

  packed : Zlib → List ℕ → List ℕ → Option ℕ → ℕ → Result (List ℕ) TransformError
  packed z framed body none max = ok framed
  packed z framed body (some threshold) max = encode_compressed z body threshold max

  sealed :
      Result (List ℕ) TransformError
      → WireTransforms c
      → Result (List ℕ) TransformError × WireTransforms c
  unfolding encrypt_with
  sealed (err e) t = (err e, t)
  sealed (ok output) t = encrypt_with t.encryptor output t

  unfoldable pub encode_outbound :
      Zlib → Bool → Bool → List ℕ → Exec (WireTransforms c) TransformError (List ℕ)
  unfolding packed sealed
  encode_outbound z stored copied framed t =
      sealed
        (Result.◌>>=◌ (extract_single_frame stored copied framed t.frame_limits)
          (λ body. packed z framed body t.compression_threshold t.frame_limits.max_frame_size))
        t

  body_of : Zlib → List ℕ → Option ℕ → ℕ → Result (List ℕ) TransformError
  body_of z body none max = ok body
  body_of z body (some threshold) max = decode_compressed z body threshold max

  unfoldable pub decode_frame_body :
      Zlib → List ℕ → WireTransforms c → Result (List ℕ) TransformError
  unfolding body_of
  decode_frame_body z body t = body_of z body t.compression_threshold t.frame_limits.max_frame_size
