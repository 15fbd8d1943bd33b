-- ===== src/Network/Tests.antt =====
-- The theorems on compression and delivery at concrete inputs.
use cubic.Common.{
  ℕ, suc, ◌+◌, ◌-◌, ◌%◌, ◌≡◌, refl, ap, arith, Option, some, none, List, [], ◌∷◌, ◌++◌, length,
  take, ◌↔◌,
}
use cubic.Common.Order.{lt_wf}
use cubic.Common.Int.{ℤ}
use cubic.Common.Result.{ok}
use cubic.Protocol.Reader
use cubic.Protocol.Reader.{read_byte_with_context, read_remaining}
use cubic.Protocol.Writer.{write_bytes, write_u8}
use cubic.Protocol.VarInt.{read_groups, read_var_int, write_groups, write_var_int, add_group}
use cubic.Protocol.VarInt.Groups.{groups}
use cubic.Protocol.Frame.{default_limits, new_decoder, pending, encode_frame}
use cubic.Protocol.Frame.Codes.{framing}
use cubic.Protocol.Frame.Queue.{IsWell}
use cubic.Protocol.Length.{write_length}
use cubic.Network.Transforms.{
  Zlib, IsLossless, StreamCipher, IsContinuous, encode_compressed, decode_compressed, after_length,
}
use cubic.Network.Transforms.Compression.{Carries, decode_compressed-encode_compressed}
use cubic.Network.Transforms.Inflation.{Declared, decode_compressed_iff}
use cubic.Network.Connection.{MinecraftConnection}
use cubic.Network.Connection.Delivery.{plain, joined, Delivers, read_next_frame-Delivers}
use native.Mathlib.Decide.{ℕ_discrete}

-- A zlib that stores: a mark, and the bytes.
inflate_stored : List ℕ → ℕ → Option (List ℕ)
inflate_stored [] limit = none
inflate_stored (mark ∷ bytes) limit = some (take limit bytes)

abbrev storing : Zlib
storing = record { compress = λ bytes. some (0x78 ∷ bytes); decompress = inflate_stored }

inflates_stored :
    (body packed : List ℕ) (limit : ℕ)
    → some (0x78 ∷ body) ≡ some packed
    → inflate_stored packed limit ≡ some (take limit body)
unfolding inflate_stored
inflates_stored body [] limit e = cc
inflates_stored body (mark ∷ bytes) limit e = cc

storing-IsLossless : IsLossless storing
storing-IsLossless = record { inflates = inflates_stored }

abbrev payload_body : List ℕ
payload_body = 4 ∷ 5 ∷ 6 ∷ []

wire_example : encode_compressed storing payload_body 2 64 ≡ ok (5 ∷ 3 ∷ 0x78 ∷ 4 ∷ 5 ∷ 6 ∷ [])
unfolding encode_compressed encode_frame write_length write_var_int write_groups lt_wf ℕ_discrete
    write_u8 write_bytes
wire_example = refl

compression_example : Carries storing payload_body 2 64 (5 ∷ 3 ∷ 0x78 ∷ 4 ∷ 5 ∷ 6 ∷ [])
compression_example =
    decode_compressed-encode_compressed storing payload_body (5 ∷ 3 ∷ 0x78 ∷ 4 ∷ 5 ∷ 6 ∷ []) 2 64
      storing-IsLossless (omega arith) (omega arith) wire_example

inflated_example : decode_compressed storing (3 ∷ 0x78 ∷ 4 ∷ 5 ∷ 6 ∷ []) 2 64 ≡ ok payload_body
unfolding decode_compressed after_length read_var_int read_groups read_byte_with_context add_group
    read_remaining inflate_stored
inflated_example = refl

inflation_example :
    (decode_compressed storing (3 ∷ 0x78 ∷ 4 ∷ 5 ∷ 6 ∷ []) 2 64 ≡ ok payload_body) ↔ (
      (declared : ℤ) × ((read_var_int (Reader.new (3 ∷ 0x78 ∷ 4 ∷ 5 ∷ 6 ∷ []))).0 ≡ ok declared)
      × Declared storing declared
          (read_remaining (read_var_int (Reader.new (3 ∷ 0x78 ∷ 4 ∷ 5 ∷ 6 ∷ []))).1).0
          payload_body
          2
          64)
inflation_example = decode_compressed_iff storing (3 ∷ 0x78 ∷ 4 ∷ 5 ∷ 6 ∷ []) payload_body 2 64

-- A cipher with feedback, as CFB-8 has it: a byte is shifted by the ciphertext byte before it.
decrypt_bytes : ℕ → List ℕ → List ℕ
decrypt_bytes last [] = []
decrypt_bytes last (byte ∷ bytes) = ((byte + 256 - last) % 256) ∷ decrypt_bytes byte bytes

last_byte : ℕ → List ℕ → ℕ
last_byte last [] = last
last_byte last (byte ∷ bytes) = last_byte byte bytes

encrypt_bytes : ℕ → List ℕ → List ℕ × ℕ
encrypt_bytes last [] = ([], last)
encrypt_bytes last (byte ∷ bytes) =
    let sent = (byte + last) % 256 in let rest = encrypt_bytes sent bytes in (sent ∷ rest.0, rest.1)

abbrev feedback : StreamCipher
feedback = record {
  State = ℕ;
  encryptor = λ secret. some 7;
  decryptor = λ secret. some 7;
  encrypt = encrypt_bytes;
  decrypt = λ last bytes. (decrypt_bytes last bytes, last_byte last bytes);
}

decrypt_bytes-append :
    (last : ℕ) (a b : List ℕ)
    → decrypt_bytes last (a ++ b) ≡ decrypt_bytes last a ++ decrypt_bytes (last_byte last a) b
unfolding decrypt_bytes last_byte
decrypt_bytes-append last [] b = refl
decrypt_bytes-append last (x ∷ a) b = rw (decrypt_bytes-append x a b)

last_byte-append :
    (last : ℕ) (a b : List ℕ) → last_byte last (a ++ b) ≡ last_byte (last_byte last a) b
unfolding last_byte
last_byte-append last [] b = refl
last_byte-append last (x ∷ a) b = last_byte-append x a b

length-decrypt_bytes : (last : ℕ) (a : List ℕ) → length (decrypt_bytes last a) ≡ length a
unfolding decrypt_bytes
length-decrypt_bytes last [] = refl
length-decrypt_bytes last (x ∷ a) = ap suc (length-decrypt_bytes x a)

feedback-IsContinuous : IsContinuous feedback
unfolding decrypt_bytes last_byte
feedback-IsContinuous = record {
  pieces = decrypt_bytes-append;
  state = last_byte-append;
  empty = λ s. refl;
  same_length = length-decrypt_bytes;
}

-- an encrypted connection, and a frame of two bytes cut into three reads
abbrev encrypted : MinecraftConnection feedback
encrypted = record {
  decoder = new_decoder default_limits;
  transforms = record {
    encryptor = some 7;
    decryptor = some 7;
    compression_threshold = none;
    frame_limits = default_limits;
  };
}

abbrev reads : List (List ℕ)
reads = (9 ∷ []) ∷ (14 ∷ 20 ∷ []) ∷ (21 ∷ []) ∷ []

encrypted-IsWell : IsWell encrypted.decoder
encrypted-IsWell = record {
  within = omega arith;
  bounded = omega arith;
  frame_size = omega arith;
  word = omega arith;
}

stream_example :
    pending encrypted.decoder ++ plain feedback (some 7) (joined reads)
    ≡ framing (5 ∷ 6 ∷ []) ++ 1 ∷ []
unfolding pending groups decrypt_bytes
stream_example = refl

delivery_example : Delivers feedback storing "Login" encrypted reads (5 ∷ 6 ∷ []) (1 ∷ [])
delivery_example =
    read_next_frame-Delivers feedback storing "Login" (5 ∷ 6 ∷ []) (1 ∷ []) reads encrypted
      feedback-IsContinuous encrypted-IsWell (omega arith) (omega arith) (omega arith)
      stream_example
