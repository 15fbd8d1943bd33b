-- ===== src/Protocol/Frame/Codes.antt =====
-- What `encode_frame` writes, and `next_frame` on it.
use cubic.Common.{ℕ, ◌+◌, ◌≤◌, ◌≡◌, arith}
use cubic.Common.{List, ◌++◌, length, some, get_range, get_range-append}
use cubic.Common.Int.{pos}
use cubic.Common.Result.{ok}
use cubic.Protocol.Writer
use cubic.Protocol.Writer.{write_bytes}
use cubic.Protocol.Length.RoundTrip.{prefix, write_length-prefix}
use cubic.Protocol.VarInt.{complete, decode_partial_var_int}
use cubic.Protocol.VarInt.Groups.{groups_fit, groups_shape}
use cubic.Protocol.VarInt.Prefix.{decode_partial_var_int-groups}
use cubic.Protocol.Frame.{encode_frame, minecraft_max_frame_size}

-- the bytes of a frame
abbrev pub framing : List ℕ → List ℕ
framing body = prefix (length body) ++ body

pub encode_frame-framing :
    (body : List ℕ) (max : ℕ)
    → length body ≤ max
    → length body ≤ minecraft_max_frame_size
    → encode_frame body max ≡ ok (framing body)
unfolding encode_frame write_bytes
encode_frame-framing body max h k =
    ground (arith, write_length-prefix (length body) "frame length" Writer.new)

pub encode_frame_inv :
    (body : List ℕ) (max : ℕ) (bytes : List ℕ)
    → encode_frame body max ≡ ok bytes
    → (length body ≤ max) × (length body ≤ minecraft_max_frame_size) × (bytes ≡ framing body)
unfolding encode_frame write_bytes
encode_frame_inv body max bytes e =
    ground (arith, write_length-prefix (length body) "frame length" Writer.new)

-- A frame prefix has 1 to 3 bytes.
pub length-prefix :
    (count : ℕ)
    → count ≤ minecraft_max_frame_size
    → (1 ≤ length (prefix count)) × (length (prefix count) ≤ 3)
length-prefix count h =
    let (_, lo, _) = groups_shape 4 count (omega arith) in (lo, groups_fit 2 4 count (omega arith))

pub decode_prefix :
    (count : ℕ) (rest : List ℕ)
    → count ≤ minecraft_max_frame_size
    → decode_partial_var_int (prefix count ++ rest) ≡ complete (pos count) (length (prefix count))
decode_prefix count rest h = decode_partial_var_int-groups (pos count) rest (omega arith)

-- The body lies behind the prefix.
pub body_range :
    (body rest : List ℕ)
    → get_range
        (framing body ++ rest)
        (length (prefix (length body)))
        (length (prefix (length body)) + length body)
      ≡ some body
body_range body rest = get_range-append (prefix (length body)) body rest
