-- ===== src/Protocol/Handshake/Carried.antt =====
-- What a handshake carries: its fields, read back in their order.
use cubic.Common.{ℕ, ◌^◌, ◌≤◌, ◌<◌, ◌≡◌, ap, ◌∙◌, arith}
use cubic.Common.{List, ◌++◌, length, length-append, append_assoc}
use cubic.Common.Int.{ℤ, IsSigned, to_unsigned, to_unsigned-lt}
use cubic.Common.Result.{ok}
use cubic.Common.Exec.{pure, ◌>>=◌}
use cubic.Protocol.Reader.{Reader, read_u16}
use cubic.Protocol.Reader.Decodes.{Decodes, Decodes-bind, Decodes-map}
use cubic.Protocol.Reader.Fixed.{read_u16-write_u16}
use cubic.Protocol.Writer.{CodecWriter, new, written, write_u16, write_bytes, to_be}
use cubic.Protocol.VarInt.{read_var_int}
use cubic.Protocol.VarInt.Groups.{groups, groups_shape}
use cubic.Protocol.VarInt.RoundTrip.{read_var_int-write_var_int, write_var_int-groups}
use cubic.Protocol.Length.RoundTrip.{prefix}
use cubic.Protocol.Frame.Codes.{framing, encode_frame-framing}
use cubic.Protocol.Text.{max_encoded_bytes, read_string, utf8, utf16_units}
use cubic.Protocol.Text.Utf8.{IsText, length-utf8}
use cubic.Protocol.Text.RoundTrip.{
  string_bytes, write_string-string_bytes, read_string-Decodes, length-max_encoded_bytes,
}
use cubic.Protocol.Handshake.{
  Handshake, HandshakeNextState, handshake_packet_id, host_limits, state_id, write_handshake,
  encode_handshake,
}

-- a handshake as a server reads it: the id, the version, the address, the port and the next state
abbrev pub read_handshake : Reader (ℤ × (ℤ × (List ℕ × (ℕ × ℤ))))
read_handshake = do
  id ← read_var_int
  version ← read_var_int
  address ← read_string host_limits
  port ← read_u16
  next ← read_var_int
  pure (id, (version, (address, (port, next))))

abbrev pub fields : Handshake → ℤ × (ℤ × (List ℕ × (ℕ × ℤ)))
fields h = (
  handshake_packet_id,
  (h.protocol_version, (h.server_address, (h.server_port, state_id h.next_state))),
)

abbrev pub var_bytes : ℤ → List ℕ
var_bytes value = groups 4 (to_unsigned (2 ^ 31) value)

var_int-Decodes :
    (value : ℤ) → IsSigned (2 ^ 31) value → Decodes read_var_int (var_bytes value) value
var_int-Decodes value h =
    rw (write_var_int-groups value new h, written) at (read_var_int-write_var_int value h)

length-var_bytes : (value : ℤ) → IsSigned (2 ^ 31) value → length (var_bytes value) ≤ 5
length-var_bytes value h =
    (groups_shape 4 (to_unsigned (2 ^ 31) value) (omega (arith, to_unsigned-lt (2 ^ 31) value h))).2

abbrev payload : Handshake → List ℕ
payload h =
    var_bytes handshake_packet_id
    ++ (var_bytes h.protocol_version
        ++ (string_bytes h.server_address
            ++ (to_be 2 h.server_port ++ var_bytes (state_id h.next_state))))

state-IsSigned : (s : HandshakeNextState) → IsSigned (2 ^ 31) (state_id s)
state-IsSigned HandshakeNextState.status = omega arith
state-IsSigned HandshakeNextState.login = omega arith

-- an i32, text of at most 255 UTF-16 units, and a u16
pub record IsHandshake (h : Handshake) : Type 0 where
  pub version : IsSigned (2 ^ 31) h.protocol_version
  pub text : IsText h.server_address
  pub units : utf16_units h.server_address ≤ 255
  pub port : h.server_port < 2 ^ 16

port-Decodes : (port : ℕ) → port < 2 ^ 16 → Decodes read_u16 (to_be 2 port) port
unfolding write_u16 write_bytes
port-Decodes port h = read_u16-write_u16 port h

abbrev record_of : List ℕ → CodecWriter
record_of bytes = record { output = bytes }

module _ (h : Handshake) (v : IsHandshake h) where
  host_fits : length (utf8 h.server_address) ≤ 765
  host_fits = omega (arith, length-utf8 h.server_address, v.units)

  within_host_limits : length (utf8 h.server_address) ≤ max_encoded_bytes host_limits
  within_host_limits = length-max_encoded_bytes h.server_address host_limits (omega arith) v.units

  payload-Decodes : Decodes read_handshake (payload h) (fields h)
  payload-Decodes =
      Decodes-bind read_var_int _ (var_bytes handshake_packet_id) _ handshake_packet_id (fields h)
        (var_int-Decodes handshake_packet_id (omega arith))
        (Decodes-bind read_var_int _ (var_bytes h.protocol_version) _ h.protocol_version (fields h)
          (var_int-Decodes h.protocol_version v.version)
          (Decodes-bind (read_string host_limits) _ (string_bytes h.server_address) _
            h.server_address (fields h)
            (read_string-Decodes h.server_address host_limits v.units within_host_limits
              (omega (arith, host_fits)) v.text)
            (Decodes-bind read_u16 _ (to_be 2 h.server_port) _ h.server_port (fields h)
              (port-Decodes h.server_port v.port)
              (Decodes-map read_var_int _ (var_bytes (state_id h.next_state))
                (state_id h.next_state)
                (var_int-Decodes (state_id h.next_state) (state-IsSigned h.next_state))))))

  written_payload : write_handshake h new ≡ (ok tt, record { output = payload h })
  unfolding write_handshake write_u16 write_bytes
  written_payload =
      let id = var_bytes handshake_packet_id in
      let version = var_bytes h.protocol_version in
      let address = string_bytes h.server_address in
      let port = to_be 2 h.server_port in
      let next = var_bytes (state_id h.next_state) in
      let behind = λ (bytes : List ℕ). record_of bytes in
      rw
        (
          write_var_int-groups handshake_packet_id new (omega arith),
          write_var_int-groups h.protocol_version (behind id) v.version,
          write_string-string_bytes h.server_address host_limits v.units within_host_limits
              (omega (arith, host_fits)) (behind (id ++ version)),
          write_var_int-groups (state_id h.next_state)
              (behind (((id ++ version) ++ address) ++ port)) (state-IsSigned h.next_state),
        )
        (ap (λ o. (ok tt, record { output = o }))
          (append_assoc ((id ++ version) ++ address) port next
            ∙ append_assoc (id ++ version) address (port ++ next)
            ∙ append_assoc id version (address ++ (port ++ next))))

  length-payload : length (payload h) ≤ 800
  unfolding to_be
  length-payload =
      let id = var_bytes handshake_packet_id in
      let version = var_bytes h.protocol_version in
      let address = string_bytes h.server_address in
      let port = to_be 2 h.server_port in
      let next = var_bytes (state_id h.next_state) in
      let size = length (utf8 h.server_address) in
      omega (
        arith,
        length-append id (version ++ (address ++ (port ++ next))),
        length-append version (address ++ (port ++ next)),
        length-append address (port ++ next),
        length-append (prefix size) (utf8 h.server_address),
        length-var_bytes handshake_packet_id (omega arith),
        length-var_bytes h.protocol_version v.version,
        length-var_bytes (state_id h.next_state) (state-IsSigned h.next_state),
        (groups_shape 4 size (omega (arith, host_fits))).2,
        host_fits,
      )

  -- With an i32 version, an address of at most 255 UTF-16 units and a u16 port, a handshake is
  -- encoded wherever a frame may have 800 bytes, and the frame's body decodes to the packet's id and
  -- the fields in their order.
  pub encode_handshake_lem :
      (max : ℕ)
      → 800 ≤ max
      → (body : List ℕ) × (encode_handshake h max ≡ ok (framing body))
        × Decodes read_handshake body (fields h)
  unfolding encode_handshake
  encode_handshake_lem max room = (
    payload h,
    rw written_payload (
        encode_frame-framing (payload h) max (omega (arith, length-payload))
          (omega (arith, length-payload))),
    payload-Decodes,
  )
