-- ===== src/Protocol/Handshake.antt =====
-- handshake.rs: the first packet of a connection.
pub mod Carried
use cubic.Common.{ℕ, ◌*◌, List, ◌++◌}
use cubic.Common.Int.{ℤ, pos}
use cubic.Common.Result.{Result, ok, err}
use cubic.Common.Exec.{◌>>=◌, ◌>>◌}
use cubic.Protocol.Error.{CodecError}
use cubic.Protocol.Writer.{CodecWriter, write_u16}
use cubic.Protocol.Writer
use cubic.Protocol.VarInt.{write_var_int}
use cubic.Protocol.Length.{TryWriter, just}
use cubic.Protocol.Frame.{encode_frame}
use cubic.Protocol.Text.{StringLimits, write_string}

abbrev pub handshake_packet_id : ℤ
handshake_packet_id = pos 0

abbrev pub max_handshake_host_utf16_units : ℕ
max_handshake_host_utf16_units = 255

pub data HandshakeNextState : Type 0 where
  status login : HandshakeNextState

-- `next_state as i32`
abbrev pub state_id : HandshakeNextState → ℤ
state_id HandshakeNextState.status = pos 1
state_id HandshakeNextState.login = pos 2

pub record Handshake : Type 0 where
  pub protocol_version : ℤ
  pub server_address : List ℕ
  pub server_port : ℕ
  pub next_state : HandshakeNextState

abbrev pub host_limits : StringLimits
host_limits = record {
  max_utf16_units = max_handshake_host_utf16_units;
  encoded_bytes = max_handshake_host_utf16_units * 3;
}

unfoldable pub write_handshake : Handshake → TryWriter
write_handshake h = do
  just (write_var_int handshake_packet_id)
  just (write_var_int h.protocol_version)
  write_string h.server_address host_limits
  just (write_u16 h.server_port)
  just (write_var_int (state_id h.next_state))

framed_packet : Result (Unit {0}) CodecError × CodecWriter → ℕ → Result (List ℕ) CodecError
framed_packet (ok done, w) max = encode_frame w.output max
framed_packet (err e, w) max = err e

unfoldable pub encode_handshake : Handshake → ℕ → Result (List ℕ) CodecError
unfolding framed_packet
encode_handshake h max_frame_size = framed_packet (write_handshake h Writer.new) max_frame_size
