-- ===== src/Protocol/ProtocolUuid.antt =====
-- uuid.rs: 128 bits as 16 bytes.
use cubic.Common.{ℕ, ◌^◌, ◌<◌, ◌≡◌, refl, List, length, arith}
use cubic.Common.Exec.{pure, ◌>>=◌}
use cubic.Protocol.Reader.{Reader, read_array, from_be}
use cubic.Protocol.Reader.Decodes.{Decodes, Decodes-map, read_array-Decodes}
use cubic.Protocol.Writer.{Writer, written, write_bytes, to_be}

pub record ProtocolUuid : Type 0 where
  pub bytes : List ℕ

abbrev pub from_bytes : List ℕ → ProtocolUuid
from_bytes bytes = record { bytes = bytes }

unfoldable pub from_u128 : ℕ → ProtocolUuid
unfolding to_be
from_u128 value = record { bytes = to_be 16 value }

unfoldable pub as_u128 : ProtocolUuid → ℕ
unfolding from_be
as_u128 uuid = from_be uuid.bytes

-- `CodecReader::read_uuid` and `CodecWriter::write_uuid`
unfoldable pub read_uuid : Reader ProtocolUuid
unfolding read_array
read_uuid = do bytes ← read_array 16 "UUID"; pure (from_bytes bytes)

unfoldable pub write_uuid : ProtocolUuid → Writer
unfolding write_bytes
write_uuid uuid = write_bytes uuid.bytes

sixteen :
    (uuid : ProtocolUuid)
    → length uuid.bytes ≡ 16
    → Decodes (read_array 16 "UUID") uuid.bytes uuid.bytes
sixteen uuid h = rw h at (read_array-Decodes "UUID" uuid.bytes)

pub read_uuid-write_uuid :
    (uuid : ProtocolUuid)
    → length uuid.bytes ≡ 16
    → Decodes read_uuid (written (write_uuid uuid)) uuid
unfolding read_uuid write_uuid
read_uuid-write_uuid uuid h =
    Decodes-map (read_array 16 "UUID") from_bytes uuid.bytes uuid.bytes (sixteen uuid h)

-- A UUID made of a 128-bit number gives the number back, and is written to the wire and read back.
pub uuid_round_trips :
    (value : ℕ)
    → value < 2 ^ 128
    → (as_u128 (from_u128 value) ≡ value)
      × Decodes read_uuid (written (write_uuid (from_u128 value))) (from_u128 value)
unfolding as_u128 from_u128
uuid_round_trips value h = (omega arith, read_uuid-write_uuid (from_u128 value) refl)
