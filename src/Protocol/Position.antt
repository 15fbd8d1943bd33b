-- ===== src/Protocol/Position.antt =====
-- position.rs: block positions packed into 64 bits, x in the top 26, z in the next 26, y in the low 12.
pub mod Packing
use cubic.Common.{
  ℕ, ◌+◌, ◌-◌, ◌*◌, ◌/◌, ◌%◌, ◌^◌, bit_and, bit_or, Bool, ◌&&◌, if◌then◌else◌, String,
}
use cubic.Common.Int.{ℤ, pos, negsuc, leb_ℤ, to_signed, to_unsigned}
use cubic.Common.Result.{Result, ok, err, ◌>>=◌, ◌>>◌}
use cubic.Protocol.Error.{CodecError, invalid_block_position}
use cubic.Protocol.Reader.{Reader, read_u64}
use cubic.Protocol.Writer.{write_u64}
use cubic.Protocol.Length.{TryWriter, just}
use cubic.Common.Exec

pub record BlockPosition : Type 0 where
  pub x : ℤ
  pub y : ℤ
  pub z : ℤ

abbrev pub min_xz : ℤ
min_xz = negsuc (2 ^ 25 - 1)

abbrev pub max_xz : ℤ
max_xz = pos (2 ^ 25 - 1)

abbrev pub min_y : ℤ
min_y = negsuc (2 ^ 11 - 1)

abbrev pub max_y : ℤ
max_y = pos (2 ^ 11 - 1)

validate_coordinate : String → ℤ → ℤ → ℤ → Result (Unit {0}) CodecError
validate_coordinate axis value min max =
    if leb_ℤ min value && leb_ℤ value max
    then ok tt
    else err (invalid_block_position axis value min max)

-- `BlockPosition::new`
unfoldable pub new : ℤ → ℤ → ℤ → Result BlockPosition CodecError
unfolding validate_coordinate
new x y z = do
  validate_coordinate "x" x min_xz max_xz
  validate_coordinate "y" y min_y max_y
  validate_coordinate "z" z min_xz max_xz
  ok (record { x = x; y = y; z = z })

-- `as u64` of an i32, by sign extension
abbrev as_u64 : ℤ → ℕ
as_u64 = to_unsigned (2 ^ 63)

-- `(x << 38) | (z << 12) | y` in a u64
unfoldable pub to_packed : BlockPosition → ℕ
to_packed p =
    let x = bit_and (as_u64 p.x) 0x03ff_ffff in
    let z = bit_and (as_u64 p.z) 0x03ff_ffff in
    let y = bit_and (as_u64 p.y) 0x0fff in
    bit_or (bit_or (x * 2 ^ 38 % 2 ^ 64) (z * 2 ^ 12 % 2 ^ 64)) y

-- `>>` on an i32 rounds down
abbrev shift_right : ℤ → ℕ → ℤ
shift_right (pos n) k = pos (n / 2 ^ k)
shift_right (negsuc n) k = negsuc (n / 2 ^ k)

-- `((value << shift) as i32) >> shift`
unfoldable pub sign_extend : ℕ → ℕ → ℤ
sign_extend value bits =
    let shift = 32 - bits in shift_right (to_signed (2 ^ 31) (value * 2 ^ shift % 2 ^ 32)) shift

unfoldable pub from_packed : ℕ → BlockPosition
unfolding sign_extend
from_packed value = record {
  x = sign_extend (value / 2 ^ 38 % 2 ^ 32) 26;
  y = sign_extend (bit_and value 0x0fff % 2 ^ 32) 12;
  z = sign_extend (bit_and (value / 2 ^ 12) 0x03ff_ffff % 2 ^ 32) 26;
}

-- `CodecReader::read_block_position`
unfoldable pub read_block_position : Reader BlockPosition
unfolding from_packed read_u64
read_block_position = Exec.◌>>=◌ read_u64 (λ value. Exec.pure (from_packed value))

-- `CodecWriter::write_block_position`
unfoldable pub write_block_position : ℤ → ℤ → ℤ → TryWriter
unfolding new to_packed write_u64
write_block_position x y z =
    Exec.◌>>=◌ (Exec.lift (new x y z)) (λ position. just (write_u64 (to_packed position)))
