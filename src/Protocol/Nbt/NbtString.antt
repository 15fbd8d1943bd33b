-- ===== src/Protocol/Nbt/NbtString.antt =====
-- nbt/string.rs: strings of arbitrary UTF-16 units, in Modified UTF-8. `decode` takes `granted`,
-- which says whether the allocator grants the memory for the units; its state is the reader and the
-- bytes that are charged to the budget so far.
pub mod Units
pub mod RoundTrip
pub mod Bounds
use cubic.Common.{
  ℕ, zero, suc, ◌+◌, ◌-◌, ◌*◌, ◌/◌, ◌%◌, ◌^◌, bit_and, bit_or, Bool, ◌&&◌, Option, some, none,
}
use cubic.Common.{List, [], ◌∷◌, length, drop, get_elem?, ltb, leb, ◌==◌, if◌then◌else◌}
use cubic.Common.Result.{Result, ok, err, map_err}
use cubic.Common.Result
use cubic.Common.Exec.{Exec, pure, raise, lift, ◌>>=◌, ◌>>◌}
use cubic.Protocol.Reader.{CodecReader, Reader, usize_mod, read_u16, read_bytes}
use cubic.Protocol.Writer.{CodecWriter, Writer, write_u8, write_u16}
use cubic.Protocol.Nbt.Error.{
  NbtError, codec, malformed_modified_utf8, string_too_long, allocation_budget_exceeded,
  allocation_failed,
}
use cubic.Protocol.Nbt.Limits.{NbtLimits, max_string_encoded_bytes, u16_max}

pub record NbtString : Type 0 where
  pub utf16_units : List ℕ

unfoldable pub unit_width : ℕ → ℕ
unit_width unit = if leb 1 unit && leb unit 0x7f then 1 else if leb unit 0x07ff then 2 else 3

sum_widths : List ℕ → ℕ
sum_widths [] = 0
sum_widths (unit ∷ units) = unit_width unit + sum_widths units

unfoldable pub encoded_len : NbtString → ℕ
unfolding sum_widths
encoded_len s = sum_widths s.utf16_units

unfoldable pub validate_encoded_length : ℕ → NbtLimits → Result (Unit {0}) NbtError
validate_encoded_length encoded_length limits =
    let max = max_string_encoded_bytes limits in
    if ltb max encoded_length then err (string_too_long encoded_length max) else ok tt

-- the reader, and the budget
abbrev pub Decoding : Type 0 → Type 0
Decoding A = Exec (CodecReader × ℕ) NbtError A

abbrev pub reading : {A : Type 0} → Reader A → Decoding A
reading m (r, budget) = (map_err codec (m r).0, ((m r).1, budget))

-- a change of the budget alone
abbrev pub budgeted : {A : Type 0} → Exec ℕ NbtError A → Decoding A
budgeted m (r, budget) = ((m budget).0, (r, (m budget).1))

unfoldable pub charge_budget : ℕ → NbtLimits → Exec ℕ NbtError (Unit {0})
charge_budget amount limits budget =
    let attempted = budget + amount in
    let max = limits.max_total_allocated_bytes in
    if leb usize_mod attempted
    then (err (allocation_budget_exceeded (usize_mod - 1) max), budget)
    else if ltb max attempted
    then (err (allocation_budget_exceeded attempted max), budget)
    else (ok tt, attempted)

continued : ℕ → Option ℕ → Result ℕ NbtError
continued offset none = err (malformed_modified_utf8 offset)
continued offset (some byte) =
    if bit_and byte 0xc0 == 0x80 then ok byte else err (malformed_modified_utf8 offset)

-- `ahead` is `bytes[start..]`.
unfoldable pub continuation : List ℕ → ℕ → ℕ → Result ℕ NbtError
unfolding continued
continuation ahead start relative = continued (start + relative) (get_elem? ahead relative)

two_bytes : List ℕ → ℕ → ℕ → Result (ℕ × ℕ) NbtError
two_bytes ahead offset first =
    Result.◌>>=◌ (continuation ahead offset 1)
      (λ second. ok (bit_or (bit_and first 0x1f * 2 ^ 6 % 2 ^ 16) (bit_and second 0x3f), 2))

three_bytes : List ℕ → ℕ → ℕ → Result (ℕ × ℕ) NbtError
three_bytes ahead offset first = Result.◌>>=◌ (continuation ahead offset 1) (λ second.
    Result.◌>>=◌ (continuation ahead offset 2) (λ third. ok (
      bit_or (bit_or (bit_and first 0x0f * 2 ^ 12 % 2 ^ 16) (bit_and second 0x3f * 2 ^ 6 % 2 ^ 16))
          (bit_and third 0x3f),
      3,
    )))

-- the `match` on the first byte: the unit and its width
unfoldable pub decode_unit : List ℕ → ℕ → Option ℕ → Result (ℕ × ℕ) NbtError
unfolding two_bytes three_bytes
decode_unit ahead offset none = err (malformed_modified_utf8 offset)
decode_unit ahead offset (some first) =
    if leb first 0x7f
    then ok (first, 1)
    else if leb 0xc0 first && leb first 0xdf
    then two_bytes ahead offset first
    else if leb 0xe0 first && leb first 0xef
    then three_bytes ahead offset first
    else err (malformed_modified_utf8 offset)

-- the loop, on the bytes from the offset on; each round passes a byte at least
unfoldable pub decode_units : ℕ → List ℕ → ℕ → Result (List ℕ) NbtError
decode_units zero ahead offset = ok []
decode_units (suc fuel) [] offset = ok []
decode_units (suc fuel) (first ∷ ahead) offset =
    Result.◌>>=◌ (decode_unit (first ∷ ahead) offset (some first)) (λ found.
      Result.◌>>=◌ (decode_units fuel (drop found.1 (first ∷ ahead)) (offset + found.1))
        (λ units. ok (found.0 ∷ units)))

-- the charge for the units, their reservation, and the loop
unfoldable pub units_of : Bool → NbtLimits → ℕ → List ℕ → Decoding NbtString
units_of granted limits encoded_length bytes = do
  budgeted (charge_budget (encoded_length * 2) limits)
  if granted
      then (do
        units ← lift (decode_units (length bytes) bytes 0)
        pure (record { utf16_units = units }))
      else raise (allocation_failed "NBT string UTF-16 units" encoded_length)

unfoldable pub decode : Bool → NbtLimits → Decoding NbtString
decode granted limits = do
  encoded_length ← reading read_u16
  lift (validate_encoded_length encoded_length limits)
  bytes ← reading (read_bytes encoded_length "NBT Modified UTF-8 bytes")
  units_of granted limits encoded_length bytes

unfoldable pub encode_unit : ℕ → Writer
encode_unit unit w =
    if leb 1 unit && leb unit 0x7f
    then write_u8 (unit % 256) w
    else if leb unit 0x07ff
    then write_u8 (bit_or 0x80 (bit_and unit 0x3f) % 256)
        (write_u8 (bit_or 0xc0 (unit / 2 ^ 6) % 256) w)
    else write_u8 (bit_or 0x80 (bit_and unit 0x3f) % 256) (
        write_u8 (bit_or 0x80 (bit_and (unit / 2 ^ 6) 0x3f) % 256)
          (write_u8 (bit_or 0xe0 (unit / 2 ^ 12) % 256) w))

unfoldable pub encode_units : List ℕ → Writer
encode_units [] w = w
encode_units (unit ∷ units) w = encode_units units (encode_unit unit w)

-- a method on `&mut CodecWriter` that may fail with an NbtError
abbrev pub NbtWriter : Type 0
NbtWriter = Exec CodecWriter NbtError (Unit {0})

unfoldable pub encode : NbtString → NbtLimits → NbtWriter
encode s limits = do
  lift (validate_encoded_length (encoded_len s) limits)
  (λ w.
      if ltb u16_max (encoded_len s)
      then (err (string_too_long (encoded_len s) u16_max), w)
      else (ok tt, encode_units s.utf16_units (write_u16 (encoded_len s) w)))
