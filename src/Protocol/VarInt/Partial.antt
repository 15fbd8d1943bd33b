-- ===== src/Protocol/VarInt/Partial.antt =====
-- `decode_partial_var_int`, which looks at a prefix of the input, agrees with `read_var_int`.
use cubic.Common.{ℕ, zero, suc, ◌+◌, ◌-◌, ◌^◌, ◌≡◌, refl}
use cubic.Common.{List, [], ◌∷◌, length, take, leb, if◌then◌else◌, arith, Option, none, some}
use cubic.Common.Int.{ℤ}
use cubic.Common.Result.{Result, ok, err}
use cubic.Protocol.Error.{CodecError, unexpected_end, malformed_var_int}
use cubic.Protocol.Reader.{CodecReader}
use cubic.Protocol.Reader.Decodes.{
  IsValid, unread, advance, read_byte-Decodes, read_byte_at_end, advance-IsValid, unread-advance,
}
use cubic.Protocol.VarInt.{
  PartialVarInt, complete, need_more, malformed, read_groups, read_var_int, scan_groups, add_group,
  decode_partial_var_int,
}

-- What the loop of `read_var_int` returns after a scan of the bytes `l` that lie ahead: a number, the
-- end of the input, or too many bytes.
abbrev after : ℕ → List ℕ → ℕ → CodecReader → Option (ℕ × ℕ) → Result ℕ CodecError × CodecReader
after left l index r (some (result, n)) =
    (ok result, record r { position = r.position + n - index })
after left l index r none =
    if leb left (length l)
    then (err malformed_var_int, record r { position = r.position + left })
    else (err (unexpected_end "VarInt" 1 0), record r { position = r.position + length l })

read_groups-scan_groups :
    (left : ℕ) (l : List ℕ) (index result : ℕ) (r : CodecReader)
    → IsValid r
    → unread r ≡ l
    → read_groups left (2 ^ 32) "VarInt" malformed_var_int index result r
      ≡ after left l index r (scan_groups (take left l) index result)
unfolding read_groups scan_groups
read_groups-scan_groups zero l index result r v h = ground arith
read_groups-scan_groups (suc left) [] index result r v h =
    rw (read_byte_at_end "VarInt" r v h) (ground arith)
read_groups-scan_groups (suc left) (byte ∷ l) index result r v h = ground (
  arith,
  (read_byte-Decodes "VarInt" byte).at r l v h,
  read_groups-scan_groups left l (index + 1) (add_group (2 ^ 32) result byte index) (advance 1 r)
      (advance-IsValid r (byte ∷ []) l v h) (unread-advance r (byte ∷ []) l v h),
)

-- The outcome of `read_var_int` that each answer of `decode_partial_var_int` announces.
abbrev pub announced : PartialVarInt → CodecReader → Result ℤ CodecError × CodecReader
announced (complete value bytes) r = (ok value, advance bytes r)
announced malformed r = (err malformed_var_int, advance 5 r)
announced need_more r = (err (unexpected_end "VarInt" 1 0), advance (length (unread r)) r)

-- On every reader whose position is within its input, read_var_int does what decode_partial_var_int
-- says of the unread bytes: it returns the value and passes its bytes, it fails behind five bytes
-- that all ask for another one, or it meets the end of the input.
pub read_var_int-decode_partial_var_int :
    (r : CodecReader) → IsValid r → read_var_int r ≡ announced (decode_partial_var_int (unread r)) r
unfolding read_var_int decode_partial_var_int
read_var_int-decode_partial_var_int r v =
    ground (arith, read_groups-scan_groups 5 (unread r) 0 0 r v refl)
