-- ===== src/Protocol/Frame.antt =====
-- frame.rs: the incremental decoder of length-prefixed frames. Each call that reserves memory takes
-- `granted`, which says whether the allocator grants the reservation of that call.
pub mod Codes
pub mod Queue
pub mod Limits
pub mod Safety
use cubic.Common.{
  ℕ, zero, suc, ◌+◌, ◌-◌, ◌*◌, ◌^◌, ◌≤◌, ◌<◌, Bool, ◌||◌, Option, some, none, String,
}
use cubic.Common.{
  List, [], ◌++◌, length, take, drop, get_range, get_from, ltb, leb, ◌==◌, if◌then◌else◌,
}
use Prim.Native.Nat.{min}
use cubic.Common.Int.{ℤ, pos, negsuc}
use cubic.Common.Result.{Result, ok, err}
use cubic.Common.Exec.{Exec, lift, ◌>>=◌, ◌>>◌}
use cubic.Protocol.Error.{
  CodecError, frame, frame_too_long, frame_buffer_too_long, value_out_of_range, allocation_failed,
  malformed_length_prefix, negative_length, unexpected_end,
}
use cubic.Protocol.Reader.{CodecReader, usize_mod, read_remaining}
use cubic.Protocol.Reader
use cubic.Protocol.Writer.{CodecWriter, write_bytes}
use cubic.Protocol.Writer
use cubic.Protocol.Length.{just, write_length}
use cubic.Protocol.VarInt.{
  PartialVarInt, complete, need_more, malformed, decode_partial_var_int, read_var_int,
}

abbrev pub minecraft_max_frame_size : ℕ
minecraft_max_frame_size = 2 ^ 21 - 1

abbrev pub default_max_buffered_bytes : ℕ
default_max_buffered_bytes = 8 * 1024 * 1024

abbrev pub max_frame_length_prefix_bytes : ℕ
max_frame_length_prefix_bytes = 3

pub record FrameLimits : Type 0 where
  pub max_frame_size : ℕ
  pub max_buffered_bytes : ℕ

-- `FrameLimits::new`
unfoldable pub new_limits : ℕ → ℕ → Result FrameLimits CodecError
new_limits max_frame_size max_buffered_bytes =
    let minimum_buffer = max_frame_size + max_frame_length_prefix_bytes in
    if ltb minecraft_max_frame_size max_frame_size
    then err (frame_too_long max_frame_size minecraft_max_frame_size)
    else if leb usize_mod minimum_buffer
    then err
        (value_out_of_range "frame buffer limit" (pos max_frame_size) (pos 0) (pos (usize_mod - 1)))
    else if ltb max_buffered_bytes minimum_buffer
    then err (
        value_out_of_range "maximum buffered frame bytes" (pos max_buffered_bytes)
          (pos minimum_buffer) (pos (usize_mod - 1)))
    else ok (record { max_frame_size = max_frame_size; max_buffered_bytes = max_buffered_bytes })

abbrev pub default_limits : FrameLimits
default_limits = record {
  max_frame_size = minecraft_max_frame_size;
  max_buffered_bytes = default_max_buffered_bytes;
}

pub record FrameDecoder : Type 0 where
  pub limits : FrameLimits
  pub buffer : List ℕ
  pub read_offset : ℕ

-- `FrameDecoder::new`
abbrev pub new_decoder : FrameLimits → FrameDecoder
new_decoder limits = record { limits = limits; buffer = []; read_offset = 0 }

or_empty : Option (List ℕ) → List ℕ
or_empty (some bytes) = bytes
or_empty none = []

unfoldable pub pending : FrameDecoder → List ℕ
unfolding or_empty
pending d = or_empty (get_from d.buffer d.read_offset)

unfoldable pub pending_len : FrameDecoder → ℕ
pending_len d = length d.buffer - d.read_offset

unfoldable pub buffered_len : FrameDecoder → ℕ
unfolding pending_len
buffered_len d = pending_len d

-- `buffer.copy_within(offset.., 0)`: the tail is written over the front, and stays in its place too
copy_to_front : List ℕ → ℕ → List ℕ
copy_to_front buffer offset = drop offset buffer ++ drop (length buffer - offset) buffer

unfoldable pub compact_if_useful : FrameDecoder → FrameDecoder
unfolding pending_len copy_to_front
compact_if_useful d =
    if d.read_offset == 0
    then d
    else if leb 4096 d.read_offset || leb (pending_len d) d.read_offset
    then record d {
      buffer = take (pending_len d) (copy_to_front d.buffer d.read_offset);
      read_offset = 0;
    }
    else d

-- a method on `&mut FrameDecoder`
abbrev pub Method : Type 0 → Type 0
Method A = Exec FrameDecoder CodecError A

unfoldable pub push_bytes : Bool → List ℕ → Method (Unit {0})
unfolding pending_len
push_bytes granted bytes d =
    let buffered = pending_len d + length bytes in
    let max = d.limits.max_buffered_bytes in
    if leb usize_mod buffered
    then (err (frame_buffer_too_long (usize_mod - 1) max), d)
    else if ltb max buffered
    then (err (frame_buffer_too_long buffered max), d)
    else if granted
    then (ok tt, record d { buffer = d.buffer ++ bytes })
    else (err (allocation_failed "frame input buffer" buffered), d)

unfoldable pub push : Bool → List ℕ → Method (Unit {0})
push granted bytes d = push_bytes granted bytes (compact_if_useful d)

-- `read_offset += total`, and the buffer is cleared where nothing is left of it
unfoldable pub consume : ℕ → FrameDecoder → FrameDecoder
consume total d =
    let offset = d.read_offset + total in
    if offset == length d.buffer
    then record d { buffer = []; read_offset = 0 }
    else record d { read_offset = offset }

take_body : Bool → ℕ → ℕ → ℕ → Option (List ℕ) → Method (Option (List ℕ))
unfolding consume
take_body granted prefix_bytes frame_length available none d =
    (err (unexpected_end "frame body" frame_length (available - prefix_bytes)), d)
take_body granted prefix_bytes frame_length available (some body) d =
    if granted
    then (ok (some body), consume (prefix_bytes + frame_length) d)
    else (err (allocation_failed "completed frame body" frame_length), d)

-- `next_frame` behind a complete length prefix
sized_frame : Bool → List ℕ → ℤ → ℕ → Method (Option (List ℕ))
unfolding take_body
sized_frame granted pending (negsuc n) prefix_bytes d = (err (negative_length frame (negsuc n)), d)
sized_frame granted pending (pos frame_length) prefix_bytes d =
    let total = prefix_bytes + frame_length in
    if ltb max_frame_length_prefix_bytes prefix_bytes
    then (err (malformed_length_prefix frame), d)
    else if ltb d.limits.max_frame_size frame_length
    then (err (frame_too_long frame_length d.limits.max_frame_size), d)
    else if leb usize_mod total
    then (
      err (
          value_out_of_range "complete frame length" (pos frame_length) (pos 0)
            (pos (usize_mod - 1))),
      d,
    )
    else if ltb (length pending) total
    then (ok none, d)
    else take_body granted prefix_bytes frame_length (length pending)
        (get_range pending prefix_bytes total) d

unfoldable pub framed : Bool → List ℕ → PartialVarInt → Method (Option (List ℕ))
unfolding sized_frame
framed granted pending need_more d = (ok none, d)
framed granted pending malformed d = (err (malformed_length_prefix frame), d)
framed granted pending (complete value bytes) d = sized_frame granted pending value bytes d

unfoldable pub next_frame : Bool → Method (Option (List ℕ))
next_frame granted d = framed granted (pending d) (decode_partial_var_int (pending d)) d

-- `writer.into_inner()` behind the writes
into_inner : Result (Unit {0}) CodecError × CodecWriter → Result (List ℕ) CodecError
into_inner (ok done, w) = ok w.output
into_inner (err e, w) = err e

unfoldable pub encode_frame : List ℕ → ℕ → Result (List ℕ) CodecError
unfolding write_bytes into_inner
encode_frame body max_frame_size =
    let effective_max = min max_frame_size minecraft_max_frame_size in
    if ltb effective_max (length body)
    then err (frame_too_long (length body) effective_max)
    else into_inner
        ((do write_length (length body) "frame length"; just (write_bytes body)) Writer.new)

pub record RawPacket : Type 0 where
  pub id : ℤ
  pub payload : List ℕ

split_after : Result ℤ CodecError → CodecReader → Result RawPacket CodecError
split_after (ok id) r = ok (record { id = id; payload = (read_remaining r).0 })
split_after (err e) r = err e

unfoldable pub split_raw_packet : List ℕ → Result RawPacket CodecError
unfolding split_after read_remaining
split_raw_packet bytes = let (id, r) = read_var_int (Reader.new bytes) in split_after id r
