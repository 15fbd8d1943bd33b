-- ===== src/Protocol/Frame/Queue.antt =====
-- The decoder as a queue of bytes: `pending` is all that its clients can tell of the buffer.
use cubic.Common.{ℕ, ◌+◌, ◌-◌, ◌≤◌, ◌<◌, ◌≡◌, refl, sym, ap, ◌∙◌, arith, Bool, true}
use cubic.Common.{
  List, ◌++◌, length, take, drop, append_assoc, drop-length_append, length-append, length-drop,
  drop-drop, drop-append_le, drop_all, take-length_append, some,
}
use cubic.Common.Int.{pos}
use cubic.Common.Result.{Result, ok, err}
use cubic.Protocol.Error.{CodecError}
use cubic.Protocol.Reader.{usize_mod}
use cubic.Protocol.VarInt.{decode_partial_var_int}
use cubic.Protocol.Length.RoundTrip.{prefix}
use cubic.Protocol.Frame.{
  FrameDecoder, pending, pending_len, compact_if_useful, copy_to_front, push_bytes, push,
  next_frame, minecraft_max_frame_size, consume, sized_frame, framed,
}
use cubic.Protocol.Frame.Codes.{framing, length-prefix, decode_prefix, body_range}

-- What holds of a decoder between calls. A Vec has less than 2 ^ 63 elements and usize has 64 bits.
pub record IsWell (d : FrameDecoder) : Type 0 where
  pub within : d.read_offset ≤ length d.buffer
  pub bounded : length d.buffer ≤ d.read_offset + d.limits.max_buffered_bytes
  pub frame_size : d.limits.max_frame_size ≤ minecraft_max_frame_size
  pub word : d.limits.max_buffered_bytes < usize_mod

pub pending-drop : (d : FrameDecoder) → IsWell d → pending d ≡ drop d.read_offset d.buffer
unfolding pending
pending-drop d w = ground arith

pub length-pending : (d : FrameDecoder) → IsWell d → length (pending d) ≡ pending_len d
unfolding pending_len
length-pending d w = ground (arith, pending-drop d w, length-drop d.read_offset d.buffer)

compacted :
    (d : FrameDecoder)
    → take (pending_len d) (copy_to_front d.buffer d.read_offset) ≡ drop d.read_offset d.buffer
unfolding pending_len copy_to_front
compacted d =
    let tail : List ℕ = drop d.read_offset d.buffer in
    let behind : List ℕ = drop (length d.buffer - d.read_offset) d.buffer in
    ap (λ k. take k (tail ++ behind)) (sym (length-drop d.read_offset d.buffer))
    ∙ take-length_append tail behind

compact_lem :
    (d : FrameDecoder)
    → IsWell d
    → IsWell (compact_if_useful d)
      × (pending (compact_if_useful d) ≡ pending d)
      × ((compact_if_useful d).limits ≡ d.limits)
unfolding compact_if_useful pending
compact_lem d w = ground (arith, compacted d, pending-drop d w, length-drop d.read_offset d.buffer)

pub consume_lem :
    (total : ℕ) (d : FrameDecoder)
    → IsWell d
    → total ≤ length (pending d)
    → IsWell (consume total d)
      × (pending (consume total d) ≡ drop total (pending d))
      × ((consume total d).limits ≡ d.limits)
unfolding consume pending
consume_lem total d w h = ground (
  arith,
  pending-drop d w,
  length-drop d.read_offset d.buffer,
  drop-drop d.read_offset total d.buffer,
  drop_all (d.read_offset + total) d.buffer,
)

-- what became of the bytes of a push, and why
abbrev pub Pushed : List ℕ → FrameDecoder → Result (Unit {0}) CodecError × FrameDecoder → Type 0
Pushed bytes d (ok done, d') =
    (pending d' ≡ pending d ++ bytes)
    × (length (pending d) + length bytes ≤ d.limits.max_buffered_bytes)
Pushed bytes d (err e, d') = pending d' ≡ pending d

push_bytes_lem :
    (granted : Bool) (bytes : List ℕ) (d : FrameDecoder)
    → IsWell d
    → IsWell (push_bytes granted bytes d).1
      × Pushed bytes d (push_bytes granted bytes d)
      × ((push_bytes granted bytes d).1.limits ≡ d.limits)
unfolding push_bytes pending
push_bytes_lem granted bytes d w = ground (
  arith,
  pending-drop d w,
  length-drop d.read_offset d.buffer,
  length-append d.buffer bytes,
  drop-append_le d.read_offset d.buffer bytes,
)

Pushed-same :
    (bytes : List ℕ) (d c : FrameDecoder)
    → pending c ≡ pending d
    → c.limits ≡ d.limits
    → (r : Result (Unit {0}) CodecError × FrameDecoder) → Pushed bytes c r
    → Pushed bytes d r
Pushed-same bytes d c e l (ok done, d') h = ground (arith, h)
Pushed-same bytes d c e l (err x, d') h = h ∙ e

-- A push to a well-formed decoder keeps it well formed and its limits. Where it succeeds, its bytes
-- stand behind those that were pending, and all of them are within the buffer limit. Where it
-- fails, what was pending stays.
pub push_lem :
    (granted : Bool) (bytes : List ℕ) (d : FrameDecoder)
    → IsWell d
    → IsWell (push granted bytes d).1
      × Pushed bytes d (push granted bytes d)
      × ((push granted bytes d).1.limits ≡ d.limits)
unfolding push
push_lem granted bytes d w =
    let (well, same, limits) = compact_lem d w in
    let (well', pushed, limits') = push_bytes_lem granted bytes (compact_if_useful d) well in
    (well', Pushed-same bytes d (compact_if_useful d) same limits _ pushed, limits' ∙ limits)

-- Where the allocator grants the memory, a push within the buffer limit succeeds.
pub push_accepts :
    (bytes : List ℕ) (d : FrameDecoder)
    → IsWell d
    → length (pending d) + length bytes ≤ d.limits.max_buffered_bytes
    → (push true bytes d).0 ≡ ok tt
unfolding push push_bytes
push_accepts bytes d w h =
    let c = compact_lem d w in
    ground (arith, c, length-pending (compact_if_useful d) c.0, ap length c.1)

Pushed-ok :
    (bytes : List ℕ) (d : FrameDecoder) (r : Result (Unit {0}) CodecError × FrameDecoder)
    → r.0 ≡ ok tt
    → Pushed bytes d r
    → (r ≡ (ok tt, r.1)) × (pending r.1 ≡ pending d ++ bytes)
Pushed-ok bytes d (ok done, d') e h = (refl, h.0)
Pushed-ok bytes d (err x, d') e h = cc

-- `push_lem` where the push succeeds
pub push_granted :
    (bytes : List ℕ) (d : FrameDecoder)
    → IsWell d
    → length (pending d) + length bytes ≤ d.limits.max_buffered_bytes
    → (d' : FrameDecoder) × (push true bytes d ≡ (ok tt, d'))
      × (pending d' ≡ pending d ++ bytes)
      × IsWell d'
      × (d'.limits ≡ d.limits)
push_granted bytes d w h =
    let (well, outcome, limits) = push_lem true bytes d w in
    let (succeeds, joined) =
      Pushed-ok bytes d (push true bytes d) (push_accepts bytes d w h) outcome in
    ((push true bytes d).1, succeeds, joined, well, limits)

abbrev pub frame_bytes : List ℕ → ℕ
frame_bytes body = length (prefix (length body)) + length body

pub length-framing :
    (body rest : List ℕ) → length (framing body ++ rest) ≡ frame_bytes body + length rest
length-framing body rest = rw length-append (rw length-append)

drop-framing : (body rest : List ℕ) → drop (frame_bytes body) (framing body ++ rest) ≡ rest
drop-framing body rest =
    ap (λ k. drop k (framing body ++ rest)) (sym (length-append (prefix (length body)) body))
    ∙ drop-length_append (framing body) rest

sized_frame-framing :
    (body rest : List ℕ) (d : FrameDecoder)
    → length body ≤ d.limits.max_frame_size
    → d.limits.max_frame_size ≤ minecraft_max_frame_size
    → sized_frame true (framing body ++ rest) (pos (length body)) (length (prefix (length body))) d
      ≡ (ok (some body), consume (frame_bytes body) d)
unfolding sized_frame
sized_frame-framing body rest d h k = ground (
  arith,
  length-prefix (length body) (omega arith),
  length-framing body rest,
  body_range body rest,
)

-- Where the unread bytes of a well-formed decoder start with an encoded frame whose body is within
-- the decoder's limit, and the allocator grants the memory, next_frame returns the body and leaves
-- the bytes behind the frame, the limits and a well-formed decoder.
pub next_frame-framing :
    (body rest : List ℕ) (d : FrameDecoder)
    → IsWell d
    → length body ≤ d.limits.max_frame_size
    → pending d ≡ framing body ++ rest
    → (d' : FrameDecoder) × (next_frame true d ≡ (ok (some body), d'))
      × (pending d' ≡ rest)
      × IsWell d'
      × (d'.limits ≡ d.limits)
unfolding next_frame framed
next_frame-framing body rest d w h e =
    let fits : frame_bytes body ≤ length (pending d) =
      omega (arith, ap length e, length-framing body rest) in
    let (well, left, limits) = consume_lem (frame_bytes body) d w fits in
    let split : framing body ++ rest ≡ prefix (length body) ++ (body ++ rest) =
      append_assoc (prefix (length body)) body rest in
    let found =
      ap decode_partial_var_int split
      ∙ decode_prefix (length body) (body ++ rest) (omega (arith, w.frame_size)) in
    (
      consume (frame_bytes body) d,
      rw (e, found) (sized_frame-framing body rest d h w.frame_size),
      left ∙ ap (drop (frame_bytes body)) e ∙ drop-framing body rest,
      well,
      limits,
    )
