-- ===== src/Protocol/Frame/Limits.antt =====
-- The limits of a decoder, and that they leave room for a frame.
use cubic.Common.{ℕ, ◌+◌, ◌≤◌, ◌<◌, ◌≡◌, ◌↔◌, refl, arith, Bool, true}
use cubic.Common.{[], ◌∷◌, length, none, Option-cases, ◌⊎◌, inl, inr, get_range}
use cubic.Common.Int.{ℤ, pos, negsuc}
use cubic.Common.Result.{ok}
use cubic.Protocol.Reader.{usize_mod}
use cubic.Protocol.VarInt.{PartialVarInt, complete, need_more, malformed, decode_partial_var_int}
use cubic.Protocol.Frame.{
  FrameLimits, FrameDecoder, pending, new_limits, new_decoder, push, next_frame,
  minecraft_max_frame_size, take_body, sized_frame, framed,
}
use cubic.Protocol.Frame.Queue.{IsWell, push_accepts}

ok_limits :
    (size buffered : ℕ) (limits : FrameLimits)
    → new_limits size buffered ≡ ok limits
    → (limits.max_frame_size ≡ size)
      × (limits.max_buffered_bytes ≡ buffered)
      × (size ≤ minecraft_max_frame_size)
unfolding new_limits
ok_limits size buffered limits e = ground (arith, e)

starts :
    (size buffered : ℕ)
    → buffered < usize_mod
    → (limits : FrameLimits) → new_limits size buffered ≡ ok limits
    → IsWell (new_decoder limits) × (pending (new_decoder limits) ≡ [])
unfolding new_limits pending
starts size buffered h limits e =
    let made = ok_limits size buffered limits e in
    (
      record {
        within = omega arith;
        bounded = omega arith;
        frame_size = ground (arith, made);
        word = ground (arith, made);
      },
      refl,
    )

-- `FrameLimits::new` accepts exactly the frame sizes of at most 2 ^ 21 - 1 bytes and the buffers
-- that hold a frame of that size with a prefix of 3 bytes, and a decoder with the limits it made
-- starts well formed with nothing pending.
pub new_limits_lem :
    (size buffered : ℕ)
    → buffered < usize_mod
    → (((size ≤ minecraft_max_frame_size) × (size + 3 ≤ buffered)) ↔ (
        new_limits size buffered
        ≡ ok (record { max_frame_size = size; max_buffered_bytes = buffered })))
      × ((limits : FrameLimits)
          → new_limits size buffered ≡ ok limits
          → IsWell (new_decoder limits) × (pending (new_decoder limits) ≡ []))
unfolding new_limits
new_limits_lem size buffered h = (ground arith, starts size buffered h)

behind_prefix :
    (granted : Bool) (value : ℤ) (bytes : ℕ) (d : FrameDecoder)
    → (sized_frame granted (pending d) value bytes d).0 ≡ ok none
    → length (pending d) < d.limits.max_frame_size + 3
unfolding sized_frame take_body
behind_prefix granted (negsuc n) bytes d e = cc
behind_prefix granted (pos count) bytes d e =
    elim (Option-cases (get_range (pending d) bytes (bytes + count))) [
      | inl q ↦ ground (arith, e, q)
      | inr (body, q) ↦ ground (arith, e, q)
    ]

waiting :
    (granted : Bool) (p : PartialVarInt) (d : FrameDecoder)
    → decode_partial_var_int (pending d) ≡ p
    → (framed granted (pending d) p d).0 ≡ ok none
    → (length (pending d) < d.limits.max_frame_size + 3) ⊎ (length (pending d) < 5)
unfolding framed decode_partial_var_int
waiting granted need_more d q e = inr (ground (arith, q))
waiting granted malformed d q e = cc
waiting granted (complete value bytes) d q e = inl (behind_prefix granted value bytes d e)

-- A well-formed decoder that asks for more bytes has room for one more, if its buffer is at least
-- one of 5 bytes that holds a whole frame: the next push of a byte is accepted where the allocator
-- grants the memory.
pub waiting_has_room :
    (granted : Bool) (byte : ℕ) (d : FrameDecoder)
    → IsWell d
    → d.limits.max_frame_size + 3 ≤ d.limits.max_buffered_bytes
    → 5 ≤ d.limits.max_buffered_bytes
    → (next_frame granted d).0 ≡ ok none
    → (push true (byte ∷ []) d).0 ≡ ok tt
unfolding next_frame
waiting_has_room granted byte d w room five e =
    push_accepts (byte ∷ []) d w
      (elim (waiting granted (decode_partial_var_int (pending d)) d refl e) [
        | inl short ↦ omega arith
        | inr short ↦ omega arith
      ])
