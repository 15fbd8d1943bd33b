-- ===== src/Protocol/Frame/Safety.antt =====
-- What `next_frame` does on any input, and what it does on the start of a frame.
use cubic.Common.{ℕ, ◌+◌, ◌≤◌, ◌<◌, ◌≡◌, refl, sym, ap, ◌∙◌, arith, Bool, true, false}
use cubic.Common.{
  List, ◌++◌, length, take, drop, leb, ltb, length-append, take-append-drop, length-take, drop-drop,
  Option, some, none, get_range, if_cases,
}
use cubic.Common.Int.{ℤ, pos, negsuc}
use cubic.Protocol.Reader.{usize_mod}
use cubic.Common.Result.{Result, ok, err}
use cubic.Protocol.Error.{CodecError}
use cubic.Protocol.VarInt.{PartialVarInt, complete, need_more, malformed, decode_partial_var_int}
use cubic.Protocol.VarInt.Prefix.{decode_partial_var_int-append}
use cubic.Protocol.Length.RoundTrip.{prefix}
use cubic.Protocol.Frame.{FrameDecoder, pending, next_frame, take_body, sized_frame, framed}
use cubic.Protocol.Frame.Codes.{framing, length-prefix, decode_prefix}
use cubic.Protocol.Frame.Queue.{IsWell, consume_lem}

-- A returned body lies in the pending bytes behind a prefix of at most three bytes, and it and its
-- prefix are what the decoder drops. Any other answer leaves the decoder as it was.
abbrev pub Served : FrameDecoder → Result (Option (List ℕ)) CodecError × FrameDecoder → Type 0
Served d (ok (some body), d') =
    (start : List ℕ) × (pending d ≡ start ++ (body ++ pending d'))
    × (length start ≤ 3)
    × (length body ≤ d.limits.max_frame_size)
Served d (ok none, d') = d' ≡ d
Served d (err e, d') = d' ≡ d

three_parts : (a b : ℕ) (l : List ℕ) → take a l ++ (take b (drop a l) ++ drop (a + b) l) ≡ l
three_parts a b l =
    rw (← drop-drop a b l) (rw (take-append-drop b (drop a l)) (take-append-drop a l))

take_body-Served :
    (granted : Bool) (bytes count : ℕ) (d : FrameDecoder)
    → IsWell d
    → bytes ≤ 3
    → count ≤ d.limits.max_frame_size
    → bytes + count ≤ length (pending d)
    → Served d (
        take_body granted bytes count
          (length (pending d))
          (some (take count (drop bytes (pending d))))
          d)
unfolding take_body
take_body-Served false bytes count d w short fits there = refl
take_body-Served true bytes count d w short fits there =
    let (_, left, _) = consume_lem (bytes + count) d w there in
    (
      take bytes (pending d),
      rw left (sym (three_parts bytes count (pending d))),
      omega (arith, length-take bytes (pending d)),
      omega (arith, length-take count (drop bytes (pending d))),
    )

sized_frame-Served :
    (granted : Bool) (value : ℤ) (bytes : ℕ) (d : FrameDecoder)
    → IsWell d
    → Served d (sized_frame granted (pending d) value bytes d)
unfolding sized_frame
sized_frame-Served granted (negsuc n) bytes d w = refl
sized_frame-Served granted (pos count) bytes d w =
    if_cases (Served d) (ltb 3 bytes) _ _ (λ _. refl)
      (λ short.
        if_cases (Served d) (ltb d.limits.max_frame_size count) _ _ (λ _. refl)
          (λ fits.
            if_cases (Served d) (leb usize_mod (bytes + count)) _ _ (λ _. refl)
              (λ _.
                if_cases (Served d) (ltb (length (pending d)) (bytes + count)) _ _ (λ _. refl)
                  (λ there.
                    let range : get_range (pending d) bytes (bytes + count)
                        ≡ some (take count (drop bytes (pending d))) =
                      ground arith in
                    rw range (
                      take_body-Served granted bytes count d w (ground arith) (ground arith)
                        (ground arith))))))

framed-Served :
    (granted : Bool) (p : PartialVarInt) (d : FrameDecoder)
    → IsWell d
    → Served d (framed granted (pending d) p d)
unfolding framed
framed-Served granted need_more d w = refl
framed-Served granted malformed d w = refl
framed-Served granted (complete value bytes) d w = sized_frame-Served granted value bytes d w

-- Whatever bytes are pending in a well-formed decoder, next_frame returns a body that stands behind
-- a prefix of at most three bytes and is no longer than the limit, and drops just those bytes; or
-- it returns nothing or an error, and then the decoder is unchanged.
pub next_frame-Served :
    (granted : Bool) (d : FrameDecoder) → IsWell d → Served d (next_frame granted d)
unfolding next_frame
next_frame-Served granted d w = framed-Served granted (decode_partial_var_int (pending d)) d w

whole_prefix :
    (body more : List ℕ) (d : FrameDecoder)
    → IsWell d
    → length body ≤ d.limits.max_frame_size
    → pending d ++ more ≡ framing body
    → decode_partial_var_int (pending d ++ more)
      ≡ complete (pos (length body)) (length (prefix (length body)))
whole_prefix body more d w h e =
    ap decode_partial_var_int e ∙ decode_prefix (length body) body (omega (arith, w.frame_size))

module _ (granted : Bool) (body more : List ℕ) (d : FrameDecoder) (w : IsWell d) where
  waits_after :
      (p : PartialVarInt)
      → length body ≤ d.limits.max_frame_size
      → 0 < length more
      → pending d ++ more ≡ framing body
      → decode_partial_var_int (pending d) ≡ p
      → framed granted (pending d) p d ≡ (ok none, d)
  unfolding framed sized_frame
  waits_after need_more h m e q = refl
  waits_after malformed h m e q =
      cc (whole_prefix body more d w h e, decode_partial_var_int-append (pending d) more (λ r. cc))
  waits_after (complete value bytes) h m e q = ground (
    arith,
    whole_prefix body more d w h e,
    decode_partial_var_int-append (pending d) more (λ r. cc),
    length-prefix (length body) (omega arith),
    ap length e,
    length-append (pending d) more,
    length-append (prefix (length body)) body,
  )

-- Where a well-formed decoder holds a proper start of an encoded frame whose body is within its
-- limit, next_frame asks for more bytes, and the decoder is unchanged.
pub next_frame_waits :
    (granted : Bool) (body more : List ℕ) (d : FrameDecoder)
    → IsWell d
    → length body ≤ d.limits.max_frame_size
    → 0 < length more
    → pending d ++ more ≡ framing body
    → next_frame granted d ≡ (ok none, d)
unfolding next_frame
next_frame_waits granted body more d w h m e =
    waits_after granted body more d w (decode_partial_var_int (pending d)) h m e refl
