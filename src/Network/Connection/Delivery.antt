-- ===== src/Network/Connection/Delivery.antt =====
-- The frames arrive whole and in order, however the stream is cut into reads.
use cubic.Common.{
  ℕ, ◌+◌, ◌*◌, ◌≤◌, ◌<◌, ◌≡◌, refl, sym, ap, ◌∙◌, arith, true, Option, some, none, List, [], ◌∷◌,
  ◌++◌, String,
}
use cubic.Common.{length, length-append, append_split, append_assoc, All}
use native.Mathlib.Decide.{dec_le}
use cubic.Common.Result.{ok, map_err}
use cubic.Protocol.Frame.{FrameDecoder, push, next_frame, pending}
use cubic.Protocol.Length.RoundTrip.{prefix}
use cubic.Protocol.Frame.Codes.{framing, length-prefix}
use cubic.Protocol.Frame.Queue.{
  IsWell, push_granted, next_frame-framing, frame_bytes, length-framing,
}
use cubic.Protocol.Frame.Safety.{next_frame_waits}
use cubic.Network.Transforms.{
  Zlib, StreamCipher, IsContinuous, WireTransforms, decrypt_in_place, decrypt_with,
  decode_frame_body,
}
use cubic.Network.Connection.{
  MinecraftConnection, Event, arrived, failed, returned, transform, next_round, pushed, receive,
  read_next_frame,
}

abbrev pub read_buffer_size : ℕ
read_buffer_size = 8 * 1024

-- reads of which each brings bytes, and finds memory
abbrev pub arrivals : List (List ℕ) → List Event
arrivals [] = []
arrivals (bytes ∷ reads) = arrived true true bytes ∷ arrivals reads

abbrev pub joined : List (List ℕ) → List ℕ
joined [] = []
joined (bytes ∷ reads) = bytes ++ joined reads

abbrev pub IsRead : List ℕ → Type 0
IsRead bytes = (0 < length bytes) × (length bytes ≤ read_buffer_size)

module _ (c : StreamCipher) where
  -- what a stretch of the stream says to a peer in the given state, and the state behind it
  abbrev pub plain : Option c.State → List ℕ → List ℕ
  plain none bytes = bytes
  plain (some s) bytes = (c.decrypt s bytes).0

  abbrev pub state_after : Option c.State → List ℕ → Option c.State
  state_after none bytes = none
  state_after (some s) bytes = some (c.decrypt s bytes).1

  decrypt_with-plain :
      (s : Option c.State) (bytes : List ℕ) (t : WireTransforms c)
      → (decrypt_with c s bytes t).0 ≡ plain s bytes
  unfolding decrypt_with
  decrypt_with-plain none bytes t = refl
  decrypt_with-plain (some s) bytes t = refl

  decryptor_after :
      (s : Option c.State) (bytes : List ℕ) (t : WireTransforms c)
      → t.decryptor ≡ s
      → (decrypt_with c s bytes t).1.decryptor ≡ state_after s bytes
  unfolding decrypt_with
  decryptor_after none bytes t e = e
  decryptor_after (some s) bytes t e = refl

  body_after :
      (z : Zlib) (s : Option c.State) (bytes body : List ℕ) (t : WireTransforms c)
      → decode_frame_body c z body (decrypt_with c s bytes t).1 ≡ decode_frame_body c z body t
  unfolding decrypt_with decode_frame_body
  body_after z none bytes body t = refl
  body_after z (some s) bytes body t = refl

  plain-append :
      IsContinuous c
      → (s : Option c.State) (a b : List ℕ)
      → plain s (a ++ b) ≡ plain s a ++ plain (state_after s a) b
  plain-append k none a b = refl
  plain-append k (some s) a b = k.pieces s a b

  plain-nil : IsContinuous c → (s : Option c.State) → plain s [] ≡ []
  plain-nil k none = refl
  plain-nil k (some s) = ap (λ p. p.0) (k.empty s)

  length-plain : IsContinuous c → (s : Option c.State) (a : List ℕ) → length (plain s a) ≡ length a
  length-plain k none a = refl
  length-plain k (some s) a = k.same_length s a

  module _ (z : Zlib) (phase : String) where
    frame_at_head :
        (events : List Event) (conn : MinecraftConnection c) (frame : List ℕ) (d : FrameDecoder)
        → next_frame true conn.decoder ≡ (ok (some frame), d)
        → read_next_frame c z phase true events conn ≡ (
          returned (map_err transform (decode_frame_body c z frame conn.transforms)),
          record conn { decoder = d },
          events,
        )
    unfolding read_next_frame next_round
    frame_at_head [] conn frame d e = rw e
    frame_at_head (failed ∷ events) conn frame d e = rw e
    frame_at_head (arrived stored copied [] ∷ events) conn frame d e = rw e
    frame_at_head (arrived stored copied (byte ∷ bytes) ∷ events) conn frame d e = rw e

    read_step :
        (byte : ℕ) (bytes : List ℕ) (events : List Event) (conn : MinecraftConnection c)
        (d : FrameDecoder)
        → next_frame true conn.decoder ≡ (ok none, conn.decoder)
        → push true (plain conn.transforms.decryptor (byte ∷ bytes)) conn.decoder ≡ (ok tt, d)
        → read_next_frame c z phase true (arrived true true (byte ∷ bytes) ∷ events) conn
          ≡ read_next_frame c z phase true events (record {
            decoder = d;
            transforms =
                (decrypt_with c conn.transforms.decryptor (byte ∷ bytes) conn.transforms).1;
          })
    unfolding read_next_frame next_round receive pushed decrypt_in_place
    read_step byte bytes events conn d e f =
        rw (e, decrypt_with-plain conn.transforms.decryptor (byte ∷ bytes) conn.transforms, f)

-- The next frame of a stream: its body is returned, decompressed, and what is buffered or still to
-- come begins behind the frame.
abbrev pub Delivers :
    (c : StreamCipher)
    → Zlib
    → String
    → MinecraftConnection c
    → List (List ℕ)
    → List ℕ
    → List ℕ
    → Type 0
Delivers c z phase conn reads body rest =
    (conn' : MinecraftConnection c) × (left : List (List ℕ)) × (read_next_frame c z phase true
        (arrivals reads) conn
      ≡ (
        returned (map_err transform (decode_frame_body c z body conn.transforms)),
        conn',
        arrivals left,
      ))
    × (pending conn'.decoder ++ plain c conn'.transforms.decryptor (joined left) ≡ rest)
    × IsWell conn'.decoder
    × (conn'.decoder.limits ≡ conn.decoder.limits)
    × All IsRead left

module _ (c : StreamCipher) (z : Zlib) (phase : String) (body rest : List ℕ) where
  -- the whole frame is buffered
  deliver_buffered :
      (reads : List (List ℕ)) (conn : MinecraftConnection c)
      → IsWell conn.decoder
      → length body ≤ conn.decoder.limits.max_frame_size
      → All IsRead reads
      → pending conn.decoder ++ plain c conn.transforms.decryptor (joined reads)
        ≡ framing body ++ rest
      → frame_bytes body ≤ length (pending conn.decoder)
      → Delivers c z phase conn reads body rest
  deliver_buffered reads conn w fits ok_reads e there =
      let long : length (framing body) ≤ length (pending conn.decoder) =
        omega (arith, there, length-append (prefix (length body)) body) in
      let (more, front, back) = append_split (pending conn.decoder) _ (framing body) rest e long in
      let (d, served, left, well, limits) =
        next_frame-framing body more conn.decoder w fits front in
      (
        record conn { decoder = d },
        reads,
        frame_at_head c z phase (arrivals reads) conn body d served,
        rw left back,
        well,
        limits,
        ok_reads,
      )

  -- the frame is not yet whole, so the decoder asks for more
  asks_for_more :
      (reads : List (List ℕ)) (conn : MinecraftConnection c)
      → IsWell conn.decoder
      → length body ≤ conn.decoder.limits.max_frame_size
      → pending conn.decoder ++ plain c conn.transforms.decryptor (joined reads)
        ≡ framing body ++ rest
      → length (pending conn.decoder) < frame_bytes body
      → next_frame true conn.decoder ≡ (ok none, conn.decoder)
  asks_for_more reads conn w fits e short =
      let size = length-append (prefix (length body)) body in
      let (more, whole, _) =
        append_split (framing body) rest (pending conn.decoder) _ (sym e) (omega (arith, size)) in
      next_frame_waits true body more conn.decoder w fits
        (omega (arith, ap length whole, length-append (pending conn.decoder) more, size))
        (sym whole)

  -- what the next read sees of the stream, behind one that was pushed
  stream_behind :
      (bytes : List ℕ) (reads : List (List ℕ)) (conn : MinecraftConnection c) (d : FrameDecoder)
      → IsContinuous c
      → pending d ≡ pending conn.decoder ++ plain c conn.transforms.decryptor bytes
      → pending d
          ++ plain c
              (decrypt_with c conn.transforms.decryptor bytes conn.transforms).1.decryptor
              (joined reads)
        ≡ pending conn.decoder ++ plain c conn.transforms.decryptor (bytes ++ joined reads)
  stream_behind bytes reads conn d k e =
      rw
        (
          e,
          decryptor_after c conn.transforms.decryptor bytes conn.transforms refl,
          plain-append c k conn.transforms.decryptor bytes (joined reads),
        )
        (append_assoc (pending conn.decoder) _ _)

  after_read :
      (byte : ℕ) (bytes : List ℕ) (reads : List (List ℕ)) (conn : MinecraftConnection c)
      (d : FrameDecoder)
      → next_frame true conn.decoder ≡ (ok none, conn.decoder)
      → push true (plain c conn.transforms.decryptor (byte ∷ bytes)) conn.decoder ≡ (ok tt, d)
      → d.limits ≡ conn.decoder.limits
      → Delivers c z phase
          (record {
            decoder = d;
            transforms =
                (decrypt_with c conn.transforms.decryptor (byte ∷ bytes) conn.transforms).1;
          })
          reads
          body
          rest
      → Delivers c z phase conn ((byte ∷ bytes) ∷ reads) body rest
  after_read byte bytes reads conn d e f l (conn', left, returns, stays, well, limits, ok_left) = (
    conn',
    left,
    read_step c z phase byte bytes (arrivals reads) conn d e f
        ∙ returns
        ∙ ap (λ b. (returned (map_err transform b), conn', arrivals left))
            (body_after c z conn.transforms.decryptor (byte ∷ bytes) body conn.transforms),
    stays,
    well,
    limits ∙ l,
    ok_left,
  )

  -- Where the decoder is well formed, the decryption of a stream goes on from piece to piece, and
  -- what is buffered and what arrives, decrypted, starts with an encoded frame within the limit,
  -- the read returns its body and the rest of the stream stays for the next read, however the
  -- stream is cut into reads of 1 to 8192 bytes, if the buffer limit leaves room for a read beside
  -- a frame and the allocator grants the memory.
  pub read_next_frame-Delivers :
      (reads : List (List ℕ)) (conn : MinecraftConnection c)
      → IsContinuous c
      → IsWell conn.decoder
      → conn.decoder.limits.max_frame_size + 3 + read_buffer_size
        ≤ conn.decoder.limits.max_buffered_bytes
      → length body ≤ conn.decoder.limits.max_frame_size
      → All IsRead reads
      → pending conn.decoder ++ plain c conn.transforms.decryptor (joined reads)
        ≡ framing body ++ rest
      → Delivers c z phase conn reads body rest
  read_next_frame-Delivers [] conn k w room fits ok_reads e =
      deliver_buffered [] conn w fits ok_reads e (
        omega (
          arith,
          ap length e,
          length-append (pending conn.decoder) (plain c conn.transforms.decryptor []),
          ap length (plain-nil c k conn.transforms.decryptor),
          length-framing body rest,
        ))
  read_next_frame-Delivers ([] ∷ reads) conn k w room fits ok_reads e =
      absurd (omega (arith, ok_reads))
  read_next_frame-Delivers ((byte ∷ bytes) ∷ reads) conn k w room fits ok_reads e =
      elim (dec_le (frame_bytes body) (length (pending conn.decoder))) [
        | yes there ↦ deliver_buffered ((byte ∷ bytes) ∷ reads) conn w fits ok_reads e there
        | no short ↦
            let said = plain c conn.transforms.decryptor (byte ∷ bytes) in
            let size = length-plain c k conn.transforms.decryptor (byte ∷ bytes) in
            let prefix_size = length-prefix (length body) (omega (arith, w.frame_size)) in
            let (d, succeeds, together, well, limits) =
              push_granted said conn.decoder w
                (omega (arith, size, prefix_size, ok_reads, short, room)) in
            after_read byte bytes reads conn d
              (asks_for_more ((byte ∷ bytes) ∷ reads) conn w fits e (omega (arith, short))) succeeds
              limits
              (read_next_frame-Delivers reads _ k well (rw limits room) (rw limits fits) ok_reads.1
                (stream_behind (byte ∷ bytes) reads conn d k together ∙ e))
      ]
