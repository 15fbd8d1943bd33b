-- ===== src/Network/Connection.antt =====
-- connection.rs: the loop that reads the next frame from a stream. The stream is a sequence of
-- events, one for each read that completes; where it ends, the read goes on waiting. Timeouts and
-- the connecting itself are outside the model.
pub mod Delivery
use cubic.Common.{ℕ, ◌≡◌, Bool, Option, some, none, List, [], ◌∷◌, String}
use cubic.Common.Result.{Result, ok, err, map_err}
use cubic.Protocol.Error.{CodecError}
use cubic.Protocol.Frame.{FrameDecoder, push, next_frame, buffered_len}
use cubic.Network.Transforms.{
  TransformError, Zlib, StreamCipher, WireTransforms, decrypt_in_place, decode_frame_body,
}

pub data ConnectionError : Type 0 where
  io : String → ConnectionError
  premature_disconnect : String → ℕ → ConnectionError
  framing : CodecError → ConnectionError
  transform : TransformError → ConnectionError

-- A read that completes: bytes (no bytes: the peer has closed), or an I/O error. `stored` and
-- `copied` say whether the allocator grants the memory for their push and for the next frame.
pub data Event : Type 0 where
  arrived : (stored copied : Bool) → List ℕ → Event
  failed : Event

pub record MinecraftConnection (c : StreamCipher) : Type 0 where
  pub decoder : FrameDecoder
  pub transforms : WireTransforms c

-- `waiting`: every event is used up and the read has not completed.
pub data Outcome : Type 0 where
  returned : Result (List ℕ) ConnectionError → Outcome
  waiting : Outcome

module _ (c : StreamCipher) (z : Zlib) where
  -- the outcome, the connection and the events that are left
  abbrev pub Reading : Type 0
  Reading = Outcome × MinecraftConnection c × List Event

  -- what follows a call of `next_frame`: a frame or an error ends the loop, otherwise it reads on
  unfoldable pub next_round :
      Result (Option (List ℕ)) CodecError × FrameDecoder
      → MinecraftConnection c
      → List Event
      → (MinecraftConnection c → Reading)
      → Reading
  next_round (err e, d) conn events more =
      (returned (err (framing e)), record conn { decoder = d }, events)
  next_round (ok (some frame), d) conn events more = (
    returned (map_err transform (decode_frame_body c z frame conn.transforms)),
    record conn { decoder = d },
    events,
  )
  next_round (ok none, d) conn events more = more (record conn { decoder = d })

  -- the loop behind a push
  unfoldable pub pushed :
      Result (Unit {0}) CodecError × FrameDecoder
      → MinecraftConnection c
      → List Event
      → (MinecraftConnection c → Reading)
      → Reading
  pushed (err e, d) conn events loop =
      (returned (err (framing e)), record conn { decoder = d }, events)
  pushed (ok done, d) conn events loop = loop (record conn { decoder = d })

  -- the bytes of a read, decrypted in place and pushed
  unfoldable pub receive :
      Bool
      → List ℕ
      → List Event
      → (MinecraftConnection c → Reading)
      → MinecraftConnection c
      → Reading
  receive stored bytes events loop conn =
      let (plain, transforms) = decrypt_in_place c bytes conn.transforms in
      pushed (push stored plain conn.decoder) (record conn { transforms = transforms }) events loop

  -- `copied` is for the `next_frame` at the head of the round.
  unfoldable pub read_next_frame : String → Bool → List Event → MinecraftConnection c → Reading
  read_next_frame phase copied [] conn =
      next_round (next_frame copied conn.decoder) conn [] (λ conn'. (waiting, conn', []))
  read_next_frame phase copied (failed ∷ events) conn =
      next_round (next_frame copied conn.decoder) conn (failed ∷ events)
        (λ conn'. (returned (err (io phase)), conn', events))
  read_next_frame phase copied (arrived stored copied' [] ∷ events) conn =
      next_round (next_frame copied conn.decoder) conn (arrived stored copied' [] ∷ events)
        (λ conn'.
          (returned (err (premature_disconnect phase (buffered_len conn'.decoder))), conn', events))
  read_next_frame phase copied (arrived stored copied' (byte ∷ bytes) ∷ events) conn =
      let loop = read_next_frame phase copied' events in
      next_round (next_frame copied conn.decoder) conn
        (arrived stored copied' (byte ∷ bytes) ∷ events) (receive stored (byte ∷ bytes) events loop)
