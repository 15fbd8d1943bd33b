-- ===== src/Protocol/Tests.antt =====
-- The theorems on the codec at concrete inputs, and runs of its functions.
use cubic.Common.{ℕ, ◌≡◌, refl, arith, true, false, some, none, List, [], ◌∷◌, ◌++◌}
use cubic.Common.Int.{ℤ, pos, negsuc}
use cubic.Common.Order.{lt_wf}
use cubic.Common.Result.{ok, err}
use cubic.Protocol.Error.{malformed_var_int}
use cubic.Protocol.Reader.{
  CodecReader, read_u8, read_u16, read_u32, read_u64, read_f32, read_f64, read_bool, read_i8,
  read_i16, read_i32, read_i64,
}
use cubic.Protocol.Reader
use cubic.Protocol.Reader.Decodes.{Decodes, IsValid, unread}
use cubic.Protocol.Writer.{CodecWriter, written, write_u8}
use cubic.Protocol.VarInt.{
  read_groups, read_var_int, write_groups, write_var_int, decode_partial_var_int, add_group,
}
use cubic.Protocol.VarInt.Groups.{groups}
use cubic.Protocol.VarInt.RoundTrip.{read_var_int-write_var_int}
use cubic.Protocol.VarInt.Partial.{announced, read_var_int-decode_partial_var_int}
use cubic.Protocol.Frame.{FrameDecoder, default_limits, framed, pending, push, next_frame}
use cubic.Protocol.Frame.Limits.{waiting_has_room}
use cubic.Protocol.Frame.Codes.{framing}
use cubic.Protocol.Frame.Queue.{IsWell, Pushed, push_lem, next_frame-framing}
use cubic.Protocol.Frame.Safety.{Served, next_frame-Served, next_frame_waits}
use native.Mathlib.Decide.{ℕ_discrete}

abbrev three_hundred : ℤ
three_hundred = pos 300

write_300 : written (write_var_int three_hundred) ≡ 0xac ∷ 0x02 ∷ []
unfolding write_var_int write_groups lt_wf ℕ_discrete write_u8
write_300 = refl

write_minus_one : written (write_var_int (negsuc 0)) ≡ 0xff ∷ 0xff ∷ 0xff ∷ 0xff ∷ 0x0f ∷ []
unfolding write_var_int write_groups lt_wf ℕ_discrete write_u8
write_minus_one = refl

read-write_var_int_example :
    Decodes read_var_int (written (write_var_int (negsuc 299))) (negsuc 299)
read-write_var_int_example = read_var_int-write_var_int (negsuc 299) (omega arith)

abbrev one_byte : CodecWriter
one_byte = record { output = 5 ∷ [] }

abbrev overlong : CodecReader
overlong = record { input = 1 ∷ 0xff ∷ 0xff ∷ 0xff ∷ 0xff ∷ 0xff ∷ 2 ∷ []; position = 1 }

overlong-IsValid : IsValid overlong
overlong-IsValid = record { within = omega arith; addressable = omega arith }

partial_example :
    read_var_int overlong ≡ announced (decode_partial_var_int (unread overlong)) overlong
partial_example = read_var_int-decode_partial_var_int overlong overlong-IsValid

overlong_run : (read_var_int overlong).0 ≡ err malformed_var_int
unfolding read_var_int read_groups Reader.read_byte_with_context add_group
overlong_run = refl

abbrev body : List ℕ
body = 7 ∷ 8 ∷ []

-- a frame, the first byte of the next one, and a byte that was read before
abbrev holding : List ℕ → FrameDecoder
holding bytes = record { limits = default_limits; buffer = 0 ∷ bytes; read_offset = 1 }

abbrev ready : FrameDecoder
ready = holding (2 ∷ 7 ∷ 8 ∷ 9 ∷ [])

abbrev started : FrameDecoder
started = holding (2 ∷ 7 ∷ [])

ready-IsWell : IsWell ready
ready-IsWell = record {
  within = omega arith;
  bounded = omega arith;
  frame_size = omega arith;
  word = omega arith;
}

started-IsWell : IsWell started
started-IsWell = record {
  within = omega arith;
  bounded = omega arith;
  frame_size = omega arith;
  word = omega arith;
}

ready-pending : pending ready ≡ framing body ++ 9 ∷ []
unfolding pending groups
ready-pending = refl

started-pending : pending started ++ 8 ∷ [] ≡ framing body
unfolding pending groups
started-pending = refl

next_frame-framing_example :
    (d : FrameDecoder) × (next_frame true ready ≡ (ok (some body), d))
    × (pending d ≡ 9 ∷ [])
    × IsWell d
    × (d.limits ≡ default_limits)
next_frame-framing_example =
    next_frame-framing body (9 ∷ []) ready ready-IsWell (omega arith) ready-pending

next_frame-Served_example : Served ready (next_frame true ready)
next_frame-Served_example = next_frame-Served true ready ready-IsWell

next_frame_waits_example : next_frame false started ≡ (ok none, started)
next_frame_waits_example =
    next_frame_waits false body (8 ∷ []) started started-IsWell (omega arith) (omega arith)
      started-pending

push_lem_example :
    IsWell (push true (1 ∷ []) started).1
    × Pushed (1 ∷ []) started (push true (1 ∷ []) started)
    × ((push true (1 ∷ []) started).1.limits ≡ default_limits)
push_lem_example = push_lem true (1 ∷ []) started started-IsWell

waiting_has_room_example : (push true (2 ∷ []) started).0 ≡ ok tt
unfolding next_frame pending decode_partial_var_int framed add_group
waiting_has_room_example =
    waiting_has_room true 2 started started-IsWell (omega arith) (omega arith) refl
