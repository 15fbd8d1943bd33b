-- ===== src/Protocol/Reader/Fixed.antt =====
-- The reads of fixed width return what the writes of the same type wrote.
use cubic.Common.{ℕ, ◌/◌, ◌%◌, ◌^◌, ◌<◌, ◌≡◌, refl, ap, String, ◌∙◌, arith}
use cubic.Common.{[], ◌∷◌, Bool, true, false, subst}
use cubic.Common.Int.{ℤ, IsSigned, to_signed, to_unsigned, to_signed-to_unsigned, to_unsigned-lt}
use cubic.Common.Exec.{pure, ◌>>=◌}
use cubic.Protocol.Reader.{
  read_array, from_be, read_u8, read_i8, read_u16, read_i16, read_u32, read_i32, read_u64, read_i64,
  read_f32, read_f64, read_bool,
}
use cubic.Protocol.Reader.Decodes.{Decodes, Decodes-map, read_byte-Decodes, read_array-Decodes}
use cubic.Protocol.Writer.{
  written, to_be, write_u8, write_i8, write_u16, write_i16, write_u32, write_i32, write_u64,
  write_i64, write_f32, write_f64, write_bool,
}

from_be-to_be_two : (v : ℕ) → v < 2 ^ 16 → from_be (to_be 2 v) ≡ v
unfolding from_be to_be
from_be-to_be_two v h = omega arith

from_be-to_be_four : (v : ℕ) → v < 2 ^ 32 → from_be (to_be 4 v) ≡ v
unfolding from_be to_be
from_be-to_be_four v h = omega arith

from_be-to_be_eight : (v : ℕ) → v < 2 ^ 64 → from_be (to_be 8 v) ≡ v
unfolding from_be to_be
from_be-to_be_eight v h = omega arith

module _ (context : String) (value : ℕ) where
  array_two : Decodes (read_array 2 context) (to_be 2 value) (to_be 2 value)
  unfolding to_be
  array_two = read_array-Decodes context (to_be 2 value)

  array_four : Decodes (read_array 4 context) (to_be 4 value) (to_be 4 value)
  unfolding to_be
  array_four = read_array-Decodes context (to_be 4 value)

  array_eight : Decodes (read_array 8 context) (to_be 8 value) (to_be 8 value)
  unfolding to_be
  array_eight = read_array-Decodes context (to_be 8 value)

-- A read of a big-endian word through `f`, given that the word's bytes stand for it.
module _ {A : Type 0} (n : ℕ) (context : String) (f : ℕ → A) (word : ℕ) (value : A) where
  through :
      Decodes (read_array n context) (to_be n word) (to_be n word)
      → from_be (to_be n word) ≡ word
      → f word ≡ value
      → Decodes (read_array n context >>= λ bytes. pure (f (from_be bytes))) (to_be n word) value
  through d e g =
      subst (Decodes _ (to_be n word)) (ap f e ∙ g)
        (Decodes-map _ (λ bytes. f (from_be bytes)) _ _ d)

pub read_u8-write_u8 : (v : ℕ) → Decodes read_u8 (written (write_u8 v)) v
unfolding read_u8 write_u8
read_u8-write_u8 v = read_byte-Decodes "u8" v

pub read_i8-write_i8 : (v : ℤ) → IsSigned (2 ^ 7) v → Decodes read_i8 (written (write_i8 v)) v
unfolding read_i8 write_i8
read_i8-write_i8 v h =
    let word = to_unsigned-lt (2 ^ 7) v h in
    let byte : to_unsigned (2 ^ 7) v / 1 % 256 ≡ to_unsigned (2 ^ 7) v = omega (arith, word) in
    subst (Decodes _ ((to_unsigned (2 ^ 7) v / 1 % 256) ∷ []))
      (ap (to_signed (2 ^ 7)) byte ∙ to_signed-to_unsigned (2 ^ 7) v h)
      (Decodes-map _ (to_signed (2 ^ 7)) _ _ (read_byte-Decodes "i8" _))

pub read_u16-write_u16 : (v : ℕ) → v < 2 ^ 16 → Decodes read_u16 (written (write_u16 v)) v
unfolding read_u16 write_u16
read_u16-write_u16 v h =
    through 2 "u16" (λ x. x) v v (array_two "u16" v) (from_be-to_be_two v h) refl

pub read_i16-write_i16 : (v : ℤ) → IsSigned (2 ^ 15) v → Decodes read_i16 (written (write_i16 v)) v
unfolding read_i16 write_i16
read_i16-write_i16 v h =
    through 2 "i16" (to_signed (2 ^ 15)) (to_unsigned (2 ^ 15) v) v (array_two "i16" _)
      (from_be-to_be_two _ (to_unsigned-lt (2 ^ 15) v h)) (to_signed-to_unsigned (2 ^ 15) v h)

pub read_u32-write_u32 : (v : ℕ) → v < 2 ^ 32 → Decodes read_u32 (written (write_u32 v)) v
unfolding read_u32 write_u32
read_u32-write_u32 v h =
    through 4 "u32" (λ x. x) v v (array_four "u32" v) (from_be-to_be_four v h) refl

pub read_i32-write_i32 : (v : ℤ) → IsSigned (2 ^ 31) v → Decodes read_i32 (written (write_i32 v)) v
unfolding read_i32 write_i32
read_i32-write_i32 v h =
    through 4 "i32" (to_signed (2 ^ 31)) (to_unsigned (2 ^ 31) v) v (array_four "i32" _)
      (from_be-to_be_four _ (to_unsigned-lt (2 ^ 31) v h)) (to_signed-to_unsigned (2 ^ 31) v h)

pub read_u64-write_u64 : (v : ℕ) → v < 2 ^ 64 → Decodes read_u64 (written (write_u64 v)) v
unfolding read_u64 write_u64
read_u64-write_u64 v h =
    through 8 "u64" (λ x. x) v v (array_eight "u64" v) (from_be-to_be_eight v h) refl

pub read_i64-write_i64 : (v : ℤ) → IsSigned (2 ^ 63) v → Decodes read_i64 (written (write_i64 v)) v
unfolding read_i64 write_i64
read_i64-write_i64 v h =
    through 8 "i64" (to_signed (2 ^ 63)) (to_unsigned (2 ^ 63) v) v (array_eight "i64" _)
      (from_be-to_be_eight _ (to_unsigned-lt (2 ^ 63) v h)) (to_signed-to_unsigned (2 ^ 63) v h)

pub read_f32-write_f32 : (v : ℕ) → v < 2 ^ 32 → Decodes read_f32 (written (write_f32 v)) v
unfolding read_f32 write_f32
read_f32-write_f32 v h = read_u32-write_u32 v h

pub read_f64-write_f64 : (v : ℕ) → v < 2 ^ 64 → Decodes read_f64 (written (write_f64 v)) v
unfolding read_f64 write_f64
read_f64-write_f64 v h = read_u64-write_u64 v h

read_bool-write_bool : (b : Bool) → Decodes read_bool (written (write_bool b)) b
unfolding read_bool read_u8 write_bool
read_bool-write_bool true = Decodes-map _ _ _ _ (read_byte-Decodes "u8" 1)
read_bool-write_bool false = Decodes-map _ _ _ _ (read_byte-Decodes "u8" 0)

-- For every value of an unsigned type of 1, 2, 4 or 8 bytes, and for both Booleans, the read of the
-- type on the bytes of its write returns the value and leaves the cursor behind them.
pub unsigned_round_trips :
    (a b c d : ℕ) (e : Bool)
    → b < 2 ^ 16
    → c < 2 ^ 32
    → d < 2 ^ 64
    → Decodes read_u8 (written (write_u8 a)) a
      × Decodes read_u16 (written (write_u16 b)) b
      × Decodes read_u32 (written (write_u32 c)) c
      × Decodes read_u64 (written (write_u64 d)) d
      × Decodes read_f32 (written (write_f32 c)) c
      × Decodes read_f64 (written (write_f64 d)) d
      × Decodes read_bool (written (write_bool e)) e
unsigned_round_trips a b c d e hb hc hd = (
  read_u8-write_u8 a,
  read_u16-write_u16 b hb,
  read_u32-write_u32 c hc,
  read_u64-write_u64 d hd,
  read_f32-write_f32 c hc,
  read_f64-write_f64 d hd,
  read_bool-write_bool e,
)

-- For every value of a signed type of 1, 2, 4 or 8 bytes the read of the type on the bytes of its
-- write returns the value and leaves the cursor behind them.
pub signed_round_trips :
    (a b c d : ℤ)
    → IsSigned (2 ^ 7) a
    → IsSigned (2 ^ 15) b
    → IsSigned (2 ^ 31) c
    → IsSigned (2 ^ 63) d
    → Decodes read_i8 (written (write_i8 a)) a
      × Decodes read_i16 (written (write_i16 b)) b
      × Decodes read_i32 (written (write_i32 c)) c
      × Decodes read_i64 (written (write_i64 d)) d
signed_round_trips a b c d ha hb hc hd = (
  read_i8-write_i8 a ha,
  read_i16-write_i16 b hb,
  read_i32-write_i32 c hc,
  read_i64-write_i64 d hd,
)
