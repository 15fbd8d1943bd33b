-- ===== src/Protocol/Text/Utf8.antt =====
-- UTF-8: the check of the standard library accepts what `utf8` writes.
use cubic.Common.{
  ℕ, zero, suc, ◌+◌, ◌-◌, ◌*◌, ◌/◌, ◌%◌, ◌≤◌, ◌<◌, ◌≡◌, refl, ap, ◌∙◌, arith, true, some,
  Bool-cases, inl, inr,
}
use cubic.Common.{List, [], ◌∷◌, ◌++◌, length, drop, ltb, All, length-append, drop-length_append}
use mathlib.Core.Option.{none-ne-some}
use cubic.Common.Result.{ok}
use cubic.Protocol.Text.{
  char_bytes, utf8, utf16_units, is_scalar, next_char, after_char, scan_chars, from_utf8,
}

abbrev pub IsText : List ℕ → Type 0
IsText cs = All (λ c. is_scalar c ≡ true) cs

-- No character has more bytes than three for each of its UTF-16 units.
pub length-utf8 : (cs : List ℕ) → length (utf8 cs) ≤ 3 * utf16_units cs
unfolding utf16_units
length-utf8 [] = omega arith
length-utf8 (c ∷ cs) = ground (arith, length-append (char_bytes c) (utf8 cs), length-utf8 cs)

two_lem :
    (c : ℕ) (rest : List ℕ)
    → 0x80 ≤ c
    → c < 0x800
    → next_char ((0xc0 + c / 64) ∷ (0x80 + c % 64) ∷ rest) ≡ some (c, 2)
unfolding next_char
two_lem c [] h k = ground arith
two_lem c (x ∷ []) h k = ground arith
two_lem c (x ∷ y ∷ rest) h k = ground arith

joined_three :
    (c : ℕ)
    → c < 0x10000
    → (0xe0 + c / 4096 - 0xe0) * 4096 + (0x80 + c / 64 % 64 - 0x80) * 64 + (0x80 + c % 64 - 0x80)
      ≡ c
joined_three c h = omega arith

joined_four :
    (c : ℕ)
    → (0xf0 + c / 262144 - 0xf0) * 262144
        + (0x80 + c / 4096 % 64 - 0x80) * 4096
        + (0x80 + c / 64 % 64 - 0x80) * 64
        + (0x80 + c % 64 - 0x80)
      ≡ c
joined_four c = omega arith

three_lem :
    (c : ℕ) (rest : List ℕ)
    → 0x800 ≤ c
    → c < 0x10000
    → is_scalar c ≡ true
    → next_char ((0xe0 + c / 4096) ∷ (0x80 + c / 64 % 64) ∷ (0x80 + c % 64) ∷ rest) ≡ some (c, 3)
unfolding next_char
three_lem c [] h k s = ground (arith, joined_three c k, s)
three_lem c (x ∷ rest) h k s = ground (arith, joined_three c k, s)

four_lem :
    (c : ℕ) (rest : List ℕ)
    → 0x10000 ≤ c
    → is_scalar c ≡ true
    → next_char (
        (0xf0 + c / 262144)
        ∷ (0x80 + c / 4096 % 64)
        ∷ (0x80 + c / 64 % 64)
        ∷ (0x80 + c % 64)
        ∷ rest)
      ≡ some (c, 4)
unfolding next_char
four_lem c rest h s = ground (arith, joined_four c, s)

one_lem : (c : ℕ) (rest : List ℕ) → c < 0x80 → next_char (c ∷ rest) ≡ some (c, 1)
unfolding next_char
one_lem c [] h = ground arith
one_lem c (x ∷ []) h = ground arith
one_lem c (x ∷ y ∷ []) h = ground arith
one_lem c (x ∷ y ∷ z ∷ rest) h = ground arith

char_lem :
    (c : ℕ) (rest : List ℕ)
    → is_scalar c ≡ true
    → next_char (char_bytes c ++ rest) ≡ some (c, length (char_bytes c))
char_lem c rest s = elim (Bool-cases (ltb c 0x80)) [
  | inl one ↦ rw one (one_lem c rest (ground arith))
  | inr m1 ↦ elim (Bool-cases (ltb c 0x800)) [
    | inl two ↦ rw (m1, two) (two_lem c rest (ground arith) (ground arith))
    | inr m2 ↦ elim (Bool-cases (ltb c 0x10000)) [
      | inl three ↦ rw (m1, m2, three) (three_lem c rest (ground arith) (ground arith) s)
      | inr four ↦ rw (m1, m2, four) (four_lem c rest (ground arith) s)
    ]
  ]
]

scan_step :
    (bytes : List ℕ) (fuel offset : ℕ) (found : ℕ × ℕ)
    → next_char bytes ≡ some found
    → scan_chars (suc fuel) bytes offset
      ≡ after_char found (scan_chars fuel (drop found.1 bytes) (offset + found.1))
unfolding scan_chars next_char
scan_step [] fuel offset found e = absurd (none-ne-some found e)
scan_step (byte ∷ bytes) fuel offset found e = rw (e, scan_chars) refl

positive_char : (c : ℕ) → 1 ≤ length (char_bytes c)
positive_char c = ground arith

-- As many rounds as there are bytes are enough.
scan_chars-utf8 :
    (cs : List ℕ) (fuel offset : ℕ)
    → IsText cs
    → length (utf8 cs) ≤ fuel
    → scan_chars fuel (utf8 cs) offset ≡ ok cs
unfolding scan_chars
scan_chars-utf8 [] zero offset t h = refl
scan_chars-utf8 [] (suc fuel) offset t h = refl
scan_chars-utf8 (c ∷ cs) zero offset t h =
    absurd (omega (arith, length-append (char_bytes c) (utf8 cs), positive_char c))
scan_chars-utf8 (c ∷ cs) (suc fuel) offset t h =
    let size = length-append (char_bytes c) (utf8 cs) in
    let width = length (char_bytes c) in
    scan_step (utf8 (c ∷ cs)) fuel offset (c, width) (char_lem c (utf8 cs) t.0)
    ∙ ap (λ bytes. after_char (c, width) (scan_chars fuel bytes (offset + width)))
        (drop-length_append (char_bytes c) (utf8 cs))
    ∙ ap (after_char (c, width))
        (scan_chars-utf8 cs fuel (offset + width) t.1 (omega (arith, size, positive_char c)))

pub from_utf8-utf8 : (cs : List ℕ) → IsText cs → from_utf8 (utf8 cs) ≡ ok cs
unfolding from_utf8
from_utf8-utf8 cs t = scan_chars-utf8 cs (length (utf8 cs)) 0 t (omega arith)
