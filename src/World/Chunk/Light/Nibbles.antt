-- ===== src/World/Chunk/Light/Nibbles.antt =====
-- The light of a place, two to a byte.
use cubic.Common.{ℕ, ◌+◌, ◌*◌, ◌/◌, ◌%◌, ◌^◌, ◌<◌, ◌≡◌, refl, ap, ◌∙◌, arith, bit_and, some}
use cubic.Common.{List, get_elem?, ◌==◌, Bool-cases, lt→ltb, inl, inr}
use cubic.Common.Bits.{and_low_mask}
use cubic.World.Chunk.Light.{
  LightLayerData, ChunkLightSummary, find_layer, nibble, light_value, and_then, checked, sky,
  or_zero,
}

-- Byte n of a layer holds the light of the places 2n and 2n + 1, the first one in its low half.
abbrev pub IsPacked : (ℕ → ℕ) → List ℕ → Type 0
IsPacked level bytes =
    (n : ℕ) → n < 2048 → get_elem? bytes n ≡ some (level (2 * n) + 16 * level (2 * n + 1))

abbrev pub IsNibble : (ℕ → ℕ) → Type 0
IsNibble level = (place : ℕ) → level place < 16

low_half : (low high : ℕ) → low < 16 → bit_and (low + 16 * high) 0x0f ≡ low
low_half low high h = ground (arith, and_low_mask 4 (low + 16 * high))

nibble_lem :
    (level : ℕ → ℕ) (index : ℕ)
    → IsNibble level
    → nibble index (level (2 * (index / 2)) + 16 * level (2 * (index / 2) + 1)) ≡ level index
unfolding nibble
nibble_lem level index h =
    let low = level (2 * (index / 2)) in
    let high = level (2 * (index / 2) + 1) in
    let odd : bit_and index 1 ≡ index % 2 = ground (arith, and_low_mask 1 index) in
    elim (Bool-cases (index % 2 == 0)) [
      | inl even ↦
          let p : 2 * (index / 2) ≡ index = ground arith in
          rw (odd, even) (low_half low high (h (2 * (index / 2))) ∙ ap level p)
      | inr other ↦
          let p : 2 * (index / 2) + 1 ≡ index = ground arith in
          let q : (low + 16 * high) / 16 ≡ high = omega (arith, h (2 * (index / 2))) in
          rw (odd, other) (q ∙ ap level p)
    ]

packed_value :
    (level : ℕ → ℕ) (layers : List LightLayerData) (layer : LightLayerData) (index x y z : ℕ)
    → IsNibble level
    → find_layer index layers ≡ some layer
    → IsPacked level layer.data_bytes
    → x < 16
    → y < 16
    → z < 16
    → light_value layers index x y z ≡ some (level (y * 256 + z * 16 + x))
unfolding light_value and_then
packed_value level layers layer index x y z h e packed k l m =
    let place = y * 256 + z * 16 + x in
    rw (e, packed (place / 2) (omega arith), nibble_lem level place h) (ground arith)

-- Where the layer of a section, one above the section's number, a usize, packs levels below 16 two
-- to a byte, the sky light at a place below 16 in each direction is the level of the place, in the
-- order y, z, x.
pub sky-packed :
    (level : ℕ → ℕ) (light : ChunkLightSummary) (layer : LightLayerData) (section x y z : ℕ)
    → IsNibble level
    → find_layer (section + 1) light.sky_layers ≡ some layer
    → IsPacked level layer.data_bytes
    → section + 1 < 2 ^ 64
    → x < 16
    → y < 16
    → z < 16
    → sky light section x y z ≡ some (level (y * 256 + z * 16 + x))
unfolding sky checked and_then or_zero
sky-packed level light layer section x y z h e packed small k l m =
    rw
      (
        lt→ltb (section + 1) (2 ^ 64) small,
        packed_value level light.sky_layers layer (section + 1) x y z h e packed k l m,
      )
      refl
