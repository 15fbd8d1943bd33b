-- ===== src/World/Chunk/Light.antt =====
-- chunk.rs: the sections of a chunk and their light, addressed by coordinates. Ids of blocks and
-- biomes are numbers; a byte is a number below 256.
pub mod Nibbles
use cubic.Common.{
  ℕ, ◌+◌, ◌-◌, ◌*◌, ◌/◌, ◌%◌, ◌^◌, ◌≤◌, ◌<◌, ◌≡◌, refl, arith, bit_and, Bool, true, false, not,
  ◌||◌, Option, some, none,
}
use cubic.Common.{List, [], ◌∷◌, get_elem?, ltb, leb, ◌==◌, if◌then◌else◌}
use cubic.World.Chunk.{PalettedContainer, get}

pub record ChunkSection : Type 0 where
  pub non_empty_block_count : ℕ
  pub fluid_count : ℕ
  pub blocks : PalettedContainer ℕ
  pub biomes : PalettedContainer ℕ

-- checked arithmetic on usize of 64 bits
unfoldable pub checked : ℕ → Option ℕ
checked n = if ltb n (2 ^ 64) then some n else none

unfoldable pub and_then : {A B : Type 0} → Option A → (A → Option B) → Option B
and_then none f = none
and_then (some a) f = f a

unfoldable pub section_index : ℕ → ℕ → ℕ → ℕ → Option ℕ
unfolding checked and_then
section_index x y z width =
    if leb width x || leb width y || leb width z
    then none
    else and_then (checked (y * width)) (λ a.
      and_then (checked (a + z)) (λ b. and_then (checked (b * width)) (λ c. checked (c + x))))

unfoldable pub block : ChunkSection → ℕ → ℕ → ℕ → Option ℕ
unfolding and_then
block section x y z = and_then (section_index x y z 16) (λ index. get section.blocks index)

unfoldable pub biome : ChunkSection → ℕ → ℕ → ℕ → Option ℕ
unfolding and_then
biome section x y z = and_then (section_index x y z 4) (λ index. get section.biomes index)

pub record LightLayerData : Type 0 where
  pub mask_index : ℕ
  pub data_bytes : List ℕ

pub record ChunkLightSummary : Type 0 where
  pub sky_mask : List ℕ
  pub block_mask : List ℕ
  pub empty_sky_mask : List ℕ
  pub empty_block_mask : List ℕ
  pub sky_layer_count : ℕ
  pub block_layer_count : ℕ
  pub sky_layers : List LightLayerData
  pub block_layers : List LightLayerData

unfoldable pub find_layer : ℕ → List LightLayerData → Option LightLayerData
find_layer index [] = none
find_layer index (layer ∷ layers) =
    if layer.mask_index == index then some layer else find_layer index layers

unfoldable pub nibble : ℕ → ℕ → ℕ
nibble index byte = if bit_and index 1 == 0 then bit_and byte 0x0f else byte / 2 ^ 4

unfoldable pub light_value : List LightLayerData → ℕ → ℕ → ℕ → ℕ → Option ℕ
unfolding and_then nibble
light_value layers mask_index x y z =
    let index = y * 256 + z * 16 + x in
    if leb 16 x || leb 16 y || leb 16 z
    then none
    else and_then (find_layer mask_index layers) (λ layer.
      and_then (get_elem? layer.data_bytes (index / 2)) (λ byte. some (nibble index byte)))

bit_of : ℕ → Option ℕ → Bool
bit_of index none = false
bit_of index (some word) = not (bit_and word (2 ^ (index % 64)) == 0)

unfoldable pub mask_contains : List ℕ → ℕ → Bool
unfolding bit_of
mask_contains words index = bit_of index (get_elem? words (index / 64))

or_zero : Option ℕ → Bool → Option ℕ
or_zero (some value) empty = some value
or_zero none empty = if empty then some 0 else none

unfoldable pub sky : ChunkLightSummary → ℕ → ℕ → ℕ → ℕ → Option ℕ
unfolding and_then or_zero
sky light section x y z = and_then (checked (section + 1)) (λ guarded.
    or_zero (light_value light.sky_layers guarded x y z)
      (mask_contains light.empty_sky_mask guarded))

unfoldable pub block_light : ChunkLightSummary → ℕ → ℕ → ℕ → ℕ → Option ℕ
unfolding and_then or_zero
block_light light section x y z = and_then (checked (section + 1)) (λ guarded.
    or_zero (light_value light.block_layers guarded x y z)
      (mask_contains light.empty_block_mask guarded))
