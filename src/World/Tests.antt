-- ===== src/World/Tests.antt =====
-- The theorems on chunks at concrete inputs.
use cubic.Common.{
  ℕ, zero, suc, ◌≤◌, ◌<◌, ◌≡◌, ◌↔◌, ◌⊎◌, refl, arith, Bool, true, ◌&&◌, some, none, List, [], ◌∷◌,
  length, get_elem?, ◌==◌, ==_iff, if◌then◌else◌,
}
use cubic.Common.Int.{pos, negsuc, beq_ℤ, beq_ℤ_iff}
use cubic.Common.Result.{ok, err}
use cubic.Common.Assoc.{Eq, lookup}
use cubic.World.Chunk.{PalettedContainer, len, get, replace, max_loaded_chunks}
use cubic.World.Chunk.Paletted.{IsComplete, Writes, replace-Writes}
use cubic.World.Chunk.Light.{ChunkSection, ChunkLightSummary, find_layer, sky}
use cubic.World.Chunk.Light.Nibbles.{sky-packed}
use cubic.World.Chunk.Loaded.{
  ChunkCoordinate, Chunk, LoadedChunks, get_chunk, insert_chunk, update_block, loaded_chunk_limit,
}
use cubic.World.Chunk.Loaded.Limit.{Step, Reachable, Reachable-limit, insert_chunk_lem}
use cubic.World.Chunk.Loaded.Blocks.{IsSection, block_at, update_block_lem}

ids : Eq ℕ
ids = record { beq = λ a b. a == b; beq_iff = ==_iff }

beq_place : ChunkCoordinate → ChunkCoordinate → Bool
beq_place a b = beq_ℤ a.x b.x && beq_ℤ a.z b.z

beq_place_iff : (a b : ChunkCoordinate) → (beq_place a b ≡ true) ↔ (a ≡ b)
unfolding beq_place
beq_place_iff a b = ground (arith, beq_ℤ_iff a.x b.x, beq_ℤ_iff a.z b.z)

place : Eq ChunkCoordinate
place = record { beq = beq_place; beq_iff = beq_place_iff }

-- a section of a single block, of 16 * 16 * 16 places
abbrev stone : PalettedContainer ℕ
stone = PalettedContainer.single 1 4096

stone-IsComplete : IsComplete stone
unfolding get len
stone-IsComplete i h = (1, ground arith)

replace-Writes_example : Writes ids 300 9 (get stone) (len stone) (replace ids stone 300 9)
unfolding len
replace-Writes_example = replace-Writes ids stone 300 9 stone-IsComplete (omega arith)

abbrev section_of_stone : ChunkSection
section_of_stone = record {
  non_empty_block_count = 4096;
  fluid_count = 0;
  blocks = stone;
  biomes = PalettedContainer.single 2 64;
}

-- a layer with level 7 everywhere
sevens : ℕ → List ℕ
sevens zero = []
sevens (suc n) = 0x77 ∷ sevens n

get_elem?-sevens : (count n : ℕ) → n < count → get_elem? (sevens count) n ≡ some 0x77
unfolding sevens
get_elem?-sevens zero n h = absurd (omega arith)
get_elem?-sevens (suc count) zero h = refl
get_elem?-sevens (suc count) (suc n) h = get_elem?-sevens count n (omega arith)

abbrev bright : ChunkLightSummary
bright = record {
  sky_mask = [];
  block_mask = [];
  empty_sky_mask = [];
  empty_block_mask = [];
  sky_layer_count = 1;
  block_layer_count = 0;
  sky_layers = record { mask_index = 1; data_bytes = sevens 2048 } ∷ [];
  block_layers = [];
}

abbrev origin : Chunk
origin = record {
  coordinate = record { x = pos 0; z = negsuc 0 };
  sections = section_of_stone ∷ [];
  heightmaps = [];
  block_entities = [];
  light = bright;
}

abbrev loaded : LoadedChunks
loaded = (origin.coordinate, origin) ∷ []

sky_example : sky bright 0 4 2 3 ≡ some 7
unfolding find_layer
sky_example =
    sky-packed (λ place. 7) bright (record { mask_index = 1; data_bytes = sevens 2048 }) 0 4 2 3
      (λ place. omega arith) refl (λ n h. get_elem?-sevens 2048 n h) (omega arith) (omega arith)
      (omega arith) (omega arith)

reached : Reachable place ids (insert_chunk place origin []).1
reached = Reachable.next [] _ Reachable.start (Step.inserted origin [])

Reachable-limit_example : length (insert_chunk place origin []).1 ≤ max_loaded_chunks
Reachable-limit_example = Reachable-limit place ids reached

insert_chunk_example :
    (((insert_chunk place origin loaded).0 ≡ err (loaded_chunk_limit max_loaded_chunks))
      ↔ ((max_loaded_chunks ≤ length loaded) × (get_chunk place origin.coordinate loaded ≡ none)))
    × ((insert_chunk place origin loaded ≡ (err (loaded_chunk_limit max_loaded_chunks), loaded))
        ⊎ (((insert_chunk place origin loaded).0 ≡ ok (get_chunk place origin.coordinate loaded))
            × ((at : ChunkCoordinate)
                → get_chunk place at (insert_chunk place origin loaded).1 ≡ (
                    if place.beq origin.coordinate at
                    then some origin
                    else get_chunk place at loaded))))
insert_chunk_example = insert_chunk_lem place origin loaded

-- 8 = 7, 5 = 5 and 6 = 6
abbrev EightIsSeven : Type 0
EightIsSeven = (◌≡◌ {A = ℕ} 8 7) × ((◌≡◌ {A = ℕ} 5 5) × (◌≡◌ {A = ℕ} 6 6))

stone-IsSection : IsSection section_of_stone
unfolding len
stone-IsSection = (stone-IsComplete, refl)

update_block_example :
    block_at place origin.coordinate 0 4 2 3
      (update_block place ids origin.coordinate 0 4 2 3 9 loaded).1
    ≡ some 9
unfolding get_chunk lookup beq_ℤ place beq_place
update_block_example =
    update_block_lem place ids origin.coordinate 0 4 2 3 9 loaded origin section_of_stone refl refl
      stone-IsSection (omega arith) (omega arith) (omega arith) origin.coordinate 0 4 2 3
