-- ===== src/World/Chunk/Loaded.antt =====
-- chunk.rs: the chunks that are loaded, a map from coordinates to chunks. A shared chunk
-- (`Arc<Chunk>`) is its value: `Arc::make_mut` copies a chunk that is shared before it changes it,
-- so no other holder sees the change.
pub mod Limit
pub mod Blocks
pub mod Summary
use cubic.Common.{
  ℕ, ◌+◌, ◌≤◌, ◌<◌, ◌≡◌, refl, arith, Bool, true, false, not, ◌||◌, ◌&&◌, Option, some, none,
  String,
}
use cubic.Common.{List, [], ◌∷◌, ◌++◌, length, get_elem?, set, leb, ◌==◌, if◌then◌else◌}
use text.Mathlib.Text.{is_eq}
use Prim.Native.String.{compare}
use cubic.Common.Int.{ℤ, pos, negsuc, beq_ℤ}
use cubic.Common.Result.{Result, ok, err}
use cubic.Common.Assoc.{Eq, lookup, insert, remove}
use cubic.World.Chunk.{PalettedContainer, max_loaded_chunks, replace}
use cubic.World.Chunk.Light.{ChunkSection, ChunkLightSummary, section_index}

pub record ChunkCoordinate : Type 0 where
  pub x : ℤ
  pub z : ℤ

pub record HeightmapData : Type 0 where
  pub kind_raw_id : ℕ
  pub data_longs : List ℕ

pub record BannerPattern : Type 0 where
  pub asset_id : String
  pub translation_key : Option String

pub record BannerPatternLayer : Type 0 where
  pub pattern_of : BannerPattern
  pub dye_raw_id : ℕ

pub record BlockEntityData : Type 0 where
  pub custom_name : Option String
  pub banner_patterns : List BannerPatternLayer

pub record BlockEntitySummary : Type 0 where
  pub local_x : ℕ
  pub y : ℤ
  pub local_z : ℕ
  pub type_raw_id : ℕ
  pub has_data : Bool
  pub entity_data : Option BlockEntityData

pub record Chunk : Type 0 where
  pub coordinate : ChunkCoordinate
  pub sections : List ChunkSection
  pub heightmaps : List HeightmapData
  pub block_entities : List BlockEntitySummary
  pub light : ChunkLightSummary

pub data ChunkStoreError : Type 0 where
  loaded_chunk_limit : ℕ → ChunkStoreError

abbrev pub LoadedChunks : Type 0
LoadedChunks = List (ChunkCoordinate × Chunk)

abbrev pub is_some : {A : Type 0} → Option A → Bool
is_some none = false
is_some (some a) = true

-- `PartialEq`, as it is derived
same_text : String → String → Bool
same_text a b = is_eq (compare a b)

beq_option : {A : Type 0} → (A → A → Bool) → Option A → Option A → Bool
beq_option beq none none = true
beq_option beq (some a) (some b) = beq a b
beq_option beq a b = false

beq_list : {A : Type 0} → (A → A → Bool) → List A → List A → Bool
beq_list beq [] [] = true
beq_list beq (a ∷ xs) (b ∷ ys) = beq a b && beq_list beq xs ys
beq_list beq xs ys = false

beq_pattern : BannerPattern → BannerPattern → Bool
beq_pattern a b =
    same_text a.asset_id b.asset_id && beq_option same_text a.translation_key b.translation_key

beq_layer : BannerPatternLayer → BannerPatternLayer → Bool
beq_layer a b = beq_pattern a.pattern_of b.pattern_of && (a.dye_raw_id == b.dye_raw_id)

unfoldable pub beq_details : BlockEntityData → BlockEntityData → Bool
unfolding beq_option beq_list beq_layer beq_pattern same_text
beq_details a b =
    beq_option same_text a.custom_name b.custom_name
    && beq_list beq_layer a.banner_patterns b.banner_patterns

-- `entity.data.as_ref() == Some(&data)`
unfoldable pub same_data : Option BlockEntityData → BlockEntityData → Bool
same_data none new = false
same_data (some old) new = beq_details old new

module _ (place : Eq ChunkCoordinate) where
  unfoldable pub get_chunk : ChunkCoordinate → LoadedChunks → Option Chunk
  get_chunk coordinate chunks = lookup place coordinate chunks

  unfoldable pub insert_chunk :
      Chunk → LoadedChunks → Result (Option Chunk) ChunkStoreError × LoadedChunks
  insert_chunk chunk chunks =
      let before = lookup place chunk.coordinate chunks in
      if not (is_some before) && leb max_loaded_chunks (length chunks)
      then (err (ChunkStoreError.loaded_chunk_limit max_loaded_chunks), chunks)
      else (ok before, insert place chunk.coordinate chunk chunks)

  unfoldable pub remove_chunk : ChunkCoordinate → LoadedChunks → Option Chunk × LoadedChunks
  remove_chunk coordinate chunks = (lookup place coordinate chunks, remove place coordinate chunks)

  unfoldable pub clear : LoadedChunks → LoadedChunks
  clear chunks = []

  -- `get_mut`: the chunk at the coordinate is changed where it stands
  unfoldable pub change_chunk :
      {A : Type 0} → A → (Chunk → A × Chunk) → ChunkCoordinate → LoadedChunks → A × LoadedChunks
  change_chunk missing f coordinate chunks = elim (lookup place coordinate chunks) [
    | none ↦ (missing, chunks)
    | some chunk ↦ ((f chunk).0, insert place coordinate (f chunk).1 chunks)
  ]

  unfoldable pub update_light :
      ChunkCoordinate → ChunkLightSummary → LoadedChunks → Bool × LoadedChunks
  update_light coordinate light =
      change_chunk false (λ chunk. (true, record chunk { light = light })) coordinate

  unfoldable pub write_section : Eq ℕ → ChunkSection → Option ℕ → ℕ → Bool × ChunkSection
  write_section eq section none state = (false, section)
  write_section eq section (some index) state =
      let (blocks, changed) = replace eq section.blocks index state in
      (changed, record section { blocks = blocks })

  unfoldable pub block_written : Eq ℕ → ℕ → ℕ → ℕ → ℕ → ℕ → Chunk → Bool × Chunk
  block_written eq offset x y z state chunk = elim (get_elem? chunk.sections offset) [
    | none ↦ (false, chunk)
    | some section ↦
        let (changed, new) = write_section eq section (section_index x y z 16) state in
        (changed, record chunk { sections = set chunk.sections offset new })
  ]

  unfoldable pub update_block :
      Eq ℕ → ChunkCoordinate → ℕ → ℕ → ℕ → ℕ → ℕ → LoadedChunks → Bool × LoadedChunks
  update_block eq coordinate offset x y z state =
      change_chunk false (block_written eq offset x y z state) coordinate

  -- the first entity of the position is changed, or a new one is added at the end
  unfoldable pub update_entity :
      BlockEntitySummary
      → BlockEntityData
      → List BlockEntitySummary
      → Bool × List BlockEntitySummary
  update_entity new data_of [] = (true, new ∷ [])
  update_entity new data_of (entity ∷ entities) =
      let (changed, rest) = update_entity new data_of entities in
      if entity.local_x == new.local_x && beq_ℤ entity.y new.y && (entity.local_z == new.local_z)
      then (
        not (entity.type_raw_id == new.type_raw_id)
            || not (same_data entity.entity_data data_of)
            || not entity.has_data,
        record entity { type_raw_id = new.type_raw_id; has_data = true; entity_data = some data_of }
            ∷ entities,
      )
      else (changed, entity ∷ rest)

  unfoldable pub entity_written : BlockEntitySummary → BlockEntityData → Chunk → Option Bool × Chunk
  entity_written new data_of chunk =
      let (changed, entities) = update_entity new data_of chunk.block_entities in
      (some changed, record chunk { block_entities = entities })

  unfoldable pub update_block_entity :
      ChunkCoordinate → ℕ → ℤ → ℕ → ℕ → BlockEntityData → LoadedChunks → Option Bool × LoadedChunks
  update_block_entity coordinate x y z type_raw_id data_of =
      let new : BlockEntitySummary = record {
        local_x = x;
        y = y;
        local_z = z;
        type_raw_id = type_raw_id;
        has_data = true;
        entity_data = some data_of;
      } in
      change_chunk none (entity_written new data_of) coordinate

-- `LoadedChunks::len`
unfoldable pub chunk_count : LoadedChunks → ℕ
chunk_count chunks = length chunks

-- `LoadedChunks::is_empty`
unfoldable pub no_chunks : LoadedChunks → Bool
no_chunks chunks = length chunks == 0
