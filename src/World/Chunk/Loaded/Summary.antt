-- ===== src/World/Chunk/Loaded/Summary.antt =====
-- chunk.rs: the counts of a chunk's sections by the form of their palettes.
use cubic.Common.{
  ℕ, ◌+◌, ◌≤◌, ◌≡◌, refl, arith, Bool, true, false, not, List, [], ◌∷◌, length, ◌==◌, if◌then◌else◌,
}
use cubic.World.Chunk.{PaletteForm, form}
use cubic.World.Chunk.Light.{ChunkSection}
use cubic.World.Chunk.Loaded.{ChunkCoordinate, Chunk}

pub record ChunkSummary : Type 0 where
  pub coordinate : ChunkCoordinate
  pub sections : ℕ
  pub non_empty_sections : ℕ
  pub single_block_palettes : ℕ
  pub indirect_block_palettes : ℕ
  pub direct_block_palettes : ℕ
  pub heightmaps : ℕ
  pub block_entities : ℕ
  pub sky_layers : ℕ
  pub block_layers : ℕ

-- `filter(test).count()`
unfoldable pub count_if : (ChunkSection → Bool) → List ChunkSection → ℕ
count_if test [] = 0
count_if test (section ∷ sections) = (if test section then 1 else 0) + count_if test sections

abbrev pub is_non_empty : ChunkSection → Bool
is_non_empty section = not (section.non_empty_block_count == 0)

same_form : PaletteForm → PaletteForm → Bool
same_form PaletteForm.single PaletteForm.single = true
same_form PaletteForm.indirect PaletteForm.indirect = true
same_form PaletteForm.direct PaletteForm.direct = true
same_form f g = false

unfoldable pub has_form : PaletteForm → ChunkSection → Bool
unfolding same_form
has_form f section = same_form (form section.blocks) f

unfoldable pub summary : Chunk → ChunkSummary
summary chunk = record {
  coordinate = chunk.coordinate;
  sections = length chunk.sections;
  non_empty_sections = count_if is_non_empty chunk.sections;
  single_block_palettes = count_if (has_form PaletteForm.single) chunk.sections;
  indirect_block_palettes = count_if (has_form PaletteForm.indirect) chunk.sections;
  direct_block_palettes = count_if (has_form PaletteForm.direct) chunk.sections;
  heightmaps = length chunk.heightmaps;
  block_entities = length chunk.block_entities;
  sky_layers = chunk.light.sky_layer_count;
  block_layers = chunk.light.block_layer_count;
}

one_test :
    (f : PaletteForm)
    → (if same_form f PaletteForm.single then 1 else 0)
        + (if same_form f PaletteForm.indirect then 1 else 0)
        + (if same_form f PaletteForm.direct then 1 else 0)
      ≡ 1
unfolding same_form
one_test PaletteForm.single = refl
one_test PaletteForm.indirect = refl
one_test PaletteForm.direct = refl

one_form :
    (section : ChunkSection)
    → (if has_form PaletteForm.single section then 1 else 0)
        + (if has_form PaletteForm.indirect section then 1 else 0)
        + (if has_form PaletteForm.direct section then 1 else 0)
      ≡ 1
unfolding has_form
one_form section = one_test (form section.blocks)

forms_add_up :
    (sections : List ChunkSection)
    → count_if (has_form PaletteForm.single) sections
        + count_if (has_form PaletteForm.indirect) sections
        + count_if (has_form PaletteForm.direct) sections
      ≡ length sections
unfolding count_if
forms_add_up [] = refl
forms_add_up (section ∷ sections) = omega (arith, one_form section, forms_add_up sections)

some_of_all :
    (test : ChunkSection → Bool) (sections : List ChunkSection)
    → count_if test sections ≤ length sections
unfolding count_if
some_of_all test [] = omega arith
some_of_all test (section ∷ sections) = ground (arith, some_of_all test sections)

-- A summary counts every section under exactly one form of palette, and no more sections as not
-- empty than there are.
pub summary_lem :
    (chunk : Chunk)
    → ((summary chunk).single_block_palettes
          + (summary chunk).indirect_block_palettes
          + (summary chunk).direct_block_palettes
        ≡ (summary chunk).sections)
      × ((summary chunk).non_empty_sections ≤ (summary chunk).sections)
unfolding summary
summary_lem chunk = (forms_add_up chunk.sections, some_of_all is_non_empty chunk.sections)
