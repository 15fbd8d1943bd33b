-- ===== src/World/Chunk.antt =====
-- chunk.rs: block and biome storage of a section, its light, and the chunks that are loaded.
pub mod Paletted
pub mod Light
pub mod Loaded
use cubic.Common.{
  ℕ, zero, suc, ◌+◌, ◌-◌, ◌*◌, ◌/◌, ◌%◌, ◌^◌, bit_and, Bool, true, false, not, ◌||◌, ◌&&◌, Option,
  some, none, String,
}
use cubic.Common.{List, [], ◌∷◌, ◌++◌, length, get_elem?, set, ltb, leb, ◌==◌, if◌then◌else◌}
use cubic.Common.Assoc.{Eq}

abbrev pub max_loaded_chunks : ℕ
max_loaded_chunks = 512

pub data PalettedContainer (T : Type 0) : Type 0 where
  single : T → ℕ → PalettedContainer T
  indirect : List T → List ℕ → PalettedContainer T
  direct : List T → PalettedContainer T

pub data PaletteForm : Type 0 where
  single indirect direct : PaletteForm

module _ {T : Type 0} where
  unfoldable pub len : PalettedContainer T → ℕ
  len (PalettedContainer.single value entries) = entries
  len (PalettedContainer.indirect palette indices) = length indices
  len (PalettedContainer.direct values) = length values

  unfoldable pub is_empty : PalettedContainer T → Bool
  unfolding len
  is_empty c = len c == 0

  from_palette : List T → Option ℕ → Option T
  from_palette palette none = none
  from_palette palette (some index) = get_elem? palette index

  unfoldable pub get : PalettedContainer T → ℕ → Option T
  unfolding from_palette
  get (PalettedContainer.single value entries) index =
      if ltb index entries then some value else none
  get (PalettedContainer.indirect palette indices) index =
      from_palette palette (get_elem? indices index)
  get (PalettedContainer.direct values) index = get_elem? values index

  unfoldable pub form : PalettedContainer T → PaletteForm
  form (PalettedContainer.single value entries) = PaletteForm.single
  form (PalettedContainer.indirect palette indices) = PaletteForm.indirect
  form (PalettedContainer.direct values) = PaletteForm.direct

  keep_some : Option T → List T → List T
  keep_some none rest = rest
  keep_some (some value) rest = value ∷ rest

  -- `(entry..).filter_map(|entry| self.get(entry))` over `count` entries
  unfoldable pub materialize : PalettedContainer T → ℕ → ℕ → List T
  unfolding keep_some
  materialize c entry zero = []
  materialize c entry (suc count) = keep_some (get c entry) (materialize c (entry + 1) count)

module _ {T : Type 0} (eq : Eq T) where
  write_over : List T → ℕ → T → Option T → PalettedContainer T × Bool
  write_over values index value none = (PalettedContainer.direct values, false)
  write_over values index value (some entry) =
      if eq.beq entry value
      then (PalettedContainer.direct values, false)
      else (PalettedContainer.direct (set values index value), true)

  -- the write into a container that is direct already
  unfoldable pub set_direct : List T → ℕ → T → PalettedContainer T × Bool
  unfolding write_over
  set_direct values index value = write_over values index value (get_elem? values index)

  unfoldable pub set_materialized : PalettedContainer T → ℕ → T → PalettedContainer T × Bool
  set_materialized c index value =
      let values = materialize c 0 (len c) in
      if length values == len c then set_direct values index value else (c, false)

  in_bounds : PalettedContainer T → ℕ → T → PalettedContainer T × Bool
  in_bounds (PalettedContainer.direct values) index value = set_direct values index value
  in_bounds c index value = set_materialized c index value

  unfoldable pub replace : PalettedContainer T → ℕ → T → PalettedContainer T × Bool
  unfolding in_bounds
  replace c index value = if leb (len c) index then (c, false) else in_bounds c index value
