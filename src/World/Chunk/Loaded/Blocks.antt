-- ===== src/World/Chunk/Loaded/Blocks.antt =====
-- Block updates of the loaded chunks, read back by coordinates.
use cubic.Common.{
  ℕ, ◌+◌, ◌*◌, ◌≤◌, ◌<◌, ◌≡◌, ◌↔◌, refl, sym, ap, ◌∙◌, arith, Bool, true, false, ◌&&◌, Option, some,
  none,
}
use cubic.Common.{
  List, get_elem?, set, get_elem?-set, get_elem?-some, ◌==◌, if◌then◌else◌, Option-cases,
  Bool-cases, ◌⊎◌, inl, inr,
}
use mathlib.Core.Option.{none-ne-some}
use cubic.Common.Assoc.{Eq, lookup, insert, lookup-insert}
use cubic.World.Chunk.{len, get}
use cubic.World.Chunk.Paletted.{IsComplete, replace-Writes}
use cubic.World.Chunk.Light.{ChunkSection, section_index, block, checked, and_then}
use cubic.World.Chunk.Loaded.{
  ChunkCoordinate, Chunk, LoadedChunks, get_chunk, update_block, change_chunk, block_written,
  write_section,
}

index_in_section :
    (x y z : ℕ) → x < 16 → y < 16 → z < 16 → section_index x y z 16 ≡ some ((y * 16 + z) * 16 + x)
unfolding section_index checked and_then
index_in_section x y z h k l = ground arith

index_outside : (x y z : ℕ) → (16 ≤ x) ⊎ ((16 ≤ y) ⊎ (16 ≤ z)) → section_index x y z 16 ≡ none
unfolding section_index
index_outside x y z h = ground arith

index_found :
    (x y z m : ℕ)
    → section_index x y z 16 ≡ some m
    → (x < 16) × ((y < 16) × ((z < 16) × (m ≡ (y * 16 + z) * 16 + x)))
unfolding section_index checked and_then
index_found x y z m e = ground arith

-- Two places in a section of 16 * 16 * 16 blocks have the same index only if they are the same
-- place, and every place has an index below 4096.
pub section_index_unique :
    (x y z i j k m : ℕ)
    → section_index x y z 16 ≡ some m
    → (m < 4096) × ((section_index i j k 16 ≡ some m) ↔ ((i ≡ x) × ((j ≡ y) × (k ≡ z))))
section_index_unique x y z i j k m e =
    let (h, (l, (n, p))) = index_found x y z m e in
    (
      omega arith,
      (
        λ q.
            let (h2, (l2, (n2, p2))) = index_found i j k m q in
            (omega arith, (omega arith, omega arith)),
        λ q. let (a, (b, c)) = q in rw (a, b, c) e,
      ),
    )

-- the place of the first three coordinates is that of the last three
abbrev pub same_place : ℕ → ℕ → ℕ → ℕ → ℕ → ℕ → Bool
same_place x y z i j k = (x == i) && ((y == j) && (z == k))

same_place_outside :
    (x y z i j k m : ℕ)
    → section_index x y z 16 ≡ some m
    → section_index i j k 16 ≡ none
    → same_place x y z i j k ≡ false
same_place_outside x y z i j k m e absent = elim (Bool-cases (same_place x y z i j k)) [
  | inl same ↦ absurd (none-ne-some m (sym absent ∙ sym (same_index same) ∙ e))
  | inr other ↦ other
]
  where
    same_index : same_place x y z i j k ≡ true → section_index x y z 16 ≡ section_index i j k 16
    same_index same =
        let p : x ≡ i = ground arith in
        let q : y ≡ j = ground arith in let r : z ≡ k = ground arith in rw (p, q, r) refl

same_place_index :
    (x y z i j k m n : ℕ)
    → section_index x y z 16 ≡ some m
    → section_index i j k 16 ≡ some n
    → (m == n) ≡ same_place x y z i j k
same_place_index x y z i j k m n e f =
    let (h, (l, (o, p))) = index_found x y z m e in
    let (h2, (l2, (o2, p2))) = index_found i j k n f in ground arith

-- the blocks of the section are 16 * 16 * 16, each in its palette
abbrev pub IsSection : ChunkSection → Type 0
IsSection section = IsComplete section.blocks × (len section.blocks ≡ 4096)

block_at_index :
    (section : ChunkSection) (i j k : ℕ) (o : Option ℕ)
    → section_index i j k 16 ≡ o
    → block section i j k ≡ and_then o (get section.blocks)
unfolding block
block_at_index section i j k o e = rw e refl

-- the block of a loaded chunk at a place of a section
abbrev pub block_of : ℕ → ℕ → ℕ → ℕ → Chunk → Option ℕ
block_of offset x y z chunk =
    and_then (get_elem? chunk.sections offset) (λ section. block section x y z)

section_or_other :
    (sections : List ChunkSection) (section new : ChunkSection) (offset other i j k state : ℕ)
    (same : Bool)
    → get_elem? sections offset ≡ some section
    → block new i j k ≡ (if same then some state else block section i j k)
    → and_then (get_elem? (set sections offset new) other) (λ s. block s i j k) ≡ (
        if (offset == other) && same
        then some state
        else and_then (get_elem? sections other) (λ s. block s i j k))
unfolding and_then
section_or_other sections section new offset other i j k state same e b =
    let lt = get_elem?-some sections offset section e in
    rw (get_elem?-set sections offset other new lt) (elim (Bool-cases (offset == other)) [
      | inl t ↦
          let p : offset ≡ other = ground arith in rw (t, (ap (get_elem? sections) (sym p) ∙ e)) b
      | inr u ↦ rw u refl
    ])

module _ (place : Eq ChunkCoordinate) where
  abbrev pub block_at : ChunkCoordinate → ℕ → ℕ → ℕ → ℕ → LoadedChunks → Option ℕ
  block_at at offset x y z chunks = and_then (get_chunk place at chunks) (block_of offset x y z)

  change_chunk-some :
      {A : Type 0} (missing : A) (f : Chunk → A × Chunk) (at : ChunkCoordinate) (s : LoadedChunks)
      (chunk : Chunk)
      → lookup place at s ≡ some chunk
      → change_chunk place missing f at s ≡ ((f chunk).0, insert place at (f chunk).1 s)
  unfolding change_chunk
  change_chunk-some missing f at s chunk e = rw (e, change_chunk) refl

module _ (place : Eq ChunkCoordinate) (ids : Eq ℕ) where
  section_written :
      (section : ChunkSection) (x y z state i j k : ℕ)
      → IsSection section
      → x < 16
      → y < 16
      → z < 16
      → block (write_section place ids section (section_index x y z 16) state).1 i j k
        ≡ (if same_place x y z i j k then some state else block section i j k)
  unfolding write_section and_then
  section_written section x y z state i j k (complete, size) h l m =
      let index = (y * 16 + z) * 16 + x in
      let found = index_in_section x y z h l m in
      let (kept, entries, changed) =
        replace-Writes ids section.blocks index state complete (omega (arith, size)) in
      rw found (elim (Option-cases (section_index i j k 16)) [
        | inl absent ↦
            rw
              (
                block_at_index _ i j k none absent,
                block_at_index section i j k none absent,
                same_place_outside x y z i j k index found absent,
              )
              refl
        | inr (n, e) ↦
            let (below, unique) = section_index_unique i j k x y z n e in
            rw (block_at_index _ i j k (some n) e, block_at_index section i j k (some n) e)
              (entries n (omega (arith, size))
                ∙ rw (same_place_index x y z i j k index n found e) refl)
      ])

  chunk_written :
      (offset x y z state : ℕ) (chunk : Chunk) (section : ChunkSection)
      → get_elem? chunk.sections offset ≡ some section
      → IsSection section
      → x < 16
      → y < 16
      → z < 16
      → (other i j k : ℕ)
      → block_of other i j k (block_written place ids offset x y z state chunk).1 ≡ (
          if (offset == other) && same_place x y z i j k
          then some state
          else block_of other i j k chunk)
  unfolding block_written
  chunk_written offset x y z state chunk section f whole h l m other i j k =
      rw (f, block_written)
        (section_or_other chunk.sections section _ offset other i j k state (same_place x y z i j k)
          f (section_written section x y z state i j k whole h l m))

  -- An update of a block, at a place below 16 in each direction, of a loaded section with 4096
  -- blocks that all name palette entries changes the block at that place of that section of that
  -- chunk, and no other block of any loaded chunk.
  pub update_block_lem :
      (at : ChunkCoordinate) (offset x y z state : ℕ) (chunks : LoadedChunks) (chunk : Chunk)
      (section : ChunkSection)
      → get_chunk place at chunks ≡ some chunk
      → get_elem? chunk.sections offset ≡ some section
      → IsSection section
      → x < 16
      → y < 16
      → z < 16
      → (there : ChunkCoordinate) (other i j k : ℕ)
      → block_at place there other i j k (update_block place ids at offset x y z state chunks).1 ≡ (
          if place.beq at there && ((offset == other) && same_place x y z i j k)
          then some state
          else block_at place there other i j k chunks)
  unfolding update_block change_chunk get_chunk block_written and_then block
  update_block_lem at offset x y z state chunks chunk section e f whole h l m there other i j k =
      let written = chunk_written offset x y z state chunk section f whole h l m other i j k in
      let change = block_written place ids offset x y z state in
      rw
        (
          change_chunk-some place false change at chunks chunk e,
          lookup-insert place at there (block_written place ids offset x y z state chunk).1 chunks,
        )
        (elim (Bool-cases (place.beq at there)) [
          | inl t ↦
              rw (t, ap (λ c. lookup place c chunks) (sym ((place.beq_iff at there).0 t)) ∙ e)
                written
          | inr u ↦ rw u refl
        ])
