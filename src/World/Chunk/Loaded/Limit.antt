-- ===== src/World/Chunk/Loaded/Limit.antt =====
-- The number of loaded chunks, and what a chunk that is inserted or removed does to the others.
use cubic.Common.{ℕ, ◌≤◌, ◌≡◌, refl, ◌∙◌, arith, false, some, none}
use cubic.Common.{[], length, leb, if◌then◌else◌, Option-cases, Bool-cases, ◌⊎◌, ◌↔◌, inl, inr}
use cubic.Common.Int.{ℤ}
use cubic.Common.Result.{ok, err}
use cubic.Common.Assoc.{Eq, lookup, lookup-insert, length-insert, length-remove}
use cubic.World.Chunk.{max_loaded_chunks}
use cubic.World.Chunk.Light.{ChunkLightSummary}
use cubic.World.Chunk.Loaded.{
  ChunkCoordinate, Chunk, BlockEntityData, LoadedChunks, get_chunk, insert_chunk, remove_chunk,
  clear, change_chunk, update_light, update_block, update_block_entity, entity_written,
  loaded_chunk_limit,
}

module _ (place : Eq ChunkCoordinate) (ids : Eq ℕ) where
  -- one call of an operation that changes the map
  pub data Step : LoadedChunks → LoadedChunks → Type 0 where
    inserted : (chunk : Chunk) (s : LoadedChunks) → Step s (insert_chunk place chunk s).1
    removed : (at : ChunkCoordinate) (s : LoadedChunks) → Step s (remove_chunk place at s).1
    cleared : (s : LoadedChunks) → Step s (clear place s)
    lit :
        (at : ChunkCoordinate) (light : ChunkLightSummary) (s : LoadedChunks)
        → Step s (update_light place at light s).1
    block_changed :
        (at : ChunkCoordinate) (offset x y z state : ℕ) (s : LoadedChunks)
        → Step s (update_block place ids at offset x y z state s).1
    entity_changed :
        (at : ChunkCoordinate) (x : ℕ) (y : ℤ) (z kind : ℕ) (new : BlockEntityData)
        (s : LoadedChunks)
        → Step s (update_block_entity place at x y z kind new s).1

  -- the maps that the operations make of the empty one
  pub data Reachable : LoadedChunks → Type 0 where
    start : Reachable []
    next : (s t : LoadedChunks) → Reachable s → Step s t → Reachable t

  length-change_chunk :
      {A : Type 0} (missing : A) (f : Chunk → A × Chunk) (at : ChunkCoordinate) (s : LoadedChunks)
      → length (change_chunk place missing f at s).1 ≡ length s
  unfolding change_chunk
  length-change_chunk missing f at s = elim (Option-cases (lookup place at s)) [
    | inl e ↦ rw (e, change_chunk) refl
    | inr (c, e) ↦
        rw (e, change_chunk) (length-insert place at (f c).1 s ∙ rw (e, change_chunk) refl)
  ]

  length-insert_chunk :
      (chunk : Chunk) (s : LoadedChunks)
      → length s ≤ max_loaded_chunks
      → length (insert_chunk place chunk s).1 ≤ max_loaded_chunks
  unfolding insert_chunk
  length-insert_chunk chunk s h = ground (arith, length-insert place chunk.coordinate chunk s)

  Step-keeps :
      {s t : LoadedChunks} → Step s t → length s ≤ max_loaded_chunks → length t ≤ max_loaded_chunks
  unfolding remove_chunk clear update_light update_block update_block_entity
  Step-keeps (Step.inserted chunk s) h = length-insert_chunk chunk s h
  Step-keeps (Step.removed at s) h = omega (arith, length-remove place at s)
  Step-keeps (Step.cleared s) h = omega arith
  Step-keeps (Step.lit at light s) h = rw (length-change_chunk false _ at s) h
  Step-keeps (Step.block_changed at offset x y z state s) h =
      rw (length-change_chunk false _ at s) h
  Step-keeps (Step.entity_changed at x y z kind new s) h =
      rw (length-change_chunk none (entity_written place _ new) at s) h

  -- Whatever operations have made of the empty map, it holds at most 512 chunks.
  pub Reachable-limit : {s : LoadedChunks} → Reachable s → length s ≤ max_loaded_chunks
  Reachable-limit Reachable.start = omega arith
  Reachable-limit (Reachable.next s t r step) = Step-keeps step (Reachable-limit r)

module _ (place : Eq ChunkCoordinate) where
  -- An insertion is refused just where the map has 512 chunks or more and none at the coordinate. A
  -- refused one leaves the map as it was; an accepted one answers the chunk that stood there, and
  -- after it the coordinate has the new chunk and every other coordinate the chunk it had.
  pub insert_chunk_lem :
      (chunk : Chunk) (s : LoadedChunks)
      → (((insert_chunk place chunk s).0 ≡ err (loaded_chunk_limit max_loaded_chunks))
          ↔ ((max_loaded_chunks ≤ length s) × (get_chunk place chunk.coordinate s ≡ none)))
        × ((insert_chunk place chunk s ≡ (err (loaded_chunk_limit max_loaded_chunks), s))
            ⊎ (((insert_chunk place chunk s).0 ≡ ok (get_chunk place chunk.coordinate s))
                × ((at : ChunkCoordinate)
                    → get_chunk place at (insert_chunk place chunk s).1 ≡ (
                        if place.beq chunk.coordinate at
                        then some chunk
                        else get_chunk place at s))))
  unfolding insert_chunk get_chunk
  insert_chunk_lem chunk s = elim (Option-cases (lookup place chunk.coordinate s)) [
    | inl e ↦ elim (Bool-cases (leb max_loaded_chunks (length s))) [
      | inl full ↦ ((λ r. (ground arith, e), λ h. rw (e, full) refl), inl (rw (e, full) refl))
      | inr room ↦ (
        (λ r. absurd (ground (arith, rw (e, room) at r)), λ h. ground (arith, room, h.0)),
        inr (
          rw (e, room) refl,
          λ at. rw (e, room) (lookup-insert place chunk.coordinate at chunk s),
        ),
      )
    ]
    | inr (old, e) ↦ (
      (λ r. absurd (ground (arith, rw e at r)), λ h. absurd (ground (arith, e, h.1))),
      inr (rw e refl, λ at. rw e (lookup-insert place chunk.coordinate at chunk s)),
    )
  ]
