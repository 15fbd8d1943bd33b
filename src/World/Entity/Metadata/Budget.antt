-- ===== src/World/Entity/Metadata/Budget.antt =====
-- The metadata of an entity stays within its budget.
use cubic.Common.{
  ℕ, ◌+◌, ◌-◌, ◌≤◌, ◌<◌, ◌≡◌, ◌⊎◌, refl, arith, true, false, inl, inr, Bool-cases, [], ◌∷◌, ltb,
}
use cubic.Common.Result.{ok}
use cubic.Common.Assoc.{Eq, lookup, insert}
use cubic.World.Inventory.Components.{saturating_add}
use cubic.World.Entity.Metadata.{
  EntityMetadataValue, MetadataLayout, Metadata, previous_bytes, bytes_of_metadata, retained_bytes,
  set_metadata, max_entity_metadata_retained_bytes,
}

above : (a b : ℕ) → ltb 131_072 (saturating_add a b) ≡ true → 131_072 < a + b
unfolding saturating_add
above a b e = ground (arith, e)

within : (a b : ℕ) → ltb 131_072 (saturating_add a b) ≡ false → a + b ≤ 131_072
unfolding saturating_add
within a b e = ground (arith, e)

module _ (layout : MetadataLayout) {T : Type 0} (keys : Eq ℕ) where
  previous-le :
      (accessor : ℕ) (metadata : Metadata T)
      → previous_bytes layout (lookup keys accessor metadata) ≤ bytes_of_metadata layout metadata
  unfolding previous_bytes bytes_of_metadata lookup
  previous-le accessor [] = omega arith
  previous-le accessor ((j, v) ∷ m) =
      let later = previous-le accessor m in
      elim (Bool-cases (keys.beq j accessor)) [
        | inl e ↦ rw e (omega arith)
        | inr e ↦ rw e (omega (arith, later))
      ]

  bytes-insert :
      (accessor : ℕ) (value : EntityMetadataValue T) (metadata : Metadata T)
      → bytes_of_metadata layout (insert keys accessor value metadata)
          + previous_bytes layout (lookup keys accessor metadata)
        ≡ bytes_of_metadata layout metadata + retained_bytes layout value
  unfolding previous_bytes bytes_of_metadata lookup insert
  bytes-insert accessor value [] = omega arith
  bytes-insert accessor value ((j, v) ∷ m) =
      let later = bytes-insert accessor value m in
      elim (Bool-cases (keys.beq j accessor)) [
        | inl e ↦ rw e (omega arith)
        | inr e ↦ rw e (omega (arith, later))
      ]

  -- A value is stored under its accessor where the metadata then keeps 131072 bytes or fewer;
  -- where it would keep more, the answer is an error and the metadata stays as it was.
  pub set_metadata_lem :
      (accessor : ℕ) (value : EntityMetadataValue T) (metadata : Metadata T)
      → let stored = insert keys accessor value metadata in
        let after = set_metadata layout keys accessor value metadata in
        ((bytes_of_metadata layout stored ≤ 131_072) × (after ≡ (ok tt, stored)))
        ⊎ ((131_072 < bytes_of_metadata layout stored)
            × (after.1 ≡ metadata)
            × ((after.0 ≡ ok tt) → ⊥))
  unfolding set_metadata saturating_add
  set_metadata_lem accessor value metadata =
      let size = bytes-insert accessor value metadata in
      let before = previous-le accessor metadata in
      let previous = previous_bytes layout (lookup keys accessor metadata) in
      let rest = bytes_of_metadata layout metadata - previous in
      let next = saturating_add rest (retained_bytes layout value) in
      elim (Bool-cases (ltb max_entity_metadata_retained_bytes next)) [
        | inl e ↦
            let over = above rest (retained_bytes layout value) e in
            inr (omega (arith, size, before, over), rw e refl, λ g. ground (arith, rw e at g))
        | inr e ↦
            let fits = within rest (retained_bytes layout value) e in
            inl (omega (arith, size, before, fits), rw e refl)
      ]
