-- ===== src/World/Entity/Spawned.antt =====
-- What a spawn leaves: its handle gives the entity, and the id leads to the handle.
use cubic.Common.{ℕ, ◌≡◌, inl, inr, refl, ◌∙◌, some, Option-cases, Bool-cases}
use cubic.Common.{List, [], ◌∷◌, length, get_elem?, get_elem?-set, get_elem?-some, eq→==, leb}
use cubic.Common.Int.{ℤ}
use cubic.Common.Result.{Result, ok, err}
use cubic.Common.Assoc.{Eq, lookup-insert}
use cubic.World.Entity.{
  Entity, EntityHandle, EntitySlot, EntityStore, EntityError, handle, get_entity, remove_entity,
  placed, allocated, spawn, max_remote_entities,
}
use cubic.World.Entity.Handles.{spawn-cases}

module _ {M : Type 0} (keys : Eq ℤ) where
  -- where a spawn answers a handle
  abbrev pub Placed : Entity M → Result EntityHandle EntityError × EntityStore M → Type 0
  Placed entity (ok h, s) = (get_entity keys h s ≡ some entity) × (handle keys entity.id s ≡ some h)
  Placed entity (err e, s) = Unit {0}

  placed_lem :
      (entity : Entity M) (at_ms index : ℕ) (s : EntityStore M)
      → Placed entity (placed keys entity at_ms index (get_elem? s.slots index) s)
  unfolding placed get_entity handle
  placed_lem entity at_ms index s = elim (Option-cases (get_elem? s.slots index)) [
    | inl e ↦ rw e tt
    | inr (old, e) ↦
        let new : EntitySlot M = record old {
          previous = entity.authoritative;
          target_at_ms = at_ms;
          entity = some entity;
        } in
        let at = get_elem?-set s.slots index index new (get_elem?-some s.slots index old e) in
        let found = lookup-insert keys entity.id entity.id _ s.by_id in
        rw e (
          rw (at, eq→== index index refl, eq→== old.generation old.generation refl) refl,
          found ∙ rw ((keys.beq_iff entity.id entity.id).1 refl) refl,
        )
  ]

  allocated_lem :
      (entity : Entity M) (at_ms : ℕ) (free : List ℕ) (s : EntityStore M)
      → Placed entity (allocated keys entity at_ms free s)
  unfolding allocated
  allocated_lem entity at_ms (index ∷ free) s =
      placed_lem entity at_ms index (record s { free = free })
  allocated_lem entity at_ms [] s = elim (Bool-cases (leb max_remote_entities (length s.slots))) [
    | inl full ↦ rw full tt
    | inr room ↦ rw room (placed_lem entity at_ms (length s.slots) (record s { slots = _ }))
  ]

  -- The handle that a spawn answers gives the entity, and is what the entity's id leads to.
  pub spawn-Placed :
      (entity : Entity M) (at_ms : ℕ) (s : EntityStore M)
      → Placed entity (spawn keys entity at_ms s)
  spawn-Placed entity at_ms s =
      let behind = (remove_entity keys entity.id s).1 in
      elim (spawn-cases keys entity at_ms s) [
        | inl (e, q) ↦ rw q tt
        | inr q ↦ rw q (allocated_lem entity at_ms behind.free behind)
      ]
