-- ===== src/World/Entity.antt =====
-- entity.rs: the store of remote entities, slots that are used again under a new generation. A
-- float is its bit pattern. `M` is the type of an entity's metadata and attributes, which the store
-- keeps and never looks at.
pub mod Handles
pub mod Metadata
pub mod Spawned
use Prim.Native.String.{len}
use text.Mathlib.Text.{find?}
use cubic.Common.{
  ℕ, ◌+◌, ◌-◌, ◌/◌, ◌%◌, ◌^◌, Bool, true, false, not, ◌&&◌, ◌||◌, Option, some, none, String,
}
use cubic.Common.{List, [], ◌∷◌, ◌++◌, length, get_elem?, set, ltb, leb, ◌==◌, if◌then◌else◌}
use cubic.Common.Int.{ℤ}
use cubic.Common.Result.{Result, ok, err}
use cubic.Common.Assoc.{Eq, lookup, insert, remove}

abbrev pub max_remote_entities : ℕ
max_remote_entities = 4096

pub record EntityHandle : Type 0 where
  pub slot : ℕ
  pub generation : ℕ

pub record Vec3d : Type 0 where
  pub x : ℕ
  pub y : ℕ
  pub z : ℕ

pub record EntityTransform : Type 0 where
  pub position : Vec3d
  pub yaw : ℕ
  pub pitch : ℕ
  pub head_yaw : ℕ

-- `f64::is_finite` and `f32::is_finite`: the exponent is not all ones
abbrev pub is_finite64 : ℕ → Bool
is_finite64 bits = not (bits / 2 ^ 52 % 2 ^ 11 == 2 ^ 11 - 1)

abbrev pub is_finite32 : ℕ → Bool
is_finite32 bits = not (bits / 2 ^ 23 % 2 ^ 8 == 2 ^ 8 - 1)

abbrev pub finite_vec : Vec3d → Bool
finite_vec v = is_finite64 v.x && is_finite64 v.y && is_finite64 v.z

is_found : Option ℕ → Bool
is_found none = false
is_found (some at) = true

-- `contains` of a text
unfoldable pub contains : String → String → Bool
unfolding is_found
contains text part = is_found (find? text part)

abbrev pub is_finite : EntityTransform → Bool
is_finite t =
    finite_vec t.position && is_finite32 t.yaw && is_finite32 t.pitch && is_finite32 t.head_yaw

pub record Entity (M : Type 0) : Type 0 where
  pub id : ℤ
  pub uuid : List ℕ
  pub entity_type : String
  pub authoritative : EntityTransform
  pub velocity : Vec3d
  pub spawn_data : ℤ
  pub details : M

pub data EntityError : Type 0 where
  capacity non_finite invalid_type : EntityError
  metadata_capacity : (retained max : ℕ) → EntityError

pub record EntitySlot (M : Type 0) : Type 0 where
  pub generation : ℕ
  pub entity : Option (Entity M)
  pub previous : EntityTransform
  pub target_at_ms : ℕ

-- `free` is a stack with its top in front.
pub record EntityStore (M : Type 0) : Type 0 where
  pub slots : List (EntitySlot M)
  pub by_id : List (ℤ × EntityHandle)
  pub free : List ℕ

module _ {M : Type 0} (keys : Eq ℤ) where
  unfoldable pub entity_count : EntityStore M → ℕ
  entity_count s = length s.by_id

  unfoldable pub handle : ℤ → EntityStore M → Option EntityHandle
  handle id s = lookup keys id s.by_id

  in_slot : EntityHandle → Option (EntitySlot M) → Option (Entity M)
  in_slot h none = none
  in_slot h (some slot) = if slot.generation == h.generation then slot.entity else none

  -- `EntityStore::get`, and what `get_mut` gives access to
  unfoldable pub get_entity : EntityHandle → EntityStore M → Option (Entity M)
  unfolding in_slot
  get_entity h s = in_slot h (get_elem? s.slots h.slot)

  emptied : EntityHandle → Option (EntitySlot M) → EntityStore M → EntityStore M
  emptied h none s = s
  emptied h (some slot) s = record s {
    slots =
        set s.slots h.slot
          (record slot { entity = none; generation = (slot.generation + 1) % 2 ^ 64 });
    free = h.slot ∷ s.free;
  }

  unfoldable pub remove_handle : ℤ → Option EntityHandle → EntityStore M → Bool × EntityStore M
  unfolding emptied
  remove_handle id none s = (false, s)
  remove_handle id (some h) s =
      (true, emptied h (get_elem? s.slots h.slot) (record s { by_id = remove keys id s.by_id }))

  unfoldable pub remove_entity : ℤ → EntityStore M → Bool × EntityStore M
  remove_entity id s = remove_handle id (handle id s) s

  -- the entity goes into its slot, and its handle into the map
  unfoldable pub placed :
      Entity M
      → ℕ
      → ℕ
      → Option (EntitySlot M)
      → EntityStore M
      → Result EntityHandle EntityError × EntityStore M
  placed entity at_ms index none s = (err EntityError.capacity, s)
  placed entity at_ms index (some slot) s =
      let h : EntityHandle = record { slot = index; generation = slot.generation } in
      (
        ok h,
        record s {
          slots = set s.slots index (record slot {
            previous = entity.authoritative;
            target_at_ms = at_ms;
            entity = some entity;
          });
          by_id = insert keys entity.id h s.by_id;
        },
      )

  -- A slot of the free list is used first, then a new one. An index below 4096 fits u32.
  unfoldable pub allocated :
      Entity M → ℕ → List ℕ → EntityStore M → Result EntityHandle EntityError × EntityStore M
  allocated entity at_ms (index ∷ free) s =
      placed entity at_ms index (get_elem? s.slots index) (record s { free = free })
  allocated entity at_ms [] s =
      if leb max_remote_entities (length s.slots)
      then (err EntityError.capacity, s)
      else let slot : EntitySlot M = record {
        generation = 0;
        previous = entity.authoritative;
        entity = none;
        target_at_ms = at_ms;
      } in
        let slots = s.slots ++ (slot ∷ []) in
        placed entity at_ms (length s.slots) (get_elem? slots (length s.slots))
          (record s { slots = slots })

  unfoldable pub spawn :
      Entity M → ℕ → EntityStore M → Result EntityHandle EntityError × EntityStore M
  spawn entity at_ms s =
      if not (is_finite entity.authoritative) || not (finite_vec entity.velocity)
      then (err EntityError.non_finite, s)
      else if ltb 256 (len entity.entity_type) || not (contains entity.entity_type ":")
      then (err EntityError.invalid_type, s)
      else let (removed, emptied_store) = remove_entity entity.id s in
        allocated entity at_ms emptied_store.free emptied_store

  remove_all : List (ℤ × EntityHandle) → EntityStore M → EntityStore M
  remove_all [] s = s
  remove_all ((id, h) ∷ ids) s = remove_all ids (remove_entity id s).1

  unfoldable pub clear_entities : EntityStore M → EntityStore M
  unfolding remove_all
  clear_entities s = remove_all s.by_id s
