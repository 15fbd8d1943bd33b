-- ===== src/World/Entity/Metadata.antt =====
-- entity.rs: the metadata of an entity and its budget. A float is its bit pattern, and `T` is the
-- type of structured texts. The lengths of what is in memory add up to less than 2 ^ 64, so these
-- sums do not overflow.
pub mod Budget
use Prim.Native.String.{len}
use cubic.Common.{
  ℕ, ◌+◌, ◌-◌, ◌*◌, Bool, String, Option, some, none, List, [], ◌∷◌, length, ltb, if◌then◌else◌,
}
use cubic.Common.Int.{ℤ}
use cubic.Common.Result.{ok, err}
use cubic.Common.Exec.{Exec}
use cubic.Common.Assoc.{Eq, lookup, insert}
use cubic.World.Inventory.{ComponentValue, ItemStack}
use cubic.World.Inventory.Components.{saturating_add}
use cubic.World.Inventory.Components
use cubic.World.Entity.{EntityError, metadata_capacity}

abbrev pub max_entity_metadata_retained_bytes : ℕ
max_entity_metadata_retained_bytes = 128 * 1024

abbrev pub Triple : Type 0
Triple = ℕ × ℕ × ℕ

abbrev pub IntTriple : Type 0
IntTriple = ℤ × ℤ × ℤ

abbrev pub Properties : Type 0
Properties = List (String × String)

pub data EntityMetadataParticleData : Type 0 where
  no_data : EntityMetadataParticleData
  of_block : (id : ℕ) (block : String) (properties : Properties) → EntityMetadataParticleData
  float : ℕ → EntityMetadataParticleData
  int : ℤ → EntityMetadataParticleData
  color_and_float : (color : ℤ) (amount : ℕ) → EntityMetadataParticleData
  dust : (color : ℤ) (scale : ℕ) → EntityMetadataParticleData
  dust_transition : (start finish : ℤ) (scale : ℕ) → EntityMetadataParticleData
  item : ItemStack → EntityMetadataParticleData
  vibration_block : (position : IntTriple) (arrival_ticks : ℤ) → EntityMetadataParticleData
  vibration_entity : (entity_id : ℤ) (y_offset : ℕ) (arrival_ticks : ℤ) → EntityMetadataParticleData
  trail : (target : Triple) (color duration : ℤ) → EntityMetadataParticleData

pub record EntityMetadataParticle : Type 0 where
  pub kind : String
  pub data_of : EntityMetadataParticleData

pub record EntityMetadataProfile : Type 0 where
  pub name : Option String
  pub uuid : Option (List ℕ)
  pub properties : List (String × String × Option String)
  pub skin : List (Option String)
  pub slim : Option Bool

pub data EntityMetadataValue (T : Type 0) : Type 0 where
  byte : ℤ → EntityMetadataValue T
  integer : ℤ → EntityMetadataValue T
  long : ℤ → EntityMetadataValue T
  float : ℕ → EntityMetadataValue T
  string : String → EntityMetadataValue T
  boolean : Bool → EntityMetadataValue T
  component : (plain : String) (structured : T) (wire : List ℕ) → EntityMetadataValue T
  optional_component : Option (String × T × List ℕ) → EntityMetadataValue T
  item_stack : Option ItemStack → EntityMetadataValue T
  rotations : Triple → EntityMetadataValue T
  block_pos : IntTriple → EntityMetadataValue T
  optional_block_pos : Option IntTriple → EntityMetadataValue T
  direction : ℕ → EntityMetadataValue T
  living_entity_reference : Option (List ℕ) → EntityMetadataValue T
  block_state : (id : ℕ) (block : String) (properties : Properties) → EntityMetadataValue T
  optional_block_state : Option (ℕ × String × Properties) → EntityMetadataValue T
  particle : EntityMetadataParticle → EntityMetadataValue T
  particles : List EntityMetadataParticle → EntityMetadataValue T
  villager_data : (kind profession : String) (level : ℤ) → EntityMetadataValue T
  optional_unsigned_int : Option ℕ → EntityMetadataValue T
  pose : (ordinal : ℕ) (name : String) → EntityMetadataValue T
  registry_holder : (serializer : ℕ) (registry identifier : String) → EntityMetadataValue T
  global_pos : Option (String × IntTriple) → EntityMetadataValue T
  direct_painting :
      (width height : ℤ) (asset : String) (title author : Option (String × T × List ℕ))
      → EntityMetadataValue T
  enum_state : (serializer ordinal : ℕ) (name : String) → EntityMetadataValue T
  vector3 : Triple → EntityMetadataValue T
  quaternion : ℕ × ℕ × ℕ × ℕ → EntityMetadataValue T
  resolvable_profile : EntityMetadataProfile → EntityMetadataValue T

unfoldable pub serializer_id : {T : Type 0} → EntityMetadataValue T → ℕ
serializer_id (byte v) = 0
serializer_id (integer v) = 1
serializer_id (long v) = 2
serializer_id (float v) = 3
serializer_id (string v) = 4
serializer_id (component plain structured wire) = 5
serializer_id (optional_component v) = 6
serializer_id (item_stack v) = 7
serializer_id (boolean v) = 8
serializer_id (rotations v) = 9
serializer_id (block_pos v) = 10
serializer_id (optional_block_pos v) = 11
serializer_id (direction v) = 12
serializer_id (living_entity_reference v) = 13
serializer_id (block_state id block properties) = 14
serializer_id (optional_block_state v) = 15
serializer_id (particle v) = 16
serializer_id (particles v) = 17
serializer_id (villager_data kind profession level) = 18
serializer_id (optional_unsigned_int v) = 19
serializer_id (pose ordinal name) = 20
serializer_id (registry_holder serializer registry identifier) = serializer
serializer_id (enum_state serializer ordinal name) = serializer
serializer_id (global_pos v) = 33
serializer_id (direct_painting width height asset title author) = 34
serializer_id (vector3 v) = 39
serializer_id (quaternion v) = 40
serializer_id (resolvable_profile v) = 41

-- the sum of a measure
unfoldable pub sum_of : {A : Type 0} → (A → ℕ) → List A → ℕ
sum_of f [] = 0
sum_of f (x ∷ xs) = f x + sum_of f xs

pair_bytes : String × String → ℕ
pair_bytes (key, value) = len key + len value

text_bytes : Option String → ℕ
text_bytes none = 0
text_bytes (some s) = len s

signed_bytes : String × String × Option String → ℕ
unfolding text_bytes
signed_bytes (name, value, signature) = len name + len value + text_bytes signature

component_bytes : String × ComponentValue → ℕ
component_bytes (identifier, value) = len identifier + Components.retained_bytes value

unfoldable pub item_bytes : ItemStack → ℕ
unfolding sum_of component_bytes
item_bytes stack =
    len stack.item
    + sum_of component_bytes stack.components.added
    + sum_of len stack.components.removed

particle_extra : EntityMetadataParticleData → ℕ
unfolding sum_of pair_bytes item_bytes
particle_extra (of_block id block properties) = len block + sum_of pair_bytes properties
particle_extra (item stack) = item_bytes stack
particle_extra _ = 0

wire_bytes : {T : Type 0} → Option (String × T × List ℕ) → ℕ
wire_bytes none = 0
wire_bytes (some (plain, structured, wire)) = len plain + length wire

item_stack_bytes : Option ItemStack → ℕ
unfolding item_bytes
item_stack_bytes none = 0
item_stack_bytes (some stack) = item_bytes stack

optional_block_bytes : Option (ℕ × String × Properties) → ℕ
unfolding sum_of pair_bytes
optional_block_bytes none = 0
optional_block_bytes (some (id, block, properties)) = len block + sum_of pair_bytes properties

dimension_bytes : Option (String × IntTriple) → ℕ
dimension_bytes none = 0
dimension_bytes (some (dimension, position)) = len dimension

abbrev pub Metadata : Type 0 → Type 0
Metadata T = List (ℕ × EntityMetadataValue T)

-- `size_of` of the two types, which the compiler chooses
pub record MetadataLayout : Type 0 where
  pub value_size : ℕ
  pub particle_size : ℕ

module _ (layout : MetadataLayout) where
  unfoldable pub particle_bytes : EntityMetadataParticle → ℕ
  unfolding particle_extra
  particle_bytes p = layout.particle_size + len p.kind + particle_extra p.data_of

  unfoldable pub extra_bytes : {T : Type 0} → EntityMetadataValue T → ℕ
  unfolding particle_bytes wire_bytes item_stack_bytes optional_block_bytes dimension_bytes
      text_bytes signed_bytes
  extra_bytes (string value) = len value
  extra_bytes (component plain structured wire) = len plain + length wire
  extra_bytes (optional_component value) = wire_bytes value
  extra_bytes (item_stack value) = item_stack_bytes value
  extra_bytes (block_state id block properties) = len block + sum_of pair_bytes properties
  extra_bytes (optional_block_state value) = optional_block_bytes value
  extra_bytes (particle p) = particle_bytes p
  extra_bytes (particles ps) = sum_of particle_bytes ps
  extra_bytes (villager_data kind profession level) = len kind + len profession
  extra_bytes (pose ordinal name) = len name
  extra_bytes (enum_state serializer ordinal name) = len name
  extra_bytes (registry_holder serializer registry identifier) = len registry + len identifier
  extra_bytes (global_pos value) = dimension_bytes value
  extra_bytes (direct_painting width height asset title author) =
      len asset + wire_bytes title + wire_bytes author
  extra_bytes (resolvable_profile profile) =
      text_bytes profile.name
      + sum_of signed_bytes profile.properties
      + sum_of text_bytes profile.skin
  extra_bytes _ = 0

  unfoldable pub retained_bytes : {T : Type 0} → EntityMetadataValue T → ℕ
  unfolding saturating_add extra_bytes
  retained_bytes value = saturating_add layout.value_size (extra_bytes value)

  unfoldable pub previous_bytes : {T : Type 0} → Option (EntityMetadataValue T) → ℕ
  unfolding retained_bytes
  previous_bytes none = 0
  previous_bytes (some value) = retained_bytes value

  unfoldable pub bytes_of_metadata : {T : Type 0} → Metadata T → ℕ
  unfolding retained_bytes
  bytes_of_metadata [] = 0
  bytes_of_metadata ((accessor, value) ∷ rest) = retained_bytes value + bytes_of_metadata rest

  -- `Entity::set_metadata`, on the metadata of the entity
  unfoldable pub set_metadata :
      {T : Type 0} → Eq ℕ → ℕ → EntityMetadataValue T → Exec (Metadata T) EntityError (Unit {0})
  unfolding previous_bytes bytes_of_metadata
  set_metadata keys accessor value metadata =
      let previous = previous_bytes (lookup keys accessor metadata) in
      let current = bytes_of_metadata metadata in
      let next = saturating_add (current - previous) (retained_bytes value) in
      if ltb max_entity_metadata_retained_bytes next
      then (err (metadata_capacity next max_entity_metadata_retained_bytes), metadata)
      else (ok tt, insert keys accessor value metadata)
