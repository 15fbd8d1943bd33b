-- ===== src/World/EntityTests.antt =====
-- The theorems on entities at concrete inputs, and runs of the store's functions.
use cubic.Common.{ℕ, ◌≤◌, ◌<◌, ◌⊎◌, ◌==◌, ==_iff, ◌≡◌, refl, arith, some, none, List, [], ◌∷◌}
use cubic.Common.Int.{ℤ, pos, beq_ℤ, beq_ℤ_iff}
use cubic.Common.Result.{ok}
use cubic.Common.Assoc.{Eq, lookup, insert, remove}
use cubic.World.Entity.{
  Entity, EntityHandle, EntityStore, EntityTransform, Vec3d, contains, handle, get_entity,
  remove_handle, remove_entity, placed, allocated, spawn,
}
use cubic.World.Entity.Metadata.{
  EntityMetadataValue, Metadata, MetadataLayout, pose, string, bytes_of_metadata, set_metadata,
}
use cubic.World.Entity.Metadata.Budget.{set_metadata_lem}
use cubic.World.Entity.Handles.{Op, run, removed_handle_stays_stale}
use cubic.World.Entity.Spawned.{Placed, spawn-Placed}

abbrev keys : Eq ℤ
keys = record { beq = beq_ℤ; beq_iff = beq_ℤ_iff }

abbrev at_rest : Vec3d
at_rest = record { x = 0; y = 0; z = 0 }

abbrev standing : EntityTransform
standing = record { position = at_rest; yaw = 0; pitch = 0; head_yaw = 0 }

abbrev cow : Entity (List ℕ)
cow = record {
  id = pos 7;
  uuid = [];
  entity_type = "minecraft:cow";
  authoritative = standing;
  velocity = at_rest;
  spawn_data = pos 0;
  details = [];
}

abbrev cow_handle : EntityHandle
cow_handle = record { slot = 0; generation = 3 }

abbrev one_cow : EntityStore (List ℕ)
one_cow = record {
  slots = record { generation = 3; entity = some cow; previous = standing; target_at_ms = 0 } ∷ [];
  by_id = (pos 7, cow_handle) ∷ [];
  free = [];
}

-- the cow's slot and its id are taken again under a new generation
spawned_again :
    (spawn keys cow 50 (remove_entity keys (pos 7) one_cow).1).0
    ≡ ok (record { slot = 0; generation = 4 })
unfolding spawn contains remove_entity remove_handle handle lookup remove insert beq_ℤ allocated
    placed
spawned_again = refl

stale_example :
    get_entity keys cow_handle (
      run keys (Op.spawned cow 50 ∷ Op.removed (pos 9) ∷ []) (remove_entity keys (pos 7) one_cow).1)
    ≡ none
unfolding handle lookup get_entity beq_ℤ
stale_example =
    removed_handle_stays_stale keys cow_handle (pos 7) one_cow cow
      (Op.spawned cow 50 ∷ Op.removed (pos 9) ∷ []) refl refl (omega arith) (omega arith)

spawn-Placed_example : Placed keys cow (spawn keys cow 20 one_cow)
spawn-Placed_example = spawn-Placed keys cow 20 one_cow

abbrev accessors : Eq ℕ
accessors = record { beq = λ a b. a == b; beq_iff = ==_iff }

abbrev sizes : MetadataLayout
sizes = record { value_size = 96; particle_size = 64 }

-- a pose, and a custom name under accessor 2
abbrev described : Metadata (List ℕ)
described = (6, pose 0 "standing") ∷ (2, string "Bessie") ∷ []

abbrev renamed : EntityMetadataValue (List ℕ)
renamed = string "Clarabelle"

set_metadata_example :
    ((bytes_of_metadata sizes (insert accessors 2 renamed described) ≤ 131_072)
      × (set_metadata sizes accessors 2 renamed described
          ≡ (ok tt, insert accessors 2 renamed described)))
    ⊎ ((131_072 < bytes_of_metadata sizes (insert accessors 2 renamed described))
        × ((set_metadata sizes accessors 2 renamed described).1 ≡ described)
        × (((set_metadata sizes accessors 2 renamed described).0 ≡ ok tt) → ⊥))
set_metadata_example = set_metadata_lem sizes accessors 2 renamed described

-- the longer name takes the place of the shorter one
renamed_run :
    set_metadata sizes accessors 2 renamed described
    ≡ (ok tt, (6, pose 0 "standing") ∷ (2, renamed) ∷ [])
unfolding set_metadata lookup insert
renamed_run = refl
