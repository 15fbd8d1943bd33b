-- ===== src/World/Inventory.antt =====
-- inventory.rs: stacks of items, containers, and the state of the inventory. A `MinecraftIdentifier`
-- is its text. `patches` is the equality of component patches, which the source derives.
pub mod Components
pub mod Routes
pub mod QuickMove
pub mod Clicks
pub mod Conserved
pub mod QuickCraft
pub mod Spread
pub mod State
pub mod Mirror
use cubic.Common.{
  ℕ, zero, suc, ◌+◌, ◌-◌, ◌%◌, ◌^◌, String, Bool, true, false, ◌&&◌, Option, some, none, List, [],
  ◌∷◌, ◌++◌, length, get_elem?, set, drop, ltb, leb, ◌==◌, if◌then◌else◌,
}
use cubic.Common.Int.{ℤ, pos, negsuc, beq_ℤ}
use cubic.Common.Result.{Result, ok, err}
use cubic.Common.Exec.{Exec, pure, raise, lift, ◌>>=◌, ◌>>◌}
use cubic.Common.Assoc.{Eq}
use text.Mathlib.Text.{is_eq}
use Prim.Native.String.{compare}

abbrev pub same_text : String → String → Bool
same_text a b = is_eq (compare a b)

abbrev pub player_inventory_slots : ℕ
player_inventory_slots = 46

abbrev pub max_container_slots : ℕ
max_container_slots = 512

pub data ComponentValue : Type 0 where
  unit : ComponentValue
  var_int : ℤ → ComponentValue
  bool : Bool → ComponentValue
  plain_text : String → ComponentValue
  rich_text : (plain : String) (wire : List ℕ) → ComponentValue
  lore : (lines : List String) (wire : List ℕ) → ComponentValue
  string_map : (values : List (String × String)) (wire : List ℕ) → ComponentValue
  registry_encoded : (wire : List ℕ) (source_registry : List String) → ComponentValue
  opaque : List ℕ → ComponentValue

pub record ComponentPatch : Type 0 where
  pub added : List (String × ComponentValue)
  pub removed : List String
  pub fingerprints : List (String × ℤ)

pub record ItemStack : Type 0 where
  pub item : String
  pub count : ℕ
  pub components : ComponentPatch

pub data MenuIdentity : Type 0 where
  player_inventory : MenuIdentity
  menu : String → MenuIdentity

pub record ContainerState : Type 0 where
  pub id : ℕ
  pub identity : MenuIdentity
  pub title : String
  pub state_id : ℤ
  pub slots : List (Option ItemStack)
  pub carried : Option ItemStack
  pub properties : List (ℤ × ℤ)

pub data InventoryError : Type 0 where
  zero_item_count : InventoryError
  too_many_components : (count max : ℕ) → InventoryError
  component_data_too_large : (size max : ℕ) → InventoryError
  conflicting_component_patch : InventoryError
  orphan_component_fingerprint : InventoryError
  too_many_slots : (count max : ℕ) → InventoryError
  invalid_slot : ℤ → InventoryError
  invalid_hotbar_slot : ℕ → InventoryError
  invalid_open_container_id : InventoryError
  unknown_container : ℕ → InventoryError
  stale_state_id : (expected actual : ℤ) → InventoryError
  invalid_click_button : ℤ → InventoryError
  quick_craft_not_started : InventoryError
  quick_craft_gesture_mismatch : InventoryError
  quick_craft_without_carried_stack : InventoryError
  invalid_quick_craft_slot : ℤ → InventoryError
  too_many_quick_craft_slots : InventoryError

find_component : String → List (String × ComponentValue) → Option ComponentValue
find_component name [] = none
find_component name ((k, v) ∷ rest) =
    let later = find_component name rest in if same_text k name then some v else later

-- `u32::try_from`, where the component is an integer
stack_limit : Option ComponentValue → ℕ
stack_limit (some (var_int (pos n))) = n
stack_limit _ = 64

clamp : ℕ → ℕ → ℕ → ℕ
clamp low high n = if ltb n low then low else if ltb high n then high else n

unfoldable pub max_stack_size : ItemStack → ℕ
unfolding find_component stack_limit clamp
max_stack_size s =
    clamp 1 99 (stack_limit (find_component "minecraft:max_stack_size" s.components.added))

unfoldable pub stackable_with : Eq ComponentPatch → ItemStack → ItemStack → Bool
stackable_with patches a b = same_text a.item b.item && patches.beq a.components b.components

-- `usize::try_from` of an `i16`, and the bound
unfoldable pub slot_index : ContainerState → ℤ → Result ℕ InventoryError
slot_index c (negsuc n) = err (invalid_slot (negsuc n))
slot_index c (pos n) = if leb (length c.slots) n then err (invalid_slot (pos n)) else ok n

nones : ℕ → List (Option ItemStack)
nones zero = []
nones (suc n) = none ∷ nones n

unfoldable pub new_container : ℕ → MenuIdentity → String → ℕ → Result ContainerState InventoryError
unfolding nones
new_container id identity title slot_count =
    if ltb max_container_slots slot_count
    then err (too_many_slots slot_count max_container_slots)
    else ok (record {
      id = id;
      identity = identity;
      title = title;
      state_id = pos 0;
      slots = nones slot_count;
      carried = none;
      properties = [];
    })

abbrev pub OnContainer : Type 0
OnContainer = Exec ContainerState InventoryError (Unit {0})

-- `ContainerState::replace_content`
unfoldable pub replace_slots : ℤ → List (Option ItemStack) → Option ItemStack → OnContainer
replace_slots state_id slots carried c =
    if ltb max_container_slots (length slots)
    then (err (too_many_slots (length slots) max_container_slots), c)
    else (ok tt, record c { state_id = state_id; slots = slots; carried = carried })

-- `ContainerState::set_slot`
unfoldable pub set_container_slot : ℤ → ℤ → Option ItemStack → OnContainer
unfolding slot_index
set_container_slot state_id slot stack = do
  index ← (λ c. (slot_index c slot, c))
  (λ c. (ok tt, record c { state_id = state_id; slots = set c.slots index stack }))

pub record QuickCraftGesture : Type 0 where
  pub container : ℕ
  pub state_id : ℤ
  pub kind : ℕ
  pub slots : List ℤ

pub record InventoryState : Type 0 where
  pub player : ContainerState
  pub opened : Option ContainerState
  pub selected_hotbar_slot : ℕ
  pub quick_craft : Option QuickCraftGesture
  pub instant_build : Bool
  pub permission_level : ℕ

unfoldable pub new : InventoryState
unfolding nones
new = record {
  player = record {
    id = 0;
    identity = player_inventory;
    title = "Inventory";
    state_id = pos 0;
    slots = nones player_inventory_slots;
    carried = none;
    properties = [];
  };
  opened = none;
  selected_hotbar_slot = 0;
  quick_craft = none;
  instant_build = false;
  permission_level = 0;
}
