-- ===== src/World/InventoryTests.antt =====
-- The theorems on the inventory at concrete inputs.
use Prim.Native.String.{compare}
use cubic.Common.{
  ℕ, zero, suc, ◌≡◌, refl, sym, ◌∙◌, String, Bool, true, false, List, [], ◌∷◌, length, ◌↔◌, arith,
  Option, some, none, inl, inr, Bool-cases, All,
}
use cubic.Common.Int.{ℤ, pos}
use cubic.Common.Result.{ok, err}
use cubic.Common.Assoc.{Eq}
use native.Mathlib.Decide.{ℕ_discrete}
use mathlib.Core.List.{List-discrete}
use mathlib.Core.Bool.{Bool-discrete, true≢false}
use text.Mathlib.TextEquality.{eq_iff}
use text.Mathlib.Text.{is_eq}
use cubic.World.Inventory.{
  ComponentPatch, ComponentValue, ItemStack, ContainerState, InventoryState, QuickCraftGesture,
  player_inventory, menu, var_int, orphan_component_fingerprint,
}
use cubic.World.Inventory.Components.{validate}
use cubic.World.Inventory.Components.Valid.{Valid, validate_iff}
use cubic.World.Inventory.Clicks.{pickup, pickup_all}
use cubic.World.Inventory.Routes.{quick_move_routes, quick_move_routes-Within, Within}
use cubic.World.Inventory.QuickMove.{quick_move}
use cubic.World.Inventory.QuickMove.Kept.{total-quick_move}
use cubic.World.Inventory.QuickCraft.{finish_quick_craft}
use cubic.World.Inventory.Conserved.{total, total-pickup, total-pickup_all}
use cubic.World.Inventory.Spread.{total-finish_quick_craft}

text_discrete : Discrete String
text_discrete s t = elim (Bool-cases (is_eq (compare s t))) [
  | inl e ↦ yes ((eq_iff s t).0 e)
  | inr e ↦ no (λ p. true≢false (sym ((eq_iff s t).1 p) ∙ e))
]

int_discrete : Discrete ℤ
int_discrete = hlevel (ℕ_discrete)

value_discrete : Discrete ComponentValue
value_discrete = hlevel (ℕ_discrete, int_discrete, text_discrete, List-discrete, Bool-discrete)

patch_discrete : Discrete ComponentPatch
patch_discrete = hlevel (ℕ_discrete, int_discrete, text_discrete, List-discrete, value_discrete)

abbrev holds : {P : Type 0} → Dec P → Bool
holds (yes p) = true
holds (no f) = false

holds_iff : {P : Type 0} (d : Dec P) → (holds d ≡ true) ↔ P
holds_iff (yes p) = (λ e. p, λ q. refl)
holds_iff (no f) = (λ e. absurd (true≢false (sym e)), λ p. absurd (f p))

abbrev patches : Eq ComponentPatch
patches = record {
  beq = λ a b. holds (patch_discrete a b);
  beq_iff = λ a b. holds_iff (patch_discrete a b);
}

abbrev stone : ℕ → ItemStack
stone n = record {
  item = "minecraft:stone";
  count = n;
  components = record { added = []; removed = []; fingerprints = [] };
}

abbrev stick : ItemStack
stick = record (stone 1) { item = "minecraft:stick" }

-- a chest of nine slots, with the cursor on a stack
abbrev chest : ContainerState
chest = record {
  id = 3;
  identity = menu "minecraft:generic_9x1";
  title = "Chest";
  state_id = pos 1;
  slots =
      some (stone 60) ∷ some stick ∷ none ∷ some (stone 7) ∷ none ∷ none ∷ none ∷ none ∷ none ∷ [];
  carried = some (stone 9);
  properties = [];
}

pickup_example :
    total patches (stone 1) (pickup patches (pos 0) (pos 0) chest).1 ≡ total patches (stone 1) chest
pickup_example =
    total-pickup patches (stone 1) (pos 0) (pos 0) chest (omega arith, omega arith)
      (λ e. ground (arith, e))

pickup_all_example :
    total patches (stone 1) (pickup_all patches (pos 0) chest).1 ≡ total patches (stone 1) chest
pickup_all_example = total-pickup_all patches (stone 1) (pos 0) chest

quick_move_example :
    total patches (stone 1) (quick_move patches (pos 3) chest).1 ≡ total patches (stone 1) chest
quick_move_example = total-quick_move patches (stone 1) (pos 3) chest

routes_example : All (Within (length chest.slots)) (quick_move_routes chest 3 (stone 7))
routes_example = quick_move_routes-Within chest (stone 7) 3 (omega arith)

abbrev drag : QuickCraftGesture
drag = record { container = 3; state_id = pos 1; kind = 0; slots = pos 2 ∷ pos 4 ∷ [] }

abbrev spread_chest : ContainerState
spread_chest = record chest {
  slots =
      some (stone 60)
      ∷ some stick
      ∷ some (stone 4)
      ∷ some (stone 7)
      ∷ some (stone 4)
      ∷ none
      ∷ none
      ∷ none
      ∷ none
      ∷ [];
  carried = some (stone 1);
}

dragged : finish_quick_craft patches drag chest ≡ (ok tt, spread_chest)
unfolding finish_quick_craft
dragged = refl

drag_example : total patches (stone 1) spread_chest ≡ total patches (stone 1) chest
drag_example =
    total-finish_quick_craft patches (stone 1) drag chest spread_chest (λ e. ground (arith, e))
      dragged

abbrev empties : ℕ → List (Option ItemStack)
empties zero = []
empties (suc n) = none ∷ empties n

abbrev large_chest : ContainerState
large_chest = record chest { slots = some (stone 5) ∷ empties 35; carried = some (stone 2) }

abbrev state : InventoryState
state = record {
  player = record chest { id = 0; identity = player_inventory; slots = empties 46; carried = none };
  opened = some large_chest;
  selected_hotbar_slot = 0;
  quick_craft = none;
  instant_build = false;
  permission_level = 0;
}

-- a shorter stack, without the unbreakable mark
abbrev shorter : ComponentPatch
shorter = record {
  added = ("minecraft:max_stack_size", var_int (pos 16)) ∷ [];
  removed = "minecraft:unbreakable" ∷ [];
  fingerprints = ("minecraft:max_stack_size", pos 9) ∷ [];
}

validate_example : (validate shorter ≡ ok tt) ↔ Valid shorter
validate_example = validate_iff shorter

-- the same, with a fingerprint of a component that is not added
orphan_run :
    validate (record shorter { fingerprints = ("minecraft:damage", pos 9) ∷ [] })
    ≡ err orphan_component_fingerprint
unfolding validate
orphan_run = refl
