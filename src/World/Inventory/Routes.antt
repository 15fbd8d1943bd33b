-- ===== src/World/Inventory/Routes.antt =====
-- inventory.rs: where a quick move looks for room, by the menu and the slot it starts from. The
-- texts of identifiers are matched as the source matches them.
use cubic.Common.{
  ℕ, ◌+◌, ◌-◌, ◌≤◌, ◌<◌, ◌≡◌, refl, arith, String, Bool, true, false, ◌&&◌, ◌||◌, Option, some,
  none, List, [], ◌∷◌, ◌++◌, length, get_elem?, ltb, leb, ◌==◌, if◌then◌else◌, All, All-append,
  if_cases, get_elem?-some, Option-cases, inl, inr,
}
use Prim.Native.String.{len, slice, find}
use cubic.World.Inventory.{
  ItemStack, MenuIdentity, player_inventory, menu, ContainerState, same_text,
  player_inventory_slots,
}
use cubic.World.Inventory.Clicks.{Slot, min_of}

pub record SlotRoute : Type 0 where
  pub start : ℕ
  pub end : ℕ
  pub reverse : Bool

abbrev pub new : ℕ → ℕ → Bool → SlotRoute
new start end reverse = record { start = start; end = end; reverse = reverse }

ends_with : String → String → Bool
ends_with s t = leb (len t) (len s) && same_text (slice s (len s - len t) (len s)) t

contains : String → String → Bool
contains s t = leb (find s t) (len s)

one_of : String → List String → Bool
one_of name [] = false
one_of name (n ∷ names) = same_text name n || one_of name names

unfoldable pub is_furnace_fuel : ItemStack → Bool
unfolding ends_with one_of
is_furnace_fuel s =
    one_of s.item ("minecraft:coal" ∷ "minecraft:charcoal" ∷ "minecraft:blaze_rod" ∷ [])
    || (ends_with s.item "_planks" || (ends_with s.item "_log" || ends_with s.item "_wood"))

unfoldable pub is_probable_furnace_input : ItemStack → Bool
unfolding ends_with contains one_of
is_probable_furnace_input s =
    ends_with s.item "_ore"
    || (contains s.item "raw_"
        || one_of s.item (
            "minecraft:sand" ∷ "minecraft:red_sand" ∷ "minecraft:cobblestone"
            ∷ "minecraft:clay_ball" ∷ "minecraft:wet_sponge" ∷ "minecraft:cactus" ∷ "minecraft:kelp"
            ∷ "minecraft:potato" ∷ "minecraft:beef" ∷ "minecraft:chicken" ∷ "minecraft:porkchop"
            ∷ "minecraft:mutton" ∷ "minecraft:rabbit" ∷ "minecraft:cod" ∷ "minecraft:salmon" ∷ []))

equipment_slot : String → Option ℕ
unfolding ends_with
equipment_slot name =
    if ends_with name "_helmet" || same_text name "minecraft:carved_pumpkin"
    then some 5
    else if ends_with name "_chestplate" || same_text name "minecraft:elytra"
    then some 6
    else if ends_with name "_leggings"
    then some 7
    else if ends_with name "_boots"
    then some 8
    else if same_text name "minecraft:shield"
    then some 45
    else none

-- the slot, if it is there and empty
if_empty : List Slot → Option ℕ → Option ℕ
if_empty slots none = none
if_empty slots (some i) = elim (get_elem? slots i) [ some none ↦ some i | _ ↦ none ]

unfoldable pub equipment_destination : ContainerState → ItemStack → Option ℕ
unfolding equipment_slot if_empty
equipment_destination c s = if_empty c.slots (equipment_slot s.item)

single : Option ℕ → List SlotRoute
single none = []
single (some slot) = new slot (slot + 1) false ∷ []

player_routes : ContainerState → ℕ → ItemStack → List SlotRoute
unfolding equipment_destination single
player_routes c source moving =
    if leb source 8 || (source == 45)
    then new 9 45 true ∷ []
    else if leb source 35
    then single (equipment_destination c moving) ++ (new 36 45 false ∷ [])
    else if leb source 44
    then new 9 36 false ∷ []
    else []

unfoldable pub furnace_player_routes : ContainerState → ItemStack → ℕ → ℕ → List SlotRoute
unfolding is_furnace_fuel is_probable_furnace_input
furnace_player_routes c moving alternate_start alternate_end =
    (if is_furnace_fuel moving
      then new 1 2 false ∷ []
      else if is_probable_furnace_input moving
      then new 0 1 false ∷ []
      else [])
    ++ (new alternate_start (min_of alternate_end (length c.slots)) false ∷ [])

furnace_routes : ContainerState → ℕ → ItemStack → List SlotRoute
unfolding furnace_player_routes
furnace_routes c source moving =
    if leb source 2
    then new 3 (length c.slots) true ∷ []
    else if leb source 29
    then furnace_player_routes c moving 30 39
    else if leb source 38
    then furnace_player_routes c moving 3 30
    else []

crafting_routes : ContainerState → ℕ → List SlotRoute
crafting_routes c source =
    if source == 0
    then new 10 (length c.slots) true ∷ []
    else if leb source 9
    then new 10 (length c.slots) false ∷ []
    else if leb source 36
    then new 37 (min_of 46 (length c.slots)) false ∷ []
    else if leb source 45
    then new 10 (min_of 37 (length c.slots)) false ∷ []
    else []

other_routes : ContainerState → ℕ → List SlotRoute
other_routes c source =
    if ltb source (length c.slots - 36)
    then new (length c.slots - 36) (length c.slots) true ∷ []
    else new 0 (length c.slots - 36) false ∷ []

menu_routes : MenuIdentity → ContainerState → ℕ → ItemStack → List SlotRoute
unfolding furnace_routes crafting_routes other_routes
menu_routes player_inventory c source moving = other_routes c source
menu_routes (menu name) c source moving =
    if same_text name "minecraft:furnace"
    then furnace_routes c source moving
    else if same_text name "minecraft:crafting"
    then crafting_routes c source
    else other_routes c source

unfoldable pub quick_move_routes : ContainerState → ℕ → ItemStack → List SlotRoute
unfolding player_routes menu_routes
quick_move_routes c source moving =
    if c.id == 0 && (length c.slots == player_inventory_slots)
    then player_routes c source moving
    else menu_routes c.identity c source moving

-- a route that names slots of the container only
abbrev pub Within : ℕ → SlotRoute → Type 0
Within size route = route.end ≤ size

if_empty-lt :
    (slots : List Slot) (o : Option ℕ) (i : ℕ) → if_empty slots o ≡ some i → i < length slots
unfolding if_empty
if_empty-lt slots none i e = ground (arith, e)
if_empty-lt slots (some j) i e = elim (Option-cases (get_elem? slots j)) [
  | inl p ↦ ground (arith, e, p)
  | inr (v, p) ↦ ground (arith, e, p, get_elem?-some slots j v p)
]

module _ (c : ContainerState) (moving : ItemStack) where
  AreWithin : List SlotRoute → Type 0
  AreWithin routes = All (Within (length c.slots)) routes

  single-Within :
      (o : Option ℕ) → ((i : ℕ) → o ≡ some i → i < length c.slots) → AreWithin (single o)
  unfolding single AreWithin
  single-Within none h = tt
  single-Within (some i) h = (omega (arith, h i refl), tt)

  player-Within :
      (source : ℕ)
      → length c.slots ≡ player_inventory_slots
      → AreWithin (player_routes c source moving)
  unfolding player_routes equipment_destination AreWithin
  player-Within source h =
      if_cases AreWithin (leb source 8 || (source == 45)) _ _ (λ e. (omega (arith, h), tt))
        (λ e.
          if_cases AreWithin (leb source 35) _ _
            (λ f.
              All-append (Within (length c.slots)) (single (equipment_destination c moving)) _
                (single-Within (equipment_destination c moving)
                  (λ i g. if_empty-lt c.slots (equipment_slot moving.item) i g))
                (omega (arith, h), tt))
            (λ f. if_cases AreWithin (leb source 44) _ _ (λ g. (omega (arith, h), tt)) (λ g. tt)))

  min_of-le : (a b : ℕ) → min_of a b ≤ b
  min_of-le a b = ground arith

  furnace_player-Within :
      (start end : ℕ) → 2 ≤ length c.slots → AreWithin (furnace_player_routes c moving start end)
  unfolding furnace_player_routes AreWithin
  furnace_player-Within start end h =
      All-append (Within (length c.slots)) _ _
        (if_cases AreWithin (is_furnace_fuel moving) _ _ (λ e. (omega (arith, h), tt))
          (λ e.
            if_cases AreWithin (is_probable_furnace_input moving) _ _ (λ f. (omega (arith, h), tt))
              (λ f. tt)))
        (min_of-le end (length c.slots), tt)

  furnace-Within :
      (source : ℕ) → source < length c.slots → AreWithin (furnace_routes c source moving)
  unfolding furnace_routes AreWithin
  furnace-Within source h =
      if_cases AreWithin (leb source 2) _ _ (λ e. (omega arith, tt))
        (λ e.
          if_cases AreWithin (leb source 29) _ _
            (λ f. furnace_player-Within 30 39 (ground (arith, e, h)))
            (λ f.
              if_cases AreWithin (leb source 38) _ _
                (λ g. furnace_player-Within 3 30 (ground (arith, e, h))) (λ g. tt)))

  crafting-Within : (source : ℕ) → AreWithin (crafting_routes c source)
  unfolding crafting_routes AreWithin
  crafting-Within source =
      if_cases AreWithin (source == 0) _ _ (λ e. (omega arith, tt))
        (λ e.
          if_cases AreWithin (leb source 9) _ _ (λ f. (omega arith, tt))
            (λ f.
              if_cases AreWithin (leb source 36) _ _ (λ g. (min_of-le 46 (length c.slots), tt))
                (λ g.
                  if_cases AreWithin (leb source 45) _ _ (λ k. (min_of-le 37 (length c.slots), tt))
                    (λ k. tt))))

  other-Within : (source : ℕ) → AreWithin (other_routes c source)
  unfolding other_routes AreWithin
  other-Within source =
      if_cases AreWithin (ltb source (length c.slots - 36)) _ _ (λ e. (omega arith, tt))
        (λ e. (omega arith, tt))

  menu-Within :
      (identity : MenuIdentity) (source : ℕ)
      → source < length c.slots
      → AreWithin (menu_routes identity c source moving)
  unfolding menu_routes
  menu-Within player_inventory source h = other-Within source
  menu-Within (menu name) source h =
      if_cases AreWithin (same_text name "minecraft:furnace") _ _ (λ e. furnace-Within source h)
        (λ e.
          if_cases AreWithin (same_text name "minecraft:crafting") _ _ (λ f. crafting-Within source)
            (λ f. other-Within source))

  -- Every route of a quick move from a slot of a container names slots of the container only.
  pub quick_move_routes-Within :
      (source : ℕ)
      → source < length c.slots
      → All (Within (length c.slots)) (quick_move_routes c source moving)
  unfolding quick_move_routes AreWithin
  quick_move_routes-Within source h =
      if_cases AreWithin (c.id == 0 && (length c.slots == player_inventory_slots)) _ _
        (λ e. player-Within source (ground (arith, e))) (λ e. menu-Within c.identity source h)
