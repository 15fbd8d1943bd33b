-- ===== src/World/Inventory/Clicks.antt =====
-- inventory.rs: the clicks on one container, apart from the quick move. A decrement of a count is
-- that of a u32, which wraps.
use cubic.Common.{
  ℕ, suc, ◌+◌, ◌-◌, ◌/◌, ◌%◌, ◌^◌, Bool, true, false, ◌&&◌, ◌||◌, not, Option, some, none, List, [],
  ◌∷◌, length, get_elem?, set, ltb, ◌==◌, if◌then◌else◌,
}
use cubic.Common.Int.{ℤ, pos, negsuc, beq_ℤ}
use cubic.Common.Result.{Result, ok, err}
use cubic.Common.Exec.{pure, raise, ◌>>=◌, ◌>>◌}
use cubic.Common.Assoc.{Eq}
use cubic.World.Inventory.{
  ComponentPatch, ItemStack, MenuIdentity, player_inventory, menu, ContainerState, InventoryError,
  invalid_click_button, max_stack_size, stackable_with, slot_index, OnContainer, same_text,
  player_inventory_slots,
}

abbrev pub Slot : Type 0
Slot = Option ItemStack

abbrev pub with_count : ℕ → ItemStack → ItemStack
with_count n s = record s { count = n }

-- a stack, or no stack where nothing is left
abbrev pub unless_empty : ItemStack → Slot
unless_empty s = if s.count == 0 then none else some s

abbrev pub min_of : ℕ → ℕ → ℕ
min_of a b = if ltb a b then a else b

abbrev pub decremented : ℕ → ℕ
decremented n = (n + (2 ^ 32 - 1)) % 2 ^ 32

-- what a slot holds; the callers have checked the index
abbrev pub slot_at : List Slot → ℕ → Slot
slot_at slots i = elim (get_elem? slots i) [ some s ↦ s | none ↦ none ]

module _ (patches : Eq ComponentPatch) where
  -- the `match` of `pickup`: the carried stack and the slot, before and after
  unfoldable pub picked : Bool → Slot → Slot → Slot × Slot
  unfolding max_stack_size stackable_with
  picked left none none = (none, none)
  picked left none (some s) =
      let taken = (s.count + 1) / 2 in
      if left
      then (some s, none)
      else (some (with_count taken s), unless_empty (with_count (s.count - taken) s))
  picked left (some c) none =
      if left
      then (none, some c)
      else (unless_empty (with_count (decremented c.count) c), some (with_count 1 c))
  picked left (some c) (some s) =
      let wanted = if left then c.count else min_of c.count 1 in
      let moved = min_of wanted (max_stack_size s - s.count) in
      if stackable_with patches c s
      then (unless_empty (with_count (c.count - moved) c), some (with_count (s.count + moved) s))
      else (some s, some c)

  unfoldable pub outside : Bool → Slot → Slot
  outside left none = none
  outside left (some c) = if left then none else unless_empty (with_count (c.count - 1) c)

  unfoldable pub is_left_or_right : ℤ → Bool
  is_left_or_right button = beq_ℤ button (pos 0) || beq_ℤ button (pos 1)

  -- a click on the slot at an index
  unfoldable pub pickup_at : Bool → ℕ → ContainerState → ContainerState
  unfolding picked
  pickup_at left i c =
      let moved = picked left c.carried (slot_at c.slots i) in
      record c { carried = moved.0; slots = set c.slots i moved.1 }

  unfoldable pub pickup : ℤ → ℤ → OnContainer
  unfolding is_left_or_right outside pickup_at slot_index
  pickup slot button =
      let left = beq_ℤ button (pos 0) in
      if not (is_left_or_right button)
      then raise (invalid_click_button button)
      else if beq_ℤ slot (negsuc 998)
      then (λ c. (ok tt, record c { carried = outside left c.carried }))
      else (do index ← (λ c. (slot_index c slot, c)); (λ c. (ok tt, pickup_at left index c)))

  -- where the number key of a hotbar slot leads
  unfoldable pub hotbar_destination : ContainerState → ℕ → ℕ
  hotbar_destination c hotbar =
      if c.id == 0 && (length c.slots == player_inventory_slots)
      then 36 + hotbar
      else length c.slots - 9 + hotbar

  unfoldable pub swapped : ℕ → ℕ → List Slot → List Slot
  swapped i j slots = set (set slots i (slot_at slots j)) j (slot_at slots i)

  unfoldable pub hotbar_key : ContainerState → ℤ → Result ℕ InventoryError
  hotbar_key c (negsuc n) = err (invalid_click_button (negsuc n))
  hotbar_key c (pos n) =
      if ltb 8 n || ltb (length c.slots) 9 then err (invalid_click_button (pos n)) else ok n

  unfoldable pub swap_hotbar : ℤ → ℤ → OnContainer
  unfolding slot_index hotbar_key hotbar_destination swapped
  swap_hotbar slot button = do
    source ← (λ c. (slot_index c slot, c))
    hotbar ← (λ c. (hotbar_key c button, c))
    (λ c. (ok tt, record c { slots = swapped source (hotbar_destination c hotbar) c.slots }))

  full_copy : Slot → Slot
  unfolding max_stack_size
  full_copy none = none
  full_copy (some s) = some (with_count (max_stack_size s) s)

  unfoldable pub clone_stack : ℤ → OnContainer
  unfolding slot_index full_copy
  clone_stack slot = do
    index ← (λ c. (slot_index c slot, c))
    (λ c. (ok tt, record c { carried = full_copy (slot_at c.slots index) }))

  thrown : Bool → Slot → Slot
  thrown all none = none
  thrown all (some s) = if all then none else unless_empty (with_count (decremented s.count) s)

  unfoldable pub throw_stack : ℤ → ℤ → OnContainer
  unfolding slot_index is_left_or_right thrown
  throw_stack slot button = do
    index ← (λ c. (slot_index c slot, c))
    if not (is_left_or_right button) then raise (invalid_click_button button) else pure tt
    (λ c. (
      ok tt,
      record c {
        slots = set c.slots index (thrown (beq_ℤ button (pos 1)) (slot_at c.slots index));
      },
    ))

  unfoldable pub can_take_for_pick_all : MenuIdentity → ℕ → Bool
  can_take_for_pick_all player_inventory index = not (index == 0)
  can_take_for_pick_all (menu name) index =
      if same_text name "minecraft:crafting"
      then not (index == 0)
      else if same_text name "minecraft:furnace"
      then not (index == 2)
      else true

  unfoldable pub same_flag : Bool → Bool → Bool
  same_flag true b = b
  same_flag false b = not b

  -- whether a pass takes from a slot
  unfoldable pub takes : MenuIdentity → Bool → ℕ → ItemStack → ItemStack → Bool
  unfolding max_stack_size stackable_with can_take_for_pick_all same_flag
  takes identity full_pass index s carried =
      can_take_for_pick_all identity index
      && stackable_with patches s carried
      && same_flag (s.count == max_stack_size s) full_pass

  -- What a pass does with one slot: whether it is done, the slot, and the carried stack.
  unfoldable pub taken_from : MenuIdentity → Bool → ℕ → Slot → ItemStack → Bool × Slot × ItemStack
  unfolding takes max_stack_size
  taken_from identity full_pass index none carried = (false, none, carried)
  taken_from identity full_pass index (some s) carried =
      let moved = min_of s.count (max_stack_size carried - carried.count) in
      let more = with_count (carried.count + moved) carried in
      if takes identity full_pass index s carried
      then (more.count == max_stack_size more, unless_empty (with_count (s.count - moved) s), more)
      else (false, some s, carried)

  -- one pass over the slots from an index on
  unfoldable pub take_pass :
      MenuIdentity → Bool → ℕ → List Slot → ItemStack → Bool × List Slot × ItemStack
  unfolding taken_from
  take_pass identity full_pass index [] carried = (false, [], carried)
  take_pass identity full_pass index (slot ∷ slots) carried =
      let here = taken_from identity full_pass index slot carried in
      let (done, rest, held) = take_pass identity full_pass (suc index) slots here.2 in
      if here.0 then (true, here.1 ∷ slots, here.2) else (done, here.1 ∷ rest, held)

  -- the two passes
  unfoldable pub take_all : MenuIdentity → List Slot → ItemStack → List Slot × ItemStack
  unfolding take_pass
  take_all identity slots carried =
      let (done, rest, held) = take_pass identity false 0 slots carried in
      let second = take_pass identity true 0 rest held in
      if done then (rest, held) else (second.1, second.2)

  unfoldable pub gathered : Slot → ContainerState → ContainerState
  unfolding take_all
  gathered none c = c
  gathered (some held) c =
      let (slots, more) = take_all c.identity c.slots held in
      record c { slots = slots; carried = some more }

  unfoldable pub pickup_all : ℤ → OnContainer
  unfolding gathered
  pickup_all button =
      if not (beq_ℤ button (pos 0))
      then raise (invalid_click_button button)
      else (λ c. (ok tt, gathered c.carried c))
