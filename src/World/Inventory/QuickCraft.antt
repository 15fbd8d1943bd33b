-- ===== src/World/Inventory/QuickCraft.antt =====
-- inventory.rs: the drag that spreads the carried stack over slots, in three stages.
use cubic.Common.{
  ℕ, ◌+◌, ◌-◌, ◌/◌, bit_and, Bool, true, false, not, ◌&&◌, ◌||◌, Option, some, none, List, [], ◌∷◌,
  length, set, ltb, leb, ◌==◌, if◌then◌else◌,
}
use cubic.Common.Int.{ℤ, pos, negsuc, beq_ℤ, leb_ℤ}
use cubic.Common.Result.{Result, ok, err}
use cubic.Common.Exec.{Exec, pure, raise, lift, ◌>>=◌, ◌>>◌}
use cubic.Common.Assoc.{Eq}
use cubic.World.Inventory.{
  ComponentPatch, ItemStack, ContainerState, QuickCraftGesture, InventoryError, OnContainer,
  max_container_slots, max_stack_size, stackable_with, slot_index, invalid_click_button,
  stale_state_id, quick_craft_not_started, quick_craft_gesture_mismatch,
  quick_craft_without_carried_stack, invalid_quick_craft_slot, too_many_quick_craft_slots,
}
use cubic.World.Inventory.Clicks.{
  Slot, with_count, unless_empty, min_of, slot_at, can_take_for_pick_all,
}
use cubic.World.Inventory.State.{
  OnState, on_container, carrying, ContainerClick, ClickOutcome, changed_from,
  synchronize_player_from, apply_other_click, ContainerClickKind, quick_crafts,
}

-- the stage and the kind that a button stands for
unfoldable pub stage_and_kind : ℤ → Result (ℕ × ℕ) InventoryError
stage_and_kind (negsuc n) = err (invalid_click_button (negsuc n))
stage_and_kind (pos n) =
    if ltb 2 (n / 4) || ltb 2 (bit_and n 3)
    then err (invalid_click_button (pos n))
    else ok (bit_and n 3, n / 4)

-- an insertion into a set of slots, which is kept in order
unfoldable pub insert_slot : ℤ → List ℤ → List ℤ
insert_slot slot [] = slot ∷ []
insert_slot slot (s ∷ slots) =
    let rest = insert_slot slot slots in
    if beq_ℤ slot s then s ∷ slots else if leb_ℤ slot s then slot ∷ (s ∷ slots) else s ∷ rest

unfoldable pub matches : QuickCraftGesture → ContainerClick → ℕ → Bool
matches g click kind =
    (g.container == click.container) && (beq_ℤ g.state_id click.state_id && (g.kind == kind))

started : Option QuickCraftGesture → Result QuickCraftGesture InventoryError
started none = err quick_craft_not_started
started (some g) = ok g

matched : QuickCraftGesture → ContainerClick → ℕ → Result (Unit {0}) InventoryError
unfolding matches
matched g click kind = if matches g click kind then ok tt else err quick_craft_gesture_mismatch

held_by : ContainerState → Result ItemStack InventoryError
held_by c = elim c.carried [ some s ↦ ok s | none ↦ err quick_craft_without_carried_stack ]

is_sentinel : ℤ → Result (Unit {0}) InventoryError
is_sentinel slot = if beq_ℤ slot (negsuc 998) then ok tt else err (invalid_quick_craft_slot slot)

current : ContainerClick → ContainerState → Result (Unit {0}) InventoryError
current click c =
    if beq_ℤ c.state_id click.state_id
    then ok tt
    else err (stale_state_id c.state_id click.state_id)

module _ (patches : Eq ComponentPatch) where
  has_room : Slot → ItemStack → Bool
  unfolding stackable_with max_stack_size
  has_room none carried = true
  has_room (some s) carried = stackable_with patches s carried && ltb s.count (max_stack_size s)

  -- The menus whose slots accept items are those from which a double click takes.
  unfoldable pub quick_craft_slot_eligible : ContainerState → ℕ → ItemStack → Bool
  unfolding can_take_for_pick_all has_room
  quick_craft_slot_eligible c index carried =
      can_take_for_pick_all patches c.identity index && has_room (slot_at c.slots index) carried

  -- what a slot takes of the carried stack
  unfoldable pub share : ℕ → ℕ → ℕ → ItemStack → ℕ
  share kind per_slot capacity held =
      if kind == 2 then min_of per_slot capacity else min_of (min_of per_slot capacity) held.count

  unfoldable pub remaining_after : ℕ → ℕ → ItemStack → ItemStack
  remaining_after kind amount held =
      if kind == 2 then held else with_count (held.count - amount) held

  -- the body of the loop of `finish_quick_craft`: the slots and the carried stack
  unfoldable pub spread_one : ℕ → ℕ → ℕ → Slot → List Slot → ItemStack → List Slot × ItemStack
  unfolding share remaining_after stackable_with max_stack_size
  spread_one kind per_slot i none slots held =
      let amount = share kind per_slot (max_stack_size held) held in
      if amount == 0
      then (slots, held)
      else (set slots i (some (with_count amount held)), remaining_after kind amount held)
  spread_one kind per_slot i (some s) slots held =
      let amount = share kind per_slot (max_stack_size s - s.count) held in
      if not (stackable_with patches s held)
      then (slots, held)
      else if amount == 0
      then (slots, held)
      else (set slots i (some (with_count (s.count + amount) s)), remaining_after kind amount held)

  unfoldable pub spread : ℕ → ℕ → List ℤ → ItemStack → Exec ContainerState InventoryError ItemStack
  unfolding slot_index spread_one
  spread kind per_slot [] held = pure held
  spread kind per_slot (slot ∷ slots) held = elim ((held.count == 0) && not (kind == 2)) [
    | true ↦ pure held
    | false ↦ do
      i ← (λ c. (slot_index c slot, c))
      (λ c.
          let one = spread_one kind per_slot i (slot_at c.slots i) c.slots held in
          spread kind per_slot slots one.1 (record c { slots = one.0 }))
  ]

  unfoldable pub per_slot_of : ℕ → ℕ → ItemStack → Result ℕ InventoryError
  unfolding max_stack_size
  per_slot_of kind n held =
      if kind == 0
      then ok (held.count / n)
      else if kind == 1
      then ok 1
      else if kind == 2
      then ok (max_stack_size held)
      else err (invalid_click_button (pos 127))

  unfoldable pub finish : QuickCraftGesture → Slot → OnContainer
  unfolding per_slot_of spread
  finish g none = raise quick_craft_without_carried_stack
  finish g (some held) = if length g.slots == 0 then pure tt else (do
    (λ c. (ok tt, carrying none c))
    per_slot ← lift (per_slot_of g.kind (length g.slots) held)
    left ← spread g.kind per_slot g.slots held
    (λ c. (ok tt, carrying (unless_empty left) c)))

  unfoldable pub finish_quick_craft : QuickCraftGesture → OnContainer
  unfolding finish
  finish_quick_craft g c = finish g c.carried c

  nothing_changed : Slot → ClickOutcome
  nothing_changed stack = record { changed_slots = []; carried = stack }

  start_drag : ContainerClick → ℕ → OnState ClickOutcome
  unfolding is_sentinel current held_by on_container nothing_changed
  start_drag click kind = do
    lift (is_sentinel click.slot)
    carried ← on_container click.container (do (λ c. (current click c, c)); (λ c. (held_by c, c)))
    (λ st. (
      ok (nothing_changed (some carried)),
      record st {
        quick_craft = some (record {
          container = click.container;
          state_id = click.state_id;
          kind = kind;
          slots = [];
        });
      },
    ))

  with_slot : Bool → ℤ → QuickCraftGesture → QuickCraftGesture
  unfolding insert_slot
  with_slot eligible slot g = if eligible then record g { slots = insert_slot slot g.slots } else g

  extend_drag : ContainerClick → ℕ → OnState ClickOutcome
  unfolding slot_index started matched held_by quick_craft_slot_eligible on_container with_slot
      nothing_changed
  extend_drag click kind = do
    index ← on_container click.container (λ c. (slot_index c click.slot, c))
    gesture ← (λ st. (started st.quick_craft, st))
    lift (matched gesture click kind)
    carried ← on_container click.container (λ c. (held_by c, c))
    eligible ←
        on_container click.container (λ c. (ok (quick_craft_slot_eligible c index carried), c))
    if leb max_container_slots (length gesture.slots)
        then raise too_many_quick_craft_slots
        else pure tt
    (λ st. (
      ok (nothing_changed (some carried)),
      record st { quick_craft = some (with_slot eligible click.slot gesture) },
    ))

  end_drag : ContainerClick → ℕ → OnState ClickOutcome
  unfolding is_sentinel started matched finish_quick_craft on_container changed_from
      synchronize_player_from
  end_drag click kind = do
    lift (is_sentinel click.slot)
    gesture ← (λ st. (started st.quick_craft, record st { quick_craft = none }))
    lift (matched gesture click kind)
    outcome ← on_container click.container (λ before.
        (do
          finish_quick_craft gesture
          (λ c. (
            ok (record {
              changed_slots = changed_from patches 0 before.slots c.slots;
              carried = c.carried;
            }),
            c,
          )))
          before)
    (λ st. (ok outcome, synchronize_player_from click.container st))

  unfoldable pub apply_quick_craft : ContainerClick → OnState ClickOutcome
  unfolding stage_and_kind start_drag extend_drag end_drag
  apply_quick_craft click = do
    found ← lift (stage_and_kind click.button)
    if found.0 == 0
        then start_drag click found.1
        else if found.0 == 1
        then extend_drag click found.1
        else end_drag click found.1

  is_quick_craft : ContainerClickKind → Bool
  is_quick_craft quick_crafts = true
  is_quick_craft _ = false

  unfoldable pub apply_click : ContainerClick → OnState ClickOutcome
  unfolding is_quick_craft apply_quick_craft apply_other_click
  apply_click click =
      if is_quick_craft click.kind then apply_quick_craft click else apply_other_click patches click
