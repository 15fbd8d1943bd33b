-- ===== src/World/Inventory/State.antt =====
-- inventory.rs: InventoryState, the player's container and the one that is open.
use cubic.Common.{
  ℕ, suc, ◌+◌, ◌-◌, ◌^◌, Bool, true, false, not, ◌&&◌, Option, some, none, List, [], ◌∷◌, length,
  set, drop, ltb, leb, ◌==◌, if◌then◌else◌,
}
use cubic.Common.Int.{ℤ, pos, negsuc, beq_ℤ}
use cubic.Common.Result.{Result, ok, err}
use cubic.Common.Exec.{Exec, pure, ◌>>=◌, ◌>>◌}
use cubic.Common.Assoc.{Eq}
use cubic.World.Inventory.{
  ComponentPatch, ContainerState, InventoryState, QuickCraftGesture, InventoryError, OnContainer,
  new, same_text, invalid_hotbar_slot, invalid_open_container_id, unknown_container, stale_state_id,
  replace_slots, set_container_slot,
}
use cubic.World.Inventory.Clicks.{
  Slot, pickup, swap_hotbar, clone_stack, throw_stack, pickup_all, slot_at,
}
use cubic.World.Inventory.QuickMove.{quick_move}

-- a method on the whole state
abbrev pub OnState : Type 0 → Type 0
OnState A = Exec InventoryState InventoryError A

unfoldable pub can_use_game_master_blocks : InventoryState → Bool
can_use_game_master_blocks st = st.instant_build && leb 2 st.permission_level

abbrev pub set_instant_build : Bool → InventoryState → InventoryState
set_instant_build flag st = record st { instant_build = flag }

unfoldable pub set_permission_level : ℕ → InventoryState → InventoryState
set_permission_level level st = record st { permission_level = if ltb level 4 then level else 4 }

unfoldable pub held_item : InventoryState → Slot
held_item st = slot_at st.player.slots (36 + st.selected_hotbar_slot)

unfoldable pub offhand_item : InventoryState → Slot
offhand_item st = slot_at st.player.slots 45

unfoldable pub set_selected_hotbar_slot : ℕ → OnState (Unit {0})
set_selected_hotbar_slot slot st =
    if ltb 8 slot
    then (err (invalid_hotbar_slot slot), st)
    else (ok tt, record st { selected_hotbar_slot = slot })

abbrev pub carrying : Slot → ContainerState → ContainerState
carrying stack c = record c { carried = stack }

abbrev pub on_opened :
    (ContainerState → ContainerState) → Option ContainerState → Option ContainerState
on_opened f none = none
on_opened f (some c) = some (f c)

unfoldable pub set_carried : Slot → InventoryState → InventoryState
set_carried stack st = record st {
  opened = on_opened (carrying stack) st.opened;
  player = carrying stack st.player;
}

abbrev pub on_player : {A : Type 0} → Exec ContainerState InventoryError A → OnState A
on_player m st = ((m st.player).0, record st { player = (m st.player).1 })

unfoldable pub set_creative_slot : ℤ → Slot → OnState (Unit {0})
unfolding set_container_slot
set_creative_slot slot stack st =
    if beq_ℤ slot (negsuc 0)
    then (ok tt, st)
    else on_player (set_container_slot st.player.state_id slot stack) st

unfoldable pub open_container : ContainerState → OnState (Unit {0})
open_container c st =
    if c.id == 0
    then (err invalid_open_container_id, st)
    else (ok tt, record st { opened = some c; quick_craft = none })

is_open : ℕ → Option ContainerState → Bool
is_open id none = false
is_open id (some c) = c.id == id

unfoldable pub close_container : ℕ → OnState (Unit {0})
unfolding is_open
close_container id st =
    if is_open id st.opened
    then (ok tt, record st { opened = none; quick_craft = none })
    else (err (unknown_container id), st)

on_found :
    {A : Type 0}
    → ℕ
    → Exec ContainerState InventoryError A
    → Option ContainerState
    → InventoryState
    → Result A InventoryError × InventoryState
on_found id m none st = (err (unknown_container id), st)
on_found id m (some c) st =
    if c.id == id
    then ((m c).0, record st { opened = some (m c).1 })
    else (err (unknown_container id), st)

-- a method on the container that `container_mut` finds
unfoldable pub on_container : {A : Type 0} → ℕ → Exec ContainerState InventoryError A → OnState A
unfolding on_found
on_container id m st = if id == 0 then on_player m st else on_found id m st.opened st

carried_of : Option ContainerState → ContainerState → Slot
carried_of none player = player.carried
carried_of (some c) player = c.carried

unfoldable pub carried : InventoryState → Slot
unfolding carried_of
carried st = carried_of st.opened st.player

-- the slots from an index on, written over; a write out of bounds changes nothing
unfoldable pub overwrite : ℕ → List Slot → List Slot → List Slot
overwrite i [] slots = slots
overwrite i (x ∷ xs) slots = overwrite (suc i) xs (set slots i x)

unfoldable pub mirrored : ContainerState → ContainerState → ContainerState
unfolding overwrite
mirrored c player =
    let held = carrying c.carried player in
    if ltb (length c.slots) 36
    then held
    else record held { slots = overwrite 9 (drop (length c.slots - 36) c.slots) player.slots }

unfoldable pub from_open : Option ContainerState → ContainerState → ContainerState
unfolding mirrored
from_open none player = player
from_open (some c) player = mirrored c player

unfoldable pub synchronize_player_from : ℕ → InventoryState → InventoryState
unfolding from_open
synchronize_player_from id st =
    if id == 0
    then record st { opened = on_opened (carrying st.player.carried) st.opened }
    else record st { player = from_open st.opened st.player }

cancels : ℕ → ℤ → Option QuickCraftGesture → Bool
cancels id state_id none = false
cancels id state_id (some g) = (g.container == id) && not (beq_ℤ g.state_id state_id)

cancelled : Bool → InventoryState → InventoryState
cancelled true st = record st { quick_craft = none }
cancelled false st = st

-- an update by the server, of the content or of a slot
authoritative : ℕ → ℤ → OnContainer → OnState (Unit {0})
unfolding cancels cancelled on_container synchronize_player_from
authoritative id state_id m st =
    (do
      on_container id m
      (λ s. (ok tt, synchronize_player_from id (cancelled (cancels id state_id st.quick_craft) s))))
      st

unfoldable pub replace_content : ℕ → ℤ → List Slot → Slot → OnState (Unit {0})
unfolding authoritative replace_slots
replace_content id state_id slots stack =
    authoritative id state_id (replace_slots state_id slots stack)

unfoldable pub set_slot : ℕ → ℤ → ℤ → Slot → OnState (Unit {0})
unfolding authoritative set_container_slot
set_slot id state_id slot stack = authoritative id state_id (set_container_slot state_id slot stack)

abbrev pub reset : InventoryState → InventoryState
reset st = new

pub data ContainerClickKind : Type 0 where
  picks moves swaps clones throws quick_crafts picks_all : ContainerClickKind

pub record ContainerClick : Type 0 where
  pub container : ℕ
  pub state_id : ℤ
  pub slot : ℤ
  pub button : ℤ
  pub kind : ContainerClickKind

pub record ClickOutcome : Type 0 where
  pub changed_slots : List (ℤ × Slot)
  pub carried : Slot

module _ (patches : Eq ComponentPatch) where
  same_slot : Slot → Slot → Bool
  same_slot none none = true
  same_slot none (some b) = false
  same_slot (some a) none = false
  same_slot (some a) (some b) =
      same_text a.item b.item && ((a.count == b.count) && patches.beq a.components b.components)

  -- the slots that changed, from an index on; an index that is no i16 is left out
  unfoldable pub changed_from : ℕ → List Slot → List Slot → List (ℤ × Slot)
  unfolding same_slot
  changed_from i [] after = []
  changed_from i (b ∷ before) [] = []
  changed_from i (b ∷ before) (a ∷ after) =
      let rest = changed_from (suc i) before after in
      if same_slot b a then rest else if ltb i (2 ^ 15) then (pos i, a) ∷ rest else rest

  unfoldable pub click_of : ContainerClickKind → ℤ → ℤ → OnContainer
  unfolding pickup quick_move swap_hotbar clone_stack throw_stack pickup_all
  click_of picks slot button = pickup patches slot button
  click_of moves slot button = quick_move patches slot
  click_of swaps slot button = swap_hotbar patches slot button
  click_of clones slot button = clone_stack patches slot
  click_of throws slot button = throw_stack patches slot button
  click_of picks_all slot button = pickup_all patches button
  click_of quick_crafts slot button = pure tt

  check_state : ℤ → ContainerState → Result (Unit {0}) InventoryError
  check_state state_id c =
      if beq_ℤ c.state_id state_id then ok tt else err (stale_state_id c.state_id state_id)

  -- a click other than a quick craft, on its container
  unfoldable pub click_container : ContainerClick → Exec ContainerState InventoryError ClickOutcome
  unfolding check_state click_of changed_from
  click_container click c =
      (do
        (λ d. (check_state click.state_id d, d))
        click_of click.kind click.slot click.button
        (λ d. (
          ok (record { changed_slots = changed_from 0 c.slots d.slots; carried = d.carried }),
          d,
        )))
        c

  unfoldable pub apply_other_click : ContainerClick → OnState ClickOutcome
  unfolding on_container click_container synchronize_player_from
  apply_other_click click st =
      (do
        outcome ← on_container click.container (click_container click)
        (λ s. (ok outcome, synchronize_player_from click.container s)))
        (record st { quick_craft = none })
