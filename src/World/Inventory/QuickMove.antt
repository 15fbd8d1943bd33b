-- ===== src/World/Inventory/QuickMove.antt =====
-- inventory.rs: the quick move.
pub mod Filled
pub mod Kept
use cubic.Common.{
  ℕ, zero, suc, ◌+◌, ◌-◌, ◌≤◌, ◌<◌, ◌≡◌, refl, sym, ap, ◌∙◌, arith, Bool, true, false, Option, some,
  none, inl, inr, Bool-cases, Option-cases, List, [], ◌∷◌, ◌++◌, length, get_elem?, get_elem?-some,
  get_elem?-set_ne, get_elem?-set_self, if_cases, ◌≢◌, set, ◌==◌, if◌then◌else◌,
}
use mathlib.Core.Bool.{true≢false}
use cubic.Common.Int.{ℤ}
use cubic.Common.Result.{ok, Result-cases}
use cubic.Common.Exec.{◌>>=◌}
use cubic.Common.Assoc.{Eq}
use cubic.World.Inventory.{
  ComponentPatch, ItemStack, ContainerState, max_stack_size, stackable_with, slot_index,
  OnContainer,
}
use cubic.World.Inventory.Clicks.{Slot, with_count, min_of, slot_at}
use cubic.World.Inventory.Routes.{SlotRoute, quick_move_routes}
use cubic.World.Inventory.Conserved.{
  amount, sum_amounts, total, stackable_with-kind, sum_amounts-set, slot_index-lt,
}

-- the numbers from `start` on
from_on : ℕ → ℕ → List ℕ
from_on start zero = []
from_on start (suc n) = start ∷ from_on (suc start) n

backwards : List ℕ → List ℕ
backwards [] = []
backwards (x ∷ xs) = backwards xs ++ (x ∷ [])

unfoldable pub indices : SlotRoute → List ℕ
unfolding from_on backwards
indices route =
    let forwards = from_on route.start (route.end - route.start) in
    if route.reverse then backwards forwards else forwards

-- whether the loop has returned, the slots, and the stack on the move
abbrev pub Moving : Type 0
Moving = Bool × List Slot × ItemStack

module _ (patches : Eq ComponentPatch) where
  -- The stack is merged into a stack at an index, if there is one of its kind.
  unfoldable pub merged : List Slot → ItemStack → ℕ → Slot → List Slot × ItemStack
  unfolding stackable_with max_stack_size
  merged slots moving i none = (slots, moving)
  merged slots moving i (some s) =
      let moved = min_of moving.count (max_stack_size s - s.count) in
      if stackable_with patches s moving
      then (
        set slots i (some (with_count (s.count + moved) s)),
        with_count (moving.count - moved) moving,
      )
      else (slots, moving)

  is_merge : ItemStack → Slot → Bool
  unfolding stackable_with
  is_merge moving none = false
  is_merge moving (some s) = stackable_with patches s moving

  -- the first loop of `move_stack_to`, over the indices of the route
  unfoldable pub fill_stacks : List ℕ → List Slot → ItemStack → Moving
  unfolding merged is_merge
  fill_stacks [] slots moving = (false, slots, moving)
  fill_stacks (i ∷ is) slots moving =
      let here = merged slots moving i (slot_at slots i) in
      let rest = fill_stacks is here.0 here.1 in
      if is_merge moving (slot_at slots i)
      then if here.1.count == 0 then (true, here.0, here.1) else rest
      else rest

  -- the first empty slot of the route
  unfoldable pub find_empty : List ℕ → List Slot → Option ℕ
  find_empty [] slots = none
  find_empty (i ∷ is) slots =
      let later = find_empty is slots in elim (get_elem? slots i) [ some none ↦ some i | _ ↦ later ]

  unfoldable pub placed_at : Option ℕ → List Slot → ItemStack → List Slot × ItemStack
  placed_at none slots moving = (slots, moving)
  placed_at (some i) slots moving = (set slots i (some moving), with_count 0 moving)

  unfoldable pub move_stack_to : SlotRoute → List Slot → ItemStack → List Slot × ItemStack
  unfolding indices fill_stacks find_empty placed_at
  move_stack_to route slots moving =
      let filled = fill_stacks (indices route) slots moving in
      if filled.0
      then (filled.1, filled.2)
      else placed_at (find_empty (indices route) filled.1) filled.1 filled.2

  -- the loop of `quick_move` over the routes; what is left goes back to the source
  unfoldable pub along : List SlotRoute → ℕ → List Slot → ItemStack → List Slot
  unfolding move_stack_to
  along [] source slots moving = set slots source (some moving)
  along (route ∷ routes) source slots moving =
      let moved = move_stack_to route slots moving in
      let rest = along routes source moved.0 moved.1 in if moved.1.count == 0 then moved.0 else rest

  moved_from : ℕ → Slot → ContainerState → List Slot
  unfolding along quick_move_routes
  moved_from source none c = c.slots
  moved_from source (some moving) c =
      let taken = record c { slots = set c.slots source none } in
      along (quick_move_routes taken source moving) source taken.slots moving

  unfoldable pub quick_move : ℤ → OnContainer
  unfolding slot_index moved_from
  quick_move slot = do
    source ← (λ c. (slot_index c slot, c))
    (λ c. (ok tt, record c { slots = moved_from source (slot_at c.slots source) c }))
