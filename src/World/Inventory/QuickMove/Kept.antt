-- ===== src/World/Inventory/QuickMove/Kept.antt =====
-- The quick move keeps the number of items of each kind: while something is left of the stack, its
-- slot stays empty.
use cubic.Common.{
  ℕ, ◌+◌, ◌<◌, ◌≡◌, refl, ap, ◌∙◌, arith, true, false, Option, some, none, inl, inr, Bool-cases,
  List, [], ◌∷◌, length, get_elem?, get_elem?-some, get_elem?-set_ne, get_elem?-set_self, if_cases,
  ◌≢◌, set, ◌==◌,
}
use mathlib.Core.Bool.{true≢false}
use cubic.Common.Int.{ℤ}
use cubic.Common.Result.{Result-cases}
use cubic.Common.Assoc.{Eq}
use cubic.World.Inventory.{ComponentPatch, ItemStack, ContainerState, stackable_with, slot_index}
use cubic.World.Inventory.Clicks.{Slot, slot_at}
use cubic.World.Inventory.Routes.{SlotRoute, quick_move_routes}
use cubic.World.Inventory.Conserved.{amount, sum_amounts, total, sum_amounts-set, slot_index-lt}
use cubic.World.Inventory.QuickMove.{
  Moving, merged, is_merge, fill_stacks, find_empty, placed_at, move_stack_to, along, moved_from,
  quick_move, indices,
}
use cubic.World.Inventory.QuickMove.Filled.{amount-none, sum_amounts-move_stack_to}

module _ (patches : Eq ComponentPatch) where
  apart :
      (slots : List Slot) (i j : ℕ) (s : ItemStack)
      → slot_at slots i ≡ some s
      → get_elem? slots j ≡ some none
      → i ≢ j
  apart slots i j s e h f =
      let here : slot_at slots j ≡ none = ap (λ o. elim o [ some t ↦ t | none ↦ none ]) h in
      let same : slot_at slots i ≡ slot_at slots j = ap (slot_at slots) f in
      ground (arith, here, same, e)

  -- A slot that is there and empty stays so while stacks are filled.
  merged_empty :
      (slots : List Slot) (moving : ItemStack) (i j : ℕ) (slot : Slot)
      → slot_at slots i ≡ slot
      → get_elem? slots j ≡ some none
      → get_elem? (merged patches slots moving i slot).0 j ≡ some none
  unfolding merged
  merged_empty slots moving i j none e h = h
  merged_empty slots moving i j (some s) e h =
      if_cases {A = List Slot × ItemStack} (λ r. get_elem? r.0 j ≡ some none)
        (stackable_with patches s moving) _ _
        (λ f. get_elem?-set_ne slots _ (apart slots i j s e h) ∙ h) (λ f. h)

  fill_stacks_empty :
      (is : List ℕ) (slots : List Slot) (moving : ItemStack) (j : ℕ)
      → get_elem? slots j ≡ some none
      → get_elem? (fill_stacks patches is slots moving).1 j ≡ some none
  unfolding fill_stacks
  fill_stacks_empty [] slots moving j h = h
  fill_stacks_empty (i ∷ is) slots moving j h =
      let here = merged patches slots moving i (slot_at slots i) in
      let first = merged_empty slots moving i j (slot_at slots i) refl h in
      let later = fill_stacks_empty is here.0 here.1 j first in
      if_cases {A = Moving} (λ r. get_elem? r.1 j ≡ some none)
        (is_merge patches moving (slot_at slots i)) _ _
        (λ e.
          if_cases {A = Moving} (λ r. get_elem? r.1 j ≡ some none) (here.1.count == 0) _ _
            (λ f. first) (λ f. later))
        (λ e. later)

  -- what a route leaves of the stack, if anything, and the source
  placed_at_empty :
      (o : Option ℕ) (slots : List Slot) (moving : ItemStack) (j : ℕ)
      → ((placed_at patches o slots moving).1.count == 0) ≡ false
      → get_elem? slots j ≡ some none
      → get_elem? (placed_at patches o slots moving).0 j ≡ some none
  unfolding placed_at
  placed_at_empty none slots moving j e h = h
  placed_at_empty (some i) slots moving j e h = absurd (true≢false e)

  move_stack_to_empty :
      (route : SlotRoute) (slots : List Slot) (moving : ItemStack) (j : ℕ)
      → ((move_stack_to patches route slots moving).1.count == 0) ≡ false
      → get_elem? slots j ≡ some none
      → get_elem? (move_stack_to patches route slots moving).0 j ≡ some none
  unfolding move_stack_to
  move_stack_to_empty route slots moving j e h =
      let filled = fill_stacks patches (indices route) slots moving in
      let kept = fill_stacks_empty (indices route) slots moving j h in
      elim (Bool-cases filled.0) [
        | inl f ↦ rw f kept
        | inr f ↦ rw f (
            placed_at_empty (find_empty patches (indices route) filled.1) filled.1 filled.2 j
              (rw f at e) kept)
      ]

  module _ (k : ItemStack) where
    left_over : (s : ItemStack) → (s.count == 0) ≡ true → amount patches k (some s) ≡ 0
    unfolding amount
    left_over s e = ground (arith, e)

    sum_amounts-along :
        (routes : List SlotRoute) (source : ℕ) (slots : List Slot) (moving : ItemStack)
        → get_elem? slots source ≡ some none
        → sum_amounts patches k (along patches routes source slots moving)
          ≡ sum_amounts patches k slots + amount patches k (some moving)
    unfolding along
    sum_amounts-along [] source slots moving h =
        let put =
          sum_amounts-set patches k slots source (some moving)
            (get_elem?-some slots source none h) in
        let was : amount patches k (slot_at slots source) ≡ amount patches k none =
          ap (λ o. amount patches k (elim o [ some s ↦ s | none ↦ none ])) h in
        omega (arith, put, was, amount-none patches k)
    sum_amounts-along (route ∷ routes) source slots moving h =
        let moved = move_stack_to patches route slots moving in
        let first = sum_amounts-move_stack_to patches k route slots moving in
        elim (Bool-cases (moved.1.count == 0)) [
          | inl e ↦ rw e (omega (arith, first, left_over moved.1 e))
          | inr e ↦ rw e (
              sum_amounts-along routes source moved.0 moved.1
                (move_stack_to_empty route slots moving source e h)
              ∙ first)
        ]

    sum_amounts-moved_from :
        (source : ℕ) (slot : Slot) (c : ContainerState)
        → source < length c.slots
        → slot ≡ slot_at c.slots source
        → sum_amounts patches k (moved_from patches source slot c) ≡ sum_amounts patches k c.slots
    unfolding moved_from
    sum_amounts-moved_from source none c h e = refl
    sum_amounts-moved_from source (some moving) c h e =
        let taken = set c.slots source none in
        let put = sum_amounts-set patches k c.slots source none h in
        let was = ap (amount patches k) e in
        let gone =
          sum_amounts-along (quick_move_routes (record c { slots = taken }) source moving) source
            taken moving (get_elem?-set_self c.slots source none h) in
        omega (arith, put, was, gone, amount-none patches k)

    -- A quick move keeps the number of items of each kind in the container, whatever the menu is,
    -- and also where it is refused.
    pub total-quick_move :
        (slot : ℤ) (c : ContainerState)
        → total patches k (quick_move patches slot c).1 ≡ total patches k c
    unfolding quick_move total
    total-quick_move slot c = elim (Result-cases (slot_index c slot)) [
      | inl (i, e) ↦ rw e (
          ap (λ n. n + amount patches k c.carried)
            (sum_amounts-moved_from i (slot_at c.slots i) c (slot_index-lt patches c slot i e)
              refl))
      | inr (x, e) ↦ rw e refl
    ]
