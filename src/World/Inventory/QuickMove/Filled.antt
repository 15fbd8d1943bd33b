-- ===== src/World/Inventory/QuickMove/Filled.antt =====
-- A route of a quick move keeps the number of items of each kind.
use cubic.Common.{
  ℕ, ◌+◌, ◌-◌, ◌≤◌, ◌<◌, ◌≡◌, refl, sym, ap, ◌∙◌, arith, true, Option, some, none, inl, inr,
  Bool-cases, Option-cases, List, [], ◌∷◌, length, get_elem?, get_elem?-some, ◌==◌,
}
use cubic.Common.Assoc.{Eq}
use cubic.World.Inventory.{ComponentPatch, ItemStack, max_stack_size, stackable_with}
use cubic.World.Inventory.Clicks.{Slot, with_count, min_of, slot_at}
use cubic.World.Inventory.Routes.{SlotRoute}
use cubic.World.Inventory.Conserved.{amount, sum_amounts, stackable_with-kind, sum_amounts-set}
use cubic.World.Inventory.QuickMove.{
  merged, is_merge, fill_stacks, find_empty, placed_at, move_stack_to, indices,
}

slot_at-some :
    (slots : List Slot) (i : ℕ) (s : ItemStack) → slot_at slots i ≡ some s → i < length slots
slot_at-some slots i s e = elim (Option-cases (get_elem? slots i)) [
  | inl p ↦ ground (arith, e, p)
  | inr (v, p) ↦ get_elem?-some slots i v p
]

module _ (patches : Eq ComponentPatch) (k : ItemStack) where
  pub amount-merged :
      (s moving : ItemStack) (moved : ℕ)
      → moved ≤ moving.count
      → stackable_with patches s moving ≡ true
      → amount patches k (some (with_count (s.count + moved) s))
          + amount patches k (some (with_count (moving.count - moved) moving))
        ≡ amount patches k (some s) + amount patches k (some moving)
  unfolding amount
  amount-merged s moving moved h e =
      let same = stackable_with-kind patches k s moving e in
      elim (Bool-cases (stackable_with patches k moving)) [
        | inl f ↦ rw (same, f) (omega (arith, h))
        | inr f ↦ rw (same, f) refl
      ]

  sum_amounts-merged :
      (slots : List Slot) (moving : ItemStack) (i : ℕ) (slot : Slot)
      → slot ≡ slot_at slots i
      → sum_amounts patches k (merged patches slots moving i slot).0
          + amount patches k (some (merged patches slots moving i slot).1)
        ≡ sum_amounts patches k slots + amount patches k (some moving)
  unfolding merged
  sum_amounts-merged slots moving i none e = refl
  sum_amounts-merged slots moving i (some s) e =
      let moved = min_of moving.count (max_stack_size s - s.count) in
      elim (Bool-cases (stackable_with patches s moving)) [
        | inl f ↦
            let there = ap (amount patches k) e in
            rw f (
              omega (
                arith,
                amount-merged s moving moved (ground arith) f,
                sum_amounts-set patches k slots i (some (with_count (s.count + moved) s))
                    (slot_at-some slots i s (sym e)),
                there,
              ))
        | inr f ↦ rw f refl
      ]

  sum_amounts-fill_stacks :
      (is : List ℕ) (slots : List Slot) (moving : ItemStack)
      → sum_amounts patches k (fill_stacks patches is slots moving).1
          + amount patches k (some (fill_stacks patches is slots moving).2)
        ≡ sum_amounts patches k slots + amount patches k (some moving)
  unfolding fill_stacks
  sum_amounts-fill_stacks [] slots moving = refl
  sum_amounts-fill_stacks (i ∷ is) slots moving =
      let here = merged patches slots moving i (slot_at slots i) in
      let first = sum_amounts-merged slots moving i (slot_at slots i) refl in
      let later = sum_amounts-fill_stacks is here.0 here.1 ∙ first in
      elim (Bool-cases (is_merge patches moving (slot_at slots i))) [
        | inl e ↦ elim (Bool-cases (here.1.count == 0)) [
          | inl f ↦ rw (e, f) first
          | inr f ↦ rw (e, f) later
        ]
        | inr e ↦ rw e later
      ]

  find_empty-some :
      (is : List ℕ) (slots : List Slot) (i : ℕ)
      → find_empty patches is slots ≡ some i
      → get_elem? slots i ≡ some none
  unfolding find_empty
  find_empty-some [] slots i e = ground (arith, e)
  find_empty-some (j ∷ is) slots i e = elim (Option-cases (get_elem? slots j)) [
    | inl p ↦ find_empty-some is slots i (ground (arith, e, p))
    | inr (none, p) ↦ ground (arith, e, p)
    | inr (some s, p) ↦ find_empty-some is slots i (ground (arith, e, p))
  ]

  amount-zero : (s : ItemStack) → amount patches k (some (with_count 0 s)) ≡ 0
  unfolding amount
  amount-zero s = ground arith

  pub amount-none : amount patches k none ≡ 0
  unfolding amount
  amount-none = refl

  sum_amounts-placed_at :
      (o : Option ℕ) (slots : List Slot) (moving : ItemStack)
      → ((i : ℕ) → o ≡ some i → get_elem? slots i ≡ some none)
      → sum_amounts patches k (placed_at patches o slots moving).0
          + amount patches k (some (placed_at patches o slots moving).1)
        ≡ sum_amounts patches k slots + amount patches k (some moving)
  unfolding placed_at
  sum_amounts-placed_at none slots moving h = refl
  sum_amounts-placed_at (some i) slots moving h =
      let here = h i refl in
      let put =
        sum_amounts-set patches k slots i (some moving) (get_elem?-some slots i none here) in
      let was : amount patches k (slot_at slots i) ≡ amount patches k none =
        ap (λ o. amount patches k (elim o [ some s ↦ s | none ↦ none ])) here in
      let gone : amount patches k (some (with_count 0 moving)) ≡ 0 = amount-zero moving in
      let nothing : amount patches k none ≡ 0 = amount-none in
      omega (arith, put, was, gone, nothing)

  pub sum_amounts-move_stack_to :
      (route : SlotRoute) (slots : List Slot) (moving : ItemStack)
      → sum_amounts patches k (move_stack_to patches route slots moving).0
          + amount patches k (some (move_stack_to patches route slots moving).1)
        ≡ sum_amounts patches k slots + amount patches k (some moving)
  unfolding move_stack_to
  sum_amounts-move_stack_to route slots moving =
      let filled = fill_stacks patches (indices route) slots moving in
      let first = sum_amounts-fill_stacks (indices route) slots moving in
      elim (Bool-cases filled.0) [
        | inl e ↦ rw e first
        | inr e ↦ rw e (
            sum_amounts-placed_at (find_empty patches (indices route) filled.1) filled.1 filled.2
              (find_empty-some (indices route) filled.1)
            ∙ first)
      ]
