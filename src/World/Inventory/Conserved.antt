-- ===== src/World/Inventory/Conserved.antt =====
-- The clicks that move items within a container keep the number of items of each kind.
use cubic.Common.{
  ℕ, zero, suc, ◌+◌, ◌-◌, ◌^◌, ◌≤◌, ◌<◌, ◌≡◌, ◌≢◌, refl, sym, ap, ◌∙◌, arith, Bool, true, false,
  some, none, inl, inr, Bool-cases, List, [], ◌∷◌, length, get_elem?, set, get_elem?-set_self,
  get_elem?-set_ne, length-set, ==_iff, subst, ◌==◌, if◌then◌else◌,
}
use cubic.Common.Int.{ℤ, pos, negsuc, beq_ℤ, beq_ℤ_iff}
use cubic.Common.Result.{ok, Result-cases}
use cubic.Common.Assoc.{Eq}
use mathlib.Core.Bool.{true≢false}
use text.Mathlib.TextEquality.{eq_iff}
use cubic.World.Inventory.{
  ComponentPatch, ItemStack, ContainerState, max_stack_size, stackable_with, slot_index,
}
use cubic.World.Inventory.Clicks.{
  Slot, with_count, unless_empty, slot_at, picked, pickup_at, pickup, swapped, swap_hotbar, takes,
  taken_from, take_pass, take_all, pickup_all, min_of, is_left_or_right, gathered, hotbar_key,
  hotbar_destination,
}

-- The count of a stack that is there is a positive u32.
abbrev pub IsStack : Slot → Type 0
IsStack none = Unit {0}
IsStack (some s) = (1 ≤ s.count) × (s.count < 2 ^ 32)

module _ (patches : Eq ComponentPatch) where
  -- the items of the kind of `k` in a slot, and in some slots
  unfoldable pub amount : ItemStack → Slot → ℕ
  unfolding stackable_with
  amount k none = 0
  amount k (some s) = if stackable_with patches k s then s.count else 0

  unfoldable pub sum_amounts : ItemStack → List Slot → ℕ
  unfolding amount
  sum_amounts k [] = 0
  sum_amounts k (slot ∷ slots) = amount k slot + sum_amounts k slots

  -- the items of the kind of `k` in a container, carried or in a slot
  unfoldable pub total : ItemStack → ContainerState → ℕ
  unfolding sum_amounts amount
  total k c = sum_amounts k c.slots + amount k c.carried

  pub stackable_with-kind :
      (k a b : ItemStack)
      → stackable_with patches a b ≡ true
      → stackable_with patches k a ≡ stackable_with patches k b
  unfolding stackable_with
  stackable_with-kind k a b e =
      let item : a.item ≡ b.item = (eq_iff a.item b.item).0 (ground (arith, e)) in
      let parts : a.components ≡ b.components =
        (patches.beq_iff a.components b.components).0 (ground (arith, e)) in
      rw (item, parts) refl

  pub amount-unless_empty : (k s : ItemStack) → amount k (unless_empty s) ≡ amount k (some s)
  unfolding amount
  amount-unless_empty k s = ground arith

  amount-picked :
      (k : ItemStack) (left : Bool) (carried slot : Slot)
      → IsStack carried
      → amount k (picked patches left carried slot).0
          + amount k (picked patches left carried slot).1
        ≡ amount k carried + amount k slot
  unfolding picked amount
  amount-picked k left none none h = refl
  amount-picked k left none (some s) h = ground arith
  amount-picked k left (some c) none h = ground (arith, h)
  amount-picked k left (some c) (some s) h = ground (arith, stackable_with-kind k c s)

  pub sum_amounts-set :
      (k : ItemStack) (slots : List Slot) (i : ℕ) (slot : Slot)
      → i < length slots
      → sum_amounts k (set slots i slot) + amount k (slot_at slots i)
        ≡ sum_amounts k slots + amount k slot
  unfolding sum_amounts
  sum_amounts-set k [] i slot h = absurd (omega arith)
  sum_amounts-set k (x ∷ slots) zero slot h = omega arith
  sum_amounts-set k (x ∷ slots) (suc i) slot h =
      omega (arith, sum_amounts-set k slots i slot (omega arith))

  total-pickup_at :
      (k : ItemStack) (left : Bool) (i : ℕ) (c : ContainerState)
      → IsStack c.carried
      → i < length c.slots
      → total k (pickup_at patches left i c) ≡ total k c
  unfolding total pickup_at
  total-pickup_at k left i c h within =
      let moved = picked patches left c.carried (slot_at c.slots i) in
      let kept = amount-picked k left c.carried (slot_at c.slots i) h in
      let put = sum_amounts-set k c.slots i moved.1 within in omega (arith, kept, put)

  pub slot_index-lt :
      (c : ContainerState) (slot : ℤ) (i : ℕ) → slot_index c slot ≡ ok i → i < length c.slots
  unfolding slot_index
  slot_index-lt c (negsuc n) i e = ground (arith, e)
  slot_index-lt c (pos n) i e = ground (arith, e)

  -- A click that picks up or puts down in a slot, not outside of the slots (slot -999), keeps the
  -- number of items of each kind in the container, whichever button it is and also where it is
  -- refused, if the count of the carried stack, if any, is a positive u32.
  pub total-pickup :
      (k : ItemStack) (slot button : ℤ) (c : ContainerState)
      → IsStack c.carried
      → slot ≢ negsuc 998
      → total k (pickup patches slot button c).1 ≡ total k c
  unfolding pickup
  total-pickup k slot button c h inside = elim (Bool-cases (is_left_or_right patches button)) [
    | inl e ↦ elim (Bool-cases (beq_ℤ slot (negsuc 998))) [
      | inl f ↦ absurd (inside ((beq_ℤ_iff slot (negsuc 998)).0 f))
      | inr f ↦ elim (Result-cases (slot_index c slot)) [
        | inl (i, g) ↦
            rw (e, f, g) (total-pickup_at k (beq_ℤ button (pos 0)) i c h (slot_index-lt c slot i g))
        | inr (x, g) ↦ rw (e, f, g) refl
      ]
    ]
    | inr e ↦ rw e refl
  ]

  slot_at-set :
      (slots : List Slot) (i j : ℕ)
      → i < length slots
      → slot_at (set slots i (slot_at slots j)) j ≡ slot_at slots j
  slot_at-set slots i j h = elim (Bool-cases (i == j)) [
    | inl e ↦
        let same : i ≡ j = (==_iff i j).0 e in
        let found = get_elem?-set_self slots i (slot_at slots j) h in
        subst
          (λ n.
            (elim (get_elem? (set slots i (slot_at slots j)) n) [ some s ↦ s | none ↦ none ])
            ≡ slot_at slots j)
          same (rw found refl)
    | inr e ↦
        let apart : i ≢ j = λ f. true≢false (sym ((==_iff i j).1 f) ∙ e) in
        ap (λ o. elim o [ some s ↦ s | none ↦ none ])
          (get_elem?-set_ne slots (slot_at slots j) apart)
  ]

  sum_amounts-swapped :
      (k : ItemStack) (i j : ℕ) (slots : List Slot)
      → i < length slots
      → j < length slots
      → sum_amounts k (swapped patches i j slots) ≡ sum_amounts k slots
  unfolding swapped
  sum_amounts-swapped k i j slots hi hj =
      let a = slot_at slots i in
      let b = slot_at slots j in
      let once = set slots i b in
      let first = sum_amounts-set k slots i b hi in
      let second = sum_amounts-set k once j a (omega (arith, length-set slots i b, hj)) in
      let same = ap (amount k) (slot_at-set slots i j hi) in omega (arith, first, second, same)

  takes-stackable :
      (identity : _) (full_pass : Bool) (index : ℕ) (s carried : ItemStack)
      → takes patches identity full_pass index s carried ≡ true
      → stackable_with patches s carried ≡ true
  unfolding takes
  takes-stackable identity full_pass index s carried e = ground (arith, e)

  amount-moved :
      (k s carried : ItemStack) (moved : ℕ)
      → moved ≤ s.count
      → stackable_with patches s carried ≡ true
      → amount k (some (with_count (s.count - moved) s))
          + amount k (some (with_count (carried.count + moved) carried))
        ≡ amount k (some s) + amount k (some carried)
  unfolding amount
  amount-moved k s carried moved h e =
      let same = stackable_with-kind k s carried e in
      elim (Bool-cases (stackable_with patches k carried)) [
        | inl f ↦ rw (same, f) (omega (arith, h))
        | inr f ↦ rw (same, f) refl
      ]

  amount-taken_from :
      (k : ItemStack) (identity : _) (full_pass : Bool) (index : ℕ) (slot : Slot)
      (carried : ItemStack)
      → amount k (taken_from patches identity full_pass index slot carried).1
          + amount k (some (taken_from patches identity full_pass index slot carried).2)
        ≡ amount k slot + amount k (some carried)
  unfolding taken_from
  amount-taken_from k identity full_pass index none carried = refl
  amount-taken_from k identity full_pass index (some s) carried =
      let moved = min_of s.count (max_stack_size carried - carried.count) in
      elim (Bool-cases (takes patches identity full_pass index s carried)) [
        | inl e ↦ rw e (
            ap (λ n. n + amount k (some (with_count (carried.count + moved) carried)))
              (amount-unless_empty k (with_count (s.count - moved) s))
            ∙ amount-moved k s carried moved (ground arith)
                (takes-stackable identity full_pass index s carried e))
        | inr e ↦ rw e refl
      ]

  sum_amounts-take_pass :
      (k : ItemStack) (identity : _) (full_pass : Bool) (index : ℕ) (slots : List Slot)
      (carried : ItemStack)
      → sum_amounts k (take_pass patches identity full_pass index slots carried).1
          + amount k (some (take_pass patches identity full_pass index slots carried).2)
        ≡ sum_amounts k slots + amount k (some carried)
  unfolding take_pass sum_amounts
  sum_amounts-take_pass k identity full_pass index [] carried = refl
  sum_amounts-take_pass k identity full_pass index (slot ∷ slots) carried =
      let here = taken_from patches identity full_pass index slot carried in
      elim (Bool-cases here.0) [
        | inl e ↦ rw e (omega (arith, amount-taken_from k identity full_pass index slot carried))
        | inr e ↦ rw e (
            omega (
              arith,
              amount-taken_from k identity full_pass index slot carried,
              sum_amounts-take_pass k identity full_pass (suc index) slots here.2,
            ))
      ]

  hotbar_key-lt :
      (c : ContainerState) (button : ℤ) (n : ℕ)
      → hotbar_key patches c button ≡ ok n
      → hotbar_destination patches c n < length c.slots
  unfolding hotbar_key hotbar_destination
  hotbar_key-lt c (negsuc m) n e = ground (arith, e)
  hotbar_key-lt c (pos m) n e = ground (arith, e)

  -- A click with the number key of a hotbar slot keeps the number of items of each kind in the
  -- container, also where it is refused.
  pub total-swap_hotbar :
      (k : ItemStack) (slot button : ℤ) (c : ContainerState)
      → total k (swap_hotbar patches slot button c).1 ≡ total k c
  unfolding swap_hotbar total
  total-swap_hotbar k slot button c = elim (Result-cases (slot_index c slot)) [
    | inl (i, e) ↦ elim (Result-cases (hotbar_key patches c button)) [
      | inl (n, f) ↦
          rw (e, f)
            (ap (λ s. s + amount k c.carried)
              (sum_amounts-swapped k i (hotbar_destination patches c n) c.slots
                (slot_index-lt c slot i e) (hotbar_key-lt c button n f)))
      | inr (x, f) ↦ rw (e, f) refl
    ]
    | inr (x, e) ↦ rw e refl
  ]

  sum_amounts-take_all :
      (k : ItemStack) (identity : _) (slots : List Slot) (carried : ItemStack)
      → sum_amounts k (take_all patches identity slots carried).0
          + amount k (some (take_all patches identity slots carried).1)
        ≡ sum_amounts k slots + amount k (some carried)
  unfolding take_all
  sum_amounts-take_all k identity slots carried =
      let once = take_pass patches identity false 0 slots carried in
      let first = sum_amounts-take_pass k identity false 0 slots carried in
      let second = sum_amounts-take_pass k identity true 0 once.1 once.2 in
      elim (Bool-cases once.0) [ inl e ↦ rw e first | inr e ↦ rw e (second ∙ first) ]

  total-gathered :
      (k : ItemStack) (held : Slot) (c : ContainerState)
      → held ≡ c.carried
      → total k (gathered patches held c) ≡ total k c
  unfolding gathered total
  total-gathered k none c e = refl
  total-gathered k (some s) c e =
      sum_amounts-take_all k c.identity c.slots s
      ∙ ap (λ slot. sum_amounts k c.slots + amount k slot) e

  -- A double click keeps the number of items of each kind in the container, also where it is
  -- refused.
  pub total-pickup_all :
      (k : ItemStack) (button : ℤ) (c : ContainerState)
      → total k (pickup_all patches button c).1 ≡ total k c
  unfolding pickup_all
  total-pickup_all k button c = elim (Bool-cases (beq_ℤ button (pos 0))) [
    | inl e ↦ rw e (total-gathered k c.carried c refl)
    | inr e ↦ rw e refl
  ]
