-- ===== src/World/Inventory/Spread.antt =====
-- A finished drag of the left or right button keeps the number of items of each kind.
use cubic.Common.{
  ℕ, ◌+◌, ◌-◌, ◌≤◌, ◌<◌, ◌≡◌, ◌≢◌, refl, sym, ap, ◌∙◌, arith, false, not, ◌&&◌, some, none, inl,
  inr, Bool-cases, List, [], ◌∷◌, length, ◌==◌,
}
use cubic.Common.Int.{ℤ}
use cubic.Common.Result.{Result, ok, err, Result-cases, ok_injective}
use cubic.Common.Exec.{go_on-ok, bind-ok}
use cubic.Common.Assoc.{Eq}
use cubic.World.Inventory.{
  ComponentPatch, ItemStack, ContainerState, QuickCraftGesture, max_stack_size, stackable_with,
  slot_index, InventoryError, quick_craft_without_carried_stack,
}
use cubic.World.Inventory.Clicks.{Slot, with_count, slot_at}
use cubic.World.Inventory.State.{carrying}
use cubic.World.Inventory.QuickCraft.{
  share, remaining_after, spread_one, spread, per_slot_of, finish, finish_quick_craft,
}
use cubic.World.Inventory.Conserved.{
  amount, sum_amounts, total, amount-unless_empty, sum_amounts-set, slot_index-lt,
}
use cubic.World.Inventory.QuickMove.Filled.{amount-merged}

module _ (patches : Eq ComponentPatch) (k : ItemStack) (kind : ℕ) (drag : (kind == 2) ≡ false) where
  share-le :
      (per_slot capacity : ℕ) (held : ItemStack)
      → share patches kind per_slot capacity held ≤ held.count
  unfolding share
  share-le per_slot capacity held = rw drag (ground arith)

  after-drag :
      (n : ℕ) (held : ItemStack)
      → remaining_after patches kind n held ≡ with_count (held.count - n) held
  unfolding remaining_after
  after-drag n held = rw drag refl

  amount-split :
      (held : ItemStack) (n : ℕ)
      → n ≤ held.count
      → amount patches k (some (with_count n held))
          + amount patches k (some (with_count (held.count - n) held))
        ≡ amount patches k (some held)
  unfolding amount stackable_with
  amount-split held n h = ground (arith, h)

  amount-none : amount patches k none ≡ 0
  unfolding amount
  amount-none = refl

  sum_amounts-spread_one :
      (per_slot i : ℕ) (slot : Slot) (slots : List Slot) (held : ItemStack)
      → i < length slots
      → slot ≡ slot_at slots i
      → sum_amounts patches k (spread_one patches kind per_slot i slot slots held).0
          + amount patches k (some (spread_one patches kind per_slot i slot slots held).1)
        ≡ sum_amounts patches k slots + amount patches k (some held)
  unfolding spread_one
  sum_amounts-spread_one per_slot i none slots held h e =
      let n = share patches kind per_slot (max_stack_size held) held in
      let was = ap (amount patches k) e in
      elim (Bool-cases (n == 0)) [
        | inl f ↦ rw f refl
        | inr f ↦
            rw (f, after-drag n held)
              (omega (
                arith,
                sum_amounts-set patches k slots i (some (with_count n held)) h,
                amount-split held n (share-le per_slot (max_stack_size held) held),
                was,
                amount-none,
              ))
      ]
  sum_amounts-spread_one per_slot i (some s) slots held h e =
      let n = share patches kind per_slot (max_stack_size s - s.count) held in
      let was = ap (amount patches k) e in
      elim (Bool-cases (stackable_with patches s held)) [
        | inl g ↦ elim (Bool-cases (n == 0)) [
          | inl f ↦ rw (g, f) refl
          | inr f ↦
              rw (g, f, after-drag n held)
                (omega (
                  arith,
                  sum_amounts-set patches k slots i (some (with_count (s.count + n) s)) h,
                  amount-merged patches k s held n
                      (share-le per_slot (max_stack_size s - s.count) held) g,
                  was,
                ))
        ]
        | inr g ↦ rw g refl
      ]

  failed :
      (x : InventoryError) (left : ItemStack) (c d : ContainerState)
      → (let p : Result ItemStack InventoryError × ContainerState = (err x, c) in p ≢ (ok left, d))
  failed x left c d e =
      let r : Result ItemStack InventoryError = err x in
      let same : r ≡ ok left = ap (λ p. p.0) e in ground (arith, same)

  ended :
      (held left : ItemStack) (c d : ContainerState)
      → (let p : Result ItemStack InventoryError × ContainerState = (ok held, c) in
          p ≡ (ok left, d))
      → sum_amounts patches k d.slots + amount patches k (some left)
        ≡ sum_amounts patches k c.slots + amount patches k (some held)
  ended held left c d e = omega (
    arith,
    ap (λ p. sum_amounts patches k p.1.slots) e,
    ap (λ s. amount patches k (some s)) (ok_injective held left (ap (λ p. p.0) e)),
  )

  sum_amounts-spread :
      (per_slot : ℕ) (slots : List ℤ) (held left : ItemStack) (c d : ContainerState)
      → spread patches kind per_slot slots held c ≡ (ok left, d)
      → sum_amounts patches k d.slots + amount patches k (some left)
        ≡ sum_amounts patches k c.slots + amount patches k (some held)
  unfolding spread
  sum_amounts-spread per_slot [] held left c d e = ended held left c d e
  sum_amounts-spread per_slot (slot ∷ slots) held left c d e =
      elim (Bool-cases ((held.count == 0) && not (kind == 2))) [
        | inl f ↦ ended held left c d (rw (spread, f) at e)
        | inr f ↦ elim (Result-cases (slot_index c slot)) [
          | inl (i, g) ↦
              let one = spread_one patches kind per_slot i (slot_at c.slots i) c.slots held in
              sum_amounts-spread per_slot slots one.1 left (record c { slots = one.0 }) d
                (rw (spread, f, g) at e)
              ∙ sum_amounts-spread_one per_slot i (slot_at c.slots i) c.slots held
                  (slot_index-lt patches c slot i g) refl
          | inr (x, g) ↦ absurd (failed x left c d (rw (spread, f, g) at e))
        ]
      ]

module _ (patches : Eq ComponentPatch) (k : ItemStack) (g : QuickCraftGesture) where
  total-finish :
      (held : ItemStack) (c d : ContainerState)
      → (g.kind == 2) ≡ false
      → c.carried ≡ some held
      → finish patches g (some held) c ≡ (ok tt, d)
      → total patches k d ≡ total patches k c
  unfolding finish total
  total-finish held c d drag e f = elim (Bool-cases (length g.slots == 0)) [
    | inl h ↦
        ap (λ p. sum_amounts patches k p.1.slots + amount patches k p.1.carried) (sym (rw h at f))
    | inr h ↦
        let (per_slot, p, q) =
          go_on-ok (per_slot_of patches g.kind (length g.slots) held) _ (carrying none c) d tt
            (rw h at f) in
        let (left, s, v, w) =
          bind-ok (spread patches g.kind per_slot g.slots held) _ (carrying none c) d tt q in
        let kept =
          sum_amounts-spread patches k g.kind drag per_slot g.slots held left (carrying none c) s
            v in
        omega (
          arith,
          kept,
          ap (λ p. sum_amounts patches k p.1.slots + amount patches k p.1.carried) w,
          amount-unless_empty patches k left,
          ap (amount patches k) e,
        )
  ]

  nothing_carried : (c d : ContainerState) → finish patches g none c ≢ (ok tt, d)
  unfolding finish
  nothing_carried c d e =
      let r : Result (Unit {0}) InventoryError = err quick_craft_without_carried_stack in
      let same : r ≡ ok tt = ap (λ p. p.0) e in ground (arith, same)

  total-finish_slot :
      (slot : Slot) (c d : ContainerState)
      → (g.kind == 2) ≡ false
      → c.carried ≡ slot
      → finish patches g slot c ≡ (ok tt, d)
      → total patches k d ≡ total patches k c
  total-finish_slot none c d drag e f = absurd (nothing_carried c d f)
  total-finish_slot (some held) c d drag e f = total-finish held c d drag e f

  -- Where the end of a drag of the left or right button, not of the creative one, succeeds, it
  -- keeps the number of items of each kind in the container.
  pub total-finish_quick_craft :
      (c d : ContainerState)
      → g.kind ≢ 2
      → finish_quick_craft patches g c ≡ (ok tt, d)
      → total patches k d ≡ total patches k c
  unfolding finish_quick_craft
  total-finish_quick_craft c d drag e =
      total-finish_slot c.carried c d (ground (arith, drag)) refl e
