-- ===== src/World/Entity/Handles.antt =====
-- A handle gives the entity that it was made for, and none once that one is removed.
use cubic.Common.{
  ℕ, suc, ◌+◌, ◌%◌, ◌^◌, ◌<◌, ◌≡◌, ◌⊎◌, inl, inr, refl, sym, ap, ◌∙◌, arith, false, not, ◌||◌, some,
  none, Option-cases, Bool-cases,
}
use cubic.Common.{
  List, [], ◌∷◌, ◌++◌, length, get_elem?, set, get_elem?-set, get_elem?-some, get_elem?-append,
  eq→==, leb, ltb, ◌==◌,
}
use cubic.Common.Int.{ℤ}
use cubic.Common.Result.{err}
use cubic.Common.Assoc.{Eq}
use Prim.Native.String.{len}
use cubic.World.Entity.{
  contains, Entity, EntityHandle, EntitySlot, EntityStore, EntityError, handle, get_entity, emptied,
  remove_handle, remove_entity, placed, allocated, spawn, max_remote_entities, is_finite,
  finite_vec,
}

-- the calls that fill and empty slots
pub data Op (M : Type 0) : Type 0 where
  spawned : Entity M → ℕ → Op M
  removed : ℤ → Op M

module _ {M : Type 0} (keys : Eq ℤ) where
  -- the generation of the handle's slot is `k` later than the handle's
  pub record Past (k : ℕ) (h : EntityHandle) (s : EntityStore M) : Type 0 where
    pub slot : EntitySlot M
    pub there : get_elem? s.slots h.slot ≡ some slot
    pub later : slot.generation ≡ (h.generation + k) % 2 ^ 64

  pub Past-none :
      (k : ℕ) (h : EntityHandle) (s : EntityStore M)
      → Past k h s
      → h.generation < 2 ^ 64
      → 0 < k
      → k < 2 ^ 64
      → get_entity keys h s ≡ none
  unfolding get_entity
  Past-none k h s p small low high =
      let differs : (p.slot.generation == h.generation) ≡ false = ground (arith, p.later) in
      rw (p.there, differs) refl

  set-Past :
      (k index : ℕ) (h : EntityHandle) (s t : EntityStore M) (old new : EntitySlot M)
      → Past k h s
      → get_elem? s.slots index ≡ some old
      → t.slots ≡ set s.slots index new
      → new.generation ≡ old.generation
      → Past k h t
  set-Past k index h s t old new p e f g =
      let at =
        ap (λ slots. get_elem? slots h.slot) f
        ∙ get_elem?-set s.slots index h.slot new (get_elem?-some s.slots index old e) in
      elim (Bool-cases (index == h.slot)) [
        | inl same ↦
            let here : index ≡ h.slot = ground arith in
            let slots_agree : some old ≡ some p.slot =
              sym e ∙ ap (get_elem? s.slots) here ∙ p.there in
            record { slot = new; there = at ∙ rw same refl; later = g ∙ cc (slots_agree, p.later) }
        | inr other ↦ record { slot = p.slot; there = at ∙ rw other p.there; later = p.later }
      ]

  -- a removal makes a handle's slot at most one generation older
  Aged : ℕ → EntityHandle → EntityStore M → Type 0
  Aged k h s = Past k h s ⊎ Past (suc k) h s

  emptied-Aged :
      (k : ℕ) (h g : EntityHandle) (s t : EntityStore M)
      → Past k h s
      → t.slots ≡ s.slots
      → Aged k h (emptied keys g (get_elem? t.slots g.slot) t)
  unfolding emptied Aged
  emptied-Aged k h g s t p f = elim (Option-cases (get_elem? t.slots g.slot)) [
    | inl e ↦ rw e (
        inl (record {
          slot = p.slot;
          there = ap (λ slots. get_elem? slots h.slot) f ∙ p.there;
          later = p.later;
        }))
    | inr (old, e) ↦
        let new : EntitySlot M = record old {
          entity = none;
          generation = (old.generation + 1) % 2 ^ 64;
        } in
        let at = get_elem?-set t.slots g.slot h.slot new (get_elem?-some t.slots g.slot old e) in
        let before = ap (λ slots. get_elem? slots h.slot) f ∙ p.there in
        elim (Bool-cases (g.slot == h.slot)) [
          | inl same ↦
              let here : g.slot ≡ h.slot = ground arith in
              let slots_agree : some old ≡ some p.slot =
                sym e ∙ ap (get_elem? t.slots) here ∙ before in
              let age : old.generation ≡ (h.generation + k) % 2 ^ 64 = cc (slots_agree, p.later) in
              rw e
                (inr (record { slot = new; there = at ∙ rw same refl; later = omega (arith, age) }))
          | inr other ↦
              rw e (inl (record { slot = p.slot; there = at ∙ rw other before; later = p.later }))
        ]
  ]

  remove_entity-Aged :
      (k : ℕ) (h : EntityHandle) (id : ℤ) (s : EntityStore M)
      → Past k h s
      → Aged k h (remove_entity keys id s).1
  unfolding remove_entity remove_handle Aged
  remove_entity-Aged k h id s p = elim (Option-cases (handle keys id s)) [
    | inl e ↦ rw e (inl p)
    | inr (g, e) ↦ rw e (emptied-Aged k h g s (record s { by_id = _ }) p refl)
  ]

  placed-Past :
      (k : ℕ) (h : EntityHandle) (entity : Entity M) (at_ms index : ℕ) (s : EntityStore M)
      → Past k h s
      → Past k h (placed keys entity at_ms index (get_elem? s.slots index) s).1
  unfolding placed
  placed-Past k h entity at_ms index s p = elim (Option-cases (get_elem? s.slots index)) [
    | inl e ↦ rw e p
    | inr (old, e) ↦ rw e (set-Past k index h s _ old _ p e refl refl)
  ]

  with_slots :
      (k : ℕ) (h : EntityHandle) (s t : EntityStore M) (more : List (EntitySlot M))
      → Past k h s
      → t.slots ≡ s.slots ++ more
      → Past k h t
  with_slots k h s t more p f = record {
    slot = p.slot;
    there =
        ap (λ slots. get_elem? slots h.slot) f
        ∙ get_elem?-append s.slots more h.slot p.slot p.there;
    later = p.later;
  }

  allocated-Past :
      (k : ℕ) (h : EntityHandle) (entity : Entity M) (at_ms : ℕ) (free : List ℕ) (s : EntityStore M)
      → Past k h s
      → Past k h (allocated keys entity at_ms free s).1
  unfolding allocated
  allocated-Past k h entity at_ms (index ∷ free) s p =
      placed-Past k h entity at_ms index (record s { free = free })
        (record { slot = p.slot; there = p.there; later = p.later })
  allocated-Past k h entity at_ms [] s p =
      elim (Bool-cases (leb max_remote_entities (length s.slots))) [
        | inl full ↦ rw full p
        | inr room ↦ rw room (
            placed-Past k h entity at_ms (length s.slots) (record s { slots = _ })
              (with_slots k h s (record s { slots = _ }) _ p refl))
      ]

  -- a spawn is refused before it changes anything, or removes the id and takes a slot
  pub spawn-cases :
      (entity : Entity M) (at_ms : ℕ) (s : EntityStore M)
      → ((e : EntityError) × (spawn keys entity at_ms s ≡ (err e, s)))
        ⊎ (spawn keys entity at_ms s
            ≡ allocated keys entity at_ms
                (remove_entity keys entity.id s).1.free
                (remove_entity keys entity.id s).1)
  unfolding spawn
  spawn-cases entity at_ms s =
      elim (Bool-cases (not (is_finite entity.authoritative) || not (finite_vec entity.velocity))) [
        | inl bad ↦ inl (EntityError.non_finite, rw bad refl)
        | inr fine ↦
            elim (Bool-cases
              (ltb 256 (len entity.entity_type) || not (contains entity.entity_type ":"))) [
                | inl bad ↦ inl (EntityError.invalid_type, rw (fine, bad) refl)
                | inr named ↦ inr (rw (fine, named) refl)
              ]
      ]

  spawn-Aged :
      (k : ℕ) (h : EntityHandle) (entity : Entity M) (at_ms : ℕ) (s : EntityStore M)
      → Past k h s
      → Aged k h (spawn keys entity at_ms s).1
  unfolding Aged
  spawn-Aged k h entity at_ms s p =
      let behind = (remove_entity keys entity.id s).1 in
      elim (spawn-cases entity at_ms s) [
        | inl (e, q) ↦ rw q (inl p)
        | inr q ↦ elim (remove_entity-Aged k h entity.id s p) [
          | inl same ↦ rw q (inl (allocated-Past k h entity at_ms behind.free behind same))
          | inr older ↦ rw q (inr (allocated-Past (suc k) h entity at_ms behind.free behind older))
        ]
      ]

  unfoldable pub run : List (Op M) → EntityStore M → EntityStore M
  run [] s = s
  run (Op.spawned entity at_ms ∷ ops) s = run ops (spawn keys entity at_ms s).1
  run (Op.removed id ∷ ops) s = run ops (remove_entity keys id s).1

  after_ops :
      (ops : List (Op M)) (k : ℕ) (h : EntityHandle) (s : EntityStore M)
      → Past k h s
      → h.generation < 2 ^ 64
      → 0 < k
      → k + length ops < 2 ^ 64
      → get_entity keys h (run ops s) ≡ none
  unfolding run Aged
  after_ops [] k h s p small low high = Past-none k h s p small low (omega arith)
  after_ops (Op.spawned entity at_ms ∷ ops) k h s p small low high =
      elim (spawn-Aged k h entity at_ms s p) [
        | inl same ↦ after_ops ops k h _ same small low (omega arith)
        | inr older ↦ after_ops ops (suc k) h _ older small (omega arith) (omega arith)
      ]
  after_ops (Op.removed id ∷ ops) k h s p small low high = elim (remove_entity-Aged k h id s p) [
    | inl same ↦ after_ops ops k h _ same small low (omega arith)
    | inr older ↦ after_ops ops (suc k) h _ older small (omega arith) (omega arith)
  ]

  live_slot :
      (h : EntityHandle) (s : EntityStore M) (entity : Entity M)
      → get_entity keys h s ≡ some entity
      → (slot : EntitySlot M) × ((get_elem? s.slots h.slot ≡ some slot)
          × (slot.generation ≡ h.generation))
  unfolding get_entity
  live_slot h s entity e = elim (Option-cases (get_elem? s.slots h.slot)) [
    | inl f ↦ ground (arith, e, f)
    | inr (slot, f) ↦ (slot, (f, ground (arith, e, f)))
  ]

  removed-Past :
      (h : EntityHandle) (id : ℤ) (s : EntityStore M) (entity : Entity M)
      → handle keys id s ≡ some h
      → get_entity keys h s ≡ some entity
      → Past 1 h (remove_entity keys id s).1
  unfolding remove_entity remove_handle emptied
  removed-Past h id s entity e live =
      let (slot, (f, g)) = live_slot h s entity live in
      let new : EntitySlot M = record slot {
        entity = none;
        generation = (slot.generation + 1) % 2 ^ 64;
      } in
      let at = get_elem?-set s.slots h.slot h.slot new (get_elem?-some s.slots h.slot slot f) in
      rw (e, f)
        (record {
          slot = new;
          there = at ∙ rw (eq→== h.slot h.slot refl) refl;
          later = omega (arith, g);
        })

  -- Once an entity that the store has is removed, the handle it had, with a u64 generation, gives
  -- none, whatever fewer than 2 ^ 64 - 1 spawns and removals follow and whoever takes its slot and
  -- its protocol id.
  pub removed_handle_stays_stale :
      (h : EntityHandle) (id : ℤ) (s : EntityStore M) (entity : Entity M) (ops : List (Op M))
      → handle keys id s ≡ some h
      → get_entity keys h s ≡ some entity
      → h.generation < 2 ^ 64
      → 1 + length ops < 2 ^ 64
      → get_entity keys h (run ops (remove_entity keys id s).1) ≡ none
  removed_handle_stays_stale h id s entity ops e live small few =
      after_ops ops 1 h (remove_entity keys id s).1 (removed-Past h id s entity e live) small
        (omega arith) few
