-- ===== src/World/Chunk/Paletted.antt =====
-- A write to a paletted container acts on its entries as on an array, whatever the representation.
use cubic.Common.{
  ℕ, zero, suc, ◌+◌, ◌≤◌, ◌<◌, ◌≡◌, ◌≢◌, ◌↔◌, refl, sym, ap, ◌∙◌, arith, Bool, true, false, Option,
  some,
}
use cubic.Common.{
  List, length, get_elem?, set, length-set, get_elem?-set, get_elem?-lt, ◌==◌, if◌then◌else◌,
  Bool-cases, inl, inr, subst, gt→leb, ==_iff,
}
use cubic.Common.Assoc.{Eq}
use cubic.World.Chunk.{
  PalettedContainer, len, get, materialize, set_direct, set_materialized, in_bounds, replace,
}

-- every index of the container names a palette entry that is there
abbrev pub IsComplete : {T : Type 0} → PalettedContainer T → Type 0
IsComplete {T} c = (i : ℕ) → i < len c → (v : T) × (get c i ≡ some v)

module _ {T : Type 0} (c : PalettedContainer T) where
  entry_at :
      (v : T) (count entry : ℕ)
      → get c entry ≡ some v
      → ((i : ℕ)
          → i < count
          → get_elem? (materialize c (entry + 1) count) i ≡ get c (entry + 1 + i))
      → (i : ℕ) → i < suc count
      → get_elem? (materialize c entry (suc count)) i ≡ get c (entry + i)
  unfolding materialize
  entry_at v count entry e same zero lt =
      rw e (sym e ∙ ap (get c) (let z : entry ≡ entry + 0 = omega arith in z))
  entry_at v count entry e same (suc i) lt =
      rw e (
        same i (omega arith)
        ∙ ap (get c) (let z : entry + 1 + i ≡ entry + suc i = omega arith in z))

  materialize_lem :
      (count entry : ℕ)
      → IsComplete c
      → entry + count ≤ len c
      → (length (materialize c entry count) ≡ count)
        × ((i : ℕ) → i < count → get_elem? (materialize c entry count) i ≡ get c (entry + i))
  unfolding materialize
  materialize_lem zero entry k h = (refl, λ i lt. absurd (omega arith))
  materialize_lem (suc count) entry k h =
      let (v, e) = k entry (omega arith) in
      let (size, same) = materialize_lem count (entry + 1) k (omega arith) in
      (rw e (ap suc size), entry_at v count entry e same)

module _ {T : Type 0} (eq : Eq T) where
  -- what a write of `value` at `index` makes of entries that were `old`
  abbrev pub Writes : ℕ → T → (ℕ → Option T) → ℕ → PalettedContainer T × Bool → Type 0
  Writes index value old size r =
      (len r.0 ≡ size)
      × ((j : ℕ) → j < size → get r.0 j ≡ (if index == j then some value else old j))
      × ((r.1 ≡ true) ↔ (old index ≢ some value))

  kept :
      (values : List T) (index : ℕ) (value entry : T)
      → get_elem? values index ≡ some entry
      → entry ≡ value
      → Writes index value
          (get_elem? values)
          (length values)
          (PalettedContainer.direct values, false)
  unfolding len get
  kept values index value entry e same = (
    refl,
    λ j lt. ground (arith, e, same),
    (λ absent. cc, λ other. absurd (other (e ∙ ap some same))),
  )

  written :
      (values : List T) (index : ℕ) (value entry : T)
      → get_elem? values index ≡ some entry
      → entry ≢ value
      → index < length values
      → Writes index value
          (get_elem? values)
          (length values)
          (PalettedContainer.direct (set values index value), true)
  unfolding len get
  written values index value entry e other h = (
    length-set values index value,
    λ j lt. get_elem?-set values index j value h,
    (λ _ same. other (cc (e, same)), λ _. refl),
  )

  set_direct_cases :
      (values : List T) (index : ℕ) (value entry : T) (same : Bool)
      → get_elem? values index ≡ some entry
      → eq.beq entry value ≡ same
      → set_direct eq values index value ≡ (
          if same
          then (PalettedContainer.direct values, false)
          else (PalettedContainer.direct (set values index value), true))
  unfolding set_direct
  set_direct_cases values index value entry same e b = rw (e, b)

  set_direct-Writes :
      (values : List T) (index : ℕ) (value : T)
      → index < length values
      → Writes index value (get_elem? values) (length values) (set_direct eq values index value)
  set_direct-Writes values index value h =
      let (entry, e) = get_elem?-lt values index h in
      let claim = Writes index value (get_elem? values) (length values) in
      elim (Bool-cases (eq.beq entry value)) [
        | inl same ↦
            subst claim (sym (set_direct_cases values index value entry true e same))
              (kept values index value entry e ((eq.beq_iff entry value).0 same))
        | inr other ↦
            subst claim (sym (set_direct_cases values index value entry false e other))
              (written values index value entry e (λ p. cc (other, (eq.beq_iff entry value).1 p)) h)
      ]

  transported :
      (c : PalettedContainer T) (values : List T) (index : ℕ) (value : T)
      (r : PalettedContainer T × Bool)
      → length values ≡ len c
      → ((i : ℕ) → i < len c → get_elem? values i ≡ get c i)
      → index < len c
      → Writes index value (get_elem? values) (length values) r
      → Writes index value (get c) (len c) r
  transported c values index value r size same lt (kept_size, entries, changed) = (
    kept_size ∙ size,
    λ j h.
        entries j (omega (arith, size, h))
        ∙ ap (λ o. if index == j then some value else o) (same j h),
    (
      λ e o. changed.0 e (same index lt ∙ o),
      λ other. changed.1 (λ o. other (sym (same index lt) ∙ o)),
    ),
  )

  -- the entries of a container of another form, once they are copied
  copied-Writes :
      (c : PalettedContainer T) (index : ℕ) (value : T)
      → IsComplete c
      → index < len c
      → Writes index value (get c) (len c) (set_materialized eq c index value)
  unfolding set_materialized
  copied-Writes c index value k h =
      let (size, same) = materialize_lem c (len c) 0 k (omega arith) in
      let values = materialize c 0 (len c) in
      let wrote = set_direct-Writes values index value (omega (arith, size)) in
      let from_zero : (i : ℕ) → i < len c → get_elem? values i ≡ get c i =
        λ i lt. same i lt ∙ ap (get c) (let z : 0 + i ≡ i = omega arith in z) in
      subst
        (λ (b : Bool).
          Writes index value (get c) (len c)
            (if b then set_direct eq values index value else (c, false)))
        (sym ((==_iff (length values) (len c)).1 size))
        (transported c values index value (set_direct eq values index value) size from_zero h wrote)

  in_bounds-Writes :
      (c : PalettedContainer T) (index : ℕ) (value : T)
      → IsComplete c
      → index < len c
      → Writes index value (get c) (len c) (in_bounds eq c index value)
  unfolding in_bounds len get
  in_bounds-Writes (PalettedContainer.direct values) index value k h =
      set_direct-Writes values index value h
  in_bounds-Writes (PalettedContainer.single v n) index value k h =
      copied-Writes (PalettedContainer.single v n) index value k h
  in_bounds-Writes (PalettedContainer.indirect p i) index value k h =
      copied-Writes (PalettedContainer.indirect p i) index value k h

  -- On a container whose indices all name palette entries, a write within bounds changes the entry
  -- at its index and no other, keeps the length, whatever the representation was, and answers true
  -- exactly where the entry had another value.
  pub replace-Writes :
      (c : PalettedContainer T) (index : ℕ) (value : T)
      → IsComplete c
      → index < len c
      → Writes index value (get c) (len c) (replace eq c index value)
  unfolding replace
  replace-Writes c index value k h =
      rw (gt→leb (len c) index h) (in_bounds-Writes c index value k h)
