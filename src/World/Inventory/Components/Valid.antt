-- ===== src/World/Inventory/Components/Valid.antt =====
-- Which patches of components the check accepts.
use cubic.Common.{
  ℕ, ◌+◌, ◌≤◌, ◌≡◌, ◌↔◌, refl, sym, ap, ◌∙◌, arith, String, Bool, true, false, some, none, inl, inr,
  Bool-cases, Option-cases, List, [], ◌∷◌, length, ltb, leb, if◌then◌else◌,
}
use cubic.Common.Int.{ℤ}
use cubic.Common.Result.{Result, ok, err}
use cubic.Common.Result
use cubic.Protocol.Reader.{usize_mod}
use text.Mathlib.TextEquality.{eq_iff}
use cubic.World.Inventory.{ComponentValue, ComponentPatch, InventoryError, same_text}
use cubic.World.Inventory.Components.{
  saturating_add, retained_bytes, retained_from, contains, contains_key, conflicts, orphans, sized,
  validate, max_components_per_stack, max_component_bytes,
}

-- the bytes that the added components keep, without a bound
unfoldable pub bytes_of : List (String × ComponentValue) → ℕ
unfolding retained_bytes
bytes_of [] = 0
bytes_of ((k, v) ∷ rest) = retained_bytes v + bytes_of rest

-- Few and small components, none both added and removed, and no fingerprint without its component.
pub record Valid (p : ComponentPatch) : Type 0 where
  pub few : length p.added + length p.removed ≤ 256
  pub small : bytes_of p.added ≤ 1_048_576
  pub apart : (k : String) → contains_key k p.added ≡ true → contains k p.removed ≡ false
  pub known : (k : String) → contains_key k p.fingerprints ≡ true → contains_key k p.added ≡ true

retained_from-some :
    (total r : ℕ) (m : List (String × ComponentValue))
    → retained_from total m ≡ some r
    → r ≡ total + bytes_of m
unfolding retained_from bytes_of
retained_from-some total r [] e = ground (arith, e)
retained_from-some total r ((k, v) ∷ m) e =
    elim (Bool-cases (leb usize_mod (total + retained_bytes v))) [
      | inl f ↦ absurd (ground (arith, e, f))
      | inr f ↦
          let later = retained_from-some (total + retained_bytes v) r m (rw f at e) in
          omega (arith, later)
    ]

retained_from-none :
    (total : ℕ) (m : List (String × ComponentValue))
    → retained_from total m ≡ none
    → usize_mod ≤ total + bytes_of m
unfolding retained_from bytes_of
retained_from-none total [] e = absurd (ground (arith, e))
retained_from-none total ((k, v) ∷ m) e =
    elim (Bool-cases (leb usize_mod (total + retained_bytes v))) [
      | inl f ↦ ground (arith, f)
      | inr f ↦
          let later = retained_from-none (total + retained_bytes v) m (rw f at e) in
          omega (arith, later)
    ]

sized_iff :
    (m : List (String × ComponentValue))
    → (sized (retained_from 0 m) ≡ ok tt) ↔ (bytes_of m ≤ max_component_bytes)
unfolding sized
sized_iff m = elim (Option-cases (retained_from 0 m)) [
  | inl e ↦
      let over = retained_from-none 0 m e in
      (λ s. ground (arith, rw e at s), λ h. absurd (omega (arith, over, h)))
  | inr (r, e) ↦
      let same = retained_from-some 0 r m e in
      (λ s. ground (arith, same, rw e at s), λ h. rw e (ground (arith, same, h)))
]

same_refl : (s : String) → same_text s s ≡ true
same_refl s = (eq_iff s s).1 refl

contains-same :
    (k j : String) (removed : List String)
    → same_text k j ≡ true
    → contains k removed ≡ contains j removed
contains-same k j removed e = ap (λ s. contains s removed) ((eq_iff k j).0 e)

conflicts_iff :
    (removed : List String) (added : List (String × ComponentValue))
    → (conflicts removed added ≡ false)
      ↔ ((k : String) → contains_key k added ≡ true → contains k removed ≡ false)
unfolding conflicts contains_key
conflicts_iff removed [] = (λ e k h. ground (arith, h), λ h. refl)
conflicts_iff removed ((j, v) ∷ added) =
    let (to, from) = conflicts_iff removed added in
    (
      λ e k h. elim (Bool-cases (same_text j k)) [
        | inl f ↦ sym (contains-same j k removed f) ∙ ground (arith, e)
        | inr f ↦ to (ground (arith, e)) k (rw f at h)
      ],
      λ h.
          let here = h j (ground (arith, same_refl j)) in
          let rest = from (λ k g. h k (ground (arith, g))) in ground (arith, here, rest),
    )

orphans_iff :
    (added : List (String × ComponentValue)) (fingerprints : List (String × ℤ))
    → (orphans added fingerprints ≡ false)
      ↔ ((k : String) → contains_key k fingerprints ≡ true → contains_key k added ≡ true)
unfolding orphans contains_key
orphans_iff added [] = (λ e k h. ground (arith, h), λ h. refl)
orphans_iff added ((j, v) ∷ fingerprints) =
    let (to, from) = orphans_iff added fingerprints in
    (
      λ e k h. elim (Bool-cases (same_text j k)) [
        | inl f ↦ ap (λ s. contains_key s added) (sym ((eq_iff j k).0 f)) ∙ ground (arith, e)
        | inr f ↦ to (ground (arith, e)) k (rw f at h)
      ],
      λ h.
          let here = h j (ground (arith, same_refl j)) in
          let rest = from (λ k g. h k (ground (arith, g))) in ground (arith, here, rest),
    )

few_iff :
    (a b : ℕ)
    → (ltb max_components_per_stack (saturating_add a b) ≡ false)
      ↔ (a + b ≤ max_components_per_stack)
unfolding saturating_add
few_iff a b = (λ e. ground (arith, e), λ h. ground (arith, h))

-- what is known where all four checks are passed
all_passed :
    (few apart known : Bool) (small : Result (Unit {0}) InventoryError) (x y z : InventoryError)
    → (let checked : Result (Unit {0}) InventoryError =
          if few
          then err x
          else (Result.◌>>=◌ small
              (λ done. if apart then err y else if known then err z else ok tt)) in
        checked ≡ ok tt)
    → (few ≡ false) × (small ≡ ok tt) × (apart ≡ false) × (known ≡ false)
all_passed few apart known (ok t) x y z e = ground (arith, e)
all_passed few apart known (err w) x y z e = absurd (ground (arith, e))

-- The check accepts a patch just where it adds and removes 256 components or fewer, the components
-- that it adds keep 1048576 bytes or fewer, none of them is also removed, and each fingerprint is of
-- one of them.
pub validate_iff : (p : ComponentPatch) → (validate p ≡ ok tt) ↔ Valid p
unfolding validate
validate_iff p =
    let few = few_iff (length p.added) (length p.removed) in
    let small = sized_iff p.added in
    let apart = conflicts_iff p.removed p.added in
    let known = orphans_iff p.added p.fingerprints in
    (
      λ e.
          let (a, b, c, d) = all_passed _ _ _ _ _ _ _ e in
          record { few = few.0 a; small = small.0 b; apart = apart.0 c; known = known.0 d },
      λ v. rw (few.1 v.few, small.1 v.small, apart.1 v.apart, known.1 v.known) refl,
    )
