-- ===== src/World/Inventory/Components.antt =====
-- inventory.rs: the check of a patch of components, and the stack that is made with one. The order
-- of the components does not matter for the checks.
pub mod Valid
use Prim.Native.String.{len}
use cubic.Common.{
  ℕ, zero, suc, ◌+◌, ◌-◌, ◌*◌, ◌%◌, ◌≤◌, ◌<◌, ◌≡◌, ◌≢◌, ◌↔◌, refl, sym, ap, ◌∙◌, arith, String,
  Bool, true, false, ◌||◌, not, Option, some, none, inl, inr, Bool-cases, Option-cases, List, [],
  ◌∷◌, length, ltb, leb, ◌==◌, if◌then◌else◌,
}
use cubic.Common.Int.{ℤ}
use cubic.Common.Result.{Result, ok, err}
use cubic.Common.Result
use cubic.Protocol.Reader.{usize_mod}
use text.Mathlib.TextEquality.{eq_iff}
use cubic.World.Inventory.{
  ComponentValue, unit, var_int, bool, plain_text, rich_text, lore, string_map, registry_encoded,
  opaque, ComponentPatch, ItemStack, InventoryError, zero_item_count, too_many_components,
  component_data_too_large, conflicting_component_patch, orphan_component_fingerprint, same_text,
}

abbrev pub max_components_per_stack : ℕ
max_components_per_stack = 256

abbrev pub max_component_bytes : ℕ
max_component_bytes = 1024 * 1024

-- `usize::saturating_add`
unfoldable pub saturating_add : ℕ → ℕ → ℕ
saturating_add a b = if leb usize_mod (a + b) then usize_mod - 1 else a + b

-- the bytes of some texts, `sum::<usize>()`
sum_bytes : List String → ℕ
sum_bytes [] = 0
sum_bytes (s ∷ ss) = (len s + sum_bytes ss) % usize_mod

sum_pair_bytes : List (String × String) → ℕ
unfolding saturating_add
sum_pair_bytes [] = 0
sum_pair_bytes ((k, v) ∷ rest) = (saturating_add (len k) (len v) + sum_pair_bytes rest) % usize_mod

unfoldable pub retained_bytes : ComponentValue → ℕ
unfolding saturating_add sum_bytes sum_pair_bytes
retained_bytes unit = 0
retained_bytes (var_int v) = 4
retained_bytes (bool v) = 1
retained_bytes (plain_text value) = len value
retained_bytes (rich_text plain wire) = saturating_add (len plain) (length wire)
retained_bytes (lore lines wire) = saturating_add (sum_bytes lines) (length wire)
retained_bytes (string_map values wire) = saturating_add (sum_pair_bytes values) (length wire)
retained_bytes (registry_encoded wire source_registry) =
    saturating_add (length wire) (sum_bytes source_registry)
retained_bytes (opaque value) = length value

-- the `try_fold` over the values
unfoldable pub retained_from : ℕ → List (String × ComponentValue) → Option ℕ
unfolding retained_bytes
retained_from total [] = some total
retained_from total ((k, v) ∷ rest) =
    let later = retained_from (total + retained_bytes v) rest in
    if leb usize_mod (total + retained_bytes v) then none else later

-- `contains` of a set and `contains_key` of a map
unfoldable pub contains : String → List String → Bool
contains k [] = false
contains k (j ∷ js) = same_text j k || contains k js

unfoldable pub contains_key : {V : Type 0} → String → List (String × V) → Bool
contains_key k [] = false
contains_key k ((j, v) ∷ m) = same_text j k || contains_key k m

-- whether a component is both added and removed
unfoldable pub conflicts : List String → List (String × ComponentValue) → Bool
unfolding contains
conflicts removed [] = false
conflicts removed ((k, v) ∷ added) = contains k removed || conflicts removed added

-- whether a fingerprint is of no component that is added
unfoldable pub orphans : List (String × ComponentValue) → List (String × ℤ) → Bool
unfolding contains_key
orphans added [] = false
orphans added ((k, v) ∷ fingerprints) = not (contains_key k added) || orphans added fingerprints

sized : Option ℕ → Result (Unit {0}) InventoryError
sized none = err (component_data_too_large (usize_mod - 1) max_component_bytes)
sized (some retained) =
    if ltb max_component_bytes retained
    then err (component_data_too_large retained max_component_bytes)
    else ok tt

unfoldable pub validate : ComponentPatch → Result (Unit {0}) InventoryError
unfolding saturating_add retained_from sized conflicts orphans
validate p =
    let count = saturating_add (length p.added) (length p.removed) in
    if ltb max_components_per_stack count
    then err (too_many_components count max_components_per_stack)
    else (Result.◌>>=◌ (sized (retained_from 0 p.added)) (λ done.
        if conflicts p.removed p.added
        then err conflicting_component_patch
        else if orphans p.added p.fingerprints
        then err orphan_component_fingerprint
        else ok tt))

-- `ItemStack::new`
unfoldable pub new_stack : String → ℕ → ComponentPatch → Result ItemStack InventoryError
unfolding validate
new_stack item count components =
    if count == 0
    then err zero_item_count
    else (Result.◌>>=◌ (validate components)
        (λ done. ok (record { item = item; count = count; components = components })))
