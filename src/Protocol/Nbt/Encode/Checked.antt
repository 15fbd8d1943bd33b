-- ===== src/Protocol/Nbt/Encode/Checked.antt =====
-- What a value that passed the encoder's check is known to satisfy.
use cubic.Common.{ℕ, ◌+◌, ◌*◌, ◌≤◌, ◌<◌, ◌≡◌, ap, subst, ◌∙◌, arith}
use cubic.Common.Result.{ok}
use cubic.Common.Exec.{go_on-ok, bind-ok}
use cubic.Protocol.Reader.{usize_mod}
use cubic.Protocol.Nbt.Error.{NbtCollectionKind}
use cubic.Protocol.Nbt.Limits.{NbtLimits, max_string_encoded_bytes}
use cubic.Protocol.Nbt.NbtString.{NbtString, encoded_len, charge_budget, validate_encoded_length}
use cubic.Protocol.Nbt.Value.{NbtCompound, Tags, of_type_id, count_tags, validate_list}
use cubic.Protocol.Nbt.Value.Compound.{compound_len}
use cubic.Protocol.Nbt.Usage.{Usage, Layout, next_depth, checked_collection_bytes}
use cubic.Protocol.Nbt.Encode.{
  i32_max, checked_double, validate_collection_length, charge_bytes, validate_string,
  validate_array, compound_header, validate_tags, validate_elements,
}

module _ (limits : NbtLimits) where
  collection_length-ok :
      (kind : NbtCollectionKind) (count max : ℕ)
      → validate_collection_length limits kind count max ≡ ok tt
      → (count ≤ max) × (count ≤ i32_max)
  unfolding validate_collection_length
  collection_length-ok kind count max e = ground (arith, e)

  bytes-ok :
      (kind : NbtCollectionKind) (count size n : ℕ)
      → checked_collection_bytes kind count size ≡ ok n
      → (count * size < usize_mod) × (n ≡ count * size)
  unfolding checked_collection_bytes
  bytes-ok kind count size n e = ground (arith, e)

  pub next_depth-ok : (depth child : ℕ) → next_depth limits depth ≡ ok child → child ≡ depth + 1
  unfolding next_depth
  next_depth-ok depth child e = ground (arith, e)

  -- the charge for so many bytes
  pub record Charged (amount : ℕ) (u v : Usage) : Type 0 where
    pub room : u.allocated_bytes + amount ≤ limits.max_total_allocated_bytes
    pub after : v ≡ record u { allocated_bytes = u.allocated_bytes + amount }

  pub charge-ok :
      (amount : ℕ) (u v : Usage) → charge_bytes limits amount u ≡ (ok tt, v) → Charged amount u v
  unfolding charge_bytes charge_budget
  charge-ok amount u v e = record { room = ground (arith, e); after = ground (arith, e) }

  pub record ArrayChecked (count size : ℕ) (u v : Usage) : Type 0 where
    pub within : count ≤ limits.max_array_elements
    pub small : count ≤ i32_max
    pub word : count * size < usize_mod
    pub charged : charge_bytes limits (count * size) u ≡ (ok tt, v)

  pub array-ok :
      (count size : ℕ) (kind : NbtCollectionKind) (u v : Usage)
      → validate_array limits count kind size u ≡ (ok tt, v)
      → ArrayChecked count size u v
  unfolding validate_array
  array-ok count size kind u v e =
      let (a, f, g) = go_on-ok _ _ u v tt e in
      let (n, p, q) = go_on-ok _ _ u v tt g in
      let b = bytes-ok kind count size n p in
      let c = collection_length-ok kind count limits.max_array_elements f in
      record {
        within = c.0;
        small = c.1;
        word = b.0;
        charged = subst (λ k. charge_bytes limits k u ≡ (ok tt, v)) b.1 q;
      }

  pub record StringChecked (s : NbtString) (u v : Usage) : Type 0 where
    pub fits : encoded_len s ≤ max_string_encoded_bytes limits
    pub charged : Charged (encoded_len s * 2) u v

  fits-ok : (n : ℕ) → validate_encoded_length n limits ≡ ok tt → n ≤ max_string_encoded_bytes limits
  unfolding validate_encoded_length
  fits-ok n e = ground (arith, e)

  double-ok : (n m : ℕ) → checked_double limits n ≡ ok m → m ≡ n * 2
  unfolding checked_double
  double-ok n m e = ground (arith, e)

  pub string-ok :
      (s : NbtString) (u v : Usage) → validate_string limits s u ≡ (ok tt, v) → StringChecked s u v
  unfolding validate_string
  string-ok s u v e =
      let (a, f, g) = go_on-ok _ _ u v tt e in
      let (n, p, q) = go_on-ok _ _ u v tt g in
      record {
        fits = fits-ok (encoded_len s) f;
        charged = subst (λ k. Charged k u v) (double-ok (encoded_len s) n p) (charge-ok n u v q);
      }

module _ (layout : Layout) (limits : NbtLimits) where
  pub record ListChecked (t : ℕ) (es : Tags) (depth : ℕ) (u v : Usage) : Type 0 where
    pub valid : validate_list t es ≡ ok tt
    pub within : count_tags es ≤ limits.max_list_elements
    pub small : count_tags es ≤ i32_max
    pub allocation :
        checked_collection_bytes NbtCollectionKind.list (count_tags es) layout.nbt_tag_size
        ≡ ok (count_tags es * layout.nbt_tag_size)
    pub paid : Usage
    pub charged : charge_bytes limits (count_tags es * layout.nbt_tag_size) u ≡ (ok tt, paid)
    pub deeper : next_depth limits depth ≡ ok (depth + 1)
    pub tags : validate_tags layout limits es (depth + 1) paid ≡ (ok tt, v)

  pub list-ok :
      (t : ℕ) (es : Tags) (depth : ℕ) (u v : Usage)
      → validate_elements layout limits (of_type_id t es) depth u ≡ (ok tt, v)
      → ListChecked t es depth u v
  unfolding validate_elements
  list-ok t es depth u v e =
      let (a, f, g) = go_on-ok _ _ u v tt e in
      let (b, h, k) = go_on-ok _ _ u v tt g in
      let (n, p, q) = go_on-ok _ _ u v tt k in
      let (c, paid, charge, rest) = bind-ok (charge_bytes limits n) _ u v tt q in
      let (d, deeper, tags) = go_on-ok _ _ paid v tt rest in
      let size = bytes-ok limits NbtCollectionKind.list (count_tags es) layout.nbt_tag_size n p in
      let bound =
        collection_length-ok limits NbtCollectionKind.list (count_tags es) limits.max_list_elements
          h in
      let child = next_depth-ok limits depth d deeper in
      record {
        valid = f;
        within = bound.0;
        small = bound.1;
        allocation = p ∙ ap ok size.1;
        paid = paid;
        charged = subst (λ k. charge_bytes limits k u ≡ (ok tt, paid)) size.1 charge;
        deeper = deeper ∙ ap ok child;
        tags = subst (λ k. validate_tags layout limits es k paid ≡ (ok tt, v)) child tags;
      }

  pub record HeaderChecked (c : NbtCompound) (depth : ℕ) : Type 0 where
    pub within : compound_len c ≤ limits.max_compound_entries
    pub small : compound_len c ≤ i32_max
    pub deeper : next_depth limits depth ≡ ok (depth + 1)

  pub header-ok :
      (c : NbtCompound) (depth child : ℕ) (u v : Usage)
      → compound_header layout limits c depth u ≡ (ok child, v)
      → HeaderChecked c depth × (child ≡ depth + 1) × (u ≡ v)
  unfolding compound_header
  header-ok c depth child u v e =
      let (a, f, g) = go_on-ok _ _ u v child e in
      let bound =
        collection_length-ok limits NbtCollectionKind.compound (compound_len c)
          limits.max_compound_entries f in
      let deeper : next_depth limits depth ≡ ok child = ap (λ p. p.0) g in
      let here = next_depth-ok limits depth child deeper in
      (
        record { within = bound.0; small = bound.1; deeper = deeper ∙ ap ok here },
        here,
        ap (λ p. p.1) g,
      )
