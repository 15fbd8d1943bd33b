-- ===== src/Protocol/Nbt/RoundTrip/Lists.antt =====
-- The decoder reads back a list, and an entry of a compound, given that it reads back the tags within.
use cubic.Common.{
  ℕ, ◌+◌, ◌*◌, ◌≡◌, refl, sym, ap, ◌∙◌, subst, arith, [], ◌∷◌, ◌++◌, append-nil, some,
}
use cubic.Common.Int.{pos}
use cubic.Common.Result.{Result, ok, err, ok_or}
use cubic.Common.Result
use cubic.Common.Exec.{pure}
use cubic.Protocol.Reader.{}
use cubic.Protocol.Reader.Fixed.{}
use cubic.Protocol.Nbt.Error.{NbtCollectionKind, NbtError, invalid_tag_id}
use cubic.Protocol.Nbt.Tag.{NbtTagType, id, from_id, from_id_iff}
use cubic.Protocol.Nbt.Limits.{NbtLimits}
use cubic.Protocol.Nbt.Value.{
  NbtTag, NbtList, of_type_id, Tags, nil, cons, count_tags, validate_list, new_list,
}
use cubic.Protocol.Nbt.Value.WellFormed.{}
use cubic.Protocol.Nbt.Usage.{Usage, Layout}
use cubic.Protocol.Nbt.Decode.{
  Decode, Allocator, decode_elements, filled_list, decode_list, list_elements,
}
use cubic.Protocol.Nbt.Decode.Reads.{Reads, Reads-pure, Reads-lift, Reads-bytes, Reads-bind}
use cubic.Protocol.Nbt.Encode.{validate_tags}
use cubic.Protocol.Nbt.Encode.Checked.{ListChecked}
use cubic.Protocol.Nbt.Encode.Wire.{list_bytes, elements_bytes, length_bytes}
use cubic.Protocol.Nbt.RoundTrip.Arrays.{Grants, Reads-length, Reads-reserve, Reads-charge}
use cubic.Protocol.Nbt.RoundTrip.Read.{
  Reads-type_id, Reads-guard, Typed, validate_list-ok, limit-ok, ok_or-some,
}
use cubic.Protocol.Nbt.Encode.Checked.{charge-ok}

abbrev built : ℕ → Tags → Result NbtList NbtError
built k es = Result.◌>>=◌ (validate_list k es) (λ done. ok (of_type_id k es))

abbrev tagged : Result NbtList NbtError → Result NbtTag NbtError
tagged r = Result.◌>>=◌ r (λ l. ok (NbtTag.list l))

module _ (layout : Layout) (alloc : Allocator) (limits : NbtLimits) (g : Grants alloc)
    (self : ℕ → NbtTagType → Decode NbtTag) (depth : ℕ) where
  new_list-ok :
      (t : ℕ) (expected : NbtTagType) (es : Tags)
      → from_id t ≡ some expected
      → validate_list t es ≡ ok tt
      → new_list expected es ≡ ok (of_type_id t es)
  unfolding new_list
  new_list-ok t expected es e h =
      let same : t ≡ id expected = (from_id_iff t expected).0 e in
      subst (λ k. built k es ≡ ok (of_type_id t es)) same (rw h refl)

  Reads-filled :
      (t : ℕ) (e : NbtTag) (es : Tags) (u v : Usage)
      → (c : ListChecked layout limits t (cons e es) depth u v) → (k : Typed t (cons e es))
      → Reads
          (decode_elements (self (depth + 1) k.expected) (count_tags (cons e es)))
          (elements_bytes (cons e es))
          c.paid
          v
          (cons e es)
      → Reads
          (filled_list layout alloc limits self depth t (count_tags (cons e es)))
          (elements_bytes (cons e es))
          u
          v
          (NbtTag.list (of_type_id t (cons e es)))
  unfolding filled_list list_elements
  Reads-filled t e es u v c k d =
      let l = cons e es in
      let n = count_tags l in
      let bytes = elements_bytes l in
      let w = c.paid in
      let result = NbtTag.list (of_type_id t l) in
      Reads-bind _ _ [] bytes u u v tt result
        (Reads-lift _ tt u (limit-ok NbtCollectionKind.list n limits.max_list_elements c.within))
        (Reads-bind _ _ [] bytes u u v k.expected result
          (Reads-lift _ k.expected u (ok_or-some t k.expected (invalid_tag_id t) k.known))
          (Reads-bind _ _ [] bytes u u v tt result (Reads-guard _ _ u k.not_end) (
            Reads-bind _ _ [] bytes u u v _ result (Reads-lift _ _ u c.allocation) (
              Reads-bind _ _ [] bytes u w v tt result
                (Reads-charge layout alloc limits g _ u w c.charged)
                (Reads-bind _ _ [] bytes w w v tt result
                  (Reads-reserve layout alloc limits g n "TAG_List elements" w)
                  (Reads-bind _ _ [] bytes w w v (depth + 1) result
                    (Reads-lift _ (depth + 1) w c.deeper)
                    (Reads-bytes _ _ _ w v result (append-nil bytes) (
                      Reads-bind _ _ bytes [] w v v l result d (
                        Reads-lift _ result v
                          (ap tagged (new_list-ok t k.expected l k.known c.valid)))))))))))

  Reads-empty :
      (t : ℕ) (u v : Usage)
      → ListChecked layout limits t nil depth u v
      → Reads (pure (NbtTag.list (of_type_id t nil))) [] u v (NbtTag.list (of_type_id t nil))
  unfolding validate_tags count_tags
  Reads-empty t u v c =
      let paid = (charge-ok limits (0 * layout.nbt_tag_size) u c.paid c.charged).after in
      let free : u.allocated_bytes + 0 * layout.nbt_tag_size ≡ u.allocated_bytes = omega arith in
      let same : c.paid ≡ u = paid ∙ ap (λ k. record u { allocated_bytes = k }) free in
      let there : u ≡ v = sym same ∙ ap (λ p. p.1) c.tags in
      subst
        (λ x. Reads (pure (NbtTag.list (of_type_id t nil))) [] u x (NbtTag.list (of_type_id t nil)))
        there (Reads-pure _ u)

  pub Reads-list :
      (t : ℕ) (es : Tags) (u v : Usage)
      → (c : ListChecked layout limits t es depth u v)
      → ((k : Typed t es)
          → Reads
              (decode_elements (self (depth + 1) k.expected) (count_tags es))
              (elements_bytes es)
              c.paid
              v
              es)
      → Reads
          (decode_list layout alloc limits self depth)
          (list_bytes (of_type_id t es))
          u
          v
          (NbtTag.list (of_type_id t es))
  unfolding decode_list list_bytes
  Reads-list t nil u v c d =
      Reads-bind _ _ (t ∷ []) (length_bytes 0 ++ []) u u v t _ (Reads-type_id _ t u) (
        Reads-bind _ _ (length_bytes 0) [] u u v (pos 0) _ (Reads-length 0 u (omega arith))
          (Reads-empty t u v c))
  Reads-list t (cons e es) u v c d =
      let k = validate_list-ok t e es c.valid in
      Reads-bind _ _ (t ∷ []) (length_bytes (count_tags (cons e es)) ++ elements_bytes (cons e es))
        u u v t _ (Reads-type_id _ t u)
        (Reads-bind _ _ (length_bytes (count_tags (cons e es))) (elements_bytes (cons e es)) u u v
          (pos (count_tags (cons e es))) _ (Reads-length _ u c.small)
          (Reads-filled t e es u v c k (d k)))
