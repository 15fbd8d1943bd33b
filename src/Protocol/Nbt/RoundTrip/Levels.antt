-- ===== src/Protocol/Nbt/RoundTrip/Levels.antt =====
-- The steps of the decoder of payloads: a level, a number, and the two ends of a compound.
use cubic.Common.{ℕ, zero, suc, ◌+◌, ◌≤◌, ◌<◌, ◌≡◌, sym, subst, arith, List, [], ◌∷◌}
use cubic.Common.Result.{ok}
use cubic.Common.Exec.{pure, ◌>>=◌}
use cubic.Protocol.Reader.{usize_mod}
use cubic.Protocol.Reader.{Reader}
use cubic.Protocol.Reader.Decodes.{Decodes}
use cubic.Protocol.Reader.Fixed.{}
use cubic.Protocol.Nbt.Tag.{NbtTagType, id}
use cubic.Protocol.Nbt.Limits.{NbtLimits}
use cubic.Protocol.Nbt.Value.{NbtTag, NbtCompound, empty, entry}
use cubic.Protocol.Nbt.Value.Compound.{insert}
use cubic.Protocol.Nbt.Value.WellFormed.{
  AllNames, Behind, joined, joined_empty, joined-entry, inserted_last,
}
use cubic.Protocol.Nbt.Usage.{Usage, Layout, add_tag}
use cubic.Protocol.Nbt.Decode.{
  Decode, Allocator, on_reader, compound_round, decode_entries, payload_of, decode_payload,
  too_many,
}
use cubic.Protocol.Nbt.Decode.Reads.{Reads, Reads-reader, Reads-usage, Reads-bind, Reads-map}
use cubic.Protocol.Nbt.Encode.{}
use cubic.Protocol.Nbt.Encode.Wire.{compound_bytes}
use cubic.Protocol.Nbt.RoundTrip.Arrays.{Grants}
use cubic.Protocol.Nbt.RoundTrip.Read.{}
use cubic.Protocol.Nbt.NbtString.{NbtString}
use cubic.Protocol.Nbt.RoundTrip.Compounds.{Reads-end}
use cubic.Protocol.Nbt.RoundTrip.Read.{add_tag-depth}

module _ (layout : Layout) (alloc : Allocator) (limits : NbtLimits) (g : Grants alloc)
    (word : limits.max_total_allocated_bytes < usize_mod) where
  -- A payload is its tag's count, and what `payload_of` reads on one level less.
  pub Reads-level :
      (levels depth : ℕ) (t : NbtTagType) (bytes : List ℕ) (u w v : Usage) (tag : NbtTag)
      → limits.max_depth < levels + depth
      → add_tag limits depth u ≡ (ok tt, w)
      → ((l : ℕ)
          → limits.max_depth ≤ l + depth
          → Reads
              (payload_of layout alloc limits (decode_payload layout alloc limits l) depth t)
              bytes
              w
              v
              tag)
      → Reads (decode_payload layout alloc limits levels depth t) bytes u v tag
  unfolding decode_payload
  Reads-level zero depth t bytes u w v tag deep e d =
      absurd (omega (arith, add_tag-depth limits depth u w e))
  Reads-level (suc l) depth t bytes u w v tag deep e d =
      Reads-bind _ _ [] bytes u w v tt tag (Reads-usage (add_tag limits depth) tt u w e)
        (d l (omega arith))

  -- a number, which is free
  pub Reads-number :
      {A : Type 0} (read : Reader A) (tag : A → NbtTag) (bytes : List ℕ) (x : A) (u v : Usage)
      → Decodes read bytes x
      → u ≡ v
      → Reads (on_reader read >>= λ n. pure (tag n)) bytes u v (tag x)
  Reads-number read tag bytes x u v d e =
      subst (λ w. Reads (on_reader read >>= λ n. pure (tag n)) bytes u w (tag x)) e
        (Reads-map (on_reader read) tag bytes u u x (Reads-reader read bytes x u d))

  -- the end of a compound
  Reads-ended :
      (acc : NbtCompound) (n : ℕ) (rest : ℕ → NbtCompound → Decode NbtCompound) (levels depth : ℕ)
      (u v : Usage)
      → u ≡ v
      → Reads
          (compound_round layout alloc limits
            (decode_payload layout alloc limits levels)
            depth
            rest
            n
            acc)
          (id NbtTagType.end ∷ [])
          u
          v
          (joined acc empty)
  Reads-ended acc n rest levels depth u v e = rw (joined_empty acc) (
      subst
        (λ w.
          Reads
            (compound_round layout alloc limits (decode_payload layout alloc limits levels) depth
              rest n acc)
            (id NbtTagType.end ∷ []) u w acc)
        e
        (Reads-end layout alloc limits g word (decode_payload layout alloc limits levels) depth rest
          n acc u))

  pub Reads-stop :
      (acc : NbtCompound) (n room levels depth : ℕ) (u v : Usage)
      → u ≡ v
      → Reads
          (decode_entries layout alloc limits
            (decode_payload layout alloc limits levels)
            depth
            room
            n
            acc)
          (id NbtTagType.end ∷ [])
          u
          v
          (joined acc empty)
  unfolding decode_entries
  Reads-stop acc n zero levels depth u v e =
      Reads-ended acc n (too_many layout alloc limits) levels depth u v e
  Reads-stop acc n (suc room) levels depth u v e =
      Reads-ended acc n
        (decode_entries layout alloc limits (decode_payload layout alloc limits levels) depth room)
        levels depth u v e

  -- A name behind all that are there goes to their end.
  pub Reads-inserted :
      (acc c : NbtCompound) (name : NbtString) (value : NbtTag) (n room levels depth : ℕ)
      (u v : Usage)
      → AllNames (λ k. Behind k name) acc
      → Reads
          (decode_entries layout alloc limits
            (decode_payload layout alloc limits levels)
            depth
            room
            n
            (joined acc (entry name value empty)))
          (compound_bytes c)
          u
          v
          (joined (joined acc (entry name value empty)) c)
      → Reads
          (decode_entries layout alloc limits
            (decode_payload layout alloc limits levels)
            depth
            room
            n
            (insert name value acc).1)
          (compound_bytes c)
          u
          v
          (joined acc (entry name value c))
  unfolding insert
  Reads-inserted acc c name value n room levels depth u v b d =
      rw (inserted_last name value acc b, sym (joined-entry acc c name value)) d
