-- ===== src/Protocol/VarInt/Groups.antt =====
-- The bytes of a variable-length number in plain arithmetic, and what the masks of varint.rs do.
use mathlib.Core.WellFounded.{Acc}
use native.Mathlib.Decide.{ℕ_discrete}
use native.Mathlib.Nat.{mod-eq_of_lt}
use cubic.Common.{ℕ, zero, suc, ◌+◌, ◌-◌, ◌*◌, ◌/◌, ◌%◌, ◌^◌, ◌≤◌, ◌<◌, bit_and, bit_or, ◌≡◌}
use cubic.Common.{List, [], ◌∷◌, ◌++◌, append_assoc, length, ltb, if◌then◌else◌, All, arith}
use cubic.Common.Bits.{and_high_mask, and_low_mask, or_disjoint}
use cubic.Common.Order.{lt_wf}
use cubic.Protocol.Writer.{CodecWriter, write_u8}
use cubic.Protocol.VarInt.{write_groups, add_group}

-- at most k + 1 groups, for a number below 128 ^ (k + 1)
unfoldable pub groups : ℕ → ℕ → List ℕ
groups zero value = value ∷ []
groups (suc k) value =
    let rest = groups k (value / 128) in
    if ltb value 128 then value ∷ [] else (value % 128 + 128) ∷ rest

-- the mask `!0x7f` of a word of w bits, where `tops` is 2 ^ (w - 7)
abbrev pub high_mask : ℕ → ℕ
high_mask top = (2 ^ top - 1) * 2 ^ 7

pub and-high_mask :
    (top value : ℕ) → value < 2 ^ top * 128 → bit_and value (high_mask top) ≡ value / 128 * 128
and-high_mask top value h =
    let small : value / 128 % 2 ^ top ≡ value / 128 = mod-eq_of_lt (omega arith) in
    ground (arith, small, and_high_mask 7 value (2 ^ top - 1), and_low_mask top (value / 128))

pub and-low_seven : (value : ℕ) → bit_and value 0x7f ≡ value % 128
and-low_seven value = and_low_mask 7 value

-- `byte & 0x80` tells the last byte from the others
pub and-top_bit : (byte : ℕ) → byte < 256 → bit_and byte 0x80 ≡ byte / 128 * 128
and-top_bit byte h = ground (arith, and_high_mask 7 byte 1, and_low_mask 1 (byte / 128))

pub or-top_bit : (low : ℕ) → low < 128 → bit_or low 0x80 ≡ low + 128
or-top_bit low h = or_disjoint 7 low 1 h

write_groups-groups :
    (k top value : ℕ) (w : Acc ◌<◌ value) (out : CodecWriter)
    → value < 128 ^ suc k
    → value < 2 ^ top * 128
    → write_groups (high_mask top) value w out ≡ record { output = out.output ++ groups k value }
unfolding write_groups groups write_u8 ℕ_discrete
write_groups-groups zero top value (Acc.intro _ smaller) out h b =
    ground (arith, and-high_mask top value)
write_groups-groups (suc k) top value (Acc.intro _ smaller) out h b =
    let first : List ℕ = (value % 128 + 128) ∷ [] in
    grind (
      arith,
      and-high_mask top value,
      and-low_seven value,
      or-top_bit (value % 128),
      λ (w : Acc ◌<◌ (value / 128)).
          write_groups-groups k top (value / 128) w (record { output = out.output ++ first })
            (omega arith) (omega arith),
      append_assoc out.output first (groups k (value / 128)),
    )

-- The loop of `write_var_int` appends the groups of its word.
pub write_groups_lem :
    (k top value : ℕ) (out : CodecWriter)
    → value < 128 ^ suc k
    → value < 2 ^ top * 128
    → write_groups (high_mask top) value (lt_wf.apply value) out
      ≡ record { output = out.output ++ groups k value }
write_groups_lem k top value out h b = write_groups-groups k top value (lt_wf.apply value) out h b

-- The new group lies above the bits that are there, and does not overflow.
pub add_group_lem :
    (width result byte index : ℕ)
    → result < 2 ^ (index * 7)
    → result + byte % 128 * 2 ^ (index * 7) < 2 ^ width
    → add_group (2 ^ width) result byte index ≡ result + byte % 128 * 2 ^ (index * 7)
unfolding add_group
add_group_lem width result byte index h b =
    let small : byte % 128 * 2 ^ (index * 7) % 2 ^ width ≡ byte % 128 * 2 ^ (index * 7) =
      mod-eq_of_lt (omega arith) in
    ground (arith, and-low_seven byte, small, or_disjoint (index * 7) result (byte % 128) h)

pub groups_shape :
    (k value : ℕ)
    → value < 128 ^ suc k
    → All (λ byte. byte < 256) (groups k value)
      × (1 ≤ length (groups k value))
      × (length (groups k value) ≤ k + 1)
unfolding groups
groups_shape zero value h = omega arith
groups_shape (suc k) value h = ground (arith, groups_shape k (value / 128) (omega arith))

-- The number of groups goes by the value, whatever the room.
pub groups_fit : (j k value : ℕ) → value < 128 ^ suc j → length (groups k value) ≤ suc j
unfolding groups
groups_fit j zero value h = omega arith
groups_fit zero (suc k) value h = ground arith
groups_fit (suc j) (suc k) value h = ground (arith, groups_fit j k (value / 128))
