-- ===== src/Network/SecureChat/Order.antt =====
-- Incoming messages are accepted in the order of their indices, each once.
use cubic.Common.{
  ℕ, zero, suc, ◌+◌, ◌<◌, ◌≡◌, refl, ap, ◌∙◌, arith, Bool, Option, some, none, Bool-cases,
  Option-cases, inl, inr,
}
use cubic.Common.{List, [], ◌∷◌, ◌++◌, length, length-append, length-drop, drop, if◌then◌else◌}
use cubic.Common.Int.{ℤ, pos, beq_ℤ, beq_ℤ_iff}
use cubic.Common.Result.{Result, ok, err, Result-cases}
use cubic.Network.SecureChat.{
  MessageSignature, SecureChatError, SecureChatSequence, LastSeenTracker, checked_suc, counted,
  is_last, add, advanced, advance_incoming_index, note_seen, accept_incoming,
}

-- a signed message as it arrives
pub record Incoming : Type 0 where
  pub index : ℤ
  pub signature : Option MessageSignature
  pub displayed : Bool

-- the messages one after the other, up to the first that is refused
unfoldable pub accept_all :
    List Incoming → SecureChatSequence → Result (Unit {0}) SecureChatError × SecureChatSequence
accept_all [] s = (ok tt, s)
accept_all (m ∷ ms) s = elim (accept_incoming m.index m.signature m.displayed s).0 [
  | ok done ↦ accept_all ms (accept_incoming m.index m.signature m.displayed s).1
  | err e ↦ (err e, (accept_incoming m.index m.signature m.displayed s).1)
]

length-add :
    (signature : MessageSignature) (displayed : Bool) (t : LastSeenTracker)
    → 0 < length t.entries
    → length (add signature displayed t).1.entries ≡ length t.entries
unfolding add counted
length-add signature displayed t h = elim (Bool-cases (is_last t.last_added signature)) [
  | inl last ↦ rw last refl
  | inr other ↦
      let size =
        length-append (drop 1 t.entries) ((if displayed then some signature else none) ∷ []) in
      let kept : length (drop 1 t.entries ++ ((if displayed then some signature else none) ∷ []))
          ≡ length t.entries =
        omega (arith, size, length-drop 1 t.entries) in
      elim (Option-cases (checked_suc t.offset)) [
        | inl e ↦ rw (other, e) kept
        | inr (z, e) ↦ rw (other, e) kept
      ]
]

-- what a message that is accepted does to the sequence
abbrev Next : ℤ → SecureChatSequence → SecureChatSequence → Type 0
Next index s t =
    (index ≡ s.next_incoming_index)
    × ((some t.next_incoming_index ≡ checked_suc s.next_incoming_index)
        × (length t.last_seen.entries ≡ length s.last_seen.entries))

note_seen_lem :
    (signature : Option MessageSignature) (displayed : Bool) (s : SecureChatSequence)
    → 0 < length s.last_seen.entries
    → ((note_seen signature displayed s).1.next_incoming_index ≡ s.next_incoming_index)
      × (length (note_seen signature displayed s).1.last_seen.entries ≡ length s.last_seen.entries)
unfolding note_seen
note_seen_lem none displayed s h = (refl, refl)
note_seen_lem (some signature) displayed s h = (refl, length-add signature displayed s.last_seen h)

accepted :
    (m : Incoming) (s : SecureChatSequence)
    → 0 < length s.last_seen.entries
    → (accept_incoming m.index m.signature m.displayed s).0 ≡ ok tt
    → Next m.index s (accept_incoming m.index m.signature m.displayed s).1
unfolding accept_incoming advance_incoming_index advanced
accepted m s h e = elim (Bool-cases (beq_ℤ m.index s.next_incoming_index)) [
  | inr other ↦ let bad = rw other at e in cc
  | inl same ↦ elim (Option-cases (checked_suc s.next_incoming_index)) [
    | inl over ↦ let bad = rw (same, over) at e in cc
    | inr (next, more) ↦
        let (index, size) =
          note_seen_lem m.signature m.displayed (record s { next_incoming_index = next }) h in
        rw (same, more) ((beq_ℤ_iff m.index s.next_incoming_index).0 same, (ap some index, size))
  ]
]

-- n, n + 1, ..., as many as `count`
abbrev pub consecutive : ℕ → ℕ → List ℤ
consecutive n zero = []
consecutive n (suc count) = pos n ∷ consecutive (n + 1) count

abbrev pub indices : List Incoming → List ℤ
indices [] = []
indices (m ∷ ms) = m.index ∷ indices ms

-- what a run of accepted messages tells of their indices and leaves behind
abbrev pub InOrder : List Incoming → ℕ → SecureChatSequence → SecureChatSequence → Type 0
InOrder ms n s t =
    (indices ms ≡ consecutive n (length ms))
    × ((t.next_incoming_index ≡ pos (n + length ms))
        × (length t.last_seen.entries ≡ length s.last_seen.entries))

successor : (n : ℕ) (next : ℤ) → some next ≡ checked_suc (pos n) → next ≡ pos (n + 1)
unfolding checked_suc
successor n next e = ground (arith, e)

-- Where a sequence whose window of the signatures seen last is not empty, and whose expected index
-- is not negative, accepts all of some messages, their indices are consecutive from the one it
-- expected, so none is missing, repeated or out of order; it then expects the next one, and the
-- window has the size it had.
pub accept_all-InOrder :
    (ms : List Incoming) (n : ℕ) (s : SecureChatSequence)
    → 0 < length s.last_seen.entries
    → s.next_incoming_index ≡ pos n
    → (accept_all ms s).0 ≡ ok tt
    → InOrder ms n s (accept_all ms s).1
unfolding accept_all
accept_all-InOrder [] n s h at e =
    (refl, (at ∙ ap pos (let z : n ≡ n + 0 = omega arith in z), refl))
accept_all-InOrder (m ∷ ms) n s h at e =
    elim (Result-cases (accept_incoming m.index m.signature m.displayed s).0) [
      | inr (x, f) ↦ let bad = rw (f, accept_all) at e in cc
      | inl (done, f) ↦
          let t = (accept_incoming m.index m.signature m.displayed s).1 in
          let (index, (more, size)) = accepted m s h f in
          let next = successor n t.next_incoming_index (more ∙ ap checked_suc at) in
          let (order, (behind, kept)) =
            accept_all-InOrder ms (n + 1) t (omega (arith, size, h)) next
              (rw (f, accept_all) at e) in
          rw (f, accept_all)
            (
              rw (index ∙ at, order) refl,
              (
                behind
                    ∙ ap pos (let z : n + 1 + length ms ≡ n + suc (length ms) = omega arith in z),
                kept ∙ size,
              ),
            )
    ]
