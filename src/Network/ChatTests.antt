-- ===== src/Network/ChatTests.antt =====
-- The theorem on incoming messages at a concrete input, and runs of the window of signatures.
use cubic.Common.{◌≡◌, refl, arith, true, false, some, none, List, [], ◌∷◌}
use cubic.Common.Int.{pos, beq_ℤ}
use cubic.Common.Result.{err}
use cubic.Network.SecureChat.{
  SecureChatSequence, incoming_sequence, new_sequence, new_tracker, checked_suc, add,
  advance_incoming_index, note_seen, accept_incoming,
}
use cubic.Network.SecureChat.Order.{Incoming, accept_all, InOrder, accept_all-InOrder}

abbrev fresh : SecureChatSequence
fresh = new_sequence [] 3

-- two signed messages, of which the second is hidden, and one without a signature
abbrev three_messages : List Incoming
three_messages =
    record { index = pos 0; signature = some (1 ∷ 2 ∷ []); displayed = true }
    ∷ record { index = pos 1; signature = some (3 ∷ []); displayed = false }
    ∷ record { index = pos 2; signature = none; displayed = true }
    ∷ []

window :
    (accept_all three_messages fresh).1.last_seen.entries ≡ none ∷ some (1 ∷ 2 ∷ []) ∷ none ∷ []
unfolding accept_all new_sequence new_tracker accept_incoming advance_incoming_index note_seen add
    checked_suc beq_ℤ
window = refl

-- a message that was seen already is refused
repeated :
    (accept_incoming (pos 0) none true (accept_all three_messages fresh).1).0
    ≡ err (incoming_sequence (pos 3) (pos 0))
unfolding accept_all new_sequence new_tracker accept_incoming advance_incoming_index note_seen add
    checked_suc beq_ℤ
repeated = refl

incoming_example : InOrder three_messages 0 fresh (accept_all three_messages fresh).1
unfolding accept_all new_sequence new_tracker accept_incoming advance_incoming_index note_seen add
    checked_suc beq_ℤ
incoming_example = accept_all-InOrder three_messages 0 fresh (omega arith) refl refl
