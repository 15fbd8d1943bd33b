-- ===== src/Network/SecureChat.antt =====
-- secure_chat.rs: the order of signed messages, and the window of those that were seen last. A
-- signature is its bytes. Whether a message is displayed is the answer of the callback.
pub mod Order
use cubic.Common.{ℕ, zero, suc, ◌+◌, ◌-◌, ◌^◌, Bool, true, false, not, ◌&&◌, Option, some, none}
use cubic.Common.{List, [], ◌∷◌, ◌++◌, length, drop, ltb, ◌==◌, if◌then◌else◌}
use cubic.Common.Int.{ℤ, pos, negsuc, beq_ℤ, leb_ℤ}
use cubic.Common.Result.{Result, ok, err}
use cubic.Common.Exec.{Exec, pure, raise, ◌>>=◌, ◌>>◌}

abbrev pub MessageSignature : Type 0
MessageSignature = List ℕ

pub record SecureChatRules : Type 0 where
  pub chain_version : ℤ
  pub last_seen_capacity : ℕ
  pub standalone_acknowledgement_threshold : ℤ

-- The error of the certificate's own signing is left out, and nothing here signs.
pub data SecureChatError : Type 0 where
  expired_certificate : SecureChatError
  incompatible_acknowledgement_window : SecureChatError
  incoming_sequence : (expected received : ℤ) → SecureChatError
  numeric_range : SecureChatError

pub record LastSeenTracker : Type 0 where
  pub entries : List (Option MessageSignature)
  pub last_added : Option MessageSignature
  pub offset : ℤ

no_entries : ℕ → List (Option MessageSignature)
no_entries zero = []
no_entries (suc capacity) = none ∷ no_entries capacity

unfoldable pub new_tracker : ℕ → LastSeenTracker
unfolding no_entries
new_tracker capacity = record { entries = no_entries capacity; last_added = none; offset = pos 0 }

-- `checked_add(1)` on i32
unfoldable pub checked_suc : ℤ → Option ℤ
checked_suc (pos n) = if ltb (n + 1) (2 ^ 31) then some (pos (n + 1)) else none
checked_suc (negsuc zero) = some (pos 0)
checked_suc (negsuc (suc n)) = some (negsuc n)

same_bytes : List ℕ → List ℕ → Bool
same_bytes [] [] = true
same_bytes (a ∷ xs) (b ∷ ys) = a == b && same_bytes xs ys
same_bytes xs ys = false

is_last : Option MessageSignature → MessageSignature → Bool
unfolding same_bytes
is_last none signature = false
is_last (some last) signature = same_bytes last signature

counted : Option ℤ → LastSeenTracker → Result (Unit {0}) SecureChatError × LastSeenTracker
counted none t = (err numeric_range, t)
counted (some offset) t = (ok tt, record t { offset = offset })

unfoldable pub add : MessageSignature → Bool → Exec LastSeenTracker SecureChatError (Unit {0})
unfolding counted is_last
add signature displayed t =
    if is_last t.last_added signature
    then (ok tt, t)
    else counted (checked_suc t.offset) (record t {
      last_added = some signature;
      entries = drop 1 t.entries ++ ((if displayed then some signature else none) ∷ []);
    })

unfoldable pub take_offset : LastSeenTracker → ℤ × LastSeenTracker
take_offset t = (t.offset, record t { offset = pos 0 })

pub record SecureChatSequence : Type 0 where
  pub session : List ℕ
  pub next_outgoing_index : ℤ
  pub next_incoming_index : ℤ
  pub last_seen : LastSeenTracker

unfoldable pub new_sequence : List ℕ → ℕ → SecureChatSequence
new_sequence session capacity = record {
  session = session;
  next_outgoing_index = pos 0;
  next_incoming_index = pos 0;
  last_seen = new_tracker capacity;
}

-- `reset` starts a sequence anew
unfoldable pub reset : List ℕ → ℕ → SecureChatSequence → SecureChatSequence
reset session capacity s = new_sequence session capacity

advanced : Option ℤ → SecureChatSequence → Result (Unit {0}) SecureChatError × SecureChatSequence
advanced none s = (err numeric_range, s)
advanced (some next) s = (ok tt, record s { next_incoming_index = next })

unfoldable pub advance_incoming_index : ℤ → Exec SecureChatSequence SecureChatError (Unit {0})
unfolding advanced
advance_incoming_index received s =
    if beq_ℤ received s.next_incoming_index
    then advanced (checked_suc s.next_incoming_index) s
    else (err (incoming_sequence s.next_incoming_index received), s)

unfoldable pub note_seen :
    Option MessageSignature → Bool → Exec SecureChatSequence SecureChatError (Unit {0})
note_seen none displayed s = (ok tt, s)
note_seen (some signature) displayed s = (
  (add signature displayed s.last_seen).0,
  record s { last_seen = (add signature displayed s.last_seen).1 },
)

unfoldable pub accept_incoming :
    ℤ → Option MessageSignature → Bool → Exec SecureChatSequence SecureChatError (Unit {0})
accept_incoming index signature displayed = do
  advance_incoming_index index
  note_seen signature displayed

unfoldable pub standalone_acknowledgement :
    SecureChatRules → SecureChatSequence → Option ℤ × SecureChatSequence
standalone_acknowledgement rules s =
    if leb_ℤ s.last_seen.offset rules.standalone_acknowledgement_threshold
    then (none, s)
    else (some (take_offset s.last_seen).0, record s { last_seen = (take_offset s.last_seen).1 })
