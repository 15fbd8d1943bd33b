-- ===== src/Protocol/Nbt/Decode/Reads.antt =====
-- What it means for the decoder of tags to read bytes as a value, and the rules by which its steps
-- compose.
use cubic.Common.{ℕ, ◌≡◌, refl, sym, ap, ◌∙◌, subst, List, [], ◌++◌, append_assoc, length}
use cubic.Common.{length-append}
use cubic.Common.Result.{Result, ok}
use cubic.Common.Exec.{pure, lift, ◌>>=◌}
use cubic.Protocol.Reader.{CodecReader, Reader}
use cubic.Protocol.Reader.Decodes.{
  Decodes, IsValid, unread, advance, advance-IsValid, unread-advance, advance_zero, advance-advance,
}
use cubic.Protocol.Nbt.Usage.{Usage, Using}
use cubic.Protocol.Nbt.Decode.{Decode, on_usage, on_reader}

-- Wherever the unread bytes start with `bytes`, and `u` is used so far, `m` returns `a`, moves the
-- cursor behind the bytes, and `v` is used then.
pub record Reads {A : Type 0} (m : Decode A) (bytes : List ℕ) (u v : Usage) (a : A) : Type 0 where
  pub at :
      (r : CodecReader) (rest : List ℕ)
      → IsValid r
      → unread r ≡ bytes ++ rest
      → m (r, u) ≡ (ok a, (advance (length bytes) r, v))

module _ {A : Type 0} where
  pub Reads-pure : (a : A) (u : Usage) → Reads (pure a) [] u u a
  Reads-pure a u = record { at = λ r rest valid h. ap (λ s. (ok a, (s, u))) (advance_zero r) }

  pub Reads-reader :
      (m : Reader A) (bytes : List ℕ) (a : A) (u : Usage)
      → Decodes m bytes a
      → Reads (on_reader m) bytes u u a
  Reads-reader m bytes a u d = record { at = λ r rest valid h. rw (d.at r rest valid h) refl }

  pub Reads-usage :
      (m : Using A) (a : A) (u v : Usage) → m u ≡ (ok a, v) → Reads (on_usage m) [] u v a
  Reads-usage m a u v e = record {
    at = λ r rest valid h. rw e (ap (λ s. (ok a, (s, v))) (advance_zero r));
  }

  pub Reads-lift : (x : Result A _) (a : A) (u : Usage) → x ≡ ok a → Reads (lift x) [] u u a
  Reads-lift x a u e = record {
    at = λ r rest valid h. rw e (ap (λ s. (ok a, (s, u))) (advance_zero r));
  }

  pub Reads-bytes :
      (m : Decode A) (bytes bytes' : List ℕ) (u v : Usage) (a : A)
      → bytes ≡ bytes'
      → Reads m bytes u v a
      → Reads m bytes' u v a
  Reads-bytes m bytes bytes' u v a e d = subst (λ b. Reads m b u v a) e d

module _ {A B : Type 0} (m : Decode A) (f : A → Decode B) where
  pub Reads-bind :
      (front back : List ℕ) (u v w : Usage) (a : A) (b : B)
      → Reads m front u v a
      → Reads (f a) back v w b
      → Reads (m >>= f) (front ++ back) u w b
  Reads-bind front back u v w a b dm df = record {
    at = λ r rest valid h.
        let there : unread r ≡ front ++ (back ++ rest) = h ∙ append_assoc front back rest in
        rw (dm.at r (back ++ rest) valid there) (
          df.at (advance (length front) r) rest (advance-IsValid r front (back ++ rest) valid there)
            (unread-advance r front (back ++ rest) valid there)
          ∙ ap (λ s. (ok b, (s, w)))
              (advance-advance (length front) (length back) r
                ∙ ap (λ k. advance k r) (sym (length-append front back))));
  }

pub Reads-map :
    {A B : Type 0} (m : Decode A) (f : A → B) (bytes : List ℕ) (u v : Usage) (a : A)
    → Reads m bytes u v a
    → Reads (m >>= λ x. pure (f x)) bytes u v (f a)
Reads-map m f bytes u v a d = record { at = λ r rest valid h. rw (d.at r rest valid h) refl }
