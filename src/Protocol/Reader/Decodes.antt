-- ===== src/Protocol/Reader/Decodes.antt =====
-- What it means for a read to decode bytes, and the rules by which decoders compose.
use cubic.Common.{ℕ, ◌+◌, ◌^◌, ◌≤◌, ◌<◌, String, ◌≡◌, sym, ap, ◌∙◌, arith}
use cubic.Common.{List, [], ◌∷◌, ◌++◌, append_assoc, length, drop, length-append, length-drop}
use cubic.Common.{some, take-length_append, drop-length_append, drop-drop, get_range}
use cubic.Common.Result.{Result, ok, err}
use cubic.Protocol.Error.{CodecError, unexpected_end}
use cubic.Common.Exec.{pure, lift, ◌>>=◌}
use cubic.Protocol.Reader.{CodecReader, Reader, read_bytes, read_byte_with_context}
use cubic.Protocol.Reader.{read_array}

-- the bytes that the cursor has not passed
abbrev pub unread : CodecReader → List ℕ
unread r = drop r.position r.input

-- A slice has less than 2 ^ 63 elements, and the cursor stays within it.
pub record IsValid (r : CodecReader) : Type 0 where
  pub within : r.position ≤ length r.input
  pub addressable : length r.input < 2 ^ 63

abbrev pub advance : ℕ → CodecReader → CodecReader
advance n r = record r { position = r.position + n }

-- Wherever the unread bytes start with `bytes`, `m` returns `a` and moves the cursor behind them.
pub record Decodes {A : Type 0} (m : Reader A) (bytes : List ℕ) (a : A) : Type 0 where
  pub at :
      (r : CodecReader) (rest : List ℕ)
      → IsValid r
      → unread r ≡ bytes ++ rest
      → m r ≡ (ok a, advance (length bytes) r)

module _ (r : CodecReader) (bytes rest : List ℕ) (v : IsValid r)
    (h : unread r ≡ bytes ++ rest) where
  pub fits : r.position + length bytes + length rest ≡ length r.input
  fits =
      omega (arith, ap length h, length-drop r.position r.input, length-append bytes rest, v.within)

  pub advance-IsValid : IsValid (advance (length bytes) r)
  advance-IsValid = record { within = omega (arith, fits); addressable = v.addressable }

  pub unread-advance : unread (advance (length bytes) r) ≡ rest
  unread-advance =
      sym (drop-drop r.position (length bytes) r.input)
      ∙ ap (drop (length bytes)) h
      ∙ drop-length_append bytes rest

pub advance_zero : (r : CodecReader) → r ≡ advance 0 r
advance_zero r =
    ap (λ k. record r { position = k }) (let e : r.position ≡ r.position + 0 = omega arith in e)

pub advance-advance : (m n : ℕ) (r : CodecReader) → advance n (advance m r) ≡ advance (m + n) r
advance-advance m n r =
    ap (λ k. record r { position = k })
      (let e : r.position + m + n ≡ r.position + (m + n) = omega arith in e)

pub Decodes-pure : {A : Type 0} (a : A) → Decodes (pure a) [] a
Decodes-pure a = record { at = λ r rest v h. ap (λ s. (ok a, s)) (advance_zero r) }

module _ {A B : Type 0} (m : Reader A) (f : A → Reader B) where
  pub Decodes-bind :
      (front back : List ℕ) (a : A) (b : B)
      → Decodes m front a
      → Decodes (f a) back b
      → Decodes (m >>= f) (front ++ back) b
  Decodes-bind front back b' b dm df = record {
    at = λ r rest v h.
        let there : unread r ≡ front ++ (back ++ rest) = h ∙ append_assoc front back rest in
        rw (dm.at r (back ++ rest) v there) (
          df.at (advance (length front) r) rest (advance-IsValid r front (back ++ rest) v there)
            (unread-advance r front (back ++ rest) v there)
          ∙ ap (λ s. (ok b, s))
              (advance-advance (length front) (length back) r
                ∙ ap (λ k. advance k r) (sym (length-append front back))));
  }

pub Decodes-map :
    {A B : Type 0} (m : Reader A) (f : A → B) (bytes : List ℕ) (a : A)
    → Decodes m bytes a
    → Decodes (m >>= λ x. pure (f x)) bytes (f a)
Decodes-map m f bytes a d = record { at = λ r rest v h. rw (d.at r rest v h) }

pub Decodes-lift :
    {A B : Type 0} (m : Reader A) (f : A → Result B CodecError) (bytes : List ℕ) (a : A) (b : B)
    → Decodes m bytes a
    → f a ≡ ok b
    → Decodes (m >>= λ x. lift (f x)) bytes b
Decodes-lift m f bytes a b d e = record { at = λ r rest v h. rw (d.at r rest v h, e) }

-- the part of a slice that the cursor stands before
module _ (r : CodecReader) (bytes rest : List ℕ) (v : IsValid r)
    (h : unread r ≡ bytes ++ rest) where
  pub get_range_ahead : get_range r.input r.position (r.position + length bytes) ≡ some bytes
  get_range_ahead = ground (arith, fits r bytes rest v h, take-length_append bytes rest)

pub read_bytes-Decodes :
    (context : String) (bytes : List ℕ) → Decodes (read_bytes (length bytes) context) bytes bytes
unfolding read_bytes
read_bytes-Decodes context bytes = record {
  at = λ r rest v h. ground (arith, fits r bytes rest v h, get_range_ahead r bytes rest v h);
}

pub read_byte-Decodes :
    (context : String) (byte : ℕ) → Decodes (read_byte_with_context context) (byte ∷ []) byte
unfolding read_byte_with_context
read_byte-Decodes context byte =
    Decodes-bind (read_bytes 1 context) _ (byte ∷ []) [] (byte ∷ []) byte
      (read_bytes-Decodes context (byte ∷ [])) (Decodes-pure byte)

pub read_array-Decodes :
    (context : String) (bytes : List ℕ) → Decodes (read_array (length bytes) context) bytes bytes
unfolding read_array
read_array-Decodes context bytes = record {
  at = λ r rest v h. ground (arith, (read_bytes-Decodes context bytes).at r rest v h);
}

pub read_byte_at_end :
    (context : String) (r : CodecReader)
    → IsValid r
    → unread r ≡ []
    → read_byte_with_context context r ≡ (err (unexpected_end context 1 0), r)
unfolding read_byte_with_context
read_byte_at_end context r v h =
    let done : length r.input ≡ r.position =
      omega (arith, ap length h, length-drop r.position r.input, v.within) in
    ground (arith, done)
