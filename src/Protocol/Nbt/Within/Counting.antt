-- ===== src/Protocol/Nbt/Within/Counting.antt =====
-- What it means for a step of the decoder of tags to count the tags that it makes, and the rules by
-- which the steps compose.
use cubic.Common.{ℕ, ◌+◌, ◌≤◌, ◌≡◌, refl, ap, subst, ◌∙◌, arith, inl, inr}
use cubic.Common.Result.{Result, ok, err, Result-cases, ok_injective}
use cubic.Common.Exec.{pure, go_on, lift, ◌>>=◌}
use cubic.Protocol.Reader.{CodecReader}
use cubic.Protocol.Nbt.Error.{NbtError}
use cubic.Protocol.Nbt.Usage.{Usage}
use cubic.Protocol.Nbt.Decode.{Decode}

-- The count of tags stays within `max`, also where the step fails. A value that the step returns
-- has the property, and it has cost what the count has grown by and the `credit`, or less.
pub record Counts {A : Type 0} (max : ℕ) (m : Decode A) (credit : ℕ) (cost : A → ℕ) (P : A → Type 0)
    : Type 0 where
  pub within : (r : CodecReader) (u : Usage) → u.total_tags ≤ max → (m (r, u)).1.1.total_tags ≤ max
  pub counted :
      (r : CodecReader) (u : Usage) (a : A)
      → (m (r, u)).0 ≡ ok a
      → (u.total_tags + cost a ≤ (m (r, u)).1.1.total_tags + credit) × P a

-- the step leaves the count as it was
abbrev pub Quiet : {A : Type 0} → Decode A → Type 0
Quiet m = (r : CodecReader) (u : Usage) → (m (r, u)).1.1.total_tags ≡ u.total_tags

pub Quiet-bind :
    {A B : Type 0} (m : Decode A) (f : A → Decode B)
    → Quiet m
    → ((a : A) → Quiet (f a))
    → Quiet (m >>= f)
Quiet-bind m f h k r u = elim (Result-cases (m (r, u)).0) [
  | inl (a, e) ↦ rw e (k a (m (r, u)).1.0 (m (r, u)).1.1 ∙ h r u)
  | inr (x, e) ↦ rw e (h r u)
]

went_well :
    {A B : Type 0} (x : Result A NbtError) (f : A → Decode B) (s : CodecReader × Usage) (b : B)
    → (go_on f x s).0 ≡ ok b
    → (a : A) × (x ≡ ok a) × ((f a s).0 ≡ ok b)
went_well (ok a) f s b e = (a, refl, e)
went_well (err x) f s b e = ground (arith, e)

module _ {A B : Type 0} (max : ℕ) (m : Decode A) (f : A → Decode B) where
  pub Counts-bind :
      (n : ℕ) (c : A → ℕ) (P : A → Type 0) (d : B → ℕ) (Q : B → Type 0)
      → Counts max m n c P
      → ((a : A) → P a → Counts max (f a) (c a) d Q)
      → Counts max (m >>= f) n d Q
  Counts-bind n c P d Q h k = record {
    within = λ r u w. elim (Result-cases (m (r, u)).0) [
      | inl (a, e) ↦
          rw e ((k a (h.counted r u a e).1).within (m (r, u)).1.0 (m (r, u)).1.1 (h.within r u w))
      | inr (x, e) ↦ rw e (h.within r u w)
    ];
    counted = λ r u b e.
        let (a, p, q) = went_well (m (r, u)).0 f (m (r, u)).1 b e in
        let (grown, holds) = h.counted r u a p in
        let (later, kept) = (k a holds).counted (m (r, u)).1.0 (m (r, u)).1.1 b q in
        rw p (omega (arith, grown, later), kept);
  }

module _ {B : Type 0} (max n : ℕ) (d : B → ℕ) (Q : B → Type 0) where
  pub Counts-pure : (b : B) → d b ≤ n → Q b → Counts max (pure b) n d Q
  Counts-pure b h q = record {
    within = λ r u w. w;
    counted =
        λ r u a e. let same = ok_injective b a e in (omega (arith, h, ap d same), subst Q same q);
  }

  -- behind a step that leaves the count as it was
  pub Counts-then :
      {A : Type 0} (m : Decode A) (f : A → Decode B)
      → Quiet m
      → ((a : A) → Counts max (f a) n d Q)
      → Counts max (m >>= f) n d Q
  Counts-then m f h k =
      Counts-bind max m f n (λ a. n) (λ a. Unit {0}) d Q
        (record {
          within = λ r u w. rw (h r u) w;
          counted = λ r u a e. (rw (h r u) (omega arith), tt);
        })
        (λ a t. k a)

  -- behind a value that does not touch the reader
  pub Counts-lift :
      {A : Type 0} (x : Result A NbtError) (f : A → Decode B)
      → ((a : A) → x ≡ ok a → Counts max (f a) n d Q)
      → Counts max (lift x >>= f) n d Q
  Counts-lift x f k =
      Counts-bind max (lift x) f n (λ a. n) (λ a. x ≡ ok a) d Q
        (record { within = λ r u w. w; counted = λ r u a e. (omega arith, e) }) k

  -- a value that does not touch the reader, at the end
  pub Counts-lifted :
      (x : Result B NbtError) → ((b : B) → x ≡ ok b → (d b ≤ n) × Q b) → Counts max (lift x) n d Q
  Counts-lifted x k = record {
    within = λ r u w. w;
    counted = λ r u b e. let (c, q) = k b e in (omega (arith, c), q);
  }

  pub Counts-more :
      (m : Decode B) (k credit : ℕ)
      → n + k ≤ credit
      → Counts max m n d Q
      → Counts max m credit (λ b. d b + k) Q
  Counts-more m k credit l h = record {
    within = h.within;
    counted = λ r u b e. let (c, q) = h.counted r u b e in (omega (arith, c, l), q);
  }

  pub Counts-credit : (m : Decode B) (k : ℕ) → n ≤ k → Counts max m n d Q → Counts max m k d Q
  Counts-credit m k l h = record {
    within = h.within;
    counted = λ r u b e. let (c, q) = h.counted r u b e in (omega (arith, c, l), q);
  }
