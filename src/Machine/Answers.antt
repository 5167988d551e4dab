-- ===== src/Machine/Answers.antt =====
-- What is known of an answer.
use juice_rail.Base.{◌≡◌, refl}
use juice_rail.Base.Error.{Result, ok, err}
use juice_rail.Machine.{World, M, lift, continue, ◌>>=◌}

-- What the action answers with, if it does not fail, has the property.
pub record Answers {N A : Type 0} (m : M N A) (P : A → Type 0) : Type 0 where
  pub at : (w : World N) (a : A) → (m w).0 ≡ ok a → P a

module _ {N A : Type 0} where
  Answers-lift : (res : Result A) → Answers {N = N} (lift res) (λ a. res ≡ ok a)
  Answers-lift res = record { at = λ w a h. h }

  Answers-any : (m : M N A) → Answers m (λ a. Unit)
  Answers-any m = record { at = λ w a h. tt }

module _ {N A B : Type 0} (P : A → Type 0) (m : M N A) (f : A → M N B) {Q : B → Type 0} where
  continued :
      (res : Result A) (w : World N) (b : B)
      → ((a : A) → res ≡ ok a → P a)
      → ((a : A) → P a → Answers (f a) Q)
      → (continue res f w).0 ≡ ok b
      → Q b
  continued (ok a) w b p q h = (q a (p a refl)).at w b h
  continued (err e) w b p q h = cc

  Answers-bind : Answers m P → ((a : A) → P a → Answers (f a) Q) → Answers (m >>= f) Q
  Answers-bind p q = record { at = λ w b h. continued (m w).0 (m w).1 b (p.at w) q h }

module _ {N A B : Type 0} (f : A → M N B) where
  answered :
      (res : Result A) (w : World N) (b : B)
      → (continue res f w).0 ≡ ok b
      → (a : A) × (res ≡ ok a) × (continue res f w ≡ f a w)
  answered (ok a) w b h = (a, refl, refl)
  answered (err e) w b h = cc

  -- A chain that answers has been answered at its first action, and goes on from there.
  pub first_answered :
      (m : M N A) (w : World N) (b : B)
      → ((m >>= f) w).0 ≡ ok b
      → (a : A) × ((m w).0 ≡ ok a) × ((m >>= f) w ≡ f a (m w).1)
  first_answered m w b h = answered (m w).0 (m w).1 b h
