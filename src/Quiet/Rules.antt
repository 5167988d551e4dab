-- ===== src/Quiet/Rules.antt =====
-- One rule for each way to build an action.
use juice_rail.Base.{Bool, true, false, Option, none, some, if◌then◌else◌, refl}
use juice_rail.Base.Error.{Error, Result, ok, err}
use juice_rail.Sql.{Sql}
use juice_rail.Machine.{World, M, pure, fail, lift, sql, ask, caught, continue, on_option, ◌>>=◌}
use juice_rail.Quiet.{Safe, Calm, Calm-refl, Calm-trans, Careful-refl, Quiet}

module _ {ℓ} {N : Type 0} {A : Type ℓ} where
  pub Quiet-pure : (a : A) → Quiet {N = N} (pure a)
  Quiet-pure a = record { at = λ w. Calm-refl w }

  pub Quiet-fail : (e : Error) → Quiet {N = N} {A = A} (fail e)
  Quiet-fail e = record { at = λ w. Calm-refl w }

  pub Quiet-lift : (r : Result A) → Quiet {N = N} (lift r)
  Quiet-lift r = record { at = λ w. Calm-refl w }

  pub Quiet-sql : (m : Sql A) → Safe m → Quiet {N = N} (sql m)
  unfolding sql
  Quiet-sql m s = record { at = λ w. record { sent = refl; tables = s.at w.store } }

  pub Quiet-ask : (m : N → Result A × N) → Quiet (ask m)
  unfolding ask
  Quiet-ask m = record { at = λ w. record { sent = refl; tables = Careful-refl w.store.tables } }

  pub Quiet-caught : (m : M N A) → Quiet m → Quiet (caught m)
  Quiet-caught m q = record { at = λ w. q.at w }

  pub Quiet-if : (b : Bool) (m n : M N A) → Quiet m → Quiet n → Quiet (if b then m else n)
  Quiet-if true m n p q = p
  Quiet-if false m n p q = q

module _ {ℓ κ} {N : Type 0} {A : Type ℓ} {B : Type κ} where
  continued :
      (r : Result A) (f : A → M N B) (w : World N)
      → ((a : A) → Quiet (f a))
      → Calm w (continue r f w).1
  continued (ok a) f w q = (q a).at w
  continued (err e) f w q = Calm-refl w

  pub Quiet-bind : (m : M N A) (f : A → M N B) → Quiet m → ((a : A) → Quiet (f a)) → Quiet (m >>= f)
  Quiet-bind m f p q = record {
    at = λ w. Calm-trans w (m w).1 _ (p.at w) (continued (m w).0 f (m w).1 q);
  }

  pub Quiet-option :
      (o : Option A) (m : M N B) (f : A → M N B)
      → Quiet m
      → ((a : A) → Quiet (f a))
      → Quiet (on_option o m f)
  Quiet-option none m f p q = p
  Quiet-option (some a) m f p q = q a

pub ruleset quiet_rules = (
  Quiet-pure, Quiet-fail, Quiet-lift, Quiet-sql, Quiet-ask, Quiet-caught, Quiet-if, Quiet-bind,
  Quiet-option,
)
