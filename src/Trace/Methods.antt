-- ===== src/Trace/Methods.antt =====
-- What each method that sends does to the world: `Send`, `Retry`, `WithdrawAll`, `Refill` and `Pay` of
-- go/rail/rail.go.
use juice_rail.Base.{ℕ, ◌≡◌, refl, inl, inr, Option, none, some, List}
use juice_rail.Base.Int.{ℤ}
use juice_rail.Base.Lists.{last?}
use juice_rail.Base.Error.{Result, ok, err, need_refill}
use juice_rail.Intent.{Intent, Submission}
use juice_rail.Store
use juice_rail.Fees.{fees, Price}
use juice_rail.Quiet.{Quiet, Calm, Calm-refl}
use juice_rail.Quiet.Rules.{quiet_rules, Quiet-sql, Quiet-caught}
use juice_rail.Quiet.Writes.{safe_rules, Safe-submissions}
use juice_rail.Pay.Quiet.{
  Quiet-fees, Quiet-prepare, Quiet-ready, Quiet-balances, Quiet-record_payment,
}
use juice_rail.Refill.Quiet.{Quiet-prepare_refill}
use juice_rail.Machine.{Rail, World, M, continue, caught, pure, sql, on_option, ◌>>=◌}
use juice_rail.Attempt.{submit, send_live, send, retry, unresolved, fresh, raised}
use juice_rail.Pay.{prepare, withdraw_all}
use juice_rail.Refill.{refill_gas, pay_after, pay}
use juice_rail.Trace.{Moves, Moves-Calm, Moves-after}
use juice_rail.Trace.Attempts.{last_recorded}
use juice_rail.Trace.Submit.{Moves-submit}

module _ {A B : Type 0} (r : Rail) (w v : World r.chain.Node) (calm : Calm w v)
    (f : A → M r.chain.Node B) where
  followed :
      (res : Result A)
      → ((a : A) → res ≡ ok a → Moves r v (f a v).1)
      → Moves r w (continue res f v).1
  followed (ok a) h = Moves-after r w v calm (f a v).1 (h a refl)
  followed (err e) h = Moves-Calm r w v calm

-- A quiet action first, and then one that moves.
Moves-bind :
    {A B : Type 0} (r : Rail) (m : M r.chain.Node A) (f : A → M r.chain.Node B)
    (w : World r.chain.Node)
    → Quiet m
    → ((a : A) → (m w).0 ≡ ok a → Moves r (m w).1 (f a (m w).1).1)
    → Moves r w ((m >>= f) w).1
Moves-bind r m f w q h = followed r w (m w).1 (q.at w) f (m w).0 h

-- Wherever it starts, the action moves, in the sense of `Moves`.
pub record Active {A : Type 0} (r : Rail) (m : M r.chain.Node A) : Type 0 where
  pub at : (w : World r.chain.Node) → Moves r w (m w).1

pub Active-Quiet : {A : Type 0} (r : Rail) (m : M r.chain.Node A) → Quiet m → Active r m
Active-Quiet r m q = record { at = λ w. Moves-Calm r w (m w).1 (q.at w) }

module _ {A B : Type 0} (r : Rail) where
  pub Active-bind :
      (m : M r.chain.Node A) (f : A → M r.chain.Node B)
      → Quiet m
      → ((a : A) → Active r (f a))
      → Active r (m >>= f)
  Active-bind m f q h = record { at = λ w. Moves-bind r m f w q (λ a k. (h a).at (m w).1) }

  -- What was there to find is handed on.
  Active-option :
      (o : Option A) (b : B) (f : A → M r.chain.Node B)
      → ((a : A) → Active r (f a))
      → Active r (on_option o (pure b) f)
  Active-option none b f h = record { at = λ w. Moves-Calm r w w (Calm-refl w) }
  Active-option (some a) b f h = h a

  module _ (u : World r.chain.Node) (g : A → B) where
    handed :
        (res : Result A) (v : World r.chain.Node)
        → Moves r u v
        → Moves r u (continue res (λ a. pure (g a)) v).1
    handed (ok a) v m = m
    handed (err e) v m = m

  Active-pure : (m : M r.chain.Node A) (g : A → B) → Active r m → Active r (m >>= λ a. pure (g a))
  Active-pure m g h = record { at = λ w. handed w g (m w).0 (m w).1 (h.at w) }

ruleset active_rules = (Active-bind, Active-option, Active-pure)

module _ (r : Rail) where
  Quiet-unresolved : (id : ℕ) → Quiet (unresolved r id)
  unfolding unresolved
  Quiet-unresolved id = search (quiet_rules, safe_rules) depth 12

  -- An attempt that is made anew is given the hash of zeros.
  Moves-submit_new :
      (i : Intent) (s : Submission) (w : World r.chain.Node)
      → s.tx_hash ≡ 0
      → Moves r w (submit r i s w).1
  Moves-submit_new i s w e = Moves-submit r i s w (inr e)

  Moves-send_live :
      (i : Intent) (id : ℕ) (w : World r.chain.Node) (subs : List Submission)
      (o : Option Submission)
      → (sql (Store.submissions r.address id) w).0 ≡ ok subs
      → last? subs ≡ o
      → Moves r
          (sql (Store.submissions r.address id) w).1
          (send_live r i o (sql (Store.submissions r.address id) w).1).1
  unfolding send_live fresh sql
  Moves-send_live i id w subs none h e =
      Moves-bind r (fees r.chain) _ _ (Quiet-fees r)
        λ price k. Moves-submit_new i (fresh r i price) _ refl
  Moves-send_live i id w subs (some l) h e = Moves-submit r i l _ (
      inl (
        rw (((Safe-submissions r.address id).at w.store).submissions)
          (last_recorded r.address id w.store subs l h e)))

  Active-submit_new : (i : Intent) (s : Submission) → s.tx_hash ≡ 0 → Active r (submit r i s)
  Active-submit_new i s e = record { at = λ w. Moves-submit_new i s w e }

  Active-send_live :
      (i : Intent) (id : ℕ)
      → Active r (sql (Store.submissions r.address id) >>= λ subs. send_live r i (last? subs))
  Active-send_live i id = record {
    at = λ w.
        Moves-bind r (sql (Store.submissions r.address id)) (λ subs. send_live r i (last? subs)) w
          (Quiet-sql _ (Safe-submissions r.address id))
          (λ subs h. Moves-send_live i id w subs (last? subs) h refl);
  }

  pub Active-send : (id : ℕ) → Active r (send r id)
  unfolding send
  Active-send id = search (active_rules, Quiet-unresolved, Active-send_live) depth 9

  Active-raised :
      (i : Intent) (p : Price) (o : Option Submission)
      → Active r (submit r i (raised (fresh r i p) o))
  unfolding raised fresh
  Active-raised i p none = Active-submit_new i _ refl
  Active-raised i p (some l) = Active-submit_new i _ refl

  pub Active-retry : (id : ℕ) → Active r (retry r id)
  unfolding retry
  Active-retry id =
      search (active_rules, quiet_rules, safe_rules, Quiet-unresolved, Quiet-fees, Active-raised)
        depth 12

  pub Active-refill_gas : (reserve : Option ℤ) → Active r (refill_gas r reserve)
  unfolding refill_gas
  Active-refill_gas reserve =
      search (active_rules, Quiet-ready, Quiet-fees, Quiet-prepare_refill, Active-submit_new) depth
        12

  Active-pay_after :
      (id : ℕ) (amount : Option ℤ) (res : Result (Unit {0})) → Active r (pay_after r id amount res)
  unfolding pay_after
  Active-pay_after id amount (ok u) = search (active_rules, Active-send) depth 9
  Active-pay_after id amount (err need_refill) = search (active_rules, Active-refill_gas) depth 9
  Active-pay_after id amount (err e) = Active-Quiet r _ (search quiet_rules)

  pub Active-pay : (id kind to : ℕ) (amount : Option ℤ) → Active r (pay r id kind to amount)
  unfolding pay
  Active-pay id kind to amount =
      Active-bind r (caught (prepare r id kind to amount)) _
        (Quiet-caught _ (Quiet-prepare r id kind to amount)) (Active-pay_after id amount)

  pub Active-withdraw_all : (id to : ℕ) → Active r (withdraw_all r id to)
  unfolding withdraw_all
  Active-withdraw_all id to =
      search
        (
          active_rules, quiet_rules, safe_rules, Quiet-ready, Quiet-fees, Quiet-balances,
          Quiet-record_payment, Active-submit_new,
        )
        depth 20
