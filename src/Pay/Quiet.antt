-- ===== src/Pay/Quiet.antt =====
-- What `Prepare` of go/rail/rail.go, and what it calls, send and leave alone.
use juice_rail.Base.{ℕ, ◌≡◌, refl, Option, Bool, true, false, if◌then◌else◌}
use juice_rail.Base.Int.{ℤ}
use juice_rail.Base.Lists.{Bytes}
use juice_rail.Base.Error.{ok}
use juice_rail.Machine.{Rail, World, ◌>>◌}
use juice_rail.Quiet.{Quiet, Calm, Calm-refl, Careful-refl}
use juice_rail.Quiet.Rules.{quiet_rules, Quiet-bind}
use juice_rail.Quiet.Writes.{safe_rules}
use juice_rail.Venue.Quiet.{venue_rules}
use juice_rail.Check.Quiet.{Quiet-check_chain}
use juice_rail.Check.{check_chain}
use juice_rail.Settle.Quiet.{Quiet-settled_header, Quiet-settle, Quiet-reconcile}
use juice_rail.Fees.{fees}
use juice_rail.Pay.{
  mark_checked, check_once, ready, simulate, next_nonce, record_payment, balances, policy_input,
  prepare_new, prepare,
}

module _ (r : Rail) where
  Quiet-mark : Quiet (mark_checked {N = r.chain.Node})
  unfolding mark_checked
  Quiet-mark = record { at = λ w. record { sent = refl; tables = Careful-refl w.store.tables } }

  Quiet-first_check : Quiet (check_chain r.chain r.domain >> mark_checked)
  Quiet-first_check =
      Quiet-bind (check_chain r.chain r.domain) _ (Quiet-check_chain r.chain r.domain)
        (λ u. Quiet-mark)

  checked :
      (b : Bool) (w : World r.chain.Node)
      → Calm w (if b then (ok tt, w) else (check_chain r.chain r.domain >> mark_checked) w).1
  checked true w = Calm-refl w
  checked false w = Quiet-first_check.at w

  Quiet-check_once : Quiet (check_once r)
  unfolding check_once
  Quiet-check_once = record { at = λ w. checked w.chain_checked w }

  pub Quiet-ready : Quiet (ready r)
  unfolding ready
  Quiet-ready =
      search (quiet_rules, safe_rules, venue_rules, Quiet-check_once, Quiet-reconcile, Quiet-settle)
        depth 9

  pub Quiet-fees : Quiet (fees r.chain)
  unfolding fees
  Quiet-fees = search (quiet_rules, safe_rules, venue_rules) depth 9

  pub Quiet-balances : Quiet (balances r)
  unfolding balances
  Quiet-balances = search (quiet_rules, venue_rules) depth 9

  pub Quiet-simulate : (to : ℕ) (payload : Bytes) (gas : ℕ) → Quiet (simulate r to payload gas)
  unfolding simulate
  Quiet-simulate to payload gas = search quiet_rules

  pub Quiet-next_nonce : Quiet (next_nonce r)
  unfolding next_nonce
  Quiet-next_nonce = search (quiet_rules, safe_rules, venue_rules, Quiet-settled_header) depth 9

  pub Quiet-record_payment :
      (id kind to : ℕ) (amount : ℤ) (head : ℕ) → Quiet (record_payment r id kind to amount head)
  unfolding record_payment
  Quiet-record_payment id kind to amount head =
      search (quiet_rules, safe_rules, venue_rules, Quiet-simulate, Quiet-next_nonce) depth 9

  pub Quiet-policy_input : (cap : ℤ) (pending : Option ℤ) → Quiet (policy_input r cap pending)
  unfolding policy_input
  Quiet-policy_input cap pending = search (quiet_rules, safe_rules, venue_rules) depth 12

  Quiet-prepare_new : (id kind to : ℕ) (amount : ℤ) → Quiet (prepare_new r id kind to amount)
  unfolding prepare_new
  Quiet-prepare_new id kind to amount =
      search
        (
          quiet_rules, safe_rules, venue_rules, Quiet-ready, Quiet-fees, Quiet-policy_input,
          Quiet-record_payment,
        )
        depth 14

  pub Quiet-prepare : (id kind to : ℕ) (amount : Option ℤ) → Quiet (prepare r id kind to amount)
  unfolding prepare
  Quiet-prepare id kind to amount =
      search (quiet_rules, safe_rules, venue_rules, Quiet-prepare_new) depth 9

-- `Prepare` hands no transaction to the node, whatever its arguments and however it ends: neither on
-- a shortage, nor where it asks for a refill, nor when it has recorded the intent.
prepare_sends_nothing :
    (r : Rail) (id kind to : ℕ) (amount : Option ℤ) (w : World r.chain.Node)
    → (prepare r id kind to amount w).1.sent ≡ w.sent
prepare_sends_nothing r id kind to amount w = ((Quiet-prepare r id kind to amount).at w).sent
