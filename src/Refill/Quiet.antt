-- ===== src/Refill/Quiet.antt =====
-- What `Refill` of go/rail/rail.go leaves alone before its attempt.
use juice_rail.Base.{Option}
use juice_rail.Base.Int.{ℤ}
use juice_rail.Policy.{PolicyInput, Decision, execute, ask_quote, refill, wait}
use juice_rail.Fees.{Price}
use juice_rail.Machine.{Rail}
use juice_rail.Quiet.{Quiet}
use juice_rail.Quiet.Rules.{quiet_rules}
use juice_rail.Quiet.Writes.{safe_rules}
use juice_rail.Venue.Quiet.{venue_rules}
use juice_rail.Pay.Quiet.{Quiet-simulate, Quiet-next_nonce, Quiet-policy_input}
use juice_rail.Refill.{requote, record_refill, prepare_refill}

module _ (r : Rail) where
  Quiet-requote : (input : PolicyInput) (d : Decision) → Quiet (requote r input d)
  unfolding requote
  Quiet-requote input execute = search quiet_rules
  Quiet-requote input (ask_quote delta) = search (quiet_rules, venue_rules)
  Quiet-requote input (refill delta m) = search quiet_rules
  Quiet-requote input (wait why) = search quiet_rules

  Quiet-record_refill : (p : Price) (delta m : ℤ) → Quiet (record_refill r p delta m)
  unfolding record_refill
  Quiet-record_refill p delta m =
      search (quiet_rules, safe_rules, venue_rules, Quiet-simulate, Quiet-next_nonce) depth 12

  pub Quiet-prepare_refill : (p : Price) (reserve : Option ℤ) → Quiet (prepare_refill r p reserve)
  unfolding prepare_refill
  Quiet-prepare_refill p reserve =
      search (quiet_rules, Quiet-policy_input, Quiet-requote, Quiet-record_refill) depth 12
