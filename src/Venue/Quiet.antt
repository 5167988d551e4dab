-- ===== src/Venue/Quiet.antt =====
-- What the reads of go/rail/venue.go leave alone.
use juice_rail.Base.{ℕ, Option, List}
use juice_rail.Base.Int.{ℤ}
use juice_rail.Domain.{Domain}
use juice_rail.Chain.{Chain, Abi, Method, Value}
use juice_rail.Quiet.{Quiet}
use juice_rail.Quiet.Rules.{quiet_rules}
use juice_rail.Venue.{
  call, call_word, token_uint, quote_refill, Permit, sign_permit, permit_call, refill_calldata,
}

module _ (c : Chain) where
  Quiet-call :
      (block : Option ℕ) (to : ℕ) (abi : Abi) (m : Method) (vs : List Value)
      → Quiet (call c block to abi m vs)
  unfolding call
  Quiet-call block to abi m vs = search quiet_rules

  pub Quiet-call_word :
      (block : Option ℕ) (to : ℕ) (abi : Abi) (m : Method) (vs : List Value)
      → Quiet (call_word c block to abi m vs)
  unfolding call_word
  Quiet-call_word block to abi m vs = search (quiet_rules, Quiet-call)

  pub Quiet-token_uint :
      (block : Option ℕ) (token : ℕ) (m : Method) (vs : List Value)
      → Quiet (token_uint c block token m vs)
  unfolding token_uint
  Quiet-token_uint block token m vs = search (quiet_rules, Quiet-call_word)

  pub Quiet-quote_refill : (d : Domain) (delta : Option ℤ) → Quiet (quote_refill c d delta)
  unfolding quote_refill
  Quiet-quote_refill d delta = search (quiet_rules, Quiet-call) depth 9

  Quiet-sign_permit : (separator : ℕ) (p : Permit) → Quiet (sign_permit c separator p)
  unfolding sign_permit
  Quiet-sign_permit separator p = search quiet_rules

  Quiet-permit_call :
      (d : Domain) (account : ℕ) (v : ℤ) (deadline : ℕ) → Quiet (permit_call c d account v deadline)
  unfolding permit_call
  Quiet-permit_call d account v deadline =
      search (quiet_rules, Quiet-call_word, Quiet-token_uint, Quiet-sign_permit) depth 12

  pub Quiet-refill_calldata :
      (d : Domain) (account : ℕ) (delta m : ℤ) (deadline : ℕ)
      → Quiet (refill_calldata c d account delta m deadline)
  unfolding refill_calldata
  Quiet-refill_calldata d account delta m deadline =
      search (quiet_rules, Quiet-permit_call) depth 12

pub ruleset venue_rules =
    (Quiet-call_word, Quiet-token_uint, Quiet-quote_refill, Quiet-refill_calldata)
