-- ===== src/Check/Quiet.antt =====
-- What `checkChain` and `CheckDomain` of go/rail/rail.go leave alone.
use juice_rail.Base.{ℕ}
use juice_rail.Domain.{Domain}
use juice_rail.Chain.{Chain}
use juice_rail.Quiet.{Quiet}
use juice_rail.Quiet.Rules.{quiet_rules}
use juice_rail.Venue.Quiet.{venue_rules}
use juice_rail.Check.{check_chain, check_domain}

module _ (c : Chain) (d : Domain) where
  pub Quiet-check_chain : Quiet (check_chain c d)
  unfolding check_chain
  Quiet-check_chain = search quiet_rules

  pub Quiet-check_domain : (account : ℕ) → Quiet (check_domain c d account)
  unfolding check_domain
  Quiet-check_domain account = search (quiet_rules, venue_rules, Quiet-check_chain) depth 20
