-- ===== src/Domain.antt =====
-- The domain of go/rail/types.go: a chain, a token and how to reach them. The block tag is a number
-- of the node's library; here it is one of the three that a domain may name, or another.
pub mod Validity
mod Tests
use juice_rail.Base.{ℕ, Bool, true, false, ◌||◌, not, Option, ltb, ◌==◌, if◌then◌else◌}
use juice_rail.Base.Int.{ℤ}
use juice_rail.Base.Lists.{Bytes}
use juice_rail.Base.Error.{bad_input, Result, ◌>>=◌, ◌>>◌, refuse_if}
use juice_rail.Policy
use juice_rail.Policy.{GasPolicy}
use juice_rail.Intent.{is_positive}

pub data BlockTag : Type 0 where
  latest safe finalized : BlockTag
  other_tag : ℕ → BlockTag

pub record Venue : Type 0 where
  pub router : ℕ
  pub quoter : ℕ
  pub weth : ℕ
  pub fee_tier : ℕ
  pub router02 : Bool

pub record Domain : Type 0 where
  pub name : Bytes
  pub chain_id : Option ℤ
  pub token : ℕ
  pub decimals : ℕ
  pub finality : BlockTag
  pub from_block : ℕ
  pub venue : Venue
  pub gas : GasPolicy

abbrev is_settled_tag : BlockTag → Bool
is_settled_tag latest = true
is_settled_tag safe = true
is_settled_tag finalized = true
is_settled_tag (other_tag n) = false

-- `Domain.Validate`
unfoldable pub validate : Domain → Result (Unit {0})
validate d = do
  refuse_if (not (is_positive d.chain_id)) bad_input
  refuse_if (d.token == 0) bad_input
  refuse_if (d.decimals == 0 || ltb 36 d.decimals) bad_input
  refuse_if (not (is_settled_tag d.finality)) bad_input
  refuse_if (d.venue.router == 0 || (d.venue.quoter == 0 || d.venue.weth == 0)) bad_input
  refuse_if (d.venue.fee_tier == 0) bad_input
  Policy.validate d.gas
