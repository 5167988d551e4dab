-- ===== src/Check.antt =====
-- Whether a domain can be used: `New`, `checkChain` and `CheckDomain` of go/rail/rail.go.
pub mod Quiet
use juice_rail.Base.{ℕ, ◌%◌, Bool, not, Option, none, some, [], ◌∷◌, ◌==◌}
use juice_rail.Base.Int.{ℤ, pos_part}
use juice_rail.Base.Error
use juice_rail.Base.Error.{Result, ok, err, bad_input, wrong_domain, refuse_if}
use juice_rail.Intent.{same_amount}
use juice_rail.Domain
use juice_rail.Domain.{Domain}
use juice_rail.Chain.{
  Chain, token_abi, balance_of, nonces, decimals, domain_separator, address_value,
}
use juice_rail.Sql.Word.{word}
use juice_rail.Machine.{Rail, M, ask, lift, ◌>>=◌, ◌>>◌}
use juice_rail.Venue.{call_word, token_uint, quote_refill}

-- `got == nil` is refused with a chain that differs.
unfoldable pub same_chain : Option ℤ → Option ℤ → Result (Unit {0})
same_chain got wanted = refuse_if (not (same_amount got wanted)) wrong_domain

-- `checkChain`
unfoldable pub check_chain : (c : Chain) → Domain → M c.Node (Unit {0})
unfolding same_chain
check_chain c d = do got ← ask c.chain_id; lift (same_chain got d.chain_id)

-- `decimals.Uint64() != uint64(d.Decimals)`
unfoldable pub same_decimals : ℤ → ℕ → Result (Unit {0})
same_decimals reported configured =
    refuse_if (not (pos_part reported % word == configured)) bad_input

-- `CheckDomain`
unfoldable pub check_domain : (c : Chain) → Domain → ℕ → M c.Node (Unit {0})
unfolding check_chain same_decimals
check_domain c d account = do
  lift (Domain.validate d)
  check_chain c d
  held ← token_uint c none d.token balance_of (address_value account ∷ [])
  separator ← call_word c none d.token token_abi domain_separator []
  nonce ← token_uint c none d.token nonces (address_value account ∷ [])
  reported ← token_uint c none d.token decimals []
  lift (same_decimals reported d.decimals)
  quote ← quote_refill c d d.gas.min
  lift (ok tt)

-- `New`, of a domain, a store that is given or nil, a node, and the address of the key.
unfoldable pub new_rail : Domain → Bool → Option Chain → Option ℕ → Result Rail
new_rail d stored (some c) (some account) = Error.◌>>=◌ (Domain.validate d) λ u.
    Error.◌>>=◌ (refuse_if (not stored) bad_input)
      λ v. ok (record { domain = d; chain = c; address = account })
new_rail d stored _ _ = Error.◌>>=◌ (Domain.validate d) (λ u. err bad_input)
