-- ===== src/Keys.antt =====
-- Addresses, keys and domains as texts: `ParseAddress`, `ParseKey`, `DomainKey` and `FundingChecklist` of
-- go/rail/types.go.
pub mod Domains
mod Tests
use juice_rail.Base.{ℕ, Bool, not, Option, none, some, [], ◌∷◌, ◌++◌, map, if◌then◌else◌}
use juice_rail.Base.Int.{ℤ}
use juice_rail.Base.Lists.{Bytes}
use juice_rail.Base.Decimal.{print_ℤ}
use juice_rail.Base.Error.{Result, ok, err, bad_input}
use juice_rail.Amount.{format_native}
use juice_rail.Attempt.{to_lower}
use juice_rail.Domain.{Domain}
use juice_rail.Ident.{trim_0x}
use juice_rail.Intent.{codes}

-- What is called of go-ethereum: `IsHexAddress`, `HexToAddress`, `Address.Hex`, and the address of the key
-- that `HexToECDSA` reads, if it reads one.
pub record Eth : Type 0 where
  pub is_hex_address : Bytes → Bool
  pub hex_to_address : Bytes → ℕ
  pub address_hex : ℕ → Bytes
  pub key_address : Bytes → Option ℕ

-- `ParseAddress`
unfoldable pub parse_address : Eth → Bytes → Result ℕ
parse_address eth s =
    if not (eth.is_hex_address s) then err bad_input else ok (eth.hex_to_address s)

unfoldable pub or_bad_key : Option ℕ → Result ℕ
or_bad_key none = err bad_input
or_bad_key (some address) = ok address

-- What is left of a key, without its prefix.
unfoldable pub read_key : Eth → Bytes → Result ℕ
unfolding or_bad_key
read_key eth [] = err bad_input
read_key eth (c ∷ s) = or_bad_key (eth.key_address (c ∷ s))

-- `ParseKey`: the address of the key.
unfoldable pub parse_key : Eth → Bytes → Result ℕ
unfolding read_key trim_0x
parse_key eth hex = read_key eth (trim_0x hex)

unfoldable pub chain_text : Option ℤ → Bytes
chain_text none = codes "0"
chain_text (some id) = print_ℤ id

-- `DomainKey`
unfoldable pub domain_key : Eth → Option ℤ → ℕ → Bytes
unfolding chain_text
domain_key eth chain_id token = chain_text chain_id ++ b':' ∷ map to_lower (eth.address_hex token)

-- `FundingChecklist`
unfoldable pub funding_checklist : Eth → Domain → ℕ → Bytes
funding_checklist eth d account =
    codes "to make this account operational, fund it:\n  1. send the stablecoin to "
    ++ (eth.address_hex account
        ++ (codes "\n  2. send at least "
            ++ (format_native d.gas.min
                ++ codes
                    " of the native currency to the same address\n  3. wait until the chain settles it\n\nafter that the account keeps its own gas: it buys more with its own\nstablecoin whenever the reserve runs low.")))
