-- ===== src/Profile.antt =====
-- How cmd/railctl/main.go finds the domain, the store and the key of a command: its flags, the environment,
-- and the profiles on disk. What is read from disk is given.
pub mod Resolve
pub mod Disk
pub mod Init
mod Tests
use juice_rail.Base.{
  ℕ, Bool, true, false, not, ◌&&◌, ◌||◌, Option, none, some, [], ◌∷◌, ◌++◌, ◌==◌, leb,
  if◌then◌else◌,
}
use juice_rail.Base.Int.{pos}
use juice_rail.Base.Lists.{Bytes, length}
use juice_rail.Base.Decimal.{read_ℤ}
use juice_rail.Base.Int.{ℤ}
use juice_rail.Base.Error.{Result, ok, err, plain, refuse_if, ◌>>=◌, ◌>>◌}
use juice_rail.Intent.{codes}
use juice_rail.Domain.{BlockTag, Domain}

pub record VenueConfig : Type 0 where
  pub router : Bytes
  pub quoter : Bytes
  pub weth : Bytes
  pub fee_tier : ℕ
  pub router02 : Bool

pub record GasConfig : Type 0 where
  pub min : Bytes
  pub max : Bytes
  pub slippage_bps : ℕ
  pub fee_bound : Bytes
  pub payment_gas : ℕ
  pub swap_gas : ℕ

pub record Config : Type 0 where
  pub name : Bytes
  pub chain_id : ℕ
  pub rpc : Bytes
  pub token : Bytes
  pub decimals : ℕ
  pub finality : BlockTag
  pub from_block : ℕ
  pub venue : VenueConfig
  pub gas : GasConfig

-- `config.decimals`
unfoldable pub decimals_of : Config → ℕ
decimals_of c = if c.decimals == 0 then 6 else c.decimals

unfoldable pub or_plain {ℓ} : {A : Type ℓ} → Option A → Result A
or_plain none = err plain
or_plain (some a) = ok a

-- `wei`
unfoldable pub wei : Bytes → Result ℤ
unfolding or_plain
wei [] = err plain
wei (c ∷ s) = or_plain (read_ℤ (c ∷ s))

-- `config.domain`, where go-ethereum reads the addresses.
unfoldable pub config_domain : (Bytes → ℕ) → Config → Result Domain
unfolding wei decimals_of
config_domain hex_to_address c = do
  min ← wei c.gas.min
  max ← wei c.gas.max
  fee_bound ← wei c.gas.fee_bound
  ok (record {
    name = c.name;
    chain_id = some (pos c.chain_id);
    token = hex_to_address c.token;
    decimals = decimals_of c;
    finality = c.finality;
    from_block = c.from_block;
    venue = record {
      router = hex_to_address c.venue.router;
      quoter = hex_to_address c.venue.quoter;
      weth = hex_to_address c.venue.weth;
      fee_tier = c.venue.fee_tier;
      router02 = c.venue.router02;
    };
    gas = record {
      min = some min;
      max = some max;
      slippage_bps = c.gas.slippage_bps;
      fee_bound = some fee_bound;
      payment_gas = c.gas.payment_gas;
      swap_gas = c.gas.swap_gas;
    };
  })

-- `[a-z0-9]`, and `[a-z0-9_-]`
abbrev starts_name : ℕ → Bool
starts_name c = (leb b'a' c && leb c b'z') || (leb b'0' c && leb c b'9')

unfoldable pub all_in_name : Bytes → Bool
all_in_name [] = true
all_in_name (c ∷ s) = (starts_name c || (c == b'_' || c == b'-')) && all_in_name s

-- `profileName.MatchString`
unfoldable pub is_profile_name : Bytes → Bool
unfolding all_in_name
is_profile_name [] = false
is_profile_name (c ∷ s) = starts_name c && (all_in_name s && leb (length s) 31)

-- `checkProfileName`
unfoldable pub check_profile_name : Bytes → Result (Unit {0})
unfolding is_profile_name
check_profile_name name = refuse_if (not (is_profile_name name)) plain

-- The maps of config.json and credentials.json, as what they hold under a key.
pub record Settings : Type 0 where
  pub current : Bytes
  pub domains : Bytes → Option Config
  pub profiles : Bytes → Option Bytes

-- The flags and the environment, and what reading each file gives.
pub record Setup : Type 0 where
  pub config_flag : Bytes
  pub store_flag : Bytes
  pub profile_flag : Bytes
  pub env_profile : Bytes
  pub env_key : Bytes
  pub load_config : Bytes → Result Config
  pub rail_dir : Result Bytes
  pub load_settings : Bytes → Result Settings
  pub load_credentials : Bytes → Result (Bytes → Bytes)

pub record Inputs : Type 0 where
  pub domain : Config
  pub store : Bytes
  pub key : Bytes

abbrev is_set : Bytes → Bool
is_set [] = false
is_set (c ∷ s) = true

-- `if name == "" { name = … }`
abbrev or_text : Bytes → Bytes → Bytes
or_text [] other = other
or_text (c ∷ s) other = c ∷ s

unfoldable pub given_config : Setup → Result (Option Config)
given_config e =
    if is_set e.config_flag then (e.load_config e.config_flag >>= λ c. ok (some c)) else ok none

-- An override may not be another domain than the profile's.
unfoldable pub choose_domain : (Bytes → ℕ) → Option Config → Config → Result Config
choose_domain hex_to_address none installed = ok installed
choose_domain hex_to_address (some c) installed =
    if not (c.chain_id == installed.chain_id)
      || not (hex_to_address c.token == hex_to_address installed.token)
    then err plain
    else ok c

unfoldable pub choose_key : Setup → Bytes → Bytes → Result Bytes
choose_key e dir name =
    if is_set e.env_key then ok e.env_key else e.load_credentials dir >>= λ keys. ok (keys name)

unfoldable pub profile_name : Setup → Settings → Bytes
profile_name e set = or_text e.profile_flag (or_text e.env_profile set.current)

-- The part of `resolve` that reads the profile. The directory is a clean path.
unfoldable pub from_profile : (Bytes → ℕ) → Setup → Option Config → Result Inputs
unfolding check_profile_name or_plain choose_domain choose_key profile_name
from_profile hex_to_address e given = do
  dir ← e.rail_dir
  set ← e.load_settings dir
  refuse_if (not (is_set (profile_name e set))) plain
  check_profile_name (profile_name e set)
  domain_name ← or_plain (set.profiles (profile_name e set))
  installed ← or_plain (set.domains domain_name)
  chosen ← choose_domain hex_to_address given installed
  key ← choose_key e dir (profile_name e set)
  refuse_if (not (is_set key)) plain
  ok (record {
    domain = chosen;
    store = or_text e.store_flag (dir ++ codes "/" ++ profile_name e set ++ codes ".db");
    key = key;
  })

unfoldable pub resolve_given : (Bytes → ℕ) → Setup → Option Config → Result Inputs
unfolding from_profile
resolve_given hex_to_address e none = from_profile hex_to_address e none
resolve_given hex_to_address e (some c) =
    if is_set e.store_flag && is_set e.env_key
    then ok (record { domain = c; store = e.store_flag; key = e.env_key })
    else from_profile hex_to_address e (some c)

-- `resolve`
unfoldable pub resolve : (Bytes → ℕ) → Setup → Result Inputs
unfolding given_config resolve_given
resolve hex_to_address e = given_config e >>= λ given. resolve_given hex_to_address e given
