-- ===== src/Profile/Init.antt =====
-- `initProfile` of cmd/railctl/main.go, which installs a domain and makes one profile that uses it.
pub mod Maps
pub mod Kept
pub mod Complete
pub mod Opens
mod Tests
use juice_rail.Base.{
  ℕ, Bool, true, false, not, ◌&&◌, Option, none, some, List, [], ◌∷◌, ◌==◌, if◌then◌else◌,
}
use juice_rail.Base.Lists.{Bytes, eq_bytes}
use juice_rail.Base.Error.{Result, ok, err, plain, refuse_if, ◌>>=◌, ◌>>◌}
use juice_rail.Amount.{trim_space}
use juice_rail.Chain.{Chain}
use juice_rail.Check.{check_domain}
use juice_rail.Domain
use juice_rail.Domain.{BlockTag, latest, safe, finalized, other_tag, Domain}
use juice_rail.Keys.{Eth, parse_key, funding_checklist}
use juice_rail.Machine.{World}
use juice_rail.Profile.{
  VenueConfig, GasConfig, Config, Settings, is_set, config_domain, check_profile_name,
}
use juice_rail.Profile.Disk.{
  Credentials, Disk, WriteFaults, load_settings, load_credentials, write_json, put,
}

-- What `init` is given: go-ethereum, the node at an endpoint, the flag, what is read and made besides the two
-- files, and how their writing goes.
pub record Setting : Type 1 where
  pub eth : Eth
  pub chain : Chain
  pub dial : Bytes → Result chain.Node
  pub key_file : Bytes
  pub read_config : Bytes → Result Config
  pub read_file : Bytes → Result Bytes
  pub fresh_key : Result Bytes
  pub rail_dir : Result Bytes
  pub make_dir : Bytes → Result (Unit {0})
  pub key_write : WriteFaults
  pub settings_write : WriteFaults

-- `==` of two configurations.
unfoldable same_tag : BlockTag → BlockTag → Bool
same_tag latest latest = true
same_tag safe safe = true
same_tag finalized finalized = true
same_tag (other_tag n) (other_tag m) = n == m
same_tag _ _ = false

abbrev same_bool : Bool → Bool → Bool
same_bool true b = b
same_bool false b = not b

unfoldable same_venue : VenueConfig → VenueConfig → Bool
same_venue a b =
    eq_bytes a.router b.router
    && (eq_bytes a.quoter b.quoter
        && (eq_bytes a.weth b.weth
            && (a.fee_tier == b.fee_tier && same_bool a.router02 b.router02)))

unfoldable same_gas : GasConfig → GasConfig → Bool
same_gas a b =
    eq_bytes a.min b.min
    && (eq_bytes a.max b.max
        && (a.slippage_bps == b.slippage_bps
            && (eq_bytes a.fee_bound b.fee_bound
                && (a.payment_gas == b.payment_gas && a.swap_gas == b.swap_gas))))

unfoldable same_config : Config → Config → Bool
unfolding same_tag same_venue same_gas
same_config a b =
    eq_bytes a.name b.name
    && (a.chain_id == b.chain_id
        && (eq_bytes a.rpc b.rpc
            && (eq_bytes a.token b.token
                && (a.decimals == b.decimals
                    && (same_tag a.finality b.finality
                        && (a.from_block == b.from_block
                            && (same_venue a.venue b.venue && same_gas a.gas b.gas)))))))

-- `readKeyFile`
unfoldable read_key_file : Setting → Bytes → Result Bytes
read_key_file e path = do
  raw ← e.read_file path
  owner ← parse_key e.eth (trim_space raw)
  ok (trim_space raw)

-- The key that is imported, or a fresh one.
unfoldable new_key : Setting → Result Bytes
unfolding read_key_file
new_key e = if is_set e.key_file then read_key_file e e.key_file else e.fresh_key

unfoldable refuse_taken : Option Bytes → Result (Unit {0})
refuse_taken none = ok tt
refuse_taken (some domain_name) = err plain

unfoldable refuse_changed : Option Config → Config → Result (Unit {0})
unfolding same_config
refuse_changed none c = ok tt
refuse_changed (some installed) c = refuse_if (not (same_config installed c)) plain

-- A node, in a world whose database is empty: `CheckDomain` reads none.
abbrev node_world : {N : Type 0} → N → World N
node_world n = record {
  store = record {
    tables = record {
      intents = [];
      submissions = [];
      facts = [];
      deposits = [];
      cursors = [];
      domain = none;
    };
    faults = [];
  };
  node = n;
  chain_checked = false;
  sent = [];
}

-- `checkDomain`
unfoldable dial_and_check : Setting → Config → Domain → ℕ → Result (Unit {0})
dial_and_check e c d account =
    e.dial c.rpc >>= λ n. (check_domain e.chain d account (node_world n)).0

-- What `init` has found out before it writes.
record Prepared : Type 0 where
  pub config : Config
  pub domain : Domain
  pub settings : Settings
  pub keys : Bytes → Bytes
  pub key : Bytes
  pub owner : ℕ

unfoldable prepare_profile : Setting → Disk → Bytes → Bytes → Result Prepared
unfolding new_key refuse_taken refuse_changed dial_and_check
prepare_profile e d name file = do
  check_profile_name name
  c ← e.read_config file
  refuse_if (not (is_set c.name)) plain
  domain ← config_domain e.eth.hex_to_address c
  Domain.validate domain
  dir ← e.rail_dir
  e.make_dir dir
  set ← load_settings d.settings
  refuse_taken (set.profiles name)
  refuse_changed (set.domains c.name) c
  keys ← load_credentials d.credentials
  key ← new_key e
  owner ← parse_key e.eth key
  dial_and_check e c domain owner
  ok (record { config = c; domain = domain; settings = set; keys = keys; key = key; owner = owner })

unfoldable settings_with : Bytes → Prepared → Settings
settings_with name p = record {
  current = if is_set p.settings.current then p.settings.current else name;
  domains = put p.settings.domains p.config.name (some p.config);
  profiles = put p.settings.profiles name (some p.config.name);
}

unfoldable keys_with : Bytes → Prepared → Credentials
keys_with name p = record { mode = 384; keys = put p.keys name p.key }

-- What `init` shows: the account, and what to fund.
pub record Started : Type 0 where
  pub account : ℕ
  pub checklist : Bytes

-- The settings are written once the key is.
unfoldable write_settings : Setting → Bytes → Prepared → Disk → Result Started × Disk
unfolding settings_with
write_settings e name p d =
    let (r, file) = write_json e.settings_write (settings_with name p) d.settings in
    (
      r >>= λ u.
          ok (record { account = p.owner; checklist = funding_checklist e.eth p.domain p.owner }),
      record d { settings = file },
    )

unfoldable after_key : Setting → Bytes → Prepared → Result (Unit {0}) → Disk → Result Started × Disk
unfolding write_settings
after_key e name p (ok u) d = write_settings e name p d
after_key e name p (err x) d = (err x, d)

unfoldable write_key : Setting → Bytes → Disk → Result Prepared → Result Started × Disk
unfolding after_key keys_with
write_key e name d (ok p) =
    let (r, file) = write_json e.key_write (keys_with name p) d.credentials in
    after_key e name p r (record d { credentials = file })
write_key e name d (err x) = (err x, d)

-- `initProfile`
unfoldable pub init_profile : Setting → List Bytes → Disk → Result Started × Disk
unfolding prepare_profile write_key
init_profile e (name ∷ file ∷ []) d = write_key e name d (prepare_profile e d name file)
init_profile e _ d = (err plain, d)
