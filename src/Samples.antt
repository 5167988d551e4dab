-- ===== src/Samples.antt =====
-- Concrete inputs: a policy, a domain, intents, a database, and a node whose answers are fixed.
use juice_rail.Base.{ℕ, true, false, none, some, [], ◌∷◌, ◌++◌}
use juice_rail.Base.Int.{pos}
use juice_rail.Base.Lists.{length, replicate}
use juice_rail.Base.Error.{ok}
use juice_rail.Policy.{GasPolicy, PolicyInput}
use juice_rail.Intent.{Intent, Submission, kind_transfer, codes}
use juice_rail.Base.Binary.{address_bytes}
use juice_rail.Ident.{encode_hex}
use juice_rail.Keys.{Eth}
use juice_rail.Domain.{Domain, BlockTag}
use juice_rail.Chain.{uint_value, Chain, Header, Receipt, Log}
use juice_rail.Command.Open.{Opening}
use juice_rail.Profile.{Config, Setup}
use juice_rail.Profile.Disk.{Disk, WriteFaults, missing}
use juice_rail.Profile.Init.{Setting}
use juice_rail.Sql.{Tables, Db}
use juice_rail.Store.{intent_row, submission_row}
use juice_rail.Machine.{Rail, World}

abbrev pub sample_policy : GasPolicy
sample_policy = record {
  min = some (pos 100);
  max = some (pos 1_000);
  slippage_bps = 50;
  fee_bound = some (pos 80);
  payment_gas = 0;
  swap_gas = 0;
}

-- Below the minimum, with a quote.
abbrev pub low_reserve : PolicyInput
low_reserve = record {
  gas = some (pos 90);
  token = some (pos 5_000);
  swap_cost = some (pos 60);
  quote = some (pos 2_000);
  pending_amount = some (pos 1_000);
}

abbrev pub sample_domain : Domain
sample_domain = record {
  name = codes "base";
  chain_id = some (pos 8_453);
  token = 51;
  decimals = 6;
  finality = BlockTag.safe;
  from_block = 10;
  venue = record { router = 61; quoter = 62; weth = 63; fee_tier = 500; router02 = true };
  gas = sample_policy;
}

abbrev pub sample_intent : Intent
sample_intent = record {
  id = 7;
  kind = kind_transfer;
  to = 900;
  amount = some (pos 513);
  delta = none;
  nonce = 4;
  calldata = codes "transfer";
  from_block = 20;
}

-- Another payment, under another identifier and nonce.
abbrev pub other_intent : Intent
other_intent = record sample_intent { id = 8; nonce = 5 }

-- The identifier of `sample_intent` with other terms.
abbrev pub changed_intent : Intent
changed_intent = record sample_intent { amount = some (pos 514) }

abbrev pub first_attempt : Submission
first_attempt = record { tx_hash = 0; gas = 200_000; tip = some (pos 16); fee_cap = some (pos 80) }

abbrev pub last_attempt : Submission
last_attempt = record first_attempt { tx_hash = 1_004 }

abbrev pub empty_tables : Tables
empty_tables = record {
  intents = [];
  submissions = [];
  facts = [];
  deposits = [];
  cursors = [];
  domain = none;
}

abbrev pub empty_db : Db
empty_db = record { tables = empty_tables; faults = [] }

abbrev pub account : ℕ
account = 77

-- `sample_intent` is recorded, and so is one attempt of it.
abbrev pub paid_db : Db
paid_db = record {
  tables = record empty_tables {
    intents = intent_row account sample_intent ∷ [];
    submissions = submission_row account 7 0 last_attempt ∷ [];
  };
  faults = [];
}

-- The token's event of a transfer of 513 units from the account to address 900.
abbrev pub transfer_event : Log
transfer_event = record {
  address = 51;
  topics = 33 ∷ account ∷ 900 ∷ [];
  payload =
      0 ∷ 0 ∷ 0 ∷ 0 ∷ 0 ∷ 0 ∷ 0 ∷ 0 ∷ 0 ∷ 0 ∷ 0 ∷ 0 ∷ 0 ∷ 0 ∷ 0 ∷ 0 ∷ 0 ∷ 0 ∷ 0 ∷ 0 ∷ 0 ∷ 0 ∷ 0 ∷ 0
      ∷ 0 ∷ 0 ∷ 0 ∷ 0 ∷ 0 ∷ 0 ∷ 2 ∷ 1 ∷ [];
  block_number = 30;
  tx_hash = 1_004;
  index = 0;
  removed = false;
}

abbrev pub sample_receipt : Receipt
sample_receipt = record {
  status = 1;
  block_number = some 30;
  logs = none ∷ some transfer_event ∷ [];
}

abbrev pub sample_header : Header
sample_header = record { number = 40; time = 1_000; base_fee = some (pos 30) }

-- A node that counts its calls, holds one receipt, and takes every transaction.
abbrev pub sample_chain : Chain
sample_chain = record {
  Node = ℕ;
  chain_id = λ n. (ok (some (pos 8_453)), n);
  header = λ tag n. (ok (some sample_header), n);
  filter_logs = λ q n. (ok (transfer_event ∷ []), n);
  call_contract = λ msg block n. (ok (replicate 32 1), n);
  balance_at = λ who block n. (ok (pos 5_000), n);
  nonce_at = λ who block n. (ok 4, n);
  pending_nonce_at = λ who n. (ok 4, n);
  suggest_tip = λ n. (ok (some (pos 16)), n);
  send_transaction = λ tx n. (ok tt, n);
  transaction_receipt = λ hash n. (ok (some sample_receipt), n);
  sign = λ tx. ok 1_004;
  pack = λ abi method values. ok (codes "call");
  unpack = λ abi method out. ok (uint_value (pos 2_000) ∷ []);
  sign_digest = λ digest. ok (replicate 65 1);
  keccak = λ s. length s;
}

abbrev pub sample_rail : Rail
sample_rail = record { domain = sample_domain; chain = sample_chain; address = account }

abbrev pub sample_world : World ℕ
sample_world = record { store = paid_db; node = 0; chain_checked = true; sent = [] }

-- Addresses are spelled with the digits of their bytes; every text is an address and a key.
abbrev pub sample_eth : Eth
sample_eth = record {
  is_hex_address = λ s. true;
  hex_to_address = length;
  address_hex = λ a. b'0' ∷ b'x' ∷ encode_hex (address_bytes a);
  key_address = λ s. some account;
}

-- A node with a token of six decimals.
abbrev pub token_chain : Chain
token_chain = record sample_chain {
  call_contract = λ msg block n. (ok (replicate 31 0 ++ 6 ∷ []), n);
}

abbrev pub sample_config : Config
sample_config = record {
  name = codes "base";
  chain_id = 8_453;
  rpc = codes "http://a";
  token = codes "0x51";
  decimals = 6;
  finality = BlockTag.safe;
  from_block = 10;
  venue = record {
    router = codes "61";
    quoter = codes "62";
    weth = codes "63";
    fee_tier = 500;
    router02 = true;
  };
  gas = record {
    min = codes "100";
    max = codes "1000";
    slippage_bps = 50;
    fee_bound = codes "80";
    payment_gas = 0;
    swap_gas = 0;
  };
}

-- The same domain at another endpoint.
abbrev pub nearer_config : Config
nearer_config = record sample_config { rpc = codes "http://b" }

abbrev pub sample_setup : Setup
sample_setup = record {
  config_flag = codes "f";
  store_flag = [];
  profile_flag = codes "main";
  env_profile = [];
  env_key = [];
  load_config = λ path. ok nearer_config;
  rail_dir = ok (codes "d");
  load_settings = λ dir. ok (record {
    current = [];
    domains = λ name. some sample_config;
    profiles = λ name. some (codes "base");
  });
  load_credentials = λ dir. ok (λ name. codes "k");
}

-- With all that a command needs, so that no profile is read.
abbrev pub full_setup : Setup
full_setup = record sample_setup { store_flag = codes "s.db"; env_key = codes "k" }

abbrev pub no_faults : WriteFaults
no_faults = record {
  create = false;
  chmod = false;
  write = false;
  sync = false;
  close = false;
  rename = false;
}

abbrev pub sample_setting : Setting
sample_setting = record {
  eth = sample_eth;
  chain = token_chain;
  dial = λ url. ok 0;
  key_file = [];
  read_config = λ path. ok sample_config;
  read_file = λ path. ok (codes " 0xab");
  fresh_key = ok (codes "cd");
  rail_dir = ok (codes "d");
  make_dir = λ dir. ok tt;
  key_write = no_faults;
  settings_write = no_faults;
}

-- No file is there.
abbrev pub no_files : Disk
no_files = record { settings = missing; credentials = missing }

-- The domain of `sample_config`.
abbrev pub found_domain : Domain
found_domain = record sample_domain {
  token = 4;
  venue = record { router = 2; quoter = 2; weth = 2; fee_tier = 500; router02 = true };
}

abbrev pub sample_opening : Opening
sample_opening = record {
  setup = sample_setup;
  halt_after = [];
  no_refill = false;
  dial = λ url. ok (record { chain = sample_chain; node = 0 });
}
