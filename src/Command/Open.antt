-- ===== src/Command/Open.antt =====
-- `open` of cmd/railctl/main.go: the account that a command works on, from flags, files and a node.
pub mod Ledger
mod Tests
use juice_rail.Base.{ℕ, Bool, true, some}
use juice_rail.Base.Lists.{Bytes}
use juice_rail.Base.Error.{Result, ok, err, ◌>>=◌}
use juice_rail.Chain.{Chain}
use juice_rail.Check.{new_rail}
use juice_rail.Command.{App}
use juice_rail.Domain.{Domain}
use juice_rail.Keys.{Eth, parse_key, domain_key}
use juice_rail.Observed.{open_store}
use juice_rail.Profile.{Inputs, Setup, config_domain, resolve}
use juice_rail.Profile.Disk.{put}
use juice_rail.Sql.{Db}

-- What a dialled endpoint gives: a node, and the state it is in.
pub record Endpoint : Type 1 where
  pub chain : Chain
  pub node : chain.Node

-- What a command is given: the flags and files, and the node at an endpoint.
pub record Opening : Type 1 where
  pub setup : Setup
  pub halt_after : Bytes
  pub no_refill : Bool
  pub dial : Bytes → Result Endpoint

-- The database files, by their paths.
abbrev pub Files : Type 0
Files = Bytes → Db

-- What is known before the store is opened.
pub record Found : Type 1 where
  pub inputs : Inputs
  pub account : ℕ
  pub domain : Domain
  pub endpoint : Endpoint

unfoldable pub find_out : Eth → Opening → Result Found
find_out eth o = do
  i ← resolve eth.hex_to_address o.setup
  account ← parse_key eth i.key
  d ← config_domain eth.hex_to_address i.domain
  c ← o.dial i.domain.rpc
  ok (record { inputs = i; account = account; domain = d; endpoint = c })

-- An account that is open, the path of its store, and the state of its node.
pub record Opened : Type 1 where
  pub app : App
  pub path : Bytes
  pub node : app.rail.chain.Node

unfoldable pub start_app : Eth → Opening → Found → Result Opened
start_app eth o f = new_rail f.domain true (some f.endpoint.chain) (some f.account) >>= λ r.
    ok (record {
      app = record {
        rail = record r { chain = f.endpoint.chain };
        halt_after = o.halt_after;
        no_refill = o.no_refill;
        eth = eth;
      };
      path = f.inputs.store;
      node = f.endpoint.node;
    })

unfoldable pub open_found : Eth → Opening → Files → Result Found → Result Opened × Files
unfolding start_app
open_found eth o files (ok f) =
    let (r, db) =
      open_store (domain_key eth f.domain.chain_id f.domain.token) (files f.inputs.store) in
    (r >>= λ u. start_app eth o f, put files f.inputs.store db)
open_found eth o files (err e) = (err e, files)

-- `open`
unfoldable pub open_app : Eth → Opening → Files → Result Opened × Files
unfolding find_out open_found
open_app eth o files = open_found eth o files (find_out eth o)
