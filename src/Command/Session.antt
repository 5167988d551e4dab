-- ===== src/Command/Session.antt =====
-- `run` of cmd/railctl/main.go: one call of the program, with what it leaves on disk and hands to the node, and
-- calls of it in a row.
pub mod Lasting
pub mod Recorded
mod Tests
use juice_rail.Base.{ℕ, false, not, Option, List, [], ◌∷◌, if◌then◌else◌}
use juice_rail.Base.Lists.{Bytes, eq_bytes}
use juice_rail.Base.Error.{Result, ok, err, plain, ◌>>=◌}
use juice_rail.Chain.{Tx}
use juice_rail.Intent.{codes}
use juice_rail.Machine.{World}
use juice_rail.Command.{Output, valid_halt_point, run_command}
use juice_rail.Command.Open.{Opening, Files, Opened, open_app}
use juice_rail.Profile.Disk.{Disk, load_settings, load_credentials, put}
use juice_rail.Profile.Init.{Setting, Started, init_profile}

-- One call: the words, the flags and the environment, the node behind an endpoint, and the fuel of a scan.
pub record Invocation : Type 1 where
  pub args : List Bytes
  pub setting : Setting
  pub opening : Opening
  pub fuel : ℕ

-- The two files of the profiles, and the stores.
pub record Home : Type 0 where
  pub disk : Disk
  pub files : Files

-- The flags with the files that are on disk.
abbrev on_disk : Opening → Disk → Opening
on_disk o d = record o {
  setup = record o.setup {
    load_settings = λ dir. load_settings d.settings;
    load_credentials = λ dir. load_credentials d.credentials;
  };
}

abbrev opening_in : Invocation → Home → Opening
opening_in v h = on_disk v.opening h.disk

-- The world of a command at its start.
abbrev world_of : (a : Opened) → Files → World a.app.rail.chain.Node
world_of a files = record { store = files a.path; node = a.node; chain_checked = false; sent = [] }

abbrev world_after : Invocation → (a : Opened) → Files → World a.app.rail.chain.Node
world_after v a files = (run_command a.app v.fuel v.args (world_of a files)).1

-- What is shown: the account that was made, or what a command has to show, and nothing if its scan has no end.
pub data Answer : Type 0 where
  started : Started → Answer
  shown : Option Output → Answer

-- How a call ends, what there is afterwards, and what was handed to the node.
pub record Ending : Type 0 where
  pub answer : Result Answer
  pub home : Home
  pub sent : List Tx

abbrev pub refused : Home → Ending
refused h = record { answer = err plain; home = h; sent = [] }

unfoldable on_opened : Invocation → Disk → Result Opened × Files → Ending
on_opened v d (ok a, files) = record {
  answer = (run_command a.app v.fuel v.args (world_of a files)).0 >>= λ out. ok (shown out);
  home = record { disk = d; files = put files a.path (world_after v a files).store };
  sent = (world_after v a files).sent;
}
on_opened v d (err e, files) = record {
  answer = err e;
  home = record { disk = d; files = files };
  sent = [];
}

unfoldable start_profile : Invocation → Home → List Bytes → Ending
start_profile v h args =
    let (r, d) = init_profile v.setting args h.disk in
    record { answer = r >>= λ s. ok (started s); home = record h { disk = d }; sent = [] }

unfoldable run_words : Invocation → Home → List Bytes → Ending
unfolding on_opened start_profile
run_words v h [] = refused h
run_words v h (name ∷ args) =
    if not (valid_halt_point v.opening.halt_after)
    then refused h
    else if eq_bytes name (codes "init")
    then start_profile v h args
    else on_opened v h.disk (open_app v.setting.eth (opening_in v h) h.files)

-- `run`
unfoldable pub run : Invocation → Home → Ending
unfolding run_words
run v h = run_words v h v.args

-- The home after calls in a row.
unfoldable run_all : List Invocation → Home → Home
unfolding run
run_all [] h = h
run_all (v ∷ more) h = run_all more (run v h).home
