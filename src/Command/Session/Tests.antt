-- ===== src/Command/Session/Tests.antt =====
-- Calls of railctl in a row: a profile is made, and an attempt is sent again.
use juice_rail.Base.{arith, ◌≡◌, ◌≢◌, inl, refl, false, some, [], ◌∷◌}
use juice_rail.Base.Lists.{Bytes}
use juice_rail.Base.Int.{pos}
use juice_rail.Base.Error.{ok}
use juice_rail.Base.Decimal.{scan, parse, read_ℤ, format, print_ℤ}
use juice_rail.Command.Open.{Opened, find_out, start_app, open_found, open_app}
use juice_rail.Check.{new_rail}
use juice_rail.Domain
use juice_rail.Domain.{Domain}
use juice_rail.Ident.{trim_0x}
use juice_rail.Intent.{codes}
use juice_rail.Keys.{read_key, or_bad_key, parse_key, domain_key, chain_text}
use juice_rail.Observed.{open_store}
use juice_rail.Observed.Opening.{open_store_opens}
use juice_rail.Policy
use juice_rail.Policy.{positive, present}
use juice_rail.Profile.{
  wei, or_plain, decimals_of, config_domain, given_config, resolve_given, resolve,
}
use juice_rail.Base.Lists.{All}
use juice_rail.Command.Session.{Invocation, Home, opening_in, run, run_all}
use juice_rail.Command.Session.Lasting.{Lawful, AllLast, run-Lawful, run_all-Lasts}
use juice_rail.Command.Session.Recorded.{run_records}
use juice_rail.Ident.{id_string}
use juice_rail.Profile.Init.Complete.{Keeps, IsComplete}
use juice_rail.Samples.{
  account, sample_chain, sample_eth, sample_opening, sample_setting, full_setup, found_domain,
  no_files, paid_db,
}
use juice_rail.Trace.{NeverZero, IsRecorded}

abbrev resending : Invocation
resending = record {
  args = codes "retry" ∷ id_string 7 ∷ [];
  setting = sample_setting;
  opening = record sample_opening { setup = full_setup };
  fuel = 0;
}

abbrev starting : Invocation
starting = record resending { args = codes "init" ∷ codes "main" ∷ codes "base.json" ∷ [] }

-- An attempt of the payment 7 is on record.
abbrev sample_home : Home
sample_home = record { disk = no_files; files = λ path. paid_db }

run-Lawful_example : Lawful resending sample_home (run resending sample_home)
run-Lawful_example = run-Lawful resending sample_home

run_all-Lasts_example :
    let after = run_all (starting ∷ resending ∷ []) sample_home in
    Keeps sample_home.disk after.disk
    × (IsComplete sample_home.disk → IsComplete after.disk)
    × AllLast sample_home.files after.files
run_all-Lasts_example = run_all-Lasts (starting ∷ resending ∷ []) sample_home

abbrev resender : Opened
resender = record {
  app = record {
    rail = record { domain = found_domain; chain = sample_chain; address = account };
    halt_after = [];
    no_refill = false;
    eth = sample_eth;
  };
  path = codes "s.db";
  node = 0;
}

abbrev ledger : Bytes
ledger = domain_key sample_eth (some (pos 8_453)) 4

ledger_named : ledger ≢ []
unfolding domain_key chain_text print_ℤ format
ledger_named h = cc

store_opens : (open_store ledger paid_db).0 ≡ ok tt
store_opens = open_store_opens ledger paid_db.tables ledger_named (inl refl)

call_opens :
    (open_app sample_eth (opening_in resending sample_home) sample_home.files).0 ≡ ok resender
unfolding open_app find_out open_found start_app new_rail resolve given_config resolve_given
    parse_key read_key or_bad_key trim_0x config_domain wei or_plain read_ℤ parse scan decimals_of
    Domain.validate Policy.validate positive present
call_opens = rw store_opens

never_zero : NeverZero resender.app.rail
never_zero tx h = ground arith

run_records_example :
    All
      (IsRecorded resender.app.rail ((run resending sample_home).home.files (codes "s.db")).tables)
      (run resending sample_home).sent
run_records_example = run_records resending sample_home resender call_opens never_zero
