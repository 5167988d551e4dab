-- ===== src/Command/Open/Tests.antt =====
-- An account that is opened at concrete files, works, and is opened again.
use juice_rail.Base.{ℕ, ◌≡◌, ◌≢◌, inl, inr, refl, ap, ◌∙◌, false, some, []}
use juice_rail.Base.Lists.{Bytes}
use juice_rail.Base.Int.{pos}
use juice_rail.Base.Error.{ok}
use juice_rail.Base.Decimal.{scan, parse, read_ℤ, format, print_ℤ}
use juice_rail.Command.Open.{Files, Opened, find_out, start_app, open_found, open_app}
use juice_rail.Command.Open.Ledger.{Serves, open_app-Serves, open_app-Run-open_app}
use juice_rail.Check.{new_rail}
use juice_rail.Domain
use juice_rail.Domain.{Domain}
use juice_rail.Ident.{trim_0x}
use juice_rail.Intent.{codes}
use juice_rail.Keys.{read_key, or_bad_key, parse_key, domain_key, chain_text}
use juice_rail.Keys.Domains.{lower_case-SpellsAddresses}
use juice_rail.Machine.{World}
use juice_rail.Observed.{open_store}
use juice_rail.Observed.Opening.{open_store_opens}
use juice_rail.Policy
use juice_rail.Policy.{positive, present}
use juice_rail.Profile.{
  is_profile_name, all_in_name, check_profile_name, wei, or_plain, decimals_of, config_domain,
  given_config, resolve_given, from_profile, choose_domain, choose_key, profile_name, resolve,
}
use juice_rail.Samples.{
  account, sample_chain, sample_eth, sample_opening, found_domain, sample_world, empty_db,
}
use juice_rail.Trace.Runs.{Run, Run-History, here, then, called, restarted, perform, reads_cursor}

abbrev no_rows : Files
no_rows = λ path. empty_db

abbrev sample_opened : Opened
sample_opened = record {
  app = record {
    rail = record { domain = found_domain; chain = sample_chain; address = account };
    halt_after = [];
    no_refill = false;
    eth = sample_eth;
  };
  path = codes "d/main.db";
  node = 0;
}

sample_opens :
    (files : Files)
    → (open_store (domain_key sample_eth (some (pos 8_453)) 4) (files (codes "d/main.db"))).0
      ≡ ok tt
    → (open_app sample_eth sample_opening files).0 ≡ ok sample_opened
unfolding open_app find_out open_found start_app new_rail resolve given_config resolve_given
    from_profile check_profile_name is_profile_name all_in_name or_plain choose_domain choose_key
    profile_name parse_key read_key or_bad_key trim_0x config_domain wei read_ℤ parse scan
    decimals_of Domain.validate Policy.validate positive present
sample_opens files h = rw h

abbrev ledger_key : Bytes
ledger_key = domain_key sample_eth (some (pos 8_453)) 4

key_named : ledger_key ≢ []
unfolding domain_key chain_text print_ℤ format
key_named h = cc

abbrev files_after : Files
files_after = (open_app sample_eth sample_opening no_rows).1

first_opens : open_app sample_eth sample_opening no_rows ≡ (ok sample_opened, files_after)
first_opens =
    ap (λ r. (r, files_after))
      (sample_opens no_rows (open_store_opens ledger_key empty_db.tables key_named (inl refl)))

open_app-Serves_example : Serves sample_eth sample_opening no_rows files_after sample_opened
open_app-Serves_example =
    open_app-Serves sample_eth sample_opening no_rows files_after sample_opened first_opens

-- The account works on the file, and the process ends.
abbrev opened_world : World ℕ
opened_world = record sample_world { store = files_after (codes "d/main.db") }

abbrev later_world : World ℕ
later_world = record (perform sample_opened.app.rail reads_cursor opened_world) {
  chain_checked = false;
}

working : Run sample_opened.app.rail opened_world later_world
working = then (then here (called opened_world reads_cursor)) (restarted _)

abbrev later_files : Files
later_files = λ path. record { tables = later_world.store.tables; faults = [] }

abbrev files_again : Files
files_again = (open_app sample_eth sample_opening later_files).1

served : Serves sample_eth sample_opening no_rows files_after sample_opened
served = open_app-Serves sample_eth sample_opening no_rows files_after sample_opened first_opens

bound_later : later_world.store.tables.domain ≡ some ledger_key
bound_later =
    (Run-History sample_opened.app.rail working).domain ∙ ap (λ t. t.domain) served.bound.tables

opens_again : open_app sample_eth sample_opening later_files ≡ (ok sample_opened, files_again)
opens_again =
    ap (λ r. (r, files_again))
      (sample_opens later_files
        (open_store_opens ledger_key later_world.store.tables key_named (inr bound_later)))

open_app-Run-open_app_example :
    (sample_opened.app.rail.domain.chain_id ≡ sample_opened.app.rail.domain.chain_id)
    × (sample_opened.app.rail.domain.token ≡ sample_opened.app.rail.domain.token)
open_app-Run-open_app_example =
    open_app-Run-open_app sample_eth sample_opening sample_opening no_rows files_after later_files
      files_again sample_opened sample_opened (lower_case-SpellsAddresses sample_eth (λ a. refl))
      first_opens refl working refl opens_again
