-- ===== src/Profile/Init/Tests.antt =====
-- `init` at concrete files: on a disk without files, and then once more, where the settings cannot be written.
use mathlib.Core.Path.{subst}
use juice_rail.Base.{◌≡◌, refl, ap, true, [], ◌∷◌}
use juice_rail.Base.Lists.{length}
use juice_rail.Base.Error.{ok}
use juice_rail.Base.Decimal.{scan, parse, read_ℤ}
use juice_rail.Base.Binary.{set_bytes}
use juice_rail.Domain
use juice_rail.Domain.{Domain, BlockTag}
use juice_rail.Policy
use juice_rail.Policy.{positive, present}
use juice_rail.Machine.{ask}
use juice_rail.Venue.{call, one_word, call_word, token_uint, quoted, quote_refill}
use juice_rail.Intent.{codes}
use juice_rail.Ident.{trim_0x}
use juice_rail.Check.{same_chain, check_chain, same_decimals, check_domain}
use juice_rail.Keys.{read_key, or_bad_key, parse_key, funding_checklist}
use juice_rail.Samples.{
  account, sample_config, sample_eth, sample_setting, no_faults, no_files, found_domain,
}
use juice_rail.Profile.{
  Inputs, or_text, resolve, is_profile_name, all_in_name, check_profile_name, wei, or_plain,
  decimals_of, config_domain,
}
use juice_rail.Profile.Disk.{no_settings, saved, Disk, load_settings, load_credentials, write_json}
use juice_rail.Profile.Init.{
  Setting, Started, Prepared, new_key, refuse_taken, refuse_changed, dial_and_check,
  prepare_profile, settings_with, write_settings, after_key, write_key, keys_with, init_profile,
}
use juice_rail.Profile.Init.Kept.{settings_in}
use juice_rail.Profile.Init.Complete.{
  IsComplete, Keeps, init_profile-IsComplete, init_profile-Keeps,
}
use juice_rail.Profile.Init.Opens.{Opens, asking, init_profile-resolve}

abbrev shown : Started
shown = record { account = account; checklist = funding_checklist sample_eth found_domain account }

abbrev first_prepared : Prepared
first_prepared = record {
  config = sample_config;
  domain = found_domain;
  settings = no_settings;
  keys = λ name. [];
  key = codes "cd";
  owner = account;
}

prepared :
    prepare_profile sample_setting no_files (codes "main") (codes "base.json") ≡ ok first_prepared
unfolding prepare_profile check_profile_name is_profile_name all_in_name config_domain wei or_plain
    decimals_of read_ℤ parse scan Domain.validate Policy.validate positive present load_settings
    refuse_taken refuse_changed load_credentials new_key parse_key read_key or_bad_key trim_0x
    dial_and_check check_domain check_chain same_chain ask token_uint call_word call one_word
    set_bytes same_decimals quote_refill quoted
prepared = refl

abbrev main_disk : Disk
main_disk = record {
  settings = saved (settings_with (codes "main") first_prepared);
  credentials = saved (keys_with (codes "main") first_prepared);
}

started :
    init_profile sample_setting (codes "main" ∷ codes "base.json" ∷ []) no_files
    ≡ (ok shown, main_disk)
unfolding init_profile write_key after_key write_settings write_json
started = rw prepared refl

main_current : or_text [] (settings_in main_disk.settings).current ≡ codes "main"
unfolding settings_in settings_with
main_current = refl

init_profile-resolve_example :
    (i : Inputs) × (resolve length (asking sample_setting main_disk []) ≡ ok i)
    × Opens sample_setting (codes "base.json") (codes "d/main.db") shown i
init_profile-resolve_example =
    init_profile-resolve sample_setting (codes "main") (codes "base.json") [] (codes "d") no_files
      main_disk shown started refl main_current

-- The settings cannot be put in place.
abbrev failing_setting : Setting
failing_setting = record sample_setting { settings_write = record no_faults { rename = true } }

no_files-IsComplete : IsComplete no_files
unfolding settings_in
no_files-IsComplete = record { key = λ n domain_name h. cc; domain = λ n domain_name h. cc }

main_disk-IsComplete : IsComplete main_disk
main_disk-IsComplete = subst IsComplete (ap (λ out. out.1) started) (
    init_profile-IsComplete sample_setting (codes "main" ∷ codes "base.json" ∷ []) no_files
      no_files-IsComplete)

init_profile-IsComplete_example :
    IsComplete (init_profile failing_setting (codes "spare" ∷ codes "base.json" ∷ []) main_disk).1
init_profile-IsComplete_example =
    init_profile-IsComplete failing_setting (codes "spare" ∷ codes "base.json" ∷ []) main_disk
      main_disk-IsComplete

init_profile-Keeps_example :
    Keeps main_disk
      (init_profile failing_setting (codes "spare" ∷ codes "base.json" ∷ []) main_disk).1
init_profile-Keeps_example =
    init_profile-Keeps failing_setting (codes "spare" ∷ codes "base.json" ∷ []) main_disk
