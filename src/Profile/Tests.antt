-- ===== src/Profile/Tests.antt =====
-- The theorem on profiles, at a concrete profile with an override of its domain.
use juice_rail.Base.{◌≡◌, refl, ◌⊎◌, true}
use juice_rail.Base.Lists.{length}
use juice_rail.Base.Error.{ok}
use juice_rail.Intent.{codes}
use juice_rail.Profile.{
  Inputs, is_set, or_plain, all_in_name, is_profile_name, check_profile_name, given_config,
  choose_domain, choose_key, profile_name, from_profile, resolve_given, resolve,
}
use juice_rail.Samples.{nearer_config, sample_setup}
use juice_rail.Profile.Resolve.{Overridden, OfProfile, resolve_sound}

abbrev sample_inputs : Inputs
sample_inputs = record { domain = nearer_config; store = codes "d/main.db"; key = codes "k" }

resolved : resolve length sample_setup ≡ ok sample_inputs
unfolding resolve given_config resolve_given from_profile check_profile_name is_profile_name
    all_in_name or_plain choose_domain choose_key profile_name
resolved = refl

resolve_sound_example :
    (is_set (codes "k") ≡ true)
    × (Overridden length sample_setup sample_inputs ⊎ OfProfile length sample_setup nearer_config)
resolve_sound_example = resolve_sound length sample_setup sample_inputs resolved
