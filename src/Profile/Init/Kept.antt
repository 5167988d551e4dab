-- ===== src/Profile/Init/Kept.antt =====
-- What `initProfile` of cmd/railctl/main.go leaves on disk, however it ends.
use mathlib.Core.Path.{subst}
use juice_rail.Base.{
  ℕ, ◌≡◌, ◌⊎◌, inl, inr, refl, ap, sym, Bool, true, false, not, ◌||◌, Option, none, some, List, [],
  ◌∷◌, Bool-cases, if◌then◌else◌,
}
use juice_rail.Base.Lists.{Bytes}
use juice_rail.Base.Error.{Result, ok, err, plain, refuse_if, ok-injective, chained}
use juice_rail.Domain
use juice_rail.Domain.{Domain}
use juice_rail.Keys.{Eth, parse_key, read_key, funding_checklist}
use juice_rail.Ident.{trim_0x}
use juice_rail.Profile.{Config, Settings, is_set, config_domain, check_profile_name}
use juice_rail.Profile.Disk.{
  Saved, missing, broken, saved, Credentials, Disk, WriteFaults, no_settings, load_settings,
  load_credentials, write_json, readable_by_others,
}
use juice_rail.Profile.Init.{
  Setting, same_config, new_key, refuse_taken, refuse_changed, dial_and_check, Prepared,
  prepare_profile, settings_with, keys_with, Started, write_settings, after_key, write_key,
  init_profile,
}
use juice_rail.Profile.Init.Maps.{same_config_sound}

-- What is in a file, and nothing where there is no file that can be read.
unfoldable pub settings_in : Saved Settings → Settings
settings_in missing = no_settings
settings_in broken = no_settings
settings_in (saved set) = set

unfoldable pub keys_in : Saved Credentials → Bytes → Bytes
keys_in missing = λ name. []
keys_in broken = λ name. []
keys_in (saved c) = c.keys

settings_loaded :
    (s : Saved Settings) (set : Settings) → load_settings s ≡ ok set → set ≡ settings_in s
unfolding load_settings settings_in
settings_loaded missing set h = sym (ok-injective h)
settings_loaded broken set h = cc
settings_loaded (saved t) set h = sym (ok-injective h)

unless : (b : Bool) {k l : Bytes → Bytes} → (if b then err plain else ok k) ≡ ok l → l ≡ k
unless true h = cc
unless false h = sym (ok-injective h)

keys_loaded :
    (s : Saved Credentials) (keys : Bytes → Bytes) → load_credentials s ≡ ok keys → keys ≡ keys_in s
unfolding load_credentials keys_in
keys_loaded missing keys h = sym (ok-injective h)
keys_loaded broken keys h = cc
keys_loaded (saved c) keys h = unless (readable_by_others c.mode) h

not_taken : (o : Option Bytes) → refuse_taken o ≡ ok tt → o ≡ none
unfolding refuse_taken
not_taken none h = refl
not_taken (some n) h = cc

accepted : (b : Bool) → refuse_if (not b) plain ≡ ok tt → b ≡ true
accepted true h = refl
accepted false h = cc

not_changed :
    (o : Option Config) (c : Config) → refuse_changed o c ≡ ok tt → (o ≡ none) ⊎ (o ≡ some c)
unfolding refuse_changed
not_changed none c h = inl refl
not_changed (some installed) c h =
    inr (ap some (same_config_sound installed c (accepted (same_config installed c) h)))

pub key_set :
    (eth : Eth) (key : Bytes) (owner : ℕ) → parse_key eth key ≡ ok owner → is_set key ≡ true
unfolding parse_key read_key trim_0x
key_set eth [] owner h = cc
key_set eth (c ∷ s) owner h = refl

-- What has been checked before anything is written.
pub record Checked (e : Setting) (d : Disk) (name file : Bytes) (p : Prepared) : Type 0 where
  pub config : e.read_config file ≡ ok p.config
  pub valid : check_profile_name name ≡ ok tt
  pub named : is_set p.config.name ≡ true
  pub domain : config_domain e.eth.hex_to_address p.config ≡ ok p.domain
  pub validated : Domain.validate p.domain ≡ ok tt
  pub settings : p.settings ≡ settings_in d.settings
  pub read : load_settings d.settings ≡ ok p.settings
  pub free : p.settings.profiles name ≡ none
  pub installed :
      (p.settings.domains p.config.name ≡ none) ⊎ (p.settings.domains p.config.name ≡ some p.config)
  pub keys : p.keys ≡ keys_in d.credentials
  pub owner : parse_key e.eth p.key ≡ ok p.owner
  pub works : dial_and_check e p.config p.domain p.owner ≡ ok tt

module _ (e : Setting) (d : Disk) (name file : Bytes) where
  prepare_profile_checks :
      (p : Prepared) → prepare_profile e d name file ≡ ok p → Checked e d name file p
  unfolding prepare_profile
  prepare_profile_checks p h =
      let (u1, h1, k1) = chained (check_profile_name name) _ h in
      let (c, h2, k2) = chained (e.read_config file) _ k1 in
      let (u3, h3, k3) = chained (refuse_if (not (is_set c.name)) plain) _ k2 in
      let (domain, h4, k4) = chained (config_domain e.eth.hex_to_address c) _ k3 in
      let (u5, h5, k5) = chained (Domain.validate domain) _ k4 in
      let (dir, h6, k6) = chained e.rail_dir _ k5 in
      let (u7, h7, k7) = chained (e.make_dir dir) _ k6 in
      let (set, h8, k8) = chained (load_settings d.settings) _ k7 in
      let (u9, h9, k9) = chained (refuse_taken (set.profiles name)) _ k8 in
      let (u10, h10, k10) = chained (refuse_changed (set.domains c.name) c) _ k9 in
      let (keys, h11, k11) = chained (load_credentials d.credentials) _ k10 in
      let (key, h12, k12) = chained (new_key e) _ k11 in
      let (owner, h13, k13) = chained (parse_key e.eth key) _ k12 in
      let (u14, h14, k14) = chained (dial_and_check e c domain owner) _ k13 in
      let q : Prepared = record {
        config = c;
        domain = domain;
        settings = set;
        keys = keys;
        key = key;
        owner = owner;
      } in
      let same : q ≡ p = ok-injective k14 in
      let checked : Checked e d name file q = record {
        config = h2;
        valid = h1;
        named = accepted (is_set c.name) h3;
        domain = h4;
        validated = h5;
        settings = settings_loaded d.settings set h8;
        read = h8;
        free = not_taken (set.profiles name) h9;
        installed = not_changed (set.domains c.name) c h10;
        keys = keys_loaded d.credentials keys h11;
        owner = h13;
        works = h14;
      } in
      subst (Checked e d name file) same checked

-- How far `init` has come when it ends.
pub data Ends (e : Setting) (name file : Bytes) (d : Disk) : Result Started × Disk → Type 0 where
  refused : (x : _) → Ends e name file d (err x, d)
  key_only :
      (x : _) (p : Prepared)
      → Checked e d name file p
      → Ends e name file d (err x, record d { credentials = saved (keys_with name p) })
  complete :
      (p : Prepared)
      → Checked e d name file p
      → Ends e name file d (
        ok (record { account = p.owner; checklist = funding_checklist e.eth p.domain p.owner }),
        record { settings = saved (settings_with name p); credentials = saved (keys_with name p) },
      )

-- A write takes place, or it fails and the file is as it was.
written :
    {A : Type 0} (f : WriteFaults) (new : A) (old : Saved A)
    → (write_json f new old ≡ (ok tt, saved new)) ⊎ (write_json f new old ≡ (err plain, old))
unfolding write_json
written f new old =
    elim (Bool-cases (f.create || (f.chmod || (f.write || (f.sync || (f.close || f.rename)))))) [
      | inl b ↦ inr (rw b)
      | inr b ↦ inl (rw b)
    ]

module _ (e : Setting) (name file : Bytes) (d : Disk) where
  settings_ends :
      (p : Prepared)
      → Checked e d name file p
      → Ends e name file d
          (write_settings e name p (record d { credentials = saved (keys_with name p) }))
  unfolding write_settings
  settings_ends p c = elim (written e.settings_write (settings_with name p) d.settings) [
    | inl w ↦ rw w (complete p c)
    | inr w ↦ rw w (key_only plain p c)
  ]

  key_ends :
      (r : Result Prepared)
      → ((p : Prepared) → r ≡ ok p → Checked e d name file p)
      → Ends e name file d (write_key e name d r)
  unfolding write_key after_key
  key_ends (err x) checks = refused x
  key_ends (ok p) checks = elim (written e.key_write (keys_with name p) d.credentials) [
    | inl w ↦ rw w (settings_ends p (checks p refl))
    | inr w ↦ rw w (refused plain)
  ]

pub init_profile_ends :
    (e : Setting) (name file : Bytes) (d : Disk)
    → Ends e name file d (init_profile e (name ∷ file ∷ []) d)
unfolding init_profile
init_profile_ends e name file d =
    key_ends e name file d (prepare_profile e d name file) (prepare_profile_checks e d name file)

pub any_args_end :
    (e : Setting) (args : List Bytes) (d : Disk)
    → (name : Bytes) × (file : Bytes) × Ends e name file d (init_profile e args d)
unfolding init_profile
any_args_end e (name ∷ file ∷ []) d = (name, file, init_profile_ends e name file d)
any_args_end e [] d = ([], [], refused plain)
any_args_end e (name ∷ []) d = ([], [], refused plain)
any_args_end e (name ∷ file ∷ x ∷ more) d = ([], [], refused plain)
