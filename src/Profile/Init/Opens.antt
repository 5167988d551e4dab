-- ===== src/Profile/Init/Opens.antt =====
-- A command of cmd/railctl/main.go after `initProfile`: `resolve` on the files that `init` has written.
use mathlib.Core.Path.{subst}
use juice_rail.Base.{◌≡◌, refl, ap, sym, ◌∙◌, true, [], ◌∷◌, ◌++◌, some}
use juice_rail.Base.Lists.{Bytes}
use juice_rail.Base.Error.{Result, ok, ok-injective}
use juice_rail.Domain
use juice_rail.Domain.{Domain}
use juice_rail.Intent.{codes}
use juice_rail.Keys.{parse_key, funding_checklist}
use juice_rail.Profile.{
  Setup, Inputs, is_set, or_text, or_plain, is_profile_name, check_profile_name, config_domain,
  given_config, choose_domain, choose_key, profile_name, from_profile, resolve_given, resolve,
}
use juice_rail.Profile.Disk.{saved, Disk, load_settings, load_credentials, put_at}
use juice_rail.Profile.Init.{Setting, Prepared, settings_with, keys_with, Started, init_profile}
use juice_rail.Profile.Init.Kept.{
  settings_in, Checked, key_set, Ends, refused, key_only, complete, init_profile_ends,
}

-- The flags of a command that names a profile, or none, and the files it reads.
abbrev pub asking : Setting → Disk → Bytes → Setup
asking e d flag = record {
  config_flag = [];
  store_flag = [];
  profile_flag = flag;
  env_profile = [];
  env_key = [];
  load_config = e.read_config;
  rail_dir = e.rail_dir;
  load_settings = λ dir. load_settings d.settings;
  load_credentials = λ dir. load_credentials d.credentials;
}

-- What a command works with is what `init` has checked.
pub record Opens (e : Setting) (file store : Bytes) (s : Started) (i : Inputs) : Type 0 where
  pub config : e.read_config file ≡ ok i.domain
  pub store_path : i.store ≡ store
  pub account : parse_key e.eth i.key ≡ ok s.account
  pub domain :
      (d : Domain) × (config_domain e.eth.hex_to_address i.domain ≡ ok d)
      × (Domain.validate d ≡ ok tt)
      × (s.checklist ≡ funding_checklist e.eth d s.account)

-- Where `resolve` has the store of a profile.
abbrev store_in : Bytes → Bytes → Bytes
store_in dir name = dir ++ codes "/" ++ name ++ codes ".db"

name_set : (name : Bytes) → check_profile_name name ≡ ok tt → is_set name ≡ true
unfolding check_profile_name is_profile_name
name_set [] h = cc
name_set (c ∷ s) h = refl

-- A success has written both files.
record Wrote (e : Setting) (name file : Bytes) (d : Disk) (s : Started) (d' : Disk) : Type 0 where
  pub prepared : Prepared
  pub checked : Checked e d name file prepared
  pub started :
      record {
        account = prepared.owner;
        checklist = funding_checklist e.eth prepared.domain prepared.owner;
      }
      ≡ s
  pub disk : d' ≡ record {
    settings = saved (settings_with name prepared);
    credentials = saved (keys_with name prepared);
  }

ends-Wrote :
    (e : Setting) (name file : Bytes) (d : Disk) (out : Result Started × Disk) (s : Started)
    → Ends e name file d out
    → out.0 ≡ ok s
    → Wrote e name file d s out.1
ends-Wrote e name file d _ s (refused x) h = cc
ends-Wrote e name file d _ s (key_only x p c) h = cc
ends-Wrote e name file d _ s (complete p c) h = record {
  prepared = p;
  checked = c;
  started = ok-injective h;
  disk = refl;
}

module _ (e : Setting) (name file : Bytes) (d : Disk) (p : Prepared)
    (c : Checked e d name file p) where
  abbrev disk_of : Disk
  disk_of = record {
    settings = saved (settings_with name p);
    credentials = saved (keys_with name p);
  }

  abbrev found : Bytes → Inputs
  found dir = record { domain = p.config; store = store_in dir name; key = p.key }

  opened :
      (flag dir : Bytes)
      → e.rail_dir ≡ ok dir
      → or_text flag (settings_with name p).current ≡ name
      → resolve e.eth.hex_to_address (asking e disk_of flag) ≡ ok (found dir)
  unfolding resolve given_config resolve_given from_profile choose_domain choose_key profile_name
      load_settings load_credentials settings_with keys_with or_plain
  opened flag dir at named = rw (
    at,
    named,
    name_set name c.valid,
    c.valid,
    put_at p.settings.profiles name (some p.config.name),
    put_at p.settings.domains p.config.name (some p.config),
    put_at p.keys name p.key,
    key_set e.eth p.key p.owner c.owner,
  )

  opens :
      (dir : Bytes) (s : Started)
      → record { account = p.owner; checklist = funding_checklist e.eth p.domain p.owner } ≡ s
      → Opens e file (store_in dir name) s (found dir)
  opens dir s same =
      subst (λ t. Opens e file (store_in dir name) t (found dir)) same
        (record {
          config = c.config;
          store_path = refl;
          account = c.owner;
          domain = (p.domain, c.domain, c.validated, refl);
        })

-- After a successful `init`, a command that names the profile by its flag, or names none where it is the current
-- one, and that overrides nothing, finds the domain of the file that `init` was given, which is valid, the store of
-- the profile's name, and a key that is the account that was shown, with the checklist that was shown for it.
pub init_profile-resolve :
    (e : Setting) (name file flag dir : Bytes) (d d' : Disk) (s : Started)
    → init_profile e (name ∷ file ∷ []) d ≡ (ok s, d')
    → e.rail_dir ≡ ok dir
    → or_text flag (settings_in d'.settings).current ≡ name
    → (i : Inputs) × (resolve e.eth.hex_to_address (asking e d' flag) ≡ ok i)
      × Opens e file (store_in dir name) s i
unfolding settings_in
init_profile-resolve e name file flag dir d d' s h at named =
    let w = ends-Wrote e name file d _ s (init_profile_ends e name file d) (ap (λ out. out.0) h) in
    let written = sym (ap (λ out. out.1) h) ∙ w.disk in
    (
      found e name file d w.prepared w.checked dir,
      ap (λ x. resolve e.eth.hex_to_address (asking e x flag)) written
          ∙ opened e name file d w.prepared w.checked flag dir at
              (ap (λ x. or_text flag (settings_in x.settings).current) (sym written) ∙ named),
      opens e name file d w.prepared w.checked dir s w.started,
    )
