-- ===== src/Profile/Init/Complete.antt =====
-- The profiles on disk and what each of them needs, across `initProfile` of cmd/railctl/main.go.
use juice_rail.Base.{◌≡◌, ◌⊎◌, inl, inr, refl, ap, sym, ◌∙◌, true, none, some, List}
use juice_rail.Base.Lists.{Bytes, some-injective}
use juice_rail.Base.Error.{Result}
use juice_rail.Profile.{Config, is_set}
use juice_rail.Profile.Disk.{saved, Disk, put_at, put_cases}
use juice_rail.Profile.Init.{Setting, Prepared, settings_with, keys_with, Started, init_profile}
use juice_rail.Profile.Init.Kept.{
  settings_in, keys_in, Checked, key_set, Ends, refused, key_only, complete, any_args_end,
}

-- What `d` has is in `d'`.
pub record Keeps (d d' : Disk) : Type 0 where
  pub domains :
      (n : Bytes) (c : Config)
      → (settings_in d.settings).domains n ≡ some c
      → (settings_in d'.settings).domains n ≡ some c
  pub profiles :
      (n domain_name : Bytes)
      → (settings_in d.settings).profiles n ≡ some domain_name
      → (settings_in d'.settings).profiles n ≡ some domain_name
  pub keys :
      (n domain_name : Bytes)
      → (settings_in d.settings).profiles n ≡ some domain_name
      → keys_in d'.credentials n ≡ keys_in d.credentials n

pub Keeps-refl : (d : Disk) → Keeps d d
Keeps-refl d = record { domains = λ n c h. h; profiles = λ n m h. h; keys = λ n m h. refl }

pub Keeps-trans : (d d' d'' : Disk) → Keeps d d' → Keeps d' d'' → Keeps d d''
Keeps-trans d d' d'' p q = record {
  domains = λ n c h. q.domains n c (p.domains n c h);
  profiles = λ n m h. q.profiles n m (p.profiles n m h);
  keys = λ n m h. q.keys n m (p.profiles n m h) ∙ p.keys n m h;
}

-- Every profile has a key and an installed domain.
pub record IsComplete (d : Disk) : Type 0 where
  pub key :
      (n domain_name : Bytes)
      → (settings_in d.settings).profiles n ≡ some domain_name
      → is_set (keys_in d.credentials n) ≡ true
  pub domain :
      (n domain_name : Bytes)
      → (settings_in d.settings).profiles n ≡ some domain_name
      → (c : Config) × ((settings_in d.settings).domains domain_name ≡ some c)

module _ (e : Setting) (d : Disk) (name file : Bytes) (p : Prepared)
    (c : Checked e d name file p) where
  new_profile :
      (n domain_name : Bytes)
      → (settings_in d.settings).profiles n ≡ some domain_name
      → n ≡ name
      → ⊥
  new_profile n domain_name h same =
      let free : (settings_in d.settings).profiles name ≡ none =
        ap (λ set. set.profiles name) (sym c.settings) ∙ c.free in
      let taken : (settings_in d.settings).profiles name ≡ some domain_name =
        ap (settings_in d.settings).profiles (sym same) ∙ h in
      cc

  as_installed :
      (installed : Config)
      → (settings_in d.settings).domains p.config.name ≡ some installed
      → some p.config ≡ some installed
  as_installed installed h =
      let at : p.settings.domains p.config.name ≡ some installed =
        ap (λ set. set.domains p.config.name) c.settings ∙ h in
      elim c.installed [ inl none_yet ↦ cc | inr same ↦ sym same ∙ at ]

  key_kept :
      (n domain_name : Bytes)
      → (settings_in d.settings).profiles n ≡ some domain_name
      → keys_in (saved (keys_with name p)) n ≡ keys_in d.credentials n
  unfolding keys_in keys_with
  key_kept n domain_name h = elim (put_cases p.keys name p.key n) [
    | inl (same, at) ↦ absurd (new_profile n domain_name h same)
    | inr at ↦ at ∙ ap (λ keys. keys n) c.keys
  ]

  domain_kept :
      (n : Bytes) (installed : Config)
      → (settings_in d.settings).domains n ≡ some installed
      → (settings_in (saved (settings_with name p))).domains n ≡ some installed
  unfolding settings_in settings_with
  domain_kept n installed h = elim (put_cases p.settings.domains p.config.name (some p.config) n) [
    | inl (same, at) ↦
        at ∙ as_installed installed (ap (settings_in d.settings).domains (sym same) ∙ h)
    | inr at ↦ at ∙ ap (λ set. set.domains n) c.settings ∙ h
  ]

  profile_kept :
      (n domain_name : Bytes)
      → (settings_in d.settings).profiles n ≡ some domain_name
      → (settings_in (saved (settings_with name p))).profiles n ≡ some domain_name
  unfolding settings_in settings_with
  profile_kept n domain_name h = elim (put_cases p.settings.profiles name (some p.config.name) n) [
    | inl (same, at) ↦ absurd (new_profile n domain_name h same)
    | inr at ↦ at ∙ ap (λ set. set.profiles n) c.settings ∙ h
  ]

  -- A profile in the new settings is the new one, or was there.
  profile_cases :
      (n domain_name : Bytes)
      → (settings_in (saved (settings_with name p))).profiles n ≡ some domain_name
      → (n ≡ name) × (p.config.name ≡ domain_name)
        ⊎ ((settings_in d.settings).profiles n ≡ some domain_name)
  unfolding settings_in settings_with
  profile_cases n domain_name h = elim (put_cases p.settings.profiles name (some p.config.name) n) [
    | inl (same, at) ↦ inl (same, some-injective (sym at ∙ h))
    | inr at ↦ inr (ap (λ set. set.profiles n) (sym c.settings) ∙ sym at ∙ h)
  ]

  new_domain : (settings_in (saved (settings_with name p))).domains p.config.name ≡ some p.config
  unfolding settings_in settings_with
  new_domain = put_at p.settings.domains p.config.name (some p.config)

  new_key_set : is_set (keys_in (saved (keys_with name p)) name) ≡ true
  unfolding keys_in keys_with
  new_key_set = ap is_set (put_at p.keys name p.key) ∙ key_set e.eth p.key p.owner c.owner

  key_only-IsComplete :
      IsComplete d → IsComplete (record d { credentials = saved (keys_with name p) })
  key_only-IsComplete whole = record {
    key = λ n domain_name h. ap is_set (key_kept n domain_name h) ∙ whole.key n domain_name h;
    domain = whole.domain;
  }

  written-IsComplete :
      IsComplete d
      → IsComplete (record {
        settings = saved (settings_with name p);
        credentials = saved (keys_with name p);
      })
  written-IsComplete whole = record {
    key = λ n domain_name h. elim (profile_cases n domain_name h) [
      | inl (same, at) ↦ ap (λ m. is_set (keys_in (saved (keys_with name p)) m)) same ∙ new_key_set
      | inr old ↦ ap is_set (key_kept n domain_name old) ∙ whole.key n domain_name old
    ];
    domain = λ n domain_name h. elim (profile_cases n domain_name h) [
      | inl (same, at) ↦
          (p.config, ap (settings_in (saved (settings_with name p))).domains (sym at) ∙ new_domain)
      | inr old ↦
          let (installed, there) = whole.domain n domain_name old in
          (installed, domain_kept domain_name installed there)
    ];
  }

ends-IsComplete :
    (e : Setting) (name file : Bytes) (d : Disk) (out : Result Started × Disk)
    → Ends e name file d out
    → IsComplete d
    → IsComplete out.1
ends-IsComplete e name file d _ (refused x) whole = whole
ends-IsComplete e name file d _ (key_only x p c) whole = key_only-IsComplete e d name file p c whole
ends-IsComplete e name file d _ (complete p c) whole = written-IsComplete e d name file p c whole

ends-Keeps :
    (e : Setting) (name file : Bytes) (d : Disk) (out : Result Started × Disk)
    → Ends e name file d out
    → Keeps d out.1
ends-Keeps e name file d _ (refused x) = Keeps-refl d
ends-Keeps e name file d _ (key_only x p c) = record {
  domains = λ n c h. h;
  profiles = λ n m h. h;
  keys = key_kept e d name file p c;
}
ends-Keeps e name file d _ (complete p c) = record {
  domains = domain_kept e d name file p c;
  profiles = profile_kept e d name file p c;
  keys = key_kept e d name file p c;
}

-- If every profile on disk has a key and an installed domain, then so it is after `init`, whatever fails, the
-- write of the settings after that of the key included.
pub init_profile-IsComplete :
    (e : Setting) (args : List Bytes) (d : Disk)
    → IsComplete d
    → IsComplete (init_profile e args d).1
init_profile-IsComplete e args d whole =
    let (name, file, ends) = any_args_end e args d in
    ends-IsComplete e name file d (init_profile e args d) ends whole

-- Whether `init` succeeds or fails, and wherever it fails: each installed domain keeps its contents, each
-- profile its domain, and each recorded profile its key.
pub init_profile-Keeps :
    (e : Setting) (args : List Bytes) (d : Disk) → Keeps d (init_profile e args d).1
init_profile-Keeps e args d =
    let (name, file, ends) = any_args_end e args d in
    ends-Keeps e name file d (init_profile e args d) ends
