-- ===== src/Profile/Resolve.antt =====
-- What `resolve` of cmd/railctl/main.go comes to.
use juice_rail.Base.{
  ℕ, ◌≡◌, refl, ap, sym, ◌∙◌, ◌⊎◌, inl, inr, Bool, true, false, not, ◌&&◌, ◌||◌, Option, none, some,
  arith, ◌==◌, Bool-cases, if◌then◌else◌,
}
use juice_rail.Base.Lists.{Bytes}
use juice_rail.Base.Error.{Result, ok, err, plain, refuse_if, ok-injective, chained, ◌>>=◌}
use juice_rail.Profile.{
  Config, Settings, Setup, Inputs, is_set, or_plain, is_profile_name, check_profile_name,
  given_config, choose_domain, choose_key, profile_name, from_profile, resolve_given, resolve,
}

-- The domain is the one that the chosen profile names, or one of the same chain and token.
pub record OfProfile (hex_to_address : Bytes → ℕ) (e : Setup) (chosen : Config) : Type 0 where
  pub dir : Bytes
  pub set : Settings
  pub domain_name : Bytes
  pub installed : Config
  pub read : e.load_settings dir ≡ ok set
  pub valid : is_profile_name (profile_name e set) ≡ true
  pub profile : set.profiles (profile_name e set) ≡ some domain_name
  pub domain : set.domains domain_name ≡ some installed
  pub chain : chosen.chain_id ≡ installed.chain_id
  pub token : hex_to_address chosen.token ≡ hex_to_address installed.token

accepted : (b : Bool) → refuse_if (not b) plain ≡ ok tt → b ≡ true
accepted true h = refl
accepted false h = cc

present : {A : Type 0} (o : Option A) {a : A} → or_plain o ≡ ok a → o ≡ some a
unfolding or_plain
present none h = cc
present (some a) h = cc

taken :
    (b : Bool) (c chosen : Config)
    → (if b then err plain else ok c) ≡ ok chosen
    → (b ≡ false) × (c ≡ chosen)
taken true c chosen h = cc
taken false c chosen h = (refl, ok-injective h)

neither_differs : (a b c d : ℕ) → (not (a == b) || not (c == d)) ≡ false → (a ≡ b) × (c ≡ d)
neither_differs a b c d h = ground arith

same_ledger :
    (hex_to_address : Bytes → ℕ) (given : Option Config) (installed chosen : Config)
    → choose_domain hex_to_address given installed ≡ ok chosen
    → (chosen.chain_id ≡ installed.chain_id)
      × (hex_to_address chosen.token ≡ hex_to_address installed.token)
unfolding choose_domain
same_ledger hex_to_address none installed chosen h =
    let same : installed ≡ chosen = ok-injective h in
    (ap (λ c. c.chain_id) (sym same), ap (λ c. hex_to_address c.token) (sym same))
same_ledger hex_to_address (some c) installed chosen h =
    let (agree, same) = taken _ c chosen h in
    let (chain, token) = neither_differs _ _ _ _ agree in
    (ap (λ x. x.chain_id) (sym same) ∙ chain, ap (λ x. hex_to_address x.token) (sym same) ∙ token)

both : (a b : Bool) → (a && b) ≡ true → (a ≡ true) × (b ≡ true)
both true b h = (refl, h)
both false b h = cc

read_config :
    (b : Bool) (m : Result Config) (c : Config)
    → (if b then (m >>= λ x. ok (some x)) else ok none) ≡ ok (some c)
    → m ≡ ok c
read_config true (ok x) c h = cc
read_config true (err e) c h = cc
read_config false m c h = cc

module _ (hex_to_address : Bytes → ℕ) (e : Setup) where
  profile_used :
      (given : Option Config) (i : Inputs)
      → from_profile hex_to_address e given ≡ ok i
      → (is_set i.key ≡ true) × OfProfile hex_to_address e i.domain
  unfolding from_profile
  profile_used given i h =
      let (dir, h1, k1) = chained e.rail_dir _ h in
      let (set, h2, k2) = chained (e.load_settings dir) _ k1 in
      let name = profile_name e set in
      let (u, h3, k3) = chained (refuse_if (not (is_set name)) plain) _ k2 in
      let (v, h4, k4) = chained (check_profile_name name) _ k3 in
      let (domain_name, h5, k5) = chained (or_plain (set.profiles name)) _ k4 in
      let (installed, h6, k6) = chained (or_plain (set.domains domain_name)) _ k5 in
      let (chosen, h7, k7) = chained (choose_domain hex_to_address given installed) _ k6 in
      let (key, h8, k8) = chained (choose_key e dir name) _ k7 in
      let (x, h9, k9) = chained (refuse_if (not (is_set key)) plain) _ k8 in
      let same = ok-injective k9 in
      let (chain, token) = same_ledger hex_to_address given installed chosen h7 in
      let domain : chosen ≡ i.domain = ap (λ j. j.domain) same in
      (
        ap is_set (sym (ap (λ j. j.key) same)) ∙ accepted (is_set key) h9,
        record {
          dir = dir;
          set = set;
          domain_name = domain_name;
          installed = installed;
          read = h2;
          valid = unfold check_profile_name in accepted (is_profile_name name) h4;
          profile = present (set.profiles name) h5;
          domain = present (set.domains domain_name) h6;
          chain = ap (λ c. c.chain_id) (sym domain) ∙ chain;
          token = ap (λ c. hex_to_address c.token) (sym domain) ∙ token;
        },
      )

  -- Every override is there: the profile is not looked at.
  pub record Overridden (i : Inputs) : Type 0 where
    pub config : e.load_config e.config_flag ≡ ok i.domain
    pub store : i.store ≡ e.store_flag
    pub key : i.key ≡ e.env_key
    pub set_key : is_set e.env_key ≡ true
    pub set_store : is_set e.store_flag ≡ true

  overridden :
      (c : Config) (i : Inputs)
      → e.load_config e.config_flag ≡ ok c
      → (is_set e.store_flag ≡ true) × (is_set e.env_key ≡ true)
      → ok (record { domain = c; store = e.store_flag; key = e.env_key }) ≡ ok i
      → (is_set i.key ≡ true) × Overridden i
  overridden c i l (s, k) h =
      let same = ok-injective h in
      (
        ap is_set (sym (ap (λ j. j.key) same)) ∙ k,
        record {
          config = l ∙ ap (λ j. ok j.domain) same;
          store = sym (ap (λ j. j.store) same);
          key = sym (ap (λ j. j.key) same);
          set_key = k;
          set_store = s;
        },
      )

  loaded : (c : Config) → given_config e ≡ ok (some c) → e.load_config e.config_flag ≡ ok c
  unfolding given_config
  loaded c l = read_config (is_set e.config_flag) (e.load_config e.config_flag) c l

  given_used :
      (given : Option Config) (i : Inputs)
      → given_config e ≡ ok given
      → resolve_given hex_to_address e given ≡ ok i
      → (is_set i.key ≡ true) × (Overridden i ⊎ OfProfile hex_to_address e i.domain)
  unfolding resolve_given
  given_used none i l h = let (k, p) = profile_used none i h in (k, inr p)
  given_used (some c) i l h = elim (Bool-cases (is_set e.store_flag && is_set e.env_key)) [
    | inl b ↦ let (k, o) = overridden c i (loaded c l) (both _ _ b) (rw b at h) in (k, inl o)
    | inr b ↦ let (k, p) = profile_used (some c) i (rw b at h) in (k, inr p)
  ]

-- What `resolve` returns has a key, and it comes either from overrides alone, or from a profile with a valid name:
-- then the domain is the installed one or has the same chain and the same token address, whatever `-config` says.
pub resolve_sound :
    (hex_to_address : Bytes → ℕ) (e : Setup) (i : Inputs)
    → resolve hex_to_address e ≡ ok i
    → (is_set i.key ≡ true) × (Overridden hex_to_address e i ⊎ OfProfile hex_to_address e i.domain)
unfolding resolve
resolve_sound hex_to_address e i h =
    let (given, l, k) =
      chained (given_config e) (λ given. resolve_given hex_to_address e given) h in
    given_used hex_to_address e given i l k
