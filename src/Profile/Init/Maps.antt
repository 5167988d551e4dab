-- ===== src/Profile/Init/Maps.antt =====
-- The maps of the two files of cmd/railctl/main.go, and `==` of what they hold.
use juice_rail.Base.{ℕ, ◌≡◌, refl, ap, sym, Bool, true, false, ◌&&◌, ◌==◌, arith}
use juice_rail.Base.Lists.{eq_of_eq_bytes}
use juice_rail.Domain.{BlockTag, latest, safe, finalized, other_tag}
use juice_rail.Profile.{VenueConfig, GasConfig, Config}
use juice_rail.Profile.Init.{same_tag, same_bool, same_venue, same_gas, same_config}

split : (a b : Bool) → (a && b) ≡ true → (a ≡ true) × (b ≡ true)
split true b h = (refl, h)
split false b h = cc

numbers : (m n : ℕ) → (m == n) ≡ true → m ≡ n
numbers m n h = ground arith

tags : (s t : BlockTag) → same_tag s t ≡ true → s ≡ t
unfolding same_tag
tags latest latest h = refl
tags safe safe h = refl
tags finalized finalized h = refl
tags (other_tag n) (other_tag m) h = ap other_tag (numbers n m h)
tags latest safe h = cc
tags latest finalized h = cc
tags latest (other_tag m) h = cc
tags safe latest h = cc
tags safe finalized h = cc
tags safe (other_tag m) h = cc
tags finalized latest h = cc
tags finalized safe h = cc
tags finalized (other_tag m) h = cc
tags (other_tag n) latest h = cc
tags (other_tag n) safe h = cc
tags (other_tag n) finalized h = cc

bools : (a b : Bool) → same_bool a b ≡ true → a ≡ b
bools true b h = sym h
bools false true h = cc
bools false false h = refl

venues : (a b : VenueConfig) → same_venue a b ≡ true → a ≡ b
unfolding same_venue
venues a b h =
    let (router, h1) = split _ _ h in
    let (quoter, h2) = split _ _ h1 in
    let (weth, h3) = split _ _ h2 in
    let (fee_tier, router02) = split _ _ h3 in
    λ i. record {
      router = eq_of_eq_bytes a.router b.router router i;
      quoter = eq_of_eq_bytes a.quoter b.quoter quoter i;
      weth = eq_of_eq_bytes a.weth b.weth weth i;
      fee_tier = numbers a.fee_tier b.fee_tier fee_tier i;
      router02 = bools a.router02 b.router02 router02 i;
    }

gases : (a b : GasConfig) → same_gas a b ≡ true → a ≡ b
unfolding same_gas
gases a b h =
    let (min, h1) = split _ _ h in
    let (max, h2) = split _ _ h1 in
    let (slippage, h3) = split _ _ h2 in
    let (fee, h4) = split _ _ h3 in
    let (payment, swap) = split _ _ h4 in
    λ i. record {
      min = eq_of_eq_bytes a.min b.min min i;
      max = eq_of_eq_bytes a.max b.max max i;
      slippage_bps = numbers a.slippage_bps b.slippage_bps slippage i;
      fee_bound = eq_of_eq_bytes a.fee_bound b.fee_bound fee i;
      payment_gas = numbers a.payment_gas b.payment_gas payment i;
      swap_gas = numbers a.swap_gas b.swap_gas swap i;
    }

-- Two configurations that compare as the same are the same.
pub same_config_sound : (a b : Config) → same_config a b ≡ true → a ≡ b
unfolding same_config
same_config_sound a b h =
    let (name, h1) = split _ _ h in
    let (chain, h2) = split _ _ h1 in
    let (rpc, h3) = split _ _ h2 in
    let (token, h4) = split _ _ h3 in
    let (decimals, h5) = split _ _ h4 in
    let (finality, h6) = split _ _ h5 in
    let (from_block, h7) = split _ _ h6 in
    let (venue, gas) = split _ _ h7 in
    λ i. record {
      name = eq_of_eq_bytes a.name b.name name i;
      chain_id = numbers a.chain_id b.chain_id chain i;
      rpc = eq_of_eq_bytes a.rpc b.rpc rpc i;
      token = eq_of_eq_bytes a.token b.token token i;
      decimals = numbers a.decimals b.decimals decimals i;
      finality = tags a.finality b.finality finality i;
      from_block = numbers a.from_block b.from_block from_block i;
      venue = venues a.venue b.venue venue i;
      gas = gases a.gas b.gas gas i;
    }
