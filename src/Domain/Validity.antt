-- ===== src/Domain/Validity.antt =====
-- What `Domain.Validate` accepts.
use juice_rail.Base.{ℕ, ◌<◌, Option, some, ◌≤◌, ◌≡◌, ◌≢◌, ◌↔◌, refl, true, arith}
use juice_rail.Base.Error.{ok}
use juice_rail.Intent.{is_positive}
use juice_rail.Base.Int.{ℤ, pos}
use juice_rail.Intent.Validity.{positive_cases}
use juice_rail.Policy.Valid.{Bounds, Bounds-validate, validate-Bounds}
use juice_rail.Domain.{BlockTag, Domain, is_settled_tag, validate}

-- The tags whose blocks a domain may take as settled.
pub data Settles : BlockTag → Type 0 where
  latest_settles : Settles BlockTag.latest
  safe_settles : Settles BlockTag.safe
  finalized_settles : Settles BlockTag.finalized

Settles-of : (tag : BlockTag) → is_settled_tag tag ≡ true → Settles tag
Settles-of BlockTag.latest h = latest_settles
Settles-of BlockTag.safe h = safe_settles
Settles-of BlockTag.finalized h = finalized_settles
Settles-of (BlockTag.other_tag n) h = cc

tag-Settles : (tag : BlockTag) → Settles tag → is_settled_tag tag ≡ true
tag-Settles tag latest_settles = refl
tag-Settles tag safe_settles = refl
tag-Settles tag finalized_settles = refl

-- A domain that is completely configured.
pub record IsUsable (d : Domain) : Type 0 where
  pub chain : (n : ℕ) × (d.chain_id ≡ some (pos n)) × (0 < n)
  pub token : d.token ≢ 0
  pub decimals_least : 1 ≤ d.decimals
  pub decimals_most : d.decimals ≤ 36
  pub tag : Settles d.finality
  pub router : d.venue.router ≢ 0
  pub quoter : d.venue.quoter ≢ 0
  pub weth : d.venue.weth ≢ 0
  pub fee_tier : d.venue.fee_tier ≢ 0
  pub policy : Bounds d.gas

IsUsable-validate : (d : Domain) → validate d ≡ ok tt → IsUsable d
unfolding validate
IsUsable-validate d h = record {
  chain = positive_cases d.chain_id (ground arith);
  token = ground arith;
  decimals_least = ground arith;
  decimals_most = ground arith;
  tag = Settles-of d.finality (ground arith);
  router = ground arith;
  quoter = ground arith;
  weth = ground arith;
  fee_tier = ground arith;
  policy = Bounds-validate d.gas (ground arith);
}

positive_of : (o : Option ℤ) → (n : ℕ) × (o ≡ some (pos n)) × (0 < n) → is_positive o ≡ true
positive_of o (n, e, p) = rw e (ground arith)

validate-IsUsable : (d : Domain) → IsUsable d → validate d ≡ ok tt
unfolding validate
validate-IsUsable d u = ground (
  arith,
  validate-Bounds d.gas u.policy,
  positive_of d.chain_id u.chain,
  tag-Settles d.finality u.tag,
)

-- A domain is accepted exactly when its chain identifier is positive, its token, router, quoter and
-- wrapped currency are set, it has 1 to 36 decimals, its tag is `latest`, `safe` or `finalized`, its
-- pool has a fee tier, and its gas policy is orderly.
pub domain_validate_iff : (d : Domain) → (validate d ≡ ok tt) ↔ IsUsable d
domain_validate_iff d = (IsUsable-validate d, validate-IsUsable d)
