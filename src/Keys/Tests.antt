-- ===== src/Keys/Tests.antt =====
-- The key of a domain, where addresses are spelled in lower case.
use juice_rail.Base.{◌≡◌, refl}
use juice_rail.Base.Error.{ok}
use juice_rail.Domain.{Domain, validate}
use juice_rail.Keys.Domains.{lower_case-SpellsAddresses, domain_key-injective}
use juice_rail.Policy
use juice_rail.Policy.{positive, present}
use juice_rail.Samples.{sample_eth, sample_domain}

-- The same ledger with another pool.
abbrev other_pool : Domain
other_pool = record sample_domain { venue = record sample_domain.venue { fee_tier = 3_000 } }

sample_valid : validate sample_domain ≡ ok tt
unfolding validate Policy.validate positive present
sample_valid = refl

other_valid : validate other_pool ≡ ok tt
unfolding validate Policy.validate positive present
other_valid = refl

domain_key-injective_example :
    (sample_domain.chain_id ≡ other_pool.chain_id) × (sample_domain.token ≡ other_pool.token)
domain_key-injective_example =
    domain_key-injective sample_eth sample_domain other_pool
      (lower_case-SpellsAddresses sample_eth (λ a. refl)) sample_valid other_valid refl
