-- ===== src/Domain/Tests.antt =====
-- The theorem on what a domain must be, at a concrete one.
use juice_rail.Base.{◌≡◌, ◌↔◌}
use juice_rail.Base.Error.{ok}
use juice_rail.Domain.{validate}
use juice_rail.Domain.Validity.{IsUsable, domain_validate_iff}
use juice_rail.Samples.{sample_domain}

domain_validate_iff_example : (validate sample_domain ≡ ok tt) ↔ IsUsable sample_domain
domain_validate_iff_example = domain_validate_iff sample_domain
