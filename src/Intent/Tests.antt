-- ===== src/Intent/Tests.antt =====
-- The theorem on what an intent must be, at a concrete one.
use juice_rail.Base.{◌≡◌, ◌↔◌}
use juice_rail.Base.Error.{ok}
use juice_rail.Intent.{validate}
use juice_rail.Intent.Validity.{IsValid, intent_validate_iff}
use juice_rail.Samples.{sample_intent}

intent_validate_iff_example : (validate sample_intent ≡ ok tt) ↔ IsValid sample_intent
intent_validate_iff_example = intent_validate_iff sample_intent
