-- ===== src/Attempt/Tests.antt =====
-- The theorems on attempts, at a concrete account.
use juice_rail.Base.{◌≡◌, ◌<◌, ◌≤◌, ◌*◌, ℕ, refl, some, [], ◌∷◌, arith}
use juice_rail.Base.Error.{ok, ok-injective}
use juice_rail.Base.Int.{pos}
use juice_rail.Intent.{Submission}
use juice_rail.Attempt.{submit, raised, attempt_tx}
use juice_rail.Attempt.Durable.{IsWrittenAhead, IsGiven, submit_write_ahead}
use juice_rail.Attempt.Reaches.{Returns, submit_reaches}
use juice_rail.Attempt.Replace.{retry_replaces}
use juice_rail.Samples.{
  paid_db, sample_rail, sample_intent, sample_world, first_attempt, last_attempt,
}

-- The hash that the attempt is given with is not that of its transaction.
first-IsGiven : IsGiven sample_rail sample_intent first_attempt sample_world.store.tables
first-IsGiven signed = let e : 1_004 ≡ 0 = ok-injective signed in absurd (omega (arith, e))

submit_write_ahead_example :
    IsWrittenAhead sample_rail sample_intent first_attempt sample_world
      (submit sample_rail sample_intent first_attempt sample_world).1
submit_write_ahead_example =
    submit_write_ahead sample_rail sample_intent first_attempt sample_world first-IsGiven

submit_reaches_example :
    ((submit sample_rail sample_intent first_attempt sample_world).1.sent
      ≡ attempt_tx sample_rail sample_intent first_attempt ∷ [])
    × Returns (ok tt) 1_004 (submit sample_rail sample_intent first_attempt sample_world).0
submit_reaches_example =
    submit_reaches sample_rail sample_intent first_attempt 1_004 sample_world paid_db.tables refl

abbrev next_attempt : Submission
next_attempt = record first_attempt { tip = some (pos 17); fee_cap = some (pos 70) }

retry_replaces_example :
    let new = attempt_tx sample_rail sample_intent (raised next_attempt (some last_attempt)) in
    let old = attempt_tx sample_rail sample_intent last_attempt in
    (new.chain_id ≡ old.chain_id)
    × (new.nonce ≡ old.nonce)
    × (new.to ≡ old.to)
    × (new.gas ≡ old.gas)
    × (new.payload ≡ old.payload)
    × ((n : ℕ) × (new.tip ≡ some (pos n)) × (9 * 16 < 8 * n) × (17 ≤ n))
    × ((n : ℕ) × (new.fee_cap ≡ some (pos n)) × (9 * 80 < 8 * n) × (70 ≤ n))
retry_replaces_example =
    retry_replaces sample_rail sample_intent next_attempt last_attempt 16 80 17 70 refl refl refl
      refl
