-- ===== src/Venue/Tests.antt =====
-- The theorems on refills, at a concrete account.
use juice_rail.Base.{◌≡◌, refl, [], ◌∷◌, arith}
use juice_rail.Base.Int.{pos}
use juice_rail.Base.Error.{ok}
use juice_rail.Base.Binary.{set_bytes}
use juice_rail.Intent.{codes}
use juice_rail.Machine.{ask}
use juice_rail.Venue.{
  Permit, magnitude, struct_data, permit_message, call, one_word, call_word, token_uint,
  signature_of, sign_permit, permit_call, refill_calldata,
}
use juice_rail.Venue.Words.{Fits, words, words-struct_data}
use juice_rail.Venue.Batch.{Batches, refill_calldata-Batches}
use juice_rail.Samples.{account, sample_chain, sample_domain, sample_world}

abbrev sample_permit : Permit
sample_permit = record {
  owner = account;
  spender = 61;
  value = pos 1_000;
  nonce = pos 3;
  deadline = 4_600;
}

sample-Fits : Fits 5 sample_permit
unfolding magnitude
sample-Fits = record {
  typehash_fits = omega arith;
  owner_fits = omega arith;
  spender_fits = omega arith;
  value_fits = omega arith;
  nonce_fits = omega arith;
  deadline_fits = omega arith;
}

words-struct_data_example :
    words 6 (struct_data 5 sample_permit) ≡ 5 ∷ account ∷ 61 ∷ 1_000 ∷ 3 ∷ 4_600 ∷ []
unfolding magnitude
words-struct_data_example = words-struct_data 5 sample_permit sample-Fits

built :
    (refill_calldata sample_chain sample_domain account (pos 900) (pos 1_000) 4_600 sample_world).0
    ≡ ok (codes "call")
unfolding refill_calldata permit_call call_word call one_word token_uint ask sign_permit
    permit_message struct_data signature_of set_bytes
built = refl

refill_calldata-Batches_example :
    Batches sample_chain sample_domain account
      (pos 900)
      (pos 1_000)
      4_600
      sample_world.node
      (codes "call")
      sample_domain.venue.router02
refill_calldata-Batches_example =
    refill_calldata-Batches sample_chain sample_domain account (pos 900) (pos 1_000) 4_600
      sample_world (codes "call") built
