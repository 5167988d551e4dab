-- ===== src/Attempt/Replace.antt =====
-- What `Retry` of go/rail/rail.go changes of an attempt.
use juice_rail.Base.{ℕ, ◌*◌, ◌≤◌, ◌<◌, ◌≡◌, refl, ap, some}
use juice_rail.Base.Int.{pos}
use juice_rail.Intent.{Intent, Submission}
use juice_rail.Machine.{Rail}
use juice_rail.Fees.Replacement.{retry_fee}
use juice_rail.Attempt.{attempt_tx, raised}

-- After a last attempt with tip `t` and fee cap `f`, a retry for which `t'` and `f'` are suggested
-- makes a transaction of the same chain, nonce, destination, gas and calldata. Its tip and its fee
-- cap are each more than an eighth above the last ones, and at least what is suggested. No fee is
-- negative.
pub retry_replaces :
    (r : Rail) (i : Intent) (next last : Submission) (t f t' f' : ℕ)
    → last.tip ≡ some (pos t)
    → last.fee_cap ≡ some (pos f)
    → next.tip ≡ some (pos t')
    → next.fee_cap ≡ some (pos f')
    → let new = attempt_tx r i (raised next (some last)) in
      let old = attempt_tx r i last in
      (new.chain_id ≡ old.chain_id)
      × (new.nonce ≡ old.nonce)
      × (new.to ≡ old.to)
      × (new.gas ≡ old.gas)
      × (new.payload ≡ old.payload)
      × ((n : ℕ) × (new.tip ≡ some (pos n)) × (9 * t < 8 * n) × (t' ≤ n))
      × ((n : ℕ) × (new.fee_cap ≡ some (pos n)) × (9 * f < 8 * n) × (f' ≤ n))
unfolding attempt_tx raised
retry_replaces r i next last t f t' f' a b c d =
    let (n, e, above, least, _) = retry_fee t' t in
    let (m, g, above', least', _) = retry_fee f' f in
    (
      refl,
      refl,
      refl,
      refl,
      refl,
      (n, ap some (rw (a, c) e), above, least),
      (m, ap some (rw (b, d) g), above', least'),
    )
