-- ===== src/Settle.antt =====
-- What has settled: go/rail/status.go. Statuses, the outcome of an intent, and the reconciliation of
-- spent nonces with recorded intents.
pub mod Evidence
pub mod Outcome
pub mod Quiet
pub mod Unchanged
pub mod Explained
pub mod Reconciled
mod Tests
use juice_rail.Base.{
  ℕ, zero, suc, ◌+◌, ◌-◌, ◌%◌, Bool, true, false, ◌&&◌, not, Option, none, some, List, [], ◌∷◌, ltb,
  leb, ◌==◌, if◌then◌else◌,
}
use mathlib.Core.List.{reverse}
use juice_rail.Base.Error.{Result, ok, err, plain, not_found, unreconciled}
use juice_rail.Intent.{Intent, Submission, Fact, kind_refill}
use juice_rail.Logs.{transfer_log}
use juice_rail.Chain.{topic_transfer, Header, Receipt, Log}
use juice_rail.Sql.Word.{word}
use juice_rail.Store
use juice_rail.Observed
use juice_rail.Machine.{Rail, M, sql, ask, lift, pure, fail, caught, on_option, ◌>>=◌, ◌>>◌}

-- `Status`
pub data Status : Type 0 where
  unknown pending confirmed failed : Status

-- `classify`
unfoldable pub classify : Option Fact → Status
classify none = pending
classify (some f) = if f.executed then confirmed else failed

-- The loop of `executed` over the logs.
unfoldable pub shows_transfer : Rail → Intent → List (Option Log) → Bool
shows_transfer r i [] = false
shows_transfer r i (none ∷ logs) = shows_transfer r i logs
shows_transfer r i (some lg ∷ logs) =
    let rest = shows_transfer r i logs in
    if not lg.removed
      && transfer_log (topic_transfer r.chain) lg r.domain.token r.address i.to i.amount
    then true
    else rest

-- `executed`
unfoldable pub executed : Rail → Intent → Receipt → Bool
executed r i receipt =
    if not (receipt.status == 1)
    then false
    else if i.kind == kind_refill
    then true
    else shows_transfer r i receipt.logs

-- `settledHeader`
unfoldable or_no_header : Option Header → Result Header
or_no_header none = err plain
or_no_header (some h) = ok h

unfoldable pub settled_header : (r : Rail) → M r.chain.Node Header
unfolding or_no_header
settled_header r = do h ← ask (r.chain.header (some r.domain.finality)); lift (or_no_header h)

-- What a receipt says of an attempt: it settled, with the fact, or it did not.
unfoldable fact_of : Rail → Intent → ℕ → ℕ → Receipt → Option ℕ → Option Fact
fact_of r i settled hash receipt none = none
fact_of r i settled hash receipt (some block) =
    if ltb settled block
    then none
    else some
        (record { tx_hash = hash; block_number = block % word; executed = executed r i receipt })

-- The `switch` of `outcome`: an attempt that was never mined, or is not settled, is passed over, and
-- an answer that is no evidence ends the search.
unfoldable evidence : Rail → Intent → ℕ → ℕ → Result (Option Receipt) → Result (Option Fact)
unfolding fact_of
evidence r i settled hash (err not_found) = ok none
evidence r i settled hash (err e) = err e
evidence r i settled hash (ok none) = ok none
evidence r i settled hash (ok (some receipt)) =
    ok (fact_of r i settled hash receipt receipt.block_number)

abbrev no_fact : Fact
no_fact = record { tx_hash = 0; block_number = 0; executed = false }

-- One round of the loop of `outcome`: ask for the receipt of an attempt.
unfoldable pub try_attempt : (r : Rail) → Intent → ℕ → ℕ → M r.chain.Node (Option Fact)
unfolding evidence
try_attempt r i settled hash = do
  answer ← caught (ask (r.chain.transaction_receipt hash))
  lift (evidence r i settled hash answer)

-- The loop of `outcome`, over the attempts from the last to the first.
unfoldable search_attempts : (r : Rail) → Intent → ℕ → List Submission → M r.chain.Node Fact
search_attempts r i settled [] = pure no_fact
search_attempts r i settled (s ∷ subs) = do
  found ← try_attempt r i settled s.tx_hash
  on_option found (search_attempts r i settled subs) (λ f. pure f)

-- `outcome`
unfoldable pub outcome : (r : Rail) → Intent → ℕ → M r.chain.Node Fact
unfolding search_attempts
outcome r i settled = do
  subs ← sql (Store.submissions r.address i.id)
  search_attempts r i settled (reverse subs)

-- The rest of `status`, once no fact is cached.
unfoldable derive : (r : Rail) → Intent → M r.chain.Node Status
unfolding settled_header
derive r i = do
  head ← settled_header r
  spent ← ask (r.chain.nonce_at r.address head.number)
  if leb spent i.nonce then pure pending else do
    f ← outcome r i head.number
    sql (Store.put_fact r.address i.id f)
    pure (classify (some f))

-- `status`
unfoldable pub status : (r : Rail) → Intent → M r.chain.Node Status
unfolding derive
status r i = do
  cached ← sql (Store.fact r.address i.id)
  on_option cached (derive r i) (λ f. pure (classify (some f)))

-- `Status`, of the identifier
unfoldable pub status_of : (r : Rail) → ℕ → M r.chain.Node Status
status_of r id = do
  found ← sql (Store.intent r.address id)
  on_option found (pure unknown) (λ i. status r i)

-- `settle`: every pending intent in turn.
unfoldable settle_each : (r : Rail) → List Intent → M r.chain.Node (Unit {0})
settle_each r [] = pure tt
settle_each r (i ∷ rest) = do s ← status r i; settle_each r rest

unfoldable pub settle : (r : Rail) → M r.chain.Node (Unit {0})
unfolding settle_each
settle r = do waiting ← sql (Store.pending r.address); settle_each r waiting

unfoldable or_unreconciled : Option Intent → Result Intent
or_unreconciled none = err unreconciled
or_unreconciled (some i) = ok i

-- The fact of a spent nonce, cached before or found now.
unfoldable spent_fact : (r : Rail) → Intent → ℕ → Option Fact → M r.chain.Node Fact
spent_fact r i settled (some f) = pure f
spent_fact r i settled none = do
  f ← outcome r i settled
  sql (Store.put_fact r.address i.id f)
  pure f

-- One round of `reconcile`.
unfoldable match_nonce : (r : Rail) → ℕ → ℕ → M r.chain.Node (Unit {0})
unfolding or_unreconciled spent_fact
match_nonce r settled nonce = do
  found ← sql (Store.intent_by_nonce r.address nonce)
  i ← lift (or_unreconciled found)
  cached ← sql (Store.fact r.address i.id)
  f ← spent_fact r i settled cached
  if f.tx_hash == 0 then fail unreconciled else pure tt

-- `for nonce := floor; nonce < spent; nonce++`, which makes `spent - floor` rounds.
unfoldable match_nonces : (r : Rail) → ℕ → ℕ → ℕ → M r.chain.Node (Unit {0})
unfolding match_nonce
match_nonces r settled nonce zero = pure tt
match_nonces r settled nonce (suc rounds) = do
  match_nonce r settled nonce
  match_nonces r settled (nonce + 1) rounds

-- `reconcile`
unfoldable pub reconcile : (r : Rail) → M r.chain.Node (Unit {0})
unfolding settled_header match_nonces
reconcile r = do
  head ← settled_header r
  spent ← ask (r.chain.nonce_at r.address head.number)
  floor ← sql (Observed.read_nonce_floor r.address)
  on_option floor (sql (Observed.put_nonce_floor r.address spent)) λ low. do
    match_nonces r head.number low (spent - low)
    sql (Observed.put_nonce_floor r.address spent)
