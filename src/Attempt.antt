-- ===== src/Attempt.antt =====
-- Attempts: `submit`, `Send` and `Retry` of go/rail/rail.go. One attempt is one signed transaction of
-- a recorded intent; attempts of an intent differ in fees only.
pub mod Durable
pub mod Known
pub mod Reaches
pub mod Replace
mod Tests
use juice_rail.Base.{
  ℕ, ◌+◌, Bool, true, false, ◌&&◌, ◌||◌, Option, none, some, [], ◌∷◌, leb, ◌==◌, if◌then◌else◌,
}
use juice_rail.Base.Lists.{Bytes, last?}
use juice_rail.Base.Error.{Error, Result, ok, err, no_intent, node}
use juice_rail.Intent.{Intent, Submission, kind_refill, codes}
use juice_rail.Policy.{limits}
use juice_rail.Chain.{Tx}
use juice_rail.Store
use juice_rail.Fees.{Price, fees, bump, max_int}
use juice_rail.Machine.{Rail, M, sql, lift, pure, broadcast, on_option, ◌>>=◌, ◌>>◌}

-- `gasLimit`
unfoldable pub gas_limit : Rail → ℕ → ℕ
gas_limit r kind =
    let (payment, swap) = limits r.domain.gas in if kind == kind_refill then swap else payment

-- `target`
unfoldable target : Rail → Intent → ℕ
target r i = if i.kind == kind_refill then i.to else r.domain.token

-- Lower case of an ASCII byte.
unfoldable pub to_lower : ℕ → ℕ
to_lower c = if leb b'A' c && leb c b'Z' then c + 32 else c

unfoldable pub starts_with : Bytes → Bytes → Bool
starts_with [] s = true
starts_with (p ∷ ps) [] = false
starts_with (p ∷ ps) (c ∷ s) = p == to_lower c && starts_with ps s

-- `strings.Contains(strings.ToLower(s), part)`
unfoldable pub contains_lower : Bytes → Bytes → Bool
contains_lower part [] = starts_with part []
contains_lower part (c ∷ s) = starts_with part (c ∷ s) || contains_lower part s

-- `alreadySettled`. Only an error of a node has a text of its own here.
unfoldable pub already_settled : Error → Bool
already_settled (node text) =
    contains_lower (codes "already known") text
    || (contains_lower (codes "known transaction") text
        || contains_lower (codes "nonce too low") text)
already_settled _ = false

-- What a refused broadcast comes to.
unfoldable unless_settled : Result (Unit {0}) → Result (Unit {0})
unless_settled (ok u) = ok tt
unless_settled (err e) = if already_settled e then ok tt else err e

-- The transaction of one attempt.
unfoldable pub attempt_tx : Rail → Intent → Submission → Tx
unfolding target
attempt_tx r i s = record {
  chain_id = r.domain.chain_id;
  nonce = i.nonce;
  tip = s.tip;
  fee_cap = s.fee_cap;
  gas = s.gas;
  to = target r i;
  payload = i.calldata;
}

-- A hash that is not recorded yet is recorded.
unfoldable pub note_attempt : (r : Rail) → Intent → Submission → ℕ → M r.chain.Node (Unit {0})
note_attempt r i s hash =
    if s.tx_hash == hash
    then pure tt
    else sql (Store.append_submission r.address i.id (record s { tx_hash = hash }))

-- The broadcast, and the hash as the answer, unless the node refuses for a reason that counts.
unfoldable pub launch : (r : Rail) → Tx → ℕ → M r.chain.Node ℕ
unfolding unless_settled
launch r tx hash = do answer ← broadcast r.chain tx; lift (unless_settled answer); pure hash

-- `submit`
unfoldable pub submit : (r : Rail) → Intent → Submission → M r.chain.Node ℕ
unfolding attempt_tx note_attempt launch
submit r i s = do
  hash ← lift (r.chain.sign (attempt_tx r i s))
  note_attempt r i s hash
  launch r (attempt_tx r i s) hash

unfoldable or_no_intent : Option Intent → Result Intent
or_no_intent none = err no_intent
or_no_intent (some i) = ok i

-- `unresolved`: nothing, where the intent has settled.
unfoldable pub unresolved : (r : Rail) → ℕ → M r.chain.Node (Option Intent)
unfolding or_no_intent
unresolved r id = do
  found ← sql (Store.intent r.address id)
  i ← lift (or_no_intent found)
  done ← sql (Store.fact r.address id)
  on_option done (pure (some i)) (λ f. pure none)

unfoldable pub fresh : Rail → Intent → Price → Submission
unfolding gas_limit
fresh r i price = record {
  tx_hash = 0;
  gas = gas_limit r i.kind;
  tip = some price.tip;
  fee_cap = some price.cap;
}

-- `Send` of an intent that is live; the last attempt is made again.
unfoldable pub send_live : (r : Rail) → Intent → Option Submission → M r.chain.Node ℕ
unfolding fresh submit
send_live r i (some last) = submit r i last
send_live r i none = do price ← fees r.chain; submit r i (fresh r i price)

-- `Send`. The hash 0 says that the intent has settled.
unfoldable pub send : (r : Rail) → ℕ → M r.chain.Node ℕ
unfolding unresolved send_live
send r id = do
  live ← unresolved r id
  on_option live (pure 0)
      λ i. do subs ← sql (Store.submissions r.address id); send_live r i (last? subs)

-- The attempt that `Retry` makes after the last one.
unfoldable pub raised : Submission → Option Submission → Submission
raised next none = next
raised next (some last) = record next {
  gas = last.gas;
  tip = some (max_int next.tip (some (bump last.tip)));
  fee_cap = some (max_int next.fee_cap (some (bump last.fee_cap)));
}

-- `Retry`
unfoldable pub retry : (r : Rail) → ℕ → M r.chain.Node ℕ
unfolding unresolved raised fresh submit
retry r id = do
  live ← unresolved r id
  on_option live (pure 0) λ i. do
    subs ← sql (Store.submissions r.address id)
    price ← fees r.chain
    submit r i (raised (fresh r i price) (last? subs))
