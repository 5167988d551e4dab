-- ===== src/Settle/Evidence.antt =====
-- When a receipt shows that a payment was carried out: `executed` of go/rail/status.go.
use juice_rail.Base.{
  ℕ, ◌≤◌, ◌≡◌, ◌≢◌, ◌⊎◌, inl, inr, sym, ap, Bool-cases, true, false, Option, none, some, List, [],
  ◌∷◌, arith,
}
use juice_rail.Base.Int.{ℤ, pos, eq_of_parts}
use juice_rail.Base.Lists.{length}
use juice_rail.Intent.{Intent, kind_refill}
use juice_rail.Chain.{topic_transfer, Receipt, Log}
use juice_rail.Machine.{Rail}
use juice_rail.Logs.{transfer_log, are_topics, amount_is, address_of, last_word}
use juice_rail.Settle.{executed, shows_transfer}

-- A log of the token's own transfer event: from the account to the payee, of exactly the amount.
pub record IsPayment (r : Rail) (i : Intent) (lg : Log) : Type 0 where
  pub kept : lg.removed ≡ false
  pub token : lg.address ≡ r.domain.token
  pub sender : ℕ
  pub payee : ℕ
  pub topics : lg.topics ≡ topic_transfer r.chain ∷ sender ∷ payee ∷ []
  pub sent : address_of sender ≡ r.address
  pub received : address_of payee ≡ i.to
  pub long : 32 ≤ length lg.payload
  pub amount : i.amount ≡ some (pos (last_word lg.payload))

abbrev pub Shows : (r : Rail) → Intent → List (Option Log) → Type 0
Shows r i [] = ⊥
Shows r i (none ∷ logs) = Shows r i logs
Shows r i (some lg ∷ logs) = IsPayment r i lg ⊎ Shows r i logs

module _ (r : Rail) (i : Intent) where
  topics_of :
      (ts : List ℕ)
      → are_topics (topic_transfer r.chain) r.address i.to ts ≡ true
      → (a : ℕ) × (b : ℕ) × (ts ≡ topic_transfer r.chain ∷ a ∷ b ∷ [])
        × (address_of a ≡ r.address)
        × (address_of b ≡ i.to)
  unfolding are_topics
  topics_of [] h = cc
  topics_of (x ∷ []) h = cc
  topics_of (x ∷ a ∷ []) h = cc
  topics_of (x ∷ a ∷ b ∷ []) h = (a, b, ground arith, ground arith, ground arith)
  topics_of (x ∷ a ∷ b ∷ c ∷ ts) h = cc

  amount_of : (v : Option ℤ) (n : ℕ) → amount_is v n ≡ true → v ≡ some (pos n)
  unfolding amount_is
  amount_of none n h = cc
  amount_of (some v) n h = ap some (sym (eq_of_parts (pos n) v (ground arith)))

  transfer_log-IsPayment :
      (lg : Log)
      → lg.removed ≡ false
      → transfer_log (topic_transfer r.chain) lg r.domain.token r.address i.to i.amount ≡ true
      → IsPayment r i lg
  unfolding transfer_log
  transfer_log-IsPayment lg k h =
      let (a, b, ts, sa, sb) = topics_of lg.topics (ground arith) in
      record {
        kept = k;
        token = ground arith;
        sender = a;
        payee = b;
        topics = ts;
        sent = sa;
        received = sb;
        long = ground arith;
        amount = amount_of i.amount (last_word lg.payload) (ground arith);
      }

  shows_transfer-Shows :
      (logs : List (Option Log)) → shows_transfer r i logs ≡ true → Shows r i logs
  unfolding shows_transfer
  shows_transfer-Shows [] h = cc
  shows_transfer-Shows (none ∷ logs) h = shows_transfer-Shows logs h
  shows_transfer-Shows (some lg ∷ logs) h = elim (Bool-cases lg.removed) [
    | inl e ↦ inr (shows_transfer-Shows logs (ground arith))
    | inr e ↦
        elim (Bool-cases
          (transfer_log (topic_transfer r.chain) lg r.domain.token r.address i.to i.amount)) [
            | inl e' ↦ inl (transfer_log-IsPayment lg e e')
            | inr e' ↦ inr (shows_transfer-Shows logs (ground arith))
          ]
  ]

  -- If a receipt counts as carrying out an intent that is not a refill, it has status 1, and among
  -- its logs is one that was not removed, is the token's transfer event from the account to the
  -- payee, and spells in its last 32 bytes exactly the amount of the intent.
  pub executed_sound :
      (receipt : Receipt)
      → i.kind ≢ kind_refill
      → executed r i receipt ≡ true
      → (receipt.status ≡ 1) × Shows r i receipt.logs
  unfolding executed
  executed_sound receipt k h = (ground arith, shows_transfer-Shows receipt.logs (ground arith))
