-- ===== src/Scan/Incoming.antt =====
-- Which logs are incoming money: the tests of `ScanDeposits` of go/rail/status.go on a log.
use juice_rail.Base.{
  ℕ, ◌^◌, ◌%◌, ◌-◌, ◌≤◌, ◌≡◌, ◌≢◌, refl, ◌∙◌, false, Option, none, some, List, [], ◌∷◌, ◌++◌, leb,
  true, arith,
}
use juice_rail.Base.Int.{pos}
use juice_rail.Base.Lists.{length, drop, some-injective}
use juice_rail.Base.Binary.{set_bytes}
use juice_rail.Base.Error.{ok}
use juice_rail.Intent.{Deposit}
use juice_rail.Chain.{Log, FilterQuery, topic_transfer}
use juice_rail.Logs.{address_of, last_word}
use juice_rail.Machine.{Rail}
use juice_rail.Scan.{sender_of, deposit_from, deposit_of, query_of}

-- A log of three topics and at least a word of data, not removed, of a positive amount, from another
-- account, and the deposit that it is.
pub record Incoming (r : Rail) (lg : Log) (d : Deposit) : Type 0 where
  pub kept : lg.removed ≡ false
  pub event : ℕ
  pub from : ℕ
  pub to : ℕ
  pub topics : lg.topics ≡ event ∷ from ∷ to ∷ []
  pub sender : d.sender ≡ from % 2 ^ 160
  pub foreign : d.sender ≢ r.address
  pub long : 32 ≤ length lg.payload
  pub value : ℕ
  pub value_is : value ≡ set_bytes 0 (drop (length lg.payload - 32) lg.payload)
  pub positive : value ≢ 0
  pub amount : d.amount ≡ some (pos value)
  pub tx_hash : d.tx_hash ≡ lg.tx_hash
  pub log_index : d.log_index ≡ lg.index
  pub block_number : d.block_number ≡ lg.block_number

-- The incoming deposits of some logs, in order: every other log is no deposit.
pub data Shows (r : Rail) : List Log → List Deposit → Type 0 where
  no_more : Shows r [] []
  other :
      (lg : Log) (logs : List Log) (ds : List Deposit)
      → ((d : Deposit) → ¬ Incoming r lg d)
      → Shows r logs ds
      → Shows r (lg ∷ logs) ds
  incoming :
      (lg : Log) (d : Deposit) (logs : List Log) (ds : List Deposit)
      → Incoming r lg d
      → Shows r logs ds
      → Shows r (lg ∷ logs) (d ∷ ds)

-- The transfers of the token to the account, in the blocks of a span.
abbrev transfers_in : Rail → ℕ → ℕ → FilterQuery
transfers_in r from last = record {
  from_block = from;
  to_block = last;
  addresses = r.domain.token ∷ [];
  topics = (topic_transfer r.chain ∷ []) ∷ [] ∷ (r.address ∷ []) ∷ [];
}

-- The incoming deposits of some spans: for each span in turn the node was asked, and answered with logs that show
-- its part.
abbrev pub Collected : (r : Rail) → List (ℕ × ℕ) → r.chain.Node → List Deposit → Type 0
Collected r [] n ds = ds ≡ []
Collected r ((from, last) ∷ later) n ds =
    (logs : List Log) × (here : List Deposit) × (rest : List Deposit) × ((r.chain.filter_logs
        (transfers_in r from last) n).0
      ≡ ok logs)
    × Shows r logs here
    × Collected r later (r.chain.filter_logs (transfers_in r from last) n).1 rest
    × (ds ≡ here ++ rest)

three_topics :
    (topics : List ℕ) (a : ℕ)
    → sender_of topics ≡ some a
    → (x : ℕ) × (b : ℕ) × (c : ℕ) × (topics ≡ x ∷ b ∷ c ∷ []) × (a ≡ b % 2 ^ 160)
unfolding sender_of address_of
three_topics (x ∷ b ∷ c ∷ []) a h = (x, b, c, refl, ground arith)
three_topics [] a h = cc
three_topics (x ∷ []) a h = cc
three_topics (x ∷ b ∷ []) a h = cc
three_topics (x ∷ b ∷ c ∷ y ∷ l) a h = cc

module _ (r : Rail) (lg : Log) where
  of_sender :
      (o : Option ℕ) (d : Deposit)
      → sender_of lg.topics ≡ o
      → lg.removed ≡ false
      → 32 ≤ length lg.payload
      → deposit_from r lg o ≡ some d
      → Incoming r lg d
  unfolding deposit_from last_word
  of_sender none d e kept long h = cc
  of_sender (some a) d e kept long h =
      let (x, b, c, topics, a_is) = three_topics lg.topics a e in
      record {
        kept = kept;
        event = x;
        from = b;
        to = c;
        topics = topics;
        sender = ground (arith, h, a_is);
        foreign = ground (arith, h);
        long = long;
        value = set_bytes 0 (drop (length lg.payload - 32) lg.payload);
        value_is = refl;
        positive = ground (arith, h);
        amount = ground (arith, h);
        tx_hash = ground (arith, h);
        log_index = ground (arith, h);
        block_number = ground (arith, h);
      }

  deposit_of-Incoming : (d : Deposit) → deposit_of r lg ≡ some d → Incoming r lg d
  unfolding deposit_of
  deposit_of-Incoming d h =
      of_sender (sender_of lg.topics) d refl (ground arith) (ground arith) (ground arith)

  sent_by : (b x c : ℕ) → lg.topics ≡ x ∷ b ∷ c ∷ [] → sender_of lg.topics ≡ some (b % 2 ^ 160)
  unfolding sender_of address_of
  sent_by b x c e = rw e refl

  some_deposit :
      (o : Option ℕ) (a : ℕ)
      → o ≡ some a
      → a ≢ r.address
      → last_word lg.payload ≢ 0
      → ¬ (deposit_from r lg o ≡ none)
  unfolding deposit_from
  some_deposit none a e foreign positive h = cc
  some_deposit (some b) a e foreign positive h =
      let same : b ≡ a = some-injective e in ground (arith, h, same)

  passed_over : (d : Deposit) → deposit_of r lg ≡ none → ¬ Incoming r lg d
  unfolding deposit_of last_word
  passed_over d h i =
      some_deposit (sender_of lg.topics) (i.from % 2 ^ 160) (sent_by i.from i.event i.to i.topics)
        (λ e. i.foreign (i.sender ∙ e)) (λ e. i.positive (i.value_is ∙ e))
        (let k : leb 32 (length lg.payload) ≡ true = ground (arith, i.long) in
          ground (arith, h, i.kept, i.long))

abbrev pub one_or_none : Option Deposit → List Deposit
one_or_none none = []
one_or_none (some d) = d ∷ []

-- The deposits that the loop makes of logs, in order.
unfoldable pub shown : Rail → List Log → List Deposit
shown r [] = []
shown r (lg ∷ logs) = one_or_none (deposit_of r lg) ++ shown r logs

one_more :
    (r : Rail) (lg : Log) (logs : List Log) (ds : List Deposit) (o : Option Deposit)
    → deposit_of r lg ≡ o
    → Shows r logs ds
    → Shows r (lg ∷ logs) (one_or_none o ++ ds)
one_more r lg logs ds none e s = other lg logs ds (λ d. passed_over r lg d e) s
one_more r lg logs ds (some d) e s = incoming lg d logs ds (deposit_of-Incoming r lg d e) s

Shows-shown : (r : Rail) (logs : List Log) → Shows r logs (shown r logs)
unfolding shown
Shows-shown r [] = no_more
Shows-shown r (lg ∷ logs) =
    one_more r lg logs (shown r logs) (deposit_of r lg) refl (Shows-shown r logs)

-- One more span that was answered.
pub Collected-span :
    (r : Rail) (from last : ℕ) (later : List (ℕ × ℕ)) (n : r.chain.Node) (logs : List Log)
    (rest : List Deposit)
    → (r.chain.filter_logs (query_of r from last) n).0 ≡ ok logs
    → Collected r later (r.chain.filter_logs (query_of r from last) n).1 rest
    → Collected r ((from, last) ∷ later) n (shown r logs ++ rest)
unfolding query_of
Collected-span r from last later n logs rest answer c =
    (logs, shown r logs, rest, answer, Shows-shown r logs, c, refl)
