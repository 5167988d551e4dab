-- ===== src/Logs.antt =====
-- The logs of token transfers: `transferLog` and `sentTransferValues` of go/rail/venue.go.
use juice_rail.Base.{
  ℕ, ◌-◌, ◌%◌, ◌^◌, Bool, false, ◌&&◌, not, Option, none, some, List, [], ◌∷◌, leb, ◌==◌,
  if◌then◌else◌,
}
use juice_rail.Base.Int.{ℤ, pos, eqb_ℤ}
use juice_rail.Base.Lists.{Bytes, length, drop}
use juice_rail.Base.Binary.{set_bytes}
use juice_rail.Chain.{Log}

-- `BytesToAddress` of a hash: its last twenty bytes.
unfoldable pub address_of : ℕ → ℕ
address_of topic = topic % 2 ^ 160

-- `new(big.Int).SetBytes(data[len(data)-32:])`
unfoldable pub last_word : Bytes → ℕ
unfolding set_bytes
last_word payload = set_bytes 0 (drop (length payload - 32) payload)

unfoldable pub amount_is : Option ℤ → ℕ → Bool
amount_is none n = false
amount_is (some v) n = eqb_ℤ (pos n) v

-- The topics of a transfer between two addresses.
unfoldable pub are_topics : ℕ → ℕ → ℕ → List ℕ → Bool
unfolding address_of
are_topics transfer sender to (a ∷ b ∷ c ∷ []) =
    a == transfer && (address_of b == sender && address_of c == to)
are_topics transfer sender to _ = false

-- `transferLog`
unfoldable pub transfer_log : ℕ → Log → ℕ → ℕ → ℕ → Option ℤ → Bool
unfolding are_topics last_word amount_is
transfer_log transfer lg token sender to amount =
    lg.address == token
    && (are_topics transfer sender to lg.topics
        && (leb 32 (length lg.payload) && amount_is amount (last_word lg.payload)))

-- `len(lg.Topics) != 3 || lg.Topics[0] != topicTransfer`, and who sent it.
unfoldable are_sent_by : ℕ → ℕ → List ℕ → Bool
unfolding address_of
are_sent_by transfer sender (a ∷ b ∷ c ∷ []) = a == transfer && address_of b == sender
are_sent_by transfer sender _ = false

-- The tests of the loop of `sentTransferValues`.
unfoldable is_sent : ℕ → ℕ → ℕ → Log → Bool
unfolding are_sent_by
is_sent transfer token sender lg =
    not lg.removed
    && (lg.address == token
        && (are_sent_by transfer sender lg.topics && leb 32 (length lg.payload)))

-- `sentTransferValues`
unfoldable pub sent_transfer_values : ℕ → List (Option Log) → ℕ → ℕ → List ℕ
unfolding is_sent last_word
sent_transfer_values transfer [] token sender = []
sent_transfer_values transfer (none ∷ logs) token sender =
    sent_transfer_values transfer logs token sender
sent_transfer_values transfer (some lg ∷ logs) token sender =
    let found = sent_transfer_values transfer logs token sender in
    if is_sent transfer token sender lg then last_word lg.payload ∷ found else found
