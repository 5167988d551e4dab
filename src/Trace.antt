-- ===== src/Trace.antt =====
-- What holds of an account over any sequence of calls: the methods of go/rail/rail.go and
-- go/rail/status.go as steps on a `World`.
pub mod Attempts
pub mod Submit
pub mod Methods
pub mod Runs
pub mod Settled
mod Tests
use juice_rail.Base.{ℕ, ◌≡◌, ◌⊎◌, inl, List, [], ◌∷◌, ◌++◌}
use juice_rail.Base.Lists.{All}
use juice_rail.Base.Error.{ok}
use juice_rail.Chain.{Tx}
use juice_rail.Sql.{Tables, SubmissionRow}
use juice_rail.Quiet.{History, History-trans, Calm}
use juice_rail.Machine.{Rail, World}

-- One of the rows is an attempt of the account with the hash.
abbrev HasAttempt : ℕ → ℕ → List SubmissionRow → Type 0
HasAttempt account hash [] = ⊥
HasAttempt account hash (row ∷ rows) =
    ((row.account ≡ account) × (row.tx_hash ≡ hash)) ⊎ HasAttempt account hash rows

-- No transaction is signed under the hash of zeros, as no hash of Keccak-256 is known to be.
abbrev pub NeverZero : Rail → Type 0
NeverZero r = (tx : Tx) → ¬ (r.chain.sign tx ≡ ok 0)

-- A transaction that is signed under a hash that is on record.
pub record IsRecorded (r : Rail) (t : Tables) (tx : Tx) : Type 0 where
  pub hash : ℕ
  pub signed : r.chain.sign tx ≡ ok hash
  pub on_record : HasAttempt r.address hash t.submissions

-- Every transaction that the node was handed is on record.
abbrev Accounted : (r : Rail) → World r.chain.Node → Type 0
Accounted r w = All (IsRecorded r w.store.tables) w.sent

-- What a method does to the world: nothing recorded is lost, at most one transaction goes out, and
-- what went out stays accounted for.
pub record Moves (r : Rail) (w w' : World r.chain.Node) : Type 0 where
  pub history : History w.store.tables w'.store.tables
  pub once : (w'.sent ≡ w.sent) ⊎ ((tx : Tx) × (w'.sent ≡ w.sent ++ tx ∷ []))
  pub accounted : NeverZero r → Accounted r w → Accounted r w'

keep-IsRecorded :
    (r : Rail) (t t' : Tables) (txs : List Tx)
    → t'.submissions ≡ t.submissions
    → All (IsRecorded r t) txs
    → All (IsRecorded r t') txs
keep-IsRecorded r t t' [] e a = tt
keep-IsRecorded r t t' (tx ∷ txs) e (h, a) = (
  record { hash = h.hash; signed = h.signed; on_record = rw e h.on_record },
  keep-IsRecorded r t t' txs e a,
)

module _ (r : Rail) (u v : World r.chain.Node) (calm : Calm u v) where
  still-Accounted : Accounted r u → Accounted r v
  still-Accounted a =
      rw calm.sent
        (keep-IsRecorded r u.store.tables v.store.tables u.sent calm.tables.submissions a)

  Moves-Calm : Moves r u v
  Moves-Calm = record {
    history = calm.tables.history;
    once = inl calm.sent;
    accounted = λ never. still-Accounted;
  }

  -- A method is quiet at first.
  Moves-after : (w : World r.chain.Node) → Moves r v w → Moves r u w
  Moves-after w m = record {
    history =
        History-trans u.store.tables v.store.tables w.store.tables calm.tables.history m.history;
    once = rw (← calm.sent) m.once;
    accounted = λ never a. m.accounted never (still-Accounted a);
  }

-- And it is quiet at the end.
pub Moves-then : (r : Rail) (u v w : World r.chain.Node) → Moves r u v → Calm v w → Moves r u w
Moves-then r u v w m calm = record {
  history =
      History-trans u.store.tables v.store.tables w.store.tables m.history calm.tables.history;
  once = rw calm.sent m.once;
  accounted = λ never a. still-Accounted r v w calm (m.accounted never a);
}
