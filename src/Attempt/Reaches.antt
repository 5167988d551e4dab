-- ===== src/Attempt/Reaches.antt =====
-- `submit` of go/rail/rail.go where signing and the store work.
use juice_rail.Base.{ℕ, ◌≡◌, refl, inl, inr, [], ◌∷◌, ◌++◌, ◌==◌, Bool-cases, arith}
use juice_rail.Base.Error.{Error, Result, ok, err}
use juice_rail.Intent.{Intent, Submission}
use juice_rail.Sql.{Tables, Db}
use juice_rail.Store.{append_submission, append_body}
use juice_rail.Machine.{Rail, World, sql, broadcast, continue, pure}
use juice_rail.Attempt.{attempt_tx, note_attempt, launch, already_settled, unless_settled, submit}
use juice_rail.Attempt.Known.{IsKnown, IsKnown-of, IsKnown-already_settled}

-- What is returned for the node's answer to the transaction: the hash, if the node took it, or refused it
-- since it has it already or the nonce is spent; otherwise the node's error.
pub data Returns (answer : Result (Unit {0})) (hash : ℕ) (out : Result ℕ) : Type 0 where
  accepted : answer ≡ ok tt → out ≡ ok hash → Returns answer hash out
  known : (e : Error) → answer ≡ err e → IsKnown e → out ≡ ok hash → Returns answer hash out
  refused : (e : Error) → answer ≡ err e → ¬ IsKnown e → out ≡ err e → Returns answer hash out

refused_or_known :
    {N : Type 0} (e : Error) (hash : ℕ) (w : World N)
    → Returns (err e) hash (continue (unless_settled (err e)) (λ u. pure hash) w).0
unfolding unless_settled
refused_or_known e hash w = elim (Bool-cases (already_settled e)) [
  | inl k ↦ rw k (known e refl (IsKnown-of e k) refl)
  | inr k ↦
      rw k
        (refused e refl (λ is. (let s = IsKnown-already_settled e is in ground (arith, k, s))) refl)
]

answered :
    {N : Type 0} (v : Result (Unit {0})) (hash : ℕ) (w : World N)
    → Returns v hash (continue (unless_settled v) (λ u. pure hash) w).0
answered (ok u) hash w = unfold unless_settled in accepted refl refl
answered (err e) hash w = refused_or_known e hash w

sent_on :
    {N : Type 0} (v : Result (Unit {0})) (hash : ℕ) (w : World N)
    → (continue v (λ u. pure hash) w).1.sent ≡ w.sent
sent_on (ok u) hash w = refl
sent_on (err e) hash w = refl

-- Where the key signs the attempt and no statement of the store fails, `submit` hands the
-- transaction to the node, once, and returns its hash, unless the node refuses it with an error that
-- does not say, in whatever case, "already known", "known transaction" or "nonce too low": then it
-- returns that error.
pub submit_reaches :
    (r : Rail) (i : Intent) (s : Submission) (hash : ℕ) (w : World r.chain.Node) (t : Tables)
    → r.chain.sign (attempt_tx r i s) ≡ ok hash
    → let db : Db = record { tables = t; faults = [] } in
      let tx = attempt_tx r i s in
      ((submit r i s (record w { store = db })).1.sent ≡ w.sent ++ tx ∷ [])
      × Returns
          (r.chain.send_transaction tx w.node).0
          hash
          (submit r i s (record w { store = db })).0
unfolding submit note_attempt launch broadcast sql append_submission append_body
submit_reaches r i s hash w t signed = elim (Bool-cases (s.tx_hash == hash)) [
  | inl e ↦ rw (signed, e) (sent_on _ hash _, answered _ hash _)
  | inr e ↦ rw (signed, e) (sent_on _ hash _, answered _ hash _)
]
