-- ===== src/Settle/Outcome.antt =====
-- Whose evidence a fact is: the loop of `outcome` in go/rail/status.go.
use mathlib.Core.Path.{subst}
use juice_rail.Base.{
  ℕ, ◌%◌, ◌≤◌, ◌≡◌, refl, sym, ap, ◌∙◌, ◌⊎◌, inl, inr, Option, none, some, List, [], ◌∷◌, arith,
}
use juice_rail.Base.Error.{Result, ok, err, not_found, ok-injective}
use juice_rail.Intent.{Intent, Submission, Fact}
use juice_rail.Chain.{Receipt}
use juice_rail.Sql.Word.{word}
use mathlib.Core.List.{reverse}
use juice_rail.Base.Lists.{Any, Any-reverse}
use juice_rail.Store.{submissions}
use juice_rail.Store.Attempts.{IsOnRecord, read-IsOnRecord}
use juice_rail.Machine.Answers.{first_answered}
use juice_rail.Machine.{Rail, World, continue, on_option, pure, ask, sql}
use juice_rail.Settle.{executed, fact_of, evidence, no_fact, try_attempt, search_attempts, outcome}

-- The node as it is after some receipts have been asked for.
pub data IsLater (r : Rail) : r.chain.Node → r.chain.Node → Type 0 where
  same_node : (n : r.chain.Node) → IsLater r n n
  receipt_asked :
      (hash : ℕ) (n m : r.chain.Node)
      → IsLater r (r.chain.transaction_receipt hash n).1 m
      → IsLater r n m

-- A fact about an attempt: the node, asked for the receipt of its hash, answered with one in a block no
-- later than the settled head.
pub record Backed (r : Rail) (i : Intent) (settled hash : ℕ) (f : Fact) (asked : r.chain.Node)
    : Type 0 where
  pub node : r.chain.Node
  pub later : IsLater r asked node
  pub receipt : Receipt
  pub said : (r.chain.transaction_receipt hash node).0 ≡ ok (some receipt)
  pub block : ℕ
  pub included : receipt.block_number ≡ some block
  pub is_settled : block ≤ settled
  pub hash_is : f.tx_hash ≡ hash
  pub block_is : f.block_number ≡ block % word
  pub executed_is : f.executed ≡ executed r i receipt

-- One of the attempts has it.
abbrev BackedBy : (r : Rail) → Intent → ℕ → Fact → r.chain.Node → List Submission → Type 0
BackedBy r i settled f asked = Any (λ s. Backed r i settled s.tx_hash f asked)

-- The fact stands for no attempt, or an attempt of the intent that was on record has it.
pub data IsOutcome (r : Rail) (i : Intent) (settled : ℕ) (f : Fact) (w : World r.chain.Node)
    : Type 0 where
  no_attempt : f ≡ no_fact → IsOutcome r i settled f w
  of_attempt :
      (hash : ℕ)
      → IsOnRecord r.address i.id hash w.store.tables
      → Backed r i settled hash f w.node
      → IsOutcome r i settled f w

asked_before :
    (r : Rail) (i : Intent) (settled before hash : ℕ) (f : Fact) (n : r.chain.Node)
    → Backed r i settled hash f (r.chain.transaction_receipt before n).1
    → Backed r i settled hash f n
asked_before r i settled before hash f n b = record {
  node = b.node;
  later = receipt_asked before n b.node b.later;
  receipt = b.receipt;
  said = b.said;
  block = b.block;
  included = b.included;
  is_settled = b.is_settled;
  hash_is = b.hash_is;
  block_is = b.block_is;
  executed_is = b.executed_is;
}

all_asked_before :
    (r : Rail) (i : Intent) (settled before : ℕ) (f : Fact) (n : r.chain.Node)
    (subs : List Submission)
    → BackedBy r i settled f (r.chain.transaction_receipt before n).1 subs
    → BackedBy r i settled f n subs
all_asked_before r i settled before f n [] b = b
all_asked_before r i settled before f n (s ∷ subs) (inl b) =
    inl (asked_before r i settled before s.tx_hash f n b)
all_asked_before r i settled before f n (s ∷ subs) (inr b) =
    inr (all_asked_before r i settled before f n subs b)

module _ (r : Rail) (i : Intent) (settled : ℕ) where
  Backed-fact_of :
      (hash : ℕ) (receipt : Receipt) (o : Option ℕ) (f : Fact) (n : r.chain.Node)
      → (r.chain.transaction_receipt hash n).0 ≡ ok (some receipt)
      → receipt.block_number ≡ o
      → fact_of r i settled hash receipt o ≡ some f
      → Backed r i settled hash f n
  unfolding fact_of
  Backed-fact_of hash receipt none f n said e h = cc
  Backed-fact_of hash receipt (some block) f n said e h = record {
    node = n;
    later = same_node n;
    receipt = receipt;
    said = said;
    block = block;
    included = e;
    is_settled = ground (arith, h);
    hash_is = ground (arith, h);
    block_is = ground (arith, h);
    executed_is = ground (arith, h);
  }

  Backed-evidence :
      (hash : ℕ) (a : Result (Option Receipt)) (f : Fact) (n : r.chain.Node)
      → (r.chain.transaction_receipt hash n).0 ≡ a
      → evidence r i settled hash a ≡ ok (some f)
      → Backed r i settled hash f n
  unfolding evidence
  Backed-evidence hash (err not_found) f n said h = cc
  Backed-evidence hash (ok none) f n said h = cc
  Backed-evidence hash (ok (some receipt)) f n said h =
      Backed-fact_of hash receipt receipt.block_number f n said refl (ok-injective h)
  Backed-evidence hash (err e) f n said h = cc

  Backed-try_attempt :
      (hash : ℕ) (w : World r.chain.Node) (f : Fact)
      → (try_attempt r i settled hash w).0 ≡ ok (some f)
      → Backed r i settled hash f w.node
  unfolding try_attempt ask
  Backed-try_attempt hash w f h =
      Backed-evidence hash (r.chain.transaction_receipt hash w.node).0 f w.node refl h

  node-try_attempt :
      (hash : ℕ) (w : World r.chain.Node)
      → (try_attempt r i settled hash w).1.node ≡ (r.chain.transaction_receipt hash w.node).1
  unfolding try_attempt ask
  node-try_attempt hash w = refl

  searched :
      (s : Submission) (subs : List Submission) (found : Result (Option Fact))
      (w' : World r.chain.Node) (f : Fact) (n : r.chain.Node)
      → ((g : Fact) → found ≡ ok (some g) → Backed r i settled s.tx_hash g n)
      → ((search_attempts r i settled subs w').0 ≡ ok f
          → (f ≡ no_fact) ⊎ BackedBy r i settled f n subs)
      → (continue found (λ o. on_option o (search_attempts r i settled subs) (λ g. pure g)) w').0
        ≡ ok f
      → (f ≡ no_fact) ⊎ BackedBy r i settled f n (s ∷ subs)
  searched s subs (err e) w' f n here later h = cc
  searched s subs (ok (some g)) w' f n here later h =
      inr (inl (subst (λ x. Backed r i settled s.tx_hash x n) (ok-injective h) (here g refl)))
  searched s subs (ok none) w' f n here later h = elim (later h) [
    | inl e ↦ inl e
    | inr b ↦ inr (inr b)
  ]

  search_attempts_sound :
      (subs : List Submission) (w : World r.chain.Node) (f : Fact)
      → (search_attempts r i settled subs w).0 ≡ ok f
      → (f ≡ no_fact) ⊎ BackedBy r i settled f w.node subs
  unfolding search_attempts
  search_attempts_sound [] w f h = inl (sym (ok-injective h))
  search_attempts_sound (s ∷ subs) w f h =
      let (found, w') = try_attempt r i settled s.tx_hash w in
      searched s subs found w' f w.node (λ g e. Backed-try_attempt s.tx_hash w g e)
        (λ k. from_next (search_attempts_sound subs w' f k)) h
    where
      from_next :
          (f ≡ no_fact) ⊎ BackedBy r i settled f (try_attempt r i settled s.tx_hash w).1.node subs
          → (f ≡ no_fact) ⊎ BackedBy r i settled f w.node subs
      from_next (inl e) = inl e
      from_next (inr b) = inr (
          all_asked_before r i settled s.tx_hash f w.node subs
            (subst (λ n. BackedBy r i settled f n subs) (node-try_attempt s.tx_hash w) b))

  -- An attempt that has the fact has its hash.
  hashes :
      (subs : List Submission) (f : Fact) (n : r.chain.Node)
      → BackedBy r i settled f n subs
      → Any (λ s. s.tx_hash ≡ f.tx_hash) subs × Backed r i settled f.tx_hash f n
  hashes [] f n b = absurd b
  hashes (s ∷ subs) f n (inl b) =
      (inl (sym b.hash_is), subst (λ hash. Backed r i settled hash f n) (sym b.hash_is) b)
  hashes (s ∷ subs) f n (inr b) = let (there, backed) = hashes subs f n b in (inr there, backed)

-- If `outcome` answers with a fact, it is the empty one, or an attempt of the intent is on record for which
-- the node, asked for the receipt of its hash, answered with one in a block at or below the settled head, and
-- the fact has the hash of that attempt, the block (modulo 2 ^ 64), and whether the receipt shows the intent
-- carried out.
pub outcome_sound :
    (r : Rail) (i : Intent) (settled : ℕ) (w : World r.chain.Node) (f : Fact)
    → (outcome r i settled w).0 ≡ ok f
    → IsOutcome r i settled f w
unfolding outcome sql
outcome_sound r i settled w f h =
    let (subs, read, rest) =
      first_answered (λ subs. search_attempts r i settled (reverse subs))
        (sql (submissions r.address i.id)) w f h in
    elim (search_attempts_sound r i settled (reverse subs)
      (record w { store = (submissions r.address i.id w.store).1 }) f
      (ap (λ out. out.0) (sym rest) ∙ h)) [
        | inl e ↦ no_attempt e
        | inr b ↦
            let (there, backed) = hashes r i settled (reverse subs) f w.node b in
            of_attempt f.tx_hash
              (read-IsOnRecord r.address i.id f.tx_hash w.store subs read
                (Any-reverse (λ s. s.tx_hash ≡ f.tx_hash) subs there))
              backed
      ]
