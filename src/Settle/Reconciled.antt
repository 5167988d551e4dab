-- ===== src/Settle/Reconciled.antt =====
-- What a `reconcile` of go/rail/status.go that succeeds has found of each nonce.
use juice_rail.Base.{
  ℕ, zero, suc, ◌+◌, ◌-◌, ◌≡◌, ◌≤◌, ◌<◌, ◌⊎◌, inl, inr, refl, sym, ap, ◌∙◌, Option, none, some,
  arith, ◌==◌, Bool-cases,
}
use mathlib.Core.Path.{subst}
use mathlib.Core.Option
use juice_rail.Base.Lists.{some-injective}
use juice_rail.Base.Error.{Result, ok, err, ok-injective}
use juice_rail.Sql.{Tables}
use juice_rail.Sql.Statements.{query_ok}
use juice_rail.Sql.Word.{uint64}
use juice_rail.Quiet.Rules.{Quiet-sql}
use juice_rail.Quiet.Writes.{Safe-put_nonce_floor}
use juice_rail.Chain.{Header}
use juice_rail.Observed
use juice_rail.Observed.{Column, stored}
use juice_rail.Machine.{Rail, World, M, sql, ask, on_option, continue, lift, ◌>>=◌, ◌>>◌}
use juice_rail.Machine.Answers.{first_answered}
use juice_rail.Settle.{settled_header, or_no_header, match_nonce, match_nonces, reconcile}
use juice_rail.Settle.Quiet.{Quiet-match_nonces}
use juice_rail.Settle.Unchanged.{KeepsTables-settled_header}
use juice_rail.Settle.Explained.{IsExplained, later-IsExplained, match_nonce_explains}

first_or_later : (m n : ℕ) → m ≤ n → (m ≡ n) ⊎ (m + 1 ≤ n)
first_or_later m n h = elim (Bool-cases (m == n)) [
  | inl same ↦ inl (ground arith)
  | inr other ↦ inr (ground arith)
]

module _ (r : Rail) where
  match_nonces_explain :
      (settled rounds nonce : ℕ) (w : World r.chain.Node)
      → (match_nonces r settled nonce rounds w).0 ≡ ok tt
      → (n : ℕ) → nonce ≤ n
      → n < nonce + rounds
      → IsExplained r.address n (match_nonces r settled nonce rounds w).1.store.tables
  unfolding match_nonces
  match_nonces_explain settled zero nonce w h n least most = absurd (omega arith)
  match_nonces_explain settled (suc rounds) nonce w h n least most =
      let later : Unit {0} → M r.chain.Node (Unit {0}) =
        λ u. match_nonces r settled (nonce + 1) rounds in
      let (u, first, rest) = first_answered later (match_nonce r settled nonce) w tt h in
      let v : World r.chain.Node = (match_nonce r settled nonce w).1 in
      let end : World r.chain.Node = (match_nonces r settled (nonce + 1) rounds v).1 in
      let history = ((Quiet-match_nonces r settled (nonce + 1) rounds).at v).tables.history in
      let now : IsExplained r.address nonce end.store.tables =
        later-IsExplained r.address nonce v.store.tables end.store.tables history
          (match_nonce_explains r settled nonce w first) in
      subst (λ out. IsExplained r.address n out.1.store.tables) (sym rest)
        (elim (first_or_later nonce n least) [
          | inl same ↦ subst (λ k. IsExplained r.address k end.store.tables) same now
          | inr above ↦
              match_nonces_explain settled rounds (nonce + 1) v (ap (λ out. out.0) (sym rest) ∙ h) n
                above (omega arith)
        ])

  -- The rounds, and the write of the floor after them.
  rounds_explain :
      (settled low spent : ℕ) (w : World r.chain.Node)
      → ((match_nonces r settled low (spent - low)
            >> sql (Observed.put_nonce_floor r.address spent))
          w).0
        ≡ ok tt
      → (n : ℕ) → low ≤ n
      → n < spent
      → IsExplained r.address n
          ((match_nonces r settled low (spent - low)
              >> sql (Observed.put_nonce_floor r.address spent))
            w).1.store.tables
  rounds_explain settled low spent w h n least most =
      let put : M r.chain.Node (Unit {0}) = sql (Observed.put_nonce_floor r.address spent) in
      let (u, done, rest) =
        first_answered (λ u. put) (match_nonces r settled low (spent - low)) w tt h in
      let v : World r.chain.Node = (match_nonces r settled low (spent - low) w).1 in
      let history =
        ((Quiet-sql (Observed.put_nonce_floor r.address spent)
            (Safe-put_nonce_floor r.address spent)).at
          v).tables.history in
      subst (λ out. IsExplained r.address n out.1.store.tables) (sym rest)
        (later-IsExplained r.address n v.store.tables (put v).1.store.tables history
          (match_nonces_explain settled (spent - low) low w done n least (omega arith)))

  -- From the floor on.
  abbrev from_floor : ℕ → ℕ → Option ℕ → M r.chain.Node (Unit {0})
  from_floor settled spent floor =
      on_option floor (sql (Observed.put_nonce_floor r.address spent)) λ low.
        match_nonces r settled low (spent - low) >> sql (Observed.put_nonce_floor r.address spent)

  abbrev from_spent : ℕ → ℕ → M r.chain.Node (Unit {0})
  from_spent settled spent =
      sql (Observed.read_nonce_floor r.address) >>= λ floor. from_floor settled spent floor

  abbrev from_header : Header → M r.chain.Node (Unit {0})
  from_header head =
      ask (r.chain.nonce_at r.address head.number) >>= λ spent. from_spent head.number spent

  floor_explains :
      (settled spent low : ℕ) (floor : Option ℕ) (w : World r.chain.Node)
      → floor ≡ some low
      → (from_floor settled spent floor w).0 ≡ ok tt
      → (n : ℕ) → low ≤ n
      → n < spent
      → IsExplained r.address n (from_floor settled spent floor w).1.store.tables
  floor_explains settled spent low none w e h n least most = cc
  floor_explains settled spent low (some m) w e h n least most =
      rounds_explain settled m spent w h n (subst (λ k. k ≤ n) (sym (some-injective e)) least) most

  spent_explains :
      (settled spent low : ℕ) (w : World r.chain.Node)
      → Option.map uint64 (stored r.address Column.nonce_floor w.store.tables.cursors) ≡ some low
      → (from_spent settled spent w).0 ≡ ok tt
      → (n : ℕ) → low ≤ n
      → n < spent
      → IsExplained r.address n (from_spent settled spent w).1.store.tables
  spent_explains settled spent low w known h n least most =
      let reading : M r.chain.Node (Option ℕ) = sql (Observed.read_nonce_floor r.address) in
      let (floor, read, rest) = first_answered (from_floor settled spent) reading w tt h in
      let v : World r.chain.Node = (reading w).1 in
      let found : Option.map uint64 (stored r.address Column.nonce_floor w.store.tables.cursors)
          ≡ floor =
        unfold sql Observed.read_nonce_floor Observed.read_cursor in query_ok _ w.store read in
      subst (λ out. IsExplained r.address n out.1.store.tables) (sym rest)
        (floor_explains settled spent low floor v (sym found ∙ known)
          (ap (λ out. out.0) (sym rest) ∙ h) n least most)

-- The header that is taken as settled is the node's answer for the domain's tag.
head_answered :
    (r : Rail) (w : World r.chain.Node) (head : Header)
    → (settled_header r w).0 ≡ ok head
    → ((r.chain.header (some r.domain.finality) w.node).0 ≡ ok (some head))
      × ((settled_header r w).1.node ≡ (r.chain.header (some r.domain.finality) w.node).1)
unfolding settled_header or_no_header ask
head_answered r w head h =
    of_answer (r.chain.header (some r.domain.finality) w.node).0
      (r.chain.header (some r.domain.finality) w.node).1 h
  where
    of_answer :
        (a : Result (Option Header)) (n : r.chain.Node)
        → (continue a (λ o. lift (or_no_header o)) (record w { node = n })).0 ≡ ok head
        → (a ≡ ok (some head))
          × ((continue a (λ o. lift (or_no_header o)) (record w { node = n })).1.node ≡ n)
    of_answer (err e) n k = cc
    of_answer (ok none) n k = cc
    of_answer (ok (some x)) n k = (ap (λ y. ok (some y)) (ok-injective k), refl)

-- What the node said was spent at its settled head, the first two things it was asked, and that all of it is
-- explained.
pub record Reconciled (r : Rail) (low : ℕ) (n : r.chain.Node) (t : Tables) : Type 0 where
  pub head : Header
  pub said_head : (r.chain.header (some r.domain.finality) n).0 ≡ ok (some head)
  pub spent : ℕ
  pub said_spent :
      (r.chain.nonce_at r.address head.number (r.chain.header (some r.domain.finality) n).1).0
      ≡ ok spent
  pub explained : (n : ℕ) → low ≤ n → n < spent → IsExplained r.address n t

-- A reconciliation that succeeds on an account with a nonce floor has first asked the node for its settled head, and
-- then how many nonces are spent at that head, and each nonce from the floor up to these belongs to a recorded intent, by
-- its nonce, that has a recorded fact with the hash of a transaction, not the hash of zeros.
pub reconcile_explains :
    (r : Rail) (low : ℕ) (w : World r.chain.Node)
    → Option.map uint64 (stored r.address Column.nonce_floor w.store.tables.cursors) ≡ some low
    → (reconcile r w).0 ≡ ok tt
    → Reconciled r low w.node (reconcile r w).1.store.tables
unfolding reconcile
reconcile_explains r low w known h =
    let (head, answered, rest) = first_answered (from_header r) (settled_header r) w tt h in
    let v : World r.chain.Node = (settled_header r w).1 in
    let here : v.store.tables ≡ w.store.tables = KeepsTables-settled_header r w in
    let asking : M r.chain.Node ℕ = ask (r.chain.nonce_at r.address head.number) in
    let (spent, said, more) =
      first_answered (from_spent r head.number) asking v tt (ap (λ out. out.0) (sym rest) ∙ h) in
    let x : World r.chain.Node = (asking v).1 in
    let there : x.store.tables ≡ w.store.tables = unfold ask in here in
    let (head_is, node_is) = head_answered r w head answered in
    record {
      head = head;
      said_head = head_is;
      spent = spent;
      said_spent =
          subst (λ n. (r.chain.nonce_at r.address head.number n).0 ≡ ok spent) node_is
            (unfold ask in said);
      explained = λ n least most.
          subst (λ out. IsExplained r.address n out.1.store.tables) (sym (rest ∙ more))
            (spent_explains r head.number spent low x (rw there known)
              (ap (λ out. out.0) (sym (rest ∙ more)) ∙ h) n least most);
    }
