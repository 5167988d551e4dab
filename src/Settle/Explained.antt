-- ===== src/Settle/Explained.antt =====
-- A round of `reconcile` of go/rail/status.go.
use juice_rail.Base.{
  ℕ, ◌≡◌, ◌≢◌, inl, inr, refl, sym, ap, ◌∙◌, Option, none, some, List, arith, ◌==◌, ==_refl,
  Bool-cases, if◌then◌else◌,
}
use mathlib.Core.Path.{subst}
use mathlib.Core.Option
use juice_rail.Base.Lists.{find, find-Grows}
use juice_rail.Base.Error.{ok, err, ok-injective, unreconciled}
use juice_rail.Intent.{Intent, Fact}
use juice_rail.Sql.{Tables, IntentRow, FactRow}
use juice_rail.Sql.Statements.{read_ok, query_ok, tables-read, tables-query, exec_ok}
use juice_rail.Sql.Word.{int64}
use juice_rail.Store
use juice_rail.Store.{
  is_nonce, is_fact, scan_intent, scan_found, scan_fact, fact_row, insert_fact, put_fact,
}
use juice_rail.Store.Facts.{find-insert_fact}
use juice_rail.Quiet.{History}
use juice_rail.Machine.{Rail, World, M, sql, lift, pure, fail, ◌>>=◌}
use juice_rail.Machine.Answers.{first_answered}
use juice_rail.Settle.{or_unreconciled, spent_fact, outcome, match_nonce}
use juice_rail.Settle.Quiet.{Quiet-spent_fact}
use juice_rail.Settle.Unchanged.{KeepsTables-outcome}

-- The nonce belongs to a recorded intent whose recorded fact has the hash of a transaction.
pub record IsExplained (account nonce : ℕ) (t : Tables) : Type 0 where
  pub intent : IntentRow
  pub owner : find (is_nonce account (int64 nonce)) t.intents ≡ some intent
  pub fact : FactRow
  pub outcome : find (is_fact account intent.id) t.facts ≡ some fact
  pub spent_by : fact.tx_hash ≢ 0

pub later-IsExplained :
    (account nonce : ℕ) (t t' : Tables)
    → History t t'
    → IsExplained account nonce t
    → IsExplained account nonce t'
later-IsExplained account nonce t t' h e = record {
  intent = e.intent;
  owner = find-Grows _ t.intents t'.intents h.intents e.owner;
  fact = e.fact;
  outcome = find-Grows _ t.facts t'.facts h.facts e.outcome;
  spent_by = e.spent_by;
}

read_back :
    (o : Option FactRow) (f : Fact)
    → Option.map scan_fact o ≡ some f
    → (row : FactRow) × (o ≡ some row) × (row.tx_hash ≡ f.tx_hash)
unfolding scan_fact
read_back none f h = cc
read_back (some row) f h = (row, refl, cc)

none_there : (o : Option FactRow) → Option.map scan_fact o ≡ none → o ≡ none
none_there none h = refl
none_there (some row) h = cc

-- The fact that is written where there was none.
written_fact :
    (account id : ℕ) (f : Fact) (rows : List FactRow)
    → find (is_fact account id) rows ≡ none
    → find (is_fact account id) (insert_fact (fact_row account id f) rows)
      ≡ some (fact_row account id f)
written_fact account id f rows h =
    find-insert_fact account id (fact_row account id f) rows
    ∙ rw h (unfold fact_row in rw (==_refl account, ==_refl id) refl)

opened :
    (o : Option IntentRow) (found : Option Intent) (i : Intent)
    → scan_found o ≡ ok found
    → or_unreconciled found ≡ ok i
    → (row : IntentRow) × (o ≡ some row) × (i.id ≡ row.id)
unfolding scan_found scan_intent or_unreconciled
opened none none i h k = cc
opened none (some j) i h k = cc
opened (some row) none i h k = (row, refl, ground (arith, h, k))
opened (some row) (some j) i h k = (row, refl, ground (arith, h, k))

-- The last test of a round.
named :
    {N : Type 0} (hash : ℕ) (w : World N)
    → ((if hash == 0 then fail unreconciled else pure tt) w).0 ≡ ok (tt {0})
    → (hash ≢ 0) × (((if hash == 0 then fail {A = Unit {0}} unreconciled else pure tt) w).1 ≡ w)
named hash w h = elim (Bool-cases (hash == 0)) [
  | inl e ↦ (let no : err unreconciled ≡ ok (tt {0}) = rw e at h in cc)
  | inr e ↦ (ground arith, rw e refl)
]

module _ (r : Rail) where
  -- The fact that is read or written is on record.
  recorded_fact :
      (i : Intent) (settled : ℕ) (cached : Option Fact) (w : World r.chain.Node) (f : Fact)
      → Option.map scan_fact (find (is_fact r.address i.id) w.store.tables.facts) ≡ cached
      → (spent_fact r i settled cached w).0 ≡ ok f
      → (row : FactRow) × (find
            (is_fact r.address i.id)
            (spent_fact r i settled cached w).1.store.tables.facts
          ≡ some row)
        × (row.tx_hash ≡ f.tx_hash)
  unfolding spent_fact
  recorded_fact i settled (some g) w f h done =
      let (row, found, hash) = read_back (find (is_fact r.address i.id) w.store.tables.facts) g h in
      (row, found, hash ∙ ap (λ x. x.tx_hash) (ok-injective done))
  recorded_fact i settled none w f h done =
      let noting : Fact → M r.chain.Node Fact =
        λ g. sql (put_fact r.address i.id g) >>= λ u. pure g in
      let (g, first, rest) = first_answered noting (outcome r i settled) w f done in
      let v : World r.chain.Node = (outcome r i settled w).1 in
      let (u, put, last) =
        first_answered (λ u. pure g) (sql (put_fact r.address i.id g)) v f
          (ap (λ out. out.0) (sym rest) ∙ done) in
      let same : g ≡ f = ok-injective (ap (λ out. out.0) (sym (rest ∙ last)) ∙ done) in
      let kept : v.store.tables ≡ w.store.tables = KeepsTables-outcome r i settled w in
      let noted : (sql (put_fact r.address i.id g) v).1.store.tables ≡ record v.store.tables {
        facts = insert_fact (fact_row r.address i.id g) v.store.tables.facts;
      } =
        unfold sql put_fact in
        exec_ok (λ t. record t { facts = insert_fact (fact_row r.address i.id g) t.facts }) v.store
          put in
      (
        fact_row r.address i.id g,
        ap (λ out. find (is_fact r.address i.id) out.1.store.tables.facts) (rest ∙ last)
            ∙ ap (λ t. find (is_fact r.address i.id) t.facts) noted
            ∙ ap
                (λ t.
                  find (is_fact r.address i.id) (insert_fact (fact_row r.address i.id g) t.facts))
                kept
            ∙ written_fact r.address i.id g w.store.tables.facts (none_there _ h),
        unfold fact_row in ap (λ x. x.tx_hash) same,
      )

  -- The rest of a round, from each of its answers on.
  abbrev check_hash : Fact → M r.chain.Node (Unit {0})
  check_hash f = if f.tx_hash == 0 then fail unreconciled else pure tt

  abbrev with_cached : ℕ → Intent → Option Fact → M r.chain.Node (Unit {0})
  with_cached settled i cached = spent_fact r i settled cached >>= λ f. check_hash f

  abbrev with_intent : ℕ → Intent → M r.chain.Node (Unit {0})
  with_intent settled i = sql (Store.fact r.address i.id) >>= λ cached. with_cached settled i cached

  abbrev with_found : ℕ → Option Intent → M r.chain.Node (Unit {0})
  with_found settled found = lift (or_unreconciled found) >>= λ i. with_intent settled i

  module _ (settled nonce : ℕ) (i : Intent) (row : IntentRow) (same : i.id ≡ row.id) where
    cached_explains :
        (cached : Option Fact) (w : World r.chain.Node)
        → find (is_nonce r.address (int64 nonce)) w.store.tables.intents ≡ some row
        → Option.map scan_fact (find (is_fact r.address i.id) w.store.tables.facts) ≡ cached
        → (with_cached settled i cached w).0 ≡ ok tt
        → IsExplained r.address nonce (with_cached settled i cached w).1.store.tables
    cached_explains cached w owner known h =
        let (f, found, rest) = first_answered check_hash (spent_fact r i settled cached) w tt h in
        let v : World r.chain.Node = (spent_fact r i settled cached w).1 in
        let (nonzero, end) = named f.tx_hash v (ap (λ out. out.0) (sym rest) ∙ h) in
        let (fact, there, hash) = recorded_fact i settled cached w f known found in
        let history = ((Quiet-spent_fact r i settled cached).at w).tables.history in
        subst (λ x. IsExplained r.address nonce x.store.tables) (sym (ap (λ out. out.1) rest ∙ end))
          (record {
            intent = row;
            owner =
                find-Grows _ w.store.tables.intents v.store.tables.intents history.intents owner;
            fact = fact;
            outcome = rw (← same) there;
            spent_by = λ zero_hash. nonzero (sym hash ∙ zero_hash);
          })

    intent_explains :
        (w : World r.chain.Node)
        → find (is_nonce r.address (int64 nonce)) w.store.tables.intents ≡ some row
        → (with_intent settled i w).0 ≡ ok tt
        → IsExplained r.address nonce (with_intent settled i w).1.store.tables
    intent_explains w owner h =
        let reading : M r.chain.Node (Option Fact) = sql (Store.fact r.address i.id) in
        let (cached, read, rest) = first_answered (with_cached settled i) reading w tt h in
        let v : World r.chain.Node = (reading w).1 in
        let kept : v.store.tables ≡ w.store.tables =
          unfold sql Store.fact in tables-query _ w.store in
        let known : Option.map scan_fact (find (is_fact r.address i.id) w.store.tables.facts)
            ≡ cached =
          unfold sql Store.fact in query_ok _ w.store read in
        subst (λ out. IsExplained r.address nonce out.1.store.tables) (sym rest)
          (cached_explains cached v (rw kept owner) (rw kept known)
            (ap (λ out. out.0) (sym rest) ∙ h))

  found_explains :
      (settled nonce : ℕ) (found : Option Intent) (w : World r.chain.Node)
      → scan_found (find (is_nonce r.address (int64 nonce)) w.store.tables.intents) ≡ ok found
      → (with_found settled found w).0 ≡ ok tt
      → IsExplained r.address nonce (with_found settled found w).1.store.tables
  found_explains settled nonce found w known h =
      let (i, own, rest) =
        first_answered (with_intent settled) (lift (or_unreconciled found)) w tt h in
      let (row, owner, same) =
        opened (find (is_nonce r.address (int64 nonce)) w.store.tables.intents) found i known own in
      subst (λ out. IsExplained r.address nonce out.1.store.tables) (sym rest)
        (intent_explains settled nonce i row same w owner (ap (λ out. out.0) (sym rest) ∙ h))

  pub match_nonce_explains :
      (settled nonce : ℕ) (w : World r.chain.Node)
      → (match_nonce r settled nonce w).0 ≡ ok tt
      → IsExplained r.address nonce (match_nonce r settled nonce w).1.store.tables
  unfolding match_nonce
  match_nonce_explains settled nonce w h =
      let reading : M r.chain.Node (Option Intent) = sql (Store.intent_by_nonce r.address nonce) in
      let (found, read, rest) = first_answered (with_found settled) reading w tt h in
      let v : World r.chain.Node = (reading w).1 in
      let kept : v.store.tables ≡ w.store.tables =
        unfold sql Store.intent_by_nonce in tables-read _ scan_found w.store in
      let known : scan_found (find (is_nonce r.address (int64 nonce)) w.store.tables.intents)
          ≡ ok found =
        unfold sql Store.intent_by_nonce in read_ok _ scan_found w.store read in
      subst (λ out. IsExplained r.address nonce out.1.store.tables) (sym rest)
        (found_explains settled nonce found v (rw kept known) (ap (λ out. out.0) (sym rest) ∙ h))
