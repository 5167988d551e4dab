-- ===== src/Observed/Opening.antt =====
-- What `Open` of go/sqlite/sqlite.go does to a file.
use juice_rail.Base.{
  ◌≡◌, ◌≢◌, refl, sym, ap, ◌∙◌, ◌⊎◌, inl, inr, Option, none, some, Bool, true, false, List, [], ◌∷◌,
}
use juice_rail.Base.Lists.{Bytes}
use juice_rail.Base.Error.{Result, ok, err}
use juice_rail.Sql.{Tables, Db, Sql, attempt, exec, query, lift, ◌>>=◌, ◌>>◌}
use juice_rail.Sql.Statements.{exec_ok, read_ok, tables-read, then_ok}
use juice_rail.Observed.{
  claim, bound_or_refused, bind_domain, set_up, set_up_all, pragmas, open_store,
}
use juice_rail.Observed.Binding.{bound_iff, claimed}

tables-set_up_all :
    (texts : List Bytes) (db : Db)
    → (set_up_all texts db).0 ≡ ok tt
    → (set_up_all texts db).1.tables ≡ db.tables
unfolding set_up_all
tables-set_up_all [] db h = refl
tables-set_up_all (text ∷ more) db h =
    let (first, rest) = then_ok set_up (set_up_all more) db h in
    let start : Db = (set_up db).1 in
    ap (λ out. out.1.tables) rest
    ∙ tables-set_up_all more start (ap (λ out. out.0) (sym rest) ∙ h)
    ∙ exec_ok (λ t. t) db first

-- The file is bound to the domain, and was bound to no other.
pub record Bound (domain : Bytes) (before after : Tables) : Type 0 where
  pub tables : after ≡ record before { domain = some domain }
  pub was : (before.domain ≡ none) ⊎ (before.domain ≡ some domain)

first_is :
    (domain : Bytes) (o : Option Bytes)
    → (o ≡ none) ⊎ (o ≡ some domain)
    → claim domain o ≡ some domain
first_is domain none was = claimed domain none
first_is domain (some bound) (inl h) = cc
first_is domain (some bound) (inr h) = claimed domain (some bound) ∙ h

Bound-bind_domain :
    (domain : Bytes) (db : Db)
    → (bind_domain domain db).0 ≡ ok tt
    → Bound domain db.tables (bind_domain domain db).1.tables
unfolding bind_domain
Bound-bind_domain domain db h =
    let claiming : (t : Tables) → Tables = λ t. record t { domain = claim domain t.domain } in
    let (first, rest) =
      then_ok (exec claiming)
        (query (λ t. t.domain) >>= λ bound. lift (bound_or_refused domain bound)) db h in
    let start : Db = (exec claiming db).1 in
    let now : start.tables ≡ claiming db.tables = exec_ok claiming db first in
    let agreed : bound_or_refused domain (claim domain db.tables.domain) ≡ ok tt =
      ap (λ t. bound_or_refused domain t.domain) (sym now)
      ∙ read_ok (λ t. t.domain) (bound_or_refused domain) start
          (ap (λ out. out.0) (sym rest) ∙ h) in
    let was = (bound_iff domain db.tables.domain).0 agreed in
    record {
      tables =
          ap (λ out. out.1.tables) rest
          ∙ tables-read (λ t. t.domain) (bound_or_refused domain) start
          ∙ now
          ∙ ap {B = Tables} (λ o. record db.tables { domain = o })
              (first_is domain db.tables.domain was);
      was = was;
    }

-- A file opens under a domain only if it was bound to that one or to none, and is then bound to it; nothing else in
-- it has changed.
pub open_store-Bound :
    (domain : Bytes) (db : Db)
    → (open_store domain db).0 ≡ ok tt
    → Bound domain db.tables (open_store domain db).1.tables
unfolding open_store
open_store-Bound [] db h = cc
open_store-Bound (c ∷ domain) db h =
    let (first, rest) = then_ok (set_up_all pragmas) (set_up >> bind_domain (c ∷ domain)) db h in
    let start : Db = (set_up_all pragmas db).1 in
    let (second, last) =
      then_ok set_up (bind_domain (c ∷ domain)) start (ap (λ out. out.0) (sym rest) ∙ h) in
    let ready : Db = (set_up start).1 in
    let same : ready.tables ≡ db.tables =
      exec_ok (λ t. t) start second ∙ tables-set_up_all pragmas db first in
    let bound = Bound-bind_domain (c ∷ domain) ready (ap (λ out. out.0) (sym (rest ∙ last)) ∙ h) in
    let out : (open_store (c ∷ domain) db).1.tables ≡ (bind_domain (c ∷ domain) ready).1.tables =
      ap (λ x. x.1.tables) (rest ∙ last) in
    record {
      tables =
          out
          ∙ bound.tables
          ∙ ap {A = Tables} {B = Tables} (λ t. record t { domain = some (c ∷ domain) }) same;
      was = rw (← same) bound.was;
    }

-- Where no statement fails, a file that is bound to no domain or to this one opens.
pub open_store_opens :
    (domain : Bytes) (t : Tables)
    → domain ≢ []
    → (t.domain ≡ none) ⊎ (t.domain ≡ some domain)
    → (open_store domain (record { tables = t; faults = [] })).0 ≡ ok tt
unfolding open_store set_up_all bind_domain
open_store_opens [] t named was = absurd (named refl)
open_store_opens (c ∷ domain) t named was = (bound_iff (c ∷ domain) t.domain).1 was

-- However opening ends, no row has changed, and a domain that was there is there.
pub record Claims (before after : Tables) : Type 0 where
  pub domain : Option Bytes
  pub tables : after ≡ record before { domain = domain }
  pub kept : (d : Bytes) → before.domain ≡ some d → domain ≡ some d

Claims-same : (t t' : Tables) → t' ≡ t → Claims t t'
Claims-same t t' same = record { domain = t.domain; tables = same; kept = λ d h. h }

Claims-trans : (t u v : Tables) → Claims t u → Claims u v → Claims t v
Claims-trans t u v p q = record {
  domain = q.domain;
  tables = q.tables ∙ ap {A = Tables} {B = Tables} (λ x. record x { domain = q.domain }) p.tables;
  kept = λ d h. q.kept d (ap (λ x. x.domain) p.tables ∙ p.kept d h);
}

claiming_by :
    (f : Tables → Tables) (claims : (t : Tables) → Claims t (f t)) (fs : List Bool) (t : Tables)
    → Claims t (attempt {A = Unit {0}} fs (λ s. (tt, f s)) t).1.tables
claiming_by f claims [] t = claims t
claiming_by f claims (true ∷ fs) t = Claims-same t t refl
claiming_by f claims (false ∷ fs) t = claims t

Claims-then :
    (r : Result (Unit {0})) (t : Tables) (db : Db) (k : Sql (Unit {0}))
    → Claims t db.tables
    → ((start : Db) → Claims start.tables (k start).1.tables)
    → (let out : Result (Unit {0}) × Db = elim r [ ok u ↦ k db | err e ↦ (err e, db) ] in
        Claims t out.1.tables)
Claims-then (ok u) t db k p q = Claims-trans t db.tables (k db).1.tables p (q db)
Claims-then (err e) t db k p q = p

Claims-set_up : (db : Db) → Claims db.tables (set_up db).1.tables
Claims-set_up db = claiming_by (λ t. t) (λ t. Claims-same t t refl) db.faults db.tables

Claims-set_up_all : (texts : List Bytes) (db : Db) → Claims db.tables (set_up_all texts db).1.tables
unfolding set_up_all
Claims-set_up_all [] db = Claims-same db.tables db.tables refl
Claims-set_up_all (text ∷ more) db =
    Claims-then (set_up db).0 db.tables (set_up db).1 (set_up_all more) (Claims-set_up db)
      (Claims-set_up_all more)

Claims-claim :
    (domain : Bytes) (t : Tables) → Claims t (record t { domain = claim domain t.domain })
unfolding claim
Claims-claim domain t = record {
  domain = claim domain t.domain;
  tables = refl;
  kept = λ d h. rw h refl;
}

Claims-bind_domain : (domain : Bytes) (db : Db) → Claims db.tables (bind_domain domain db).1.tables
unfolding bind_domain
Claims-bind_domain domain db =
    let start = exec (λ t. record t { domain = claim domain t.domain }) db in
    Claims-then start.0 db.tables start.1
      (query (λ t. t.domain) >>= λ bound. lift (bound_or_refused domain bound))
      (claiming_by _ (Claims-claim domain) db.faults db.tables)
      (λ d. Claims-same d.tables _ (tables-read (λ t. t.domain) (bound_or_refused domain) d))

pub open_store-Claims :
    (domain : Bytes) (db : Db) → Claims db.tables (open_store domain db).1.tables
unfolding open_store
open_store-Claims [] db = Claims-same db.tables db.tables refl
open_store-Claims (c ∷ domain) db =
    let first = set_up_all pragmas db in
    Claims-then first.0 db.tables first.1 (set_up >> bind_domain (c ∷ domain))
      (Claims-set_up_all pragmas db)
      λ start.
        Claims-then (set_up start).0 start.tables (set_up start).1 (bind_domain (c ∷ domain))
          (Claims-set_up start) (Claims-bind_domain (c ∷ domain))
