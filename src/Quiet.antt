-- ===== src/Quiet.antt =====
-- Actions that hand nothing to the node and leave the attempts, and all that is recorded, in place:
-- all methods of go/rail/rail.go and go/rail/status.go up to `submit`.
pub mod Rules
pub mod Writes
use juice_rail.Base.{ℕ, ◌≡◌, true, refl, ◌∙◌}
use juice_rail.Base.Lists.{Grows, Grows-refl, Grows-trans}
use juice_rail.Sql.{Tables, Db, Sql}
use juice_rail.Store.Intents.{IsKeyed}
use juice_rail.Observed.{Column, stored}
use juice_rail.Observed.Cursors.{not_below, not_below_refl, not_below_trans}
use juice_rail.Machine.{World, M}

-- What was recorded before is recorded still: intents stay unique, rows of intents, attempts, facts and
-- deposits are only added behind those that were there, no cursor comes to hold a lesser number, and the domain stays.
pub record History (t t' : Tables) : Type 0 where
  pub keyed : IsKeyed t.intents → IsKeyed t'.intents
  pub intents : Grows t.intents t'.intents
  pub submissions : Grows t.submissions t'.submissions
  pub facts : Grows t.facts t'.facts
  pub deposits : Grows t.deposits t'.deposits
  pub cursors :
      (b : ℕ) (c : Column) → not_below (stored b c t.cursors) (stored b c t'.cursors) ≡ true
  pub domain : t'.domain ≡ t.domain

pub History-refl : (t : Tables) → History t t
History-refl t = record {
  keyed = λ k. k;
  intents = Grows-refl t.intents;
  submissions = Grows-refl t.submissions;
  facts = Grows-refl t.facts;
  deposits = Grows-refl t.deposits;
  cursors = λ b c. not_below_refl (stored b c t.cursors);
  domain = refl;
}

pub History-trans : (t u v : Tables) → History t u → History u v → History t v
History-trans t u v p q = record {
  keyed = λ k. q.keyed (p.keyed k);
  intents = Grows-trans t.intents u.intents v.intents p.intents q.intents;
  submissions = Grows-trans t.submissions u.submissions v.submissions p.submissions q.submissions;
  facts = Grows-trans t.facts u.facts v.facts p.facts q.facts;
  deposits = Grows-trans t.deposits u.deposits v.deposits p.deposits q.deposits;
  cursors = λ b c.
      not_below_trans (stored b c t.cursors) (stored b c u.cursors) (stored b c v.cursors)
        (p.cursors b c) (q.cursors b c);
  domain = q.domain ∙ p.domain;
}

pub record Careful (t t' : Tables) : Type 0 where
  pub submissions : t'.submissions ≡ t.submissions
  pub history : History t t'

pub Careful-refl : (t : Tables) → Careful t t
Careful-refl t = record { submissions = refl; history = History-refl t }

Careful-trans : (t u v : Tables) → Careful t u → Careful u v → Careful t v
Careful-trans t u v p q = record {
  submissions = q.submissions ∙ p.submissions;
  history = History-trans t u v p.history q.history;
}

-- An action on the store that is careful however it ends.
record Safe {ℓ} {A : Type ℓ} (m : Sql A) : Type ℓ where
  pub at : (db : Db) → Careful db.tables (m db).1.tables

pub record Calm {N : Type 0} (w w' : World N) : Type 0 where
  pub sent : w'.sent ≡ w.sent
  pub tables : Careful w.store.tables w'.store.tables

pub Calm-refl : {N : Type 0} (w : World N) → Calm w w
Calm-refl w = record { sent = refl; tables = Careful-refl w.store.tables }

Calm-trans : {N : Type 0} (u v w : World N) → Calm u v → Calm v w → Calm u w
Calm-trans u v w p q = record {
  sent = q.sent ∙ p.sent;
  tables = Careful-trans u.store.tables v.store.tables w.store.tables p.tables q.tables;
}

-- Whatever it returns, the action has sent nothing and was careful.
pub record Quiet {ℓ} {N : Type 0} {A : Type ℓ} (m : M N A) : Type ℓ where
  pub at : (w : World N) → Calm w (m w).1
