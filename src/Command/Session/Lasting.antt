-- ===== src/Command/Session/Lasting.antt =====
-- What lasts on disk whichever calls of railctl are made.
use juice_rail.Base.{
  ℕ, ◌≡◌, ◌⊎◌, inl, inr, refl, ap, ◌∙◌, Bool, true, false, not, some, List, [], ◌∷◌, if◌then◌else◌,
}
use juice_rail.Base.Lists.{Bytes, eq_bytes, Grows, Grows-refl, Grows-trans}
use juice_rail.Base.Error.{Result, ok, err}
use juice_rail.Chain.{Tx}
use juice_rail.Command.Moves.{Active-run_command}
use juice_rail.Command.{valid_halt_point}
use juice_rail.Command.Open.{Opening, Files, Found, find_out, Opened, open_found, open_app}
use juice_rail.Command.Session.{
  Invocation, Home, opening_in, world_of, world_after, Ending, refused, on_opened, start_profile,
  run_words, run, run_all,
}
use juice_rail.Intent.{codes}
use juice_rail.Keys.{Eth, domain_key}
use juice_rail.Observed.{Column, stored, open_store}
use juice_rail.Observed.Cursors.{not_below, not_below_refl, not_below_trans}
use juice_rail.Observed.Opening.{Claims, open_store-Claims}
use juice_rail.Profile.Disk.{put, put_cases}
use juice_rail.Profile.Init.Complete.{
  Keeps, Keeps-refl, Keeps-trans, IsComplete, init_profile-Keeps, init_profile-IsComplete,
}
use juice_rail.Quiet.{History}
use juice_rail.Sql.{Tables, Db}
use juice_rail.Store.Intents.{IsKeyed}

-- What a store had it has, and the domain that it was bound to.
pub record Lasts (t t' : Tables) : Type 0 where
  pub keyed : IsKeyed t.intents → IsKeyed t'.intents
  pub intents : Grows t.intents t'.intents
  pub submissions : Grows t.submissions t'.submissions
  pub facts : Grows t.facts t'.facts
  pub deposits : Grows t.deposits t'.deposits
  pub cursors :
      (b : ℕ) (c : Column) → not_below (stored b c t.cursors) (stored b c t'.cursors) ≡ true
  pub domain : (key : Bytes) → t.domain ≡ some key → t'.domain ≡ some key

Lasts-refl : (t : Tables) → Lasts t t
Lasts-refl t = record {
  keyed = λ k. k;
  intents = Grows-refl t.intents;
  submissions = Grows-refl t.submissions;
  facts = Grows-refl t.facts;
  deposits = Grows-refl t.deposits;
  cursors = λ b c. not_below_refl (stored b c t.cursors);
  domain = λ key h. h;
}

Lasts-trans : (t u v : Tables) → Lasts t u → Lasts u v → Lasts t v
Lasts-trans t u v p q = record {
  keyed = λ k. q.keyed (p.keyed k);
  intents = Grows-trans t.intents u.intents v.intents p.intents q.intents;
  submissions = Grows-trans t.submissions u.submissions v.submissions p.submissions q.submissions;
  facts = Grows-trans t.facts u.facts v.facts p.facts q.facts;
  deposits = Grows-trans t.deposits u.deposits v.deposits p.deposits q.deposits;
  cursors = λ b c.
      not_below_trans (stored b c t.cursors) (stored b c u.cursors) (stored b c v.cursors)
        (p.cursors b c) (q.cursors b c);
  domain = λ key h. q.domain key (p.domain key h);
}

Lasts-Claims : (t t' : Tables) → Claims t t' → Lasts t t'
Lasts-Claims t t' c = record {
  keyed = λ k. rw c.tables k;
  intents = rw c.tables (Grows-refl t.intents);
  submissions = rw c.tables (Grows-refl t.submissions);
  facts = rw c.tables (Grows-refl t.facts);
  deposits = rw c.tables (Grows-refl t.deposits);
  cursors = λ b d. rw c.tables (not_below_refl (stored b d t.cursors));
  domain = λ key h. ap (λ x. x.domain) c.tables ∙ c.kept key h;
}

Lasts-History : (t t' : Tables) → History t t' → Lasts t t'
Lasts-History t t' h = record {
  keyed = h.keyed;
  intents = h.intents;
  submissions = h.submissions;
  facts = h.facts;
  deposits = h.deposits;
  cursors = h.cursors;
  domain = λ key e. h.domain ∙ e;
}

-- Every store lasts.
unfoldable pub AllLast : Files → Files → Type 0
AllLast files files' = (path : Bytes) → Lasts (files path).tables (files' path).tables

AllLast-put :
    (files : Files) (path : Bytes) (db : Db)
    → Lasts (files path).tables db.tables
    → AllLast files (put files path db)
unfolding AllLast
AllLast-put files path db l p = elim (put_cases files path db p) [
  | inl (same, at) ↦ rw (at, same) l
  | inr at ↦ rw at (Lasts-refl (files p).tables)
]

AllLast-refl : (files : Files) → AllLast files files
unfolding AllLast
AllLast-refl files p = Lasts-refl (files p).tables

AllLast-trans : (xs ys zs : Files) → AllLast xs ys → AllLast ys zs → AllLast xs zs
unfolding AllLast
AllLast-trans xs ys zs l m p = Lasts-trans (xs p).tables (ys p).tables (zs p).tables (l p) (m p)

AllLast-open_found :
    (eth : Eth) (o : Opening) (files : Files) (found : Result Found)
    → AllLast files (open_found eth o files found).1
unfolding open_found
AllLast-open_found eth o files (err e) = AllLast-refl files
AllLast-open_found eth o files (ok f) =
    let key = domain_key eth f.domain.chain_id f.domain.token in
    let db : Db = (open_store key (files f.inputs.store)).1 in
    AllLast-put files f.inputs.store db
      (Lasts-Claims _ db.tables (open_store-Claims key (files f.inputs.store)))

AllLast-open_app :
    (eth : Eth) (o : Opening) (files : Files) → AllLast files (open_app eth o files).1
unfolding open_app
AllLast-open_app eth o files = AllLast-open_found eth o files (find_out eth o)

-- What one call does: what was there lasts, and at most one transaction goes out.
pub record Lawful (v : Invocation) (h : Home) (end : Ending) : Type 0 where
  pub disk : Keeps h.disk end.home.disk
  pub complete : IsComplete h.disk → IsComplete end.home.disk
  pub files : AllLast h.files end.home.files
  pub once : (end.sent ≡ []) ⊎ ((tx : Tx) × (end.sent ≡ tx ∷ []))

Lawful-refused : (v : Invocation) (h : Home) → Lawful v h (refused h)
Lawful-refused v h = record {
  disk = Keeps-refl h.disk;
  complete = λ whole. whole;
  files = AllLast-refl h.files;
  once = inl refl;
}

Lawful-on_opened :
    (v : Invocation) (h : Home) (out : Result Opened × Files)
    → AllLast h.files out.1
    → Lawful v h (on_opened v h.disk out)
unfolding on_opened
Lawful-on_opened v h (err e, files) l = record {
  disk = Keeps-refl h.disk;
  complete = λ whole. whole;
  files = l;
  once = inl refl;
}
Lawful-on_opened v h (ok a, files) l =
    let w = world_of a files in
    let moves = (Active-run_command a.app v.fuel v.args).at w in
    let db : Db = (world_after v a files).store in
    record {
      disk = Keeps-refl h.disk;
      complete = λ whole. whole;
      files = AllLast-trans h.files files (put files a.path db) l (
          AllLast-put files a.path db
            (Lasts-History (files a.path).tables db.tables moves.history));
      once = moves.once;
    }

Lawful-start_profile :
    (v : Invocation) (h : Home) (args : List Bytes) → Lawful v h (start_profile v h args)
unfolding start_profile
Lawful-start_profile v h args = record {
  disk = init_profile-Keeps v.setting args h.disk;
  complete = init_profile-IsComplete v.setting args h.disk;
  files = AllLast-refl h.files;
  once = inl refl;
}

Lawful-if :
    (v : Invocation) (h : Home) (b : Bool) (x y : Ending)
    → Lawful v h x
    → Lawful v h y
    → Lawful v h (if b then x else y)
Lawful-if v h true x y p q = p
Lawful-if v h false x y p q = q

Lawful-run_words :
    (v : Invocation) (h : Home) (words : List Bytes) → Lawful v h (run_words v h words)
unfolding run_words
Lawful-run_words v h [] = Lawful-refused v h
Lawful-run_words v h (name ∷ args) =
    Lawful-if v h (not (valid_halt_point v.opening.halt_after)) _ _ (Lawful-refused v h) (
      Lawful-if v h (eq_bytes name (codes "init")) _ _ (Lawful-start_profile v h args) (
        Lawful-on_opened v h (open_app v.setting.eth (opening_in v h) h.files)
          (AllLast-open_app v.setting.eth (opening_in v h) h.files)))

-- Whatever its words, its flags, the files and the node are, and however it ends, a call of railctl keeps each
-- installed domain, each profile and its key, keeps a complete set of profiles complete, loses nothing that a store has
-- and moves no store to another ledger, and hands at most one transaction to the node.
pub run-Lawful : (v : Invocation) (h : Home) → Lawful v h (run v h)
unfolding run
run-Lawful v h = Lawful-run_words v h v.args

-- Over calls of railctl in a row, each with its own words, flags, failures and node: every installed domain and
-- profile stays, and so does the key of each profile on disk, a complete set of profiles stays complete, and in every
-- store the rows of intents, attempts, facts and deposits are only added behind those that were there, identifiers and
-- nonces stay unique if they were, no cursor comes to hold a lesser signed 64-bit number, so that none below 2 ^ 63 goes
-- back, and the ledger stays.
pub run_all-Lasts :
    (calls : List Invocation) (h : Home)
    → Keeps h.disk (run_all calls h).disk
      × (IsComplete h.disk → IsComplete (run_all calls h).disk)
      × AllLast h.files (run_all calls h).files
unfolding run_all
run_all-Lasts [] h = (Keeps-refl h.disk, λ whole. whole, AllLast-refl h.files)
run_all-Lasts (v ∷ more) h =
    let first = run-Lawful v h in
    let next : Home = (run v h).home in
    let (keeps, complete, last) = run_all-Lasts more next in
    (
      Keeps-trans h.disk next.disk (run_all more next).disk first.disk keeps,
      λ whole. complete (first.complete whole),
      AllLast-trans h.files next.files (run_all more next).files first.files last,
    )
