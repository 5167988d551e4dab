-- ===== src/Settle/Unchanged.antt =====
-- Actions of go/rail/status.go that only read the store.
use juice_rail.Base.{ℕ, ◌≡◌, refl, ◌∙◌, Option, none, some, List, [], ◌∷◌}
use mathlib.Core.List.{reverse}
use juice_rail.Base.Error.{Result, ok, err}
use juice_rail.Intent.{Intent, Submission}
use juice_rail.Sql.Statements.{tables-read}
use juice_rail.Store
use juice_rail.Store.{
  is_nonce, is_fact, scan_intent, scan_found, scan_fact, fact_row, insert_fact, put_fact,
}
use juice_rail.Machine.{Rail, World, M, sql, ask, continue, on_option, ◌>>=◌}
use juice_rail.Settle.{settled_header, outcome, search_attempts, try_attempt}

-- An action that changes no table.
abbrev KeepsTables {ℓ} : {N : Type 0} {A : Type ℓ} → M N A → Type 0
KeepsTables {N = N} m = (w : World N) → (m w).1.store.tables ≡ w.store.tables

module _ {N A B : Type 0} (m : M N A) (f : A → M N B) where
  goes_on :
      (res : Result A) (w : World N)
      → ((a : A) → KeepsTables (f a))
      → (continue res f w).1.store.tables ≡ w.store.tables
  goes_on (ok a) w q = q a w
  goes_on (err e) w q = refl

  KeepsTables-bind : KeepsTables m → ((a : A) → KeepsTables (f a)) → KeepsTables (m >>= f)
  KeepsTables-bind p q w = goes_on (m w).0 (m w).1 q ∙ p w

module _ {N A B : Type 0} where
  KeepsTables-option :
      (o : Option A) (m : M N B) (f : A → M N B)
      → KeepsTables m
      → ((a : A) → KeepsTables (f a))
      → KeepsTables (on_option o m f)
  KeepsTables-option none m f p q = p
  KeepsTables-option (some a) m f p q = q a

module _ (r : Rail) where
  KeepsTables-try_attempt :
      (i : Intent) (settled hash : ℕ) → KeepsTables (try_attempt r i settled hash)
  unfolding try_attempt ask
  KeepsTables-try_attempt i settled hash w = refl

  KeepsTables-search_attempts :
      (i : Intent) (settled : ℕ) (subs : List Submission)
      → KeepsTables (search_attempts r i settled subs)
  unfolding search_attempts
  KeepsTables-search_attempts i settled [] = λ w. refl
  KeepsTables-search_attempts i settled (s ∷ subs) =
      KeepsTables-bind (try_attempt r i settled s.tx_hash) _
        (KeepsTables-try_attempt i settled s.tx_hash)
        λ found.
          KeepsTables-option found _ _ (KeepsTables-search_attempts i settled subs) (λ f w. refl)

  pub KeepsTables-outcome : (i : Intent) (settled : ℕ) → KeepsTables (outcome r i settled)
  unfolding outcome sql Store.submissions
  KeepsTables-outcome i settled =
      KeepsTables-bind (sql (Store.submissions r.address i.id)) _ (λ w. tables-read _ _ w.store)
        (λ subs. KeepsTables-search_attempts i settled (reverse subs))

  pub KeepsTables-settled_header : KeepsTables (settled_header r)
  unfolding settled_header ask
  KeepsTables-settled_header =
      KeepsTables-bind (ask (r.chain.header (some r.domain.finality))) _ (λ w. refl) (λ h w. refl)
