-- ===== src/Settle/Quiet.antt =====
-- What the methods of go/rail/status.go that settle and reconcile leave alone.
use juice_rail.Base.{ℕ, zero, suc, ◌+◌, Option, none, some, List, [], ◌∷◌}
use juice_rail.Intent.{Intent, Submission, Fact}
use juice_rail.Machine.{Rail}
use juice_rail.Quiet.{Quiet}
use juice_rail.Quiet.Rules.{quiet_rules, Quiet-bind, Quiet-option, Quiet-pure}
use juice_rail.Quiet.Writes.{safe_rules}
use juice_rail.Settle.{
  settled_header, try_attempt, search_attempts, outcome, derive, status, status_of, settle_each,
  settle, spent_fact, match_nonce, match_nonces, reconcile,
}

module _ (r : Rail) where
  pub Quiet-settled_header : Quiet (settled_header r)
  unfolding settled_header
  Quiet-settled_header = search (quiet_rules, safe_rules)

  Quiet-try_attempt : (i : Intent) (settled hash : ℕ) → Quiet (try_attempt r i settled hash)
  unfolding try_attempt
  Quiet-try_attempt i settled hash = search (quiet_rules, safe_rules)

  Quiet-search_attempts :
      (i : Intent) (settled : ℕ) (subs : List Submission) → Quiet (search_attempts r i settled subs)
  unfolding search_attempts
  Quiet-search_attempts i settled [] = search (quiet_rules, safe_rules)
  Quiet-search_attempts i settled (s ∷ subs) =
      Quiet-bind (try_attempt r i settled s.tx_hash) _ (Quiet-try_attempt i settled s.tx_hash)
        λ found. Quiet-option found _ _ (Quiet-search_attempts i settled subs) (λ f. Quiet-pure f)

  Quiet-outcome : (i : Intent) (settled : ℕ) → Quiet (outcome r i settled)
  unfolding outcome
  Quiet-outcome i settled = search (quiet_rules, safe_rules, Quiet-search_attempts)

  Quiet-derive : (i : Intent) → Quiet (derive r i)
  unfolding derive
  Quiet-derive i = search (quiet_rules, safe_rules, Quiet-settled_header, Quiet-outcome) depth 9

  pub Quiet-status : (i : Intent) → Quiet (status r i)
  unfolding status
  Quiet-status i = search (quiet_rules, safe_rules, Quiet-derive)

  Quiet-settle_each : (is : List Intent) → Quiet (settle_each r is)
  unfolding settle_each
  Quiet-settle_each [] = search (quiet_rules, safe_rules)
  Quiet-settle_each (i ∷ is) =
      Quiet-bind (status r i) _ (Quiet-status i) (λ s. Quiet-settle_each is)

  pub Quiet-settle : Quiet (settle r)
  unfolding settle
  Quiet-settle = search (quiet_rules, safe_rules, Quiet-settle_each)

  pub Quiet-spent_fact :
      (i : Intent) (settled : ℕ) (o : Option Fact) → Quiet (spent_fact r i settled o)
  unfolding spent_fact
  Quiet-spent_fact i settled (some f) = search (quiet_rules, safe_rules)
  Quiet-spent_fact i settled none = search (quiet_rules, safe_rules, Quiet-outcome)

  Quiet-match_nonce : (settled nonce : ℕ) → Quiet (match_nonce r settled nonce)
  unfolding match_nonce
  Quiet-match_nonce settled nonce = search (quiet_rules, safe_rules, Quiet-spent_fact) depth 9

  pub Quiet-match_nonces : (settled nonce rounds : ℕ) → Quiet (match_nonces r settled nonce rounds)
  unfolding match_nonces
  Quiet-match_nonces settled nonce zero = search (quiet_rules, safe_rules)
  Quiet-match_nonces settled nonce (suc rounds) =
      Quiet-bind (match_nonce r settled nonce) _ (Quiet-match_nonce settled nonce)
        λ u. Quiet-match_nonces settled (nonce + 1) rounds

  pub Quiet-reconcile : Quiet (reconcile r)
  unfolding reconcile
  Quiet-reconcile =
      search (quiet_rules, safe_rules, Quiet-settled_header, Quiet-match_nonces) depth 9

  pub Quiet-status_of : (id : ℕ) → Quiet (status_of r id)
  unfolding status_of
  Quiet-status_of id = search (quiet_rules, safe_rules, Quiet-status) depth 9
