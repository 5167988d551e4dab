-- ===== src/Machine.antt =====
-- The state that a `Rail` of go/rail/rail.go works on, and how its methods run. The mutex makes each
-- method one step; what a method wrote before it failed stays written, so the state comes back
-- beside an error too. `sent` is the list of the transactions handed to the node so far.
pub mod Answers
use juice_rail.Base.{ℕ, Bool, Option, none, some, List, [], ◌∷◌, ◌++◌}
use juice_rail.Base.Error.{Error, Result, ok, err}
use juice_rail.Chain.{Chain, Tx}
use juice_rail.Domain.{Domain}
use juice_rail.Sql.{Db, Sql}

pub record Rail : Type 1 where
  pub domain : Domain
  pub chain : Chain
  pub address : ℕ

pub record World (N : Type 0) : Type 0 where
  pub store : Db
  pub node : N
  pub chain_checked : Bool
  pub sent : List Tx

abbrev pub M {ℓ} : Type 0 → Type ℓ → Type ℓ
M N A = World N → Result A × World N

module _ {ℓ} {N : Type 0} {A : Type ℓ} where
  abbrev pub pure : A → M N A
  pure a w = (ok a, w)

  abbrev pub fail : Error → M N A
  fail e w = (err e, w)

  abbrev pub lift : Result A → M N A
  lift r w = (r, w)

  -- A call of the store.
  unfoldable pub sql : Sql A → M N A
  sql m w = let (r, db) = m w.store in (r, record w { store = db })

  -- A call of the node.
  unfoldable pub ask : (N → Result A × N) → M N A
  ask m w = let (r, n) = m w.node in (r, record w { node = n })

  -- The answer of a call as a value, errors included.
  abbrev pub caught : M N A → M N (Result A)
  caught m w = let (r, w') = m w in (ok r, w')

module _ {ℓ κ} {N : Type 0} {A : Type ℓ} {B : Type κ} where
  abbrev pub continue : Result A → (A → M N B) → M N B
  continue (ok a) f w = f a w
  continue (err e) f w = (err e, w)

  -- `if found`, where what is found is handed on.
  abbrev pub on_option : Option A → M N B → (A → M N B) → M N B
  on_option none m f = m
  on_option (some a) m f = f a

infixl 5 ◌>>=◌ ◌>>◌
abbrev pub ◌>>=◌ {ℓ κ} : {N : Type 0} {A : Type ℓ} {B : Type κ} → M N A → (A → M N B) → M N B
◌>>=◌ m f w = let (r, w') = m w in continue r f w'

abbrev pub ◌>>◌ {ℓ} : {N : Type 0} {B : Type ℓ} → M N (Unit {0}) → M N B → M N B
m >> k = m >>= λ _. k

-- The transaction goes to the node, and into the record of what was sent.
unfoldable pub broadcast : (c : Chain) → Tx → M c.Node (Result (Unit {0}))
broadcast c tx w =
    let (r, n) = c.send_transaction tx w.node in
    (ok r, record w { node = n; sent = w.sent ++ tx ∷ [] })
