-- ===== src/Intent/Terms.antt =====
-- What `Intent.SameTerms` tells.
use juice_rail.Base.{◌≡◌, refl, true, Option, some, arith, none}
use juice_rail.Base.Int.{ℤ, eq_of_parts}
use juice_rail.Intent.{Intent, same_amount, same_terms}

-- Two intents for the same payment: the kind, the payee, the nonce and the amount are those of the other.
pub record IsSame (i o : Intent) : Type 0 where
  pub id : i.id ≡ o.id
  pub kind : i.kind ≡ o.kind
  pub to : i.to ≡ o.to
  pub nonce : i.nonce ≡ o.nonce
  pub amount : ℤ
  pub amount_here : i.amount ≡ some amount
  pub amount_there : o.amount ≡ some amount

both_there : (a b : Option ℤ) → same_amount a b ≡ true → (v : ℤ) × (a ≡ some v) × (b ≡ some v)
both_there none b h = cc
both_there (some v) none h = cc
both_there (some v) (some u) h =
    let e : u ≡ v = eq_of_parts u v (ground arith) in (v, refl, rw e refl)

pub same_terms-IsSame : (i o : Intent) → same_terms i o ≡ true → IsSame i o
unfolding same_terms
same_terms-IsSame i o h =
    let (v, here, there) = both_there i.amount o.amount (ground arith) in
    record {
      id = ground arith;
      kind = ground arith;
      to = ground arith;
      nonce = ground arith;
      amount = v;
      amount_here = here;
      amount_there = there;
    }
