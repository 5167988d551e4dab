-- ===== src/Attempt/Known.antt =====
-- Which errors of a node `alreadySettled` of go/rail/rail.go takes for success.
use mathlib.Core.List.{map}
use juice_rail.Base.{◌≡◌, inl, inr, refl, ap, true, [], ◌∷◌, ◌++◌, ==_refl, arith, Bool-cases}
use juice_rail.Base.Lists.{Bytes}
use juice_rail.Base.Error.{Error, node}
use juice_rail.Intent.{codes}
use juice_rail.Attempt.{to_lower, starts_with, contains_lower, already_settled}

-- The text has the part in it, in whatever case.
abbrev Says : Bytes → Bytes → Type 0
Says part text =
    (before : Bytes) × (after : Bytes) × (map to_lower text ≡ before ++ (part ++ after))

-- An error of the node that says that it has the transaction, or that the nonce is spent.
pub data IsKnown : Error → Type 0 where
  already_known : (text : Bytes) → Says (codes "already known") text → IsKnown (node text)
  known_transaction : (text : Bytes) → Says (codes "known transaction") text → IsKnown (node text)
  nonce_too_low : (text : Bytes) → Says (codes "nonce too low") text → IsKnown (node text)

starts_with-prefix :
    (part text : Bytes)
    → starts_with part text ≡ true
    → (after : Bytes) × (map to_lower text ≡ part ++ after)
unfolding starts_with
starts_with-prefix [] text h = (map to_lower text, refl)
starts_with-prefix (p ∷ part) [] h = cc
starts_with-prefix (p ∷ part) (c ∷ text) h =
    let (after, e) = starts_with-prefix part text (ground (arith, h)) in
    let same : p ≡ to_lower c = ground (arith, h) in (after, rw (same, e) refl)

prefix-starts_with :
    (part text after : Bytes) → map to_lower text ≡ part ++ after → starts_with part text ≡ true
unfolding starts_with
prefix-starts_with [] text after e = refl
prefix-starts_with (p ∷ part) [] after e = cc
prefix-starts_with (p ∷ part) (c ∷ text) after e =
    let same : to_lower c ≡ p = cc in
    let later : map to_lower text ≡ part ++ after = cc in
    rw (same, ==_refl p) (prefix-starts_with part text after later)

contains_lower-Says : (part text : Bytes) → contains_lower part text ≡ true → Says part text
unfolding contains_lower
contains_lower-Says part [] h = let (after, e) = starts_with-prefix part [] h in ([], after, e)
contains_lower-Says part (c ∷ text) h = elim (Bool-cases (starts_with part (c ∷ text))) [
  | inl here ↦ (let (after, e) = starts_with-prefix part (c ∷ text) here in ([], after, e))
  | inr not_here ↦
      (let (before, after, e) = contains_lower-Says part text (ground (arith, h, not_here)) in
        (to_lower c ∷ before, after, ap (λ l. to_lower c ∷ l) e))
]

Says-contains_lower :
    (part text before after : Bytes)
    → map to_lower text ≡ before ++ (part ++ after)
    → contains_lower part text ≡ true
unfolding contains_lower
Says-contains_lower part [] [] after e = prefix-starts_with part [] after e
Says-contains_lower part [] (b ∷ before) after e = cc
Says-contains_lower part (c ∷ text) [] after e =
    rw (prefix-starts_with part (c ∷ text) after e) refl
Says-contains_lower part (c ∷ text) (b ∷ before) after e =
    let later : map to_lower text ≡ before ++ (part ++ after) = cc in
    let there = Says-contains_lower part text before after later in ground (arith, there)

pub IsKnown-of : (e : Error) → already_settled e ≡ true → IsKnown e
unfolding already_settled
IsKnown-of (node text) h = elim (Bool-cases (contains_lower (codes "already known") text)) [
  | inl a ↦ already_known text (contains_lower-Says _ text a)
  | inr not_a ↦ elim (Bool-cases (contains_lower (codes "known transaction") text)) [
    | inl b ↦ known_transaction text (contains_lower-Says _ text b)
    | inr not_b ↦ nonce_too_low text (contains_lower-Says _ text (rw (not_a, not_b) at h))
  ]
]
IsKnown-of e h = cc

pub IsKnown-already_settled : (e : Error) → IsKnown e → already_settled e ≡ true
unfolding already_settled
IsKnown-already_settled e (already_known text (before, after, says)) =
    rw (Says-contains_lower (codes "already known") text before after says) refl
IsKnown-already_settled e (known_transaction text (before, after, says)) =
    rw (Says-contains_lower (codes "known transaction") text before after says) (ground arith)
IsKnown-already_settled e (nonce_too_low text (before, after, says)) =
    rw (Says-contains_lower (codes "nonce too low") text before after says) (ground arith)
