-- ===== src/Sql/Order.antt =====
-- `ORDER BY`: rows by a key, the smallest first.
use juice_rail.Base.{
  ◌≡◌, refl, Bool, true, List, [], ◌∷◌, ◌++◌, if◌then◌else◌, Bool-cases, arith, inl, inr,
}
use juice_rail.Base.Lists.{All, Any}

module _ {A : Type 0} (le : A → A → Bool) where
  unfoldable pub insert : A → List A → List A
  insert x [] = x ∷ []
  insert x (y ∷ ys) = if le x y then x ∷ y ∷ ys else y ∷ insert x ys

  unfoldable pub sort : List A → List A
  unfolding insert
  sort [] = []
  sort (x ∷ xs) = insert x (sort xs)

  module _ (P : A → Type 0) where
    Any-insert : (x : A) (ys : List A) → Any P (insert x ys) → Any P (x ∷ ys)
    unfolding insert
    Any-insert x [] h = h
    Any-insert x (y ∷ ys) h = ground (arith, Any-insert x ys)

    -- What is in the sorted list is in the list.
    pub Any-sort : (xs : List A) → Any P (sort xs) → Any P xs
    unfolding sort
    Any-sort [] h = h
    Any-sort (x ∷ xs) h = ground (arith, Any-insert x (sort xs), Any-sort xs)

  insert-concat :
      (x : A) (xs : List A) (z : A)
      → le x z ≡ true
      → insert x (xs ++ z ∷ []) ≡ insert x xs ++ z ∷ []
  unfolding insert
  insert-concat x [] z h = rw h
  insert-concat x (y ∷ ys) z h = elim (Bool-cases (le x y)) [
    | inl e ↦ rw e
    | inr e ↦ rw (e, insert-concat x ys z h)
  ]

  -- A row that is not below any other comes last.
  pub sort-concat :
      (xs : List A) (z : A) → All (λ x. le x z ≡ true) xs → sort (xs ++ z ∷ []) ≡ sort xs ++ z ∷ []
  unfolding sort
  sort-concat [] z h = refl
  sort-concat (x ∷ xs) z h = rw (sort-concat xs z h.1) (insert-concat x (sort xs) z h.0)
