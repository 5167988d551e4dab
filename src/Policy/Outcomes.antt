-- ===== src/Policy/Outcomes.antt =====
-- Which decision `Decide` of go/rail/gas.go takes, and when.
use native.Mathlib.Decide.{dec_le}
use mathlib.Core.Path.{subst}
use juice_rail.Base.{◌≡◌, ◌∙◌, sym, ◌⊎◌, ◌↔◌, inl, inr, refl, Option, none, some, arith}
use juice_rail.Base.Int.{ℤ, ◌+ℤ◌, ◌-ℤ◌, ◌≤ℤ◌}
use juice_rail.Base.Error.{ok, ok-injective}
use juice_rail.Policy.{
  GasPolicy, PolicyInput, Decision, execute, ask_quote, refill, wait, need_token, need_native,
  fees_above, with_slippage, validate, decide,
}
use juice_rail.Policy.Valid.{Bounds, Bounds-validate}
use juice_rail.Policy.Refill.{gas_of, token_of, cost_of, pending_of}

-- The reserve rule of the requirements, as a relation: what may be decided under which conditions.
-- `b` is the policy's bounds.
pub data Rule (p : GasPolicy) (b : Bounds p) (i : PolicyInput) : Decision → Type 0 where
  poor : ¬ (pending_of i ≤ℤ token_of i) → Rule p b i (wait need_token)
  send : pending_of i ≤ℤ token_of i → b.min ≤ℤ gas_of i → Rule p b i execute
  dear :
      pending_of i ≤ℤ token_of i
      → ¬ (b.min ≤ℤ gas_of i)
      → ¬ (cost_of i ≤ℤ b.bound)
      → Rule p b i (wait fees_above)
  stuck :
      pending_of i ≤ℤ token_of i
      → ¬ (b.min ≤ℤ gas_of i)
      → cost_of i ≤ℤ b.bound
      → ¬ (cost_of i ≤ℤ gas_of i)
      → Rule p b i (wait need_native)
  ask :
      pending_of i ≤ℤ token_of i
      → ¬ (b.min ≤ℤ gas_of i)
      → cost_of i ≤ℤ b.bound
      → cost_of i ≤ℤ gas_of i
      → i.quote ≡ none
      → Rule p b i (ask_quote (b.max -ℤ (gas_of i -ℤ cost_of i)))
  short :
      {q : ℤ}
      → pending_of i ≤ℤ token_of i
      → ¬ (b.min ≤ℤ gas_of i)
      → cost_of i ≤ℤ b.bound
      → cost_of i ≤ℤ gas_of i
      → i.quote ≡ some q
      → ¬ (with_slippage (some q) p.slippage_bps +ℤ pending_of i ≤ℤ token_of i)
      → Rule p b i (wait need_token)
  buy :
      {q : ℤ}
      → pending_of i ≤ℤ token_of i
      → ¬ (b.min ≤ℤ gas_of i)
      → cost_of i ≤ℤ b.bound
      → cost_of i ≤ℤ gas_of i
      → i.quote ≡ some q
      → with_slippage (some q) p.slippage_bps +ℤ pending_of i ≤ℤ token_of i
      → Rule p b i
          (refill (b.max -ℤ (gas_of i -ℤ cost_of i)) (with_slippage (some q) p.slippage_bps))

≤ℤ_cases : (a b : ℤ) → (a ≤ℤ b) ⊎ (¬ (a ≤ℤ b))
≤ℤ_cases a b = elim (dec_le _ _) [ yes h ↦ inl h | no h ↦ inr h ]

module _ (p : GasPolicy) (b : Bounds p) (i : PolicyInput) where
  priced :
      pending_of i ≤ℤ token_of i
      → ¬ (b.min ≤ℤ gas_of i)
      → cost_of i ≤ℤ b.bound
      → cost_of i ≤ℤ gas_of i
      → (q : Option ℤ) → i.quote ≡ q
      → (d : Decision) × (decide p i ≡ ok d) × Rule p b i d
  unfolding decide
  priced h₁ h₂ h₃ h₄ none e =
      (_, ground (arith, b.min_set, b.max_set, b.bound_set), ask h₁ h₂ h₃ h₄ e)
  priced h₁ h₂ h₃ h₄ (some q) e =
      elim (≤ℤ_cases (with_slippage (some q) p.slippage_bps +ℤ pending_of i) (token_of i)) [
        | inl h₅ ↦ (_, ground (arith, b.min_set, b.max_set, b.bound_set), buy h₁ h₂ h₃ h₄ e h₅)
        | inr h₅ ↦ (_, ground (arith, b.min_set, b.max_set, b.bound_set), short h₁ h₂ h₃ h₄ e h₅)
      ]

  decide-Rule : (d : Decision) × (decide p i ≡ ok d) × Rule p b i d
  unfolding decide
  decide-Rule = elim (≤ℤ_cases (pending_of i) (token_of i)) [
    | inr h₁ ↦ (_, ground arith, poor h₁)
    | inl h₁ ↦ elim (≤ℤ_cases b.min (gas_of i)) [
      | inl h₂ ↦ (_, ground (arith, b.min_set), send h₁ h₂)
      | inr h₂ ↦ elim (≤ℤ_cases (cost_of i) b.bound) [
        | inr h₃ ↦ (_, ground (arith, b.min_set, b.bound_set), dear h₁ h₂ h₃)
        | inl h₃ ↦ elim (≤ℤ_cases (cost_of i) (gas_of i)) [
          | inr h₄ ↦ (_, ground (arith, b.min_set, b.bound_set), stuck h₁ h₂ h₃ h₄)
          | inl h₄ ↦ priced h₁ h₂ h₃ h₄ i.quote refl
        ]
      ]
    ]
  ]

module _ (p : GasPolicy) (b : Bounds p) (i : PolicyInput) where
  Rule-decide : {d : Decision} → Rule p b i d → decide p i ≡ ok d
  unfolding decide
  Rule-decide (poor h₁) = ground arith
  Rule-decide (send h₁ h₂) = ground (arith, b.min_set)
  Rule-decide (dear h₁ h₂ h₃) = ground (arith, b.min_set, b.bound_set)
  Rule-decide (stuck h₁ h₂ h₃ h₄) = ground (arith, b.min_set, b.bound_set)
  Rule-decide (ask h₁ h₂ h₃ h₄ e) = ground (arith, b.min_set, b.max_set, b.bound_set)
  Rule-decide (short h₁ h₂ h₃ h₄ e h₅) = ground (arith, b.min_set, b.max_set, b.bound_set)
  Rule-decide (buy h₁ h₂ h₃ h₄ e h₅) = ground (arith, b.min_set, b.max_set, b.bound_set)

  Rule_of_decide : (d : Decision) → decide p i ≡ ok d → Rule p b i d
  Rule_of_decide d h =
      let (d', e, r) = decide-Rule p b i in subst (Rule p b i) (ok-injective (sym e ∙ h)) r

-- Under an accepted policy `Decide` returns a decision for every input, and never reads a missing
-- bound. It returns a decision exactly if the reserve rule allows that decision.
pub decide_iff :
    (p : GasPolicy) (i : PolicyInput)
    → validate p ≡ ok tt
    → (b : Bounds p) × ((d : Decision) × (decide p i ≡ ok d))
      × ((d : Decision) → (decide p i ≡ ok d) ↔ Rule p b i d)
decide_iff p i valid =
    let b = Bounds-validate p valid in
    let (d, e, r) = decide-Rule p b i in
    (b, (d, e), λ d'. (Rule_of_decide p b i d', Rule-decide p b i))
