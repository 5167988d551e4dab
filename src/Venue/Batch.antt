-- ===== src/Venue/Batch.antt =====
-- The batch that `refillCalldata` of go/rail/venue.go packs.
use juice_rail.Base.{ℕ, ◌≡◌, sym, ap, ◌∙◌, Bool, true, false, if◌then◌else◌, List, [], ◌∷◌}
use juice_rail.Base.Int.{ℤ, pos}
use juice_rail.Base.Lists.{Bytes}
use juice_rail.Base.Error.{ok}
use juice_rail.Domain.{Domain}
use juice_rail.Chain.{
  Chain, Abi, Value, router_abi, router02_abi, address_value, uint_value, bytes_list, exact_output,
  exact_output02, exact_output_single, unwrap_weth9, multicall,
}
use juice_rail.Machine.{World, M, lift, ◌>>=◌}
use juice_rail.Machine.Answers.{first_answered}
use juice_rail.Venue.{router_of, permit_call, swap_value, batch_values, refill_calldata}
use juice_rail.Venue.Permission.{PermitCall, permit_calls}

-- The three calls of a batch, each packed with the ABI of the router: the permit, the swap, and the payout of
-- `delta` to the account, and the call of `multicall` with them.
pub record Calls (c : Chain) (d : Domain) (account : ℕ) (delta limit : ℤ) (deadline : ℕ)
    (n : c.Node) (abi : Abi) (swap_params : Value) (batch : List Bytes → List Value) (out : Bytes)
    : Type 0 where
  pub permit : Bytes
  pub swap : Bytes
  pub payout : Bytes
  pub permits : PermitCall c d account limit deadline n abi permit
  pub swaps : c.pack abi exact_output_single (swap_params ∷ []) ≡ ok swap
  pub pays_out : c.pack abi unwrap_weth9 (uint_value delta ∷ address_value account ∷ []) ≡ ok payout
  pub packs : c.pack abi multicall (batch (permit ∷ swap ∷ payout ∷ [])) ≡ ok out

-- For the router of the second version the deadline is given to `multicall`, for the first to the swap.
-- Either way the swap buys exactly `delta` of the wrapped currency for the router, for at most `limit` of
-- the token.
abbrev pub Batches : (c : Chain) → Domain → ℕ → ℤ → ℤ → ℕ → c.Node → Bytes → Bool → Type 0
Batches c d account delta limit deadline n out true =
    Calls c d account delta limit deadline n router02_abi
      (exact_output02 (record {
        token_in = d.token;
        token_out = d.venue.weth;
        fee = d.venue.fee_tier;
        recipient = d.venue.router;
        amount_out = delta;
        amount_in_maximum = limit;
        sqrt_price_limit = 0;
      }))
      (λ batch. uint_value (pos deadline) ∷ bytes_list batch ∷ []) out
Batches c d account delta limit deadline n out false =
    Calls c d account delta limit deadline n router_abi
      (exact_output (record {
        token_in = d.token;
        token_out = d.venue.weth;
        fee = d.venue.fee_tier;
        recipient = d.venue.router;
        deadline = deadline;
        amount_out = delta;
        amount_in_maximum = limit;
        sqrt_price_limit = 0;
      }))
      (λ batch. bytes_list batch ∷ []) out

module _ (c : Chain) (d : Domain) (account : ℕ) (delta limit : ℤ) (deadline : ℕ) where
  -- The same, with the choice by the version where the source makes it.
  abbrev Chosen : c.Node → Bytes → Bool → Type 0
  Chosen n out second =
      Calls c d account delta limit deadline n (if second then router02_abi else router_abi)
        (if second
          then exact_output02 (record {
            token_in = d.token;
            token_out = d.venue.weth;
            fee = d.venue.fee_tier;
            recipient = d.venue.router;
            amount_out = delta;
            amount_in_maximum = limit;
            sqrt_price_limit = 0;
          })
          else exact_output (record {
            token_in = d.token;
            token_out = d.venue.weth;
            fee = d.venue.fee_tier;
            recipient = d.venue.router;
            deadline = deadline;
            amount_out = delta;
            amount_in_maximum = limit;
            sqrt_price_limit = 0;
          }))
        (λ batch.
          if second
          then uint_value (pos deadline) ∷ bytes_list batch ∷ []
          else bytes_list batch ∷ [])
        out

  of_version :
      (second : Bool) (n : c.Node) (out : Bytes)
      → Chosen n out second
      → Batches c d account delta limit deadline n out second
  of_version true n out calls = calls
  of_version false n out calls = calls

  abbrev with_payout : Bytes → Bytes → Bytes → M c.Node Bytes
  with_payout permit swap payout =
      lift (c.pack (router_of d) multicall (batch_values d deadline (permit ∷ swap ∷ payout ∷ [])))

  abbrev with_swap : Bytes → Bytes → M c.Node Bytes
  with_swap permit swap =
      lift (c.pack (router_of d) unwrap_weth9 (uint_value delta ∷ address_value account ∷ []))
      >>= λ payout. with_payout permit swap payout

  abbrev with_permit : Bytes → M c.Node Bytes
  with_permit permit =
      lift (c.pack (router_of d) exact_output_single (swap_value d delta limit deadline ∷ []))
      >>= λ swap. with_swap permit swap

  -- When a refill is built, its calldata is a batch of three calls to the router, packed for its version: a
  -- permit of the router over at most `limit` of the token, with the account's signature over the separator
  -- and the nonce that the token's contract has just told, the swap of at most `limit` for exactly `delta`, paid to the
  -- router, and the payout of `delta` to the account.
  pub refill_calldata-Batches :
      (w : World c.Node) (out : Bytes)
      → (refill_calldata c d account delta limit deadline w).0 ≡ ok out
      → Batches c d account delta limit deadline w.node out d.venue.router02
  unfolding refill_calldata router_of swap_value batch_values
  refill_calldata-Batches w out h =
      let (permit, h1, e1) =
        first_answered with_permit (permit_call c d account limit deadline) w out h in
      let v : World c.Node = (permit_call c d account limit deadline w).1 in
      let (swap, h2, e2) =
        first_answered (with_swap permit)
          (lift (c.pack (router_of d) exact_output_single (swap_value d delta limit deadline ∷ [])))
          v out (ap (λ x. x.0) (sym e1) ∙ h) in
      let (payout, h3, e3) =
        first_answered (with_payout permit swap)
          (lift (c.pack (router_of d) unwrap_weth9 (uint_value delta ∷ address_value account ∷ [])))
          v out (ap (λ x. x.0) (sym (e1 ∙ e2)) ∙ h) in
      of_version d.venue.router02 w.node out (record {
        permit = permit;
        swap = swap;
        payout = payout;
        permits = permit_calls c d account limit deadline w permit h1;
        swaps = h2;
        pays_out = h3;
        packs = ap (λ x. x.0) (sym (e1 ∙ e2 ∙ e3)) ∙ h;
      })
