-- ===== src/Venue.antt =====
-- What is read of foreign contracts and said to them: go/rail/venue.go. The token, the quoter, the
-- permit and the calldata of a refill.
pub mod Words
pub mod Told
pub mod Permission
pub mod Batch
mod Tests
pub mod Quiet
use juice_rail.Base.{ℕ, ◌+◌, ◌%◌, Option, none, List, [], ◌∷◌, ◌++◌, ◌==◌, if◌then◌else◌}
use juice_rail.Base.Int.{ℤ, pos, pos_part, neg_part, leb_ℤ}
use juice_rail.Base.Lists.{Bytes, length, take, drop, get_or}
use juice_rail.Base.Binary.{set_bytes, word_bytes}
use juice_rail.Base.Error.{Result, ok, err, plain}
use juice_rail.Domain.{Domain}
use juice_rail.Chain.{
  Chain, Abi, token_abi, router_abi, router02_abi, quoter_abi, Method, nonces, domain_separator,
  multicall, self_permit, exact_output_single, unwrap_weth9, quote_exact_output_single, Value,
  address_value, uint_value, uint8_value, bytes32_value, bytes_list, exact_output, exact_output02,
  quote_params, permit_typehash,
}
use juice_rail.Machine.{M, ask, lift, pure, ◌>>=◌}

-- `call`
unfoldable pub call : (c : Chain) → Option ℕ → ℕ → Abi → Method → List Value → M c.Node Bytes
call c block to abi method values = do
  payload ← lift (c.pack abi method values)
  ask (c.call_contract (record { sender = 0; to = to; payload = payload; gas = 0 }) block)

unfoldable pub one_word : Bytes → Result Bytes
one_word out = if length out == 32 then ok out else err plain

-- `callWord`
unfoldable pub call_word : (c : Chain) → Option ℕ → ℕ → Abi → Method → List Value → M c.Node Bytes
unfolding call one_word
call_word c block to abi method values = do
  out ← call c block to abi method values
  lift (one_word out)

-- `tokenUint`
unfoldable pub token_uint : (c : Chain) → Option ℕ → ℕ → Method → List Value → M c.Node ℤ
unfolding call_word set_bytes
token_uint c block token method values = do
  out ← call_word c block token token_abi method values
  pure (pos (set_bytes 0 out))

-- `transferCalldata`
unfoldable pub transfer_calldata : Chain → ℕ → ℤ → Result Bytes
transfer_calldata c to amount =
    c.pack token_abi Method.transfer (address_value to ∷ uint_value amount ∷ [])

-- The first value of a quote, a positive number.
unfoldable pub quoted : List Value → Result ℤ
quoted (uint_value amount ∷ values) = if leb_ℤ amount (pos 0) then err plain else ok amount
quoted _ = err plain

-- `quoteRefill`
unfoldable pub quote_refill : (c : Chain) → Domain → Option ℤ → M c.Node ℤ
unfolding call quoted
quote_refill c d delta = do
  out ← call c none d.venue.quoter quoter_abi quote_exact_output_single (
      quote_params (record {
        token_in = d.token;
        token_out = d.venue.weth;
        amount = delta;
        fee = d.venue.fee_tier;
        sqrt_price_limit = 0;
      })
      ∷ [])
  values ← lift (c.unpack quoter_abi quote_exact_output_single out)
  lift (quoted values)

-- A permit of EIP-2612, and the data that `signPermit` hashes for it: six words.
pub record Permit : Type 0 where
  pub owner : ℕ
  pub spender : ℕ
  pub value : ℤ
  pub nonce : ℤ
  pub deadline : ℕ

-- `Bytes` of a `big.Int` is its magnitude.
unfoldable magnitude : ℤ → ℕ
magnitude v = pos_part v + neg_part v

unfoldable struct_data : ℕ → Permit → Bytes
unfolding magnitude word_bytes
struct_data typehash p =
    word_bytes typehash
    ++ (word_bytes p.owner
        ++ (word_bytes p.spender
            ++ (word_bytes (magnitude p.value)
                ++ (word_bytes (magnitude p.nonce) ++ word_bytes p.deadline))))

-- What the digest of a permit is the hash of.
unfoldable permit_message : Chain → ℕ → Permit → Bytes
unfolding struct_data word_bytes
permit_message c separator p =
    0x19
    ∷ 0x01
    ∷ (word_bytes separator ++ word_bytes (c.keccak (struct_data (permit_typehash c) p)))

record Signature : Type 0 where
  pub v : ℕ
  pub r : ℕ
  pub s : ℕ

-- The parts of a signature of 65 bytes: `sig[64] + 27` is a `uint8`.
unfoldable signature_of : Bytes → Signature
unfolding set_bytes
signature_of sig = record {
  v = (get_or sig 64 0 + 27) % 256;
  r = set_bytes 0 (take 32 sig);
  s = set_bytes 0 (take 32 (drop 32 sig));
}

-- `signPermit`
unfoldable sign_permit : (c : Chain) → ℕ → Permit → M c.Node Signature
unfolding permit_message signature_of
sign_permit c separator p = do
  sig ← lift (c.sign_digest (c.keccak (permit_message c separator p)))
  pure (signature_of sig)

unfoldable router_of : Domain → Abi
router_of d = if d.venue.router02 then router02_abi else router_abi

-- `permitCall`
unfoldable permit_call : (c : Chain) → Domain → ℕ → ℤ → ℕ → M c.Node Bytes
unfolding call_word token_uint sign_permit router_of set_bytes
permit_call c d account value deadline = do
  separator ← call_word c none d.token token_abi domain_separator []
  nonce ← token_uint c none d.token nonces (address_value account ∷ [])
  sig ← sign_permit c (set_bytes 0 separator) (record {
    owner = account;
    spender = d.venue.router;
    value = value;
    nonce = nonce;
    deadline = deadline;
  })
  lift (
      c.pack (router_of d) self_permit (
        address_value d.token
        ∷ uint_value value
        ∷ uint_value (pos deadline)
        ∷ uint8_value sig.v
        ∷ bytes32_value sig.r
        ∷ bytes32_value sig.s
        ∷ []))

-- The parameters of the swap, by the version of the router.
unfoldable swap_value : Domain → ℤ → ℤ → ℕ → Value
swap_value d delta max_input deadline =
    if d.venue.router02
    then exact_output02 (record {
      token_in = d.token;
      token_out = d.venue.weth;
      fee = d.venue.fee_tier;
      recipient = d.venue.router;
      amount_out = delta;
      amount_in_maximum = max_input;
      sqrt_price_limit = 0;
    })
    else exact_output (record {
      token_in = d.token;
      token_out = d.venue.weth;
      fee = d.venue.fee_tier;
      recipient = d.venue.router;
      deadline = deadline;
      amount_out = delta;
      amount_in_maximum = max_input;
      sqrt_price_limit = 0;
    })

-- The arguments of `multicall`, by the version of the router.
unfoldable batch_values : Domain → ℕ → List Bytes → List Value
batch_values d deadline batch =
    if d.venue.router02
    then uint_value (pos deadline) ∷ bytes_list batch ∷ []
    else bytes_list batch ∷ []

-- `refillCalldata`
unfoldable pub refill_calldata : (c : Chain) → Domain → ℕ → ℤ → ℤ → ℕ → M c.Node Bytes
unfolding permit_call router_of swap_value batch_values
refill_calldata c d account delta max_input deadline = do
  permit ← permit_call c d account max_input deadline
  swap ←
      lift (c.pack (router_of d) exact_output_single (swap_value d delta max_input deadline ∷ []))
  unwrap ← lift (c.pack (router_of d) unwrap_weth9 (uint_value delta ∷ address_value account ∷ []))
  lift (c.pack (router_of d) multicall (batch_values d deadline (permit ∷ swap ∷ unwrap ∷ [])))
