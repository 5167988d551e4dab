-- ===== src/Chain.antt =====
-- What the rail needs of a node, of go-ethereum and of the key: the interface `Chain` of
-- go/rail/rail.go, and the encoders and the signer that it calls. None of it is this code, so it is
-- a record of functions. A node has a state of its own, which every call may change, since the
-- chain goes on; a call answers or fails.
use juice_rail.Base.{ℕ, Bool, Option, List}
use juice_rail.Base.Int.{ℤ}
use juice_rail.Base.Lists.{Bytes}
use juice_rail.Base.Error.{Result}
use juice_rail.Intent.{codes}
use juice_rail.Domain.{BlockTag}

pub record Header : Type 0 where
  pub number : ℕ
  pub time : ℕ
  pub base_fee : Option ℤ

pub record Log : Type 0 where
  pub address : ℕ
  pub topics : List ℕ
  pub payload : Bytes
  pub block_number : ℕ
  pub tx_hash : ℕ
  pub index : ℕ
  pub removed : Bool

-- `status` is 1 for a transaction that did not revert. A log may be nil.
pub record Receipt : Type 0 where
  pub status : ℕ
  pub block_number : Option ℕ
  pub logs : List (Option Log)

pub record CallMsg : Type 0 where
  pub sender : ℕ
  pub to : ℕ
  pub payload : Bytes
  pub gas : ℕ

-- `DynamicFeeTx`
pub record Tx : Type 0 where
  pub chain_id : Option ℤ
  pub nonce : ℕ
  pub tip : Option ℤ
  pub fee_cap : Option ℤ
  pub gas : ℕ
  pub to : ℕ
  pub payload : Bytes

-- `FilterQuery`. An empty list of topics at a place lets any topic stand there.
pub record FilterQuery : Type 0 where
  pub from_block : ℕ
  pub to_block : ℕ
  pub addresses : List ℕ
  pub topics : List (List ℕ)

-- The contracts whose calls are encoded, and the methods that are named.
pub data Abi : Type 0 where
  token_abi router_abi router02_abi quoter_abi : Abi

pub data Method : Type 0 where
  balance_of transfer nonces decimals domain_separator multicall self_permit : Method
  exact_output_single unwrap_weth9 quote_exact_output_single : Method

-- `exactOutputParams`, and `exactOutputParams02`, which has no deadline.
pub record ExactOutputParams : Type 0 where
  pub token_in : ℕ
  pub token_out : ℕ
  pub fee : ℕ
  pub recipient : ℕ
  pub deadline : ℕ
  pub amount_out : ℤ
  pub amount_in_maximum : ℤ
  pub sqrt_price_limit : ℕ

pub record ExactOutputParams02 : Type 0 where
  pub token_in : ℕ
  pub token_out : ℕ
  pub fee : ℕ
  pub recipient : ℕ
  pub amount_out : ℤ
  pub amount_in_maximum : ℤ
  pub sqrt_price_limit : ℕ

pub record QuoteParams : Type 0 where
  pub token_in : ℕ
  pub token_out : ℕ
  pub amount : Option ℤ
  pub fee : ℕ
  pub sqrt_price_limit : ℕ

-- What is passed to an encoder, and what a decoder returns.
pub data Value : Type 0 where
  address_value : ℕ → Value
  uint_value : ℤ → Value
  uint8_value : ℕ → Value
  bytes32_value : ℕ → Value
  bytes_list : List Bytes → Value
  exact_output : ExactOutputParams → Value
  exact_output02 : ExactOutputParams02 → Value
  quote_params : QuoteParams → Value

pub record Chain : Type 1 where
  pub Node : Type 0
  pub chain_id : Node → Result (Option ℤ) × Node
  -- `none` asks for the newest head
  pub header : Option BlockTag → Node → Result (Option Header) × Node
  pub filter_logs : FilterQuery → Node → Result (List Log) × Node
  pub call_contract : CallMsg → Option ℕ → Node → Result Bytes × Node
  pub balance_at : ℕ → Option ℕ → Node → Result ℤ × Node
  pub nonce_at : ℕ → ℕ → Node → Result ℕ × Node
  pub pending_nonce_at : ℕ → Node → Result ℕ × Node
  pub suggest_tip : Node → Result (Option ℤ) × Node
  pub send_transaction : Tx → Node → Result (Unit {0}) × Node
  pub transaction_receipt : ℕ → Node → Result (Option Receipt) × Node
  -- The hash of a transaction signed with the account's key, and the signature of a digest: 65 bytes.
  pub sign : Tx → Result ℕ
  pub sign_digest : ℕ → Result Bytes
  -- `Pack` and `Unpack` of the ABI encoder.
  pub pack : Abi → Method → List Value → Result Bytes
  pub unpack : Abi → Method → Bytes → Result (List Value)
  -- Keccak-256.
  pub keccak : Bytes → ℕ

-- `topicTransfer` and `permitTypehash`
abbrev pub topic_transfer : Chain → ℕ
topic_transfer c = c.keccak (codes "Transfer(address,address,uint256)")

abbrev pub permit_typehash : Chain → ℕ
permit_typehash c =
    c.keccak
      (codes "Permit(address owner,address spender,uint256 value,uint256 nonce,uint256 deadline)")
