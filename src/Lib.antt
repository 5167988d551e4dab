-- ===== src/Lib.antt =====
-- The payment rail of this repository: an account that pays a stablecoin on an EVM chain, records
-- every payment before it signs one, and reads outcomes from settled blocks only.
--
-- The parts and their files, each with the code that it follows:
--   Base      helpers: tests and conditionals, integers (Go's big.Int), lists, big-endian bytes, decimal
--             text, and results with the sentinel errors of go/rail/types.go
--   Policy    GasPolicy of go/rail/types.go and go/rail/gas.go: Decide (decide), withSlippage
--             (with_slippage), limits and Validate (validate)
--   Amount    parseUnits and formatUnits of go/rail/types.go (parse_units, format_units)
--   Intent    the records of go/rail/types.go: Intent, Submission, Fact, Deposit, kinds, Validate and
--             SameTerms
--   Ident     ID.String and ParseID of go/rail/types.go (id_string, parse_id)
--   Keys      ParseAddress, ParseKey, DomainKey and FundingChecklist of go/rail/types.go
--   Domain    Domain and Venue of go/rail/types.go
--   Sql       the tables of go/sqlite/sqlite.go, statements and transactions
--   Store     the methods of go/sqlite/sqlite.go on intents, submissions and facts
--   Observed  the methods on deposits, the cursors and the domain of the file, and Open (open_store)
--   Chain     the interface Chain of go/rail/rail.go and what is called of go-ethereum, as parameters
--   Machine   the state that a Rail works on and how its methods run
--   Logs      what a transfer event says: transferLog and sentTransferValues of go/rail/venue.go
--   Venue     the rest of go/rail/venue.go: reading contracts, the quote, the permit, and the calldata of
--             a refill (quoteRefill, signPermit, permitCall, refillCalldata)
--   Check     New, checkChain and CheckDomain of go/rail/rail.go
--   Fees      fees, bump and maxInt of go/rail/rail.go
--   Settle    go/rail/status.go: statuses, outcomes, settle and reconcile
--   Attempt   submit, Send and Retry of go/rail/rail.go
--   Pay       Prepare, record, WithdrawAll, ready and what they read, of go/rail/rail.go
--   Refill    Refill and Pay of go/rail/rail.go (refill_gas, pay)
--   Report    RefillCost, SettledBalances, Outcome and DepositsScannedTo of go/rail/status.go
--   Scan      ScanDeposits of go/rail/status.go
--   Quiet     actions that send nothing and lose nothing, with a rule for each way to build one; the
--             Quiet modules of the other parts apply them to each method up to its broadcast
--   Trace     sequences of calls of the methods above (Call, perform, Step, Run)
--   Profile   cmd/railctl/main.go: config.domain, profile names, and resolve, which finds the domain, the
--             store and the key of a command; Profile.Disk has the two files of the profiles, with
--             loadSettings, loadCredentials and writeJSON (write_json), and Profile.Init has initProfile
--             (init_profile), readKeyFile and checkDomain (dial_and_check)
--   Command   cmd/railctl/main.go: the commands on an open account, and the payment in steps;
--             Command.Open has open (open_app), and Command.Session has run, a call of the program
--   Samples   a policy, a domain, a database and a node with fixed answers, for the Tests modules
--
-- How the parts interact. A method of Rail is a function from a World (the database, the state of the
-- node, the flag of the endpoint check, the transactions handed over so far) to a result and the World
-- after it; an error leaves the writes made before it. The mutex makes a method one step. Prepare
-- checks its terms, brings the records up to date (ready: reconcile, then settle), asks the policy,
-- simulates the call and records the intent with the next nonce. Send, Retry, Refill and WithdrawAll
-- call submit, which signs, records the attempt and broadcasts it; Pay prepares, and then sends or buys
-- gas. A Run is a sequence of such steps, and between two of them the node may change at will, the
-- process may start anew, and statements of the database may begin or cease to fail. A call of railctl
-- (run) either makes a profile, on the two files of the profiles, or resolves its inputs from flags, the
-- environment and these files, opens the store they name, and runs one command on it.
--
-- Numbers. Amounts are integers; a pointer to one is an option, as nil is a value that the code
-- tests. A uint64 is a natural number; where the code converts it, to the signed 64-bit columns of
-- SQLite and from a block number, or adds to it, the wrap-around is written out (Sql.Word, Scan).
-- A cursor or nonce floor from 2 ^ 63 on is so held as a negative number, and a later, smaller one takes its place.
-- Addresses, hashes and identifiers are fixed arrays of bytes, each the number that the bytes spell, the
-- first byte highest. Texts are lists of bytes, and amounts are read from ASCII texts.
--
-- Loops and fuel. The padding loop of formatUnits makes at most two rounds, its fuel; decimal printing
-- and the bytes of a number have fuel one above the number; the loop of reconcile makes spent - floor
-- rounds, counted down. The loop of ScanDeposits over spans takes fuel, since its block number goes round
-- at 2 ^ 64: one round for each block and one more are enough below that. All others are recursion on
-- a list.
--
-- What is a parameter. What railctl reads of flags, environment and domain files is given (Setup,
-- Setting, Invocation); JSON that was written is read back as it was, and writeJSON renames in one step.
-- How go-ethereum reads and spells addresses and keys is Eth; two theorems suppose that an address is
-- spelled as "0x" and the digits of its 20 bytes in some case, as it is. The answers of a node and how it
-- changes, the hash of a signed transaction, the signature of a digest, Keccak-256 and the ABI
-- encoders are fields of Chain and may be anything. One theorem supposes that no transaction is
-- signed under the hash of zeros, which marks an attempt as not recorded. Whether a statement of
-- SQLite fails is a schedule in the database. An error keeps its sentinel, and only an error of the
-- node keeps a text, since alreadySettled reads it.
--
-- What is not modelled: the JSON of the ABIs, which go-ethereum parses; closing the database file; of
-- cmd/railctl the parsing of flags and of JSON, and how results are printed; the contracts and the
-- tests.
pub mod Base
pub mod Policy
pub mod Amount
pub mod Intent
pub mod Ident
pub mod Domain
pub mod Sql
pub mod Store
pub mod Observed
pub mod Chain
pub mod Machine
pub mod Logs
pub mod Venue
pub mod Quiet
pub mod Check
pub mod Fees
pub mod Settle
pub mod Attempt
pub mod Pay
pub mod Report
pub mod Scan
pub mod Refill
pub mod Keys
pub mod Profile
pub mod Command
pub mod Trace
pub mod Samples
