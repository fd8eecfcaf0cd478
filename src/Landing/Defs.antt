-- ===== src/Landing/Defs.antt =====
-- packages/core/src/anchor/landing.ts, its types, and the transactions that it builds with the Stellar
-- SDK: what of them the code sets, in the order in which it adds them.
use koul.Base.{ℕ, Bool, Option, List, Text}

-- The variants of `LandingKind`; the two names serve the plan's kind too.
pub data LandingType : Type 0 where
  onramp offramp : LandingType

pub data LandingKind : Type 0 where
  to_contract : (destination_contract : Text) (amount_stroops : ℕ) → LandingKind
  to_treasury : (treasury memo_id : Text) (amount_stroops : ℕ) → LandingKind

abbrev pub type_of : LandingKind → LandingType
type_of (to_contract destination amount) = onramp
type_of (to_treasury treasury memo amount) = offramp

abbrev pub amount_of : LandingKind → ℕ
amount_of (to_contract destination amount) = amount
amount_of (to_treasury treasury memo amount) = amount

pub record LandingPlan : Type 0 where
  pub public_key : Text
  pub kind : LandingType
  pub amount_stroops : ℕ
  pub create_tx_hash : Text
  pub lock_tx_hash : Text
  pub forward_tx_xdr : Text
  pub forward_tx_hash : Text
  pub cleanup_tx_xdr : Text
  pub cleanup_tx_hash : Text
  pub sponsor_fees_stroops : ℕ
  pub challenges_signed : ℕ
  pub abort_tx_xdr : Option Text
  pub abort_tx_hash : Option Text

pub record Asset : Type 0 where
  pub code : Text
  pub issuer : Text

pub record Transfer : Type 0 where
  pub contract : Text
  pub from_account : Text
  pub to_account : Text
  pub amount : ℕ

-- `source` is none where the operation is of the transaction's own source.
pub data Operation : Type 0 where
  begin_sponsoring : (sponsored_id : Text) → Operation
  create_account : (destination starting_balance : Text) → Operation
  change_trust : (asset : Asset) (limit source : Option Text) → Operation
  end_sponsoring : (source : Text) → Operation
  account_merge : (destination : Text) (source : Option Text) → Operation
  pre_auth_signer : (source tx_hash : Text) (weight : ℕ) → Operation
  set_weights : (source : Text) (master low medium high : ℕ) → Operation
  payment : (destination : Text) (asset : Asset) (amount : Text) → Operation
  -- the host function and the calls that its source account authorises
  invoke : (call : Transfer) (authorised : List Transfer) → Operation

pub record Resources : Type 0 where
  pub instructions : ℕ
  pub read_bytes : ℕ
  pub write_bytes : ℕ
  pub resource_fee : ℕ

-- A transaction without its signatures: its hash is of these. `timeout` is none for `TimeoutInfinite`.
pub record Transaction : Type 0 where
  pub source : Text
  pub sequence : ℕ
  pub base_fee : ℕ
  pub operations : List Operation
  pub memo : Option Text
  pub timeout : Option ℕ
  pub soroban : Option Resources

pub data ErrorCode : Type 0 where
  simulation_failed submit_failed sponsor_underfunded : ErrorCode

-- What is thrown: a `LandingError`, or anything else
pub data Failure : Type 0 where
  landing_error : ErrorCode → Text → Failure
  other_error : Text → Failure

pub data SendStatus : Type 0 where
  pending duplicate try_again_later error : SendStatus

-- `sendTransaction`'s answer; of its `errorResult` the name, when it can be read, and the XDR
pub record Sent : Type 0 where
  pub status : SendStatus
  pub hash : Text
  pub error_name : Option Text
  pub error_xdr : Option Text

pub data PollStatus : Type 0 where
  success not_found failed : PollStatus

pub record Polled : Type 0 where
  pub status : PollStatus
  pub ledger : ℕ

-- What `simulateTransaction` tells of the zero-amount transfer
pub record Simulated : Type 0 where
  pub instructions : ℕ
  pub disk_read_bytes : ℕ
  pub write_bytes : ℕ
  pub min_resource_fee : ℕ

pub record Relayed : Type 0 where
  pub succeeded : Bool
  pub hash : Option Text
  pub error : Option Text
  pub error_code : Option Text

pub record PreauthResult : Type 0 where
  pub hash : Text
  pub ledger : ℕ
  pub via_relay : Bool
  pub relay_error : Option Text
