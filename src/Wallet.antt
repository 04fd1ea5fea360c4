-- ===== src/Wallet.antt =====
-- services/wallet-service/internal: accounts, their ledger, deposits from the chain and withdrawals to it. This file has
-- the data of domain/domain.go. Ids, keys and addresses are texts; times, block numbers and nonces are numbers.
pub mod Database
pub mod Repository
pub mod Ledger
pub mod Service
pub mod Runner
pub mod Kept
pub mod Joins
mod Tests
use holdem.Prelude.{ℕ, Bool, true, false, Option, List}
use holdem.Prelude.Text.{Bytes}
use holdem.Prelude.Int.{ℤ}

pub data EntryKind : Type 0 where
  deposit_confirmed table_buy_in_debit table_cashout_credit : EntryKind
  withdrawal_debit withdrawal_compensation_credit : EntryKind

-- the status of a deposit
pub data DepositStatus : Type 0 where
  pending confirmed : DepositStatus

-- the status of a sweep; `unswept` is the empty text
pub data SweepStatus : Type 0 where
  unswept pending submitted confirmed failed : SweepStatus

-- the status of a withdrawal or of a faucet transfer
pub data TransferStatus : Type 0 where
  pending submitted confirmed failed : TransferStatus

pub record Account : Type 0 where
  pub user_id : Bytes
  pub email : Bytes
  pub created_at : ℕ
  pub provisioned_at : ℕ

pub record Balance : Type 0 where
  pub user_id : Bytes
  pub available_gwei : ℤ
  pub updated_at : ℕ

pub record LedgerEntry : Type 0 where
  pub id : Bytes
  pub user_id : Bytes
  pub entry_kind : EntryKind
  pub amount_gwei : ℤ
  pub reference_id : Bytes
  pub idempotency_key : Bytes
  pub created_at : ℕ

pub record DepositAddress : Type 0 where
  pub user_id : Bytes
  pub address : Bytes
  pub private_key_hex : Bytes
  pub chain : Bytes
  pub created_at : ℕ
  pub last_sweep_tx_hash : Option Bytes
  pub last_sweep_at : Option ℕ
  pub last_observed_block : Option ℕ

-- What is signed is the text `challenge`.
pub record LinkChallenge : Type 0 where
  pub id : Bytes
  pub user_id : Bytes
  pub address : Bytes
  pub challenge : Bytes
  pub created_at : ℕ
  pub expires_at : ℕ
  pub consumed_at : Option ℕ

pub record LinkedAddress : Type 0 where
  pub id : Bytes
  pub user_id : Bytes
  pub address : Bytes
  pub created_at : ℕ
  pub verified_at : ℕ

pub record Deposit : Type 0 where
  pub id : Bytes
  pub user_id : Bytes
  pub address : Bytes
  pub from_address : Bytes
  pub to_address : Bytes
  pub amount_gwei : ℤ
  pub raw_amount_wei : Bytes
  pub status : DepositStatus
  pub tx_hash : Bytes
  pub observed_block : Option ℕ
  pub confirmed_block : Option ℕ
  pub confirmations : ℕ
  pub sweep_tx_hash : Option Bytes
  pub sweep_status : SweepStatus
  pub sweep_submitted_at : Option ℕ
  pub swept_at : Option ℕ
  pub sweep_failure_reason : Option Bytes
  pub created_at : ℕ
  pub updated_at : ℕ

pub record WithdrawalRequest : Type 0 where
  pub id : Bytes
  pub user_id : Bytes
  pub address : Bytes
  pub amount_gwei : ℤ
  pub status : TransferStatus
  pub tx_hash : Option Bytes
  pub nonce : Option ℕ
  pub submitted_at : Option ℕ
  pub confirmed_at : Option ℕ
  pub failure_reason : Option Bytes
  pub created_at : ℕ
  pub updated_at : ℕ

pub record FaucetTransfer : Type 0 where
  pub id : Bytes
  pub admin_user_id : Bytes
  pub target_user_id : Bytes
  pub target_address : Bytes
  pub amount_gwei : ℤ
  pub status : TransferStatus
  pub tx_hash : Option Bytes
  pub nonce : Option ℕ
  pub submitted_at : Option ℕ
  pub confirmed_at : Option ℕ
  pub failure_reason : Option Bytes
  pub created_at : ℕ
  pub updated_at : ℕ

pub record ChainState : Type 0 where
  pub name : Bytes
  pub block_number : ℕ
  pub updated_at : ℕ
