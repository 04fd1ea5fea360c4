-- ===== src/Wallet/Runner.antt =====
-- services/wallet-service/internal/chain/runner.go: the worker that watches the chain and submits transactions. What
-- the chain answers may depend on all that was submitted so far. `Run` repeats the two cycles on tickers.
mod Tests
pub mod Scan
pub mod Receipts
pub mod Keeps
pub mod Paying
use holdem.Prelude.{
  ℕ, suc, ◌+◌, ◌-◌, Bool, true, false, ltb, leb, ◌==◌, if◌then◌else◌, Option, none, some, List, [],
  ◌∷◌, ◌++◌, length, Outcome, ok, err, panic, Error,
}
use holdem.Prelude.Text.{Bytes, to_lower}
use holdem.Prelude.Ascii.{ascii}
use holdem.Prelude.Int.{ℤ}
use holdem.Prelude.Dict
use holdem.Wallet.{
  LedgerEntry, DepositAddress, Deposit, WithdrawalRequest, FaucetTransfer, ChainState,
  DepositStatus, SweepStatus, EntryKind, deposit_confirmed, withdrawal_compensation_credit,
}
use holdem.Wallet.Database.{Db, Env, IdPrefix, Sql}
use holdem.Wallet.Repository.{get_deposit_address}
use holdem.Wallet.Repository.Chain.{
  list_deposit_addresses, get_chain_state, save_chain_state, upsert_observed_deposit,
  list_pending_deposits, confirm_deposit, list_sweep_candidates, list_submitted_sweeps,
  mark_deposit_sweep_submitted, mark_deposit_sweep_confirmed, mark_deposit_sweep_failed,
}
use holdem.Wallet.Repository.Payouts.{
  list_withdrawals_by, list_faucet_transfers_by, is_pending, is_submitted,
  mark_withdrawal_submitted, mark_withdrawal_confirmed, mark_withdrawal_failed,
  mark_faucet_transfer_submitted, mark_faucet_transfer_confirmed, mark_faucet_transfer_failed,
}

-- a transfer to one of the deposit addresses
pub record Transfer : Type 0 where
  pub user_id : Bytes
  pub from_address : Bytes
  pub to_address : Bytes
  pub tx_hash : Bytes
  pub block_number : ℕ
  pub value_gwei : ℤ
  pub raw_value_wei : Bytes

-- a transaction that was handed to the chain
pub data Sent : Type 0 where
  swept : Bytes → Bytes → Sent
  paid : Bytes → ℤ → Sent

pub record Config : Type 0 where
  pub confirmations : ℕ
  pub start_block : ℕ
  pub hot_wallet_address : Bytes

-- A receipt is whether the transaction succeeded; there is none while it waits.
pub record Client : Type 0 where
  pub current_block : Outcome ℕ
  pub scan_deposits : ℕ → ℕ → List (Bytes × Bytes) → Outcome (List Transfer)
  pub submit_sweep : List Sent → Bytes → Bytes → Outcome Bytes
  pub submit_withdrawal : List Sent → Bytes → ℤ → Outcome (Bytes × ℕ)
  pub receipt : Bytes → Outcome (Option Bool)
  pub error_text : Error → Bytes

pub record Node : Type 0 where
  pub db : Db
  pub sent : List Sent

abbrev pub Work : Type 0 → Type 0
Work A = Node → Outcome A × Node

unfoldable pub return : {A : Type 0} → Outcome A → Work A
return o n = (o, n)

abbrev pub continue : {A B : Type 0} → (A → Work B) → Outcome A × Node → Outcome B × Node
continue f (ok a, n) = f a n
continue f (err e, n) = (err e, n)
continue f (panic, n) = (panic, n)

infixl 5 ◌>>=◌ ◌>>◌
unfoldable pub ◌>>=◌ : {A B : Type 0} → Work A → (A → Work B) → Work B
◌>>=◌ m f n = continue f (m n)

abbrev pub ◌>>◌ : {B : Type 0} → Work (Unit {0}) → Work B → Work B
m >> k = m >>= λ u. k

-- a call of the repository
unfoldable pub stored : {A : Type 0} → Sql A → Work A
stored m n = let (o, db) = m n.db in (o, record n { db = db })

-- a call of the repository whose error is dropped
unfoldable pub attempt : Sql (Unit {0}) → Work (Unit {0})
attempt m n = let (o, db) = m n.db in (ok tt, record n { db = db })

-- for _, item := range list
unfoldable pub for_each : {A : Type 0} → List A → (A → Work (Unit {0})) → Work (Unit {0})
for_each [] body n = (ok tt, n)
for_each (a ∷ rest) body n = continue (λ u m. for_each rest body m) (body a n)

-- `newID` of the runner
abbrev pub new_id : Env → IdPrefix → Work Bytes
new_id env p n = (ok (env.new_id p n.db), n)
