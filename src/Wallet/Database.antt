-- ===== src/Wallet/Database.antt =====
-- The tables that services/wallet-service/migrations declare, and a call on them: which of its statements fail is the
-- environment's choice. A transaction that ends with an error leaves the tables as they were. Foreign keys hold by
-- the checks of the statements that the model has.
use holdem.Prelude.{List, []}
use holdem.Database
use holdem.Database.{SqlOn}
use holdem.Wallet.{
  Account, Balance, LedgerEntry, DepositAddress, LinkChallenge, LinkedAddress, Deposit,
  WithdrawalRequest, FaucetTransfer, ChainState,
}

pub record Db : Type 0 where
  pub accounts : List Account
  pub balances : List Balance
  pub entries : List LedgerEntry
  pub deposit_addresses : List DepositAddress
  pub challenges : List LinkChallenge
  pub linked : List LinkedAddress
  pub deposits : List Deposit
  pub withdrawals : List WithdrawalRequest
  pub faucet_transfers : List FaucetTransfer
  pub chain_states : List ChainState

abbrev pub empty_db : Db
empty_db = record {
  accounts = [];
  balances = [];
  entries = [];
  deposit_addresses = [];
  challenges = [];
  linked = [];
  deposits = [];
  withdrawals = [];
  faucet_transfers = [];
  chain_states = [];
}

-- the statements of the repository, each of which may fail
pub data Statement : Type 0 where
  insert_account insert_balance insert_deposit_address : Statement
  find_balance find_deposit_address list_linked insert_challenge find_challenge : Statement
  consume_challenge insert_linked : Statement
  list_deposits insert_deposit list_withdrawals insert_withdrawal list_faucet insert_faucet :
      Statement
  find_entry lock_balance insert_entry update_balance : Statement
  list_addresses get_chain_state save_chain_state upsert_deposit update_observed confirm_deposit :
      Statement
  mark_sweep mark_withdrawal mark_faucet : Statement

pub data IdPrefix : Type 0 where
  challenge linked withdrawal ledger faucet deposit : IdPrefix

abbrev pub Env : Type 0
Env = Database.Env Db Statement IdPrefix

abbrev pub Sql {ℓ} : Type ℓ → Type ℓ
Sql A = SqlOn Db A
