-- ===== src/Wallet/Service/Tables.antt =====
-- services/wallet-service/internal/application/service.go: the debits and credits that the table manager asks for.
use holdem.Prelude.{◌||◌, if◌then◌else◌, ok, Error, fail_if}
use holdem.Prelude.Text.{Bytes, is_empty, trim_space}
use holdem.Prelude.Int.{ℤ, negate, is_negative, not_positive, is_zero}
use holdem.Wallet.{LedgerEntry, EntryKind, table_buy_in_debit, table_cashout_credit}
use holdem.Database.{return, ◌>>=◌, ◌>>◌}
use holdem.Wallet.Database.{Env, IdPrefix, Sql}
use holdem.Wallet.Repository.{apply_ledger_entry}
use holdem.Wallet.Service.{Crypto, new_id}

module _ (crypto : Crypto) (chain : Bytes) (env : Env) where
  -- the entry that a table's call posts
  abbrev pub table_entry : EntryKind → ℤ → Bytes → Bytes → Bytes → Bytes → LedgerEntry
  table_entry kind amount id user table key = record {
    id = id;
    user_id = user;
    entry_kind = kind;
    amount_gwei = amount;
    reference_id = table;
    idempotency_key = key;
    created_at = env.now;
  }

  -- `DebitForJoin`
  unfoldable pub debit_for_join : Bytes → Bytes → ℤ → Bytes → Sql (Unit {0})
  debit_for_join user_id table_id amount raw_key = do
    let user = trim_space user_id
    let table = trim_space table_id
    let key = trim_space raw_key
    return (
        fail_if (is_empty user || is_empty table || is_empty key || not_positive amount)
          Error.invalid_input)
    id ← new_id env IdPrefix.ledger
    apply_ledger_entry env (table_entry table_buy_in_debit (negate amount) id user table key)

  -- `CreditForCashout`
  unfoldable pub credit_for_cashout : Bytes → Bytes → ℤ → Bytes → Sql (Unit {0})
  credit_for_cashout user_id table_id amount raw_key = do
    let user = trim_space user_id
    let table = trim_space table_id
    let key = trim_space raw_key
    return (
        fail_if (is_empty user || is_empty table || is_empty key || is_negative amount)
          Error.invalid_input)
    if is_zero amount then return (ok tt) else (do
      id ← new_id env IdPrefix.ledger
      apply_ledger_entry env (table_entry table_cashout_credit amount id user table key))
