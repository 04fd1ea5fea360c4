-- ===== src/Wallet/Ledger/Preserved.antt =====
-- Properties of balances and entries that a posting and the opening of an account keep.
use holdem.Prelude.{◌≡◌, false, none, some, List}
use holdem.Prelude.Int.{pos, ◌+ℤ◌, is_negative}
use holdem.Wallet.{Balance, LedgerEntry}
use holdem.Database.{find_row, insert_new}
use holdem.Wallet.Database.{Db, Env}
use holdem.Database.Keeps.{KeepsOk}
use holdem.Wallet.Repository.{has_key, owns_balance, apply_ledger_entry_tx}
use holdem.Wallet.Ledger.{replayed, posted, refused, posted_db, apply_ledger_entry_tx-Posting}

-- the property of the tables
abbrev pub OnTables : (List Balance → List LedgerEntry → Type 0) → Db → Type 0
OnTables Q db = Q db.balances db.entries

pub record Preserved (Q : List Balance → List LedgerEntry → Type 0) : Type 0 where
  pub posting :
      (db : Db) (e : LedgerEntry) (old : Balance)
      → find_row (has_key e.idempotency_key) db.entries ≡ none
      → find_row (owns_balance e.user_id) db.balances ≡ some old
      → is_negative (old.available_gwei +ℤ e.amount_gwei) ≡ false
      → OnTables Q db
      → OnTables Q (posted_db e old db)
  pub opening :
      (db : Db) (b : Balance)
      → b.available_gwei ≡ pos 0
      → OnTables Q db
      → Q (insert_new (owns_balance b.user_id) b db.balances) db.entries

module _ (Q : List Balance → List LedgerEntry → Type 0) (law : Preserved Q) where
  -- A posting inside a transaction keeps the property.
  pub apply_ledger_entry_tx-Keeps :
      (env : Env) (e : LedgerEntry) → KeepsOk (OnTables Q) (apply_ledger_entry_tx env e)
  apply_ledger_entry_tx-Keeps env e db q = elim (apply_ledger_entry_tx-Posting env e db) [
    | replayed old found r ↦ rw r q
    | posted old fresh found enough r ↦ rw r (law.posting db e old fresh found enough q)
    | refused x after r ↦ rw r tt
  ]
