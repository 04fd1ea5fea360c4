-- ===== src/Wallet/Ledger.antt =====
-- What one posting to the ledger does to the tables, case by case.
pub mod Rows
pub mod Preserved
pub mod Books
pub mod Abstract
pub mod Applied
use holdem.Prelude.{
  ◌≡◌, refl, Bool, true, false, ◌||◌, Bool-cases, Option-cases, inl, inr, Option, none, some, List,
  ◌∷◌, Outcome, ok, err, panic, Error,
}
use holdem.Prelude.Text.{Bytes, bytes_eq}
use holdem.Prelude.Int.{ℤ, ◌+ℤ◌, is_negative}
use holdem.Wallet.{Balance, LedgerEntry}
use holdem.Database.{return, query, exec, insert_row, ◌>>=◌, find_row, exists_row, update_rows}
use holdem.Wallet.Database.{
  Db, Env, Statement, find_entry, lock_balance, insert_entry, update_balance, Sql,
}
use holdem.Wallet.Repository.{has_key, owns_balance, apply_ledger_entry_tx}

-- the balance row of a posting, afterwards
abbrev pub credited : LedgerEntry → Balance → Balance → Balance
credited e old b = record b {
  available_gwei = old.available_gwei +ℤ e.amount_gwei;
  updated_at = e.created_at;
}

-- the tables after a posting
abbrev pub posted_db : LedgerEntry → Balance → Db → Db
posted_db e old db = record db {
  entries = e ∷ db.entries;
  balances = update_rows (owns_balance e.user_id) (credited e old) db.balances;
}

abbrev with_entry : LedgerEntry → Db → Db
with_entry e db = record db { entries = e ∷ db.entries }

-- an id or a key that is taken
abbrev clashes : LedgerEntry → Db → Bool
clashes e db =
    exists_row (λ (o : LedgerEntry). bytes_eq o.id e.id || has_key e.idempotency_key o) db.entries

-- How a posting may end, inside its transaction.
pub data Posting (e : LedgerEntry) (db : Db) (r : Outcome (Unit {0}) × Db) : Type 0 where
  replayed :
      (old : LedgerEntry)
      → find_row (has_key e.idempotency_key) db.entries ≡ some old
      → r ≡ (ok tt, db)
      → Posting e db r
  posted :
      (old : Balance)
      → find_row (has_key e.idempotency_key) db.entries ≡ none
      → find_row (owns_balance e.user_id) db.balances ≡ some old
      → is_negative (old.available_gwei +ℤ e.amount_gwei) ≡ false
      → r ≡ (ok tt, posted_db e old db)
      → Posting e db r
  refused : (x : Error) (after : Db) → r ≡ (err x, after) → Posting e db r

pub apply_ledger_entry_tx-Posting :
    (env : Env) (e : LedgerEntry) (db : Db) → Posting e db (apply_ledger_entry_tx env e db)
unfolding apply_ledger_entry_tx ◌>>=◌ query exec insert_row return
apply_ledger_entry_tx-Posting env e db = elim (Bool-cases (env.fails find_entry db)) [
  | inl broken ↦ rw broken (refused _ _ refl)
  | inr reads ↦ elim (Option-cases (find_row (has_key e.idempotency_key) db.entries)) [
    | inr (old, found) ↦ rw (reads, found) (replayed old found refl)
    | inl fresh ↦ elim (Bool-cases (env.fails lock_balance db)) [
      | inl broken ↦ rw (reads, fresh, broken) (refused _ _ refl)
      | inr locks ↦ elim (Option-cases (find_row (owns_balance e.user_id) db.balances)) [
        | inl missing ↦ rw (reads, fresh, locks, missing) (refused _ _ refl)
        | inr (old, found) ↦ elim (Bool-cases (is_negative (old.available_gwei +ℤ e.amount_gwei))) [
          | inl short ↦ rw (reads, fresh, locks, found, short) (refused _ _ refl)
          | inr enough ↦ elim (Bool-cases (env.fails insert_entry db)) [
            | inl broken ↦ rw (reads, fresh, locks, found, enough, broken) (refused _ _ refl)
            | inr inserts ↦ elim (Bool-cases (clashes e db)) [
              | inl clash ↦
                  rw (reads, fresh, locks, found, enough, inserts, clash) (refused _ _ refl)
              | inr apart ↦ elim (Bool-cases (env.fails update_balance (with_entry e db))) [
                | inl broken ↦
                    rw (reads, fresh, locks, found, enough, inserts, apart, broken)
                      (refused _ _ refl)
                | inr updates ↦
                    rw (reads, fresh, locks, found, enough, inserts, apart, updates)
                      (posted old fresh found enough refl)
              ]
            ]
          ]
        ]
      ]
    ]
  ]
]
