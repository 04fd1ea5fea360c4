-- ===== src/Wallet/Ledger/Applied.antt =====
-- `ApplyLedgerEntry` of services/wallet-service: its effect, and what repeating it does.
use holdem.Prelude.{
  ◌≡◌, refl, ap, Bool, true, false, ◌||◌, Bool-cases, Option-cases, if◌then◌else◌, inl, inr, none,
  some, List, [], ◌∷◌, Outcome, ok, err, Error,
}
use holdem.Prelude.Text.{Bytes, bytes_eq, bytes_eq_refl}
use holdem.Prelude.Int.{◌+ℤ◌, is_negative}
use holdem.Wallet.{Balance, LedgerEntry}
use holdem.Database.{
  IsHealthy, return, query, exec, insert_row, with_tx, close, ◌>>=◌, find_row, exists_row,
}
use holdem.Wallet.Database.{Db, Env, find_entry, lock_balance, insert_entry, update_balance}
use holdem.Wallet.Repository.{has_key, owns_balance, apply_ledger_entry_tx, apply_ledger_entry}
use holdem.Wallet.Ledger.{replayed, posted, refused, posted_db, apply_ledger_entry_tx-Posting}
use holdem.Wallet.Ledger.Preserved.{Preserved}

abbrev pub key_used : Bytes → List LedgerEntry → Bool
key_used k es = exists_row (has_key k) es

-- How `ApplyLedgerEntry` may end.
pub data Applied (e : LedgerEntry) (db : Db) (r : Outcome (Unit {0}) × Db) : Type 0 where
  applied_before : key_used e.idempotency_key db.entries ≡ true → r ≡ (ok tt, db) → Applied e db r
  applied :
      (old : Balance)
      → key_used e.idempotency_key db.entries ≡ false
      → find_row (owns_balance e.user_id) db.balances ≡ some old
      → is_negative (old.available_gwei +ℤ e.amount_gwei) ≡ false
      → r ≡ (ok tt, posted_db e old db)
      → Applied e db r
  not_applied : (x : Error) → r ≡ (err x, db) → Applied e db r

-- The effect of `ApplyLedgerEntry`, whichever statements fail: an entry whose key is in the ledger changes nothing;
-- one that is posted has a new key, a user with a balance, and leaves that balance with the sum, which is not negative; and
-- with an error the tables are as before.
pub apply_ledger_entry-Applied :
    (env : Env) (e : LedgerEntry) (db : Db) → Applied e db (apply_ledger_entry env e db)
unfolding apply_ledger_entry with_tx
apply_ledger_entry-Applied env e db = elim (Bool-cases (env.begin_fails db)) [
  | inl broken ↦ rw broken (not_applied _ refl)
  | inr begins ↦ rw begins (elim (apply_ledger_entry_tx-Posting env e db) [
    | replayed old found r ↦
        let before : key_used e.idempotency_key db.entries ≡ true = rw (exists_row, found) refl in
        elim (Bool-cases (env.commit_fails db)) [
          | inl broken ↦ rw (r, close, broken) (not_applied _ refl)
          | inr commits ↦ rw (r, close, commits) (applied_before before refl)
        ]
    | posted old fresh found enough r ↦
        let new : key_used e.idempotency_key db.entries ≡ false = rw (exists_row, fresh) refl in
        elim (Bool-cases (env.commit_fails (posted_db e old db))) [
          | inl broken ↦ rw (r, close, broken) (not_applied _ refl)
          | inr commits ↦ rw (r, close, commits) (applied old new found enough refl)
        ]
    | refused x after r ↦ rw (r, close) (not_applied _ refl)
  ])
]

-- A key that was used stays used.
pub Preserved-used : (k : Bytes) → Preserved (λ bs es. key_used k es ≡ true)
Preserved-used k = record {
  posting = λ db e old fresh found enough used. elim (Bool-cases (has_key k e)) [
    | inl mine ↦ rw (exists_row, mine) refl
    | inr other ↦ rw (exists_row, other) used
  ];
  opening = λ db b zero used. used;
}

-- An entry whose key was used changes nothing.
pub apply_ledger_entry-used :
    (env : Env) (e : LedgerEntry) (db : Db)
    → key_used e.idempotency_key db.entries ≡ true
    → (apply_ledger_entry env e db).1 ≡ db
apply_ledger_entry-used env e db used = elim (apply_ledger_entry-Applied env e db) [
  | applied_before before r ↦ ap (λ x. x.1) r
  | applied old new found enough r ↦ absurd (true_false (rw new at used))
  | not_applied x r ↦ ap (λ x. x.1) r
]
  where
    true_false : false ≡ true → ⊥
    true_false x = cc

-- what the ledger is to answer where no statement fails
abbrev pub ledger_answer : LedgerEntry → Db → Outcome (Unit {0}) × Db
ledger_answer e db =
    if key_used e.idempotency_key db.entries
    then (ok tt, db)
    else elim (find_row (owns_balance e.user_id) db.balances) [
      | none ↦ (err Error.account_not_found, db)
      | some old ↦
          if is_negative (old.available_gwei +ℤ e.amount_gwei)
          then (err Error.insufficient_funds, db)
          else (ok tt, posted_db e old db)
    ]

abbrev pub has_id : Bytes → LedgerEntry → Bool
has_id id e = bytes_eq e.id id

-- neither an id nor a key that is taken
find_row-or :
    {A : Type 0} (p q : A → Bool) (rows : List A)
    → find_row p rows ≡ none
    → find_row q rows ≡ none
    → find_row (λ r. p r || q r) rows ≡ none
find_row-or p q [] a b = refl
find_row-or p q (r ∷ rows) a b = elim (Bool-cases (p r)) [
  | inl hit ↦ absurd (some_none (rw hit at a))
  | inr miss ↦ elim (Bool-cases (q r)) [
    | inl hit ↦ absurd (some_none (rw hit at b))
    | inr also ↦ rw (miss, also) (find_row-or p q rows (rw miss at a) (rw also at b))
  ]
]
  where
    some_none : some r ≡ none → ⊥
    some_none x = cc

module _ (env : Env) (e : LedgerEntry) (db : Db) (healthy : IsHealthy env)
    (free : find_row (has_id e.id) db.entries ≡ none) where
  answered_tx : close env db (apply_ledger_entry_tx env e db) ≡ ledger_answer e db
  unfolding apply_ledger_entry_tx ◌>>=◌ query exec insert_row return
  answered_tx =
      let reads = healthy.runs find_entry db in
      let locks = healthy.runs lock_balance db in
      let inserts = healthy.runs insert_entry db in
      elim (Option-cases (find_row (has_key e.idempotency_key) db.entries)) [
        | inr (o, found) ↦ rw (exists_row, reads, found, close, healthy.commits db) refl
        | inl fresh ↦ elim (Option-cases (find_row (owns_balance e.user_id) db.balances)) [
          | inl missing ↦ rw (exists_row, reads, fresh, locks, missing, close) refl
          | inr (old, row) ↦ elim (Bool-cases (is_negative (old.available_gwei +ℤ e.amount_gwei))) [
            | inl short ↦ rw (exists_row, reads, fresh, locks, row, short, close) refl
            | inr enough ↦
                let apart =
                  find_row-or (has_id e.id) (has_key e.idempotency_key) db.entries free fresh in
                let updates =
                  healthy.runs update_balance (record db { entries = e ∷ db.entries }) in
                rw
                  (
                    exists_row,
                    reads,
                    fresh,
                    locks,
                    row,
                    enough,
                    inserts,
                    apart,
                    updates,
                    close,
                    healthy.commits (posted_db e old db),
                  )
                  refl
          ]
        ]
      ]

  -- Where no statement fails and the entry's id is new, `ApplyLedgerEntry` gives the answer of its specification.
  pub apply_ledger_entry-eq : apply_ledger_entry env e db ≡ ledger_answer e db
  unfolding apply_ledger_entry with_tx
  apply_ledger_entry-eq = rw (healthy.begins db) answered_tx

-- Where `ApplyLedgerEntry` goes well, the entry's key is used.
pub apply_ledger_entry-uses :
    (env : Env) (e : LedgerEntry) (db : Db)
    → (apply_ledger_entry env e db).0 ≡ ok tt
    → key_used e.idempotency_key (apply_ledger_entry env e db).1.entries ≡ true
apply_ledger_entry-uses env e db good = elim (apply_ledger_entry-Applied env e db) [
  | applied_before before r ↦ rw r before
  | applied old new found enough r ↦ rw (r, exists_row, bytes_eq_refl e.idempotency_key) refl
  | not_applied x r ↦ absurd (err_ok x (rw r at good))
]
  where
    err_ok : (x : Error) → ◌≡◌ {A = Outcome (Unit {0})} (err x) (ok tt) → ⊥
    err_ok x h = cc
