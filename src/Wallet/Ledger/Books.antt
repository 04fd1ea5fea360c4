-- ===== src/Wallet/Ledger/Books.antt =====
-- The books of services/wallet-service: what wallet_balances says beside what wallet_ledger_entries adds up to.
use holdem.Prelude.{
  ◌≡◌, refl, leb, Bool, true, false, Bool-cases, Option-cases, if◌then◌else◌, inl, inr, Option,
  none, some, List, [], ◌∷◌, arith,
}
use holdem.Prelude.Text.{Bytes, bytes_eq, bytes_eq→eq}
use holdem.Prelude.Int.{ℤ, pos, ◌+ℤ◌, is_negative, +ℤ_comm}
use holdem.Wallet.{Balance, LedgerEntry}
use holdem.Database.Rows.{count_rows-none}
use holdem.Database.{find_row, count_rows, insert_new}
use holdem.Wallet.Database.{Db}
use holdem.Wallet.Repository.{has_key, owns_balance}
use holdem.Wallet.Ledger.{credited, posted_db}
use holdem.Wallet.Ledger.Preserved.{Preserved}
use holdem.Wallet.Ledger.Rows.{find_row-other, find_row-own}

abbrev amount_of : Option Balance → ℤ
amount_of none = pos 0
amount_of (some b) = b.available_gwei

-- a user's balance; one without an account has nothing
abbrev pub available : Bytes → List Balance → ℤ
available u bs = amount_of (find_row (owns_balance u) bs)

-- the sum of a user's entries
abbrev pub posted_sum : Bytes → List LedgerEntry → ℤ
posted_sum u [] = pos 0
posted_sum u (e ∷ es) =
    if bytes_eq e.user_id u then e.amount_gwei +ℤ posted_sum u es else posted_sum u es

pub record BooksOf (bs : List Balance) (es : List LedgerEntry) : Type 0 where
  -- every balance is the sum of the user's entries
  pub balanced : (u : Bytes) → available u bs ≡ posted_sum u es
  -- no user owes
  pub solvent : (u : Bytes) → is_negative (available u bs) ≡ false
  -- a key is used once
  pub once : (k : Bytes) → leb (count_rows (has_key k) es) 1 ≡ true

abbrev pub Books : Db → Type 0
Books db = BooksOf db.balances db.entries

module _ (db : Db) (e : LedgerEntry) (old : Balance)
    (fresh : find_row (has_key e.idempotency_key) db.entries ≡ none)
    (found : find_row (owns_balance e.user_id) db.balances ≡ some old)
    (enough : is_negative (old.available_gwei +ℤ e.amount_gwei) ≡ false) where
  owner_balance : available e.user_id db.balances ≡ old.available_gwei
  owner_balance = rw found refl

  -- the balance of the user whose entry it is
  pub available-own :
      (u : Bytes)
      → bytes_eq e.user_id u ≡ true
      → available u (posted_db e old db).balances ≡ old.available_gwei +ℤ e.amount_gwei
  available-own u mine =
      let same : e.user_id ≡ u = bytes_eq→eq e.user_id u mine in
      rw (← same, find_row-own e.user_id (credited e old) db.balances old (λ b. refl) found) refl

  -- the balance of another user
  pub available-other :
      (u : Bytes)
      → bytes_eq e.user_id u ≡ false
      → available u (posted_db e old db).balances ≡ available u db.balances
  available-other u apart =
      rw (find_row-other u e.user_id (credited e old) db.balances (λ b. refl) apart) refl

  balanced_after :
      Books db
      → (u : Bytes) → available u (posted_db e old db).balances ≡ posted_sum u (e ∷ db.entries)
  balanced_after books u = elim (Bool-cases (bytes_eq e.user_id u)) [
    | inl mine ↦
        let same : e.user_id ≡ u = bytes_eq→eq e.user_id u mine in
        let sum : posted_sum u db.entries ≡ old.available_gwei =
          rw (← same, ← books.balanced e.user_id) owner_balance in
        rw (available-own u mine, mine, sum) (+ℤ_comm old.available_gwei e.amount_gwei)
    | inr other ↦ rw (available-other u other, other) (books.balanced u)
  ]

  solvent_after :
      Books db → (u : Bytes) → is_negative (available u (posted_db e old db).balances) ≡ false
  solvent_after books u = elim (Bool-cases (bytes_eq e.user_id u)) [
    | inl mine ↦ rw (available-own u mine) enough
    | inr other ↦ rw (available-other u other) (books.solvent u)
  ]

  once_after : Books db → (k : Bytes) → leb (count_rows (has_key k) (e ∷ db.entries)) 1 ≡ true
  once_after books k = elim (Bool-cases (bytes_eq e.idempotency_key k)) [
    | inl mine ↦
        let same : e.idempotency_key ≡ k = bytes_eq→eq e.idempotency_key k mine in
        let none_yet : count_rows (has_key k) db.entries ≡ 0 =
          count_rows-none (has_key k) db.entries (rw (← same) fresh) in
        rw (mine, none_yet) refl
    | inr other ↦ let before = books.once k in ground (arith, other, before)
  ]

  pub posted_db-Books : Books db → Books (posted_db e old db)
  posted_db-Books books = record {
    balanced = balanced_after books;
    solvent = solvent_after books;
    once = once_after books;
  }

-- A new account starts with nothing.
insert_new-find :
    (test : Balance → Bool) (b : Balance) (bs : List Balance)
    → find_row test bs ≡ none
    → insert_new test b bs ≡ b ∷ bs
insert_new-find test b bs missing = rw (insert_new, missing) refl

pub insert_new-available :
    (u : Bytes) (b : Balance) (bs : List Balance)
    → b.available_gwei ≡ pos 0
    → available u (insert_new (owns_balance b.user_id) b bs) ≡ available u bs
insert_new-available u b bs zero = elim (Option-cases (find_row (owns_balance b.user_id) bs)) [
  | inr (old, found) ↦ rw (insert_new, found) refl
  | inl missing ↦ elim (Bool-cases (owns_balance u b)) [
    | inl mine ↦
        let same : b.user_id ≡ u = bytes_eq→eq b.user_id u mine in
        let nothing : find_row (owns_balance u) bs ≡ none = rw (← same) missing in
        rw (insert_new-find (owns_balance b.user_id) b bs missing, mine, nothing) zero
    | inr other ↦ rw (insert_new-find (owns_balance b.user_id) b bs missing, other) refl
  ]
]

opening-Books :
    (db : Db) (b : Balance)
    → b.available_gwei ≡ pos 0
    → Books db
    → BooksOf (insert_new (owns_balance b.user_id) b db.balances) db.entries
opening-Books db b zero books = record {
  balanced = λ u. rw (insert_new-available u b db.balances zero) (books.balanced u);
  solvent = λ u. rw (insert_new-available u b db.balances zero) (books.solvent u);
  once = books.once;
}

-- The books are such a property.
pub Preserved-Books : Preserved BooksOf
Preserved-Books = record { posting = posted_db-Books; opening = opening-Books }
