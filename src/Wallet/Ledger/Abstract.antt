-- ===== src/Wallet/Ledger/Abstract.antt =====
-- What the ledger promises: users with funds and keys that were used, whatever rows and times stand behind them. Funds
-- change by a posting under a new key, and a user begins with nothing.
use holdem.Prelude.{
  ◌≡◌, refl, sym, subst, Bool, true, false, Bool-cases, Option-cases, if◌then◌else◌, inl, inr,
  Option, none, some, List, ◌∷◌,
}
use holdem.Prelude.Text.{Bytes, bytes_eq, bytes_eq→eq}
use holdem.Prelude.Int.{ℤ, pos, ◌+ℤ◌, is_negative}
use holdem.Wallet.{Balance, LedgerEntry}
use holdem.Database.{find_row, exists_row, insert_new}
use holdem.Wallet.Database.{Db}
use holdem.Wallet.Repository.{has_key, owns_balance}
use holdem.Wallet.Ledger.{credited, posted_db}
use holdem.Wallet.Ledger.Rows.{find_row-other, find_row-own}
use holdem.Wallet.Ledger.Preserved.{Preserved}

pub record Accounts : Type 0 where
  pub funds : Bytes → Option ℤ
  pub used : Bytes → Bool

-- a posting of `key` that leaves `user` with `sum`
abbrev pub moved : Bytes → Bytes → ℤ → Accounts → Accounts
moved key user sum l = record {
  funds = λ u. if bytes_eq user u then some sum else l.funds u;
  used = λ k. if bytes_eq key k then true else l.used k;
}

abbrev pub enrolled : Bytes → Accounts → Accounts
enrolled user l = record l { funds = λ u. if bytes_eq user u then some (pos 0) else l.funds u }

pub data Move (l : Accounts) : Accounts → Type 0 where
  move :
      (key user : Bytes) (amount old : ℤ)
      → l.used key ≡ false
      → l.funds user ≡ some old
      → is_negative (old +ℤ amount) ≡ false
      → Move l (moved key user (old +ℤ amount) l)
  enrol : (user : Bytes) → l.funds user ≡ none → Move l (enrolled user l)

pub data Moves (l : Accounts) : Accounts → Type 0 where
  stay : Moves l l
  then_move : {m n : Accounts} → Moves l m → Move m n → Moves l n

abbrev pub funds_of : Option Balance → Option ℤ
funds_of none = none
funds_of (some b) = some b.available_gwei

-- what the tables say
abbrev pub accounts_of : List Balance → List LedgerEntry → Accounts
accounts_of bs es = record {
  funds = λ u. funds_of (find_row (owns_balance u) bs);
  used = λ k. exists_row (has_key k) es;
}

-- Accounts with the same funds and keys are the same.
Accounts-ext :
    (l m : Accounts)
    → ((u : Bytes) → l.funds u ≡ m.funds u)
    → ((k : Bytes) → l.used k ≡ m.used k)
    → l ≡ m
Accounts-ext l m funds used = λ i. record { funds = λ u. funds u i; used = λ k. used k i }

module _ (db : Db) (e : LedgerEntry) (old : Balance)
    (fresh : find_row (has_key e.idempotency_key) db.entries ≡ none)
    (found : find_row (owns_balance e.user_id) db.balances ≡ some old) where
  -- A posting to the tables is a posting to the accounts.
  pub posted_db-moved :
      accounts_of (posted_db e old db).balances (posted_db e old db).entries
      ≡ moved e.idempotency_key e.user_id
          (old.available_gwei +ℤ e.amount_gwei)
          (accounts_of db.balances db.entries)
  posted_db-moved = Accounts-ext _ _ funds used
    where
      funds :
          (u : Bytes)
          → funds_of (find_row (owns_balance u) (posted_db e old db).balances) ≡ (
              if bytes_eq e.user_id u
              then some (old.available_gwei +ℤ e.amount_gwei)
              else funds_of (find_row (owns_balance u) db.balances))
      funds u = elim (Bool-cases (bytes_eq e.user_id u)) [
        | inl mine ↦
            let same : e.user_id ≡ u = bytes_eq→eq e.user_id u mine in
            let row = find_row-own e.user_id (credited e old) db.balances old (λ b. refl) found in
            rw (mine, ← same, row) refl
        | inr other ↦
            rw (other, find_row-other u e.user_id (credited e old) db.balances (λ b. refl) other)
              refl
      ]

      used :
          (k : Bytes)
          → exists_row (has_key k) (e ∷ db.entries)
            ≡ (if bytes_eq e.idempotency_key k then true else exists_row (has_key k) db.entries)
      used k = elim (Bool-cases (bytes_eq e.idempotency_key k)) [
        | inl mine ↦ rw (exists_row, mine) refl
        | inr other ↦ rw (exists_row, other) refl
      ]

insert_new-enrolled :
    (db : Db) (b : Balance)
    → b.available_gwei ≡ pos 0
    → find_row (owns_balance b.user_id) db.balances ≡ none
    → accounts_of (b ∷ db.balances) db.entries
      ≡ enrolled b.user_id (accounts_of db.balances db.entries)
insert_new-enrolled db b zero missing = Accounts-ext _ _ funds (λ k. refl)
  where
    funds :
        (u : Bytes)
        → funds_of (find_row (owns_balance u) (b ∷ db.balances)) ≡ (
            if bytes_eq b.user_id u
            then some (pos 0)
            else funds_of (find_row (owns_balance u) db.balances))
    funds u = elim (Bool-cases (bytes_eq b.user_id u)) [
      | inl mine ↦ rw (mine, zero) refl
      | inr other ↦ rw other refl
    ]

-- The accounts that a table reaches are reached by moves.
abbrev pub ReachedFrom : Accounts → List Balance → List LedgerEntry → Type 0
ReachedFrom l bs es = Moves l (accounts_of bs es)

pub Preserved-ReachedFrom : (l : Accounts) → Preserved (ReachedFrom l)
Preserved-ReachedFrom l = record {
  posting = λ db e old fresh found enough before.
      let unused : exists_row (has_key e.idempotency_key) db.entries ≡ false =
        rw (exists_row, fresh) refl in
      let has : funds_of (find_row (owns_balance e.user_id) db.balances) ≡ some old.available_gwei =
        rw found refl in
      subst (Moves l) (sym (posted_db-moved db e old fresh found)) (
        then_move before
          (move e.idempotency_key e.user_id e.amount_gwei old.available_gwei unused has enough));
  opening = λ db b zero before.
      elim (Option-cases (find_row (owns_balance b.user_id) db.balances)) [
        | inr (old, found) ↦ rw (insert_new, found) before
        | inl missing ↦
            let absent : funds_of (find_row (owns_balance b.user_id) db.balances) ≡ none =
              rw missing refl in
            rw (insert_new, missing)
              (subst (Moves l) (sym (insert_new-enrolled db b zero missing))
                (then_move before (enrol b.user_id absent)))
      ];
}
