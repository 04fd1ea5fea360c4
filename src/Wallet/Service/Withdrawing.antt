-- ===== src/Wallet/Service/Withdrawing.antt =====
-- services/wallet-service/internal/application/service.go: what `RequestWithdrawal` does when it goes well.
use holdem.Prelude.{
  ◌≡◌, sym, ap, subst, ◌∙◌, Bool, true, false, ◌||◌, not, ◌++◌, none, some, List, ◌∷◌, Outcome, ok,
  Error, keep_if, leb,
}
use holdem.Prelude.Text.{Bytes, bytes_eq, is_empty, trim_space}
use holdem.Prelude.Ascii.{ascii}
use holdem.Prelude.Int.{ℤ, negate, not_positive, ◌+ℤ◌, is_negative}
use holdem.Wallet.{
  Balance, LedgerEntry, WithdrawalRequest, TransferStatus, LinkedAddress, withdrawal_debit,
}
use holdem.Database.{return, find_row, exists_row, order_by, ◌>>=◌}
use holdem.Wallet.Database.{Db, Env, IdPrefix, list_linked, insert_withdrawal}
use holdem.Database.Inversion.{
  unnegated, >>=-ok, >>=-value, query-ok, insert_row-ok, with_tx-ok, not_failed, ok_value,
}
use holdem.Wallet.Repository.{
  owns_balance, list_linked_addresses, create_withdrawal, apply_ledger_entry_tx,
}
use holdem.Wallet.Ledger.{replayed, posted, refused, posted_db, apply_ledger_entry_tx-Posting}
use holdem.Wallet.Ledger.Applied.{key_used}
use holdem.Wallet.Service.{
  Crypto, normalize_address, is_ethereum_address, is_linked, request_withdrawal,
}

-- the links of a user, the oldest first
abbrev pub links_of : Bytes → Db → List LinkedAddress
links_of u db =
    order_by (λ a b. leb a.created_at b.created_at)
      (keep_if (λ (a : LinkedAddress). bytes_eq a.user_id u) db.linked)

-- the request and its debit
abbrev pub pending_request : Env → Bytes → Bytes → ℤ → Db → WithdrawalRequest
pending_request env user address amount db = record {
  id = env.new_id IdPrefix.withdrawal db;
  user_id = user;
  address = address;
  amount_gwei = amount;
  status = TransferStatus.pending;
  tx_hash = none;
  nonce = none;
  submitted_at = none;
  confirmed_at = none;
  failure_reason = none;
  created_at = env.now;
  updated_at = env.now;
}

abbrev pub debit_entry : Env → Bytes → ℤ → Db → LedgerEntry
debit_entry env user amount db = record {
  id = env.new_id IdPrefix.ledger db;
  user_id = user;
  entry_kind = withdrawal_debit;
  amount_gwei = negate amount;
  reference_id = env.new_id IdPrefix.withdrawal db;
  idempotency_key = ascii "withdrawal:" ++ env.new_id IdPrefix.withdrawal db;
  created_at = env.now;
}

pub record Withdrawn (env : Env) (user address : Bytes) (amount : ℤ) (before : Db)
    (w : WithdrawalRequest) (after : Db) : Type 0 where
  pub positive : not_positive amount ≡ false
  pub to_own : is_linked address (links_of user before) ≡ true
  pub request : w ≡ pending_request env user address amount before
  pub old : Balance
  pub of_user : find_row (owns_balance user) before.balances ≡ some old
  pub covered : is_negative (old.available_gwei +ℤ negate amount) ≡ false
  pub recorded : after ≡ record (posted_db (debit_entry env user amount before) old before) {
    withdrawals = w ∷ before.withdrawals;
  }

last_of_or : (a b c : Bool) → (a || b || c) ≡ false → c ≡ false
last_of_or true b c h = cc
last_of_or false true c h = cc
last_of_or false false c h = h

list_linked_addresses-ok :
    (env : Env) (u : Bytes) (db : Db) {l : List LinkedAddress}
    → (list_linked_addresses env u db).0 ≡ ok l
    → list_linked_addresses env u db ≡ (ok (links_of u db), db)
unfolding list_linked_addresses
list_linked_addresses-ok env u db h = query-ok env list_linked _ db h

contradiction : true ≡ false → ⊥
contradiction h = cc

ok_err : {u : Unit {0}} {e : Error} → Outcome.err e ≡ ok u → ⊥
ok_err h = cc

-- a posting under a new key that goes well
posted_new :
    (env : Env) (e : LedgerEntry) (db : Db) {u : Unit {0}}
    → key_used e.idempotency_key db.entries ≡ false
    → (apply_ledger_entry_tx env e db).0 ≡ ok u
    → (old : Balance) × (find_row (owns_balance e.user_id) db.balances ≡ some old)
      × (is_negative (old.available_gwei +ℤ e.amount_gwei) ≡ false)
      × ((apply_ledger_entry_tx env e db).1 ≡ posted_db e old db)
posted_new env e db new h = elim (apply_ledger_entry_tx-Posting env e db) [
  | replayed old found r ↦ absurd (contradiction (rw (exists_row, found) at new))
  | posted old fresh found enough r ↦ (old, found, enough, ap (λ x. x.1) r)
  | refused x after r ↦ absurd (ok_err (ap (λ x. x.0) (sym r) ∙ h))
]

create_withdrawal-ok :
    (env : Env) (w : WithdrawalRequest) (e : LedgerEntry) (db : Db) {u : Unit {0}}
    → key_used e.idempotency_key db.entries ≡ false
    → (create_withdrawal env w e db).0 ≡ ok u
    → (old : Balance) × (find_row (owns_balance e.user_id) db.balances ≡ some old)
      × (is_negative (old.available_gwei +ℤ e.amount_gwei) ≡ false)
      × ((create_withdrawal env w e db).1
          ≡ record (posted_db e old db) { withdrawals = w ∷ db.withdrawals })
unfolding create_withdrawal
create_withdrawal-ok env w e db new h =
    let body = with_tx-ok env _ db h in
    let (_, ran, then1, h) = >>=-ok _ _ db (ap (λ x. x.0) (sym body) ∙ h) in
    let (old, found, enough, after) = posted_new env e db new ran in
    let inserted = insert_row-ok env insert_withdrawal _ _ _ _ h in
    (
      old,
      found,
      enough,
      ap (λ x. x.1) (body ∙ then1 ∙ inserted)
          ∙ ap (λ (x : Db). record x { withdrawals = w ∷ x.withdrawals }) after,
    )

-- the last steps of `RequestWithdrawal`
abbrev file : Env → Bytes → Bytes → ℤ → Db → Outcome WithdrawalRequest × Db
file env user address amount d =
    (create_withdrawal env (pending_request env user address amount d)
          (debit_entry env user amount d)
        >>= λ u. return (ok (pending_request env user address amount d)))
      d

file-ok :
    (env : Env) (user address : Bytes) (amount : ℤ) (db : Db) (w : WithdrawalRequest)
    → key_used (ascii "withdrawal:" ++ env.new_id IdPrefix.withdrawal db) db.entries ≡ false
    → (file env user address amount db).0 ≡ ok w
    → (w ≡ pending_request env user address amount db)
      × (old : Balance) × (find_row (owns_balance user) db.balances ≡ some old)
      × (is_negative (old.available_gwei +ℤ negate amount) ≡ false)
      × ((file env user address amount db).1
          ≡ record (posted_db (debit_entry env user amount db) old db) {
            withdrawals = w ∷ db.withdrawals;
          })
unfolding return
file-ok env user address amount db w new h =
    let (_, stored, then1, h) = >>=-ok _ _ db h in
    let (old, found, enough, after) =
      create_withdrawal-ok env (pending_request env user address amount db)
        (debit_entry env user amount db) db new stored in
    let request = sym (ok_value h) in
    (
      request,
      old,
      found,
      enough,
      ap (λ x. x.1) then1
          ∙ after
          ∙ ap
              (λ x. record (posted_db (debit_entry env user amount db) old db) {
                withdrawals = x ∷ db.withdrawals;
              })
              (sym request),
    )

-- A withdrawal that `RequestWithdrawal` accepts under a new id is of a positive amount, goes to an address that its
-- user linked, and is covered by the user's balance; the tables have the request, which waits, and one debit of exactly
-- the amount.
pub request_withdrawal-Withdrawn :
    (crypto : Crypto) (net : Bytes) (env : Env) (user_id raw : Bytes) (amount : ℤ) (db : Db)
    (w : WithdrawalRequest)
    → key_used (ascii "withdrawal:" ++ env.new_id IdPrefix.withdrawal db) db.entries ≡ false
    → (request_withdrawal crypto net env user_id raw amount db).0 ≡ ok w
    → Withdrawn env
        (trim_space user_id)
        (normalize_address raw)
        amount
        db
        w
        (request_withdrawal crypto net env user_id raw amount db).1
unfolding request_withdrawal return
request_withdrawal-Withdrawn crypto net env user_id raw amount db w new h =
    let (_, valid, then1, h) = >>=-ok _ _ db h in
    let (links, got, then2, h) = >>=-ok _ _ _ h in
    let listed = list_linked_addresses-ok env _ db got in
    let (_, known, then3, h) = >>=-ok _ _ _ h in
    let same : (list_linked_addresses env (trim_space user_id) db).1 ≡ db = ap (λ x. x.1) listed in
    let known_links : links_of (trim_space user_id) db ≡ links =
      ok_value (ap (λ x. x.0) (sym listed) ∙ got) in
    let d : Db = (list_linked_addresses env (trim_space user_id) db).1 in
    let named = >>=-value (env.new_id IdPrefix.withdrawal) _ d in
    let entry_named = >>=-value (env.new_id IdPrefix.ledger) _ d in
    let h = ap (λ x. x.0) (sym (named ∙ entry_named)) ∙ h in
    let rest =
      subst (λ d. (file env (trim_space user_id) (normalize_address raw) amount d).0 ≡ ok w) same
        h in
    let (request, old, found, enough, after) =
      file-ok env (trim_space user_id) (normalize_address raw) amount db w new rest in
    record {
      positive =
          last_of_or (is_empty (trim_space user_id))
            (not (is_ethereum_address (normalize_address raw))) (not_positive amount)
            (not_failed _ _ valid);
      to_own =
          rw known_links
            (unnegated (is_linked (normalize_address raw) links) (not_failed _ _ known));
      request = request;
      old = old;
      of_user = found;
      covered = enough;
      recorded =
          ap (λ x. x.1) (then1 ∙ then2 ∙ then3 ∙ named ∙ entry_named)
          ∙ ap (λ d. (file env (trim_space user_id) (normalize_address raw) amount d).1) same
          ∙ after;
    }
