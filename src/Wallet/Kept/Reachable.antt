-- ===== src/Wallet/Kept/Reachable.antt =====
-- services/wallet-service as a whole: the calls that its servers and consumers make of service.go, and the cycles of the
-- worker, in any order, with statements that fail at will, any answers of the chain, and any times and ids.
-- `CreateConfirmedDeposit` is among them, which the interface offers and nothing calls.
use holdem.Prelude.{◌≡◌, refl, ok, List, []}
use holdem.Prelude.Text.{Bytes}
use holdem.Prelude.Int.{ℤ}
use holdem.Wallet.{Balance, LedgerEntry, Deposit}
use holdem.Wallet.Database.{Env, Sql, empty_db}
use holdem.Wallet.Repository.{create_confirmed_deposit, apply_ledger_entry}
use holdem.Wallet.Service.{
  Crypto, provision, create_challenge, confirm_link, request_withdrawal,
  create_admin_faucet_transfer,
}
use holdem.Wallet.Service.Tables.{debit_for_join, credit_for_cashout}
use holdem.Wallet.Runner.{Node, Config, Client}
use holdem.Wallet.Runner.Scan.{scan_deposits_and_submit}
use holdem.Wallet.Runner.Receipts.{process_receipts}
use holdem.Wallet.Ledger.Preserved.{OnTables, Preserved}
use holdem.Wallet.Ledger.Applied.{Preserved-used, apply_ledger_entry-used, apply_ledger_entry-uses}
use holdem.Wallet.Ledger.Books.{Books, BooksOf, Preserved-Books}
use holdem.Wallet.Ledger.Abstract.{Moves, stay, accounts_of, ReachedFrom, Preserved-ReachedFrom}
use holdem.Wallet.Kept.Repository.{create_confirmed_deposit-Keeps}
use holdem.Wallet.Kept.Service.{
  provision-Keeps, create_challenge-Keeps, confirm_link-Keeps, request_withdrawal-Keeps,
  create_admin_faucet_transfer-Keeps, debit_for_join-Keeps, credit_for_cashout-Keeps,
}
use holdem.Wallet.Kept.Runner.{scan_deposits_and_submit-Keeps, process_receipts-Keeps}

-- the node after a call on its tables
abbrev pub served : {A : Type 0} → Sql A → Node → Node
served m n = record n { db = (m n.db).1 }

pub data Step (n : Node) : Node → Type 0 where
  provisions :
      (y : Crypto) (net : Bytes) (env : Env) (user mail : Bytes)
      → Step n (served (provision y net env user mail) n)
  challenges :
      (y : Crypto) (net : Bytes) (env : Env) (user address : Bytes)
      → Step n (served (create_challenge y net env user address) n)
  confirms :
      (y : Crypto) (net : Bytes) (env : Env) (user id address sign : Bytes)
      → Step n (served (confirm_link y net env user id address sign) n)
  withdraws :
      (y : Crypto) (net : Bytes) (env : Env) (user address : Bytes) (amount : ℤ)
      → Step n (served (request_withdrawal y net env user address amount) n)
  grants :
      (y : Crypto) (net : Bytes) (env : Env) (admin user : Bytes) (amount : ℤ)
      → Step n (served (create_admin_faucet_transfer y net env admin user amount) n)
  joins :
      (y : Crypto) (net : Bytes) (env : Env) (user table : Bytes) (amount : ℤ) (key : Bytes)
      → Step n (served (debit_for_join y net env user table amount key) n)
  cashes_out :
      (y : Crypto) (net : Bytes) (env : Env) (user table : Bytes) (amount : ℤ) (key : Bytes)
      → Step n (served (credit_for_cashout y net env user table amount key) n)
  credits :
      (env : Env) (d : Deposit) (e : LedgerEntry)
      → Step n (served (create_confirmed_deposit env d e) n)
  scans :
      (cfg : Config) (client : Client) (env : Env)
      → Step n (scan_deposits_and_submit cfg client env n).1
  reads_receipts :
      (cfg : Config) (client : Client) (env : Env) → Step n (process_receipts cfg client env n).1

pub data Reach (s : Node) : Node → Type 0 where
  here : Reach s s
  next : {m n : Node} → Reach s m → Step m n → Reach s n

-- the node before the first call
abbrev pub launched : Node
launched = record { db = empty_db; sent = [] }

module _ (Q : List Balance → List LedgerEntry → Type 0) (law : Preserved Q) where
  Step-OnTables : {m n : Node} → OnTables Q m.db → Step m n → OnTables Q n.db
  Step-OnTables {m = m} q (provisions y net env user mail) =
      provision-Keeps Q law y net env user mail m.db q
  Step-OnTables {m = m} q (challenges y net env user address) =
      create_challenge-Keeps Q law y net env user address m.db q
  Step-OnTables {m = m} q (confirms y net env user id address sign) =
      confirm_link-Keeps Q law y net env user id address sign m.db q
  Step-OnTables {m = m} q (withdraws y net env user address amount) =
      request_withdrawal-Keeps Q law y net env user address amount m.db q
  Step-OnTables {m = m} q (grants y net env admin user amount) =
      create_admin_faucet_transfer-Keeps Q law y net env admin user amount m.db q
  Step-OnTables {m = m} q (joins y net env user table amount key) =
      debit_for_join-Keeps Q law y net env user table amount key m.db q
  Step-OnTables {m = m} q (cashes_out y net env user table amount key) =
      credit_for_cashout-Keeps Q law y net env user table amount key m.db q
  Step-OnTables {m = m} q (credits env d e) = create_confirmed_deposit-Keeps Q law env d e m.db q
  Step-OnTables {m = m} q (scans cfg client env) =
      scan_deposits_and_submit-Keeps Q law cfg client env m q
  Step-OnTables {m = m} q (reads_receipts cfg client env) =
      process_receipts-Keeps Q law cfg client env m q

  Reach-OnTables : {s n : Node} → OnTables Q s.db → Reach s n → OnTables Q n.db
  Reach-OnTables q here = q
  Reach-OnTables q (next r step) = Step-OnTables (Reach-OnTables q r) step

-- empty tables are in order
empty-Books : Books empty_db
empty-Books = record { balanced = λ u. refl; solvent = λ u. refl; once = λ k. refl }

-- From empty tables, whatever calls, cycles and failures come in whatever order, every user's balance is the sum
-- of the user's ledger entries and is not negative, and no idempotency key stands in the ledger twice.
pub Reach-Books : (n : Node) → Reach launched n → Books n.db
Reach-Books n r = Reach-OnTables BooksOf Preserved-Books empty-Books r

-- From any state, whatever calls, cycles and failures come in whatever order, the change to the balances and the
-- ledger is a sequence of moves of the abstract accounts: a posting under a key that was not used, which leaves
-- a user that is known with a sum that is not negative, or a new user with nothing.
pub Reach-Moves :
    (s n : Node)
    → Reach s n
    → Moves (accounts_of s.db.balances s.db.entries) (accounts_of n.db.balances n.db.entries)
Reach-Moves s n r =
    let start = accounts_of s.db.balances s.db.entries in
    Reach-OnTables (ReachedFrom start) (Preserved-ReachedFrom start) stay r

-- After `ApplyLedgerEntry` went well, and whatever calls and cycles came since, a retry under the same key changes no
-- table.
pub apply_ledger_entry-again :
    (env : Env) (e : LedgerEntry) (m n : Node)
    → (apply_ledger_entry env e m.db).0 ≡ ok tt
    → Reach (served (apply_ledger_entry env e) m) n
    → (later : Env) (f : LedgerEntry) → f.idempotency_key ≡ e.idempotency_key
    → (apply_ledger_entry later f n.db).1 ≡ n.db
apply_ledger_entry-again env e m n good r later f same = apply_ledger_entry-used later f n.db (
    rw same (
      Reach-OnTables _ (Preserved-used e.idempotency_key) (apply_ledger_entry-uses env e m.db good)
        r))
