-- ===== src/Wallet/Runner/Tests.antt =====
-- A deposit that is confirmed, a withdrawal that fails, and one that is paid without a mark.
use holdem.Prelude.{◌≡◌, ◌≢◌, refl, Bool, true, false, none, some, List, [], ◌∷◌, ◌++◌, map, ok}
use holdem.Prelude.Text.{Bytes, bytes_eq}
use holdem.Prelude.Ascii.{ascii}
use holdem.Prelude.Int.{pos, ◌+ℤ◌}
use holdem.Wallet.{
  LedgerEntry, Deposit, DepositStatus, SweepStatus, WithdrawalRequest, TransferStatus,
  deposit_confirmed,
}
use holdem.Database
use holdem.Database.{return, query, exec, insert_row, with_tx}
use holdem.Wallet.Database.{Db, Env, Statement, empty_db}
use holdem.Wallet.Repository.{apply_ledger_entry_tx}
use holdem.Wallet.Repository.Chain.{confirm_deposit}
use holdem.Wallet.Repository.Payouts.{mark_withdrawal_failed}
use holdem.Wallet.Repository.Once.{confirm_deposit-once}
use holdem.Wallet.Runner.{Node, Config, Client, Sent, paid, stored}
use holdem.Wallet.Runner.Scan.{confirm_one, submit_withdrawals}
use holdem.Wallet.Runner
use holdem.Wallet.Runner.Paying.{submit_withdrawals-twice}

abbrev calm : Env
calm = record {
  fails = λ s db. false;
  begin_fails = λ db. false;
  commit_fails = λ db. false;
  now = 100;
  new_id = λ p db. map (λ e. 49) db.entries;
}

abbrev ann : Bytes
ann = ascii "ann"

abbrev hash : Bytes
hash = ascii "0xaa"

abbrev observed : Deposit
observed = record {
  id = ascii "d1";
  user_id = ann;
  address = ascii "0x01";
  from_address = ascii "0x02";
  to_address = ascii "0x01";
  amount_gwei = pos 30;
  raw_amount_wei = [];
  status = DepositStatus.pending;
  tx_hash = hash;
  observed_block = some 10;
  confirmed_block = none;
  confirmations = 0;
  sweep_tx_hash = none;
  sweep_status = SweepStatus.unswept;
  sweep_submitted_at = none;
  swept_at = none;
  sweep_failure_reason = none;
  created_at = 1;
  updated_at = 1;
}

abbrev sent_request : WithdrawalRequest
sent_request = record {
  id = ascii "w1";
  user_id = ann;
  address = ascii "0x03";
  amount_gwei = pos 5;
  status = TransferStatus.submitted;
  tx_hash = some hash;
  nonce = some 1;
  submitted_at = some 2;
  confirmed_at = none;
  failure_reason = none;
  created_at = 1;
  updated_at = 1;
}

abbrev tables : Db
tables = record empty_db {
  balances = record { user_id = ann; available_gwei = pos 50; updated_at = 1 } ∷ [];
  deposits = observed ∷ [];
  withdrawals = sent_request ∷ [];
}

abbrev entry : LedgerEntry
entry = record {
  id = ascii "e1";
  user_id = ann;
  entry_kind = deposit_confirmed;
  amount_gwei = pos 30;
  reference_id = hash;
  idempotency_key = hash;
  created_at = 9;
}

confirms : (confirm_deposit calm hash 12 3 entry tables).0 ≡ ok tt
unfolding confirm_deposit with_tx apply_ledger_entry_tx Database.◌>>=◌ return query exec insert_row
    bytes_eq ◌+ℤ◌
confirms = refl

confirm_deposit-once_example :
    (confirm_deposit calm hash 13 4 entry (confirm_deposit calm hash 12 3 entry tables).1).1
    ≡ (confirm_deposit calm hash 12 3 entry tables).1
confirm_deposit-once_example =
    confirm_deposit-once calm calm hash 12 13 3 4 entry entry tables confirms

fails : (mark_withdrawal_failed calm (ascii "w1") [] entry 7 tables).0 ≡ ok tt
unfolding mark_withdrawal_failed with_tx apply_ledger_entry_tx Database.◌>>=◌ return query exec
    insert_row bytes_eq ◌+ℤ◌
fails = refl

abbrev config : Config
config = record { confirmations = 3; start_block = 0; hot_wallet_address = ascii "0x09" }

-- a chain that takes every transaction
abbrev chain : Client
chain = record {
  current_block = ok 12;
  scan_deposits = λ a b known. ok [];
  submit_sweep = λ sent key address. ok hash;
  submit_withdrawal = λ sent address amount. ok (hash, 1);
  receipt = λ h. ok none;
  error_text = λ e. [];
}

abbrev node : Node
node = record { db = tables; sent = [] }

credits : (confirm_one config chain calm 12 observed node).1.db.entries ≢ []
unfolding confirm_one confirm_deposit stored Runner.◌>>=◌ Runner.return with_tx
    apply_ledger_entry_tx Database.◌>>=◌ return query exec insert_row bytes_eq ◌+ℤ◌
credits h = cc

-- a withdrawal that waits
abbrev waits : Node
waits = record {
  db = record tables {
    withdrawals =
        record sent_request {
          status = TransferStatus.pending;
          tx_hash = none;
          nonce = none;
          submitted_at = none;
        }
        ∷ [];
  };
  sent = [];
}

abbrev is_mark : Statement → Bool
is_mark Statement.mark_withdrawal = true
is_mark _ = false

-- marks fail, and nothing else
abbrev unmarking : Env
unmarking = record calm { fails = λ s db. is_mark s }

abbrev after_first : Node
after_first = (submit_withdrawals config chain unmarking waits).1

submit_withdrawals-twice_example :
    (after_first.db ≡ waits.db)
    × (more : List Sent) × ((submit_withdrawals config chain calm after_first).1.sent
        ≡ more ++ paid (ascii "0x03") (pos 5) ∷ paid (ascii "0x03") (pos 5) ∷ [])
unfolding Database.order_by Database.place_row
submit_withdrawals-twice_example =
    submit_withdrawals-twice config chain unmarking calm waits _ [] (hash, 1) (hash, 1) refl refl
      refl refl refl refl
