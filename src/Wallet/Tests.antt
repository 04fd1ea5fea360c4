-- ===== src/Wallet/Tests.antt =====
-- A wallet with one user, who is credited, joins a table, links an address and withdraws.
use holdem.Prelude.{
  ◌≡◌, refl, ℕ, ◌==◌, if◌then◌else◌, inr, none, true, false, [], ◌∷◌, ◌++◌, map, ok,
}
use holdem.Prelude.Text.{Bytes, bytes_eq, is_empty, trim_space, trim_left, trim_right, is_space}
use holdem.Prelude.Ascii.{ascii}
use holdem.Prelude.Int.{pos, ◌+ℤ◌}
use holdem.Tables.{Table, TableStatus, can_auto_start}
use holdem.Tables.World.{World, MoneyKey, debited, saved}
use holdem.Tables.Service.{join_table, leave_table, auto_start, join_key}
use holdem.Wallet.{LedgerEntry, table_cashout_credit}
use holdem.Database
use holdem.Database.{return, query, exec, insert_row, with_tx, find_row}
use holdem.Database.{IsHealthy}
use holdem.Wallet.Database.{Db, Env, empty_db}
use holdem.Wallet.Repository.{apply_ledger_entry_tx, apply_ledger_entry}
use holdem.Wallet.Service.{Crypto, provision}
use holdem.Wallet.Service.Tables.{credit_for_cashout, debit_for_join}
use holdem.Wallet.Runner.{Node}
use holdem.Wallet.Ledger.Books.{Books}
use holdem.Wallet.Ledger.Abstract.{Moves, accounts_of}
use holdem.Wallet.Ledger.Applied.{
  Applied, ledger_answer, apply_ledger_entry-Applied, apply_ledger_entry-eq,
}
use holdem.Wallet.Joins.{rejoin_not_debited}
use holdem.Wallet.Kept.Reachable.{
  Reach, here, next, provisions, cashes_out, served, launched, Reach-Books, Reach-Moves,
  apply_ledger_entry-again,
}

-- every statement works; an id has a byte for each entry of the ledger
abbrev calm : Env
calm = record {
  fails = λ s db. false;
  begin_fails = λ db. false;
  commit_fails = λ db. false;
  now = 100;
  new_id = λ p db. map (λ e. 49) db.entries;
}

-- no statement works
abbrev broken : Env
broken = record calm { fails = λ s db. true; begin_fails = λ db. true; commit_fails = λ db. true }

-- a signature is the signer
abbrev keys : Crypto
keys = record {
  generate_deposit_account = ok (ascii "key", ascii "0x01");
  recover_address = λ text sign. ok sign;
  format_time = λ t. [];
}

abbrev ann : Bytes
ann = ascii "ann"

abbrev opened : Node
opened = served (provision keys [] calm ann (ascii "a@b")) launched

abbrev paid_in : Node
paid_in = served (credit_for_cashout keys [] calm ann (ascii "t") (pos 70) (ascii "k1")) opened

abbrev run : Reach launched paid_in
run =
    next (next here (provisions keys [] calm ann (ascii "a@b")))
      (cashes_out keys [] calm ann (ascii "t") (pos 70) (ascii "k1"))

Reach-Books_example : Books paid_in.db
Reach-Books_example = Reach-Books paid_in run

Reach-Moves_example : Moves (accounts_of [] []) (accounts_of paid_in.db.balances paid_in.db.entries)
Reach-Moves_example = Reach-Moves launched paid_in run

-- one user with funds
abbrev funded : Db
funded = record empty_db {
  balances = record { user_id = ann; available_gwei = pos 50; updated_at = 1 } ∷ [];
}

abbrev gain : LedgerEntry
gain = record {
  id = ascii "e1";
  user_id = ann;
  entry_kind = table_cashout_credit;
  amount_gwei = pos 20;
  reference_id = ascii "t";
  idempotency_key = ascii "k1";
  created_at = 9;
}

apply_ledger_entry-Applied_example : Applied gain funded (apply_ledger_entry calm gain funded)
apply_ledger_entry-Applied_example = apply_ledger_entry-Applied calm gain funded

calm-IsHealthy : IsHealthy calm
calm-IsHealthy = record { runs = λ s db. refl; begins = λ db. refl; commits = λ db. refl }

apply_ledger_entry-eq_example : apply_ledger_entry calm gain funded ≡ ledger_answer gain funded
apply_ledger_entry-eq_example = apply_ledger_entry-eq calm gain funded calm-IsHealthy refl

gained : (apply_ledger_entry calm gain funded).0 ≡ ok tt
unfolding apply_ledger_entry with_tx apply_ledger_entry_tx Database.◌>>=◌ return query exec
    insert_row bytes_eq ◌+ℤ◌
gained = refl

abbrev credited_node : Node
credited_node = served (apply_ledger_entry calm gain) (record { db = funded; sent = [] })

apply_ledger_entry-again_example :
    (apply_ledger_entry broken gain credited_node.db).1 ≡ credited_node.db
apply_ledger_entry-again_example =
    apply_ledger_entry-again calm gain (record { db = funded; sent = [] }) credited_node gained here
      broken gain refl

-- a table without players
abbrev waiting : Table
waiting = record {
  id = 7;
  name = [];
  seat_count = 2;
  status = TableStatus.idle;
  small_blind = 5;
  big_blind = 10;
  button = 0;
  active_hand_id = 0;
  seats =
      record { index = 0; player_id = 0; stack = 0 }
      ∷ record { index = 1; player_id = 0; stack = 0 }
      ∷ [];
}

abbrev alone : Table
alone = record waiting {
  seats =
      record { index = 0; player_id = 1; stack = 40 }
      ∷ record { index = 1; player_id = 0; stack = 0 }
      ∷ [];
}

-- a table is stored, and every call succeeds
abbrev serving : Table → World
serving t = record {
  clock = 0;
  find_table = λ k. ok t;
  create_fails = λ t. none;
  save_fails = λ t. none;
  has_wallet = true;
  debit_fails = λ player table n key. none;
  credit_fails = λ player table n key. none;
  start_hand = λ request. ok none;
  apply_action = λ request. ok none;
}

joins_alone : (join_table (serving waiting) 7 1 0 40).0 ≡ ok (alone, none)
unfolding join_table auto_start can_auto_start
joins_alone = refl

leaves_again : (leave_table (serving alone) 7 1).0 ≡ ok (waiting, none)
unfolding leave_table
leaves_again = refl

abbrev as_text : MoneyKey → Bytes
as_text k = ascii "join" ++ (k.amount ∷ [])

abbrev name_of : ℕ → Bytes
name_of k = if k == 1 then ann else ascii "t"

joined :
    (debit_for_join keys [] calm ann
      (ascii "t")
      (pos 40)
      (as_text (join_key waiting 1 0 40))
      funded).0
    ≡ ok tt
unfolding debit_for_join apply_ledger_entry with_tx apply_ledger_entry_tx Database.◌>>=◌ return
    query exec insert_row bytes_eq ◌+ℤ◌ is_empty trim_space trim_left trim_right is_space
joined = refl

abbrev seated : Node
seated =
    served
      (debit_for_join keys [] calm ann (ascii "t") (pos 40) (as_text (join_key waiting 1 0 40)))
      (record { db = funded; sent = [] })

sends_debit :
    (join_table (serving waiting) 7 1 0 40).1
    ≡ debited 1 7 40 (join_key waiting 1 0 40) ∷ saved alone ∷ []
unfolding join_table auto_start can_auto_start
sends_debit = refl

rejoin_not_debited_example :
    (debit_for_join keys [] calm ann
      (ascii "t")
      (pos 40)
      (as_text (join_key waiting 1 0 40))
      seated.db).1
    ≡ seated.db
rejoin_not_debited_example =
    rejoin_not_debited keys [] name_of as_text calm calm (serving waiting) (serving alone)
      (serving waiting) 7 1 0 40 waiting alone (debited 1 7 40 (join_key waiting 1 0 40))
      (debited 1 7 40 (join_key waiting 1 0 40)) (record { db = funded; sent = [] }) seated refl
      refl refl (inr refl, (inr refl, tt)) refl joins_alone refl leaves_again refl joins_alone
      sends_debit sends_debit joined here
