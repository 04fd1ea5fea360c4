-- ===== src/Wallet/Service/Tests.antt =====
-- An address that is linked, and a withdrawal to it.
use holdem.Prelude.{◌≡◌, refl, false, none, [], ◌∷◌, ok}
use holdem.Prelude.Text.{
  Bytes, bytes_eq, is_empty, trim_space, trim_left, trim_right, is_space, to_lower, lower_byte,
}
use holdem.Prelude.Ascii.{ascii}
use holdem.Prelude.Int.{pos, ◌+ℤ◌}
use holdem.Wallet.{LinkedAddress, WithdrawalRequest}
use holdem.Database
use holdem.Database.{return, query, exec, insert_row, with_tx, order_by, place_row}
use holdem.Wallet.Database.{Db, Env, empty_db}
use holdem.Wallet.Repository.{
  apply_ledger_entry_tx, find_link_challenge, confirm_link_challenge, list_linked_addresses,
  create_withdrawal,
}
use holdem.Wallet.Service.{
  Crypto, confirm_link, request_withdrawal, normalize_address, is_ethereum_address, all_hex,
}
use holdem.Wallet.Service.Linking.{Proven, confirm_link-Proven}
use holdem.Wallet.Service.Withdrawing.{Withdrawn, request_withdrawal-Withdrawn, pending_request}

abbrev calm : Env
calm = record {
  fails = λ s db. false;
  begin_fails = λ db. false;
  commit_fails = λ db. false;
  now = 100;
  new_id = λ p db. ascii "n";
}

-- a signature is the signer
abbrev keys : Crypto
keys = record {
  generate_deposit_account = ok (ascii "key", ascii "0x01");
  recover_address = λ text sign. ok sign;
  format_time = λ t. [];
}

abbrev ann : Bytes
ann = ascii "ann"

abbrev home : Bytes
home = ascii "0x00000000000000000000000000000000000000aa"

abbrev challenged : Db
challenged = record empty_db {
  challenges =
      record {
        id = ascii "c1";
        user_id = ann;
        address = home;
        challenge = ascii "sign me";
        created_at = 50;
        expires_at = 150;
        consumed_at = none;
      }
      ∷ [];
}

abbrev link : LinkedAddress
link = record { id = ascii "n"; user_id = ann; address = home; created_at = 100; verified_at = 100 }

links : (confirm_link keys [] calm ann (ascii "c1") home home challenged).0 ≡ ok link
unfolding confirm_link find_link_challenge confirm_link_challenge with_tx Database.◌>>=◌ return
    query exec insert_row bytes_eq is_empty trim_space trim_left trim_right is_space to_lower
    lower_byte is_ethereum_address all_hex
links = refl

confirm_link-Proven_example :
    Proven keys calm
      (trim_space ann)
      (trim_space (ascii "c1"))
      (normalize_address home)
      (trim_space home)
      challenged
      link
      (confirm_link keys [] calm ann (ascii "c1") home home challenged).1
confirm_link-Proven_example =
    confirm_link-Proven keys [] calm ann (ascii "c1") home home challenged link links

abbrev funded : Db
funded = record empty_db {
  balances = record { user_id = ann; available_gwei = pos 50; updated_at = 1 } ∷ [];
  linked = link ∷ [];
}

abbrev request : WithdrawalRequest
request = pending_request calm ann home (pos 20) funded

requests : (request_withdrawal keys [] calm ann home (pos 20) funded).0 ≡ ok request
unfolding request_withdrawal list_linked_addresses create_withdrawal apply_ledger_entry_tx with_tx
    Database.◌>>=◌ return query exec insert_row bytes_eq ◌+ℤ◌ is_empty trim_space trim_left
    trim_right is_space to_lower lower_byte is_ethereum_address all_hex order_by place_row
requests = refl

request_withdrawal-Withdrawn_example :
    Withdrawn calm
      (trim_space ann)
      (normalize_address home)
      (pos 20)
      funded
      request
      (request_withdrawal keys [] calm ann home (pos 20) funded).1
request_withdrawal-Withdrawn_example =
    request_withdrawal-Withdrawn keys [] calm ann home (pos 20) funded request refl requests
