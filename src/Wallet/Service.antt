-- ===== src/Wallet/Service.antt =====
-- services/wallet-service/internal/application/service.go: what the wallet offers. Text ids, addresses and
-- signatures are ASCII. The chain's key library and the format of a time are parameters.
mod Tests
pub mod Tables
pub mod Linking
pub mod Withdrawing
use holdem.Prelude.{
  ℕ, suc, ◌+◌, Bool, true, false, ◌&&◌, ◌||◌, not, ltb, leb, ◌==◌, if◌then◌else◌, Option, none,
  some, List, [], ◌∷◌, ◌++◌, length, take, drop, Outcome, ok, err, Error, fail_if,
}
use holdem.Prelude.Text.{Bytes, bytes_eq, is_empty, trim_space, to_lower}
use holdem.Prelude.Ascii.{ascii}
use holdem.Prelude.Int.{ℤ, negate, is_negative, not_positive, is_zero}
use holdem.Wallet.{
  Account, Balance, LedgerEntry, DepositAddress, LinkChallenge, LinkedAddress, Deposit,
  WithdrawalRequest, FaucetTransfer, TransferStatus, EntryKind, withdrawal_debit,
  table_buy_in_debit, table_cashout_credit,
}
use holdem.Database.{return, ◌>>=◌, ◌>>◌}
use holdem.Wallet.Database.{Db, Env, IdPrefix, Sql}
use holdem.Wallet.Repository.{
  apply_ledger_entry, provision_user, get_balance, get_deposit_address, list_linked_addresses,
  find_link_challenge, confirm_link_challenge, create_withdrawal,
}
use holdem.Wallet.Repository

-- The key library, and the text of a time.
pub record Crypto : Type 0 where
  -- a private key and its address
  pub generate_deposit_account : Outcome (Bytes × Bytes)
  -- the address whose key signed the message
  pub recover_address : Bytes → Bytes → Outcome Bytes
  pub format_time : ℕ → Bytes

abbrev pub link_challenge_ttl : ℕ
link_challenge_ttl = 600

-- `normalizeAddress`
abbrev pub normalize_address : Bytes → Bytes
normalize_address a = to_lower (trim_space a)

abbrev pub is_hex_digit : ℕ → Bool
is_hex_digit b = (leb b'0' b && leb b b'9') || (leb b'a' b && leb b b'f')

unfoldable pub all_hex : Bytes → Bool
all_hex [] = true
all_hex (b ∷ s) = elim (is_hex_digit b) [ true ↦ all_hex s | false ↦ false ]

-- `isEthereumAddress`
unfoldable pub is_ethereum_address : Bytes → Bool
is_ethereum_address a = length a == 42 && bytes_eq (take 2 a) (ascii "0x") && all_hex (drop 2 a)

-- the text that a user signs
unfoldable pub challenge_text : Crypto → Bytes → Bytes → Bytes → Bytes → ℕ → Bytes
challenge_text crypto chain user address id expires =
    ascii "Holdem wallet link"
    ++ (10 ∷ ascii "user_id: "
        ++ (user
            ++ (10 ∷ ascii "address: "
                ++ (address
                    ++ (10 ∷ ascii "challenge_id: "
                        ++ (id
                            ++ (10 ∷ ascii "expires_at: "
                                ++ (crypto.format_time expires
                                    ++ (10 ∷ ascii "network: " ++ chain)))))))))

-- `newID`
abbrev pub new_id : Env → IdPrefix → Sql Bytes
new_id env p db = (ok (env.new_id p db), db)

-- the loop over the linked addresses in `RequestWithdrawal`
abbrev pub is_linked : Bytes → List LinkedAddress → Bool
is_linked address [] = false
is_linked address (a ∷ rest) =
    if bytes_eq (normalize_address a.address) address then true else is_linked address rest

module _ (crypto : Crypto) (chain : Bytes) (env : Env) where
  -- `ProvisionUser`
  unfoldable pub provision : Bytes → Bytes → Sql (Unit {0})
  provision user_id mail = do
    let user = trim_space user_id
    let email = to_lower (trim_space mail)
    return (fail_if (is_empty user || is_empty email) Error.invalid_input)
    account ← return crypto.generate_deposit_account
    provision_user env
        (record { user_id = user; email = email; created_at = env.now; provisioned_at = env.now })
        (record {
          user_id = user;
          address = account.1;
          private_key_hex = account.0;
          chain = chain;
          created_at = env.now;
          last_sweep_tx_hash = none;
          last_sweep_at = none;
          last_observed_block = none;
        })

  -- `Balance` and `DepositAddress`
  unfoldable pub balance : Bytes → Sql Balance
  balance user_id = get_balance env (trim_space user_id)

  unfoldable pub deposit_address : Bytes → Sql DepositAddress
  deposit_address user_id = get_deposit_address env (trim_space user_id)

  -- `LinkedAddresses`, `Deposits`, `Withdrawals` and `FaucetTransfers`
  pub linked_addresses : Bytes → Sql (List LinkedAddress)
  linked_addresses user_id = list_linked_addresses env (trim_space user_id)

  pub deposits : Bytes → Sql (List Deposit)
  deposits user_id = Repository.list_deposits env (trim_space user_id)

  pub withdrawals : Bytes → Sql (List WithdrawalRequest)
  withdrawals user_id = Repository.list_withdrawals env (trim_space user_id)

  pub faucet_transfers : Sql (List FaucetTransfer)
  faucet_transfers = Repository.list_faucet_transfers env

  -- `CreateLinkChallenge`
  unfoldable pub create_challenge : Bytes → Bytes → Sql LinkChallenge
  create_challenge user_id raw = do
    let user = trim_space user_id
    let address = normalize_address raw
    return (fail_if (is_empty user || not (is_ethereum_address address)) Error.invalid_input)
    id ← new_id env IdPrefix.challenge
    let challenge : LinkChallenge = record {
      id = id;
      user_id = user;
      address = address;
      challenge = challenge_text crypto chain user address id (env.now + link_challenge_ttl);
      created_at = env.now;
      expires_at = env.now + link_challenge_ttl;
      consumed_at = none;
    }
    Repository.create_link_challenge env challenge
    return (ok challenge)

  -- `ConfirmLink`
  unfoldable pub confirm_link : Bytes → Bytes → Bytes → Bytes → Sql LinkedAddress
  confirm_link user_id challenge_id raw sign = do
    let user = trim_space user_id
    let id = trim_space challenge_id
    let address = normalize_address raw
    let signature = trim_space sign
    return (
        fail_if
          (is_empty user || is_empty id || not (is_ethereum_address address) || is_empty signature)
          Error.invalid_input)
    challenge ← find_link_challenge env user id address
    return (fail_if (ltb challenge.expires_at env.now) Error.challenge_expired)
    recovered ← return (elim (crypto.recover_address challenge.challenge signature) [
      | ok a ↦ ok a
      | err e ↦ err Error.invalid_challenge_proof
      | Outcome.panic ↦ Outcome.panic
    ])
    return (
        fail_if (not (bytes_eq (normalize_address recovered) address))
          Error.invalid_challenge_proof)
    linked_id ← new_id env IdPrefix.linked
    let linked : LinkedAddress = record {
      id = linked_id;
      user_id = user;
      address = address;
      created_at = env.now;
      verified_at = env.now;
    }
    confirm_link_challenge env challenge.id linked
    return (ok linked)

  -- `RequestWithdrawal`
  unfoldable pub request_withdrawal : Bytes → Bytes → ℤ → Sql WithdrawalRequest
  request_withdrawal user_id raw amount = do
    let user = trim_space user_id
    let address = normalize_address raw
    return (
        fail_if (is_empty user || not (is_ethereum_address address) || not_positive amount)
          Error.invalid_input)
    addresses ← list_linked_addresses env user
    return (fail_if (not (is_linked address addresses)) Error.address_not_linked)
    id ← new_id env IdPrefix.withdrawal
    entry_id ← new_id env IdPrefix.ledger
    let withdrawal : WithdrawalRequest = record {
      id = id;
      user_id = user;
      address = address;
      amount_gwei = amount;
      status = TransferStatus.pending;
      tx_hash = none;
      nonce = none;
      submitted_at = none;
      confirmed_at = none;
      failure_reason = none;
      created_at = env.now;
      updated_at = env.now;
    }
    create_withdrawal env withdrawal (record {
      id = entry_id;
      user_id = user;
      entry_kind = withdrawal_debit;
      amount_gwei = negate amount;
      reference_id = id;
      idempotency_key = ascii "withdrawal:" ++ id;
      created_at = env.now;
    })
    return (ok withdrawal)

  -- `CreateAdminFaucetTransfer`
  unfoldable pub create_admin_faucet_transfer : Bytes → Bytes → ℤ → Sql FaucetTransfer
  create_admin_faucet_transfer admin_id user_id amount = do
    let admin = trim_space admin_id
    let user = trim_space user_id
    return (fail_if (is_empty admin || is_empty user || not_positive amount) Error.invalid_input)
    address ← get_deposit_address env user
    id ← new_id env IdPrefix.faucet
    let transfer : FaucetTransfer = record {
      id = id;
      admin_user_id = admin;
      target_user_id = user;
      target_address = address.address;
      amount_gwei = amount;
      status = TransferStatus.pending;
      tx_hash = none;
      nonce = none;
      submitted_at = none;
      confirmed_at = none;
      failure_reason = none;
      created_at = env.now;
      updated_at = env.now;
    }
    Repository.create_faucet_transfer env transfer
    return (ok transfer)
