-- ===== src/Wallet/Runner/Scan.antt =====
-- services/wallet-service/internal/chain/runner.go: the first cycle of the worker, which scans the chain for deposits,
-- confirms them, and submits sweeps, withdrawals and faucet transfers.
use holdem.Prelude.{
  ℕ, ◌+◌, ◌-◌, ltb, leb, if◌then◌else◌, Option, none, some, List, [], ◌∷◌, ◌++◌, length, Outcome,
  ok, err, panic,
}
use holdem.Prelude.Text.{Bytes, to_lower}
use holdem.Prelude.Ascii.{ascii}
use holdem.Prelude.Int.{ℤ}
use holdem.Wallet.{
  DepositAddress, Deposit, WithdrawalRequest, FaucetTransfer, ChainState, DepositStatus,
  SweepStatus, deposit_confirmed,
}
use holdem.Wallet.Database.{Env, IdPrefix}
use holdem.Wallet.Repository.{get_deposit_address}
use holdem.Wallet.Repository.Chain.{
  list_deposit_addresses, get_chain_state, save_chain_state, upsert_observed_deposit,
  list_pending_deposits, confirm_deposit, list_sweep_candidates, mark_deposit_sweep_submitted,
  mark_deposit_sweep_failed,
}
use holdem.Wallet.Repository.Payouts.{
  list_withdrawals_by, list_faucet_transfers_by, is_pending, mark_withdrawal_submitted,
  mark_faucet_transfer_submitted,
}
use holdem.Wallet.Runner.{
  Transfer, swept, paid, Config, Client, Work, return, ◌>>=◌, ◌>>◌, stored, attempt, for_each,
  new_id,
}

abbrev pub cursor : Bytes
cursor = ascii "deposit_scan_cursor"

-- the map from lower-case address to user
abbrev pub address_map : List DepositAddress → List (Bytes × Bytes)
address_map [] = []
address_map (a ∷ rest) = (to_lower a.address, a.user_id) ∷ address_map rest

module _ (cfg : Config) (client : Client) (env : Env) where
  -- `initialBlock`
  unfoldable pub initial_block : ℕ → ℕ
  initial_block current =
      if ltb 0 cfg.start_block
      then cfg.start_block - 1
      else if leb current cfg.confirmations
      then 0
      else current - cfg.confirmations

  abbrev pub save_cursor : ℕ → Work (Unit {0})
  save_cursor block =
      stored (
        save_chain_state env (record { name = cursor; block_number = block; updated_at = env.now }))

  -- one observed transfer
  unfoldable pub observe : Transfer → Work (Unit {0})
  observe t = do
    id ← new_id env IdPrefix.deposit
    stored (
        upsert_observed_deposit env (record {
          id = id;
          user_id = t.user_id;
          address = to_lower t.to_address;
          from_address = to_lower t.from_address;
          to_address = to_lower t.to_address;
          amount_gwei = t.value_gwei;
          raw_amount_wei = t.raw_value_wei;
          status = DepositStatus.pending;
          tx_hash = t.tx_hash;
          observed_block = some t.block_number;
          confirmed_block = none;
          confirmations = 0;
          sweep_tx_hash = none;
          sweep_status = SweepStatus.unswept;
          sweep_submitted_at = none;
          swept_at = none;
          sweep_failure_reason = none;
          created_at = env.now;
          updated_at = env.now;
        }))

  -- one pending deposit that was observed in a block: confirmations = current - observed + 1
  abbrev pub confirm_observed : ℕ → Deposit → Option ℕ → Work (Unit {0})
  confirm_observed current d none = return (ok tt)
  confirm_observed current d (some block) =
      if ltb (current + 1) (cfg.confirmations + block) then return (ok tt) else (do
        id ← new_id env IdPrefix.ledger
        stored (
            confirm_deposit env d.tx_hash current (current + 1 - block) (record {
              id = id;
              user_id = d.user_id;
              entry_kind = deposit_confirmed;
              amount_gwei = d.amount_gwei;
              reference_id = d.tx_hash;
              idempotency_key = ascii "deposit:" ++ d.tx_hash;
              created_at = env.now;
            })))

  unfoldable pub confirm_one : ℕ → Deposit → Work (Unit {0})
  confirm_one current d = confirm_observed current d d.observed_block

  -- `confirmPendingDeposits`
  unfoldable pub confirm_pending_deposits : ℕ → Work (Unit {0})
  confirm_pending_deposits current = do
    deposits ← stored (list_pending_deposits env)
    for_each deposits (confirm_one current)

  -- what follows the answer to a sweep
  abbrev pub swept_with : Deposit → DepositAddress → Outcome Bytes → Work (Unit {0})
  swept_with d address (ok hash) n =
      stored (mark_deposit_sweep_submitted env d.tx_hash hash env.now)
        (record n { sent = swept address.private_key_hex hash ∷ n.sent })
  swept_with d address (err e) n =
      attempt (mark_deposit_sweep_failed env d.tx_hash (client.error_text e) env.now) n
  swept_with d address panic n = (panic, n)

  unfoldable pub sweep_one : Deposit → Work (Unit {0})
  sweep_one d = do
    address ← stored (get_deposit_address env d.user_id)
    (λ n.
        swept_with d address
          (client.submit_sweep n.sent address.private_key_hex cfg.hot_wallet_address) n)

  -- `submitSweeps`
  unfoldable pub submit_sweeps : Work (Unit {0})
  submit_sweeps = do deposits ← stored (list_sweep_candidates env); for_each deposits sweep_one

  unfoldable pub pay_out : Bytes → ℤ → (Bytes × ℕ → Work (Unit {0})) → Work (Unit {0})
  pay_out address amount mark n = elim (client.submit_withdrawal n.sent address amount) [
    | ok answer ↦ mark answer (record n { sent = paid address amount ∷ n.sent })
    | err e ↦ (ok tt, n)
    | panic ↦ (panic, n)
  ]

  unfoldable pub pay_withdrawal : WithdrawalRequest → Work (Unit {0})
  pay_withdrawal w =
      pay_out w.address w.amount_gwei
        (λ answer. stored (mark_withdrawal_submitted env w.id answer.0 answer.1 env.now))

  -- `submitWithdrawals`
  unfoldable pub submit_withdrawals : Work (Unit {0})
  submit_withdrawals = do
    withdrawals ← stored (list_withdrawals_by env is_pending)
    for_each withdrawals pay_withdrawal

  unfoldable pub pay_faucet : FaucetTransfer → Work (Unit {0})
  pay_faucet t =
      pay_out t.target_address t.amount_gwei
        (λ answer. stored (mark_faucet_transfer_submitted env t.id answer.0 answer.1 env.now))

  -- `submitFaucetTransfers`
  unfoldable pub submit_faucet_transfers : Work (Unit {0})
  submit_faucet_transfers = do
    transfers ← stored (list_faucet_transfers_by env is_pending)
    for_each transfers pay_faucet

  -- the steps of `scanDepositsAndSubmit` after the cursor is saved
  unfoldable pub confirm_and_submit : ℕ → Work (Unit {0})
  confirm_and_submit current = do
    confirm_pending_deposits current
    submit_sweeps
    submit_withdrawals
    submit_faucet_transfers

  -- the scan from the block after the cursor
  unfoldable pub scan_from : ℕ → ℕ → List (Bytes × Bytes) → Work (Unit {0})
  scan_from start current addresses =
      if leb start current
      then (if ltb 0 (length addresses)
          then (do
            observed ← return (client.scan_deposits start current addresses)
            for_each observed observe)
          else return (ok tt))
      else return (ok tt)

  -- the rest of `scanDepositsAndSubmit`; without a cursor it only sets one
  abbrev pub scan_with : ℕ → List DepositAddress → Option ChainState → Work (Unit {0})
  scan_with current addresses none = save_cursor (initial_block current)
  scan_with current addresses (some s) = do
    scan_from (s.block_number + 1) current (address_map addresses)
    save_cursor current
    confirm_and_submit current

  -- `scanDepositsAndSubmit`
  unfoldable pub scan_deposits_and_submit : Work (Unit {0})
  scan_deposits_and_submit = do
    current ← return client.current_block
    addresses ← stored (list_deposit_addresses env)
    state ← stored (get_chain_state env cursor)
    scan_with current addresses state
