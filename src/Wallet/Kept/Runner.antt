-- ===== src/Wallet/Kept/Runner.antt =====
-- Balances and entries change by postings and new accounts only, in the cycles of runner.go, whatever the chain answers.
use holdem.Prelude.{
  ℕ, ltb, leb, length, if◌then◌else◌, Option, none, some, List, Outcome, ok, err, panic,
}
use holdem.Prelude.Text.{Bytes}
use holdem.Wallet.{
  Balance, LedgerEntry, Deposit, DepositAddress, WithdrawalRequest, FaucetTransfer, ChainState,
}
use holdem.Wallet.Database.{Env}
use holdem.Database.Keeps.{query-Keeps}
use holdem.Wallet.Repository.Chain.{
  list_deposit_addresses, get_chain_state, list_pending_deposits, list_sweep_candidates,
  list_submitted_sweeps,
}
use holdem.Wallet.Runner.{Work, Config, Client, Transfer, return, for_each, ◌>>=◌}
use holdem.Wallet.Runner.Scan.{
  swept_with, confirm_observed, scan_with, observe, confirm_one, confirm_pending_deposits,
  sweep_one, submit_sweeps, pay_withdrawal, submit_withdrawals, pay_faucet, submit_faucet_transfers,
  confirm_and_submit, scan_from, scan_deposits_and_submit,
}
use holdem.Wallet.Runner.Receipts.{
  confirm_sweep_receipts, confirm_withdrawal_receipts, confirm_faucet_transfer_receipts,
  process_receipts,
}
use holdem.Wallet.Runner.Keeps.{
  WorkKeeps, >>=-WorkKeeps, return-WorkKeeps, stored-WorkKeeps, attempt-WorkKeeps, if-WorkKeeps,
  for_each-WorkKeeps, pay_out-WorkKeeps, on_receipt-WorkKeeps,
}
use holdem.Wallet.Ledger.Preserved.{OnTables, Preserved}
use holdem.Wallet.Kept.Service.{get_deposit_address-Keeps}
use holdem.Wallet.Kept.Chain.{
  save_chain_state-Keeps, upsert_observed_deposit-Keeps, confirm_deposit-Keeps,
  mark_withdrawal_failed-Keeps, mark_deposit_sweep_submitted-Keeps,
  mark_deposit_sweep_confirmed-Keeps, mark_deposit_sweep_failed-Keeps,
  mark_withdrawal_submitted-Keeps, mark_withdrawal_confirmed-Keeps,
  mark_faucet_transfer_submitted-Keeps, mark_faucet_transfer_confirmed-Keeps,
  mark_faucet_transfer_failed-Keeps,
}

module _ (Q : List Balance → List LedgerEntry → Type 0) (law : Preserved Q) (cfg : Config)
    (client : Client) (env : Env) where
  observe-Keeps : (t : Transfer) → WorkKeeps (OnTables Q) (observe cfg client env t)
  unfolding observe
  observe-Keeps t =
      >>=-WorkKeeps (OnTables Q) _ _ (λ n b. b)
        λ id. stored-WorkKeeps (OnTables Q) _ (upsert_observed_deposit-Keeps Q law env _)

  confirm_observed-Keeps :
      (current : ℕ) (d : Deposit) (block : Option ℕ)
      → WorkKeeps (OnTables Q) (confirm_observed cfg client env current d block)
  confirm_observed-Keeps current d none = return-WorkKeeps (OnTables Q) (ok tt)
  confirm_observed-Keeps current d (some block) =
      if-WorkKeeps (OnTables Q) _ _ _ (return-WorkKeeps (OnTables Q) _) (
        >>=-WorkKeeps (OnTables Q) _ _ (λ n b. b)
          λ id. stored-WorkKeeps (OnTables Q) _ (confirm_deposit-Keeps Q law env _ _ _ _))

  confirm_one-Keeps :
      (current : ℕ) (d : Deposit) → WorkKeeps (OnTables Q) (confirm_one cfg client env current d)
  unfolding confirm_one
  confirm_one-Keeps current d = confirm_observed-Keeps current d d.observed_block

  confirm_pending_deposits-Keeps :
      (current : ℕ) → WorkKeeps (OnTables Q) (confirm_pending_deposits cfg client env current)
  unfolding confirm_pending_deposits list_pending_deposits
  confirm_pending_deposits-Keeps current =
      >>=-WorkKeeps (OnTables Q) _ _
        (stored-WorkKeeps (OnTables Q) _ (query-Keeps (OnTables Q) env _ _))
        λ deposits. for_each-WorkKeeps (OnTables Q) deposits _ (confirm_one-Keeps current)

  swept_with-Keeps :
      (d : Deposit) (a : DepositAddress) (o : Outcome Bytes)
      → WorkKeeps (OnTables Q) (swept_with cfg client env d a o)
  swept_with-Keeps d a (ok hash) n b =
      stored-WorkKeeps (OnTables Q) _
        (mark_deposit_sweep_submitted-Keeps Q law env d.tx_hash hash env.now) _ b
  swept_with-Keeps d a (err e) n b =
      attempt-WorkKeeps (OnTables Q) _
        (mark_deposit_sweep_failed-Keeps Q law env d.tx_hash (client.error_text e) env.now) n b
  swept_with-Keeps d a panic n b = b

  sweep_one-Keeps : (d : Deposit) → WorkKeeps (OnTables Q) (sweep_one cfg client env d)
  unfolding sweep_one
  sweep_one-Keeps d =
      >>=-WorkKeeps (OnTables Q) _ _
        (stored-WorkKeeps (OnTables Q) _ (get_deposit_address-Keeps Q law env d.user_id))
        λ a. λ n b. swept_with-Keeps d a _ n b

  submit_sweeps-Keeps : WorkKeeps (OnTables Q) (submit_sweeps cfg client env)
  unfolding submit_sweeps list_sweep_candidates
  submit_sweeps-Keeps =
      >>=-WorkKeeps (OnTables Q) _ _
        (stored-WorkKeeps (OnTables Q) _ (query-Keeps (OnTables Q) env _ _))
        λ deposits. for_each-WorkKeeps (OnTables Q) deposits _ sweep_one-Keeps

  pay_withdrawal-Keeps :
      (w : WithdrawalRequest) → WorkKeeps (OnTables Q) (pay_withdrawal cfg client env w)
  unfolding pay_withdrawal
  pay_withdrawal-Keeps w =
      pay_out-WorkKeeps (OnTables Q) cfg client env _ _ _ λ answer.
        stored-WorkKeeps (OnTables Q) _ (mark_withdrawal_submitted-Keeps Q law env _ _ _ _)

  submit_withdrawals-Keeps : WorkKeeps (OnTables Q) (submit_withdrawals cfg client env)
  unfolding submit_withdrawals
  submit_withdrawals-Keeps =
      >>=-WorkKeeps (OnTables Q) _ _
        (stored-WorkKeeps (OnTables Q) _ (query-Keeps (OnTables Q) env _ _))
        λ ws. for_each-WorkKeeps (OnTables Q) ws _ pay_withdrawal-Keeps

  pay_faucet-Keeps : (t : FaucetTransfer) → WorkKeeps (OnTables Q) (pay_faucet cfg client env t)
  unfolding pay_faucet
  pay_faucet-Keeps t = pay_out-WorkKeeps (OnTables Q) cfg client env _ _ _ λ answer.
      stored-WorkKeeps (OnTables Q) _ (mark_faucet_transfer_submitted-Keeps Q law env _ _ _ _)

  submit_faucet_transfers-Keeps : WorkKeeps (OnTables Q) (submit_faucet_transfers cfg client env)
  unfolding submit_faucet_transfers
  submit_faucet_transfers-Keeps =
      >>=-WorkKeeps (OnTables Q) _ _
        (stored-WorkKeeps (OnTables Q) _ (query-Keeps (OnTables Q) env _ _))
        λ ts. for_each-WorkKeeps (OnTables Q) ts _ pay_faucet-Keeps

  confirm_and_submit-Keeps :
      (current : ℕ) → WorkKeeps (OnTables Q) (confirm_and_submit cfg client env current)
  unfolding confirm_and_submit
  confirm_and_submit-Keeps current =
      >>=-WorkKeeps (OnTables Q) _ _ (confirm_pending_deposits-Keeps current) λ u.
        >>=-WorkKeeps (OnTables Q) _ _ submit_sweeps-Keeps λ u.
          >>=-WorkKeeps (OnTables Q) _ _ submit_withdrawals-Keeps λ u. submit_faucet_transfers-Keeps

  scan_from-Keeps :
      (start current : ℕ) (table : List (Bytes × Bytes))
      → WorkKeeps (OnTables Q) (scan_from cfg client env start current table)
  unfolding scan_from
  scan_from-Keeps start current table =
      let scan : Work (Unit {0}) = return (client.scan_deposits start current table) >>= λ observed.
      for_each observed (observe cfg client env) in
      let scan_kept : WorkKeeps (OnTables Q) scan =
        >>=-WorkKeeps (OnTables Q) _ _
          (return-WorkKeeps (OnTables Q) (client.scan_deposits start current table))
          λ observed. for_each-WorkKeeps (OnTables Q) observed _ observe-Keeps in
      let idle : Work (Unit {0}) = return (ok tt) in
      let idle_kept : WorkKeeps (OnTables Q) idle = return-WorkKeeps (OnTables Q) (ok tt) in
      if-WorkKeeps (OnTables Q) (leb start current) (if ltb 0 (length table) then scan else idle)
        idle (if-WorkKeeps (OnTables Q) (ltb 0 (length table)) scan idle scan_kept idle_kept)
        idle_kept

  scan_with-Keeps :
      (current : ℕ) (addresses : List DepositAddress) (state : Option ChainState)
      → WorkKeeps (OnTables Q) (scan_with cfg client env current addresses state)
  scan_with-Keeps current addresses none =
      stored-WorkKeeps (OnTables Q) _ (save_chain_state-Keeps Q law env _)
  scan_with-Keeps current addresses (some s) =
      >>=-WorkKeeps (OnTables Q) _ _ (scan_from-Keeps _ _ _) λ u.
        >>=-WorkKeeps (OnTables Q) _ _
          (stored-WorkKeeps (OnTables Q) _ (save_chain_state-Keeps Q law env _))
          λ u. confirm_and_submit-Keeps current

  -- The first cycle of the worker.
  pub scan_deposits_and_submit-Keeps :
      WorkKeeps (OnTables Q) (scan_deposits_and_submit cfg client env)
  unfolding scan_deposits_and_submit list_deposit_addresses get_chain_state
  scan_deposits_and_submit-Keeps =
      >>=-WorkKeeps (OnTables Q) _ _ (return-WorkKeeps (OnTables Q) _) λ current.
        >>=-WorkKeeps (OnTables Q) _ _
          (stored-WorkKeeps (OnTables Q) _ (query-Keeps (OnTables Q) env _ _))
          λ addresses.
            >>=-WorkKeeps (OnTables Q) _ _
              (stored-WorkKeeps (OnTables Q) _ (query-Keeps (OnTables Q) env _ _))
              λ state. scan_with-Keeps current addresses state

  confirm_sweep_receipts-Keeps : WorkKeeps (OnTables Q) (confirm_sweep_receipts cfg client env)
  unfolding confirm_sweep_receipts list_submitted_sweeps
  confirm_sweep_receipts-Keeps =
      >>=-WorkKeeps (OnTables Q) _ _
        (stored-WorkKeeps (OnTables Q) _ (query-Keeps (OnTables Q) env _ _))
        λ deposits. for_each-WorkKeeps (OnTables Q) deposits _ λ d.
          on_receipt-WorkKeeps (OnTables Q) cfg client env _ _ _
            (stored-WorkKeeps (OnTables Q) _ (mark_deposit_sweep_confirmed-Keeps Q law env _ _))
            (stored-WorkKeeps (OnTables Q) _ (mark_deposit_sweep_failed-Keeps Q law env _ _ _))

  confirm_withdrawal_receipts-Keeps :
      WorkKeeps (OnTables Q) (confirm_withdrawal_receipts cfg client env)
  unfolding confirm_withdrawal_receipts
  confirm_withdrawal_receipts-Keeps =
      >>=-WorkKeeps (OnTables Q) _ _
        (stored-WorkKeeps (OnTables Q) _ (query-Keeps (OnTables Q) env _ _))
        λ ws. for_each-WorkKeeps (OnTables Q) ws _ λ w.
          on_receipt-WorkKeeps (OnTables Q) cfg client env _ _ _
            (stored-WorkKeeps (OnTables Q) _ (mark_withdrawal_confirmed-Keeps Q law env _ _))
            (>>=-WorkKeeps (OnTables Q) _ _ (λ n b. b)
              λ id.
                stored-WorkKeeps (OnTables Q) _ (mark_withdrawal_failed-Keeps Q law env _ _ _ _))

  confirm_faucet_transfer_receipts-Keeps :
      WorkKeeps (OnTables Q) (confirm_faucet_transfer_receipts cfg client env)
  unfolding confirm_faucet_transfer_receipts
  confirm_faucet_transfer_receipts-Keeps =
      >>=-WorkKeeps (OnTables Q) _ _
        (stored-WorkKeeps (OnTables Q) _ (query-Keeps (OnTables Q) env _ _))
        λ ts. for_each-WorkKeeps (OnTables Q) ts _ λ t.
          on_receipt-WorkKeeps (OnTables Q) cfg client env _ _ _
            (stored-WorkKeeps (OnTables Q) _ (mark_faucet_transfer_confirmed-Keeps Q law env _ _))
            (stored-WorkKeeps (OnTables Q) _ (mark_faucet_transfer_failed-Keeps Q law env _ _ _))

  -- The second cycle of the worker.
  pub process_receipts-Keeps : WorkKeeps (OnTables Q) (process_receipts cfg client env)
  unfolding process_receipts
  process_receipts-Keeps = >>=-WorkKeeps (OnTables Q) _ _ confirm_sweep_receipts-Keeps λ u.
      >>=-WorkKeeps (OnTables Q) _ _ confirm_withdrawal_receipts-Keeps
        λ u. confirm_faucet_transfer_receipts-Keeps
