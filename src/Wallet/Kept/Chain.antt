-- ===== src/Wallet/Kept/Chain.antt =====
-- Balances and entries change by postings and new accounts only, in every call of repository_chain.go.
use holdem.Prelude.{List, ℕ, Bool-cases, if◌then◌else◌, inl, inr, ◌==◌, ok}
use holdem.Prelude.Text.{Bytes, bytes_eq}
use holdem.Wallet.{Balance, LedgerEntry, Deposit, ChainState}
use holdem.Database.{exists_row, return}
use holdem.Wallet.Database.{Db, Env, Statement}
use holdem.Database.Keeps.{
  Keeps, KeepsOk, >>=-Keeps, >>=-KeepsOk, return-Keeps, Keeps→Ok, exec-Keeps, insert_row-Keeps,
  with_tx-Keeps, if-KeepsOk,
}
use holdem.Wallet.Repository.Chain.{
  update, of_tx, upsert, save_chain_state, upsert_observed_deposit, confirm_deposit,
  mark_deposit_sweep_submitted, mark_deposit_sweep_confirmed, mark_deposit_sweep_failed,
}
use holdem.Wallet.Repository.Payouts.{
  mark_withdrawal_submitted, mark_withdrawal_confirmed, mark_withdrawal_failed,
  mark_faucet_transfer_submitted, mark_faucet_transfer_confirmed, mark_faucet_transfer_failed,
}
use holdem.Wallet.Repository.{apply_ledger_entry_tx}
use holdem.Wallet.Ledger.Preserved.{OnTables, Preserved, apply_ledger_entry_tx-Keeps}

module _ (Q : List Balance → List LedgerEntry → Type 0) (law : Preserved Q) (env : Env) where
  update-Keeps :
      (s : Statement) (write : Db → Db)
      → ((db : Db) → (OnTables Q) db → (OnTables Q) (write db))
      → Keeps (OnTables Q) (update env s write)
  update-Keeps s write keep =
      >>=-Keeps (OnTables Q) _ _ (exec-Keeps (OnTables Q) env _ _ keep)
        λ n. return-Keeps (OnTables Q) _

  pub save_chain_state-Keeps : (s : ChainState) → Keeps (OnTables Q) (save_chain_state env s)
  unfolding save_chain_state
  save_chain_state-Keeps s = update-Keeps _ _ λ db b.
      elim (Bool-cases (exists_row (λ (o : ChainState). bytes_eq o.name s.name) db.chain_states)) [
        | inl there ↦ rw there b
        | inr absent ↦ rw absent b
      ]

  pub upsert_observed_deposit-Keeps :
      (d : Deposit) → Keeps (OnTables Q) (upsert_observed_deposit env d)
  unfolding upsert_observed_deposit
  upsert_observed_deposit-Keeps d =
      >>=-Keeps (OnTables Q) _ _
        (insert_row-Keeps (OnTables Q) env _ _ _ (upsert env d) (λ db b.
          elim (Bool-cases (exists_row (of_tx d.tx_hash) db.deposits)) [
            | inl there ↦ rw there b
            | inr absent ↦ rw absent b
          ]))
        λ u. update-Keeps _ _ (λ db b. b)

  -- the posting that follows an update, if it found a row
  once_changed-Keeps :
      (n : ℕ) (e : LedgerEntry)
      → KeepsOk (OnTables Q) (if n == 0 then return (ok tt) else apply_ledger_entry_tx env e)
  once_changed-Keeps n e =
      if-KeepsOk (OnTables Q) (n == 0) (return (ok tt)) (apply_ledger_entry_tx env e)
        (Keeps→Ok (OnTables Q) _ (return-Keeps (OnTables Q) (ok tt)))
        (apply_ledger_entry_tx-Keeps Q law env e)

  pub confirm_deposit-Keeps :
      (h : Bytes) (block n : ℕ) (e : LedgerEntry)
      → Keeps (OnTables Q) (confirm_deposit env h block n e)
  unfolding confirm_deposit
  confirm_deposit-Keeps h block n e = with_tx-Keeps (OnTables Q) env _ (
      >>=-KeepsOk (OnTables Q) _ _
        (Keeps→Ok (OnTables Q) _ (exec-Keeps (OnTables Q) env _ _ (λ db b. b)))
        λ changed. once_changed-Keeps changed e)

  pub mark_withdrawal_failed-Keeps :
      (id reason : Bytes) (e : LedgerEntry) (at : ℕ)
      → Keeps (OnTables Q) (mark_withdrawal_failed env id reason e at)
  unfolding mark_withdrawal_failed
  mark_withdrawal_failed-Keeps id reason e at = with_tx-Keeps (OnTables Q) env _ (
      >>=-KeepsOk (OnTables Q) _ _
        (Keeps→Ok (OnTables Q) _ (exec-Keeps (OnTables Q) env _ _ (λ db b. b)))
        λ changed. once_changed-Keeps changed e)

  pub mark_deposit_sweep_submitted-Keeps :
      (h x : Bytes) (at : ℕ) → Keeps (OnTables Q) (mark_deposit_sweep_submitted env h x at)
  unfolding mark_deposit_sweep_submitted
  mark_deposit_sweep_submitted-Keeps h x at = update-Keeps _ _ (λ db b. b)

  pub mark_deposit_sweep_confirmed-Keeps :
      (h : Bytes) (at : ℕ) → Keeps (OnTables Q) (mark_deposit_sweep_confirmed env h at)
  unfolding mark_deposit_sweep_confirmed
  mark_deposit_sweep_confirmed-Keeps h at = update-Keeps _ _ (λ db b. b)

  pub mark_deposit_sweep_failed-Keeps :
      (h r : Bytes) (at : ℕ) → Keeps (OnTables Q) (mark_deposit_sweep_failed env h r at)
  unfolding mark_deposit_sweep_failed
  mark_deposit_sweep_failed-Keeps h r at = update-Keeps _ _ (λ db b. b)

  pub mark_withdrawal_submitted-Keeps :
      (id h : Bytes) (nonce at : ℕ)
      → Keeps (OnTables Q) (mark_withdrawal_submitted env id h nonce at)
  unfolding mark_withdrawal_submitted
  mark_withdrawal_submitted-Keeps id h nonce at = update-Keeps _ _ (λ db b. b)

  pub mark_withdrawal_confirmed-Keeps :
      (id : Bytes) (at : ℕ) → Keeps (OnTables Q) (mark_withdrawal_confirmed env id at)
  unfolding mark_withdrawal_confirmed
  mark_withdrawal_confirmed-Keeps id at = update-Keeps _ _ (λ db b. b)

  pub mark_faucet_transfer_submitted-Keeps :
      (id h : Bytes) (nonce at : ℕ)
      → Keeps (OnTables Q) (mark_faucet_transfer_submitted env id h nonce at)
  unfolding mark_faucet_transfer_submitted
  mark_faucet_transfer_submitted-Keeps id h nonce at = update-Keeps _ _ (λ db b. b)

  pub mark_faucet_transfer_confirmed-Keeps :
      (id : Bytes) (at : ℕ) → Keeps (OnTables Q) (mark_faucet_transfer_confirmed env id at)
  unfolding mark_faucet_transfer_confirmed
  mark_faucet_transfer_confirmed-Keeps id at = update-Keeps _ _ (λ db b. b)

  pub mark_faucet_transfer_failed-Keeps :
      (id r : Bytes) (at : ℕ) → Keeps (OnTables Q) (mark_faucet_transfer_failed env id r at)
  unfolding mark_faucet_transfer_failed
  mark_faucet_transfer_failed-Keeps id r at = update-Keeps _ _ (λ db b. b)
