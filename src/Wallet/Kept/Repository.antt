-- ===== src/Wallet/Kept/Repository.antt =====
-- Balances and entries change by postings and new accounts only, in every call of repository.go.
use holdem.Prelude.{refl, List}
use holdem.Prelude.Text.{Bytes}
use holdem.Wallet.{
  Balance, LedgerEntry, Account, DepositAddress, LinkChallenge, LinkedAddress, Deposit,
  WithdrawalRequest, FaucetTransfer,
}
use holdem.Wallet.Database.{Env}
use holdem.Database.Keeps.{
  Keeps, >>=-Keeps, >>=-KeepsOk, return-Keeps, Keeps→Ok, exec-Keeps, insert_row-Keeps,
  with_tx-Keeps,
}
use holdem.Wallet.Repository.{
  apply_ledger_entry, provision_user, create_link_challenge, confirm_link_challenge,
  create_confirmed_deposit, create_withdrawal, create_faucet_transfer,
}
use holdem.Wallet.Ledger.Preserved.{OnTables, Preserved, apply_ledger_entry_tx-Keeps}

module _ (Q : List Balance → List LedgerEntry → Type 0) (law : Preserved Q) (env : Env) where
  pub apply_ledger_entry-Keeps : (e : LedgerEntry) → Keeps (OnTables Q) (apply_ledger_entry env e)
  unfolding apply_ledger_entry
  apply_ledger_entry-Keeps e =
      with_tx-Keeps (OnTables Q) env _ (apply_ledger_entry_tx-Keeps Q law env e)

  pub provision_user-Keeps :
      (a : Account) (d : DepositAddress) → Keeps (OnTables Q) (provision_user env a d)
  unfolding provision_user
  provision_user-Keeps a d = with_tx-Keeps (OnTables Q) env _ (
      Keeps→Ok (OnTables Q) _ (
        >>=-Keeps (OnTables Q) _ _ (insert_row-Keeps (OnTables Q) env _ _ _ _ (λ db b. b)) λ u.
          >>=-Keeps (OnTables Q) _ _
            (insert_row-Keeps (OnTables Q) env _ _ _ _ (λ db b. law.opening db _ refl b))
            λ u. insert_row-Keeps (OnTables Q) env _ _ _ _ (λ db b. b)))

  pub create_link_challenge-Keeps :
      (c : LinkChallenge) → Keeps (OnTables Q) (create_link_challenge env c)
  unfolding create_link_challenge
  create_link_challenge-Keeps c = insert_row-Keeps (OnTables Q) env _ _ _ _ (λ db b. b)

  pub confirm_link_challenge-Keeps :
      (id : Bytes) (a : LinkedAddress) → Keeps (OnTables Q) (confirm_link_challenge env id a)
  unfolding confirm_link_challenge
  confirm_link_challenge-Keeps id a = with_tx-Keeps (OnTables Q) env _ (
      Keeps→Ok (OnTables Q) _ (
        >>=-Keeps (OnTables Q) _ _ (exec-Keeps (OnTables Q) env _ _ (λ db b. b)) λ n.
          >>=-Keeps (OnTables Q) _ _ (return-Keeps (OnTables Q) _)
            λ u. insert_row-Keeps (OnTables Q) env _ _ _ _ (λ db b. b)))

  pub create_confirmed_deposit-Keeps :
      (d : Deposit) (e : LedgerEntry) → Keeps (OnTables Q) (create_confirmed_deposit env d e)
  unfolding create_confirmed_deposit
  create_confirmed_deposit-Keeps d e = with_tx-Keeps (OnTables Q) env _ (
      >>=-KeepsOk (OnTables Q) _ _ (apply_ledger_entry_tx-Keeps Q law env e)
        λ u. Keeps→Ok (OnTables Q) _ (insert_row-Keeps (OnTables Q) env _ _ _ _ (λ db b. b)))

  pub create_withdrawal-Keeps :
      (w : WithdrawalRequest) (e : LedgerEntry) → Keeps (OnTables Q) (create_withdrawal env w e)
  unfolding create_withdrawal
  create_withdrawal-Keeps w e = with_tx-Keeps (OnTables Q) env _ (
      >>=-KeepsOk (OnTables Q) _ _ (apply_ledger_entry_tx-Keeps Q law env e)
        λ u. Keeps→Ok (OnTables Q) _ (insert_row-Keeps (OnTables Q) env _ _ _ _ (λ db b. b)))

  pub create_faucet_transfer-Keeps :
      (t : FaucetTransfer) → Keeps (OnTables Q) (create_faucet_transfer env t)
  unfolding create_faucet_transfer
  create_faucet_transfer-Keeps t = insert_row-Keeps (OnTables Q) env _ _ _ _ (λ db b. b)
