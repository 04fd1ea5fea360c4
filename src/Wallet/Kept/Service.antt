-- ===== src/Wallet/Kept/Service.antt =====
-- Balances and entries change by postings and new accounts only, in every call of service.go.
use holdem.Prelude.{List}
use holdem.Prelude.Text.{Bytes}
use holdem.Prelude.Int.{ℤ}
use holdem.Wallet.{Balance, LedgerEntry}
use holdem.Wallet.Database.{Env}
use holdem.Database.Keeps.{Keeps, >>=-Keeps, return-Keeps, query-Keeps, if-Keeps}
use holdem.Wallet.Repository.{list_linked_addresses, get_deposit_address, find_link_challenge}
use holdem.Wallet.Service.{
  Crypto, provision, create_challenge, confirm_link, request_withdrawal,
  create_admin_faucet_transfer,
}
use holdem.Wallet.Service.Tables.{debit_for_join, credit_for_cashout}
use holdem.Wallet.Ledger.Preserved.{OnTables, Preserved}
use holdem.Wallet.Kept.Repository.{
  apply_ledger_entry-Keeps, provision_user-Keeps, create_link_challenge-Keeps,
  confirm_link_challenge-Keeps, create_withdrawal-Keeps, create_faucet_transfer-Keeps,
}

module _ (Q : List Balance → List LedgerEntry → Type 0) (law : Preserved Q) (env : Env) where
  list_linked_addresses-Keeps : (u : Bytes) → Keeps (OnTables Q) (list_linked_addresses env u)
  unfolding list_linked_addresses
  list_linked_addresses-Keeps u = query-Keeps (OnTables Q) env _ _

  pub get_deposit_address-Keeps : (u : Bytes) → Keeps (OnTables Q) (get_deposit_address env u)
  unfolding get_deposit_address
  get_deposit_address-Keeps u =
      >>=-Keeps (OnTables Q) _ _ (query-Keeps (OnTables Q) env _ _)
        λ row. return-Keeps (OnTables Q) _

  find_link_challenge-Keeps : (u id a : Bytes) → Keeps (OnTables Q) (find_link_challenge env u id a)
  unfolding find_link_challenge
  find_link_challenge-Keeps u id a =
      >>=-Keeps (OnTables Q) _ _ (query-Keeps (OnTables Q) env _ _) λ row.
        >>=-Keeps (OnTables Q) _ _ (return-Keeps (OnTables Q) _) λ c.
          >>=-Keeps (OnTables Q) _ _ (return-Keeps (OnTables Q) _) λ u. return-Keeps (OnTables Q) _

module _ (Q : List Balance → List LedgerEntry → Type 0) (law : Preserved Q) (crypto : Crypto)
    (chain : Bytes) (env : Env) where
  pub provision-Keeps : (u mail : Bytes) → Keeps (OnTables Q) (provision crypto chain env u mail)
  unfolding provision
  provision-Keeps u mail = >>=-Keeps (OnTables Q) _ _ (return-Keeps (OnTables Q) _) λ u.
      >>=-Keeps (OnTables Q) _ _ (return-Keeps (OnTables Q) _)
        λ account. provision_user-Keeps Q law env _ _

  pub create_challenge-Keeps :
      (u a : Bytes) → Keeps (OnTables Q) (create_challenge crypto chain env u a)
  unfolding create_challenge
  create_challenge-Keeps u a = >>=-Keeps (OnTables Q) _ _ (return-Keeps (OnTables Q) _) λ u.
      >>=-Keeps (OnTables Q) _ _ (λ db b. b)
        λ id.
          >>=-Keeps (OnTables Q) _ _ (create_link_challenge-Keeps Q law env _)
            λ u. return-Keeps (OnTables Q) _

  pub confirm_link-Keeps :
      (u id a s : Bytes) → Keeps (OnTables Q) (confirm_link crypto chain env u id a s)
  unfolding confirm_link
  confirm_link-Keeps u id a s = >>=-Keeps (OnTables Q) _ _ (return-Keeps (OnTables Q) _) λ u.
      >>=-Keeps (OnTables Q) _ _ (find_link_challenge-Keeps Q law env _ _ _) λ challenge.
        >>=-Keeps (OnTables Q) _ _ (return-Keeps (OnTables Q) _) λ u.
          >>=-Keeps (OnTables Q) _ _ (return-Keeps (OnTables Q) _) λ recovered.
            >>=-Keeps (OnTables Q) _ _ (return-Keeps (OnTables Q) _) λ u.
              >>=-Keeps (OnTables Q) _ _ (λ db b. b)
                λ id.
                  >>=-Keeps (OnTables Q) _ _ (confirm_link_challenge-Keeps Q law env _ _)
                    λ u. return-Keeps (OnTables Q) _

  pub request_withdrawal-Keeps :
      (u a : Bytes) (n : ℤ) → Keeps (OnTables Q) (request_withdrawal crypto chain env u a n)
  unfolding request_withdrawal
  request_withdrawal-Keeps u a n = >>=-Keeps (OnTables Q) _ _ (return-Keeps (OnTables Q) _) λ u.
      >>=-Keeps (OnTables Q) _ _ (list_linked_addresses-Keeps Q law env _) λ addresses.
        >>=-Keeps (OnTables Q) _ _ (return-Keeps (OnTables Q) _) λ u.
          >>=-Keeps (OnTables Q) _ _ (λ db b. b)
            λ id.
              >>=-Keeps (OnTables Q) _ _ (λ db b. b)
                λ entry.
                  >>=-Keeps (OnTables Q) _ _ (create_withdrawal-Keeps Q law env _ _)
                    λ u. return-Keeps (OnTables Q) _

  pub create_admin_faucet_transfer-Keeps :
      (admin u : Bytes) (n : ℤ)
      → Keeps (OnTables Q) (create_admin_faucet_transfer crypto chain env admin u n)
  unfolding create_admin_faucet_transfer
  create_admin_faucet_transfer-Keeps admin u n =
      >>=-Keeps (OnTables Q) _ _ (return-Keeps (OnTables Q) _) λ u.
        >>=-Keeps (OnTables Q) _ _ (get_deposit_address-Keeps Q law env _) λ address.
          >>=-Keeps (OnTables Q) _ _ (λ db b. b)
            λ id.
              >>=-Keeps (OnTables Q) _ _ (create_faucet_transfer-Keeps Q law env _)
                λ u. return-Keeps (OnTables Q) _

  pub debit_for_join-Keeps :
      (u t : Bytes) (n : ℤ) (k : Bytes)
      → Keeps (OnTables Q) (debit_for_join crypto chain env u t n k)
  unfolding debit_for_join
  debit_for_join-Keeps u t n k =
      >>=-Keeps (OnTables Q) _ _ (return-Keeps (OnTables Q) _)
        λ u. >>=-Keeps (OnTables Q) _ _ (λ db b. b) λ id. apply_ledger_entry-Keeps Q law env _

  pub credit_for_cashout-Keeps :
      (u t : Bytes) (n : ℤ) (k : Bytes)
      → Keeps (OnTables Q) (credit_for_cashout crypto chain env u t n k)
  unfolding credit_for_cashout
  credit_for_cashout-Keeps u t n k = >>=-Keeps (OnTables Q) _ _ (return-Keeps (OnTables Q) _) λ u.
      if-Keeps (OnTables Q) _ _ _ (return-Keeps (OnTables Q) _)
        (>>=-Keeps (OnTables Q) _ _ (λ db b. b) λ id. apply_ledger_entry-Keeps Q law env _)
