-- ===== src/Wallet/Repository/Chain.antt =====
-- services/wallet-service/internal/infrastructure/repository/postgres/repository_chain.go: what the chain's worker
-- reads and writes. The updates run outside a transaction unless the source opens one.
use holdem.Prelude.{
  ℕ, Bool, true, false, ◌&&◌, not, leb, ◌==◌, if◌then◌else◌, Option, some, List, ◌∷◌, keep_if, ok,
  Error,
}
use holdem.Prelude.Text.{Bytes, bytes_eq}
use holdem.Wallet.{LedgerEntry, DepositAddress, Deposit, ChainState, DepositStatus, SweepStatus}
use holdem.Database.{
  return, query, exec, with_tx, find_row, exists_row, update_rows, count_rows, order_by, insert_row,
  ◌>>=◌, ◌>>◌,
}
use holdem.Wallet.Database.{Db, Env, Statement, Sql}
use holdem.Wallet.Repository.{owns_address, apply_ledger_entry_tx}

abbrev pub is_confirmed : DepositStatus → Bool
is_confirmed DepositStatus.pending = false
is_confirmed DepositStatus.confirmed = true

-- `sweep_status = '' OR sweep_status = 'failed'`
abbrev pub needs_sweep : SweepStatus → Bool
needs_sweep SweepStatus.unswept = true
needs_sweep SweepStatus.failed = true
needs_sweep SweepStatus.pending = false
needs_sweep SweepStatus.submitted = false
needs_sweep SweepStatus.confirmed = false

abbrev pub sweep_submitted : SweepStatus → Bool
sweep_submitted SweepStatus.submitted = true
sweep_submitted SweepStatus.unswept = false
sweep_submitted SweepStatus.pending = false
sweep_submitted SweepStatus.confirmed = false
sweep_submitted SweepStatus.failed = false

abbrev pub of_tx : Bytes → Deposit → Bool
of_tx h d = bytes_eq d.tx_hash h

module _ (env : Env) where
  -- an update of which the number of rows is not asked
  abbrev pub update : Statement → (Db → Db) → Sql (Unit {0})
  update s write = do changed ← exec env s (λ db. (0, write db)); return (ok tt)

  -- `ListDepositAddresses`
  unfoldable pub list_deposit_addresses : Sql (List DepositAddress)
  list_deposit_addresses = query env Statement.list_addresses (λ db. db.deposit_addresses)

  -- `GetChainState`
  unfoldable pub get_chain_state : Bytes → Sql (Option ChainState)
  get_chain_state name =
      query env Statement.get_chain_state
        (λ db. find_row (λ (s : ChainState). bytes_eq s.name name) db.chain_states)

  -- `SaveChainState`: ON CONFLICT DO UPDATE
  unfoldable pub save_chain_state : ChainState → Sql (Unit {0})
  save_chain_state s = update Statement.save_chain_state (λ db.
      if exists_row (λ (o : ChainState). bytes_eq o.name s.name) db.chain_states
      then record db {
        chain_states =
            update_rows (λ o. bytes_eq o.name s.name)
              (λ o. record o { block_number = s.block_number; updated_at = s.updated_at })
              db.chain_states;
      }
      else record db { chain_states = s ∷ db.chain_states })

  -- the INSERT … ON CONFLICT DO UPDATE of `UpsertObservedDeposit`
  abbrev pub observe_again : Deposit → Deposit → Deposit
  observe_again d o = record o {
    observed_block = d.observed_block;
    confirmations = d.confirmations;
    updated_at = d.updated_at;
    from_address = d.from_address;
    to_address = d.to_address;
    raw_amount_wei = d.raw_amount_wei;
  }

  abbrev pub upsert : Deposit → Db → Db
  upsert d db =
      if exists_row (of_tx d.tx_hash) db.deposits
      then record db { deposits = update_rows (of_tx d.tx_hash) (observe_again d) db.deposits }
      else record db { deposits = d ∷ db.deposits }

  -- `UpsertObservedDeposit`
  unfoldable pub upsert_observed_deposit : Deposit → Sql (Unit {0})
  upsert_observed_deposit d = do
    insert_row env Statement.upsert_deposit
        (λ db.
          not (exists_row (of_tx d.tx_hash) db.deposits)
          && exists_row (λ (o : Deposit). bytes_eq o.id d.id) db.deposits)
        Error.statement_failed (upsert d)
    update Statement.update_observed (λ db. record db {
      deposit_addresses =
          update_rows (owns_address d.user_id)
            (λ a. record a { last_observed_block = d.observed_block }) db.deposit_addresses;
    })

  -- `listDepositsByStatus`, `ListPendingDeposits`
  unfoldable pub list_pending_deposits : Sql (List Deposit)
  list_pending_deposits = query env Statement.list_deposits (λ db.
      order_by (λ a b. leb a.updated_at b.updated_at)
        (keep_if (λ (d : Deposit). not (is_confirmed d.status)) db.deposits))

  abbrev pub unconfirmed_of : Bytes → Deposit → Bool
  unconfirmed_of h d = of_tx h d && not (is_confirmed d.status)

  -- `ConfirmDeposit`
  unfoldable pub confirm_deposit : Bytes → ℕ → ℕ → LedgerEntry → Sql (Unit {0})
  confirm_deposit h block confirmations e = with_tx env do
    changed ← exec env Statement.confirm_deposit (λ db. (
      count_rows (unconfirmed_of h) db.deposits,
      record db {
        deposits =
            update_rows (unconfirmed_of h)
              (λ d. record d {
                status = DepositStatus.confirmed;
                confirmed_block = some block;
                confirmations = confirmations;
                updated_at = e.created_at;
              })
              db.deposits;
      },
    ))
    if changed == 0 then return (ok tt) else apply_ledger_entry_tx env e

  -- `ListSweepCandidates`
  unfoldable pub list_sweep_candidates : Sql (List Deposit)
  list_sweep_candidates = query env Statement.list_deposits (λ db.
      order_by (λ a b. leb a.updated_at b.updated_at)
        (keep_if (λ (d : Deposit). is_confirmed d.status && needs_sweep d.sweep_status)
          db.deposits))

  -- `ListSubmittedSweeps`
  unfoldable pub list_submitted_sweeps : Sql (List Deposit)
  list_submitted_sweeps = query env Statement.list_deposits (λ db.
      order_by (λ a b. leb a.updated_at b.updated_at)
        (keep_if (λ (d : Deposit). sweep_submitted d.sweep_status) db.deposits))

  abbrev pub update_deposits : Bytes → (Deposit → Deposit) → Sql (Unit {0})
  update_deposits h f =
      update Statement.mark_sweep
        (λ db. record db { deposits = update_rows (of_tx h) f db.deposits })

  -- `MarkDepositSweepSubmitted`
  unfoldable pub mark_deposit_sweep_submitted : Bytes → Bytes → ℕ → Sql (Unit {0})
  mark_deposit_sweep_submitted h sweep at = update_deposits h (λ d. record d {
    sweep_tx_hash = some sweep;
    sweep_status = SweepStatus.submitted;
    sweep_submitted_at = some at;
    updated_at = at;
  })

  -- `MarkDepositSweepConfirmed`
  unfoldable pub mark_deposit_sweep_confirmed : Bytes → ℕ → Sql (Unit {0})
  mark_deposit_sweep_confirmed h at =
      update_deposits h (λ d. record d {
        sweep_status = SweepStatus.confirmed;
        swept_at = some at;
        updated_at = at;
      })

  -- `MarkDepositSweepFailed`
  unfoldable pub mark_deposit_sweep_failed : Bytes → Bytes → ℕ → Sql (Unit {0})
  mark_deposit_sweep_failed h reason at = update_deposits h (λ d. record d {
    sweep_status = SweepStatus.failed;
    sweep_failure_reason = some reason;
    updated_at = at;
  })
