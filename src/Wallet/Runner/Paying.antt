-- ===== src/Wallet/Runner/Paying.antt =====
-- services/wallet-service/internal/chain/runner.go: when a deposit is credited, and a withdrawal whose mark is not stored.
use holdem.Prelude.{
  ◌≡◌, ◌≢◌, refl, sym, ap, ◌∙◌, ℕ, ◌+◌, ◌≤◌, true, false, ltb, leb, Bool-cases, inl, inr, Option,
  none, some, List, [], ◌∷◌, ◌++◌, keep_if, Outcome, ok, err, panic, Error, arith,
}
use holdem.Prelude.Text.{Bytes}
use holdem.Wallet.{Deposit, WithdrawalRequest}
use holdem.Database.{exec, query, order_by}
use holdem.Database.Tables.Runs.{append_assoc}
use holdem.Wallet.Database.{Db, Env, Statement}
use holdem.Database
use holdem.Wallet.Repository.Payouts.{is_pending, mark_withdrawal_submitted}
use holdem.Wallet.Runner.{
  Node, Config, Client, Sent, paid, Work, continue, return, stored, for_each,
}
use holdem.Wallet.Runner
use holdem.Wallet.Runner.Scan.{
  confirm_observed, confirm_one, pay_out, pay_withdrawal, submit_withdrawals,
}

module _ (cfg : Config) (client : Client) (env : Env) where
  confirm_observed-waits :
      (current : ℕ) (d : Deposit) (o : Option ℕ) (n : Node)
      → (confirm_observed cfg client env current d o n).1 ≢ n
      → (block : ℕ) × (o ≡ some block) × (cfg.confirmations + block ≤ current + 1)
  unfolding return
  confirm_observed-waits current d none n changed = absurd (changed refl)
  confirm_observed-waits current d (some block) n changed =
      elim (Bool-cases (ltb (current + 1) (cfg.confirmations + block))) [
        | inl early ↦ absurd (changed (rw early refl))
        | inr late ↦ (block, refl, ground (arith, late))
      ]

  -- The worker changes something for a pending deposit only when the block that has it is known and has as many
  -- confirmations as are configured, that block included.
  pub confirm_one-waits :
      (current : ℕ) (d : Deposit) (n : Node)
      → (confirm_one cfg client env current d n).1 ≢ n
      → (block : ℕ) × (d.observed_block ≡ some block) × (cfg.confirmations + block ≤ current + 1)
  unfolding confirm_one
  confirm_one-waits current d n changed =
      confirm_observed-waits current d d.observed_block n changed

-- the withdrawals that wait, as the worker lists them
abbrev pub waiting : Db → List WithdrawalRequest
waiting db =
    order_by (λ a b. leb a.updated_at b.updated_at)
      (keep_if (λ (w : WithdrawalRequest). is_pending w.status) db.withdrawals)

-- A call only adds to what was handed to the chain.
abbrev Grows : Node → Node → Type 0
Grows n m = (more : List Sent) × (m.sent ≡ more ++ n.sent)

Grows-trans : (a b c : Node) → Grows a b → Grows b c → Grows a c
Grows-trans a b c (xs, f) (ys, g) =
    (ys ++ xs, g ∙ ap (λ l. ys ++ l) f ∙ sym (append_assoc ys xs a.sent))

continue-Grows :
    {A B : Type 0} (f : A → Work B) (x : Outcome A × Node)
    → ((a : A) (m : Node) → Grows m (f a m).1)
    → Grows x.1 (continue f x).1
continue-Grows f (ok a, n) grows = grows a n
continue-Grows f (err e, n) grows = ([], refl)
continue-Grows f (panic, n) grows = ([], refl)

for_each-Grows :
    {A : Type 0} (l : List A) (body : A → Work (Unit {0}))
    → ((a : A) (n : Node) → Grows n (body a n).1)
    → (n : Node) → Grows n (for_each l body n).1
unfolding for_each
for_each-Grows [] body grows n = ([], refl)
for_each-Grows (a ∷ rest) body grows n =
    Grows-trans n (body a n).1 (continue (λ u m. for_each rest body m) (body a n)).1 (grows a n)
      (continue-Grows _ (body a n) (λ u m. for_each-Grows rest body grows m))

module _ (cfg : Config) (client : Client) where
  module _ (env : Env) where
    -- what follows the answer of the chain
    abbrev marked : WithdrawalRequest → Bytes × ℕ → Work (Unit {0})
    marked w answer = stored (mark_withdrawal_submitted env w.id answer.0 answer.1 env.now)

    marked-sent :
        (w : WithdrawalRequest) (answer : Bytes × ℕ) (n : Node)
        → (marked w answer n).1.sent ≡ n.sent
    unfolding stored
    marked-sent w answer n = refl

    pay_withdrawal-Grows :
        (w : WithdrawalRequest) (n : Node) → Grows n (pay_withdrawal cfg client env w n).1
    unfolding pay_withdrawal pay_out
    pay_withdrawal-Grows w n = by_answer (client.submit_withdrawal n.sent w.address w.amount_gwei)
      where
        by_answer :
            (o : Outcome (Bytes × ℕ))
            → Grows n
                (elim o as (λ x. Outcome (Unit {0}) × Node) [
                  | ok answer ↦
                      marked w answer (record n { sent = paid w.address w.amount_gwei ∷ n.sent })
                  | err e ↦ (ok tt, n)
                  | panic ↦ (panic, n)
                ]).1
        by_answer (ok answer) = (paid w.address w.amount_gwei ∷ [], marked-sent w answer _)
        by_answer (err e) = ([], refl)
        by_answer panic = ([], refl)

    pay_withdrawal-ok :
        (w : WithdrawalRequest) (n : Node) (answer : Bytes × ℕ)
        → client.submit_withdrawal n.sent w.address w.amount_gwei ≡ ok answer
        → pay_withdrawal cfg client env w n
          ≡ marked w answer (record n { sent = paid w.address w.amount_gwei ∷ n.sent })
    unfolding pay_withdrawal pay_out
    pay_withdrawal-ok w n answer taken = rw (pay_withdrawal, pay_out, taken) refl

    unmarked :
        (w : WithdrawalRequest) (answer : Bytes × ℕ) (n : Node)
        → env.fails Statement.mark_withdrawal n.db ≡ true
        → marked w answer n ≡ (err Error.statement_failed, n)
    unfolding stored mark_withdrawal_submitted exec Database.◌>>=◌
    unmarked w answer n refused = rw refused refl

    -- a cycle whose list starts with a withdrawal
    submit_withdrawals-first :
        (n : Node) (w : WithdrawalRequest) (rest : List WithdrawalRequest)
        → env.fails Statement.list_withdrawals n.db ≡ false
        → waiting n.db ≡ w ∷ rest
        → submit_withdrawals cfg client env n
          ≡ continue
              (λ u m. for_each rest (pay_withdrawal cfg client env) m)
              (pay_withdrawal cfg client env w n)
    unfolding submit_withdrawals Runner.◌>>=◌ stored query for_each
    submit_withdrawals-first n w rest lists listed = rw (lists, listed) refl

  -- `submitWithdrawals` runs twice in a row, and lists the waiting withdrawals both times. In the first run the chain takes
  -- the first of them and the database refuses its mark: the run leaves the tables as they were. If the chain takes the same
  -- payment again, the second run hands it to the chain a second time, whatever else that run does.
  pub submit_withdrawals-twice :
      (env later : Env) (n : Node) (w : WithdrawalRequest) (rest : List WithdrawalRequest)
      (answer answer' : Bytes × ℕ)
      → waiting n.db ≡ w ∷ rest
      → env.fails Statement.list_withdrawals n.db ≡ false
      → client.submit_withdrawal n.sent w.address w.amount_gwei ≡ ok answer
      → env.fails Statement.mark_withdrawal n.db ≡ true
      → later.fails Statement.list_withdrawals n.db ≡ false
      → client.submit_withdrawal (paid w.address w.amount_gwei ∷ n.sent) w.address w.amount_gwei
        ≡ ok answer'
      → ((submit_withdrawals cfg client env n).1.db ≡ n.db)
        × (more : List Sent) × ((submit_withdrawals cfg client later
              (submit_withdrawals cfg client env n).1).1.sent
            ≡ more ++ paid w.address w.amount_gwei ∷ paid w.address w.amount_gwei ∷ n.sent)
  submit_withdrawals-twice env later n w rest answer answer' listed lists takes refused lists'
        takes' =
      let n1 : Node = record n { sent = paid w.address w.amount_gwei ∷ n.sent } in
      let stops : pay_withdrawal cfg client env w n ≡ (err Error.statement_failed, n1) =
        pay_withdrawal-ok env w n answer takes ∙ unmarked env w answer n1 refused in
      let first : (submit_withdrawals cfg client env n).1 ≡ n1 =
        ap (λ x. x.1) (submit_withdrawals-first env n w rest lists listed)
        ∙ ap (λ x. (continue (λ u m. for_each rest (pay_withdrawal cfg client env) m) x).1) stops in
      let paid_now =
        ap (λ x. x.1.sent) (pay_withdrawal-ok later w n1 answer' takes')
        ∙ marked-sent later w answer' _ in
      let (more, after) =
        continue-Grows (λ u m. for_each rest (pay_withdrawal cfg client later) m)
          (pay_withdrawal cfg client later w n1)
          (λ u m.
            for_each-Grows rest (pay_withdrawal cfg client later) (pay_withdrawal-Grows later) m) in
      (
        ap (λ x. x.db) first,
        more,
        ap (λ x. (submit_withdrawals cfg client later x).1.sent) first
            ∙ ap (λ x. x.1.sent) (submit_withdrawals-first later n1 w rest lists' listed)
            ∙ after
            ∙ ap (λ l. more ++ l) paid_now,
      )
