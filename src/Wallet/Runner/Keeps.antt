-- ===== src/Wallet/Runner/Keeps.antt =====
-- Steps of the worker that keep a property of the tables.
use holdem.Prelude.{
  ℕ, Bool, true, false, if◌then◌else◌, Option, none, some, List, [], ◌∷◌, Outcome, ok, err, panic,
}
use holdem.Prelude.Text.{Bytes}
use holdem.Prelude.Int.{ℤ}
use holdem.Wallet.Database.{Db, Env, Sql}
use holdem.Database.Keeps.{Keeps}
use holdem.Wallet.Runner.{
  Node, Work, Config, Client, return, continue, ◌>>=◌, stored, attempt, for_each, paid,
}
use holdem.Wallet.Runner.Scan.{pay_out}
use holdem.Wallet.Runner.Receipts.{on_receipt}

abbrev pub WorkKeeps : {A : Type 0} → (Db → Type 0) → Work A → Type 0
WorkKeeps P m = (n : Node) → P n.db → P (m n).1.db

module _ (P : Db → Type 0) where
  pub continue-WorkKeeps :
      {A B : Type 0} (f : A → Work B)
      → ((a : A) → WorkKeeps P (f a))
      → (r : Outcome A × Node) → P r.1.db
      → P (continue f r).1.db
  continue-WorkKeeps f keep (ok a, n) p = keep a n p
  continue-WorkKeeps f keep (err e, n) p = p
  continue-WorkKeeps f keep (panic, n) p = p

  pub >>=-WorkKeeps :
      {A B : Type 0} (m : Work A) (f : A → Work B)
      → WorkKeeps P m
      → ((a : A) → WorkKeeps P (f a))
      → WorkKeeps P (m >>= f)
  unfolding ◌>>=◌
  >>=-WorkKeeps m f first next n p = continue-WorkKeeps f next (m n) (first n p)

  pub return-WorkKeeps : {A : Type 0} (o : Outcome A) → WorkKeeps P (return o)
  unfolding return
  return-WorkKeeps o n p = p

  pub stored-WorkKeeps : {A : Type 0} (m : Sql A) → Keeps P m → WorkKeeps P (stored m)
  unfolding stored
  stored-WorkKeeps m keep n p = keep n.db p

  pub attempt-WorkKeeps : (m : Sql (Unit {0})) → Keeps P m → WorkKeeps P (attempt m)
  unfolding attempt
  attempt-WorkKeeps m keep n p = keep n.db p

  pub if-WorkKeeps :
      {A : Type 0} (c : Bool) (m n : Work A)
      → WorkKeeps P m
      → WorkKeeps P n
      → WorkKeeps P (if c then m else n)
  if-WorkKeeps true m n first second = first
  if-WorkKeeps false m n first second = second

  -- A loop keeps what its body keeps.
  pub for_each-WorkKeeps :
      {A : Type 0} (list : List A) (body : A → Work (Unit {0}))
      → ((a : A) → WorkKeeps P (body a))
      → WorkKeeps P (for_each list body)
  unfolding for_each
  for_each-WorkKeeps [] body keep n p = p
  for_each-WorkKeeps (a ∷ rest) body keep n p =
      continue-WorkKeeps _ (λ u. for_each-WorkKeeps rest body keep) (body a n) (keep a n p)

  pub pay_out-WorkKeeps :
      (cfg : Config) (client : Client) (env : Env) (address : Bytes) (amount : ℤ)
      (mark : Bytes × ℕ → Work (Unit {0}))
      → ((answer : Bytes × ℕ) → WorkKeeps P (mark answer))
      → WorkKeeps P (pay_out cfg client env address amount mark)
  unfolding pay_out
  pay_out-WorkKeeps cfg client env address amount mark keep n p =
      answered (client.submit_withdrawal n.sent address amount)
    where
      answered :
          (o : Outcome (Bytes × ℕ))
          → P
              (elim o as (λ x. Outcome (Unit {0}) × Node) [
                | ok answer ↦ mark answer (record n { sent = paid address amount ∷ n.sent })
                | err e ↦ (ok tt, n)
                | panic ↦ (panic, n)
              ]).1.db
      answered (ok answer) = keep answer _ p
      answered (err e) = p
      answered panic = p

  pub on_receipt-WorkKeeps :
      (cfg : Config) (client : Client) (env : Env) (hash : Option Bytes)
      (success failure : Work (Unit {0}))
      → WorkKeeps P success
      → WorkKeeps P failure
      → WorkKeeps P (on_receipt cfg client env hash success failure)
  unfolding on_receipt
  on_receipt-WorkKeeps cfg client env none success failure first second = return-WorkKeeps (ok tt)
  on_receipt-WorkKeeps cfg client env (some hash) success failure first second =
      >>=-WorkKeeps _ _ (return-WorkKeeps (client.receipt hash)) received
    where
      received :
          (r : Option Bool)
          → WorkKeeps P (elim r as (λ x. Work (Unit {0})) [
            | none ↦ return (ok tt)
            | some good ↦ if good then success else failure
          ])
      received none = return-WorkKeeps (ok tt)
      received (some true) = first
      received (some false) = second
