-- ===== src/Database/Tables.antt =====
-- One table of a database at a time: its rows, statements on them, and loops of statements.
pub mod Runs
use holdem.Prelude.{
  ℕ, suc, ◌≡◌, Bool, true, false, ◌||◌, not, List, [], ◌∷◌, ◌++◌, keep_if, Outcome, ok, err, panic,
  Error,
}
use holdem.Database.{Env, SqlOn, return, exec, insert_row, exists_row, count_rows, ◌>>=◌, ◌>>◌}

-- where a table's rows are in the tables
pub record Table (S R : Type 0) : Type 0 where
  pub rows : S → List R
  pub write : List R → S → S

-- What is written is read, the last write stands, and a write of what is there changes nothing.
pub record IsTable {S R : Type 0} (t : Table S R) : Type 0 where
  pub rows-write : (rs : List R) (db : S) → t.rows (t.write rs db) ≡ rs
  pub write-write : (rs rs' : List R) (db : S) → t.write rs (t.write rs' db) ≡ t.write rs db
  pub write-rows : (db : S) → t.write (t.rows db) db ≡ db

-- DELETE … WHERE
unfoldable pub delete_where :
    {S T P R : Type 0} → Env S T P → T → Table S R → (R → Bool) → SqlOn S ℕ
delete_where env s t test =
    exec env s
      (λ db. (count_rows test (t.rows db), t.write (keep_if (λ r. not (test r)) (t.rows db)) db))

-- INSERT: the new row comes last. A row with the same key refuses it, and so does a foreign key without its row.
unfoldable pub insert_into :
    {S T P R : Type 0}
    → Env S T P
    → T
    → Table S R
    → (R → R → Bool)
    → (S → Bool)
    → R
    → SqlOn S (Unit {0})
insert_into env s t same orphan r =
    insert_row env s (λ db. exists_row (same r) (t.rows db) || orphan db) Error.statement_failed
      (λ db. t.write (t.rows db ++ r ∷ []) db)

-- for _, x := range xs
unfoldable pub for_each : {S A : Type 0} → (A → SqlOn S (Unit {0})) → List A → SqlOn S (Unit {0})
for_each f [] = return (ok tt)
for_each f (x ∷ xs) = f x >> for_each f xs

-- for i, x := range xs, from a first index
abbrev pub numbered : {A : Type 0} → ℕ → List A → List (ℕ × A)
numbered i [] = []
numbered i (x ∷ xs) = (i, x) ∷ numbered (suc i) xs

-- for each row of an answer: the first that is not understood ends the call
unfoldable pub scan_rows : {A B : Type 0} → (A → Outcome B) → List A → Outcome (List B)
scan_rows f [] = ok []
scan_rows f (x ∷ xs) = elim (f x) [
  | ok b ↦ elim (scan_rows f xs) [ ok bs ↦ ok (b ∷ bs) | err e ↦ err e | panic ↦ panic ]
  | err e ↦ err e
  | panic ↦ panic
]
