-- ===== src/Database.antt =====
-- Calls on the tables of a PostgreSQL database, for the repositories of the services: statements that may fail,
-- transactions, and rows as lists. `S` is the type of the tables, `T` that of the statements and `P` that of the ids'
-- prefixes.
pub mod Rows
pub mod Keeps
pub mod Inversion
pub mod Tables
pub mod Selected
pub mod Agrees
pub mod Reads
use holdem.Prelude.{
  ◌≡◌, ℕ, ◌+◌, Bool, true, false, if◌then◌else◌, Option, none, some, List, [], ◌∷◌, Outcome, ok,
  err, panic, Error,
}
use holdem.Prelude.Text.{Bytes}

-- The surroundings of a call: the statements that fail in a state, whether a transaction begins and commits, the time, and
-- the fresh ids, which may depend on all that there is.
pub record Env (S T P : Type 0) : Type 0 where
  pub fails : T → S → Bool
  pub begin_fails : S → Bool
  pub commit_fails : S → Bool
  pub now : ℕ
  pub new_id : P → S → Bytes

-- surroundings where no statement fails and every transaction begins and commits
pub record IsHealthy {S T P : Type 0} (env : Env S T P) : Type 0 where
  pub runs : (s : T) (db : S) → env.fails s db ≡ false
  pub begins : (db : S) → env.begin_fails db ≡ false
  pub commits : (db : S) → env.commit_fails db ≡ false

abbrev pub SqlOn {ℓ} : Type 0 → Type ℓ → Type ℓ
SqlOn S A = S → Outcome A × S

unfoldable pub return {ℓ} : {S : Type 0} {A : Type ℓ} → Outcome A → SqlOn S A
return o db = (o, db)

abbrev pub continue {ℓ κ} :
    {S : Type 0} {A : Type ℓ} {B : Type κ} → (A → SqlOn S B) → Outcome A × S → Outcome B × S
continue f (ok a, db) = f a db
continue f (err e, db) = (err e, db)
continue f (panic, db) = (panic, db)

infixl 5 ◌>>=◌ ◌>>◌
unfoldable pub ◌>>=◌ {ℓ κ} :
    {S : Type 0} {A : Type ℓ} {B : Type κ} → SqlOn S A → (A → SqlOn S B) → SqlOn S B
◌>>=◌ m f db = continue f (m db)

abbrev pub ◌>>◌ {ℓ} : {S : Type 0} {B : Type ℓ} → SqlOn S (Unit {0}) → SqlOn S B → SqlOn S B
m >> k = m >>= λ u. k

-- a statement that reads
unfoldable pub query {ℓ} : {S T P : Type 0} {A : Type ℓ} → Env S T P → T → (S → A) → SqlOn S A
query env s read db =
    if env.fails s db then (err Error.statement_failed, db) else (ok (read db), db)

-- a statement that writes; it gives the number of rows that it affected
unfoldable pub exec : {S T P : Type 0} → Env S T P → T → (S → ℕ × S) → SqlOn S ℕ
exec env s write db =
    if env.fails s db
    then (err Error.statement_failed, db)
    else (let (n, after) = write db in (ok n, after))

abbrev pub close :
    {S T P : Type 0} → Env S T P → S → Outcome (Unit {0}) × S → Outcome (Unit {0}) × S
close env before (ok u, after) =
    if env.commit_fails after then (err Error.commit_failed, before) else (ok u, after)
close env before (err e, after) = (err e, before)
close env before (panic, after) = (panic, before)

-- `withTx`: begin, the function, commit; a rollback in every other case
unfoldable pub with_tx : {S T P : Type 0} → Env S T P → SqlOn S (Unit {0}) → SqlOn S (Unit {0})
with_tx env body db =
    if env.begin_fails db then (err Error.statement_failed, db) else close env db (body db)

-- an INSERT, which a constraint may refuse
unfoldable pub insert_row :
    {S T P : Type 0} → Env S T P → T → (S → Bool) → Error → (S → S) → SqlOn S (Unit {0})
insert_row env s violated e write db =
    if env.fails s db
    then (err Error.statement_failed, db)
    else if violated db
    then (err e, db)
    else (ok tt, write db)

-- the first row that passes a test
abbrev pub find_row {ℓ} : {A : Type ℓ} → (A → Bool) → List A → Option A
find_row test [] = none
find_row test (r ∷ rows) = if test r then some r else find_row test rows

-- UPDATE … WHERE
abbrev pub update_rows {ℓ} : {A : Type ℓ} → (A → Bool) → (A → A) → List A → List A
update_rows test f [] = []
update_rows test f (r ∷ rows) = (if test r then f r else r) ∷ update_rows test f rows

abbrev pub count_rows {ℓ} : {A : Type ℓ} → (A → Bool) → List A → ℕ
count_rows test [] = 0
count_rows test (r ∷ rows) = (if test r then 1 else 0) + count_rows test rows

-- ORDER BY; rows that the order does not part keep their order
unfoldable pub place_row {ℓ} : {A : Type ℓ} → (A → A → Bool) → A → List A → List A
place_row before r [] = r ∷ []
place_row before r (s ∷ rows) = if before r s then r ∷ s ∷ rows else s ∷ place_row before r rows

unfoldable pub order_by {ℓ} : {A : Type ℓ} → (A → A → Bool) → List A → List A
order_by before [] = []
order_by before (r ∷ rows) = place_row before r (order_by before rows)

-- INSERT … ON CONFLICT DO NOTHING
abbrev pub insert_new {ℓ} : {A : Type ℓ} → (A → Bool) → A → List A → List A
insert_new clash r rows = elim (find_row clash rows) [ none ↦ r ∷ rows | some old ↦ rows ]

abbrev pub exists_row {ℓ} : {A : Type ℓ} → (A → Bool) → List A → Bool
exists_row test rows = elim (find_row test rows) [ none ↦ false | some r ↦ true ]
