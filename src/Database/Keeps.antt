-- ===== src/Database/Keeps.antt =====
-- Calls on the tables that keep a property of the tables, however they end, and calls that keep it where they end well.
use holdem.Prelude.{
  ◌≡◌, Bool, true, false, Bool-cases, if◌then◌else◌, inl, inr, Outcome, ok, err, panic, Error, ℕ,
}
use holdem.Database.{Env, SqlOn, return, continue, query, exec, insert_row, with_tx, close, ◌>>=◌}

-- the property in the tables that a call leaves
abbrev pub After {ℓ} : {S : Type 0} {A : Type ℓ} → (S → Type 0) → Outcome A × S → Type 0
After P r = P r.1

-- the same, where the call ended well
abbrev pub AfterOk {ℓ} : {S : Type 0} {A : Type ℓ} → (S → Type 0) → Outcome A × S → Type 0
AfterOk P (ok a, db) = P db
AfterOk P (err e, db) = Unit
AfterOk P (panic, db) = Unit

abbrev pub Keeps {ℓ} : {S : Type 0} {A : Type ℓ} → (S → Type 0) → SqlOn S A → Type 0
Keeps {S = S} P m = (db : S) → P db → P (m db).1

abbrev pub KeepsOk {ℓ} : {S : Type 0} {A : Type ℓ} → (S → Type 0) → SqlOn S A → Type 0
KeepsOk {S = S} P m = (db : S) → P db → AfterOk P (m db)

module _ {S : Type 0} (P : S → Type 0) where
  pub continue-After {ℓ κ} :
      {A : Type ℓ} {B : Type κ} (f : A → SqlOn S B)
      → ((a : A) → Keeps P (f a))
      → (r : Outcome A × S) → P r.1
      → P (continue f r).1
  continue-After f keep (ok a, db) p = keep a db p
  continue-After f keep (err e, db) p = p
  continue-After f keep (panic, db) p = p

  pub continue-AfterOk {ℓ κ} :
      {A : Type ℓ} {B : Type κ} (f : A → SqlOn S B)
      → ((a : A) → KeepsOk P (f a))
      → (r : Outcome A × S) → AfterOk P r
      → AfterOk P (continue f r)
  continue-AfterOk f keep (ok a, db) p = keep a db p
  continue-AfterOk f keep (err e, db) p = tt
  continue-AfterOk f keep (panic, db) p = tt

  -- a sequence of two calls
  pub >>=-Keeps {ℓ κ} :
      {A : Type ℓ} {B : Type κ} (m : SqlOn S A) (f : A → SqlOn S B)
      → Keeps P m
      → ((a : A) → Keeps P (f a))
      → Keeps P (m >>= f)
  unfolding ◌>>=◌
  >>=-Keeps m f first next db p = continue-After f next (m db) (first db p)

  pub >>=-KeepsOk {ℓ κ} :
      {A : Type ℓ} {B : Type κ} (m : SqlOn S A) (f : A → SqlOn S B)
      → KeepsOk P m
      → ((a : A) → KeepsOk P (f a))
      → KeepsOk P (m >>= f)
  unfolding ◌>>=◌
  >>=-KeepsOk m f first next db p = continue-AfterOk f next (m db) (first db p)

  pub return-Keeps {ℓ} : {A : Type ℓ} (o : Outcome A) → Keeps P (return o)
  unfolding return
  return-Keeps o db p = p

  pub Keeps→Ok {ℓ} : {A : Type ℓ} (m : SqlOn S A) → Keeps P m → KeepsOk P m
  Keeps→Ok {A = A} m keep db p = weaken (m db) (keep db p)
    where
      weaken : (r : Outcome A × S) → P r.1 → AfterOk P r
      weaken (ok a, after) q = q
      weaken (err e, after) q = tt
      weaken (panic, after) q = tt

  pub query-Keeps {ℓ} :
      {T J : Type 0} {A : Type ℓ} (env : Env S T J) (s : T) (read : S → A)
      → Keeps P (query env s read)
  unfolding query
  query-Keeps env s read db p = elim (Bool-cases (env.fails s db)) [
    | inl broken ↦ rw broken p
    | inr good ↦ rw good p
  ]

  pub exec-Keeps :
      {T J : Type 0} (env : Env S T J) (s : T) (write : S → ℕ × S)
      → ((db : S) → P db → P (write db).1)
      → Keeps P (exec env s write)
  unfolding exec
  exec-Keeps env s write keep db p = elim (Bool-cases (env.fails s db)) [
    | inl broken ↦ rw broken p
    | inr good ↦ rw good (keep db p)
  ]

  pub insert_row-Keeps :
      {T J : Type 0} (env : Env S T J) (s : T) (violated : S → Bool) (e : Error) (write : S → S)
      → ((db : S) → P db → P (write db))
      → Keeps P (insert_row env s violated e write)
  unfolding insert_row
  insert_row-Keeps env s violated e write keep db p = elim (Bool-cases (env.fails s db)) [
    | inl broken ↦ rw broken p
    | inr good ↦ elim (Bool-cases (violated db)) [
      | inl clash ↦ rw (good, clash) p
      | inr apart ↦ rw (good, apart) (keep db p)
    ]
  ]

  -- an insert, whose rows are new where it writes
  pub insert_row-Keeps_new :
      {T J : Type 0} (env : Env S T J) (s : T) (violated : S → Bool) (e : Error) (write : S → S)
      → ((db : S) → violated db ≡ false → P db → P (write db))
      → Keeps P (insert_row env s violated e write)
  unfolding insert_row
  insert_row-Keeps_new env s violated e write keep db p = elim (Bool-cases (env.fails s db)) [
    | inl broken ↦ rw broken p
    | inr good ↦ elim (Bool-cases (violated db)) [
      | inl clash ↦ rw (good, clash) p
      | inr apart ↦ rw (good, apart) (keep db apart p)
    ]
  ]

  pub if-Keeps {ℓ} :
      {A : Type ℓ} (c : Bool) (m n : SqlOn S A)
      → Keeps P m
      → Keeps P n
      → Keeps P (if c then m else n)
  if-Keeps true m n first second = first
  if-Keeps false m n first second = second

  pub if-KeepsOk {ℓ} :
      {A : Type ℓ} (c : Bool) (m n : SqlOn S A)
      → KeepsOk P m
      → KeepsOk P n
      → KeepsOk P (if c then m else n)
  if-KeepsOk true m n first second = first
  if-KeepsOk false m n first second = second

  -- A transaction keeps what its body keeps where it ends well.
  pub with_tx-Keeps :
      {T J : Type 0} (env : Env S T J) (body : SqlOn S (Unit {0}))
      → KeepsOk P body
      → Keeps P (with_tx env body)
  unfolding with_tx
  with_tx-Keeps env body keep db p = elim (Bool-cases (env.begin_fails db)) [
    | inl broken ↦ rw broken p
    | inr good ↦ rw good (closed (body db) (keep db p))
  ]
    where
      closed : (r : Outcome (Unit {0}) × S) → AfterOk P r → P (close env db r).1
      closed (ok u, after) q = elim (Bool-cases (env.commit_fails after)) [
        | inl broken ↦ rw broken p
        | inr good ↦ rw good q
      ]
      closed (err e, after) q = p
      closed (panic, after) q = p

  -- A transaction that ends well ends as its body.
  pub with_tx-AfterOk :
      {T J : Type 0} (env : Env S T J) (body : SqlOn S (Unit {0})) (db : S)
      → AfterOk P (body db)
      → AfterOk P (with_tx env body db)
  unfolding with_tx
  with_tx-AfterOk env body db p = elim (Bool-cases (env.begin_fails db)) [
    | inl broken ↦ rw broken tt
    | inr good ↦ rw good (closed (body db) p)
  ]
    where
      closed : (r : Outcome (Unit {0}) × S) → AfterOk P r → AfterOk P (close env db r)
      closed (ok u, after) q = elim (Bool-cases (env.commit_fails after)) [
        | inl broken ↦ rw broken tt
        | inr good ↦ rw good q
      ]
      closed (err e, after) q = tt
      closed (panic, after) q = tt
