-- ===== src/Database/Inversion.antt =====
-- What calls on the tables did when they ended well.
use holdem.Prelude.{
  ℕ, ◌≡◌, ◌≢◌, ◌⊎◌, refl, Bool, true, false, not, Bool-cases, inl, inr, sym, ap, ◌∙◌, Option, none,
  some, Outcome, ok, err, panic, Error, fail_if, or_fail,
}
use holdem.Database.{Env, SqlOn, return, continue, query, exec, insert_row, with_tx, close, ◌>>=◌}

ok_err : {A : Type 0} {a : A} {e : Error} → Outcome.err e ≡ ok a → ⊥
ok_err h = cc

pub ok_value : {A : Type 0} {a b : A} → Outcome.ok a ≡ ok b → a ≡ b
ok_value h = cc

pub not_failed : (b : Bool) (e : Error) {u : Unit {0}} → fail_if b e ≡ ok u → b ≡ false
not_failed true e h = cc
not_failed false e h = refl

pub unnegated : (b : Bool) → not b ≡ false → b ≡ true
unnegated true h = refl
unnegated false h = cc

pub not_missing : {A : Type 0} (o : Option A) (e : Error) {a : A} → or_fail o e ≡ ok a → o ≡ some a
not_missing none e h = cc
not_missing (some x) e h = cc

continue-ok :
    {S A B : Type 0} (f : A → SqlOn S B) (r : Outcome A × S) {b : B}
    → (continue f r).0 ≡ ok b
    → (a : A) × (r.0 ≡ ok a) × (continue f r ≡ f a r.1) × ((f a r.1).0 ≡ ok b)
continue-ok f (ok a, db) h = (a, refl, refl, h)
continue-ok f (err e, db) h = cc
continue-ok f (panic, db) h = cc

-- A sequence that ended well: its first call had a value, and the rest ran on it.
pub >>=-ok :
    {S A B : Type 0} (m : SqlOn S A) (f : A → SqlOn S B) (db : S) {b : B}
    → ((m >>= f) db).0 ≡ ok b
    → (a : A) × ((m db).0 ≡ ok a) × ((m >>= f) db ≡ f a (m db).1) × ((f a (m db).1).0 ≡ ok b)
unfolding ◌>>=◌
>>=-ok m f db h = continue-ok f (m db) h

-- The same, with names for the value and for the tables between the two calls.
pub data Went {S A B : Type 0} (m : SqlOn S A) (f : A → SqlOn S B) (db : S) (b : B) : Type 0 where
  went :
      (a : A) (db' : S)
      → m db ≡ (ok a, db')
      → (m >>= f) db ≡ f a db'
      → (f a db').0 ≡ ok b
      → Went m f db b

pub >>=-Went :
    {S A B : Type 0} (m : SqlOn S A) (f : A → SqlOn S B) (db : S) {b : B}
    → ((m >>= f) db).0 ≡ ok b
    → Went m f db b
>>=-Went m f db h =
    let (a, value, goes, ends) = >>=-ok m f db h in
    went a (m db).1 (ap (λ o. (o, (m db).1)) value) goes ends

pub return-went :
    {S A : Type 0} (o : Outcome A) (db : S) {a : A} {db' : S}
    → return o db ≡ (ok a, db')
    → (o ≡ ok a) × (db' ≡ db)
unfolding return
return-went o db h = (ap (λ r. r.0) h, sym (ap (λ r. r.1) h))

-- A call that only reads a value.
pub >>=-value :
    {S A B : Type 0} (v : S → A) (f : A → SqlOn S B) (db : S)
    → ((λ d. (ok (v d), d)) >>= f) db ≡ f (v db) db
unfolding ◌>>=◌
>>=-value v f db = refl

pub query-ok :
    {S T J A : Type 0} (env : Env S T J) (s : T) (read : S → A) (db : S) {a : A}
    → (query env s read db).0 ≡ ok a
    → query env s read db ≡ (ok (read db), db)
unfolding query
query-ok env s read db h = elim (Bool-cases (env.fails s db)) [
  | inl broken ↦ absurd (ok_err (rw broken at h))
  | inr good ↦ rw good refl
]

pub query-went :
    {S T J A : Type 0} (env : Env S T J) (s : T) (read : S → A) (db : S) {a : A} {db' : S}
    → query env s read db ≡ (ok a, db')
    → (read db ≡ a) × (db' ≡ db)
query-went env s read db h =
    let ran = query-ok env s read db (ap (λ r. r.0) h) in
    let same = sym ran ∙ h in (ok_value (ap (λ r. r.0) same), sym (ap (λ r. r.1) same))

pub exec-ok :
    {S T J : Type 0} (env : Env S T J) (s : T) (write : S → ℕ × S) (db : S) {n : ℕ}
    → (exec env s write db).0 ≡ ok n
    → exec env s write db ≡ (ok (write db).0, (write db).1)
unfolding exec
exec-ok env s write db h = elim (Bool-cases (env.fails s db)) [
  | inl broken ↦ absurd (ok_err (rw broken at h))
  | inr good ↦ rw good refl
]

pub insert_row-ok :
    {S T J : Type 0} (env : Env S T J) (s : T) (violated : S → Bool) (e : Error) (write : S → S)
    (db : S) {u : Unit {0}}
    → (insert_row env s violated e write db).0 ≡ ok u
    → insert_row env s violated e write db ≡ (ok tt, write db)
unfolding insert_row
insert_row-ok env s violated e write db h = elim (Bool-cases (env.fails s db)) [
  | inl broken ↦ absurd (ok_err (rw broken at h))
  | inr good ↦ elim (Bool-cases (violated db)) [
    | inl clash ↦ absurd (ok_err (rw (good, clash) at h))
    | inr apart ↦ rw (good, apart) refl
  ]
]

close-ok :
    {S T J : Type 0} (env : Env S T J) (before : S) (r : Outcome (Unit {0}) × S) {u : Unit {0}}
    → (close env before r).0 ≡ ok u
    → close env before r ≡ r
close-ok env before (ok v, after) h = elim (Bool-cases (env.commit_fails after)) [
  | inl broken ↦ absurd (ok_err (rw broken at h))
  | inr good ↦ rw good refl
]
close-ok env before (err e, after) h = absurd (ok_err h)
close-ok env before (panic, after) h = cc

-- A transaction that ended well did what its body does.
pub with_tx-ok :
    {S T J : Type 0} (env : Env S T J) (body : SqlOn S (Unit {0})) (db : S) {u : Unit {0}}
    → (with_tx env body db).0 ≡ ok u
    → with_tx env body db ≡ body db
unfolding with_tx
with_tx-ok env body db h = elim (Bool-cases (env.begin_fails db)) [
  | inl broken ↦ absurd (ok_err (rw broken at h))
  | inr good ↦ rw good (close-ok env db (body db) (rw good at h))
]

-- A transaction that did not end well left the tables as they were.
pub with_tx-undone :
    {S T J : Type 0} (env : Env S T J) (body : SqlOn S (Unit {0})) (db : S)
    → ((with_tx env body db).0 ≡ ok tt)
      ⊎ (((with_tx env body db).0 ≢ ok tt) × ((with_tx env body db).1 ≡ db))
unfolding with_tx
with_tx-undone {S = S} env body db = elim (Bool-cases (env.begin_fails db)) [
  | inl broken ↦ rw broken (inr ((λ h. cc), refl))
  | inr good ↦ rw good (closed (body db))
]
  where
    closed :
        (r : Outcome (Unit {0}) × S)
        → ((close env db r).0 ≡ ok tt) ⊎ (((close env db r).0 ≢ ok tt) × ((close env db r).1 ≡ db))
    closed (ok u, after) = elim (Bool-cases (env.commit_fails after)) [
      | inl broken ↦ rw (close, broken) (inr ((λ h. cc), refl))
      | inr good ↦ rw (close, good) (inl refl)
    ]
    closed (err e, after) = inr ((λ h. cc), refl)
    closed (panic, after) = inr ((λ h. cc), refl)
