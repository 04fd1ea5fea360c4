-- ===== src/Database/Reads.antt =====
-- Calls that read the same from two states of the tables.
use holdem.Prelude.{
  ◌≡◌, refl, sym, ap, ◌∙◌, Bool, true, false, not, Bool-cases, inl, inr, List, [], ◌∷◌, ◌++◌,
  keep_if, Outcome, ok, err, panic,
}
use holdem.Database.{Env, IsHealthy, SqlOn, return, continue, query, ◌>>=◌}
use holdem.Database.Tables.Runs.{query-run, append_nil}
use holdem.Database.Selected.{NoRow, keep_if-append, keep_if-NoRow}

-- The call has the same result in both states, and leaves them.
abbrev pub SameRead : {S A : Type 0} → SqlOn S A → S → S → Type 0
SameRead m db db' = ((m db).0 ≡ (m db').0) × (((m db).1 ≡ db) × ((m db').1 ≡ db'))

module _ {S : Type 0} (db db' : S) where
  pub return-SameRead : {A : Type 0} (o : Outcome A) → SameRead (return o) db db'
  unfolding return
  return-SameRead o = (refl, (refl, refl))

  continue-SameRead :
      {A B : Type 0} (f : A → SqlOn S B) (o : Outcome A)
      → ((a : A) → SameRead (f a) db db')
      → ((continue f (o, db)).0 ≡ (continue f (o, db')).0)
        × (((continue f (o, db)).1 ≡ db) × ((continue f (o, db')).1 ≡ db'))
  continue-SameRead f (ok a) next = next a
  continue-SameRead f (err e) next = (refl, (refl, refl))
  continue-SameRead f panic next = (refl, (refl, refl))

  pub >>=-SameRead :
      {A B : Type 0} (m : SqlOn S A) (f : A → SqlOn S B)
      → SameRead m db db'
      → ((a : A) → SameRead (f a) db db')
      → SameRead (m >>= f) db db'
  unfolding ◌>>=◌
  >>=-SameRead m f (same, (stays, stays')) next =
      let here : m db ≡ ((m db').0, db) =
        ap (λ o. (o, (m db).1)) same ∙ ap (λ d. ((m db').0, d)) stays in
      let there : m db' ≡ ((m db').0, db') = ap (λ d. ((m db').0, d)) stays' in
      let goes = continue-SameRead f (m db').0 next in
      (
        ap (λ r. (continue f r).0) here ∙ (goes.0 ∙ ap (λ r. (continue f r).0) (sym there)),
        (ap (λ r. (continue f r).1) here ∙ goes.1.0, ap (λ r. (continue f r).1) there ∙ goes.1.1),
      )

  pub query-SameRead :
      {T P A : Type 0} (env : Env S T P) (healthy : IsHealthy env) (s : T) (read : S → A)
      → read db ≡ read db'
      → SameRead (query env s read) db db'
  query-SameRead env healthy s read same =
      rw (query-run env healthy s read db, query-run env healthy s read db')
        (ap ok same, (refl, refl))

-- What a test selects does not change with rows that it does not select.
pub keep_if-kept :
    {A : Type 0} (test other : A → Bool)
    → ((r : A) → test r ≡ true → other r ≡ false)
    → (rows : List A) → keep_if test (keep_if (λ r. not (other r)) rows) ≡ keep_if test rows
keep_if-kept test other apart [] = refl
keep_if-kept test other apart (r ∷ rows) = elim (Bool-cases (test r)) [
  | inl mine ↦
      rw (keep_if, apart r mine, mine) (ap (λ l. r ∷ l) (keep_if-kept test other apart rows))
  | inr not_mine ↦ elim (Bool-cases (other r)) [
    | inl theirs ↦ rw (keep_if, theirs, not_mine) (keep_if-kept test other apart rows)
    | inr neither ↦ rw (keep_if, neither, not_mine) (keep_if-kept test other apart rows)
  ]
]

pub keep_if-unmoved :
    {A : Type 0} (test other : A → Bool)
    → ((r : A) → test r ≡ true → other r ≡ false)
    → (rows more : List A) → NoRow test more
    → keep_if test (keep_if (λ r. not (other r)) rows ++ more) ≡ keep_if test rows
keep_if-unmoved test other apart rows more none =
    rw (keep_if-append test (keep_if (λ r. not (other r)) rows) more, keep_if-NoRow test more none)
      (append_nil _ ∙ keep_if-kept test other apart rows)
