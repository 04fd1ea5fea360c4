-- ===== src/Database/Agrees.antt =====
-- Calls in two surroundings: a call that ends well where statements may fail does what it does where none fails.
use holdem.Prelude.{
  ◌≡◌, refl, sym, ap, ◌∙◌, ℕ, Bool, false, Bool-cases, inl, inr, List, [], ◌∷◌, Outcome, ok, Error,
}
use holdem.Database.{Env, IsHealthy, SqlOn, query, exec, insert_row, with_tx, ◌>>=◌}
use holdem.Database.Inversion.{>>=-ok, query-ok, exec-ok, with_tx-ok}
use holdem.Database.Tables.Runs.{>>=-run, with_tx-run}
use holdem.Database.Tables.{Table, delete_where, insert_into, for_each}

-- the same surroundings, without failures
abbrev pub calmed : {S T P : Type 0} → Env S T P → Env S T P
calmed env = record env {
  fails = λ s db. false;
  begin_fails = λ db. false;
  commit_fails = λ db. false;
}

pub calmed-IsHealthy : {S T P : Type 0} (env : Env S T P) → IsHealthy (calmed env)
calmed-IsHealthy env = record { runs = λ s db. refl; begins = λ db. refl; commits = λ db. refl }

-- Where the first call ends well, the second does the same.
abbrev pub Agrees : {S A : Type 0} → SqlOn S A → SqlOn S A → Type 0
Agrees {S = S} {A = A} m n = (db : S) (a : A) → (m db).0 ≡ ok a → m db ≡ n db

module _ {S : Type 0} where
  pub >>=-Agrees :
      {A B : Type 0} (m n : SqlOn S A) (f g : A → SqlOn S B)
      → Agrees m n
      → ((a : A) → Agrees (f a) (g a))
      → Agrees (m >>= f) (n >>= g)
  >>=-Agrees m n f g first next db b h =
      let (a, value, goes, ends) = >>=-ok m f db h in
      let same : n db ≡ (ok a, (m db).1) = sym (first db a value) ∙ ap (λ o. (o, (m db).1)) value in
      goes ∙ (next a (m db).1 b ends ∙ sym (>>=-run n g db (m db).1 a same))

  pub for_each-Agrees :
      {A : Type 0} (f g : A → SqlOn S (Unit {0}))
      → ((a : A) → Agrees (f a) (g a))
      → (xs : List A) → Agrees (for_each f xs) (for_each g xs)
  unfolding for_each
  for_each-Agrees f g agree [] db a h = refl
  for_each-Agrees f g agree (x ∷ xs) db a h =
      >>=-Agrees (f x) (g x) _ _ (agree x) (λ u. for_each-Agrees f g agree xs) db a h

module _ {S T P : Type 0} (env : Env S T P) where
  pub query-Agrees :
      {A : Type 0} (s : T) (read : S → A) → Agrees (query env s read) (query (calmed env) s read)
  unfolding query
  query-Agrees s read db a h = query-ok env s read db h

  pub exec-Agrees :
      (s : T) (write : S → ℕ × S) → Agrees (exec env s write) (exec (calmed env) s write)
  unfolding exec
  exec-Agrees s write db a h = exec-ok env s write db h

  pub insert_row-Agrees :
      (s : T) (violated : S → Bool) (e : Error) (write : S → S)
      → Agrees (insert_row env s violated e write) (insert_row (calmed env) s violated e write)
  unfolding insert_row
  insert_row-Agrees s violated e write db a h = elim (Bool-cases (env.fails s db)) [
    | inl broken ↦ absurd (err_ok (rw broken at h))
    | inr good ↦ rw good refl
  ]
    where
      err_ok : {x : Error} → Outcome.err x ≡ ok a → ⊥
      err_ok c = cc

  pub insert_into-Agrees :
      {R : Type 0} (s : T) (t : Table S R) (same : R → R → Bool) (orphan : S → Bool) (r : R)
      → Agrees (insert_into env s t same orphan r) (insert_into (calmed env) s t same orphan r)
  unfolding insert_into
  insert_into-Agrees s t same orphan r = insert_row-Agrees s _ _ _

  pub delete_where-Agrees :
      {R : Type 0} (s : T) (t : Table S R) (test : R → Bool)
      → Agrees (delete_where env s t test) (delete_where (calmed env) s t test)
  unfolding delete_where
  delete_where-Agrees s t test = exec-Agrees s _

  pub with_tx-Agrees :
      (body body' : SqlOn S (Unit {0}))
      → Agrees body body'
      → Agrees (with_tx env body) (with_tx (calmed env) body')
  with_tx-Agrees body body' agree db a h =
      let does = with_tx-ok env body db h in
      let value : (body db).0 ≡ ok a = ap (λ r. r.0) (sym does) ∙ h in
      let same : body' db ≡ (ok a, (body db).1) =
        sym (agree db a value) ∙ ap (λ o. (o, (body db).1)) value in
      does
      ∙ (ap (λ o. (o, (body db).1)) value
          ∙ sym (with_tx-run (calmed env) (calmed-IsHealthy env) body' db (body db).1 a same))
