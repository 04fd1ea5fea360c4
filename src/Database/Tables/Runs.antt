-- ===== src/Database/Tables/Runs.antt =====
-- Statements where none fails, and loops of inserts into a table whose keys are free.
use holdem.Prelude.{
  ◌≡◌, refl, sym, ap, ◌∙◌, ℕ, Bool, false, ◌||◌, not, List, [], ◌∷◌, ◌++◌, map, keep_if, All,
  All-append, ok, Error,
}
use holdem.Database.{
  Env, IsHealthy, SqlOn, return, query, exec, insert_row, with_tx, exists_row, count_rows, ◌>>=◌,
}
use holdem.Database.Tables.{Table, IsTable, delete_where, insert_into, for_each}
use holdem.Database.Selected.{NoRow, Apart, exists_row-NoRow, All-imp, everywhere, keep_if-deleted}

pub append_assoc : {A : Type 0} (xs ys zs : List A) → (xs ++ ys) ++ zs ≡ xs ++ (ys ++ zs)
append_assoc [] ys zs = refl
append_assoc (x ∷ xs) ys zs = ap (λ l. x ∷ l) (append_assoc xs ys zs)

pub append_nil : {A : Type 0} (xs : List A) → xs ++ [] ≡ xs
append_nil [] = refl
append_nil (x ∷ xs) = ap (λ l. x ∷ l) (append_nil xs)

-- A call that ends well goes on with the next one.
pub >>=-run :
    {S A B : Type 0} (m : SqlOn S A) (f : A → SqlOn S B) (db db' : S) (a : A)
    → m db ≡ (ok a, db')
    → (m >>= f) db ≡ f a db'
unfolding ◌>>=◌
>>=-run m f db db' a h = rw h refl

module _ {S T P : Type 0} (env : Env S T P) (healthy : IsHealthy env) where
  pub query-run :
      {A : Type 0} (s : T) (read : S → A) (db : S) → query env s read db ≡ (ok (read db), db)
  unfolding query
  query-run s read db = rw (healthy.runs s db) refl

  pub exec-run :
      (s : T) (write : S → ℕ × S) (db : S) → exec env s write db ≡ (ok (write db).0, (write db).1)
  unfolding exec
  exec-run s write db = rw (healthy.runs s db) refl

  pub insert_row-run :
      (s : T) (violated : S → Bool) (e : Error) (write : S → S) (db : S)
      → violated db ≡ false
      → insert_row env s violated e write db ≡ (ok tt, write db)
  unfolding insert_row
  insert_row-run s violated e write db fine = rw (healthy.runs s db, fine) refl

  pub with_tx-run :
      (body : SqlOn S (Unit {0})) (db after : S) (a : Unit {0})
      → body db ≡ (ok a, after)
      → with_tx env body db ≡ (ok a, after)
  unfolding with_tx
  with_tx-run body db after a h = rw (healthy.begins db, h, healthy.commits after) refl

  pub delete_where-run :
      {R : Type 0} (s : T) (t : Table S R) (test : R → Bool) (db : S)
      → delete_where env s t test db
        ≡ (ok (count_rows test (t.rows db)), t.write (keep_if (λ r. not (test r)) (t.rows db)) db)
  unfolding delete_where exec
  delete_where-run s t test db = rw (healthy.runs s db) refl

module _ {S R : Type 0} (t : Table S R) (lawful : IsTable t) where
  -- One row, and then the rows of the other entries.
  write-next :
      {A : Type 0} (f : A → R) (x : A) (xs : List A) (db : S)
      → let db' = t.write (t.rows db ++ f x ∷ []) db in
        t.write (t.rows db' ++ map f xs) db' ≡ t.write (t.rows db ++ map f (x ∷ xs)) db
  write-next f x xs db =
      rw
        (
          lawful.rows-write (t.rows db ++ f x ∷ []) db,
          append_assoc (t.rows db) (f x ∷ []) (map f xs),
        )
        (lawful.write-write _ _ db)

  write-nothing : (db : S) → t.write (t.rows db ++ []) db ≡ db
  write-nothing db = rw (append_nil (t.rows db)) (lawful.write-rows db)

  module _ {T P A : Type 0} (env : Env S T P) (s : T) (same : R → R → Bool) (orphan : S → Bool)
      (f : A → R) where
    -- The keys of the other entries are free after an insert.
    still_free :
        (x : A) (xs : List A) (rows : List R)
        → All (λ y. NoRow (same (f y)) rows) xs
        → NoRow (λ y. same (f y) (f x)) xs
        → All (λ y. NoRow (same (f y)) (rows ++ f x ∷ [])) xs
    still_free x [] rows free apart = tt
    still_free x (y ∷ ys) rows (free, others) (apart, later) = (
      All-append (λ o. same (f y) o ≡ false) rows (f x ∷ []) free (apart, tt),
      still_free x ys rows others later,
    )

    -- Where no statement fails and no key is taken, the inserts go well.
    pub insert_each-run :
        IsHealthy env
        → (xs : List A) (db : S) → ((rs : List R) → orphan (t.write rs db) ≡ false)
        → All (λ x. NoRow (same (f x)) (t.rows db)) xs
        → Apart (λ y x. same (f y) (f x)) xs
        → for_each (λ x. insert_into env s t same orphan (f x)) xs db
          ≡ (ok tt, t.write (t.rows db ++ map f xs) db)
    unfolding for_each return insert_into
    insert_each-run healthy [] db held free apart = rw (write-nothing db) refl
    insert_each-run healthy (x ∷ xs) db held (free, others) (apart, later) =
        let db' = t.write (t.rows db ++ f x ∷ []) db in
        let kept : orphan db ≡ false = ap orphan (sym (lawful.write-rows db)) ∙ held (t.rows db) in
        let fine : (exists_row (same (f x)) (t.rows db) || orphan db) ≡ false =
          rw (exists_row-NoRow (same (f x)) (t.rows db) free) kept in
        let rest =
          insert_each-run healthy xs db' (λ rs. ap orphan (lawful.write-write rs _ db) ∙ held rs)
            (rw (lawful.rows-write (t.rows db ++ f x ∷ []) db)
              (still_free x xs (t.rows db) others apart))
            later in
        >>=-run (insert_into env s t same orphan (f x)) _ db db' tt
          (insert_row-run env healthy s _ _ _ db fine)
        ∙ (rest ∙ ap (λ d. (ok tt, d)) (write-next f x xs db))

    -- The rows that a test selects are replaced by those of the entries.
    pub replace_each-run :
        IsHealthy env
        → (deletes : T) (test : R → Bool) (xs : List A) (db : S)
        → ((rs : List R) → orphan (t.write rs db) ≡ false)
        → ((x : A) (o : R) → test o ≡ false → same (f x) o ≡ false)
        → Apart (λ y x. same (f y) (f x)) xs
        → (delete_where env deletes t test >>= λ n.
              for_each (λ x. insert_into env s t same orphan (f x)) xs)
            db
          ≡ (ok tt, t.write (keep_if (λ r. not (test r)) (t.rows db) ++ map f xs) db)
    replace_each-run healthy deletes test xs db held outside apart =
        let kept = keep_if (λ r. not (test r)) (t.rows db) in
        let run =
          insert_each-run healthy xs (t.write kept db)
            (λ rs. ap orphan (lawful.write-write rs kept db) ∙ held rs)
            (rw (lawful.rows-write kept db) (
              everywhere _ (λ x. All-imp _ _ (outside x) kept (keep_if-deleted test (t.rows db)))
                xs))
            apart in
        >>=-run (delete_where env deletes t test) _ db (t.write kept db) _
          (delete_where-run env healthy deletes t test db)
        ∙ (run
            ∙ ap (λ d. (ok tt, d))
                (rw (lawful.rows-write kept db) (lawful.write-write (kept ++ map f xs) kept db)))
