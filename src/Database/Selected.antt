-- ===== src/Database/Selected.antt =====
-- The rows that a condition selects, after rows were removed and others came, and the order in which they are given.
use holdem.Prelude.{
  ◌≡◌, refl, ap, ℕ, suc, Bool, true, false, not, leb, Bool-cases, inl, inr, List, [], ◌∷◌, ◌++◌,
  map, keep_if, All, Outcome, ok, arith,
}
use holdem.Database.{find_row, exists_row, place_row, order_by}
use holdem.Database.Tables.{numbered, scan_rows}

-- no row passes the test
abbrev pub NoRow : {A : Type 0} → (A → Bool) → List A → Type 0
NoRow test = All (λ r. test r ≡ false)

-- No later entry clashes with an earlier one.
abbrev pub Apart : {A : Type 0} → (A → A → Bool) → List A → Type 0
Apart clash [] = Unit
Apart clash (x ∷ xs) = NoRow (λ y. clash y x) xs × Apart clash xs

module _ {A : Type 0} where
  pub map-All :
      {B : Type 0} (Q : B → Type 0) (f : A → B)
      → ((a : A) → Q (f a))
      → (xs : List A) → All Q (map f xs)
  map-All Q f h [] = tt
  map-All Q f h (x ∷ xs) = (h x, map-All Q f h xs)

  pub All-imp : (P Q : A → Type 0) → ((a : A) → P a → Q a) → (xs : List A) → All P xs → All Q xs
  All-imp P Q h [] a = tt
  All-imp P Q h (x ∷ xs) (p, a) = (h x p, All-imp P Q h xs a)

  pub everywhere : (P : A → Type 0) → ((a : A) → P a) → (xs : List A) → All P xs
  everywhere P h [] = tt
  everywhere P h (x ∷ xs) = (h x, everywhere P h xs)

  pub exists_row-NoRow :
      (test : A → Bool) (rows : List A) → NoRow test rows → exists_row test rows ≡ false
  exists_row-NoRow test [] h = refl
  exists_row-NoRow test (r ∷ rows) (miss, h) =
      rw (exists_row, find_row, miss) (exists_row-NoRow test rows h)

  pub keep_if-NoRow : (test : A → Bool) (rows : List A) → NoRow test rows → keep_if test rows ≡ []
  keep_if-NoRow test [] h = refl
  keep_if-NoRow test (r ∷ rows) (miss, h) = rw (keep_if, miss) (keep_if-NoRow test rows h)

  pub keep_if_every :
      (test : A → Bool) (rows : List A) → All (λ r. test r ≡ true) rows → keep_if test rows ≡ rows
  keep_if_every test [] h = refl
  keep_if_every test (r ∷ rows) (hit, h) =
      rw (keep_if, hit) (ap (λ l. r ∷ l) (keep_if_every test rows h))

  pub keep_if-append :
      (test : A → Bool) (rows more : List A)
      → keep_if test (rows ++ more) ≡ keep_if test rows ++ keep_if test more
  keep_if-append test [] more = refl
  keep_if-append test (r ∷ rows) more = elim (Bool-cases (test r)) [
    | inl hit ↦ rw (keep_if, hit) (ap (λ l. r ∷ l) (keep_if-append test rows more))
    | inr miss ↦ rw (keep_if, miss) (keep_if-append test rows more)
  ]

  -- A deletion leaves no row of those that it deletes.
  pub keep_if-deleted :
      (test : A → Bool) (rows : List A) → NoRow test (keep_if (λ r. not (test r)) rows)
  keep_if-deleted test [] = tt
  keep_if-deleted test (r ∷ rows) = elim (Bool-cases (test r)) [
    | inl hit ↦ rw (keep_if, hit) (keep_if-deleted test rows)
    | inr miss ↦ rw (keep_if, miss) (miss, keep_if-deleted test rows)
  ]

  -- What is selected after a deletion of the same rows and inserts of others.
  pub keep_if-replaced :
      (test : A → Bool) (rows more : List A)
      → All (λ r. test r ≡ true) more
      → keep_if test (keep_if (λ r. not (test r)) rows ++ more) ≡ more
  keep_if-replaced test rows more all =
      rw
        (
          keep_if-append test (keep_if (λ r. not (test r)) rows) more,
          keep_if-NoRow test (keep_if (λ r. not (test r)) rows) (keep_if-deleted test rows),
        )
        (keep_if_every test more all)

  pub place_row-map :
      {B : Type 0} (before : A → A → Bool) (before' : B → B → Bool) (f : A → B)
      → ((a b : A) → before' (f a) (f b) ≡ before a b)
      → (x : A) (xs : List A) → place_row before' (f x) (map f xs) ≡ map f (place_row before x xs)
  unfolding place_row
  place_row-map before before' f h x [] = refl
  place_row-map before before' f h x (y ∷ ys) = elim (Bool-cases (before x y)) [
    | inl first ↦ rw (h x y, first) refl
    | inr later ↦ rw (h x y, later, place_row-map before before' f h x ys) refl
  ]

  pub order_by-map :
      {B : Type 0} (before : A → A → Bool) (before' : B → B → Bool) (f : A → B)
      → ((a b : A) → before' (f a) (f b) ≡ before a b)
      → (xs : List A) → order_by before' (map f xs) ≡ map f (order_by before xs)
  unfolding order_by
  order_by-map before before' f h [] = refl
  order_by-map before before' f h (x ∷ xs) =
      rw (order_by-map before before' f h xs)
        (place_row-map before before' f h x (order_by before xs))

  pub place_row-All :
      (P : A → Type 0) (before : A → A → Bool) (x : A) (xs : List A)
      → P x
      → All P xs
      → All P (place_row before x xs)
  unfolding place_row
  place_row-All P before x [] p a = (p, tt)
  place_row-All P before x (y ∷ ys) p (q, a) = elim (Bool-cases (before x y)) [
    | inl first ↦ rw first (p, (q, a))
    | inr later ↦ rw later (q, place_row-All P before x ys p a)
  ]

  pub order_by-All :
      (P : A → Type 0) (before : A → A → Bool) (xs : List A) → All P xs → All P (order_by before xs)
  unfolding order_by
  order_by-All P before [] a = tt
  order_by-All P before (x ∷ xs) (p, a) =
      place_row-All P before x (order_by before xs) p (order_by-All P before xs a)

  -- Numbered entries are in the order of their numbers.
  pub order_by-numbered :
      {B : Type 0} (before : B → B → Bool) (f : ℕ × A → B)
      → ((i j : ℕ) (a b : A) → before (f (i, a)) (f (j, b)) ≡ leb i j)
      → (i : ℕ) (xs : List A) → order_by before (map f (numbered i xs)) ≡ map f (numbered i xs)
  unfolding order_by place_row
  order_by-numbered before f h i [] = refl
  order_by-numbered before f h i (x ∷ []) = refl
  order_by-numbered before f h i (x ∷ y ∷ ys) =
      let rest = order_by-numbered before f h (suc i) (y ∷ ys) in
      let next : leb i (suc i) ≡ true = ground arith in rw (rest, h i (suc i) x y, next) refl

  -- The rows are understood one by one.
  pub scan_rows-map :
      {B C : Type 0} (scan : B → Outcome C) (f : A → B) (g : A → C)
      → (xs : List A) → All (λ x. scan (f x) ≡ ok (g x)) xs
      → scan_rows scan (map f xs) ≡ ok (map g xs)
  unfolding scan_rows
  scan_rows-map scan f g [] a = refl
  scan_rows-map scan f g (x ∷ xs) (read, a) = rw (read, scan_rows-map scan f g xs a) refl

-- each entry is before the next one
abbrev pub Ascends : {A : Type 0} → (A → A → Bool) → List A → Type 0
Ascends before [] = Unit
Ascends before (x ∷ []) = Unit
Ascends before (x ∷ y ∷ ys) = (before x y ≡ true) × Ascends before (y ∷ ys)

pub order_by-Ascends :
    {A : Type 0} (before : A → A → Bool) (xs : List A) → Ascends before xs → order_by before xs ≡ xs
unfolding order_by place_row
order_by-Ascends before [] a = refl
order_by-Ascends before (x ∷ []) a = refl
order_by-Ascends before (x ∷ y ∷ ys) (first, a) =
    rw (order_by-Ascends before (y ∷ ys) a, first) refl
