-- ===== src/Storage/Saved/Keys.antt =====
-- Keys of rows that do not clash, for the repository of services/engine.
use holdem.Prelude.{
  ◌≡◌, refl, inl, inr, ℕ, suc, ◌≤◌, ◌<◌, Bool, true, false, ◌&&◌, Bool-cases, ◌==◌, List, [], ◌∷◌,
  All, arith,
}
use holdem.Database.{exists_row, find_row}
use holdem.Database.Selected.{Apart, All-imp}
use holdem.Database.Tables.{numbered}
use holdem.Storage.{GameRow}
use holdem.Storage.Repository.{is_game, upsert_game}

pub eq_refl : (n : ℕ) → (n == n) ≡ true
eq_refl n = ground arith

pub Apart-map :
    {A B : Type 0} (clash : A → A → Bool) (clash' : B → B → Bool) (f : A → B)
    → ((x y : A) → clash x y ≡ false → clash' (f x) (f y) ≡ false)
    → (xs : List A) → Apart clash xs
    → Apart (λ x y. clash' (f x) (f y)) xs
Apart-map clash clash' f h [] a = tt
Apart-map clash clash' f h (x ∷ xs) (apart, later) =
    (All-imp _ _ (λ y. h y x) xs apart, Apart-map clash clash' f h xs later)

-- A saved hand has a row.
pub exists_row-upsert_game :
    (row : GameRow) (rows : List GameRow)
    → exists_row (is_game row.id) (upsert_game row rows) ≡ true
exists_row-upsert_game row [] = rw (exists_row, find_row, eq_refl row.id) refl
exists_row-upsert_game row (r ∷ rows) = elim (Bool-cases (r.id == row.id)) [
  | inl same ↦ rw (upsert_game, same, exists_row, find_row, eq_refl row.id) refl
  | inr other ↦
      rw (upsert_game, other, exists_row, find_row, other) (exists_row-upsert_game row rows)
]

-- numbers from one on are not below it
numbered-above : {A : Type 0} (i : ℕ) (xs : List A) → All (λ (x : ℕ × A). i ≤ x.0) (numbered i xs)
numbered-above i [] = tt
numbered-above {A = A} i (x ∷ xs) = (
  omega arith,
  All-imp (λ (y : ℕ × A). suc i ≤ y.0) (λ y. i ≤ y.0) (λ y h. omega (arith, h))
      (numbered (suc i) xs) (numbered-above (suc i) xs),
)

-- Numbered rows of a hand do not clash.
pub numbered-Apart :
    {A R : Type 0} (same : R → R → Bool) (f : ℕ × A → R)
    → ((i j : ℕ) (a b : A) → i < j → same (f (j, b)) (f (i, a)) ≡ false)
    → (i : ℕ) (xs : List A) → Apart (λ y x. same (f y) (f x)) (numbered i xs)
numbered-Apart same f h i [] = tt
numbered-Apart same f h i (x ∷ xs) = (
  All-imp _ _ (λ y above. h i y.0 x y.1 above) (numbered (suc i) xs) (numbered-above (suc i) xs),
  numbered-Apart same f h (suc i) xs,
)

pub other_number : (h i j : ℕ) → i < j → (h == h && i == j) ≡ false
other_number h i j less = ground arith

pub neither : (a b c : Bool) → (a && b) ≡ false → (a && (b && c)) ≡ false
neither true true c h = cc
neither true false c h = refl
neither false b c h = refl

pub no_hand : (b c : Bool) → b ≡ false → (b && c) ≡ false
no_hand b c h = rw h refl
