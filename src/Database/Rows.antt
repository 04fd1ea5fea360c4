-- ===== src/Database/Rows.antt =====
-- Rows that are looked up, updated and counted by a test.
use holdem.Prelude.{
  ◌≡◌, refl, ℕ, ◌+◌, Bool, true, false, Bool-cases, inl, inr, none, some, List, [], ◌∷◌, arith,
}
use holdem.Database.{find_row, exists_row, update_rows, count_rows}

-- A test that finds no row counts none.
pub count_rows-none {ℓ} :
    {A : Type ℓ} (test : A → Bool) (rows : List A)
    → find_row test rows ≡ none
    → count_rows test rows ≡ 0
count_rows-none test [] h = refl
count_rows-none test (r ∷ rows) h = elim (Bool-cases (test r)) [
  | inl hit ↦ absurd (some_none (rw hit at h))
  | inr miss ↦ let rest = count_rows-none test rows (rw miss at h) in rw (miss, rest) refl
]
  where
    some_none : some r ≡ none → ⊥
    some_none e = cc

-- An update whose rows then fail its test leaves none that pass.
pub count_rows-update_rows {ℓ} :
    {A : Type ℓ} (test : A → Bool) (f : A → A) (rows : List A)
    → ((r : A) → test r ≡ true → test (f r) ≡ false)
    → count_rows test (update_rows test f rows) ≡ 0
count_rows-update_rows test f [] out = refl
count_rows-update_rows test f (r ∷ rows) out = elim (Bool-cases (test r)) [
  | inl hit ↦ let rest = count_rows-update_rows test f rows out in rw (hit, out r hit, rest) refl
  | inr miss ↦ let rest = count_rows-update_rows test f rows out in rw (miss, miss, rest) refl
]

-- An update without rows that pass its test changes nothing.
pub update_rows-none {ℓ} :
    {A : Type ℓ} (test : A → Bool) (f : A → A) (rows : List A)
    → count_rows test rows ≡ 0
    → update_rows test f rows ≡ rows
update_rows-none test f [] none_left = refl
update_rows-none test f (r ∷ rows) none_left = elim (Bool-cases (test r)) [
  | inl hit ↦ absurd (one_more (count_rows test rows) (rw hit at none_left))
  | inr miss ↦
      let rest : count_rows test rows ≡ 0 = less (count_rows test rows) (rw miss at none_left) in
      rw (miss, update_rows-none test f rows rest) refl
]
  where
    one_more : (n : ℕ) → 1 + n ≡ 0 → ⊥
    one_more n h = omega (arith, h)

    less : (n : ℕ) → 0 + n ≡ 0 → n ≡ 0
    less n h = omega (arith, h)

-- An update that another test does not see.
pub exists_row-update_rows :
    {A : Type 0} (other test : A → Bool) (f : A → A)
    → ((r : A) → other (f r) ≡ other r)
    → (rows : List A) → exists_row other (update_rows test f rows) ≡ exists_row other rows
exists_row-update_rows other test f same [] = refl
exists_row-update_rows other test f same (r ∷ rows) = elim (Bool-cases (test r)) [
  | inl hit ↦ elim (Bool-cases (other r)) [
    | inl found ↦ rw (update_rows, hit, exists_row, find_row, same r, found) refl
    | inr none_here ↦
        rw (update_rows, hit, exists_row, find_row, same r, none_here)
          (exists_row-update_rows other test f same rows)
  ]
  | inr miss ↦ elim (Bool-cases (other r)) [
    | inl found ↦ rw (update_rows, miss, exists_row, find_row, found) refl
    | inr none_here ↦
        rw (update_rows, miss, exists_row, find_row, none_here)
          (exists_row-update_rows other test f same rows)
  ]
]
