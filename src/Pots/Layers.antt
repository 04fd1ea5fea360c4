-- ===== src/Pots/Layers.antt =====
-- One round of `Calculate`: the least contribution, and what is left when it is taken from each.
use holdem.Prelude.{
  ℕ, suc, ◌+◌, ◌-◌, ◌*◌, ◌≤◌, ◌<◌, ◌≡◌, refl, Bool, true, false, ◌==◌, ◌||◌, Bool-cases, inl, inr,
  List, [], ◌∷◌, length, All, arith, none,
}
use holdem.Prelude.Dict.{Dict, total, keys, lookup, get_or}
use holdem.Game.{PlayerId}
use holdem.Pots.{positive, least, min_contrib, deduct}

-- all amounts are above zero; all are at least m
abbrev pub Positive : Dict ℕ → Type 0
Positive = All (λ e. 0 < e.1)

abbrev pub AtLeast : ℕ → Dict ℕ → Type 0
AtLeast m = All (λ e. m ≤ e.1)

abbrev pub member : PlayerId → List PlayerId → Bool
member k [] = false
member k (j ∷ js) = j == k || member k js

-- a map holds a key once
abbrev pub DistinctKeys : Dict ℕ → Type 0
DistinctKeys [] = Unit
DistinctKeys ((k, n) ∷ r) = (lookup k r ≡ none) × DistinctKeys r

pub positive-Positive : (r : Dict ℕ) → Positive (positive r)
positive-Positive [] = tt
positive-Positive ((k, n) ∷ r) = ground (arith, positive-Positive r)

pub total-positive : (r : Dict ℕ) → total (positive r) ≡ total r
total-positive [] = refl
total-positive ((k, n) ∷ r) = ground (arith, total-positive r)

pub get_or-positive :
    (k : PlayerId) (r : Dict ℕ) → DistinctKeys r → get_or k (positive r) ≡ get_or k r
get_or-positive k [] d = refl
get_or-positive k ((j, n) ∷ r) d = ground (arith, get_or-positive k r d.1)

least-le : (m : ℕ) (r : Dict ℕ) → least m r ≤ m
least-le m [] = omega arith
least-le m ((k, n) ∷ r) = ground (arith, least-le n r, least-le m r)

AtLeast-mono : (a b : ℕ) (r : Dict ℕ) → a ≤ b → AtLeast b r → AtLeast a r
AtLeast-mono a b [] h q = tt
AtLeast-mono a b (e ∷ r) h q = (omega arith, AtLeast-mono a b r h q.1)

least-AtLeast : (m : ℕ) (r : Dict ℕ) → AtLeast (least m r) r
least-AtLeast m [] = tt
least-AtLeast m ((k, n) ∷ r) =
    ground (arith, least-le n r, least-le m r, least-AtLeast n r, least-AtLeast m r)

pub min_contrib-AtLeast : (e : PlayerId × ℕ) (r : Dict ℕ) → AtLeast (min_contrib (e ∷ r)) (e ∷ r)
min_contrib-AtLeast (k, n) r = (least-le n r, least-AtLeast n r)

pub least_pos : (m : ℕ) (r : Dict ℕ) → 0 < m → Positive r → 0 < least m r
least_pos m [] h p = h
least_pos m ((k, n) ∷ r) h p = ground (arith, least_pos n r p.0 p.1, least_pos m r h p.1)

length-deduct-le : (m : ℕ) (r : Dict ℕ) → length (deduct m r) ≤ length r
length-deduct-le m [] = omega arith
length-deduct-le m ((k, n) ∷ r) = ground (arith, length-deduct-le m r)

-- The least amount is one of the amounts, so that its player is removed.
length-deduct-lt :
    (a m : ℕ) (k : PlayerId) (r : Dict ℕ)
    → least a r ≡ m
    → length (deduct m ((k, a) ∷ r)) < suc (length r)
length-deduct-lt a m k [] h = ground arith
length-deduct-lt a m k ((j, n) ∷ r) h =
    ground (arith, length-deduct-lt n m k r, length-deduct-lt a m k r, length-deduct-le m r)

pub length-deduct_round :
    (e : PlayerId × ℕ) (r : Dict ℕ) → length (deduct (min_contrib (e ∷ r)) (e ∷ r)) ≤ length r
length-deduct_round (k, n) r = omega (arith, length-deduct-lt n (least n r) k r refl)

pub deduct-Positive : (m : ℕ) (r : Dict ℕ) → Positive (deduct m r)
deduct-Positive m [] = tt
deduct-Positive m ((k, n) ∷ r) = ground (arith, deduct-Positive m r)

pub total-deduct : (m : ℕ) (r : Dict ℕ) → AtLeast m r → total r ≡ m * length r + total (deduct m r)
total-deduct m [] h = omega arith
total-deduct m ((k, n) ∷ r) h = elim (Bool-cases (n - m == 0)) [
  | inl gone ↦ rw (gone, deduct) (ground (arith, total-deduct m r h.1))
  | inr left ↦ rw (left, deduct) (ground (arith, total-deduct m r h.1))
]

lookup-deduct-none :
    (k : PlayerId) (m : ℕ) (r : Dict ℕ) → lookup k r ≡ none → lookup k (deduct m r) ≡ none
lookup-deduct-none k m [] h = refl
lookup-deduct-none k m ((j, n) ∷ r) h = ground (arith, lookup-deduct-none k m r)

pub deduct-DistinctKeys : (m : ℕ) (r : Dict ℕ) → DistinctKeys r → DistinctKeys (deduct m r)
deduct-DistinctKeys m [] d = tt
deduct-DistinctKeys m ((k, n) ∷ r) d =
    ground (arith, deduct-DistinctKeys m r d.1, lookup-deduct-none k m r d.0)

-- The contribution of each player falls by the least one, and to zero if he is gone.
pub get_or-deduct :
    (k : PlayerId) (m : ℕ) (r : Dict ℕ) → DistinctKeys r → get_or k (deduct m r) ≡ get_or k r - m
get_or-deduct k m [] d = omega arith
get_or-deduct k m ((j, n) ∷ r) d =
    ground (arith, get_or-deduct k m r d.1, lookup-deduct-none j m r d.0)

lookup-positive-none :
    (k : PlayerId) (r : Dict ℕ) → lookup k r ≡ none → lookup k (positive r) ≡ none
lookup-positive-none k [] h = refl
lookup-positive-none k ((j, n) ∷ r) h = ground (arith, lookup-positive-none k r)

pub positive-DistinctKeys : (r : Dict ℕ) → DistinctKeys r → DistinctKeys (positive r)
positive-DistinctKeys [] d = tt
positive-DistinctKeys ((k, n) ∷ r) d =
    ground (arith, positive-DistinctKeys r d.1, lookup-positive-none k r d.0)

-- A listed player has contributed at least the least amount, and nobody else anything.
pub get_or-le :
    (k : PlayerId) (m : ℕ) (r : Dict ℕ)
    → AtLeast m r
    → (member k (keys r) ≡ true → m ≤ get_or k r) × (member k (keys r) ≡ false → get_or k r ≡ 0)
get_or-le k m [] h = (λ e. cc, λ e. refl)
get_or-le k m ((j, n) ∷ r) h =
    let (at_least, nothing) = get_or-le k m r h.1 in
    (λ e. ground (arith, at_least), λ e. ground (arith, nothing))
