-- ===== src/Prelude/Dict.antt =====
-- A Go map from player ids, as an association list. The list's order has no meaning: where the
-- source ranges over a map, the model takes the order of the visit as a parameter.
use Prim.Native.Nat.{ℕ, ◌+◌}
use mathlib.Core.Path.{◌≡◌, refl}
use mathlib.Core.List.{List, [], ◌∷◌}
use mathlib.Core.Option.{Option, none, some}
use native.Mathlib.Omega.{arith}
use holdem.Prelude.Tests.{◌==◌, if◌then◌else◌}
use holdem.Prelude.Lists.{sum_of}

abbrev pub Dict {ℓ} : Type ℓ → Type ℓ
Dict V = List (ℕ × V)

module _ {ℓ} {V : Type ℓ} where
  -- `v, ok := m[k]`
  abbrev pub lookup : ℕ → Dict V → Option V
  lookup k [] = none
  lookup k ((j, v) ∷ m) = if j == k then some v else lookup k m

  -- `m[k] = v`
  abbrev pub insert : ℕ → V → Dict V → Dict V
  insert k v [] = (k, v) ∷ []
  insert k v ((j, w) ∷ m) = if j == k then (k, v) ∷ m else (j, w) ∷ insert k v m

  abbrev pub keys : Dict V → List ℕ
  keys [] = []
  keys ((k, v) ∷ m) = k ∷ keys m

  pub lookup-insert :
      (k j : ℕ) (v : V) (m : Dict V)
      → lookup j (insert k v m) ≡ (if k == j then some v else lookup j m)
  lookup-insert k j v [] = refl
  lookup-insert k j v ((i, w) ∷ m) = ground (arith, lookup-insert k j v m)

-- The sum of the values.
abbrev pub total : Dict ℕ → ℕ
total = sum_of (λ e. e.1)

-- `m[k]`, which reads a missing key as zero.
abbrev pub get_or : ℕ → Dict ℕ → ℕ
get_or k m = elim (lookup k m) [ none ↦ 0 | some v ↦ v ]

-- `m[k] += n`
abbrev pub add_to : ℕ → ℕ → Dict ℕ → Dict ℕ
add_to k n m = insert k (get_or k m + n) m

pub total-insert_new :
    (k v : ℕ) (m : Dict ℕ) → lookup k m ≡ none → total (insert k v m) ≡ total m + v
total-insert_new k v [] h = omega arith
total-insert_new k v ((j, w) ∷ m) h = ground (arith, total-insert_new k v m)

pub total-insert :
    (k v old : ℕ) (m : Dict ℕ) → lookup k m ≡ some old → total (insert k v m) + old ≡ total m + v
total-insert k v old [] h = cc
total-insert k v old ((j, w) ∷ m) h = ground (arith, total-insert k v old m)

-- Adding to one key adds as much to the sum.
pub total-add_to : (k n : ℕ) (m : Dict ℕ) → total (add_to k n m) ≡ total m + n
total-add_to k n [] = omega arith
total-add_to k n ((j, w) ∷ m) = ground (arith, total-add_to k n m)

pub lookup-add_to :
    (k j n : ℕ) (m : Dict ℕ)
    → get_or j (add_to k n m) ≡ (if k == j then get_or j m + n else get_or j m)
lookup-add_to k j n m = ground (arith, lookup-insert k j (get_or k m + n) m)
