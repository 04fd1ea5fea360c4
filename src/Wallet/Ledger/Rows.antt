-- ===== src/Wallet/Ledger/Rows.antt =====
-- Rows that are looked up, updated and counted by the texts that they carry.
use holdem.Prelude.{◌≡◌, refl, true, false, Bool-cases, inl, inr, some, List, [], ◌∷◌}
use holdem.Prelude.Text.{Bytes, bytes_eq, bytes_eq→eq}
use holdem.Wallet.{Balance}
use holdem.Database.{find_row, update_rows}
use holdem.Wallet.Repository.{owns_balance}

-- Other users' updates leave a user's row alone.
pub find_row-other :
    (u v : Bytes) (f : Balance → Balance) (bs : List Balance)
    → ((b : Balance) → (f b).user_id ≡ b.user_id)
    → bytes_eq v u ≡ false
    → find_row (owns_balance u) (update_rows (owns_balance v) f bs) ≡ find_row (owns_balance u) bs
find_row-other u v f [] keep apart = refl
find_row-other u v f (b ∷ bs) keep apart = elim (Bool-cases (owns_balance v b)) [
  | inl hit ↦
      let of_v : b.user_id ≡ v = bytes_eq→eq b.user_id v hit in
      let new : owns_balance u (f b) ≡ false = rw (keep b, of_v) apart in
      let old : owns_balance u b ≡ false = rw of_v apart in
      rw (hit, new, old) (find_row-other u v f bs keep apart)
  | inr miss ↦ elim (Bool-cases (owns_balance u b)) [
    | inl mine ↦ rw (miss, mine) refl
    | inr other ↦ rw (miss, other) (find_row-other u v f bs keep apart)
  ]
]

-- The user's own row is the first one that is updated.
pub find_row-own :
    (u : Bytes) (f : Balance → Balance) (bs : List Balance) (old : Balance)
    → ((b : Balance) → (f b).user_id ≡ b.user_id)
    → find_row (owns_balance u) bs ≡ some old
    → find_row (owns_balance u) (update_rows (owns_balance u) f bs) ≡ some (f old)
find_row-own u f [] old keep h = cc
find_row-own u f (b ∷ bs) old keep h = elim (Bool-cases (owns_balance u b)) [
  | inl mine ↦
      let same : owns_balance u (f b) ≡ true = rw (keep b) mine in
      let it : b ≡ old = some_injective b old (rw mine at h) in rw (mine, same, it) refl
  | inr other ↦ rw (other, other) (find_row-own u f bs old keep (rw other at h))
]
  where
    some_injective : (a c : Balance) → some a ≡ some c → a ≡ c
    some_injective a c e = cc
