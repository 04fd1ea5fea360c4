-- ===== src/Pots/Shares.antt =====
-- The pots that `Calculate` makes of the contributions: their total, and the share of a player in
-- them.
use native.Mathlib.Nat.{mul-div_cancel}
use holdem.Prelude.{
  ℕ, zero, suc, ◌+◌, ◌/◌, ◌≤◌, ◌≡◌, refl, ap, ◌∙◌, if◌then◌else◌, List, [], ◌∷◌, length, arith,
}
use holdem.Prelude.Dict.{Dict, total, keys, get_or}
use holdem.Game.{PlayerId, Pot}
use holdem.Pots.{positive, min_contrib, deduct, layer, layers, calculate, total_pots}
use holdem.Pots.Layers.{
  DistinctKeys, member, total-positive, get_or-positive, min_contrib-AtLeast, length-deduct_round,
  total-deduct, deduct-DistinctKeys, get_or-deduct, positive-DistinctKeys, get_or-le,
}

total-layers :
    (order : List PlayerId → List PlayerId) (fuel : ℕ) (r : Dict ℕ)
    → length r ≤ fuel
    → total_pots (layers order fuel r) ≡ total r
unfolding layers
total-layers order zero [] h = refl
total-layers order zero (e ∷ r) h = absurd (omega arith)
total-layers order (suc fuel) [] h = refl
total-layers order (suc fuel) (e ∷ r) h =
    let m : ℕ = min_contrib (e ∷ r) in
    let fewer : length (deduct m (e ∷ r)) ≤ fuel = omega (arith, length-deduct_round e r) in
    omega (
      arith,
      total-deduct m (e ∷ r) (min_contrib-AtLeast e r),
      total-layers order fuel (deduct m (e ∷ r)) fewer,
    )

-- The pots hold exactly the chips of the contributions, whatever order Go visits the map in.
pub total-calculate :
    (order : List PlayerId → List PlayerId) (m : Dict ℕ) → total_pots (calculate order m) ≡ total m
unfolding calculate
total-calculate order m =
    total-layers order (length (positive m)) (positive m) (omega arith) ∙ total-positive m

-- What one player has paid into the pots that he can win: an equal share of each.
pub share : PlayerId → List Pot → ℕ
share k [] = 0
share k (p ∷ ps) = (if member k p.eligible then p.amount / length p.eligible else 0) + share k ps

-- A visit of a map's keys: each key once, in some order.
pub record Visits (order : List PlayerId → List PlayerId) : Type 0 where
  pub as_many : (ks : List PlayerId) → length (order ks) ≡ length ks
  pub the_same : (k : PlayerId) (ks : List PlayerId) → member k (order ks) ≡ member k ks

length-keys : (r : Dict ℕ) → length (keys r) ≡ length r
length-keys [] = refl
length-keys (e ∷ r) = ap suc (length-keys r)

module _ (order : List PlayerId → List PlayerId) (v : Visits order) where
  -- the share of a player in one layer
  layer-share :
      (k : PlayerId) (e : PlayerId × ℕ) (r : Dict ℕ)
      → (if member k (layer order (e ∷ r)).eligible
          then (layer order (e ∷ r)).amount / length (layer order (e ∷ r)).eligible
          else 0)
        ≡ (if member k (keys (e ∷ r)) then min_contrib (e ∷ r) else 0)
  layer-share k e r =
      rw
        (
          v.the_same k (keys (e ∷ r)),
          v.as_many (keys (e ∷ r)),
          length-keys (e ∷ r),
          mul-div_cancel (min_contrib (e ∷ r)) {n = suc (length r)} (omega arith),
        )
        refl

  share-layers :
      (k : PlayerId) (fuel : ℕ) (r : Dict ℕ)
      → length r ≤ fuel
      → DistinctKeys r
      → share k (layers order fuel r) ≡ get_or k r
  unfolding layers share
  share-layers k zero [] h d = refl
  share-layers k zero (e ∷ r) h d = absurd (omega arith)
  share-layers k (suc fuel) [] h d = refl
  share-layers k (suc fuel) (e ∷ r) h d =
      let m : ℕ = min_contrib (e ∷ r) in
      let fewer : length (deduct m (e ∷ r)) ≤ fuel = omega (arith, length-deduct_round e r) in
      ground (
        arith,
        layer-share k e r,
        get_or-le k m (e ∷ r) (min_contrib-AtLeast e r),
        get_or-deduct k m (e ∷ r) d,
        share-layers k fuel (deduct m (e ∷ r)) fewer (deduct-DistinctKeys m (e ∷ r) d),
      )

-- If Go visits each key of a map once, then what a player has paid into the pots that he can win, an
-- equal share of each, is exactly his contribution.
pub share-calculate :
    (order : List PlayerId → List PlayerId) (m : Dict ℕ) (k : PlayerId)
    → Visits order
    → DistinctKeys m
    → share k (calculate order m) ≡ get_or k m
unfolding calculate
share-calculate order m k v d =
    share-layers order v k (length (positive m)) (positive m) (omega arith)
      (positive-DistinctKeys m d)
    ∙ get_or-positive k m d
