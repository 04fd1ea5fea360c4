-- ===== src/Evaluator/Order.antt =====
-- The comparison of results as an order.
use holdem.Prelude.{ℕ, suc, ◌+◌, ◌≡◌, ◌≢◌, ◌↔◌, refl, List, [], ◌∷◌, length, arith, length-map}
use holdem.Evaluator.{
  Hand, HandResult, Comparison, less, equal, greater, compare_ranks, compare_cards, compare_results,
  sorted_ranks_desc, sort_ints, insert_sorted, reversed_onto, ranks_of,
}

-- the comparison seen from the other side
abbrev pub opposite : Comparison → Comparison
opposite less = greater
opposite equal = equal
opposite greater = less

compare_ranks-opposite :
    (as' bs : List ℕ)
    → length as' ≡ length bs
    → compare_ranks bs as' ≡ opposite (compare_ranks as' bs)
compare_ranks-opposite [] [] h = refl
compare_ranks-opposite [] (b ∷ bs) h = absurd (omega arith)
compare_ranks-opposite (a ∷ as') [] h = absurd (omega arith)
compare_ranks-opposite (a ∷ as') (b ∷ bs) h =
    ground (arith, compare_ranks-opposite as' bs (omega arith))

compare_ranks-equal :
    (as' bs : List ℕ) → length as' ≡ length bs → compare_ranks as' bs ≡ equal → as' ≡ bs
compare_ranks-equal [] [] h e = refl
compare_ranks-equal [] (b ∷ bs) h e = absurd (omega arith)
compare_ranks-equal (a ∷ as') [] h e = absurd (omega arith)
compare_ranks-equal (a ∷ as') (b ∷ bs) h e =
    ground (arith, compare_ranks-equal as' bs (omega arith))

compare_ranks_self : (as' : List ℕ) → compare_ranks as' as' ≡ equal
compare_ranks_self [] = refl
compare_ranks_self (a ∷ as') = ground (arith, compare_ranks_self as')

compare_ranks_trans :
    (as' bs cs : List ℕ)
    → length as' ≡ length bs
    → length bs ≡ length cs
    → compare_ranks as' bs ≢ greater
    → compare_ranks bs cs ≢ greater
    → compare_ranks as' cs ≢ greater
compare_ranks_trans [] bs cs h k p q = λ e. cc
compare_ranks_trans (a ∷ as') [] cs h k p q = absurd (omega arith)
compare_ranks_trans (a ∷ as') (b ∷ bs) [] h k p q = absurd (omega arith)
compare_ranks_trans (a ∷ as') (b ∷ bs) (c ∷ cs) h k p q =
    ground (arith, compare_ranks_trans as' bs cs (omega arith) (omega arith))

length-insert_sorted : (n : ℕ) (ms : List ℕ) → length (insert_sorted n ms) ≡ suc (length ms)
unfolding insert_sorted
length-insert_sorted n [] = refl
length-insert_sorted n (m ∷ ms) = ground (arith, length-insert_sorted n ms)

length-sort_ints : (ns : List ℕ) → length (sort_ints ns) ≡ length ns
unfolding sort_ints
length-sort_ints [] = refl
length-sort_ints (n ∷ ns) =
    omega (arith, length-insert_sorted n (sort_ints ns), length-sort_ints ns)

length-reversed_onto : (acc ns : List ℕ) → length (reversed_onto acc ns) ≡ length acc + length ns
length-reversed_onto acc [] = omega arith
length-reversed_onto acc (n ∷ ns) = omega (arith, length-reversed_onto (n ∷ acc) ns)

pub length-sorted_ranks_desc : (h : Hand) → length (sorted_ranks_desc h) ≡ length h
length-sorted_ranks_desc h = omega (
  arith,
  length-reversed_onto [] (sort_ints (ranks_of h)),
  length-sort_ints (ranks_of h),
  length-map h (λ c. c.rank),
)

module _ (a b : HandResult) (five : length a.cards ≡ length b.cards) where
  desc_lengths : length (sorted_ranks_desc a.cards) ≡ length (sorted_ranks_desc b.cards)
  desc_lengths = omega (arith, length-sorted_ranks_desc a.cards, length-sorted_ranks_desc b.cards)

  compare_results-opposite : compare_results b a ≡ opposite (compare_results a b)
  unfolding compare_results compare_cards
  compare_results-opposite = ground (
    arith,
    compare_ranks-opposite (sorted_ranks_desc a.cards) (sorted_ranks_desc b.cards) desc_lengths,
  )

  compare_results-equal :
      (compare_results a b ≡ equal)
      ↔ ((a.rank ≡ b.rank) × (sorted_ranks_desc a.cards ≡ sorted_ranks_desc b.cards))
  unfolding compare_results compare_cards
  compare_results-equal = (
    λ e. ground (
      arith,
      compare_ranks-equal (sorted_ranks_desc a.cards) (sorted_ranks_desc b.cards) desc_lengths,
    ),
    λ (r, s). rw (r, s) (ground (arith, compare_ranks_self (sorted_ranks_desc b.cards))),
  )

-- Between hands of as many cards, "not stronger than" is transitive.
pub compare_results_trans :
    (a b c : HandResult)
    → length a.cards ≡ length b.cards
    → length b.cards ≡ length c.cards
    → compare_results a b ≢ greater
    → compare_results b c ≢ greater
    → compare_results a c ≢ greater
unfolding compare_results compare_cards
compare_results_trans a b c h k p q = ground (
  arith,
  compare_ranks_trans (sorted_ranks_desc a.cards) (sorted_ranks_desc b.cards)
      (sorted_ranks_desc c.cards) (desc_lengths a b h) (desc_lengths b c k),
)

-- Between hands of as many cards the comparison turns round with its arguments, and it calls two hands
-- equal exactly when their ranks agree and their sorted card ranks do.
pub compare_results_order :
    (a b : HandResult)
    → length a.cards ≡ length b.cards
    → (compare_results b a ≡ opposite (compare_results a b))
      × ((compare_results a b ≡ equal)
          ↔ ((a.rank ≡ b.rank) × (sorted_ranks_desc a.cards ≡ sorted_ranks_desc b.cards)))
compare_results_order a b h = (compare_results-opposite a b h, compare_results-equal a b h)
