-- ===== src/Evaluator/Ranks.antt =====
-- The tests of rank.go on the number of cards of each rank, against a plain count.
use holdem.Prelude.{
  ℕ, ◌+◌, ◌<◌, ◌≡◌, ◌↔◌, refl, true, ◌==◌, if◌then◌else◌, Bool-cases, none, some, inl, inr, List,
  [], ◌∷◌, arith,
}
use holdem.Prelude.Dict.{Dict, lookup, insert, get_or, add_to, lookup-add_to, lookup-insert}
use holdem.Cards.{Card, Rank}
use holdem.Evaluator.{
  Hand, has_count, count_ranks, rank_counts, is_four_of_a_kind, is_full_house, is_three_of_a_kind,
  is_one_pair,
}

-- how many of the cards have the rank
pub occurs : Rank → List Card → ℕ
occurs r [] = 0
occurs r (c ∷ cs) = (if c.rank == r then 1 else 0) + occurs r cs

abbrev DistinctKeys : Dict ℕ → Type 0
DistinctKeys [] = Unit
DistinctKeys ((k, n) ∷ m) = (lookup k m ≡ none) × DistinctKeys m

insert-DistinctKeys : (k n : ℕ) (m : Dict ℕ) → DistinctKeys m → DistinctKeys (insert k n m)
insert-DistinctKeys k n [] d = (refl, tt)
insert-DistinctKeys k n ((j, v) ∷ m) d =
    ground (arith, insert-DistinctKeys k n m d.1, lookup-insert k j n m)

get_or-count_ranks :
    (r : Rank) (cs : List Card) (m : Dict ℕ)
    → get_or r (count_ranks cs m) ≡ get_or r m + occurs r cs
unfolding occurs
get_or-count_ranks r [] m = omega arith
get_or-count_ranks r (c ∷ cs) m =
    rw (get_or-count_ranks r cs (add_to c.rank 1 m), lookup-add_to c.rank r 1 m) (ground arith)

count_ranks-DistinctKeys :
    (cs : List Card) (m : Dict ℕ) → DistinctKeys m → DistinctKeys (count_ranks cs m)
count_ranks-DistinctKeys [] m d = d
count_ranks-DistinctKeys (c ∷ cs) m d =
    count_ranks-DistinctKeys cs (add_to c.rank 1 m)
      (insert-DistinctKeys c.rank (get_or c.rank m + 1) m d)

-- A count in the map is the count of some rank, and the other way round.
has_count-lookup :
    (n : ℕ) (m : Dict ℕ)
    → DistinctKeys m
    → has_count n m ≡ true
    → (r : Rank) × (lookup r m ≡ some n)
has_count-lookup n [] d h = absurd (cc)
has_count-lookup n ((r, c) ∷ m) d h = elim (Bool-cases (c == n)) [
  | inl e ↦ (r, ground arith)
  | inr e ↦ let (s, f) = has_count-lookup n m d.1 (ground arith) in (s, ground arith)
]

get_or-has_count : (n : ℕ) (r : Rank) (m : Dict ℕ) → 0 < n → get_or r m ≡ n → has_count n m ≡ true
get_or-has_count n r [] p h = absurd (omega arith)
get_or-has_count n r ((s, c) ∷ m) p h = ground (arith, get_or-has_count n r m p)

has_count_iff :
    (n : ℕ) (h : Hand)
    → 0 < n
    → (has_count n (rank_counts h) ≡ true) ↔ ((r : Rank) × (occurs r h ≡ n))
has_count_iff n h p = (
  λ t.
      let (r, e) = has_count-lookup n (rank_counts h) (count_ranks-DistinctKeys h [] tt) t in
      (r, ground (arith, get_or-count_ranks r h [])),
  λ (r, e). get_or-has_count n r (rank_counts h) p (omega (arith, get_or-count_ranks r h [], e)),
)

-- A hand counts as four of a kind, three of a kind and a pair exactly when some rank is on exactly four,
-- three and two of its cards, and as a full house exactly when one rank is on three and one on two.
pub kinds_iff :
    (h : Hand)
    → ((is_four_of_a_kind h ≡ true) ↔ ((r : Rank) × (occurs r h ≡ 4)))
      × ((is_three_of_a_kind h ≡ true) ↔ ((r : Rank) × (occurs r h ≡ 3)))
      × ((is_one_pair h ≡ true) ↔ ((r : Rank) × (occurs r h ≡ 2)))
      × ((is_full_house h ≡ true) ↔ ((r : Rank) × (s : Rank) × (occurs r h ≡ 3) × (occurs s h ≡ 2)))
unfolding is_four_of_a_kind is_full_house is_three_of_a_kind is_one_pair
kinds_iff h =
    let (three, three') = has_count_iff 3 h (omega arith) in
    let (two, two') = has_count_iff 2 h (omega arith) in
    (
      has_count_iff 4 h (omega arith),
      (three, three'),
      (two, two'),
      (
        λ t. let (r, e) = three (ground arith) in let (s, f) = two (ground arith) in (r, s, e, f),
        λ (r, s, e, f). ground (arith, three' (r, e), two' (s, f)),
      ),
    )
