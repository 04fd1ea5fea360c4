-- ===== src/Evaluator/Sorting.antt =====
-- The card ranks in descending order, and their first one.
use holdem.Prelude.{
  ℕ, ◌≤◌, ◌<◌, ◌≡◌, subst, List, [], ◌∷◌, length, All, In, inl, inr, arith, leb, ltb, Bool-cases,
}
use holdem.Evaluator.{
  Hand, HandResult, greater, compare_results, compare_cards, compare_ranks, insert_sorted,
  sort_ints, reversed_onto, ranks_of, sorted_ranks_desc,
}
use holdem.Evaluator.Order.{length-sorted_ranks_desc}

-- The values fall along the list.
abbrev pub Descending : List ℕ → Type 0
Descending [] = Unit
Descending (n ∷ ns) = All (λ m. m ≤ n) ns × Descending ns

abbrev pub Ascending : List ℕ → Type 0
Ascending [] = Unit
Ascending (n ∷ ns) = All (λ m. n ≤ m) ns × Ascending ns

module _ (P : ℕ → Type 0) where
  All-insert_sorted : (n : ℕ) (ms : List ℕ) → P n → All P ms → All P (insert_sorted n ms)
  unfolding insert_sorted
  All-insert_sorted n [] p a = (p, tt)
  All-insert_sorted n (m ∷ ms) p a = elim (Bool-cases (leb n m)) [
    | inl e ↦ rw e (p, a)
    | inr e ↦ rw e (a.0, All-insert_sorted n ms p a.1)
  ]

  All-of_insert_sorted : (n : ℕ) (ms : List ℕ) → All P (insert_sorted n ms) → P n × All P ms
  unfolding insert_sorted
  All-of_insert_sorted n [] a = a
  All-of_insert_sorted n (m ∷ ms) a = elim (Bool-cases (leb n m)) [
    | inl e ↦ rw e at a
    | inr e ↦ let b = rw e at a in let (p, rest) = All-of_insert_sorted n ms b.1 in (p, (b.0, rest))
  ]

  All-of_sort_ints : (ns : List ℕ) → All P (sort_ints ns) → All P ns
  unfolding sort_ints
  All-of_sort_ints [] a = a
  All-of_sort_ints (n ∷ ns) a =
      let (p, rest) = All-of_insert_sorted n (sort_ints ns) a in (p, All-of_sort_ints ns rest)

  All-of_reversed_onto : (acc ns : List ℕ) → All P (reversed_onto acc ns) → All P acc × All P ns
  All-of_reversed_onto acc [] a = (a, tt)
  All-of_reversed_onto acc (n ∷ ns) a =
      let (both, rest) = All-of_reversed_onto (n ∷ acc) ns a in (both.1, (both.0, rest))

All-le_trans : (a b : ℕ) (ns : List ℕ) → a ≤ b → All (λ m. b ≤ m) ns → All (λ m. a ≤ m) ns
All-le_trans a b [] h q = tt
All-le_trans a b (n ∷ ns) h q = (omega arith, All-le_trans a b ns h q.1)

insert_sorted-Ascending : (n : ℕ) (ms : List ℕ) → Ascending ms → Ascending (insert_sorted n ms)
unfolding insert_sorted
insert_sorted-Ascending n [] a = (tt, tt)
insert_sorted-Ascending n (m ∷ ms) a = elim (Bool-cases (leb n m)) [
  | inl e ↦ rw e ((ground arith, All-le_trans n m ms (ground arith) a.0), a)
  | inr e ↦
      rw e
        (All-insert_sorted (λ k. m ≤ k) n ms (ground arith) a.0, insert_sorted-Ascending n ms a.1)
]

sort_ints-Ascending : (ns : List ℕ) → Ascending (sort_ints ns)
unfolding sort_ints
sort_ints-Ascending [] = tt
sort_ints-Ascending (n ∷ ns) = insert_sorted-Ascending n (sort_ints ns) (sort_ints-Ascending ns)

-- every value of the first list is at most every value of the second
Under : List ℕ → List ℕ → Type 0
Under acc ns = All (λ n. All (λ m. m ≤ n) acc) ns

Under-cons : (n : ℕ) (acc ns : List ℕ) → All (λ m. n ≤ m) ns → Under acc ns → Under (n ∷ acc) ns
unfolding Under
Under-cons n acc [] h u = tt
Under-cons n acc (k ∷ ns) h u = ((h.0, u.0), Under-cons n acc ns h.1 u.1)

reversed_onto-Descending :
    (acc ns : List ℕ)
    → Descending acc
    → Ascending ns
    → Under acc ns
    → Descending (reversed_onto acc ns)
unfolding Under
reversed_onto-Descending acc [] d a u = d
reversed_onto-Descending acc (n ∷ ns) d a u =
    reversed_onto-Descending (n ∷ acc) ns (u.0, d) a.1 (Under-cons n acc ns a.0 u.1)

Under-nil : (ns : List ℕ) → Under [] ns
unfolding Under
Under-nil [] = tt
Under-nil (n ∷ ns) = (tt, Under-nil ns)

-- The ranks that decide a comparison fall, from the highest card down.
pub sorted_ranks_desc-Descending : (h : Hand) → Descending (sorted_ranks_desc h)
sorted_ranks_desc-Descending h =
    reversed_onto-Descending [] (sort_ints (ranks_of h)) tt (sort_ints-Ascending (ranks_of h))
      (Under-nil (sort_ints (ranks_of h)))

In-All : (P : ℕ → Type 0) (x : ℕ) (ns : List ℕ) → In x ns → All P ns → P x
In-All P x [] m a = absurd m
In-All P x (n ∷ ns) (inl e) a = subst P e a.0
In-All P x (n ∷ ns) (inr m) a = In-All P x ns m a.1

All-of_sorted_ranks_desc :
    (P : ℕ → Type 0) (h : Hand) → All P (sorted_ranks_desc h) → All P (ranks_of h)
All-of_sorted_ranks_desc P h a =
    All-of_sort_ints P (ranks_of h) (All-of_reversed_onto P [] (sort_ints (ranks_of h)) a).1

All-lt_of_le : (a b : ℕ) (ns : List ℕ) → a < b → All (λ m. m ≤ a) ns → All (λ m. m < b) ns
All-lt_of_le a b [] h q = tt
All-lt_of_le a b (n ∷ ns) h q = (omega arith, All-lt_of_le a b ns h q.1)

-- a list in descending order with x in it, against one of lower values
top_wins :
    (x : ℕ) (as' bs : List ℕ)
    → Descending as'
    → (All (λ m. m < x) as' → ⊥)
    → All (λ m. m < x) bs
    → length as' ≡ length bs
    → compare_ranks as' bs ≡ greater
top_wins x [] bs d reach low e = absurd (reach tt)
top_wins x (a ∷ as') [] d reach low e = absurd (omega arith)
top_wins x (a ∷ as') (b ∷ bs) d reach low e = elim (Bool-cases (ltb b a)) [
  | inl over ↦ rw over
  | inr under ↦ absurd (reach (ground arith, All-lt_of_le a x as' (ground arith) d.0))
]

All-sort_ints : (P : ℕ → Type 0) (ns : List ℕ) → All P ns → All P (sort_ints ns)
unfolding sort_ints
All-sort_ints P [] a = tt
All-sort_ints P (n ∷ ns) a = All-insert_sorted P n (sort_ints ns) a.0 (All-sort_ints P ns a.1)

All-reversed_onto :
    (P : ℕ → Type 0) (acc ns : List ℕ) → All P acc → All P ns → All P (reversed_onto acc ns)
All-reversed_onto P acc [] a b = a
All-reversed_onto P acc (n ∷ ns) a b = All-reversed_onto P (n ∷ acc) ns (b.0, a) b.1

All-sorted_ranks_desc :
    (P : ℕ → Type 0) (h : Hand) → All P (ranks_of h) → All P (sorted_ranks_desc h)
All-sorted_ranks_desc P h a =
    All-reversed_onto P [] (sort_ints (ranks_of h)) tt (All-sort_ints P (ranks_of h) a)

-- Between hands of one category and as many cards, a hand with a card above every card of the other
-- compares as greater.
pub compare_results_top_card :
    (a b : HandResult) (x : ℕ)
    → length a.cards ≡ length b.cards
    → a.rank ≡ b.rank
    → In x (ranks_of a.cards)
    → All (λ m. m < x) (ranks_of b.cards)
    → compare_results a b ≡ greater
unfolding compare_results compare_cards
compare_results_top_card a b x lengths same has low = ground (
  arith,
  top_wins x (sorted_ranks_desc a.cards) (sorted_ranks_desc b.cards)
      (sorted_ranks_desc-Descending a.cards) reach (All-sorted_ranks_desc _ b.cards low)
      (omega (arith, length-sorted_ranks_desc a.cards, length-sorted_ranks_desc b.cards)),
)
  where
    reach : All (λ m. m < x) (sorted_ranks_desc a.cards) → ⊥
    reach all =
        let below : x < x =
          In-All (λ m. m < x) x (ranks_of a.cards) has
            (All-of_sorted_ranks_desc (λ m. m < x) a.cards all) in
        omega arith
