-- ===== src/Evaluator.antt =====
-- services/engine/internal/infrastructure/evaluator: combinations.go, rank.go and evaluator.go, and the
-- hand ranks of domain/hand.go. A [5]Card is a list of five cards, and a slice of ranks a list.
mod Tests
pub mod Ranks
pub mod Selections
pub mod Order
pub mod Sorting
pub mod Best
use holdem.Prelude.{
  ℕ, zero, suc, ◌+◌, ◌-◌, Bool, true, false, ◌&&◌, ◌||◌, ltb, leb, ◌==◌, if◌then◌else◌, List, [],
  ◌∷◌, ◌++◌, length, map,
}
use holdem.Prelude.Dict.{Dict, add_to}
use holdem.Cards.{Card, Rank, Suit}
use holdem.Game.{PlayerId}

abbrev pub Hand : Type 0
Hand = List Card

-- `HandRank`: 1 to 10, and 0 before any hand is ranked
abbrev pub HandRank : Type 0
HandRank = ℕ

abbrev pub high_card : HandRank
high_card = 1

abbrev pub one_pair : HandRank
one_pair = 2

abbrev pub two_pair : HandRank
two_pair = 3

abbrev pub three_of_a_kind : HandRank
three_of_a_kind = 4

abbrev pub straight : HandRank
straight = 5

abbrev pub flush : HandRank
flush = 6

abbrev pub full_house : HandRank
full_house = 7

abbrev pub four_of_a_kind : HandRank
four_of_a_kind = 8

abbrev pub straight_flush : HandRank
straight_flush = 9

abbrev pub royal_flush : HandRank
royal_flush = 10

pub record HandResult : Type 0 where
  pub player_id : PlayerId
  pub rank : HandRank
  pub cards : Hand

abbrev pub zero_card : Card
zero_card = record { rank = 0; suit = 0 }

-- the zero value of [5]Card
abbrev pub zero_hand : Hand
zero_hand = zero_card ∷ zero_card ∷ zero_card ∷ zero_card ∷ zero_card ∷ []

-- the element at an index that the loops keep in range
abbrev pub card_at : List Card → ℕ → Card
card_at [] i = zero_card
card_at (c ∷ cs) zero = c
card_at (c ∷ cs) (suc i) = card_at cs i

-- for i := lo; i < lo + rounds; i++, appending what each round gives
pub for_each {ℓ} : {A : Type ℓ} → ℕ → ℕ → (ℕ → List A) → List A
for_each zero lo body = []
for_each (suc rounds) lo body = body lo ++ for_each rounds (lo + 1) body

-- `depth` nested loops from the index `lo`; the bound of the outermost is n - (depth - 1)
pub nested : List Card → ℕ → ℕ → List Hand
nested cards zero lo = [] ∷ []
nested cards (suc depth) lo =
    for_each (length cards - depth - lo) lo
      (λ i. map (λ h. card_at cards i ∷ h) (nested cards depth (i + 1)))

pub combinations : List Card → List Hand
combinations cards = nested cards 5 0

-- `sort.Ints`
pub insert_sorted : ℕ → List ℕ → List ℕ
insert_sorted n [] = n ∷ []
insert_sorted n (m ∷ ms) = if leb n m then n ∷ m ∷ ms else m ∷ insert_sorted n ms

pub sort_ints : List ℕ → List ℕ
sort_ints [] = []
sort_ints (n ∷ ns) = insert_sorted n (sort_ints ns)

abbrev pub ranks_of : Hand → List ℕ
ranks_of = map (λ c. c.rank)

-- `sortedRanks`
abbrev pub sorted_ranks : Hand → List ℕ
sorted_ranks h = sort_ints (ranks_of h)

abbrev pub reversed_onto : List ℕ → List ℕ → List ℕ
reversed_onto acc [] = acc
reversed_onto acc (n ∷ ns) = reversed_onto (n ∷ acc) ns

-- `sortedRanksDesc`: the swap loop from both ends reverses the slice
abbrev pub sorted_ranks_desc : Hand → List ℕ
sorted_ranks_desc h = reversed_onto [] (sorted_ranks h)

abbrev pub at : List ℕ → ℕ → ℕ
at [] i = 0
at (n ∷ ns) zero = n
at (n ∷ ns) (suc i) = at ns i

-- `isFlush`
abbrev pub all_of_suit : Suit → List Card → Bool
all_of_suit s [] = true
all_of_suit s (c ∷ cs) = c.suit == s && all_of_suit s cs

pub is_flush : Hand → Bool
is_flush [] = true
is_flush (c ∷ cs) = all_of_suit c.suit cs

-- `rankCounts`
abbrev pub count_ranks : List Card → Dict ℕ → Dict ℕ
count_ranks [] m = m
count_ranks (c ∷ cs) m = count_ranks cs (add_to c.rank 1 m)

abbrev pub rank_counts : Hand → Dict ℕ
rank_counts h = count_ranks h []

-- the set that `uniqueCount` builds
abbrev pub count_values : List ℕ → Dict ℕ → Dict ℕ
count_values [] m = m
count_values (n ∷ ns) m = count_values ns (add_to n 1 m)

abbrev pub unique_count : List ℕ → ℕ
unique_count ns = length (count_values ns [])

pub is_straight : Hand → Bool
is_straight h =
    let ranks = sorted_ranks h in
    (at ranks 4 - at ranks 0 == 4 && unique_count ranks == 5)
    || (at ranks 4 == 14
        && (at ranks 0 == 2 && (at ranks 1 == 3 && (at ranks 2 == 4 && at ranks 3 == 5))))

pub is_royal_flush : Hand → Bool
is_royal_flush h =
    is_flush h && (is_straight h && (at (sorted_ranks h) 4 == 14 && at (sorted_ranks h) 0 == 10))

pub is_straight_flush : Hand → Bool
is_straight_flush h = is_flush h && is_straight h

-- some rank occurs n times
abbrev pub has_count : ℕ → Dict ℕ → Bool
has_count n [] = false
has_count n ((r, c) ∷ m) = c == n || has_count n m

-- how many ranks occur twice
abbrev pub pairs : Dict ℕ → ℕ
pairs [] = 0
pairs ((r, c) ∷ m) = (if c == 2 then 1 else 0) + pairs m

pub is_four_of_a_kind : Hand → Bool
is_four_of_a_kind h = has_count 4 (rank_counts h)

pub is_full_house : Hand → Bool
is_full_house h = has_count 3 (rank_counts h) && has_count 2 (rank_counts h)

pub is_three_of_a_kind : Hand → Bool
is_three_of_a_kind h = has_count 3 (rank_counts h)

pub is_two_pair : Hand → Bool
is_two_pair h = pairs (rank_counts h) == 2

pub is_one_pair : Hand → Bool
is_one_pair h = has_count 2 (rank_counts h)

pub rank_hand : Hand → HandRank
rank_hand h =
    if is_royal_flush h
    then royal_flush
    else if is_straight_flush h
    then straight_flush
    else if is_four_of_a_kind h
    then four_of_a_kind
    else if is_full_house h
    then full_house
    else if is_flush h
    then flush
    else if is_straight h
    then straight
    else if is_three_of_a_kind h
    then three_of_a_kind
    else if is_two_pair h
    then two_pair
    else if is_one_pair h
    then one_pair
    else high_card

-- the results -1, 0 and 1
pub data Comparison : Type 0 where
  less equal greater : Comparison

-- the loop of `compareCards`
abbrev pub compare_ranks : List ℕ → List ℕ → Comparison
compare_ranks [] bs = equal
compare_ranks (a ∷ as') [] = equal
compare_ranks (a ∷ as') (b ∷ bs) =
    if ltb b a then greater else if ltb a b then less else compare_ranks as' bs

pub compare_cards : Hand → Hand → Comparison
compare_cards a b = compare_ranks (sorted_ranks_desc a) (sorted_ranks_desc b)

abbrev pub is_greater : Comparison → Bool
is_greater greater = true
is_greater _ = false

-- one round of the loop of `Best`
pub consider : HandRank × Hand → Hand → HandRank × Hand
consider (best_rank, best_cards) combo =
    let rank = rank_hand combo in
    if ltb best_rank rank
    then (rank, combo)
    else if rank == best_rank && is_greater (compare_cards combo best_cards)
    then (best_rank, combo)
    else (best_rank, best_cards)

pub best_of : HandRank × Hand → List Hand → HandRank × Hand
best_of best [] = best
best_of best (combo ∷ combos) = best_of (consider best combo) combos

-- `Evaluator.Best`
pub best : PlayerId → Card × Card → List Card → HandResult
best id (c, d) board =
    let (rank, cards) = best_of (0, zero_hand) (combinations (c ∷ d ∷ board)) in
    record { player_id = id; rank = rank; cards = cards }

-- `Evaluator.Compare`
pub compare_results : HandResult → HandResult → Comparison
compare_results a b =
    if ltb b.rank a.rank
    then greater
    else if ltb a.rank b.rank
    then less
    else compare_cards a.cards b.cards
