-- ===== src/Evaluator/Selections.antt =====
-- The nested loops, and the selections of five cards.
use holdem.Prelude.{
  ℕ, zero, suc, ◌+◌, ◌-◌, ◌<◌, ◌≡◌, ◌↔◌, refl, sym, ap, ◌∙◌, subst, List, [], ◌∷◌, ◌++◌, map,
  length, length-map, length-append, drop, length-drop, arith, In, In-append, inl, inr,
}
use holdem.Cards.{Card}
use holdem.Evaluator.{Hand, for_each, nested, combinations, card_at}

-- The selections of k cards in order, as a recursion on the cards: with the first, then without it.
pub choose : ℕ → List Card → List Hand
choose zero cs = [] ∷ []
choose (suc k) [] = []
choose (suc k) (c ∷ cs) = map (λ h. c ∷ h) (choose k cs) ++ choose (suc k) cs

choose_short : (k : ℕ) (cs : List Card) → length cs < k → choose k cs ≡ []
unfolding choose
choose_short zero cs h = absurd (omega arith)
choose_short (suc k) [] h = refl
choose_short (suc k) (c ∷ cs) h =
    rw (choose_short k cs (omega arith), choose_short (suc k) cs (omega arith))

drop_cons :
    (cards : List Card) (i : ℕ)
    → i < length cards
    → drop i cards ≡ card_at cards i ∷ drop (suc i) cards
drop_cons [] i h = absurd (omega arith)
drop_cons (c ∷ cs) zero h = refl
drop_cons (c ∷ cs) (suc i) h = drop_cons cs i (omega arith)

-- The loop at one depth, once the loops below it are known.
for_each-choose :
    (cards : List Card) (k rounds lo : ℕ) (body : ℕ → List Hand)
    → rounds ≡ length cards - k - lo
    → ((i : ℕ) → body i ≡ map (λ h. card_at cards i ∷ h) (choose k (drop (i + 1) cards)))
    → for_each rounds lo body ≡ choose (suc k) (drop lo cards)
unfolding for_each
for_each-choose cards k zero lo body e inner =
    sym (choose_short (suc k) (drop lo cards) (omega (arith, length-drop lo cards)))
for_each-choose cards k (suc rounds) lo body e inner =
    let next = for_each-choose cards k rounds (lo + 1) body (omega arith) inner in
    let up : lo + 1 ≡ suc lo = omega arith in
    rw (drop_cons cards lo (omega arith), inner lo, next, up) (unfold choose in refl)

nested-choose : (cards : List Card) (k lo : ℕ) → nested cards k lo ≡ choose k (drop lo cards)
unfolding nested
nested-choose cards zero lo = unfold choose in refl
nested-choose cards (suc k) lo =
    for_each-choose cards k (length cards - k - lo) lo _ refl
      (λ i. ap (map (λ h. card_at cards i ∷ h)) (nested-choose cards k (i + 1)))

-- A selection of some of the cards, in their order.
pub data Chosen : Hand → List Card → Type 0 where
  none_left : Chosen [] []
  with_card : {c : Card} {h : Hand} {cs : List Card} → Chosen h cs → Chosen (c ∷ h) (c ∷ cs)
  without : {c : Card} {h : Hand} {cs : List Card} → Chosen h cs → Chosen h (c ∷ cs)

In-map : (c : Card) (h : Hand) (xs : List Hand) → In h xs → In (c ∷ h) (map (λ t. c ∷ t) xs)
In-map c h [] m = absurd m
In-map c h (x ∷ xs) (inl e) = inl (ap (◌∷◌ c) e)
In-map c h (x ∷ xs) (inr n) = inr (In-map c h xs n)

In-map_inv :
    (c : Card) (h : Hand) (xs : List Hand)
    → In h (map (λ t. c ∷ t) xs)
    → (t : Hand) × (h ≡ c ∷ t) × In t xs
In-map_inv c h [] m = absurd m
In-map_inv c h (x ∷ xs) (inl e) = (x, sym e, inl refl)
In-map_inv c h (x ∷ xs) (inr n) = let (t, e, m) = In-map_inv c h xs n in (t, e, inr m)

pub Chosen-nil : (cs : List Card) → Chosen [] cs
Chosen-nil [] = none_left
Chosen-nil (c ∷ cs) = without (Chosen-nil cs)

Chosen-of_choose :
    (k : ℕ) (cs : List Card) (h : Hand) → In h (choose k cs) → Chosen h cs × (length h ≡ k)
unfolding choose
Chosen-of_choose zero cs h (inl e) = (subst (λ x. Chosen x cs) e (Chosen-nil cs), ap length (sym e))
Chosen-of_choose zero cs h (inr n) = absurd n
Chosen-of_choose (suc k) [] h m = absurd m
Chosen-of_choose (suc k) (c ∷ cs) h m =
    elim ((In-append h (map (λ t. c ∷ t) (choose k cs)) (choose (suc k) cs)).0 m) [
      | inl first ↦
          let (t, e, n) = In-map_inv c h (choose k cs) first in
          let (sel, len) = Chosen-of_choose k cs t n in
          (subst (λ x. Chosen x (c ∷ cs)) (sym e) (with_card sel), ap length e ∙ ap suc len)
      | inr later ↦ let (sel, len) = Chosen-of_choose (suc k) cs h later in (without sel, len)
    ]

choose_of_Chosen :
    (k : ℕ) {h : Hand} {cs : List Card} → Chosen h cs → length h ≡ k → In h (choose k cs)
unfolding choose
choose_of_Chosen zero none_left e = inl refl
choose_of_Chosen (suc k) none_left e = absurd (omega arith)
choose_of_Chosen zero (with_card s) e = absurd (omega arith)
choose_of_Chosen (suc k) (with_card {c = c} {h = h} {cs = cs} s) e =
    (In-append _ (map (λ t. c ∷ t) (choose k cs)) (choose (suc k) cs)).1
      (inl (In-map c h (choose k cs) (choose_of_Chosen k s (omega arith))))
choose_of_Chosen zero (without {h = []} s) e = inl refl
choose_of_Chosen zero (without {h = x ∷ h} s) e = absurd (omega arith)
choose_of_Chosen (suc k) (without {c = c} {h = h} {cs = cs} s) e =
    (In-append h (map (λ t. c ∷ t) (choose k cs)) (choose (suc k) cs)).1
      (inr (choose_of_Chosen (suc k) s e))

-- The five nested loops list exactly the selections of five of the cards, in the order of the cards.
pub combinations_iff :
    (cards : List Card) (h : Hand) → In h (combinations cards) ↔ (Chosen h cards × (length h ≡ 5))
unfolding combinations
combinations_iff cards h =
    let same = nested-choose cards 5 0 in
    (
      λ m. Chosen-of_choose 5 cards h (subst (In h) same m),
      λ (s, e). subst (In h) (sym same) (choose_of_Chosen 5 s e),
    )

-- the number of ways to choose k of n
abbrev pub binomial : ℕ → ℕ → ℕ
binomial zero n = 1
binomial (suc k) zero = 0
binomial (suc k) (suc n) = binomial k n + binomial (suc k) n

length-choose : (k : ℕ) (cs : List Card) → length (choose k cs) ≡ binomial k (length cs)
unfolding choose
length-choose zero cs = refl
length-choose (suc k) [] = refl
length-choose (suc k) (c ∷ cs) = omega (
  arith,
  length-append (map (λ t. c ∷ t) (choose k cs)) (choose (suc k) cs),
  length-map (choose k cs) (λ t. c ∷ t),
  length-choose k cs,
  length-choose (suc k) cs,
)

-- From n cards there are as many combinations as there are ways to choose 5 of n.
pub length-combinations :
    (cards : List Card) → length (combinations cards) ≡ binomial 5 (length cards)
unfolding combinations
length-combinations cards = ap length (nested-choose cards 5 0) ∙ length-choose 5 cards

pub combinations-few : (cards : List Card) → length cards < 5 → combinations cards ≡ []
unfolding combinations
combinations-few cards h = nested-choose cards 5 0 ∙ choose_short 5 cards h
