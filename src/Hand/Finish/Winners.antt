-- ===== src/Hand/Finish/Winners.antt =====
-- Who wins a pot.
use holdem.Prelude.{
  ◌≡◌, ◌≢◌, ◌⊎◌, ◌↔◌, refl, sym, ap, ◌∙◌, subst, inl, inr, Option, none, some, List, [], ◌∷◌, ◌++◌,
  In, In-append, arith,
}
use holdem.Prelude.Dict.{Dict, lookup}
use holdem.Cards.{Card}
use holdem.Game.{PlayerId}
use holdem.Evaluator.{HandResult, Comparison, less, equal, greater}
use holdem.Evaluator.Order.{opposite}
use holdem.Hand.Finish.{HandEvaluator, challenge, best_hands_from, best_hands_in_pot, result_of}

-- What the client needs of an evaluator: on the results that it gives, the comparison is a total preorder.
pub record Laws (ev : HandEvaluator) : Type 1 where
  pub Valid : HandResult → Type 0
  pub best_valid :
      (id : PlayerId) (hole : Card × Card) (board : List Card) → Valid (ev.best id hole board)
  pub turn : (a b : HandResult) → Valid a → Valid b → ev.compare b a ≡ opposite (ev.compare a b)
  pub trans :
      (a b c : HandResult)
      → Valid a
      → Valid b
      → Valid c
      → ev.compare a b ≢ greater
      → ev.compare b c ≢ greater
      → ev.compare a c ≢ greater

-- a player with a result
abbrev pub Known : Dict HandResult → PlayerId → Type 0
Known results k = (r : HandResult) × (lookup k results ≡ some r)

-- Every result in the map is valid.
abbrev pub AllValid : (HandResult → Type 0) → Dict HandResult → Type 0
AllValid V results = (k : PlayerId) (r : HandResult) → lookup k results ≡ some r → V r

module _ (ev : HandEvaluator) (laws : Laws ev) (results : Dict HandResult)
    (valid : AllValid laws.Valid results) where
  -- k's result does not beat that of w
  pub NotAbove : PlayerId → PlayerId → Type 0
  NotAbove k w = ev.compare (result_of results k) (result_of results w) ≢ greater

  -- The list holds exactly the known players of S that no known player of S beats; and if anybody in S
  -- is known, it is not empty.
  record IsBest (S : PlayerId → Type 0) (best : List PlayerId) : Type 0 where
    member_iff :
        (w : PlayerId)
        → In w best
          ↔ (S w × Known results w × ((k : PlayerId) → S k → Known results k → NotAbove k w))
    inhabited : (k : PlayerId) → S k → Known results k → best ≢ []

  Valid_of_Known : (k : PlayerId) → Known results k → laws.Valid (result_of results k)
  Valid_of_Known k (r, e) = rw (e, result_of) (valid k r e)

  NotAbove-trans :
      (a b c : PlayerId)
      → Known results a
      → Known results b
      → Known results c
      → NotAbove a b
      → NotAbove b c
      → NotAbove a c
  unfolding NotAbove
  NotAbove-trans a b c ka kb kc =
      laws.trans (result_of results a) (result_of results b) (result_of results c)
        (Valid_of_Known a ka) (Valid_of_Known b kb) (Valid_of_Known c kc)

  turned :
      (a b : PlayerId)
      → Known results a
      → Known results b
      → ev.compare (result_of results b) (result_of results a)
        ≡ opposite (ev.compare (result_of results a) (result_of results b))
  turned a b ka kb =
      laws.turn (result_of results a) (result_of results b) (Valid_of_Known a ka)
        (Valid_of_Known b kb)

  NotAbove-self : (a : PlayerId) → Known results a → NotAbove a a
  unfolding NotAbove
  NotAbove-self a ka = ground (arith, turned a a ka ka)

  -- S with one more player
  With : (PlayerId → Type 0) → PlayerId → PlayerId → Type 0
  With S id w = S w ⊎ (id ≡ w)

  module _ (S : PlayerId → Type 0) (id : PlayerId) where
    unknown-IsBest :
        (best : List PlayerId) → lookup id results ≡ none → IsBest S best → IsBest (With S id) best
    unfolding With
    unknown-IsBest best none_here b = record {
      member_iff = λ w. (
        λ m.
            let (s, kn, top) = (b.member_iff w).0 m in
            (
              inl s,
              kn,
              λ k sk kk. elim sk [ inl s' ↦ top k s' kk | inr e ↦ absurd (unknown k e kk) ],
            ),
        λ (sw, kn, top). elim sw [
          | inl s ↦ (b.member_iff w).1 (s, kn, λ k s' kk. top k (inl s') kk)
          | inr e ↦ absurd (unknown w e kn)
        ],
      );
      inhabited =
          λ k sk kk. elim sk [ inl s ↦ b.inhabited k s kk | inr e ↦ absurd (unknown k e kk) ];
    }
      where
        unknown : (k : PlayerId) → id ≡ k → Known results k → ⊥
        unknown k e (r, f) = cc

    -- a new best hand alone
    alone-IsBest :
        Known results id
        → ((k : PlayerId) → S k → Known results k → NotAbove k id)
        → ((w : PlayerId) → S w → Known results w → NotAbove id w → ⊥)
        → IsBest (With S id) (id ∷ [])
    unfolding With
    alone-IsBest known over beats = record {
      member_iff = λ w. (
        λ m. elim m [
          | inl e ↦ (
            inr e,
            subst (Known results) e known,
            λ k sk kk. elim sk [
              | inl s ↦ subst (NotAbove k) e (over k s kk)
              | inr f ↦ subst (λ x. NotAbove x w) f (subst (NotAbove id) e (NotAbove-self id known))
            ],
          )
          | inr n ↦ absurd n
        ],
        λ (sw, kn, top). elim sw [
          | inl s ↦ absurd (beats w s kn (top id (inr refl) known))
          | inr e ↦ inl e
        ],
      );
      inhabited = λ k sk kk e. cc;
    }

    -- a hand that ties with the best so far
    joined-IsBest :
        (b : PlayerId) (bs : List PlayerId)
        → Known results id
        → NotAbove id b
        → NotAbove b id
        → IsBest S (b ∷ bs)
        → IsBest (With S id) ((b ∷ bs) ++ id ∷ [])
    unfolding With
    joined-IsBest b bs known below above h =
        let (sb, kb, topb) = (h.member_iff b).0 (inl refl) in
        record {
          member_iff = λ w. (
            λ m. elim ((In-append w (b ∷ bs) (id ∷ [])).0 m) [
              | inl old ↦
                  let (s, kw, top) = (h.member_iff w).0 old in
                  (
                    inl s,
                    kw,
                    λ k sk kk. elim sk [
                      | inl s' ↦ top k s' kk
                      | inr f ↦
                          subst (λ x. NotAbove x w) f
                            (NotAbove-trans id b w known kb kw below (top b sb kb))
                    ],
                  )
              | inr new ↦ elim new [
                | inl e ↦ (
                  inr e,
                  subst (Known results) e known,
                  λ k sk kk. subst (NotAbove k) e (elim sk [
                    | inl s ↦ NotAbove-trans k b id kk kb known (topb k s kk) above
                    | inr f ↦ subst (λ x. NotAbove x id) f (NotAbove-self id known)
                  ]),
                )
                | inr n ↦ absurd n
              ]
            ],
            λ (sw, kn, top). (In-append w (b ∷ bs) (id ∷ [])).1 (elim sw [
              | inl s ↦ inl ((h.member_iff w).1 (s, kn, λ k s' kk. top k (inl s') kk))
              | inr e ↦ inr (inl e)
            ]),
          );
          inhabited = λ k sk kk e. cc;
        }

    -- a hand that the best so far beats
    beaten-IsBest :
        (b : PlayerId) (bs : List PlayerId)
        → Known results id
        → NotAbove id b
        → (NotAbove b id → ⊥)
        → IsBest S (b ∷ bs)
        → IsBest (With S id) (b ∷ bs)
    unfolding With
    beaten-IsBest b bs known below beats h =
        let (sb, kb, topb) = (h.member_iff b).0 (inl refl) in
        record {
          member_iff = λ w. (
            λ m.
                let (s, kw, top) = (h.member_iff w).0 m in
                (
                  inl s,
                  kw,
                  λ k sk kk. elim sk [
                    | inl s' ↦ top k s' kk
                    | inr f ↦
                        subst (λ x. NotAbove x w) f
                          (NotAbove-trans id b w known kb kw below (top b sb kb))
                  ],
                ),
            λ (sw, kn, top). elim sw [
              | inl s ↦ (h.member_iff w).1 (s, kn, λ k s' kk. top k (inl s') kk)
              | inr e ↦ absurd (beats (subst (NotAbove b) (sym e) (top b (inl sb) kb)))
            ],
          );
          inhabited = λ k sk kk e. cc;
        }

    -- One round of the loop, for a player with a result.
    challenge-IsBest :
        (best : List PlayerId) {r : HandResult}
        → lookup id results ≡ some r
        → IsBest S best
        → IsBest (With S id) (challenge ev results best id r)
    unfolding NotAbove
    challenge-IsBest [] {r} e h =
        alone-IsBest (r, e) (λ k s kk. absurd (h.inhabited k s kk refl))
          (λ w s kw t. h.inhabited w s kw refl)
    challenge-IsBest (b ∷ bs) {r} e h =
        decide (ev.compare (result_of results id) (result_of results b)) refl
      where
        mine : result_of results id ≡ r
        mine = rw (e, result_of)

        known_best : Known results b
        known_best = ((h.member_iff b).0 (inl refl)).1

        tops : (k : PlayerId) → S k → Known results k → NotAbove k b
        tops = ((h.member_iff b).0 (inl refl)).2

        seen_from :
            (c : Comparison)
            → ev.compare (result_of results id) (result_of results b) ≡ c
            → ev.compare (result_of results b) (result_of results id) ≡ opposite c
        seen_from c f = turned id b (r, e) known_best ∙ ap opposite f

        stated :
            (c : Comparison)
            → ev.compare (result_of results id) (result_of results b) ≡ c
            → ev.compare r (result_of results b) ≡ c
        stated c f = ap (λ x. ev.compare x (result_of results b)) (sym mine) ∙ f

        decide :
            (c : Comparison)
            → ev.compare (result_of results id) (result_of results b) ≡ c
            → IsBest (With S id) (challenge ev results (b ∷ bs) id r)
        decide greater f = rw (stated greater f) (
            alone-IsBest (r, e)
              (λ k s kk.
                NotAbove-trans k b id kk known_best (r, e) (tops k s kk)
                  (λ t. cc (seen_from greater f)))
              (λ w s kw t. NotAbove-trans id w b (r, e) kw known_best t (tops w s kw) f))
        decide equal f =
            rw (stated equal f)
              (joined-IsBest b bs (r, e) (λ t. cc) (λ t. cc (seen_from equal f)) h)
        decide less f =
            rw (stated less f) (beaten-IsBest b bs (r, e) (λ t. cc) (λ n. n (seen_from less f)) h)

  -- The players of S, and then those of a list.
  Then : (PlayerId → Type 0) → List PlayerId → PlayerId → Type 0
  Then S ids w = S w ⊎ In w ids

  IsBest-iff :
      (S T : PlayerId → Type 0) (best : List PlayerId)
      → ((w : PlayerId) → S w ↔ T w)
      → IsBest S best
      → IsBest T best
  IsBest-iff S T best same h = record {
    member_iff = λ w. (
      λ m.
          let (s, kn, top) = (h.member_iff w).0 m in
          ((same w).0 s, kn, λ k t kk. top k ((same k).1 t) kk),
      λ (t, kn, top). (h.member_iff w).1 ((same w).1 t, kn, λ k s kk. top k ((same k).0 s) kk),
    );
    inhabited = λ k t kk. h.inhabited k ((same k).1 t) kk;
  }

  best_hands_from-IsBest :
      (S : PlayerId → Type 0) (best ids : List PlayerId)
      → IsBest S best
      → IsBest (Then S ids) (best_hands_from ev results best ids)
  unfolding best_hands_from With Then
  best_hands_from-IsBest S best [] h =
      IsBest-iff S (Then S []) best
        (λ w. (λ s. inl s, λ t. elim t [ inl s ↦ s | inr n ↦ absurd n ])) h
  best_hands_from-IsBest S best (id ∷ ids) h =
      IsBest-iff (Then (With S id) ids) (Then S (id ∷ ids)) _
        (λ w. (
          λ t. elim t [
            | inl sw ↦ elim sw [ inl s ↦ inl s | inr e ↦ inr (inl e) ]
            | inr n ↦ inr (inr n)
          ],
          λ t. elim t [
            | inl s ↦ inl (inl s)
            | inr n ↦ elim n [ inl e ↦ inl (inr e) | inr m ↦ inr m ]
          ],
        ))
        (best_hands_from-IsBest (With S id) _ ids (after (lookup id results) refl))
    where
      after :
          (o : Option HandResult)
          → lookup id results ≡ o
          → IsBest
              (With S id)
              (elim (lookup id results) [ none ↦ best | some r ↦ challenge ev results best id r ])
      after none e = rw e (unknown-IsBest S id best e h)
      after (some r) e = rw e (challenge-IsBest S id best e h)

  best_hands_in_pot-IsBest :
      (eligible : List PlayerId)
      → IsBest (λ w. In w eligible) (best_hands_in_pot ev eligible results)
  unfolding best_hands_in_pot Then
  best_hands_in_pot-IsBest eligible =
      IsBest-iff (Then (λ w. ⊥) eligible) (λ w. In w eligible) _
        (λ w. (λ t. elim t [ inl n ↦ absurd n | inr m ↦ m ], λ m. inr m))
        (best_hands_from-IsBest (λ w. ⊥) [] eligible
          (record {
            member_iff = λ w. (λ m. absurd m, λ t. absurd t.0);
            inhabited = λ k n kk. absurd n;
          }))

  -- With an evaluator that compares valid results by a total preorder, and a map of valid results,
  -- the winners of a pot are exactly its eligible players with a result that no result of an
  -- eligible player beats.
  pub best_hands_in_pot_iff :
      (eligible : List PlayerId) (w : PlayerId)
      → In w (best_hands_in_pot ev eligible results) ↔ (
          In w eligible
          × Known results w
          × ((k : PlayerId) → In k eligible → Known results k → NotAbove k w))
  best_hands_in_pot_iff eligible = (best_hands_in_pot-IsBest eligible).member_iff

  -- With the same evaluator and map, a pot that an eligible player with a result can claim has a
  -- winner.
  pub best_hands_in_pot-nonempty :
      (eligible : List PlayerId) (k : PlayerId)
      → In k eligible
      → Known results k
      → best_hands_in_pot ev eligible results ≢ []
  best_hands_in_pot-nonempty eligible = (best_hands_in_pot-IsBest eligible).inhabited
