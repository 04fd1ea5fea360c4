-- ===== src/Storage/RoundTrip/Rows.antt =====
-- The rows of a saved hand, read back: for `GameStateRepo.FindByID` of services/engine.
use holdem.Prelude.{
  ◌≡◌, refl, sym, ap, ◌∙◌, inl, inr, ℕ, suc, ◌≤◌, ◌<◌, Bool, true, false, ◌&&◌, leb, Bool-cases,
  ◌==◌, none, some, List, [], ◌∷◌, ◌++◌, map, keep_if, All, All-append, ok, arith,
}
use holdem.Cards.{Card, is_valid, card_string}
use holdem.Cards.Deck.{new_deck_from_cards}
use holdem.Cards.Parser.RoundTrip.{parse-card_string}
use holdem.Game.{PlayerId, Player, Pot, GameState, fixed_limit}
use holdem.Database.{IsHealthy, find_row, return, order_by}
use holdem.Database.Selected.{
  NoRow, All-imp, map-All, keep_if-NoRow, keep_if_every, keep_if-append, keep_if-replaced,
  order_by-numbered, scan_rows-map,
}
use holdem.Database.Tables.{numbered, scan_rows}
use holdem.Database.Tables.Runs.{append_assoc, append_nil, >>=-run, query-run}
use holdem.Storage.{GameRow, CardRow, EligibleRow, Db, Env}
use holdem.Storage.Mappers.{player_status_from_string-player_status_to_string}
use holdem.Storage.Repository.{
  is_game, card_of, game_row, upsert_game, player_row, card_row, pot_row, eligible_row, scan_player,
  scan_card, load_pot_eligible, load_each_pot,
}
use holdem.Storage.Saved.{eligible_rows, others_and}
use holdem.Storage.Saved.Keys.{eq_refl, other_number}

-- the cards of the hand are cards of a pack
pub record HasCards (g : GameState) : Type 0 where
  pub hole_valid :
      All
        (λ (p : Player). (is_valid p.hole_cards.0 ≡ true) × (is_valid p.hole_cards.1 ≡ true))
        g.players
  pub board_valid : All (λ c. is_valid c ≡ true) g.board
  pub deck_valid : All (λ c. is_valid c ≡ true) g.deck.cards

abbrev pub by_position : Player → Player → Bool
by_position p o = leb p.position o.position

-- the id of the table that the database has for the hand
abbrev pub table_of : GameState → List GameRow → ℕ
table_of g rows = elim (find_row (is_game g.id) rows) [ none ↦ g.table_id | some r ↦ r.table_id ]

-- the hand as the database gives it back: the players in the order of their positions, the players of a pot in that of
-- their ids, the table of the first save, and no function that shuffles
abbrev pub as_stored : (PlayerId → PlayerId → Bool) → List GameRow → GameState → GameState
as_stored id_before rows g = record g {
  table_id = table_of g rows;
  players = order_by by_position g.players;
  pots = map (λ (p : Pot). record p { eligible = order_by id_before p.eligible }) g.pots;
  config = record g.config { structure = fixed_limit };
  deck = new_deck_from_cards g.deck.cards;
}

pub find_row-upsert_game :
    (now : ℕ) (g : GameState) (rows : List GameRow)
    → find_row (is_game g.id) (upsert_game (game_row now g) rows)
      ≡ some (record (game_row now g) { table_id = table_of g rows })
find_row-upsert_game now g [] = rw (find_row, eq_refl g.id) refl
find_row-upsert_game now g (r ∷ rows) = elim (Bool-cases (r.id == g.id)) [
  | inl same ↦ rw (upsert_game, table_of, same, find_row, eq_refl g.id) refl
  | inr other ↦ rw (upsert_game, table_of, other, find_row, other) (find_row-upsert_game now g rows)
]

pub scan_player-player_row :
    (h : ℕ) (p : Player)
    → (is_valid p.hole_cards.0 ≡ true) × (is_valid p.hole_cards.1 ≡ true)
    → scan_player (player_row h p) ≡ ok p
unfolding scan_player
scan_player-player_row h p (first, second) =
    rw
      (
        parse-card_string p.hole_cards.0 first,
        parse-card_string p.hole_cards.1 second,
        player_status_from_string-player_status_to_string p.status,
      )
      refl

pub map-id : {A : Type 0} (xs : List A) → map (λ x. x) xs ≡ xs
map-id [] = refl
map-id (x ∷ xs) = ap (λ l. x ∷ l) (map-id xs)

map-numbered : {A : Type 0} (i : ℕ) (xs : List A) → map (λ (x : ℕ × A). x.1) (numbered i xs) ≡ xs
map-numbered i [] = refl
map-numbered i (x ∷ xs) = ap (λ l. x ∷ l) (map-numbered (suc i) xs)

numbered-All :
    {A : Type 0} (P : A → Type 0) (i : ℕ) (xs : List A)
    → All P xs
    → All (λ (x : ℕ × A). P x.1) (numbered i xs)
numbered-All P i [] a = tt
numbered-All P i (x ∷ xs) (p, a) = (p, numbered-All P (suc i) xs a)

-- The cards that were numbered are read back.
pub cards_read :
    (h : ℕ) (rows : List CardRow) (cards : List Card)
    → All (λ c. is_valid c ≡ true) cards
    → scan_rows scan_card (
        order_by
          (λ a b. leb a.position b.position)
          (keep_if (card_of h) (others_and (card_of h) rows (map (card_row h) (numbered 0 cards)))))
      ≡ ok cards
unfolding scan_card
cards_read h rows cards valid =
    rw
      (
        keep_if-replaced (card_of h) rows (map (card_row h) (numbered 0 cards))
            (map-All _ (card_row h) (λ c. eq_refl h) (numbered 0 cards)),
        order_by-numbered (λ (a b : CardRow). leb a.position b.position) (card_row h)
            (λ i j a b. refl) 0 cards,
      )
      (scan_rows-map scan_card (card_row h) (λ (x : ℕ × Card). x.1) (numbered 0 cards)
          (numbered-All
            (λ c. scan_card (record { hand_id = h; position = 0; card = card_string c }) ≡ ok c) 0
            cards (All-imp _ _ parse-card_string cards valid))
        ∙ ap (λ l. ok l) (map-numbered 0 cards))

later_eligible :
    (h i j : ℕ) (xs : List Pot)
    → i < j
    → NoRow
        (λ (o : EligibleRow). o.hand_id == h && o.pot_position == i)
        (eligible_rows h (numbered j xs))
later_eligible h i j [] less = tt
later_eligible h i j (p ∷ ps) less =
    All-append _ (map (eligible_row h j) p.eligible) (eligible_rows h (numbered (suc j) ps))
      (map-All _ (eligible_row h j) (λ k. above h i j less) p.eligible)
      (later_eligible h i (suc j) ps (omega arith))
  where
    above : (h i j : ℕ) → i < j → (h == h && j == i) ≡ false
    above h i j less = ground arith

ids_read :
    (h i : ℕ) (ks : List PlayerId)
    → map (λ (r : EligibleRow). r.player_id) (map (eligible_row h i) ks) ≡ ks
ids_read h i [] = refl
ids_read h i (k ∷ ks) = ap (λ l. k ∷ l) (ids_read h i ks)

-- The players of one pot are selected.
eligible_read :
    (h i : ℕ) (before : List EligibleRow) (p : Pot) (ps : List Pot)
    → NoRow (λ (o : EligibleRow). o.hand_id == h && o.pot_position == i) before
    → keep_if
        (λ (o : EligibleRow). o.hand_id == h && o.pot_position == i)
        (before ++ eligible_rows h (numbered i (p ∷ ps)))
      ≡ map (eligible_row h i) p.eligible
eligible_read h i before p ps free =
    let test : EligibleRow → Bool = λ o. o.hand_id == h && o.pot_position == i in
    let mine = map (eligible_row h i) p.eligible in
    let rest = eligible_rows h (numbered (suc i) ps) in
    keep_if-append test before (mine ++ rest)
    ∙ rw
        (
          keep_if-NoRow test before free,
          keep_if-append test mine rest,
          keep_if_every test mine
              (map-All _ (eligible_row h i) (λ k. rw (eq_refl h, eq_refl i) refl) p.eligible),
          keep_if-NoRow test rest (later_eligible h i (suc i) ps (omega arith)),
        )
        (append_nil mine)

module _ (env : Env) (healthy : IsHealthy env) (id_before : PlayerId → PlayerId → Bool)
    (h : ℕ) where
  pub load_each_pot-run :
      (i : ℕ) (ps : List Pot) (db : Db) (before : List EligibleRow)
      → db.eligible ≡ before ++ eligible_rows h (numbered i ps)
      → ((k : ℕ)
          → i ≤ k
          → NoRow (λ (o : EligibleRow). o.hand_id == h && o.pot_position == k) before)
      → load_each_pot env id_before h (map (pot_row h) (numbered i ps)) db
        ≡ (ok (map (λ (p : Pot). record p { eligible = order_by id_before p.eligible }) ps), db)
  unfolding load_each_pot load_pot_eligible return
  load_each_pot-run i [] db before there free = refl
  load_each_pot-run i (p ∷ ps) db before there free =
      let read = eligible_read h i before p ps (free i (omega arith)) in
      let rest =
        load_each_pot-run (suc i) ps db (before ++ map (eligible_row h i) p.eligible)
          (there ∙ sym (append_assoc before _ _))
          (λ k above.
            All-append _ before (map (eligible_row h i) p.eligible) (free k (omega arith))
              (map-All _ (eligible_row h i) (λ x. other_number h i k above) p.eligible)) in
      >>=-run _ _ db db _ (query-run env healthy _ _ db)
      ∙ (>>=-run _ _ db db _ rest ∙ rw (there, read, ids_read h i p.eligible) refl)
