-- ===== src/Storage/Others.antt =====
-- What `GameStateRepo.Save` and `Delete` of services/engine do to the rows of other hands, and to those of the hand.
use holdem.Prelude.{
  ◌≡◌, ◌≢◌, refl, ap, inl, inr, ℕ, Bool, true, false, ◌&&◌, not, Bool-cases, ◌==◌, if◌then◌else◌,
  none, List, [], ◌∷◌, map, keep_if, All-append, ok, err, Error, arith,
}
use holdem.Game.{PlayerId, Pot, GameState}
use holdem.Database.{IsHealthy, find_row, exec, query, return, order_by, ◌>>=◌}
use holdem.Database.Reads.{
  SameRead, return-SameRead, >>=-SameRead, query-SameRead, keep_if-kept, keep_if-unmoved,
}
use holdem.Database.Selected.{NoRow, map-All}
use holdem.Database.Tables.{numbered}
use holdem.Storage.{GameRow, PotRow, EligibleRow, Db, Env}
use holdem.Storage.Repository.{
  is_game, player_of, card_of, pot_of, eligible_of, game_row, upsert_game, player_row, card_row,
  pot_row, eligible_row, find_game_state, load_all_players, load_whole_board, load_whole_deck,
  load_pot_eligible, load_each_pot, load_all_pots, find_by_id, save, delete,
}
use holdem.Storage.Saved.{eligible_rows, saved_db, HasDistinct}
use holdem.Storage.Saved.Whole.{save-saved_db}

-- the tables have the same rows of a hand
pub record HasSame (h : ℕ) (db db' : Db) : Type 0 where
  pub same_game : find_row (is_game h) db.games ≡ find_row (is_game h) db'.games
  pub same_players : keep_if (player_of h) db.players ≡ keep_if (player_of h) db'.players
  pub same_board : keep_if (card_of h) db.board ≡ keep_if (card_of h) db'.board
  pub same_deck : keep_if (card_of h) db.deck ≡ keep_if (card_of h) db'.deck
  pub same_pots : keep_if (pot_of h) db.pots ≡ keep_if (pot_of h) db'.pots
  pub same_eligible :
      (i : ℕ)
      → keep_if (λ r. eligible_of h r && r.pot_position == i) db.eligible
        ≡ keep_if (λ r. eligible_of h r && r.pot_position == i) db'.eligible

-- the tables without a hand
abbrev pub deleted_db : ℕ → Db → Db
deleted_db h db = record {
  games = keep_if (λ r. not (is_game h r)) db.games;
  players = keep_if (λ r. not (player_of h r)) db.players;
  board = keep_if (λ r. not (card_of h r)) db.board;
  deck = keep_if (λ r. not (card_of h r)) db.deck;
  pots = keep_if (λ r. not (pot_of h r)) db.pots;
  eligible = keep_if (λ r. not (eligible_of h r)) db.eligible;
}

delete-run :
    (env : Env) → IsHealthy env → (h : ℕ) (db : Db) → delete env h db ≡ (ok tt, deleted_db h db)
unfolding delete exec return ◌>>=◌
delete-run env healthy h db = rw (healthy.runs _ db) refl

module _ (env : Env) (healthy : IsHealthy env) (id_before : PlayerId → PlayerId → Bool) (h : ℕ)
    (db db' : Db) (same : HasSame h db db') where
  load_each_pot-SameRead :
      (rows : List PotRow) → SameRead (load_each_pot env id_before h rows) db db'
  unfolding load_each_pot load_pot_eligible
  load_each_pot-SameRead [] = return-SameRead db db' _
  load_each_pot-SameRead (r ∷ rows) =
      >>=-SameRead db db' _ _
        (query-SameRead db db' env healthy _ _ (
          ap (λ l. order_by id_before (map (λ (r : EligibleRow). r.player_id) l))
            (same.same_eligible r.position)))
        λ eligible.
          >>=-SameRead db db' _ _ (load_each_pot-SameRead rows) λ rest. return-SameRead db db' _

  -- A hand with the same rows is found the same.
  find_by_id-SameRead : SameRead (find_by_id env id_before h) db db'
  unfolding find_by_id find_game_state load_all_players load_whole_board load_whole_deck
      load_all_pots
  find_by_id-SameRead =
      >>=-SameRead db db' _ _
        (>>=-SameRead db db' _ _ (query-SameRead db db' env healthy _ _ same.same_game)
          λ row. return-SameRead db db' _)
        λ row.
          >>=-SameRead db db' _ _
            (>>=-SameRead db db' _ _
              (query-SameRead db db' env healthy _ _ (ap (order_by _) same.same_players))
              λ rows. return-SameRead db db' _)
            λ players.
              >>=-SameRead db db' _ _
                (>>=-SameRead db db' _ _
                  (query-SameRead db db' env healthy _ _ (ap (order_by _) same.same_board))
                  λ rows. return-SameRead db db' _)
                λ board.
                  >>=-SameRead db db' _ _
                    (>>=-SameRead db db' _ _
                      (query-SameRead db db' env healthy _ _ (ap (order_by _) same.same_deck))
                      λ rows.
                        >>=-SameRead db db' _ _ (return-SameRead db db' _)
                          λ cards. return-SameRead db db' _)
                    λ deck.
                      >>=-SameRead db db' _ _
                        (>>=-SameRead db db' _ _
                          (query-SameRead db db' env healthy _ _ (ap (order_by _) same.same_pots))
                          load_each_pot-SameRead)
                        λ pots. return-SameRead db db' _

module _ (h k : ℕ) (apart : h ≢ k) where
  other_hand : (x : ℕ) → (x == h) ≡ true → (x == k) ≡ false
  other_hand x mine = ground arith

  not_mine : (k == h) ≡ false
  not_mine = ground arith

  find_row-upsert_other :
      (row : GameRow) (rows : List GameRow)
      → row.id ≡ k
      → find_row (is_game h) (upsert_game row rows) ≡ find_row (is_game h) rows
  find_row-upsert_other row [] e = rw (find_row, e, not_mine) refl
  find_row-upsert_other row (r ∷ rows) e = elim (Bool-cases (r.id == row.id)) [
    | inl replaced ↦
        let gone : (r.id == h) ≡ false = ground (arith, not_mine) in
        let new : (row.id == h) ≡ false = ground (arith, not_mine) in
        rw (upsert_game, replaced, find_row, new, gone) refl
    | inr kept ↦ elim (Bool-cases (r.id == h)) [
      | inl mine ↦ rw (upsert_game, kept, find_row, mine) refl
      | inr other ↦ rw (upsert_game, kept, find_row, other) (find_row-upsert_other row rows e)
    ]
  ]

  find_row-kept :
      (rows : List GameRow)
      → find_row (is_game h) (keep_if (λ r. not (is_game k r)) rows) ≡ find_row (is_game h) rows
  find_row-kept [] = refl
  find_row-kept (r ∷ rows) = elim (Bool-cases (r.id == h)) [
    | inl mine ↦ rw (keep_if, other_hand r.id mine, find_row, mine) refl
    | inr other ↦ elim (Bool-cases (r.id == k)) [
      | inl gone ↦ rw (keep_if, gone, find_row, other) (find_row-kept rows)
      | inr kept ↦ rw (keep_if, kept, find_row, other) (find_row-kept rows)
    ]
  ]

  no_eligible :
      (i : ℕ) (xs : List (ℕ × Pot))
      → NoRow (λ r. eligible_of h r && r.pot_position == i) (eligible_rows k xs)
  no_eligible i [] = tt
  no_eligible i ((j, p) ∷ xs) =
      All-append _ (map (eligible_row k j) p.eligible) (eligible_rows k xs)
        (map-All _ (eligible_row k j) (λ x. rw not_mine refl) p.eligible) (no_eligible i xs)

  first_test : (b c : Bool) → (b && c) ≡ true → b ≡ true
  first_test true c e = refl
  first_test false c e = e

  saved_db-HasSame :
      (now : ℕ) (g : GameState) (db : Db) → g.id ≡ k → HasSame h (saved_db now g db) db
  saved_db-HasSame now g db e = record {
    same_game = find_row-upsert_other (game_row now g) db.games e;
    same_players = rw e (
        keep_if-unmoved _ (player_of k) (λ r. other_hand r.hand_id) db.players _
          (map-All _ (player_row k) (λ p. not_mine) g.players));
    same_board = rw e (
        keep_if-unmoved _ (card_of k) (λ r. other_hand r.hand_id) db.board _
          (map-All _ (card_row k) (λ c. not_mine) (numbered 0 g.board)));
    same_deck = rw e (
        keep_if-unmoved _ (card_of k) (λ r. other_hand r.hand_id) db.deck _
          (map-All _ (card_row k) (λ c. not_mine) (numbered 0 g.deck.cards)));
    same_pots = rw e (
        keep_if-unmoved _ (pot_of k) (λ r. other_hand r.hand_id) db.pots _
          (map-All _ (pot_row k) (λ p. not_mine) (numbered 0 g.pots)));
    same_eligible = λ i. rw e (
        keep_if-unmoved (λ (r : EligibleRow). eligible_of h r && r.pot_position == i)
          (eligible_of k)
          (λ r mine. other_hand r.hand_id (first_test (r.hand_id == h) (r.pot_position == i) mine))
          db.eligible _ (no_eligible i (numbered 0 g.pots)));
  }

  deleted-HasSame : (db : Db) → HasSame h (deleted_db k db) db
  deleted-HasSame db = record {
    same_game = find_row-kept db.games;
    same_players = keep_if-kept _ (player_of k) (λ r. other_hand r.hand_id) db.players;
    same_board = keep_if-kept _ (card_of k) (λ r. other_hand r.hand_id) db.board;
    same_deck = keep_if-kept _ (card_of k) (λ r. other_hand r.hand_id) db.deck;
    same_pots = keep_if-kept _ (pot_of k) (λ r. other_hand r.hand_id) db.pots;
    same_eligible = λ i.
        keep_if-kept (λ (r : EligibleRow). eligible_of h r && r.pot_position == i) (eligible_of k)
          (λ r mine. other_hand r.hand_id (first_test (r.hand_id == h) (r.pot_position == i) mine))
          db.eligible;
  }

-- Whatever becomes of the save of a hand, any other hand is found as before.
pub find_by_id-save_other :
    (env env' : Env) (id_before : PlayerId → PlayerId → Bool) (g : GameState) (h : ℕ) (db : Db)
    → IsHealthy env'
    → HasDistinct g
    → h ≢ g.id
    → (find_by_id env' id_before h (save env g db).1).0 ≡ (find_by_id env' id_before h db).0
find_by_id-save_other env env' id_before g h db healthy distinct other =
    elim (save-saved_db env g db distinct) [
      | inl saved ↦
          rw saved
            (find_by_id-SameRead env' healthy id_before h (saved_db env.now g db) db
              (saved_db-HasSame h g.id other env.now g db refl)).0
      | inr (failed, undone) ↦ rw undone refl
    ]

find_row-deleted :
    (k : ℕ) (rows : List GameRow)
    → find_row (is_game k) (keep_if (λ r. not (is_game k r)) rows) ≡ none
find_row-deleted k [] = refl
find_row-deleted k (r ∷ rows) = elim (Bool-cases (r.id == k)) [
  | inl gone ↦ rw (keep_if, gone) (find_row-deleted k rows)
  | inr kept ↦ rw (keep_if, kept, find_row, kept) (find_row-deleted k rows)
]

find_by_id-missing :
    (env : Env) (id_before : PlayerId → PlayerId → Bool) (h : ℕ) (db : Db)
    → IsHealthy env
    → find_row (is_game h) db.games ≡ none
    → (find_by_id env id_before h db).0 ≡ err Error.game_not_found
unfolding find_by_id find_game_state return query ◌>>=◌
find_by_id-missing env id_before h db healthy missing = rw (healthy.runs _ _, missing) refl

-- A hand that was deleted where no statement fails is not found, and any other hand is found as before.
pub find_by_id-delete :
    (env env' : Env) (id_before : PlayerId → PlayerId → Bool) (k h : ℕ) (db : Db)
    → IsHealthy env
    → IsHealthy env'
    → (find_by_id env' id_before h (delete env k db).1).0
      ≡ (if h == k then err Error.game_not_found else (find_by_id env' id_before h db).0)
find_by_id-delete env env' id_before k h db healthy healthy' =
    rw (delete-run env healthy k db) (elim (Bool-cases (h == k)) [
      | inl same ↦
          let equal : h ≡ k = ground arith in
          rw same (
            find_by_id-missing env' id_before h (deleted_db k db) healthy'
              (rw equal (find_row-deleted k db.games)))
      | inr other ↦
          let apart : h ≢ k = λ e. ground (arith, e) in
          rw other
            (find_by_id-SameRead env' healthy' id_before h (deleted_db k db) db
              (deleted-HasSame h k apart db)).0
    ])
