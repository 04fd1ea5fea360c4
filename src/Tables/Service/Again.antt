-- ===== src/Tables/Service/Again.antt =====
-- services/table-manager/internal/application/service.go: a player who joins, leaves and joins again.
use holdem.Prelude.{
  ℕ, zero, suc, ◌≡◌, refl, sym, ap, ◌∙◌, subst, Bool, true, false, ◌==◌, leb, if◌then◌else◌,
  Bool-cases, inl, inr, Option, none, some, List, [], ◌∷◌, ◌++◌, get_elem?, set, ok, Error, fail_if,
  or_fail, or_panic, ◌⊎◌, All-get_elem?, arith,
}
use holdem.Tables.{
  Seat, Table, occupied, seat_where, seat_by_player_id, seat_by_index, can_auto_start,
}
use holdem.Tables.World.{World, HandState, Effect, debited, pure, ◌>>=◌}
use holdem.Tables.Service.{
  start_hand, auto_start, save_table, debit, join_table, leave_table, is_seated, join_key,
}
use holdem.Tables.Service.Money.{
  FreeEmpty, leave_table_total, >>=-ok, >>=-effects, ok_value, some_value, not_failed, vacant_empty,
  sent_last, sent_if_effect,
}

-- Two writes to a place that end with what it had.
set-set-same {ℓ} :
    {A : Type ℓ} (l : List A) (i : ℕ) (a b : A) → get_elem? l i ≡ some a → set (set l i b) i a ≡ l
set-set-same [] i a b h = cc
set-set-same (x ∷ l) zero a b h = cc
set-set-same (x ∷ l) (suc i) a b h = ap (λ y. x ∷ y) (set-set-same l i a b h)

get_elem?-set {ℓ} :
    {A : Type ℓ} (l : List A) (i : ℕ) {a b : A}
    → get_elem? l i ≡ some a
    → get_elem? (set l i b) i ≡ some b
get_elem?-set [] i h = cc
get_elem?-set (x ∷ l) zero h = refl
get_elem?-set (x ∷ l) (suc i) h = get_elem?-set l i h

-- A seat that is written is found, if none was before.
seat_where-set :
    (test : Seat → Bool) (l : List Seat) (i : ℕ) {a b : Seat}
    → seat_where test l ≡ none
    → get_elem? l i ≡ some a
    → test b ≡ true
    → seat_where test (set l i b) ≡ some i
seat_where-set test [] i none_yet h hit = cc
seat_where-set test (x ∷ l) zero none_yet h hit = rw hit refl
seat_where-set test (x ∷ l) (suc i) {a} {b} none_yet h hit = elim (Bool-cases (test x)) [
  | inl found ↦ absurd (some_none (rw found at none_yet))
  | inr miss ↦
      let rest = seat_where-set test l i {a = a} {b = b} (later _ (rw miss at none_yet)) h hit in
      rw (miss, rest) refl
]
  where
    some_none : {n : ℕ} → some n ≡ none → ⊥
    some_none e = cc

    later : (o : Option ℕ) → elim o [ none ↦ none | some i ↦ some (suc i) ] ≡ none → o ≡ none
    later none e = refl
    later (some n) e = absurd (some_none e)

abbrev joined_table : Table → ℕ → Seat → ℕ → ℕ → Table
joined_table t i s player buy_in = record t {
  seats = set t.seats i (record s { player_id = player; stack = buy_in });
}

-- A join that goes well takes a free seat for a player who has none, and its first call is to debit the buy-in.
record Joined (w : World) (player seat_index buy_in : ℕ) (t : Table) (r : Table × Option HandState)
    (sent : List Effect) : Type 0 where
  pub place : ℕ
  pub seat : Seat
  pub new : seat_by_player_id player t ≡ none
  pub sits : get_elem? t.seats place ≡ some seat
  pub free : occupied seat ≡ false
  pub begun : (auto_start w (joined_table t place seat player buy_in) none).0 ≡ ok r
  pub more : List Effect
  pub calls : sent ≡ debited player t.id buy_in (join_key t player seat_index buy_in) ∷ more

unseated : (o : Option ℕ) → is_seated o ≡ false → o ≡ none
unseated none h = refl
unseated (some i) h = cc

not_zero : (n : ℕ) → (n == 0) ≡ true → n ≡ 0
not_zero n h = ground arith

module _ (w : World) where
  join_table-Joined :
      (table_id player seat_index buy_in : ℕ) (t : Table) {r : Table × Option HandState}
      → w.has_wallet ≡ true
      → w.find_table table_id ≡ ok t
      → (join_table w table_id player seat_index buy_in).0 ≡ ok r
      → Joined w player seat_index buy_in t r (join_table w table_id player seat_index buy_in).1
  unfolding join_table
  join_table-Joined table_id player seat_index buy_in t {r} wallet given h =
      let (t', found, h) = >>=-ok (pure (w.find_table table_id)) _ h in
      let (_, paying, h) = >>=-ok (pure (fail_if (leb buy_in 0) Error.invalid_table_config)) _ h in
      let (_, inside, h) =
        >>=-ok (pure (fail_if (leb t'.seat_count seat_index) Error.seat_out_of_range)) _ h in
      let (_, away, h) =
        >>=-ok
          (pure (fail_if (is_seated (seat_by_player_id player t')) Error.player_already_seated)) _
          h in
      let (i, there, h) =
        >>=-ok (pure (or_fail (seat_by_index seat_index t') Error.seat_out_of_range)) _ h in
      let (s, sits, h) = >>=-ok (pure (or_panic (get_elem? t'.seats i))) _ h in
      let (_, vacant, h) = >>=-ok (pure (fail_if (occupied s) Error.seat_occupied)) _ h in
      let (_, paid, h) =
        >>=-ok (debit w player t'.id buy_in (join_key t' player seat_index buy_in)) _ h in
      let joined : Table = joined_table t' i s player buy_in in
      let (r', begun, h) = >>=-ok (auto_start w joined none) _ h in
      let same : t' ≡ t = ok_value (sym found ∙ given) in
      let last : r' ≡ r = sent_last _ _ _ h in
      subst
        (λ x.
          Joined w player seat_index buy_in x r (join_table w table_id player seat_index buy_in).1)
        same
        (record {
          place = i;
          seat = s;
          new = unseated (seat_by_player_id player t') (not_failed _ _ away);
          sits = some_value (get_elem? t'.seats i) sits;
          free = not_failed (occupied s) _ vacant;
          begun = begun ∙ ap ok last;
          more = (auto_start w joined none >>= save_table w).1;
          calls =
              >>=-effects (pure (w.find_table table_id)) _ found
              ∙ >>=-effects (pure (fail_if (leb buy_in 0) Error.invalid_table_config)) _ paying
              ∙ >>=-effects (pure (fail_if (leb t'.seat_count seat_index) Error.seat_out_of_range))
                  _ inside
              ∙ >>=-effects
                  (pure
                    (fail_if (is_seated (seat_by_player_id player t')) Error.player_already_seated))
                  _ away
              ∙ >>=-effects (pure (or_fail (seat_by_index seat_index t') Error.seat_out_of_range)) _
                  there
              ∙ >>=-effects (pure (or_panic (get_elem? t'.seats i))) _ sits
              ∙ >>=-effects (pure (fail_if (occupied s) Error.seat_occupied)) _ vacant
              ∙ >>=-effects (debit w player t'.id buy_in (join_key t' player seat_index buy_in)) _
                  paid
              ∙ ap (λ es. es ++ (auto_start w joined none >>= save_table w).1)
                  (sent_if_effect w.has_wallet _ _ wallet paid);
        })

  -- what a start returns has a state
  started-some :
      (b : Bool) (t : Table) (o : Option HandState) {r : Table × Option HandState}
      → (if b then (start_hand w t >>= λ s. pure (ok (s.0, some s.1))) else pure (ok (t, o))).0
        ≡ ok r
      → r.1 ≡ none
      → r.0 ≡ t
  started-some true t o h idle =
      let (s, _, rest) = >>=-ok (start_hand w t) _ h in
      absurd (some_none (ap (λ (x : Table × Option HandState). x.1) (ok_value rest) ∙ idle))
    where
      some_none : {h : HandState} → some h ≡ none → ⊥
      some_none e = cc
  started-some false t o h idle = sym (ap (λ (x : Table × Option HandState). x.0) (ok_value h))

  auto_start-none :
      (t : Table) {r : Table × Option HandState}
      → (auto_start w t none).0 ≡ ok r
      → r.1 ≡ none
      → r.0 ≡ t
  unfolding auto_start
  auto_start-none t h idle = started-some (can_auto_start t) t none h idle

module _ (w v : World) where
  -- A player who joins a table, without a hand that starts, and leaves it leaves it as it was.
  leave_table-join_table :
      (table_id player seat_index buy_in : ℕ) (t t1 : Table) {r : Table × Option HandState}
      → w.has_wallet ≡ true
      → v.has_wallet ≡ true
      → FreeEmpty t
      → w.find_table table_id ≡ ok t
      → (join_table w table_id player seat_index buy_in).0 ≡ ok (t1, none)
      → v.find_table table_id ≡ ok t1
      → (leave_table v table_id player).0 ≡ ok r
      → r.0 ≡ t
  leave_table-join_table table_id player seat_index buy_in t t1 wallet wallet' free found joins
        found' leaves =
      let j = join_table-Joined w table_id player seat_index buy_in t wallet found joins in
      let l = leave_table_total v table_id player t1 wallet' found' leaves in
      let taken : Seat = record j.seat { player_id = player; stack = buy_in } in
      let is : t1 ≡ joined_table t j.place j.seat player buy_in =
        auto_start-none w _ j.begun refl in
      let place : l.place ≡ j.place = some_eq (
        sym l.his
        ∙ ap (seat_by_player_id player) is
        ∙ seat_where-set (λ s. s.player_id == player) t.seats j.place {b = taken} j.new j.sits
            (self player)) in
      let seat : l.seat ≡ taken = some_seat (
        sym l.sits
        ∙ ap (get_elem? t1.seats) place
        ∙ ap (λ (x : Table). get_elem? x.seats j.place) is
        ∙ get_elem?-set t.seats j.place j.sits) in
      let vacant : j.seat.player_id ≡ 0 = ground (arith, j.free) in
      let empty : j.seat.stack ≡ 0 = vacant_empty (occupied j.seat) j.seat.stack j.free (
        All-get_elem? (λ (x : Seat). (occupied x ≡ true) ⊎ (x.stack ≡ 0)) t.seats j.place j.sits
          free) in
      let same : record j.seat { player_id = 0; stack = 0 } ≡ j.seat =
        λ k. record j.seat { player_id = sym vacant k; stack = sym empty k } in
      ap (λ (x : Table × Option HandState). x.0) l.result
      ∙ (λ k. record (is k) {
        seats = set (is k).seats (place k) (record (seat k) { player_id = 0; stack = 0 });
      })
      ∙ ap (λ seats. record t { seats = seats })
          (ap (λ x. set (set t.seats j.place taken) j.place x) same
            ∙ set-set-same t.seats j.place j.seat taken j.sits)
    where
      some_eq : {a b : ℕ} → some a ≡ some b → a ≡ b
      some_eq e = cc

      some_seat : {a b : Seat} → some a ≡ some b → a ≡ b
      some_seat e = cc

      self : (n : ℕ) → (n == n) ≡ true
      self n = ground arith

-- If a player joins, no hand starts, he leaves, and joins the same seat for the same buy-in again, each on the table that
-- the call before saved, then both joins start with one and the same debit.
pub join_table-same_debit :
    (w v w' : World) (table_id player seat_index buy_in : ℕ) (t t1 : Table)
    {r r' : Table × Option HandState}
    → w.has_wallet ≡ true
    → v.has_wallet ≡ true
    → w'.has_wallet ≡ true
    → FreeEmpty t
    → w.find_table table_id ≡ ok t
    → (join_table w table_id player seat_index buy_in).0 ≡ ok (t1, none)
    → v.find_table table_id ≡ ok t1
    → (leave_table v table_id player).0 ≡ ok r
    → w'.find_table table_id ≡ ok r.0
    → (join_table w' table_id player seat_index buy_in).0 ≡ ok r'
    → (more more' : List Effect) × ((join_table w table_id player seat_index buy_in).1
        ≡ debited player t.id buy_in (join_key t player seat_index buy_in) ∷ more)
      × ((join_table w' table_id player seat_index buy_in).1
          ≡ debited player t.id buy_in (join_key t player seat_index buy_in) ∷ more')
join_table-same_debit w v w' table_id player seat_index buy_in t t1 a b c free found joins found'
      leaves found'' again =
    let back =
      leave_table-join_table w v table_id player seat_index buy_in t t1 a b free found joins found'
        leaves in
    let j = join_table-Joined w table_id player seat_index buy_in t a found joins in
    let j' =
      join_table-Joined w' table_id player seat_index buy_in t c (found'' ∙ ap ok back) again in
    (j.more, j'.more, j.calls, j'.calls)
