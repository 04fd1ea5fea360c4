-- ===== src/Tables/Service/Money.antt =====
-- The chips at a table when players come and go.
use holdem.Prelude.{
  ℕ, ◌+◌, ◌≡◌, refl, sym, ap, ◌∙◌, subst, Bool, true, false, leb, inl, inr, Option, none, some,
  List, [], ◌∷◌, ◌++◌, get_elem?, set, Outcome, ok, err, panic, Error, fail_if, or_fail, or_panic,
  sum_of, sum_of-set, ◌⊎◌, if◌then◌else◌, All, All-get_elem?, arith,
}
use holdem.Tables.{
  Seat, Table, TableStatus, idle, in_hand, occupied, seat_by_player_id, seat_by_index,
  can_auto_start,
}
use holdem.Tables.World.{World, HandState, credited, saved, Job, pure, send, Effect, ◌>>=◌, ◌>>◌}
use holdem.Tables.Service.{
  start_hand, auto_start, save_table, debit, credit, join_table, leave_table, is_seated, is_in_hand,
  join_key, cashout_key,
}

abbrev pub stacks_at : Table → ℕ
stacks_at t = sum_of (λ (s : Seat). s.stack) t.seats

-- A free seat has no chips.
abbrev pub FreeEmpty : Table → Type 0
FreeEmpty t = All (λ (s : Seat). (occupied s ≡ true) ⊎ (s.stack ≡ 0)) t.seats

pub >>=-ok :
    {A B : Type 0} (m : Job A) (f : A → Job B) {b : B}
    → (m >>= f).0 ≡ ok b
    → (a : A) × (m.0 ≡ ok a) × ((f a).0 ≡ ok b)
>>=-ok (ok a, before) f h = (a, refl, h)
>>=-ok (err e, before) f h = cc
>>=-ok (panic, before) f h = cc

pub ok_value : {A : Type 0} {x y : A} → Outcome.ok x ≡ ok y → x ≡ y
ok_value e = cc

pub some_value : {A : Type 0} (o : Option A) {x : A} → or_panic o ≡ ok x → o ≡ some x
some_value none e = cc
some_value (some x) e = cc

pub found_value : {A : Type 0} (o : Option A) (e : Error) {x : A} → or_fail o e ≡ ok x → o ≡ some x
found_value none e h = cc
found_value (some x) e h = cc

not_in_hand :
    (s : TableStatus) (e : Error) {u : Unit {0}} → fail_if (is_in_hand s) e ≡ ok u → s ≡ idle
not_in_hand idle e h = refl
not_in_hand in_hand e h = cc

pub vacant_empty : (b : Bool) (n : ℕ) → b ≡ false → (b ≡ true) ⊎ (n ≡ 0) → n ≡ 0
vacant_empty true n e z = cc
vacant_empty false n e (inl o) = cc
vacant_empty false n e (inr z) = z

pub not_failed : (b : Bool) (e : Error) {u : Unit {0}} → fail_if b e ≡ ok u → b ≡ false
not_failed true e h = cc
not_failed false e h = refl

answered-seats :
    (m : Job HandState) (t : Table) (f : HandState → Table) {r : Table × HandState}
    → ((h : HandState) → (f h).seats ≡ t.seats)
    → (m >>= λ h. pure (ok (f h, h))).0 ≡ ok r
    → r.0.seats ≡ t.seats
answered-seats (ok h, before) t f same e =
    ap (λ (x : Table × HandState). x.0.seats) (sym (ok_value e)) ∙ same h
answered-seats (err x, before) t f same e = cc
answered-seats (panic, before) t f same e = cc

pub sent_last :
    {A : Type 0} (o : Option Error) (x : Effect) (a : A) {r : A}
    → (send o x >> pure (ok a)).0 ≡ ok r
    → a ≡ r
sent_last none x a e = cc
sent_last (some y) x a e = cc

-- What a sequence of calls sends, when the first one ends well.
pub >>=-effects :
    {A B : Type 0} (m : Job A) (f : A → Job B) {a : A} → m.0 ≡ ok a → (m >>= f).1 ≡ m.1 ++ (f a).1
>>=-effects (ok x, before) f h = ap (λ y. before ++ (f y).1) (ok_value h)
>>=-effects (err e, before) f h = cc
>>=-effects (panic, before) f h = cc

sent_effect :
    (o : Option Error) (x : Effect) {u : Unit {0}} → (send o x).0 ≡ ok u → (send o x).1 ≡ x ∷ []
sent_effect none x h = refl
sent_effect (some e) x h = cc

pub sent_if_effect :
    (b : Bool) (o : Option Error) (x : Effect) {u : Unit {0}}
    → b ≡ true
    → (if b then send o x else pure (ok tt)).0 ≡ ok u
    → (if b then send o x else pure (ok tt)).1 ≡ x ∷ []
sent_if_effect true o x e h = sent_effect o x h
sent_if_effect false o x e h = cc

saved_last :
    {A : Type 0} (o : Option Error) (x : Effect) (a : A) {r : A}
    → (send o x >> pure (ok a)).0 ≡ ok r
    → (send o x >> pure (ok a)).1 ≡ x ∷ []
saved_last none x a h = refl
saved_last (some e) x a h = cc

-- What `LeaveTable` does: the player sits at a place of the table, and its chips are the ones that are credited to
-- him, under their key, before the table without them is saved.
pub record Left (player : ℕ) (t : Table) (r : Table × Option HandState) (sent : List Effect)
    : Type 0 where
  pub place : ℕ
  pub seat : Seat
  pub no_hand : t.status ≡ idle
  pub his : seat_by_player_id player t ≡ some place
  pub sits : get_elem? t.seats place ≡ some seat
  pub result :
      r ≡ (record t { seats = set t.seats place (record seat { player_id = 0; stack = 0 }) }, none)
  pub total : stacks_at r.0 + seat.stack ≡ stacks_at t
  pub calls :
      sent
      ≡ credited player t.id seat.stack (cashout_key t player seat.index seat.stack)
        ∷ saved r.0
        ∷ []

module _ (w : World) where
  start_hand-seats :
      (t : Table) {r : Table × HandState} → (start_hand w t).0 ≡ ok r → r.0.seats ≡ t.seats
  unfolding start_hand
  start_hand-seats t h = answered-seats _ t _ (λ x. refl) h

  started-seats :
      (b : Bool) (t : Table) (o : Option HandState) {r : Table × Option HandState}
      → (if b then (start_hand w t >>= λ s. pure (ok (s.0, some s.1))) else pure (ok (t, o))).0
        ≡ ok r
      → r.0.seats ≡ t.seats
  started-seats true t o h =
      let (s, begun, rest) = >>=-ok (start_hand w t) _ h in
      ap (λ (x : Table × Option HandState). x.0.seats) (sym (ok_value rest))
      ∙ start_hand-seats t begun
  started-seats false t o h = ap (λ (x : Table × Option HandState). x.0.seats) (sym (ok_value h))

  auto_start-seats :
      (t : Table) (o : Option HandState) {r : Table × Option HandState}
      → (auto_start w t o).0 ≡ ok r
      → r.0.seats ≡ t.seats
  unfolding auto_start
  auto_start-seats t o h = started-seats (can_auto_start t) t o h

  -- A player who joins brings exactly the buy-in to the table, whether a hand starts or not, if no free seat has
  -- chips.
  pub join_table_total :
      (table_id player seat_index buy_in : ℕ) (t : Table) {r : Table × Option HandState}
      → w.find_table table_id ≡ ok t
      → FreeEmpty t
      → (join_table w table_id player seat_index buy_in).0 ≡ ok r
      → stacks_at r.0 ≡ stacks_at t + buy_in
  unfolding join_table
  join_table_total table_id player seat_index buy_in t given free h =
      let (t', found, h) = >>=-ok (pure (w.find_table table_id)) _ h in
      let (_, _, h) = >>=-ok (pure (fail_if (leb buy_in 0) Error.invalid_table_config)) _ h in
      let (_, _, h) =
        >>=-ok (pure (fail_if (leb t'.seat_count seat_index) Error.seat_out_of_range)) _ h in
      let (_, _, h) =
        >>=-ok
          (pure (fail_if (is_seated (seat_by_player_id player t')) Error.player_already_seated)) _
          h in
      let (i, _, h) =
        >>=-ok (pure (or_fail (seat_by_index seat_index t') Error.seat_out_of_range)) _ h in
      let (s, sits, h) = >>=-ok (pure (or_panic (get_elem? t'.seats i))) _ h in
      let (_, vacant, h) = >>=-ok (pure (fail_if (occupied s) Error.seat_occupied)) _ h in
      let (_, _, h) =
        >>=-ok (debit w player t'.id buy_in (join_key t' player seat_index buy_in)) _ h in
      let joined : Table = record t' {
        seats = set t'.seats i (record s { player_id = player; stack = buy_in });
      } in
      let (r', begun, h) = >>=-ok (auto_start w joined none) _ h in
      let same : t' ≡ t = ok_value (sym found ∙ given) in
      let sits : get_elem? t'.seats i ≡ some s = some_value (get_elem? t'.seats i) sits in
      let empty =
        All-get_elem? (λ (x : Seat). (occupied x ≡ true) ⊎ (x.stack ≡ 0)) t'.seats i sits
          (subst FreeEmpty (sym same) free) in
      let vacant = not_failed (occupied s) Error.seat_occupied vacant in
      let replaced =
        sum_of-set (λ (x : Seat). x.stack) t'.seats i
          (record s { player_id = player; stack = buy_in }) sits in
      let seats = auto_start-seats joined none begun in
      let last = sent_last _ _ _ h in
      let old : s.stack ≡ 0 = vacant_empty (occupied s) s.stack vacant empty in
      let total : stacks_at joined ≡ stacks_at t' + buy_in = omega (arith, replaced, old) in
      ap (λ (x : Table × Option HandState). stacks_at x.0) (sym last)
      ∙ ap (sum_of (λ (x : Seat). x.stack)) seats
      ∙ total
      ∙ ap (λ x. stacks_at x + buy_in) same

  -- With a wallet, a player leaves only a table without a hand, and is credited there, under the key for them, with
  -- exactly the chips of the seat that is his; then the table is saved with that seat freed and every other one as it
  -- was, so that it lacks just these chips, and no hand is started.
  pub leave_table_total :
      (table_id player : ℕ) (t : Table) {r : Table × Option HandState}
      → w.has_wallet ≡ true
      → w.find_table table_id ≡ ok t
      → (leave_table w table_id player).0 ≡ ok r
      → Left player t r (leave_table w table_id player).1
  unfolding leave_table
  leave_table_total table_id player t {r} wallet given h =
      let (t', found, k) = >>=-ok (pure (w.find_table table_id)) _ h in
      let (_, idle_now, k) =
        >>=-ok (pure (fail_if (is_in_hand t'.status) Error.leave_during_active_hand)) _ k in
      let (i, place, k) =
        >>=-ok (pure (or_fail (seat_by_player_id player t') Error.player_not_seated)) _ k in
      let (s, sits, k) = >>=-ok (pure (or_panic (get_elem? t'.seats i))) _ k in
      let (u, paid, k) =
        >>=-ok (credit w player t'.id s.stack (cashout_key t' player s.index s.stack)) _ k in
      let left : Table = record t' {
        seats = set t'.seats i (record s { player_id = 0; stack = 0 });
      } in
      let same : t' ≡ t = ok_value (sym found ∙ given) in
      let last : ◌≡◌ {A = Table × Option HandState} (left, none) r = sent_last _ _ _ k in
      let here = some_value (get_elem? t'.seats i) sits in
      let replaced =
        sum_of-set (λ (x : Seat). x.stack) t'.seats i (record s { player_id = 0; stack = 0 })
          here in
      let total : stacks_at left + s.stack ≡ stacks_at t' = omega (arith, replaced) in
      subst (λ x. Left player x r (leave_table w table_id player).1) same
        (record {
          place = i;
          seat = s;
          no_hand = not_in_hand t'.status _ idle_now;
          his = found_value (seat_by_player_id player t') _ place;
          sits = here;
          result = sym last;
          total = ap (λ (x : Table × Option HandState). stacks_at x.0 + s.stack) (sym last) ∙ total;
          calls =
              >>=-effects (pure (w.find_table table_id)) _ found
              ∙ >>=-effects (pure (fail_if (is_in_hand t'.status) Error.leave_during_active_hand)) _
                  idle_now
              ∙ >>=-effects (pure (or_fail (seat_by_player_id player t') Error.player_not_seated)) _
                  place
              ∙ >>=-effects (pure (or_panic (get_elem? t'.seats i))) _ sits
              ∙ >>=-effects (credit w player t'.id s.stack (cashout_key t' player s.index s.stack))
                  _ paid
              ∙ ap (λ es. es ++ (save_table w (left, none)).1)
                  (sent_if_effect w.has_wallet _ _ wallet paid)
              ∙ ap
                  (λ es. credited player t'.id s.stack (cashout_key t' player s.index s.stack) ∷ es)
                  (saved_last _ _ _ k)
              ∙ ap
                  (λ (x : Table × Option HandState).
                    credited player t'.id s.stack (cashout_key t' player s.index s.stack)
                    ∷ saved x.0
                    ∷ [])
                  last;
        })
