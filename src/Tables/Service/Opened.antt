-- ===== src/Tables/Service/Opened.antt =====
-- A new table.
use holdem.Prelude.{
  ℕ, zero, suc, ◌+◌, ◌*◌, ◌≡◌, ◌≤◌, ◌<◌, refl, ap, ltb, leb, ◌==◌, ◌||◌, not, ok, Error, fail_if,
  length, arith, All,
}
use holdem.Cards.{Bytes}
use holdem.Tables.{Seat, Table, idle}
use holdem.Tables.World.{World, pure}
use holdem.Tables.Service.{create_table, free_seats}
use holdem.Tables.Service.Money.{>>=-ok, sent_last, not_failed}

length-free_seats : (n i : ℕ) → length (free_seats n i) ≡ n
unfolding free_seats
length-free_seats zero i = refl
length-free_seats (suc n) i = ap suc (length-free_seats n (i + 1))

free_seats-free : (n i : ℕ) → All (λ (s : Seat). (s.player_id ≡ 0) × (s.stack ≡ 0)) (free_seats n i)
unfolding free_seats
free_seats-free zero i = tt
free_seats-free (suc n) i = ((refl, refl), free_seats-free n (i + 1))

module _ (w : World) where
  -- A table that is created has as many seats as asked for, two at least, all free and without chips; it is idle,
  -- and its big blind is twice the small one, which is positive.
  pub create_table_lem :
      (name : Bytes) (seat_count sb bb : ℕ) {t : Table}
      → (create_table w name seat_count sb bb).0 ≡ ok t
      → (length t.seats ≡ seat_count)
        × (2 ≤ seat_count)
        × (0 < sb)
        × (bb ≡ sb * 2)
        × All (λ (s : Seat). (s.player_id ≡ 0) × (s.stack ≡ 0)) t.seats
        × (t.status ≡ idle)
        × (t.small_blind ≡ sb)
        × (t.big_blind ≡ bb)
  unfolding create_table
  create_table_lem name seat_count sb bb h =
      let (u, checked, k) =
        >>=-ok
          (pure (
            fail_if (ltb seat_count 2 || leb sb 0 || leb bb 0 || not (bb == sb * 2))
              Error.invalid_table_config))
          _ h in
      let valid =
        not_failed (ltb seat_count 2 || leb sb 0 || leb bb 0 || not (bb == sb * 2))
          Error.invalid_table_config checked in
      let last = sent_last _ _ _ k in
      rw (← last) (
        length-free_seats seat_count 0,
        ground (arith, valid),
        ground (arith, valid),
        ground (arith, valid),
        free_seats-free seat_count 0,
        refl,
        refl,
        refl,
      )
