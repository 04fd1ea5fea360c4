-- ===== src/Tables/Button.antt =====
-- Where the button goes.
use holdem.Prelude.{
  ℕ, zero, suc, ◌+◌, ◌%◌, ◌≡◌, ◌≢◌, refl, sym, ◌∙◌, subst, Bool, true, false, Bool-cases, inl, inr,
  ◌==◌, List, [], ◌∷◌, length, keep_if, Any, arith, none, some, get_elem?,
}
use holdem.Tables.{
  Seat, Table, playable, playable_players, seat_where, playable_at, first_playable,
  normalized_button_seat, next_button, advance_button,
}

-- A seat with the index at which a player with chips sits.
abbrev pub PlayableSeat : ℕ → List Seat → Type 0
PlayableSeat k = Any (λ (s : Seat). (s.index ≡ k) × (playable s ≡ true))

abbrev seat_at : (k : ℕ) (ss : List Seat) → Bool
seat_at k ss = elim (seat_where (λ s. s.index == k) ss) [
  | none ↦ false
  | some i ↦ elim (get_elem? ss i) [ none ↦ false | some s ↦ playable s ]
]

seat_at-cons :
    (k : ℕ) (s : Seat) (ss : List Seat) → (s.index == k) ≡ false → seat_at k (s ∷ ss) ≡ seat_at k ss
seat_at-cons k s ss e = ground arith

PlayableSeat-seat_at : (k : ℕ) (ss : List Seat) → seat_at k ss ≡ true → PlayableSeat k ss
PlayableSeat-seat_at k [] h = cc
PlayableSeat-seat_at k (s ∷ ss) h = elim (Bool-cases (s.index == k)) [
  | inl here ↦ inl (ground arith, ground arith)
  | inr there ↦ inr (PlayableSeat-seat_at k ss (sym (seat_at-cons k s ss there) ∙ h))
]

PlayableSeat-first_playable :
    (ss : List Seat) → keep_if playable ss ≢ [] → PlayableSeat (first_playable ss) ss
PlayableSeat-first_playable [] h = absurd (h refl)
PlayableSeat-first_playable (s ∷ ss) h = elim (Bool-cases (playable s)) [
  | inl here ↦ inl (ground arith, here)
  | inr broke ↦
      let rest = PlayableSeat-first_playable ss (λ e. h (ground (arith, e))) in
      inr (subst (λ k. PlayableSeat k ss) (ground arith) rest)
]

not_empty : {A : Type 0} (xs : List A) → xs ≢ [] → (length xs == 0) ≡ false
not_empty [] h = absurd (h refl)
not_empty (x ∷ xs) h = ground arith

PlayableSeat-normalized :
    (t : Table) → playable_players t ≢ [] → PlayableSeat (normalized_button_seat t) t.seats
unfolding normalized_button_seat
PlayableSeat-normalized t h =
    let some_player = not_empty (playable_players t) h in
    elim (Bool-cases (playable_at t.button t)) [
      | inl kept ↦ rw (some_player, kept) (PlayableSeat-seat_at t.button t.seats kept)
      | inr lost ↦ rw (some_player, lost) (PlayableSeat-first_playable t.seats h)
    ]

PlayableSeat-next_button :
    (t : Table) (start rounds offset : ℕ)
    → PlayableSeat start t.seats
    → PlayableSeat (next_button t start rounds offset) t.seats
unfolding next_button
PlayableSeat-next_button t start zero offset h = h
PlayableSeat-next_button t start (suc rounds) offset h =
    elim (Bool-cases (playable_at ((start + offset) % length t.seats) t)) [
      | inl found ↦
          rw (next_button, found)
            (PlayableSeat-seat_at ((start + offset) % length t.seats) t.seats found)
      | inr missed ↦
          rw (next_button, missed) (PlayableSeat-next_button t start rounds (offset + 1) h)
    ]

-- If any player at the table has chips, the button goes to a seat of such a player; and nothing else changes.
pub advance_button_lem :
    (t : Table)
    → playable_players t ≢ []
    → PlayableSeat (advance_button t).button t.seats
      × (advance_button t ≡ record t { button = (advance_button t).button })
unfolding advance_button
advance_button_lem t h =
    let some_player = not_empty (playable_players t) h in
    rw some_player (
      PlayableSeat-next_button t (normalized_button_seat t) (length t.seats) 1
          (PlayableSeat-normalized t h),
      refl,
    )
