-- ===== src/Cards/Parser/RoundTrip.antt =====
-- The parser on the text of a card.
use holdem.Prelude.{ℕ, zero, suc, ◌≤◌, ◌<◌, ◌≡◌, refl, true, [], ◌∷◌, arith, ok}
use holdem.Prelude.Text.{bytes_eq}
use holdem.Cards.{Card, Rank, Suit, Bytes, card_string, rank_string, suit_string, is_valid}
use holdem.Cards.Parser.{parse_card, parse_parts, string_of_byte, parse_rank, parse_suit}

-- A rank prints as one ASCII byte, which is parsed as that rank.
rank_lem :
    (r : Rank)
    → 2 ≤ r
    → r ≤ 14
    → (b : ℕ) × (b < 128) × (rank_string r ≡ b ∷ []) × (parse_rank (b ∷ []) ≡ ok r)
unfolding rank_string parse_rank bytes_eq
rank_lem zero h k = absurd (omega arith)
rank_lem (suc zero) h k = absurd (omega arith)
rank_lem (suc (suc zero)) h k = (b'2', omega arith, refl, refl)
rank_lem (suc (suc (suc zero))) h k = (b'3', omega arith, refl, refl)
rank_lem (suc (suc (suc (suc zero)))) h k = (b'4', omega arith, refl, refl)
rank_lem (suc (suc (suc (suc (suc zero))))) h k = (b'5', omega arith, refl, refl)
rank_lem (suc (suc (suc (suc (suc (suc zero)))))) h k = (b'6', omega arith, refl, refl)
rank_lem (suc (suc (suc (suc (suc (suc (suc zero))))))) h k = (b'7', omega arith, refl, refl)
rank_lem (suc (suc (suc (suc (suc (suc (suc (suc zero)))))))) h k = (b'8', omega arith, refl, refl)
rank_lem (suc (suc (suc (suc (suc (suc (suc (suc (suc zero))))))))) h k =
    (b'9', omega arith, refl, refl)
rank_lem (suc (suc (suc (suc (suc (suc (suc (suc (suc (suc zero)))))))))) h k =
    (b'T', omega arith, refl, refl)
rank_lem (suc (suc (suc (suc (suc (suc (suc (suc (suc (suc (suc zero))))))))))) h k =
    (b'J', omega arith, refl, refl)
rank_lem (suc (suc (suc (suc (suc (suc (suc (suc (suc (suc (suc (suc zero)))))))))))) h k =
    (b'Q', omega arith, refl, refl)
rank_lem (suc (suc (suc (suc (suc (suc (suc (suc (suc (suc (suc (suc (suc zero))))))))))))) h k =
    (b'K', omega arith, refl, refl)
rank_lem (suc (suc (suc (suc (suc (suc (suc (suc (suc (suc (suc (suc (suc (suc zero)))))))))))))) h
      k =
    (b'A', omega arith, refl, refl)
rank_lem (suc (suc (suc (suc (suc (suc (suc (suc (suc (suc (suc (suc (suc (suc (suc r)))))))))))))))
      h k =
    absurd (omega arith)

suit_lem :
    (s : Suit)
    → s ≤ 3
    → (b : ℕ) × (t : Bytes) × (suit_string s ≡ b ∷ t) × (parse_suit (b ∷ t) ≡ ok s)
unfolding suit_string parse_suit bytes_eq
suit_lem zero h = (0xe2, 0x99 ∷ 0xa0 ∷ [], refl, refl)
suit_lem (suc zero) h = (0xe2, 0x99 ∷ 0xa5 ∷ [], refl, refl)
suit_lem (suc (suc zero)) h = (0xe2, 0x99 ∷ 0xa6 ∷ [], refl, refl)
suit_lem (suc (suc (suc zero))) h = (0xe2, 0x99 ∷ 0xa3 ∷ [], refl, refl)
suit_lem (suc (suc (suc (suc s)))) h = absurd (omega arith)

is_valid_bounds : (c : Card) → is_valid c ≡ true → (2 ≤ c.rank) × (c.rank ≤ 14) × (c.suit ≤ 3)
unfolding is_valid
is_valid_bounds c h = ground arith

-- Every valid card is read back from its text.
pub parse-card_string : (c : Card) → is_valid c ≡ true → parse_card (card_string c) ≡ ok c
unfolding parse_card card_string parse_parts string_of_byte
parse-card_string c h =
    let (lo, hi, bound) = is_valid_bounds c h in
    let (b, ascii, printed, parsed) = rank_lem c.rank lo hi in
    let (d, t, printed', parsed') = suit_lem c.suit bound in
    rw (printed, printed') (ground (arith, parsed, parsed'))
