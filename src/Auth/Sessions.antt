-- ===== src/Auth/Sessions.antt =====
-- services/auth-service: the refresh sessions of a token whose use is over.
use holdem.Prelude.{
  ◌≡◌, refl, sym, ap, ◌∙◌, subst, ℕ, Bool, true, false, ◌&&◌, ◌||◌, ◌==◌, if◌then◌else◌, Bool-cases,
  inl, inr, none, some, List, [], ◌∷◌, All, ok, arith, ◌+◌,
}
use holdem.Prelude.Text.{Bytes, bytes_eq, bytes_eq→eq}
use holdem.Auth.{RefreshSession, Db, Env}
use holdem.Auth.Repository.{has_hash, is_open, revoked, session_refused, revoke_refresh_session}
use holdem.Database.{return, find_row, exists_row, update_rows, count_rows}
use holdem.Database.Inversion.{went, >>=-Went, exec-ok, not_failed, ok_value}
use holdem.Database.Rows.{exists_row-update_rows}
use holdem.Database.Selected.{NoRow, Apart}

-- no two sessions have one token
abbrev pub OwnTokens : List RefreshSession → Type 0
OwnTokens = Apart (λ o s. has_hash s.token_hash o)

-- the token of a session was used: it has a session, and none that is open
pub record Spent (hash : Bytes) (sessions : List RefreshSession) : Type 0 where
  pub used : exists_row (has_hash hash) sessions ≡ true
  pub closed : NoRow (λ s. has_hash hash s && is_open s) sessions

pub NoRow-exists_row :
    {A : Type 0} (test : A → Bool) (rows : List A) → exists_row test rows ≡ false → NoRow test rows
NoRow-exists_row test [] h = tt
NoRow-exists_row test (r ∷ rows) h = elim (Bool-cases (test r)) [
  | inl hit ↦ absurd (true_false (rw (exists_row, find_row, hit) at h))
  | inr miss ↦ (miss, NoRow-exists_row test rows (rw (exists_row, find_row, miss) at h))
]
  where
    true_false : true ≡ false → ⊥
    true_false e = cc

pub exists_row-find_row :
    {A : Type 0} (test : A → Bool) (rows : List A) {a : A}
    → find_row test rows ≡ some a
    → exists_row test rows ≡ true
exists_row-find_row test rows h = rw (exists_row, h) refl

-- A row that is found passes the test, and has what all rows have.
pub find_row-All :
    {A : Type 0} (P : A → Type 0) (test : A → Bool) (rows : List A) {a : A}
    → All P rows
    → find_row test rows ≡ some a
    → P a × (test a ≡ true)
find_row-All P test [] {a = a} all h = absurd (none_some h)
  where
    none_some : none ≡ some a → ⊥
    none_some e = cc
find_row-All P test (r ∷ rows) {a = a} (p, all) h = elim (Bool-cases (test r)) [
  | inl hit ↦ let same : r ≡ a = some_eq (rw hit at h) in (subst P same p, ap test (sym same) ∙ hit)
  | inr miss ↦ find_row-All P test rows all (rw miss at h)
]
  where
    some_eq : some r ≡ some a → r ≡ a
    some_eq e = cc

pub closed_row : (b : Bool) → (b && false) ≡ false
closed_row true = refl
closed_row false = refl

-- A test that does not read when a session was revoked.
pub NoRow-revoked :
    (other test : RefreshSession → Bool) (t : ℕ)
    → ((r : RefreshSession) → other (revoked t r) ≡ other r)
    → (rows : List RefreshSession) → NoRow other rows
    → NoRow other (update_rows test (revoked t) rows)
NoRow-revoked other test t same [] h = tt
NoRow-revoked other test t same (r ∷ rows) (c, h) = elim (Bool-cases (test r)) [
  | inl hit ↦ rw (update_rows, hit) (same r ∙ c, NoRow-revoked other test t same rows h)
  | inr miss ↦ rw (update_rows, miss) (c, NoRow-revoked other test t same rows h)
]

module _ (hash : Bytes) (test : RefreshSession → Bool) (t : ℕ) where
  -- Revoking keeps the tokens, and opens no session.
  pub used-revoked :
      (rows : List RefreshSession)
      → exists_row (has_hash hash) (update_rows test (revoked t) rows)
        ≡ exists_row (has_hash hash) rows
  used-revoked = exists_row-update_rows (has_hash hash) test (revoked t) (λ r. refl)

  pub closed-revoked :
      (rows : List RefreshSession)
      → NoRow (λ s. has_hash hash s && is_open s) rows
      → NoRow (λ s. has_hash hash s && is_open s) (update_rows test (revoked t) rows)
  closed-revoked [] h = tt
  closed-revoked (r ∷ rows) (c, h) = elim (Bool-cases (test r)) [
    | inl hit ↦ rw (update_rows, hit) (closed_row _, closed-revoked rows h)
    | inr miss ↦ rw (update_rows, miss) (c, closed-revoked rows h)
  ]

  pub free-revoked :
      (rows : List RefreshSession)
      → NoRow (has_hash hash) rows
      → NoRow (has_hash hash) (update_rows test (revoked t) rows)
  free-revoked = NoRow-revoked (has_hash hash) test t (λ r. refl)

  pub Spent-revoked :
      (rows : List RefreshSession)
      → Spent hash rows
      → Spent hash (update_rows test (revoked t) rows)
  Spent-revoked rows s = record {
    used = used-revoked rows ∙ s.used;
    closed = closed-revoked rows s.closed;
  }

pub new_token_hash :
    (s : RefreshSession) (db : Db)
    → session_refused s db ≡ false
    → exists_row (has_hash s.token_hash) db.sessions ≡ false
new_token_hash s db accepted =
    middle (exists_row (λ (o : RefreshSession). bytes_eq o.id s.id) db.sessions) _ _ accepted
  where
    middle : (a b c : Bool) → ((a || b) || c) ≡ false → b ≡ false
    middle true b c e = cc
    middle false true c e = cc
    middle false false c e = refl

-- A session that is created has a new token.
pub other_hash :
    (hash : Bytes) (s : RefreshSession) (db : Db)
    → session_refused s db ≡ false
    → exists_row (has_hash hash) db.sessions ≡ true
    → bytes_eq s.token_hash hash ≡ false
other_hash hash s db accepted used = elim (Bool-cases (bytes_eq s.token_hash hash)) [
  | inl same ↦ absurd (
      true_false (
        sym used
        ∙ (ap (λ k. exists_row (has_hash k) db.sessions) (sym (bytes_eq→eq s.token_hash hash same))
            ∙ new_token_hash s db accepted)))
  | inr other ↦ other
]
  where
    true_false : true ≡ false → ⊥
    true_false e = cc

pub Spent-opened :
    (hash : Bytes) (s : RefreshSession) (db : Db)
    → session_refused s db ≡ false
    → Spent hash db.sessions
    → Spent hash (s ∷ db.sessions)
Spent-opened hash s db accepted spent =
    let other = other_hash hash s db accepted spent.used in
    record {
      used = rw (exists_row, find_row, other) spent.used;
      closed = (rw other refl, spent.closed);
    }

pub OwnTokens-revoked :
    (test : RefreshSession → Bool) (t : ℕ) (rows : List RefreshSession)
    → OwnTokens rows
    → OwnTokens (update_rows test (revoked t) rows)
OwnTokens-revoked test t [] own = tt
OwnTokens-revoked test t (r ∷ rows) (own, rest) = elim (Bool-cases (test r)) [
  | inl hit ↦
      rw (update_rows, hit)
        (free-revoked r.token_hash test t rows own, OwnTokens-revoked test t rows rest)
  | inr miss ↦
      rw (update_rows, miss)
        (free-revoked r.token_hash test t rows own, OwnTokens-revoked test t rows rest)
]

abbrev pub updated : (RefreshSession → Bool) → ℕ → RefreshSession → RefreshSession
updated test t r = if test r then revoked t r else r

-- What a revocation of all of a token's sessions leaves of it.
pub Spent-closed :
    (hash : Bytes) (t : ℕ) (rows : List RefreshSession)
    → exists_row (has_hash hash) rows ≡ true
    → Spent hash (update_rows (λ o. has_hash hash o && is_open o) (revoked t) rows)
Spent-closed hash t rows there = record {
  used = used-revoked hash (λ o. has_hash hash o && is_open o) t rows ∙ there;
  closed = all_closed rows;
}
  where
    closed_here :
        (r : RefreshSession)
        → (has_hash hash (updated (λ o. has_hash hash o && is_open o) t r)
            && is_open (updated (λ o. has_hash hash o && is_open o) t r))
          ≡ false
    closed_here r = elim (Bool-cases (bytes_eq r.token_hash hash)) [
      | inl mine ↦ elim (Bool-cases (is_open r)) [
        | inl live ↦ rw (updated, mine, live) (closed_row _)
        | inr over ↦ rw (updated, mine, over, over) (closed_row _)
      ]
      | inr other ↦ rw (updated, other, other) refl
    ]

    all_closed :
        (rows : List RefreshSession)
        → NoRow
            (λ o. has_hash hash o && is_open o)
            (update_rows (λ o. has_hash hash o && is_open o) (revoked t) rows)
    all_closed [] = tt
    all_closed (r ∷ rows) = (closed_here r, all_closed rows)

count_rows-exists :
    (hash : Bytes) (rows : List RefreshSession)
    → (count_rows (λ o. has_hash hash o && is_open o) rows == 0) ≡ false
    → exists_row (has_hash hash) rows ≡ true
count_rows-exists hash [] h = absurd (no h)
  where
    no : true ≡ false → ⊥
    no e = cc
count_rows-exists hash (r ∷ rows) h = elim (Bool-cases (bytes_eq r.token_hash hash)) [
  | inl mine ↦ rw (exists_row, find_row, mine) refl
  | inr other ↦
      rw (exists_row, find_row, other)
        (count_rows-exists hash rows (less _ (rw (count_rows, other) at h)))
]
  where
    less : (c : ℕ) → ((0 + c) == 0) ≡ false → (c == 0) ≡ false
    less c e = ground arith

-- A logout that went well leaves the token spent.
pub revoke_refresh_session-Spent :
    (env : Env) (hash : Bytes) (db : Db) {u : Unit {0}}
    → (revoke_refresh_session env hash db).0 ≡ ok u
    → Spent hash (revoke_refresh_session env hash db).1.sessions
unfolding revoke_refresh_session return
revoke_refresh_session-Spent env hash db h = elim (>>=-Went _ _ db h) [
  | went n between ran goes ends ↦
      let done = sym ran ∙ exec-ok env _ _ db (ap (λ x. x.0) ran) in
      let some_open =
        ap (λ k. k == 0) (sym (ok_value (ap (λ x. x.0) done))) ∙ not_failed _ _ ends in
      subst (λ d. Spent hash d.sessions) (sym (ap (λ x. x.1) goes ∙ ap (λ x. x.1) done))
        (Spent-closed hash env.now db.sessions (count_rows-exists hash db.sessions some_open))
]
