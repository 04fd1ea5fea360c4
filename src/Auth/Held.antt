-- ===== src/Auth/Held.antt =====
-- services/auth-service: the one session of a refresh token, which a refresh holds between its check and its end.
use holdem.Prelude.{
  ◌≡◌, refl, sym, ap, ◌∙◌, subst, ℕ, Bool, true, false, ◌&&◌, not, Bool-cases, inl, inr, some, List,
  [], ◌∷◌,
}
use holdem.Prelude.Text.{Bytes, bytes_eq, bytes_eq_refl, bytes_eq→eq}
use holdem.Auth.{RefreshSession, Db}
use holdem.Auth.Repository.{has_hash, is_open, revoked, session_refused}
use holdem.Auth.Sessions.{
  OwnTokens, Spent, exists_row-find_row, closed_row, NoRow-revoked, used-revoked, other_hash,
  updated,
}
use holdem.Database.{find_row, exists_row, update_rows}
use holdem.Database.Selected.{NoRow, All-imp, exists_row-NoRow}

head_closed :
    (hash : Bytes) (t : ℕ) (r : RefreshSession) (id : Bytes)
    → bytes_eq r.id id ≡ true
    → (has_hash hash (updated (λ o. bytes_eq o.id id && is_open o) t r)
        && is_open (updated (λ o. bytes_eq o.id id && is_open o) t r))
      ≡ false
head_closed hash t r id same = elim (Bool-cases (is_open r)) [
  | inl live ↦ rw (updated, same, live) (closed_row _)
  | inr over ↦ rw (updated, same, over, over) (closed_row _)
]

head_other :
    (hash : Bytes) (t : ℕ) (r : RefreshSession) (test : RefreshSession → Bool)
    → bytes_eq r.token_hash hash ≡ false
    → (has_hash hash (updated test t r) && is_open (updated test t r)) ≡ false
head_other hash t r test other = elim (Bool-cases (test r)) [
  | inl hit ↦ rw (updated, hit, other) refl
  | inr miss ↦ rw (updated, miss, other) refl
]

abbrev misnamed : Bytes → Bytes → RefreshSession → Bool
misnamed hash id s = has_hash hash s && not (bytes_eq s.id id)

-- the session of a token: it has one, and only one of this id
pub record Held (hash id : Bytes) (sessions : List RefreshSession) : Type 0 where
  pub used : exists_row (has_hash hash) sessions ≡ true
  pub named : NoRow (misnamed hash id) sessions

pub Held-revoked :
    (hash id : Bytes) (test : RefreshSession → Bool) (t : ℕ) (rows : List RefreshSession)
    → Held hash id rows
    → Held hash id (update_rows test (revoked t) rows)
Held-revoked hash id test t rows h = record {
  used = used-revoked hash test t rows ∙ h.used;
  named = NoRow-revoked (misnamed hash id) test t (λ r. refl) rows h.named;
}

no_first : (b c : Bool) → b ≡ false → (b && c) ≡ false
no_first b c e = rw e refl

named-found :
    (hash : Bytes) (rows : List RefreshSession) {s : RefreshSession}
    → OwnTokens rows
    → find_row (has_hash hash) rows ≡ some s
    → NoRow (misnamed hash s.id) rows
named-found hash [] own h = tt
named-found hash (r ∷ rows) {s = s} (own, rest) h = elim (Bool-cases (bytes_eq r.token_hash hash)) [
  | inl mine ↦
      let this : r ≡ s = some_eq (rw mine at h) in
      let others : NoRow (has_hash hash) rows =
        subst (λ k. NoRow (has_hash k) rows) (bytes_eq→eq r.token_hash hash mine) own in
      let own_id : bytes_eq r.id s.id ≡ true =
        ap (λ o. bytes_eq r.id o.id) (sym this) ∙ bytes_eq_refl r.id in
      (
        rw own_id (closed_row _),
        All-imp _ _
            (λ (o : RefreshSession).
              no_first (bytes_eq o.token_hash hash) (not (bytes_eq o.id s.id)))
            _ others,
      )
  | inr other ↦ (rw other refl, named-found hash rows rest (rw other at h))
]
  where
    some_eq : some r ≡ some s → r ≡ s
    some_eq e = cc

-- A session that is found by its token is the only one of it.
pub Held-found :
    (hash : Bytes) (rows : List RefreshSession) {s : RefreshSession}
    → OwnTokens rows
    → find_row (has_hash hash) rows ≡ some s
    → Held hash s.id rows
Held-found hash rows own h = record {
  used = exists_row-find_row (has_hash hash) rows h;
  named = named-found hash rows own h;
}

-- The session of a token, revoked by its id, leaves the token without an open one.
closed-named :
    (hash id : Bytes) (t : ℕ) (rows : List RefreshSession)
    → NoRow (misnamed hash id) rows
    → NoRow
        (λ o. has_hash hash o && is_open o)
        (update_rows (λ o. bytes_eq o.id id && is_open o) (revoked t) rows)
closed-named hash id t [] h = tt
closed-named hash id t (r ∷ rows) (c, h) = elim (Bool-cases (bytes_eq r.id id)) [
  | inl same ↦ (head_closed hash t r id same, closed-named hash id t rows h)
  | inr differs ↦ (
    head_other hash t r (λ o. bytes_eq o.id id && is_open o)
        (unmarked (bytes_eq r.token_hash hash) (bytes_eq r.id id) differs c),
    closed-named hash id t rows h,
  )
]
  where
    unmarked : (b d : Bool) → d ≡ false → (b && not d) ≡ false → b ≡ false
    unmarked true true e c = e
    unmarked true false e c = c
    unmarked false d e c = refl

pub Held-opened :
    (hash id : Bytes) (s : RefreshSession) (db : Db)
    → session_refused s db ≡ false
    → Held hash id db.sessions
    → Held hash id (s ∷ db.sessions)
Held-opened hash id s db accepted held =
    let other = other_hash hash s db accepted held.used in
    record {
      used = rw (exists_row, find_row, other) held.used;
      named = (rw other refl, held.named);
    }

-- What a rotation leaves of the token whose session it revokes, where the new session has its own.
pub Spent-rotated :
    (hash id : Bytes) (t : ℕ) (rows : List RefreshSession) (next : RefreshSession)
    → Held hash id rows
    → OwnTokens (next ∷ update_rows (λ o. bytes_eq o.id id && is_open o) (revoked t) rows)
    → Spent hash (next ∷ update_rows (λ o. bytes_eq o.id id && is_open o) (revoked t) rows)
Spent-rotated hash id t rows next held (fresh, own') =
    let test : RefreshSession → Bool = λ o. bytes_eq o.id id && is_open o in
    let there = used-revoked hash test t rows ∙ held.used in
    elim (Bool-cases (bytes_eq next.token_hash hash)) [
      | inl same ↦ absurd (
          true_false (
            sym there
            ∙ exists_row-NoRow (has_hash hash) (update_rows test (revoked t) rows) (
                subst (λ k. NoRow (has_hash k) (update_rows test (revoked t) rows))
                  (bytes_eq→eq next.token_hash hash same) fresh)))
      | inr other ↦ record {
        used = rw (exists_row, find_row, other) there;
        closed = (rw other refl, closed-named hash id t rows held.named);
      }
    ]
  where
    true_false : true ≡ false → ⊥
    true_false e = cc
