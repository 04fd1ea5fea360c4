-- ===== src/Wallet/Service/Linking.antt =====
-- services/wallet-service/internal/application/service.go: what stands behind an address that `ConfirmLink` links.
use holdem.Prelude.{
  ◌≡◌, sym, ap, ◌∙◌, Bool, true, false, ◌&&◌, ltb, some, ◌∷◌, Outcome, ok, err, panic, Error,
}
use holdem.Prelude.Text.{Bytes, bytes_eq, trim_space, to_lower}
use holdem.Wallet.{LinkChallenge, LinkedAddress}
use holdem.Database.{return, find_row, update_rows}
use holdem.Wallet.Database.{Db, Env, find_challenge, consume_challenge, insert_linked}
use holdem.Database.Inversion.{
  unnegated, >>=-ok, query-ok, exec-ok, insert_row-ok, with_tx-ok, not_failed, not_missing,
  ok_value,
}
use holdem.Wallet.Repository.{unconsumed, find_link_challenge, confirm_link_challenge}
use holdem.Wallet.Service.{Crypto, normalize_address, confirm_link}

-- the row that `FindLinkChallenge` asks for
abbrev pub is_challenge : Bytes → Bytes → Bytes → LinkChallenge → Bool
is_challenge user id address c =
    bytes_eq c.id id && bytes_eq c.user_id user && bytes_eq c.address (to_lower address)

-- A challenge that is found is in the table and was not used.
find_link_challenge-ok :
    (env : Env) (user id address : Bytes) (db : Db) {c : LinkChallenge}
    → (find_link_challenge env user id address db).0 ≡ ok c
    → (find_row (is_challenge user id address) db.challenges ≡ some c)
      × (unconsumed c ≡ true)
      × ((find_link_challenge env user id address db).1 ≡ db)
unfolding find_link_challenge return
find_link_challenge-ok env user id address db h =
    let (row, read, then1, h) = >>=-ok _ _ db h in
    let queried = query-ok env find_challenge _ db read in
    let (c, there, then2, h) = >>=-ok _ _ _ h in
    let (_, fresh, then3, h) = >>=-ok _ _ _ h in
    let same = ok_value h in
    let row_is = ok_value (ap (λ x. x.0) (sym queried) ∙ read) in
    (
      row_is ∙ not_missing row _ there ∙ ap some same,
      ap unconsumed (sym same) ∙ unnegated (unconsumed c) (not_failed _ _ fresh),
      ap (λ x. x.1) (then1 ∙ then2 ∙ then3) ∙ ap (λ x. x.1) queried,
    )

-- the tables after a link
abbrev pub linked_db : Env → Bytes → LinkedAddress → Db → Db
linked_db env id a db = record db {
  challenges =
      update_rows (λ c. bytes_eq c.id id && unconsumed c)
        (λ c. record c { consumed_at = some env.now }) db.challenges;
  linked = a ∷ db.linked;
}

confirm_link_challenge-ok :
    (env : Env) (id : Bytes) (a : LinkedAddress) (db : Db) {u : Unit {0}}
    → (confirm_link_challenge env id a db).0 ≡ ok u
    → (confirm_link_challenge env id a db).1 ≡ linked_db env id a db
unfolding confirm_link_challenge return
confirm_link_challenge-ok env id a db h =
    let body = with_tx-ok env _ db h in
    let (n, ran, then1, h) = >>=-ok _ _ db (ap (λ x. x.0) (sym body) ∙ h) in
    let updated = exec-ok env consume_challenge _ db ran in
    let (_, _, then2, h) = >>=-ok _ _ _ h in
    let inserted = insert_row-ok env insert_linked _ _ _ _ h in
    ap (λ x. x.1) (body ∙ then1 ∙ then2 ∙ inserted)
    ∙ ap (λ x. record x.1 { linked = a ∷ x.1.linked }) updated

-- What a link rests on: a challenge that was made for the user and the address, was not used and is in time, and a
-- signature of its text by the address.
pub record Proven (crypto : Crypto) (env : Env) (user id address signature : Bytes) (before : Db)
    (a : LinkedAddress) (after : Db) : Type 0 where
  pub challenge : LinkChallenge
  pub found : find_row (is_challenge user id address) before.challenges ≡ some challenge
  pub fresh : unconsumed challenge ≡ true
  pub in_time : ltb challenge.expires_at env.now ≡ false
  pub signer : Bytes
  pub recovered : crypto.recover_address challenge.challenge signature ≡ ok signer
  pub matches : bytes_eq (normalize_address signer) address ≡ true
  pub of_user : a.user_id ≡ user
  pub of_address : a.address ≡ address
  pub recorded : after ≡ linked_db env challenge.id a before

signed :
    (o : Outcome Bytes) {s : Bytes}
    → elim o as (λ x. Outcome Bytes) [
      | ok a ↦ ok a
      | err e ↦ err Error.invalid_challenge_proof
      | panic ↦ panic
    ]
      ≡ ok s
    → o ≡ ok s
signed (ok a) h = h
signed (err e) h = cc
signed panic h = cc

-- An address that `ConfirmLink` links is proven: there was a challenge for the user and the address that was not
-- used and had not expired, and the address of the key that signed its text is that address. The link is recorded and the
-- challenge is used up.
pub confirm_link-Proven :
    (crypto : Crypto) (net : Bytes) (env : Env) (user_id challenge_id raw sign : Bytes) (db : Db)
    (a : LinkedAddress)
    → (confirm_link crypto net env user_id challenge_id raw sign db).0 ≡ ok a
    → Proven crypto env
        (trim_space user_id)
        (trim_space challenge_id)
        (normalize_address raw)
        (trim_space sign)
        db
        a
        (confirm_link crypto net env user_id challenge_id raw sign db).1
unfolding confirm_link return
confirm_link-Proven crypto net env user_id challenge_id raw sign db a h =
    let (_, _, then1, h) = >>=-ok _ _ db h in
    let (c, got, then2, h) = >>=-ok _ _ _ h in
    let (found, fresh, same) = find_link_challenge-ok env _ _ _ db got in
    let (_, late, then3, h) = >>=-ok _ _ _ h in
    let (signer, proof, then4, h) = >>=-ok _ _ _ h in
    let (_, match, then5, h) = >>=-ok _ _ _ h in
    let (id, _, then6, h) = >>=-ok _ _ _ h in
    let (_, stored, then7, h) = >>=-ok _ _ _ h in
    let is_a = ok_value h in
    record {
      challenge = c;
      found = found;
      fresh = fresh;
      in_time = not_failed _ _ late;
      signer = signer;
      recovered = signed (crypto.recover_address c.challenge (trim_space sign)) proof;
      matches =
          unnegated (bytes_eq (normalize_address signer) (normalize_address raw))
            (not_failed _ _ match);
      of_user = ap (λ (x : LinkedAddress). x.user_id) (sym is_a);
      of_address = ap (λ (x : LinkedAddress). x.address) (sym is_a);
      recorded =
          ap (λ x. x.1) (then1 ∙ then2 ∙ then3 ∙ then4 ∙ then5 ∙ then6 ∙ then7)
          ∙ confirm_link_challenge-ok env c.id _ _ stored
          ∙ ap
              (λ x.
                linked_db env c.id x
                  (find_link_challenge env (trim_space user_id) (trim_space challenge_id)
                    (normalize_address raw) db).1)
              is_a
          ∙ ap (λ x. linked_db env c.id a x) same;
    }
