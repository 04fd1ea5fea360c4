-- ===== src/Tokens/Accepted.antt =====
-- services/wallet-service/internal/auth/jwt.go: what stands behind a token that is accepted.
use holdem.Prelude.{
  ◌≡◌, subst, ℕ, refl, sym, ap, ◌∙◌, Bool, true, false, ◌||◌, not, ltb, some, List, [], ◌∷◌, ◌++◌,
  ok,
}
use holdem.Prelude.Text.{Bytes, bytes_eq, is_empty}
use holdem.Prelude.Ascii.{ascii}
use holdem.Database.{return}
use holdem.Database.Inversion.{went, >>=-Went, not_failed, not_missing, ok_value}
use holdem.Tokens.{
  Key, Header, Claims, Codec, Validator, Request, dot, split_dots, key_for, header_of, claims_of,
  own_issuer, check_signature, verify_parts, verify_split, verify,
}

-- A header with the only algorithm and a key's id.
pub record IsHeader (codec : Codec) (part : Bytes) (header : Header) : Type 0 where
  pub header_data : Bytes
  pub header_decoded : codec.decode part ≡ some header_data
  pub header_read : codec.read_header header_data ≡ some header
  pub only_alg : bytes_eq header.alg (ascii "RS256") ≡ true
  pub has_key : is_empty header.kid ≡ false

-- Claims of the issuer for a user, that have not expired.
pub record IsClaims (codec : Codec) (now : ℕ) (issuer part : Bytes) (c : Claims) : Type 0 where
  pub claims_data : Bytes
  pub claims_decoded : codec.decode part ≡ some claims_data
  pub claims_read : codec.read_claims claims_data ≡ some c
  pub of_issuer : bytes_eq c.iss issuer ≡ true
  pub has_user : is_empty c.sub ≡ false
  pub in_time : ltb c.exp now ≡ false

-- A signature of the first two parts by the key that the validator has for the id.
pub record IsSigned (codec : Codec) (req : Request) (v : Validator) (kid first second third : Bytes)
    : Type 0 where
  pub key : Key
  pub key_known : (key_for codec req kid v).0 ≡ ok key
  pub signature : Bytes
  pub signature_decoded : codec.decode third ≡ some signature
  pub signed : codec.verifies key (codec.sha256 (first ++ (dot ∷ second))) signature ≡ true

pub record IsAccepted (codec : Codec) (req : Request) (v : Validator) (token : Bytes) (c : Claims)
    : Type 0 where
  pub first : Bytes
  pub second : Bytes
  pub third : Bytes
  pub in_parts : split_dots token ≡ first ∷ second ∷ third ∷ []
  pub header : Header
  pub has_header : IsHeader codec first header
  pub has_claims : IsClaims codec req.now v.issuer second c
  pub has_signature : IsSigned codec req v header.kid first second third

either : (a b : Bool) → (not a || b) ≡ false → (a ≡ true) × (b ≡ false)
either true b e = (refl, e)
either false b e = cc

three : (a b c : Bool) → ((not a || b) || c) ≡ false → (a ≡ true) × ((b ≡ false) × (c ≡ false))
three true true c e = cc
three true false c e = (refl, (refl, e))
three false b c e = cc

unnot : (a : Bool) → not a ≡ false → a ≡ true
unnot true e = refl
unnot false e = cc

header_of-IsHeader :
    (codec : Codec) (req : Request) (part : Bytes) (v v' : Validator) (x : Header)
    → header_of codec req part v ≡ (ok x, v')
    → IsHeader codec part x × (v' ≡ v)
unfolding header_of return
header_of-IsHeader codec req part v v' x h = elim (>>=-Went _ _ v (ap (λ r. r.0) h)) [
  | went text v0 decodes goes0 h0 ↦ elim (>>=-Went _ _ v0 h0) [
    | went header v1 reads goes1 h1 ↦ elim (>>=-Went _ _ v1 h1) [
      | went _ v2 checks goes2 h2 ↦
          let same = ok_value h2 in
          let (alg, kid) =
            either (bytes_eq header.alg (ascii "RS256")) (is_empty header.kid)
              (not_failed _ _ (ap (λ r. r.0) checks)) in
          (
            subst (IsHeader codec part) same (record {
              header_data = text;
              header_decoded = not_missing _ _ (ap (λ r. r.0) decodes);
              header_read = not_missing _ _ (ap (λ r. r.0) reads);
              only_alg = alg;
              has_key = kid;
            }),
            sym (ap (λ r. r.1) h)
                ∙ (ap (λ r. r.1) (goes0 ∙ (goes1 ∙ goes2))
                    ∙ (sym (ap (λ r. r.1) checks)
                        ∙ (sym (ap (λ r. r.1) reads) ∙ sym (ap (λ r. r.1) decodes)))),
          )
    ]
  ]
]

claims_of-IsClaims :
    (codec : Codec) (req : Request) (part : Bytes) (v v' : Validator) (x : Claims)
    → claims_of codec req part v ≡ (ok x, v')
    → IsClaims codec req.now v.issuer part x × (v' ≡ v)
unfolding claims_of own_issuer return
claims_of-IsClaims codec req part v v' x h = elim (>>=-Went _ _ v (ap (λ r. r.0) h)) [
  | went text v0 decodes goes0 h0 ↦ elim (>>=-Went _ _ v0 h0) [
    | went claims v1 reads goes1 h1 ↦ elim (>>=-Went _ _ v1 h1) [
      | went issuer v2 owns goes2 h2 ↦ elim (>>=-Went _ _ v2 h2) [
        | went _ v3 checks goes3 h3 ↦
            let at_owner : v1 ≡ v = sym (ap (λ r. r.1) reads) ∙ sym (ap (λ r. r.1) decodes) in
            let owner : issuer ≡ v.issuer =
              sym (ok_value (ap (λ r. r.0) owns)) ∙ ap (λ w. w.issuer) at_owner in
            let (iss, (sub, exp)) =
              three (bytes_eq claims.iss issuer) (is_empty claims.sub) (ltb claims.exp req.now)
                (not_failed _ _ (ap (λ r. r.0) checks)) in
            (
              subst (IsClaims codec req.now v.issuer part) (ok_value h3) (record {
                claims_data = text;
                claims_decoded = not_missing _ _ (ap (λ r. r.0) decodes);
                claims_read = not_missing _ _ (ap (λ r. r.0) reads);
                of_issuer = ap (bytes_eq claims.iss) (sym owner) ∙ iss;
                has_user = sub;
                in_time = exp;
              }),
              sym (ap (λ r. r.1) h)
                  ∙ (ap (λ r. r.1) (goes0 ∙ (goes1 ∙ (goes2 ∙ goes3)))
                      ∙ (sym (ap (λ r. r.1) checks) ∙ (sym (ap (λ r. r.1) owns) ∙ at_owner))),
            )
      ]
    ]
  ]
]

check_signature-IsSigned :
    (codec : Codec) (req : Request) (kid a b c : Bytes) (v : Validator) {u : Unit {0}}
    → (check_signature codec req kid a b c v).0 ≡ ok u
    → IsSigned codec req v kid a b c
unfolding check_signature return
check_signature-IsSigned codec req kid a b c v h = elim (>>=-Went _ _ v h) [
  | went key v0 keys goes0 h0 ↦ elim (>>=-Went _ _ v0 h0) [
    | went sign v1 decodes goes1 h1 ↦ record {
      key = key;
      key_known = ap (λ r. r.0) keys;
      signature = sign;
      signature_decoded = not_missing _ _ (ap (λ r. r.0) decodes);
      signed = unnot _ (not_failed _ _ h1);
    }
  ]
]

verify_parts-IsAccepted :
    (codec : Codec) (req : Request) (v : Validator) (token a b c : Bytes) (r : Claims)
    → split_dots token ≡ a ∷ b ∷ c ∷ []
    → (verify_parts codec req a b c v).0 ≡ ok r
    → IsAccepted codec req v token r
unfolding verify_parts return
verify_parts-IsAccepted codec req v token a b c r parts h = elim (>>=-Went _ _ v h) [
  | went header v0 heads goes0 h0 ↦
      let (is_header, same0) = header_of-IsHeader codec req a v v0 header heads in
      elim (>>=-Went _ _ v0 h0) [
        | went claims v1 claims_are goes1 h1 ↦
            let (is_claims, same1) = claims_of-IsClaims codec req b v0 v1 claims claims_are in
            elim (>>=-Went _ _ v1 h1) [
              | went _ v2 checks goes2 h2 ↦ record {
                first = a;
                second = b;
                third = c;
                in_parts = parts;
                header = header;
                has_header = is_header;
                has_claims =
                    subst (IsClaims codec req.now v.issuer b) (ok_value h2)
                      (subst (λ w. IsClaims codec req.now w.issuer b claims) same0 is_claims);
                has_signature =
                    subst (λ w. IsSigned codec req w header.kid a b c) (same1 ∙ same0)
                      (check_signature-IsSigned codec req header.kid a b c v1
                        (ap (λ r. r.0) checks));
              }
            ]
      ]
]

-- A token that the wallet accepts has three parts: a header with the only algorithm and a key's id, claims of the issuer for a
-- user that have not expired, and a signature of the first two by the key that the validator has for the id.
pub verify-IsAccepted :
    (codec : Codec) (req : Request) (v : Validator) (token : Bytes) (c : Claims)
    → (verify codec req token v).0 ≡ ok c
    → IsAccepted codec req v token c
unfolding verify verify_split return
verify-IsAccepted codec req v token c h = of_parts (split_dots token) refl h
  where
    of_parts :
        (parts : List Bytes)
        → split_dots token ≡ parts
        → (verify_split codec req parts v).0 ≡ ok c
        → IsAccepted codec req v token c
    of_parts [] same e = cc
    of_parts (x ∷ []) same e = cc
    of_parts (x ∷ y ∷ []) same e = cc
    of_parts (x ∷ y ∷ z ∷ []) same e = verify_parts-IsAccepted codec req v token x y z c same e
    of_parts (x ∷ y ∷ z ∷ d ∷ rest) same e = cc
