-- ===== src/Tokens.antt =====
-- Access tokens: services/auth-service/internal/security/token.go issues them, services/wallet-service/internal/auth/jwt.go
-- accepts them; services/table-manager/internal/delivery/grpc/auth.go has the same checks. Base64, JSON, SHA-256 and RSA are the record `Codec`, and times are in seconds.
pub mod Accepted
mod Tests
use holdem.Prelude.{
  ℕ, ◌+◌, ◌*◌, ◌%◌, Bool, true, false, ◌&&◌, ◌||◌, not, ltb, ◌==◌, if◌then◌else◌, Option, none,
  some, List, [], ◌∷◌, ◌++◌, drop, take, Outcome, ok, err, panic, Error, fail_if, or_fail,
}
use holdem.Prelude
use holdem.Prelude.Text.{Bytes, bytes_eq, is_empty, trim_space}
use holdem.Prelude.Ascii.{ascii}
use holdem.Database.{SqlOn, return, ◌>>=◌, ◌>>◌}

-- `rsa.PublicKey`
pub record Key : Type 0 where
  pub modulus : ℕ
  pub exponent : ℕ

-- the header of a token, as far as it is read
pub record Header : Type 0 where
  pub alg : Bytes
  pub kid : Bytes

-- `claims`
pub record Claims : Type 0 where
  pub iss : Bytes
  pub sub : Bytes
  pub is_admin : Bool
  pub exp : ℕ

-- `jwk`
pub record Jwk : Type 0 where
  pub kty : Bytes
  pub kid : Bytes
  pub alg : Bytes
  pub n : Bytes
  pub e : Bytes

-- The libraries. `decode`, `read_header` and `read_claims` give nothing where Go gives an error; `write_claims` takes the
-- time of issue beside the other claims.
pub record Codec : Type 0 where
  pub encode : Bytes → Bytes
  pub decode : Bytes → Option Bytes
  pub write_header : Header → Outcome Bytes
  pub read_header : Bytes → Option Header
  pub write_claims : ℕ → Claims → Outcome Bytes
  pub read_claims : Bytes → Option Claims
  pub sha256 : Bytes → Bytes
  pub sign : Bytes → Outcome Bytes
  pub verifies : Key → Bytes → Bytes → Bool
  pub int_bytes : ℕ → Bytes

abbrev pub dot : ℕ
dot = b'.'

-- `strings.Split` at dots
unfoldable pub split_dots : Bytes → List Bytes
split_dots [] = [] ∷ []
split_dots (b ∷ s) = with_byte b (split_dots s)
  where
    with_byte : ℕ → List Bytes → List Bytes
    with_byte c [] = []
    with_byte c (part ∷ parts) = if c == dot then [] ∷ part ∷ parts else (c ∷ part) ∷ parts

-- `TokenManager`
pub record Issuer : Type 0 where
  pub issuer : Bytes
  pub key_id : Bytes
  pub access_ttl : ℕ
  pub public_key : Key

-- `IssueAccessToken` at a time
unfoldable pub issue_access_token : Codec → Issuer → ℕ → Bytes → Bool → Outcome Bytes
issue_access_token codec m now user_id is_admin =
    Prelude.◌>>=◌ (codec.write_header (record { alg = ascii "RS256"; kid = m.key_id })) λ header.
      Prelude.◌>>=◌
        (codec.write_claims now
          (record { iss = m.issuer; sub = user_id; is_admin = is_admin; exp = now + m.access_ttl }))
        λ claims.
          Prelude.◌>>=◌
            (codec.sign (codec.sha256 (codec.encode header ++ (dot ∷ codec.encode claims))))
            λ signature. ok (
              codec.encode header
              ++ (dot ∷ (codec.encode claims ++ (dot ∷ codec.encode signature))))

-- `JWKS`
unfoldable pub jwks : Codec → Issuer → List Jwk
jwks codec m =
    record {
      kty = ascii "RSA";
      kid = m.key_id;
      alg = ascii "RS256";
      n = codec.encode (codec.int_bytes m.public_key.modulus);
      e = codec.encode (codec.int_bytes m.public_key.exponent);
    }
    ∷ []

-- `Validator`, without its lock and its client
pub record Validator : Type 0 where
  pub issuer : Bytes
  pub keys : List (Bytes × Key)
  pub fetched_at : ℕ

-- `NewValidator`
abbrev pub new_validator : Bytes → Validator
new_validator issuer = record { issuer = issuer; keys = []; fetched_at = 0 }

-- a key of the map; a later entry stands first
unfoldable pub find_key : Bytes → List (Bytes × Key) → Option Key
find_key kid [] = none
find_key kid (x ∷ rest) = if bytes_eq x.0 kid then some x.1 else find_key kid rest

-- `big.Int.SetBytes`
unfoldable pub set_bytes : ℕ → Bytes → ℕ
set_bytes n [] = n
set_bytes n (b ∷ s) = set_bytes (n * 256 + b) s

-- the loop over the exponent's bytes, on 64-bit integers
unfoldable pub exponent_of : ℕ → Bytes → ℕ
exponent_of n [] = n
exponent_of n (b ∷ s) = exponent_of ((n * 256 + b) % 18446744073709551616) s

-- `publicKeyFromJWK`
unfoldable pub public_key_from_jwk : Codec → Jwk → Option Key
public_key_from_jwk codec k = elim (codec.decode k.n) [
  | none ↦ none
  | some modulus ↦ elim (codec.decode k.e) [
    | none ↦ none
    | some exponent ↦
        if exponent_of 0 exponent == 0
        then none
        else some (record { modulus = set_bytes 0 modulus; exponent = exponent_of 0 exponent })
  ]
]

-- the loop of `refreshKeys` over the document
unfoldable pub read_keys : Codec → List Jwk → List (Bytes × Key) → Option (List (Bytes × Key))
read_keys codec [] keys = some keys
read_keys codec (k ∷ rest) keys =
    if not (bytes_eq k.kty (ascii "RSA")) || not (bytes_eq k.alg (ascii "RS256")) || is_empty k.kid
    then read_keys codec rest keys
    else elim (public_key_from_jwk codec k) [
      | none ↦ none
      | some key ↦ read_keys codec rest ((k.kid, key) ∷ keys)
    ]

-- the time, and the document that the auth service answers with, if it answers with one
pub record Request : Type 0 where
  pub now : ℕ
  pub document : Option (List Jwk)

-- `bearerToken`
unfoldable pub bearer_token : Bytes → Bytes
bearer_token value =
    if bytes_eq (take 7 value) (ascii "Bearer ") then trim_space (drop 7 value) else []

module _ (codec : Codec) (req : Request) where
  -- `refreshKeys`
  unfoldable pub refresh_keys : SqlOn Validator (Unit {0})
  refresh_keys v = elim req.document [
    | none ↦ (err Error.unauthenticated, v)
    | some doc ↦ elim (read_keys codec doc []) [
      | none ↦ (err Error.unauthenticated, v)
      | some keys ↦ (ok tt, record v { keys = keys; fetched_at = req.now })
    ]
  ]

  -- `keyFor`
  unfoldable pub key_for : Bytes → SqlOn Validator Key
  key_for kid v = elim (find_key kid v.keys) [
    | none ↦ after_refresh (refresh_keys v)
    | some key ↦
        if ltb (v.fetched_at + 300) req.now then with_cached key (refresh_keys v) else (ok key, v)
  ]
    where
      after_refresh : Outcome (Unit {0}) × Validator → Outcome Key × Validator
      after_refresh (ok u, w) = (or_fail (find_key kid w.keys) Error.unauthenticated, w)
      after_refresh (err e, w) = (err e, w)
      after_refresh (panic, w) = (panic, w)

      with_cached : Key → Outcome (Unit {0}) × Validator → Outcome Key × Validator
      with_cached key (ok u, w) = (or_fail (find_key kid w.keys) Error.unauthenticated, w)
      with_cached key (err e, w) = (ok key, w)
      with_cached key (panic, w) = (panic, w)

  -- the parts of `verify`: the header, the claims, and the signature
  unfoldable pub header_of : Bytes → SqlOn Validator Header
  header_of first = do
    text ← return (or_fail (codec.decode first) Error.unauthenticated)
    header ← return (or_fail (codec.read_header text) Error.unauthenticated)
    return (
        fail_if (not (bytes_eq header.alg (ascii "RS256")) || is_empty header.kid)
          Error.unauthenticated)
    return (ok header)

  unfoldable pub own_issuer : SqlOn Validator Bytes
  own_issuer v = (ok v.issuer, v)

  unfoldable pub claims_of : Bytes → SqlOn Validator Claims
  claims_of second = do
    text ← return (or_fail (codec.decode second) Error.unauthenticated)
    claims ← return (or_fail (codec.read_claims text) Error.unauthenticated)
    issuer ← own_issuer
    return (
        fail_if (not (bytes_eq claims.iss issuer) || is_empty claims.sub || ltb claims.exp req.now)
          Error.unauthenticated)
    return (ok claims)

  unfoldable pub check_signature : Bytes → Bytes → Bytes → Bytes → SqlOn Validator (Unit {0})
  check_signature kid first second third = do
    key ← key_for kid
    signature ← return (or_fail (codec.decode third) Error.unauthenticated)
    return (
        fail_if (not (codec.verifies key (codec.sha256 (first ++ (dot ∷ second))) signature))
          Error.unauthenticated)

  unfoldable pub verify_parts : Bytes → Bytes → Bytes → SqlOn Validator Claims
  verify_parts first second third = do
    header ← header_of first
    claims ← claims_of second
    check_signature header.kid first second third
    return (ok claims)

  -- the test of the number of parts
  unfoldable pub verify_split : List Bytes → SqlOn Validator Claims
  verify_split [] = return (err Error.unauthenticated)
  verify_split (a ∷ []) = return (err Error.unauthenticated)
  verify_split (a ∷ b ∷ []) = return (err Error.unauthenticated)
  verify_split (a ∷ b ∷ c ∷ []) = verify_parts a b c
  verify_split (a ∷ b ∷ c ∷ d ∷ rest) = return (err Error.unauthenticated)

  -- `verify`; its result has the claims' user and admin flag
  unfoldable pub verify : Bytes → SqlOn Validator Claims
  verify token = verify_split (split_dots token)

  -- `AuthenticateRequest` on the value of the header
  unfoldable pub authenticate_request : Bytes → SqlOn Validator Claims
  authenticate_request header =
      if is_empty (bearer_token header)
      then return (err Error.unauthenticated)
      else verify (bearer_token header)
