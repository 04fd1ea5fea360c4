-- ===== src/Tokens/Tests.antt =====
-- A token of three letters, under libraries that change nothing.
use holdem.Prelude.{◌≡◌, refl, true, false, some, [], ◌∷◌, ok}
use holdem.Prelude.Text.{bytes_eq, is_empty}
use holdem.Prelude.Ascii.{ascii}
use holdem.Database
use holdem.Database.{return}
use holdem.Tokens.{
  Key, Claims, Codec, Validator, Request, split_dots, find_key, key_for, header_of, claims_of,
  own_issuer, check_signature, verify_parts, verify_split, verify,
}
use holdem.Tokens.Accepted.{IsAccepted, verify-IsAccepted}

abbrev key : Key
key = record { modulus = 15; exponent = 3 }

abbrev claims : Claims
claims = record { iss = ascii "auth"; sub = ascii "ann"; is_admin = false; exp = 200 }

abbrev plain : Codec
plain = record {
  encode = λ s. s;
  decode = λ s. some s;
  write_header = λ h. ok (ascii "h");
  read_header = λ s. some (record { alg = ascii "RS256"; kid = ascii "k" });
  write_claims = λ now c. ok (ascii "c");
  read_claims = λ s. some claims;
  sha256 = λ s. s;
  sign = λ s. ok s;
  verifies = λ k hash sign. true;
  int_bytes = λ n. [];
}

abbrev wallet : Validator
wallet = record { issuer = ascii "auth"; keys = (ascii "k", key) ∷ []; fetched_at = 100 }

abbrev asked : Request
asked = record { now = 150; document = some [] }

accepts : (verify plain asked (ascii "h.c.s") wallet).0 ≡ ok claims
unfolding verify verify_split verify_parts header_of claims_of own_issuer check_signature key_for
    find_key split_dots return Database.◌>>=◌ bytes_eq is_empty
accepts = refl

verify-IsAccepted_example : IsAccepted plain asked wallet (ascii "h.c.s") claims
verify-IsAccepted_example = verify-IsAccepted plain asked wallet (ascii "h.c.s") claims accepts
