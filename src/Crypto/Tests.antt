-- ===== src/Crypto/Tests.antt =====
-- Each theorem at concrete bytes and keys.
use project_hamilton.Base.{
  ℕ, ◌≡◌, refl, true, some, List, [], ◌∷◌, Text, text, text_dec, arith, ℕ_discrete,
}
use project_hamilton.Base.Action.{ok}
use project_hamilton.Crypto.Base64.{b64encode, b64decode, b64decode-b64encode}
use project_hamilton.Crypto.Token.{
  Library, loaded_key, Token, quiet_nan, number_text, get_field, payload_of, normalize_amount,
  build_payload, canonical_json, payload_dict, sign_bytes, create_signed_token, signed_token,
  verify_signed_token,
}
use project_hamilton.Crypto.RoundTrip.{verify-create}

b64decode-b64encode_example :
    b64decode (b64encode (0 ∷ 255 ∷ 7 ∷ 66 ∷ [])) ≡ some (0 ∷ 255 ∷ 7 ∷ 66 ∷ [])
b64decode-b64encode_example = b64decode-b64encode (0 ∷ 255 ∷ 7 ∷ 66 ∷ []) (omega arith)

-- A public key is its bytes.
abbrev raw_key : List ℕ
raw_key =
    1 ∷ 2 ∷ 3 ∷ 4 ∷ 5 ∷ 6 ∷ 7 ∷ 8 ∷ 9 ∷ 10 ∷ 11 ∷ 12 ∷ 13 ∷ 14 ∷ 15 ∷ 16 ∷ 17 ∷ 18 ∷ 19 ∷ 20 ∷ 21
    ∷ 22 ∷ 23 ∷ 24 ∷ 25 ∷ 26 ∷ 27 ∷ 28 ∷ 29 ∷ 30 ∷ 31 ∷ 255 ∷ []

-- A library in which every signature is the same byte.
abbrev library : Library
library = record {
  PrivateKey = List ℕ;
  PublicKey = List ℕ;
  public_key = λ k. k;
  public_bytes = λ k. k;
  from_public_bytes = λ b. b;
  private_pem = λ k p. k;
  load_pem = λ t p. loaded_key t;
  sign = λ k m. 9 ∷ [];
  verify = λ k m s. true;
  utf8 = λ t. t;
  parse_decimal = λ t. some (quiet_nan t);
}

abbrev fields : List (Text × Text)
fields =
    (text "token_id", text "t")
    ∷ (text "amount", text "1")
    ∷ (text "currency", text "INR")
    ∷ (text "owner_public_key", text "k")
    ∷ []

program : Unit {0}
unfolding create_signed_token signed_token build_payload payload_of get_field text_dec ℕ_discrete
    normalize_amount number_text
program = tt

abbrev payload : Text
payload = canonical_json (
    payload_dict (record {
      token_id = text "t";
      amount = text "1";
      currency = text "INR";
      owner_public_key = text "k";
    }))

abbrev token : Token
token = record {
  payload = some payload;
  signature = some (sign_bytes library raw_key payload);
  created_at = text "now";
}

created : create_signed_token library raw_key fields (text "now") ≡ ok token
unfolding program
created = refl

verify-create_example :
    (p : Text) × (build_payload library fields ≡ ok p)
    × (token.payload ≡ some p)
    × (verify_signed_token library token raw_key ≡ true)
verify-create_example =
    verify-create library raw_key raw_key fields (text "now") token (λ m. omega arith) created
