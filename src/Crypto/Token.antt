-- ===== src/Crypto/Token.antt =====
-- The payload of a token, its signature and its verification.
use project_hamilton.Base.{
  ℕ, ◌+◌, map, Bool, true, false, Option, none, some, List, [], ◌∷◌, Text, text, text_dec, ite,
  length, ℕ_discrete, dec_lt,
}
use project_hamilton.Base.Int.{pos}
use project_hamilton.Base.Decimal.{Decimal, quantize}
use project_hamilton.Base.Json.{
  str_amount, Json, str, int, obj, end, field, compact_unicode, dumps, sort_keys,
}
use project_hamilton.Base.Action.{Result, ok, raise}
use project_hamilton.Crypto.Base64.{b64encode, b64decode}

pub data CryptoError : Type 0 where
  invalid_base64 invalid_key_length invalid_amount missing_field : CryptoError
  password_too_short incorrect_password unsupported_key : CryptoError
  invalid_private_key : Text → CryptoError

-- What `Decimal(str(value))` is: a finite number with its sign, a quiet NaN with its text, or a
-- value that `quantize` refuses, such as an infinity.
pub data Number : Type 0 where
  finite : Bool → Decimal → Number
  quiet_nan : Text → Number
  unquantizable : Number

-- How the reading of a PEM text ends: a key, a key of another kind, a ValueError with its text, or
-- another exception, such as the TypeError for a key that has no password.
pub data Loaded (Key : Type 0) : Type 0 where
  loaded_key : Key → Loaded Key
  other_key : Loaded Key
  value_error : Text → Loaded Key
  other_error : Loaded Key

-- What the library cryptography gives: signing and verifying with Ed25519 keys, their raw bytes, and
-- the PEM text of a private key; then `str.encode`, and `Decimal` on a text.
pub record Library : Type 1 where
  pub PrivateKey : Type 0
  pub PublicKey : Type 0
  pub public_key : PrivateKey → PublicKey
  pub public_bytes : PublicKey → List ℕ
  pub from_public_bytes : List ℕ → PublicKey
  pub private_pem : PrivateKey → Option Text → Text
  pub load_pem : Text → Option Text → Loaded PrivateKey
  pub sign : PrivateKey → List ℕ → List ℕ
  pub verify : PublicKey → List ℕ → List ℕ → Bool
  pub utf8 : Text → List ℕ
  pub parse_decimal : Text → Option Number

-- The sign of a number that is printed.
unfoldable pub signed_text : Bool → Text → Text
signed_text true digits = b'-' ∷ digits
signed_text false digits = digits

unfoldable pub number_text : Option Number → Result CryptoError Text
number_text none = raise invalid_amount
number_text (some (finite negative d)) = elim (quantize d) [
  | none ↦ raise invalid_amount
  | some cents ↦ ok (signed_text negative (str_amount cents))
]
number_text (some (quiet_nan t)) = ok t
number_text (some unquantizable) = raise invalid_amount

-- `data[field]`, as text.
unfoldable pub get_field : Text → List (Text × Text) → Option Text
get_field key [] = none
get_field key ((k, v) ∷ fs) = ite (text_dec k key) (some v) (get_field key fs)

-- `TokenPayload`, whose last three fields keep their defaults.
pub record TokenPayload : Type 0 where
  pub token_id : Text
  pub amount : Text
  pub currency : Text
  pub owner_public_key : Text

-- `to_dict`
unfoldable pub payload_dict : TokenPayload → Json
payload_dict p = obj (
    field (text "token_id") (str p.token_id) (
      field (text "amount") (str p.amount) (
        field (text "currency") (str p.currency) (
          field (text "owner_public_key") (str p.owner_public_key) (
            field (text "version") (int (pos 1)) (
              field (text "key_id") (str (text "v1"))
                (field (text "type") (str (text "upi_token")) end)))))))

-- `_canonical_json`
unfoldable pub canonical_json : Json → Text
canonical_json o = dumps compact_unicode (sort_keys o)

unfoldable pub payload_of :
    Option Text
    → Option Text
    → Option Text
    → Option Text
    → (Text → Result CryptoError Text)
    → Result CryptoError Text
payload_of (some token_id) (some amount) (some currency) (some owner) normalize =
    elim (normalize amount) [
      | raise e ↦ raise e
      | ok normal ↦ ok (
          canonical_json (
            payload_dict (record {
              token_id = token_id;
              amount = normal;
              currency = currency;
              owner_public_key = owner;
            })))
    ]
payload_of _ _ _ _ normalize = raise missing_field

-- A token; a dictionary may lack its keys.
pub record Token : Type 0 where
  pub payload : Option Text
  pub signature : Option Text
  pub created_at : Text

module _ (lib : Library) where
  open lib use {PrivateKey, PublicKey}

  -- `_normalize_amount`
  unfoldable pub normalize_amount : Text → Result CryptoError Text
  normalize_amount value = number_text (lib.parse_decimal value)

  -- `build_payload`
  unfoldable pub build_payload : List (Text × Text) → Result CryptoError Text
  build_payload fields =
      payload_of (get_field (text "token_id") fields) (get_field (text "amount") fields)
        (get_field (text "currency") fields) (get_field (text "owner_public_key") fields)
        normalize_amount

  -- `sign_bytes`
  unfoldable pub sign_bytes : PrivateKey → List ℕ → Text
  sign_bytes key message = b64encode (lib.sign key message)

  -- `verify_bytes`
  unfoldable pub verify_bytes : PublicKey → List ℕ → Text → Bool
  verify_bytes key message signature = elim (b64decode signature) [
    | none ↦ false
    | some sig ↦ lib.verify key message sig
  ]

  unfoldable pub signed_token :
      PrivateKey → Text → Result CryptoError Text → Result CryptoError Token
  signed_token key now (raise e) = raise e
  signed_token key now (ok payload) = ok (record {
    payload = some payload;
    signature = some (sign_bytes key (lib.utf8 payload));
    created_at = now;
  })

  -- `create_signed_token`; `now` is `_utc_now()`.
  unfoldable pub create_signed_token :
      PrivateKey → List (Text × Text) → Text → Result CryptoError Token
  create_signed_token key fields now = signed_token key now (build_payload fields)

  unfoldable pub verify_parts : PublicKey → Option Text → Option Text → Bool
  verify_parts key (some payload) (some signature) = verify_bytes key (lib.utf8 payload) signature
  verify_parts key _ _ = false

  -- `verify_signed_token`
  unfoldable pub verify_signed_token : Token → PublicKey → Bool
  verify_signed_token token key = verify_parts key token.payload token.signature

  -- `serialize_public_key`
  unfoldable pub serialize_public_key : PublicKey → Text
  serialize_public_key key = b64encode (lib.public_bytes key)

  -- `load_public_key`
  unfoldable pub load_public_key : Text → Result CryptoError PublicKey
  load_public_key t = elim (b64decode t) [
    | none ↦ raise invalid_base64
    | some raw ↦ elim (ℕ_discrete (length raw) 32) [
      | no _ ↦ raise invalid_key_length
      | yes _ ↦ ok (lib.from_public_bytes raw)
    ]
  ]

  -- `serialize_private_key`
  unfoldable pub serialize_private_key : PrivateKey → Option Text → Result CryptoError Text
  serialize_private_key key none = ok (lib.private_pem key none)
  serialize_private_key key (some password) = elim (dec_lt (length password) 8) [
    | yes _ ↦ raise password_too_short
    | no _ ↦ ok (lib.private_pem key (some password))
  ]

-- `"..." in msg`
unfoldable pub starts_with : Text → Text → Bool
starts_with [] t = true
starts_with (c ∷ s) [] = false
starts_with (c ∷ s) (d ∷ t) = let rest = starts_with s t in ite (ℕ_discrete c d) rest false

unfoldable pub occurs_in : Text → Text → Bool
occurs_in s [] = starts_with s []
occurs_in s (d ∷ t) =
    let rest = occurs_in s t in elim (starts_with s (d ∷ t)) [ true ↦ true | false ↦ rest ]

-- `lower`, on ASCII.
unfoldable pub lower : ℕ → ℕ
lower c = elim (dec_lt c b'A') [
  | yes _ ↦ c
  | no _ ↦ elim (dec_lt b'Z' c) [ yes _ ↦ c | no _ ↦ c + 32 ]
]

-- The ValueError that `load_private_key` raises for one with the text `exc`.
unfoldable pub key_error : Text → CryptoError
key_error exc = elim (occurs_in (text "bad decrypt") (map lower exc)) [
  | true ↦ incorrect_password
  | false ↦ elim (occurs_in (text "password") (map lower exc)) [
    | true ↦ incorrect_password
    | false ↦ invalid_private_key exc
  ]
]

unfoldable pub key_result : {Key : Type 0} → Loaded Key → Result CryptoError Key
key_result (loaded_key key) = ok key
key_result other_key = raise (key_error (text "Loaded key is not an Ed25519 private key"))
key_result (value_error exc) = raise (key_error exc)
key_result other_error = raise unsupported_key

-- `password.encode() if password else None`
unfoldable pub given : Option Text → Option Text
given none = none
given (some []) = none
given (some (c ∷ t)) = some (c ∷ t)

module _ (lib : Library) where
  open lib use {PrivateKey}

  -- `load_private_key`
  unfoldable pub load_private_key : Text → Option Text → Result CryptoError PrivateKey
  load_private_key data_ password = key_result (lib.load_pem data_ (given password))
