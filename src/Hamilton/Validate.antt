-- ===== src/Hamilton/Validate.antt =====
-- The validators of the requests: what pydantic lets through, and what it makes of it. A check that
-- raises, whatever the exception, refuses the request. Currencies are ASCII texts.
use project_hamilton.Base.{
  ℕ, suc, ◌-◌, ◌*◌, ◌/◌, ◌^◌, Bool, true, false, Option, none, some, List, [], ◌∷◌, Text, text,
  text_dec, length, contains, dec_lt, dec_le, ℕ_discrete, map, ⊤,
}
use project_hamilton.Base.Int.{ℤ}
use project_hamilton.Base.Money.{limit}
use project_hamilton.Base.Decimal.{Decimal}
use project_hamilton.Base.Action.{Action, pure, throw, require, or_throw, ◌>>=◌, ◌>>◌}
use project_hamilton.Hamilton.Request.{TxOut, TxRequest, MintReq, BurnReq, from_hex}

-- A validator, which returns or refuses.
abbrev pub Check : Type 0 → Type 0
Check = Action ⊤ ⊤

-- What `Decimal` reads; zero is positive.
pub data SentNumber : Type 0 where
  positive negative : Decimal → SentNumber
  infinite not_a_number : SentNumber

-- `quantize(Decimal("0.01"), rounding=ROUND_DOWN)`, in cents.
unfoldable pub round_down : Decimal → ℕ
round_down d = d.digits * 100 / 10 ^ d.places

-- `_to_decimal` of a text that `Decimal` reads or not; `quantize` raises above 28 digits.
unfoldable pub to_decimal : Option SentNumber → Check ℕ
to_decimal (some (positive d)) = do
  require (dec_lt 0 d.digits) tt
  require (dec_lt (round_down d) limit) tt
  pure (round_down d)
to_decimal _ = throw tt

-- `_validate_hex`
unfoldable pub validate_hex : Text → ℕ → Check ⊤
validate_hex val expected_len = do
  require (ℕ_discrete (length val) expected_len) tt
  bytes ← or_throw (from_hex val) tt
  pure tt

-- The characters that `strip` removes: 9 to 13, and 28 to 32.
unfoldable pub is_blank : ℕ → Bool
is_blank c = elim (dec_lt c 9) [
  | yes _ ↦ false
  | no _ ↦ elim (dec_le c 13) [
    | yes _ ↦ true
    | no _ ↦ elim (dec_lt c 28) [
      | yes _ ↦ false
      | no _ ↦ elim (dec_le c 32) [ yes _ ↦ true | no _ ↦ false ]
    ]
  ]
]

unfoldable pub strip_start : Text → Text
strip_start [] = []
strip_start (c ∷ t) = let rest = strip_start t in elim (is_blank c) [ true ↦ rest | false ↦ c ∷ t ]

-- A blank goes if all that follows has gone.
unfoldable pub keep_blank : ℕ → Text → Text
keep_blank c [] = elim (is_blank c) [ true ↦ [] | false ↦ c ∷ [] ]
keep_blank c (d ∷ t) = c ∷ d ∷ t

unfoldable pub strip_end : Text → Text
strip_end [] = []
strip_end (c ∷ t) = keep_blank c (strip_end t)

unfoldable pub upper : ℕ → ℕ
upper c = elim (dec_lt c b'a') [
  | yes _ ↦ c
  | no _ ↦ elim (dec_le c b'z') [ yes _ ↦ c - 32 | no _ ↦ c ]
]

abbrev pub allowed_currencies : List Text
allowed_currencies =
    text "USD" ∷ text "EUR" ∷ text "GBP" ∷ text "SGD" ∷ text "JPY" ∷ text "CHF" ∷ []

-- `v.strip().upper()`
unfoldable pub normed : Text → Text
normed v = map upper (strip_end (strip_start v))

unfoldable pub is_allowed : Text → Check Text
is_allowed v = elim (contains text_dec v allowed_currencies) [ true ↦ pure v | false ↦ throw tt ]

-- `_validate_currency`
unfoldable pub validate_currency : Text → Check Text
validate_currency v = is_allowed (normed v)

abbrev pub max_utxo_list : ℕ
max_utxo_list = 100

-- `Field(..., min_length=1, max_length=MAX_UTXO_LIST)`
unfoldable pub check_size : ℕ → Check ⊤
check_size n = do require (dec_lt 0 n) tt; require (dec_le n max_utxo_list) tt

-- The fields of `TxOut`, as they are sent.
pub record RawOut : Type 0 where
  pub token_id : Option Text
  pub amount : Option SentNumber
  pub receiver_public_key : Text

-- `default_factory`
unfoldable pub id_or : Text → Option Text → Text
id_or fresh none = fresh
id_or fresh (some tid) = tid

unfoldable pub make_out : Text → RawOut → ℕ → TxOut
make_out fresh o amount = record {
  token_id = id_or fresh o.token_id;
  amount = amount;
  receiver_public_key = o.receiver_public_key;
}

unfoldable pub check_out : Text → RawOut → Check TxOut
check_out fresh o = do
  amount ← to_decimal o.amount
  validate_hex o.receiver_public_key 64
  pure (make_out fresh o amount)

-- `fresh k` is the identifier for the output at the place `k`.
unfoldable pub check_outs : (ℕ → Text) → ℕ → List RawOut → Check (List TxOut)
check_outs fresh k [] = pure []
check_outs fresh k (o ∷ os) = do
  out ← check_out (fresh k) o
  rest ← check_outs fresh (suc k) os
  pure (out ∷ rest)

-- The fields of `TxRequest`, `MintReq` and `BurnReq`, as they are sent.
pub record RawTx : Type 0 where
  pub transaction_id : Text
  pub network_id : Text
  pub currency : Text
  pub inputs : List Text
  pub outputs : List RawOut
  pub signer_public_key : Text
  pub signed_at : ℤ
  pub signature : Text

pub record RawMint : Type 0 where
  pub amount : Option SentNumber
  pub currency : Text
  pub public_key : Text

unfoldable pub make_tx : RawTx → Text → List TxOut → TxRequest
make_tx raw currency outputs = record {
  transaction_id = raw.transaction_id;
  network_id = raw.network_id;
  currency = currency;
  inputs = raw.inputs;
  outputs = outputs;
  signer_public_key = raw.signer_public_key;
  signed_at = raw.signed_at;
  signature = raw.signature;
}

unfoldable pub validate_tx : (ℕ → Text) → RawTx → Check TxRequest
validate_tx fresh raw = do
  currency ← validate_currency raw.currency
  check_size (length raw.inputs)
  check_size (length raw.outputs)
  outputs ← check_outs fresh 0 raw.outputs
  validate_hex raw.signer_public_key 64
  validate_hex raw.signature 128
  pure (make_tx raw currency outputs)

unfoldable pub validate_mint : RawMint → Check MintReq
validate_mint raw = do
  amount ← to_decimal raw.amount
  currency ← validate_currency raw.currency
  validate_hex raw.public_key 64
  pure (record { amount = amount; currency = currency; public_key = raw.public_key })

-- The fields of a burn are kept as they are sent.
unfoldable pub validate_burn : BurnReq → Check BurnReq
validate_burn body = do
  check_size (length body.token_ids)
  validate_hex body.owner_public_key 64
  validate_hex body.signature 128
  pure body
