-- ===== src/Hamilton/Request.antt =====
-- The validated requests, and the checks that a handler makes before its transaction.
use project_hamilton.Base.{
  ℕ, suc, ◌+◌, ◌-◌, ◌*◌, ◌≤◌, Bool, true, false, Option, none, some, List, [], ◌∷◌, ◌++◌, Text,
  text, text_dec, dec_lt, dec_le, length, ⊤,
}
use project_hamilton.Base.Int.{ℤ, pos, negsuc}
use project_hamilton.Base.Json.{
  str_amount, Json, str, int, arr, obj, Items, nil, cons, end, field, dumps, sort_keys, compact,
}
use project_hamilton.Base.Action.{http, pure, throw, require, ◌>>◌}
use project_hamilton.Hamilton.State.{
  Act, idem_length, idem_not_uuid, network_mismatch, signed_at_window, bad_signature,
}

-- What the service takes from outside: its configuration, SHA-256 and HMAC-SHA-256, the check of
-- an Ed25519 signature by PyNaCl, and `uuid.UUID` as a test.
pub record Env : Type 0 where
  pub network_id : Text
  pub sha256_hex : List ℕ → Text
  pub hmac_sha256_hex : List ℕ → List ℕ → Text
  pub ed25519_verify : List ℕ → List ℕ → List ℕ → Bool
  pub is_uuid : Text → Bool

pub record TxOut : Type 0 where
  pub token_id : Text
  pub amount : ℕ
  pub receiver_public_key : Text

pub record TxRequest : Type 0 where
  pub transaction_id : Text
  pub network_id : Text
  pub currency : Text
  pub inputs : List Text
  pub outputs : List TxOut
  pub signer_public_key : Text
  pub signed_at : ℤ
  pub signature : Text

pub record MintReq : Type 0 where
  pub amount : ℕ
  pub currency : Text
  pub public_key : Text

pub record BurnReq : Type 0 where
  pub token_ids : List Text
  pub network_id : Text
  pub owner_public_key : Text
  pub signed_at : ℤ
  pub signature : Text

abbrev pub idem_key_max_len : ℕ
idem_key_max_len = 128

abbrev pub ts_window_sig : ℕ
ts_window_sig = 60

-- "HAMILTON_CORE_TX_V1:"
abbrev pub sig_prefix_tx : Text
sig_prefix_tx = text "HAMILTON_CORE_TX_V1:"

-- "HAMILTON_CORE_BURN_V1:"
abbrev pub sig_prefix_burn : Text
sig_prefix_burn = text "HAMILTON_CORE_BURN_V1:"

-- An ASCII whitespace, which `bytes.fromhex` skips between two bytes.
unfoldable pub is_space : ℕ → Bool
is_space c = elim (dec_lt 32 c) [
  | yes _ ↦ false
  | no _ ↦ elim (dec_lt c 32) [
    | no _ ↦ true
    | yes _ ↦ elim (dec_lt c 9) [
      | yes _ ↦ false
      | no _ ↦ elim (dec_lt 13 c) [ yes _ ↦ false | no _ ↦ true ]
    ]
  ]
]

unfoldable pub hex_value : ℕ → Option ℕ
hex_value c = elim (dec_lt c b'0') [
  | yes _ ↦ none
  | no _ ↦ elim (dec_le c b'9') [
    | yes _ ↦ some (c - b'0')
    | no _ ↦ elim (dec_lt c b'A') [
      | yes _ ↦ none
      | no _ ↦ elim (dec_le c b'F') [
        | yes _ ↦ some (c - 55)
        | no _ ↦ elim (dec_lt c b'a') [
          | yes _ ↦ none
          | no _ ↦ elim (dec_le c b'f') [ yes _ ↦ some (c - 87) | no _ ↦ none ]
        ]
      ]
    ]
  ]
]

unfoldable pub hex_pair : Option ℕ → Option ℕ → Option (List ℕ) → Option (List ℕ)
hex_pair (some h) (some l) (some rest) = some ((h * 16 + l) ∷ rest)
hex_pair _ _ _ = none

-- `bytes.fromhex`
unfoldable pub from_hex : Text → Option (List ℕ)
from_hex [] = some []
from_hex (c ∷ []) = elim (is_space c) [ true ↦ some [] | false ↦ none ]
from_hex (c ∷ d ∷ s) = elim (is_space c) [
  | true ↦ from_hex (d ∷ s)
  | false ↦ hex_pair (hex_value c) (hex_value d) (from_hex s)
]

unfoldable pub items_of : List Text → Items
items_of [] = nil
items_of (t ∷ ts) = cons (str t) (items_of ts)

unfoldable pub out_items : List TxOut → Items
out_items [] = nil
out_items (o ∷ os) =
    cons
      (obj (
        field (text "token_id") (str o.token_id) (
          field (text "amount") (str (str_amount o.amount))
            (field (text "receiver_public_key") (str o.receiver_public_key) end))))
      (out_items os)

-- `signing_data` of `process_tx`
unfoldable pub tx_signing_data : TxRequest → Json
tx_signing_data tx = obj (
    field (text "transaction_id") (str tx.transaction_id) (
      field (text "network_id") (str tx.network_id) (
        field (text "currency") (str tx.currency) (
          field (text "inputs") (arr (items_of tx.inputs)) (
            field (text "outputs") (arr (out_items tx.outputs)) (
              field (text "signer_public_key") (str tx.signer_public_key)
                (field (text "signed_at") (int tx.signed_at) end)))))))

-- `signing_data` of `burn`
unfoldable pub burn_signing_data : BurnReq → Json
burn_signing_data body = obj (
    field (text "token_ids") (arr (items_of body.token_ids)) (
      field (text "network_id") (str body.network_id) (
        field (text "owner_public_key") (str body.owner_public_key)
          (field (text "signed_at") (int body.signed_at) end))))

-- `body.model_dump(mode="json")` of `mint`
unfoldable pub mint_payload : MintReq → Json
mint_payload body = obj (
    field (text "amount") (str (str_amount body.amount)) (
      field (text "currency") (str body.currency)
        (field (text "public_key") (str body.public_key) end)))

-- `_canon`
unfoldable pub canon : Json → List ℕ
canon data_ = dumps compact (sort_keys data_)

-- `abs(now - t) <= window`, for a time `t` that may be negative.
abbrev pub Within : ℕ → ℕ → ℤ → Type 0
Within window now (pos t) = (now ≤ t + window) × (t ≤ now + window)
Within window now (negsuc t) = suc (now + t) ≤ window

unfoldable pub within_dec : (window now : ℕ) (t : ℤ) → Dec (Within window now t)
within_dec window now (pos t) = elim (dec_le now (t + window)) [
  | no p ↦ no (λ h. p h.0)
  | yes p ↦ elim (dec_le t (now + window)) [ yes q ↦ yes (p, q) | no q ↦ no (λ h. q h.1) ]
]
within_dec window now (negsuc t) = dec_le (suc (now + t)) window

module _ (env : Env) where
  -- `_validate_idem_key`
  unfoldable pub validate_idem_key : Text → Act ⊤
  validate_idem_key v = do
    require (dec_lt 0 (length v)) (http 400 idem_length)
    require (dec_le (length v) idem_key_max_len) (http 400 idem_length)
    elim (env.is_uuid v) [ true ↦ pure tt | false ↦ throw (http 400 idem_not_uuid) ]

  -- `_verify_network`
  unfoldable pub verify_network : Text → Act ⊤
  verify_network provided = require (text_dec provided env.network_id) (http 400 network_mismatch)

  -- Whether the two hexadecimal texts decode to a key and a signature that fit the message.
  unfoldable pub signature_ok : Text → List ℕ → Text → Bool
  signature_ok pubkey_hex msg sig_hex = elim (from_hex pubkey_hex) [
    | none ↦ false
    | some key ↦ elim (from_hex sig_hex) [
      | none ↦ false
      | some sig ↦ env.ed25519_verify key msg sig
    ]
  ]

  -- `_verify_ed25519`
  unfoldable pub verify_ed25519 : Text → List ℕ → Text → Text → Act ⊤
  verify_ed25519 pubkey_hex msg sig_hex prefix =
      elim (signature_ok pubkey_hex (prefix ++ msg) sig_hex) [
        | true ↦ pure tt
        | false ↦ throw (http 400 bad_signature)
      ]

-- `_verify_signed_at`
unfoldable pub verify_signed_at : ℕ → ℤ → Act ⊤
verify_signed_at now signed_at =
    require (within_dec ts_window_sig now signed_at) (http 400 signed_at_window)
