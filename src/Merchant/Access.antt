-- ===== src/Merchant/Access.antt =====
-- What a request to the merchant service passes before its handler, and what is signed for a QR code.
use project_hamilton.Base.{
  ℕ, ◌+◌, ◌*◌, ◌≤◌, ◌++◌, Option, none, some, List, [], ◌∷◌, Text, text, text_dec, dec_le, ⊤,
}
use project_hamilton.Base.Int.{ℤ, pos, negsuc}
use project_hamilton.Base.Json.{Json, Fields, str, obj, end, field, int, dumps, sort_keys, compact}
use project_hamilton.Base.Action.{http, throw, require, ◌>>◌}
use project_hamilton.Base.Action.Atomic.{IsReadonly, readonly_rules}
use project_hamilton.Merchant.State.{
  Act, Env, Payment, PaymentCallback, missing_key, unauthorized, invalid_timestamp, request_expired,
  invalid_signature,
}
use project_hamilton.Merchant.Payments.{create_payment, Answer, payment_callback}

-- The settings that these checks read, and what they take from outside.
pub record Keys : Type 0 where
  pub api_key_hash : Text
  pub webhook_secret : List ℕ
  pub qr_secret : List ℕ
  pub sha256_hex : List ℕ → Text
  pub hmac_sha256_hex : List ℕ → List ℕ → Text
  pub parse_int : Text → Option ℤ

-- `require_admin`, on the header X-Merchant-Key; the headers are ASCII.
unfoldable pub require_admin : Keys → Option Text → Act ⊤
require_admin keys none = throw (http 401 missing_key)
require_admin keys (some []) = throw (http 401 missing_key)
require_admin keys (some (c ∷ key)) =
    require (text_dec (keys.sha256_hex (c ∷ key)) keys.api_key_hash) (http 401 unauthorized)

-- `abs(time.time() - ts) <= 300`, the time being in microseconds.
abbrev pub InTime : ℕ → ℤ → Type 0
InTime now (pos ts) = (now ≤ (ts + 300) * 1000000) × (ts * 1000000 ≤ now + 300000000)
InTime now (negsuc n) = now + (n + 1) * 1000000 ≤ 300000000

unfoldable pub in_time_dec : (now : ℕ) (ts : ℤ) → Dec (InTime now ts)
in_time_dec now (pos ts) = elim (dec_le now ((ts + 300) * 1000000)) [
  | no p ↦ no (λ h. p h.0)
  | yes p ↦ elim (dec_le (ts * 1000000) (now + 300000000)) [
    | yes q ↦ yes (p, q)
    | no q ↦ no (λ h. q h.1)
  ]
]
in_time_dec now (negsuc n) = dec_le (now + (n + 1) * 1000000) 300000000

-- `verify_webhook_signature`, on the parsed time.
unfoldable pub verify_webhook_at : Keys → ℕ → List ℕ → Text → Text → Option ℤ → Act ⊤
verify_webhook_at keys now body x_signature x_timestamp none = throw (http 400 invalid_timestamp)
verify_webhook_at keys now body x_signature x_timestamp (some ts) = do
  require (in_time_dec now ts) (http 401 request_expired)
  require (text_dec (keys.hmac_sha256_hex keys.webhook_secret (body ++ x_timestamp)) x_signature)
      (http 403 invalid_signature)

-- `verify_webhook_signature`; the identifier of the event is not signed.
unfoldable pub verify_webhook_signature : Keys → ℕ → List ℕ → Text → Text → Act ⊤
verify_webhook_signature keys now body x_signature x_timestamp =
    verify_webhook_at keys now body x_signature x_timestamp (keys.parse_int x_timestamp)

unfoldable pub add_field : Text → Json → Fields → Fields
add_field key value end = field key value end
add_field key value (field k v rest) = field k v (add_field key value rest)

-- `sign_qr_payload`, of a payload without the key "sig".
unfoldable pub sign_qr_payload : Keys → Fields → Json
sign_qr_payload keys payload = obj (
    add_field (text "sig")
      (str (keys.hmac_sha256_hex keys.qr_secret (dumps compact (sort_keys (obj payload))))) payload)

-- The payload of a payment; `expiry` is the text of its `expires_at`, `nonce` a random one.
unfoldable pub qr_payload : Payment → Text → Text → Fields
qr_payload payment expiry nonce = field (text "domain") (str (text "MERCHANT_QR_V1")) (
    field (text "request_id") (str payment.id) (
      field (text "merchant_id") (str payment.merchant_id) (
        field (text "amount_cents") (int (pos payment.amount_cents))
          (field (text "expires_at") (str expiry) (field (text "nonce") (str nonce) end)))))

-- The endpoint "/payments/create".
unfoldable pub create_endpoint : Env → Keys → Option Text → ℕ → ℕ → Text → ℤ → Act Payment
create_endpoint env keys key now count request_id amount = do
  require_admin keys key
  create_payment env now count request_id amount

-- The endpoint "/payments/callback", on the bytes of the body and what they say.
unfoldable pub callback_endpoint :
    Env → Keys → ℕ → List ℕ → Text → Text → PaymentCallback → Text → Act Answer
callback_endpoint env keys now body x_signature x_timestamp cb event_id = do
  verify_webhook_signature keys now body x_signature x_timestamp
  payment_callback env now cb event_id

-- The checks write nothing.
pub verify_webhook_at-IsReadonly :
    (keys : Keys) (now : ℕ) (body : List ℕ) (x_signature x_timestamp : Text) (ts : Option ℤ)
    → IsReadonly (verify_webhook_at keys now body x_signature x_timestamp ts)
unfolding verify_webhook_at
verify_webhook_at-IsReadonly keys now body x_signature x_timestamp none = search readonly_rules
verify_webhook_at-IsReadonly keys now body x_signature x_timestamp (some ts) = search readonly_rules
