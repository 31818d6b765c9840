-- ===== src/Merchant/Payments.antt =====
-- `create_payment`, `payment_callback` and `get_payment_status`. The count that Redis keeps for
-- the rate limit is an argument, as the time and the identifiers of `uuid.uuid4()` are.
use project_hamilton.Base.{
  Bool, ℕ, suc, ◌+◌, ◌*◌, ◌/◌, ◌^◌, Option, none, some, ◌∷◌, Text, text, text_dec, ite, dec_lt,
  dec_le, ℕ_discrete, true, false,
}
use project_hamilton.Base.Money.{round}
use project_hamilton.Base.Int.{ℤ, pos, negsuc, neg_ℕ}
use project_hamilton.Base.Action.{
  Error, http, value_error, pure, throw, gets, require, refuse, or_throw, modify, transaction,
  ◌>>=◌, ◌>>◌,
}
use project_hamilton.Merchant.State.{
  PaymentStatus, pending, success, failed, expired, EventType, payment_created, webhook_processed,
  Payment, rate_limit_exceeded, invalid_amount, invalid_request_id, payment_not_found,
  amount_mismatch, internal_error, Failure, Act, PaymentCallback, Env, find_webhook, find_id,
  find_payment, update_status,
}

-- `enforce_rate_limit`, on the count that `INCR` returned.
unfoldable pub enforce_rate_limit : ℕ → Act Unit
enforce_rate_limit count = refuse (dec_lt 20 count) (http 429 rate_limit_exceeded)

-- `int(amount * 100)`: the product rounds to the context, and `int` cuts off towards 0.
unfoldable pub to_cents : ℕ → ℤ → ℤ
to_cents scale (pos n) = pos (round (n * 100) / scale)
to_cents scale (negsuc n) = neg_ℕ (round (suc n * 100) / scale)

-- A value of more than 63 bits does not fit an SQLite integer: an OverflowError.
unfoldable pub insert_payment : Payment → Act Unit
insert_payment p db = elim (dec_lt p.amount_cents (2 ^ 63)) [
  | no _ ↦ throw Error.runtime_error db
  | yes _ ↦ elim (find_id p.id db.payments) [
    | some _ ↦ throw Error.integrity_error db
    | none ↦ modify (λ d. record d { payments = p ∷ d.payments }) db
  ]
]

unfoldable pub insert_event : Text → PaymentStatus → EventType → Act Unit
insert_event id status event_type = modify λ db. record db {
  payment_events =
      record { payment_id = id; status = status; event_type = event_type } ∷ db.payment_events;
}

unfoldable pub insert_webhook : Text → Act Unit
insert_webhook event_id db = elim (find_webhook event_id db.processed_webhooks) [
  | some _ ↦ throw Error.integrity_error db
  | none ↦ modify (λ d. record d { processed_webhooks = event_id ∷ d.processed_webhooks }) db
]

-- `except Exception`
unfoldable pub to_internal : Failure → Failure
to_internal e = http 500 internal_error

-- The row of a new payment, which expires after ten minutes.
abbrev pub new_payment : Env → ℕ → Text → ℕ → Payment
new_payment env now request_id cents = record {
  id = request_id;
  merchant_id = env.merchant_id;
  amount_cents = cents;
  status = pending;
  expires_at = now + 600000000;
}

unfoldable pub store_payment : Env → ℕ → Text → ℕ → Act Payment
store_payment env now request_id cents = transaction to_internal (do
  insert_payment (new_payment env now request_id cents)
  insert_event request_id pending payment_created
  pure (new_payment env now request_id cents))

-- `if amount <= 0`
unfoldable pub create_positive : Env → ℕ → Text → ℤ → Act Payment
create_positive env now request_id (negsuc n) = throw (http 400 invalid_amount)
create_positive env now request_id (pos n) = do
  refuse (dec_le n 0) (http 400 invalid_amount)
  store_payment env now request_id (round (n * 100) / env.scale)

-- `create_payment`, up to the image of the QR code; the response shows the row.
unfoldable pub create_payment : Env → ℕ → ℕ → Text → ℤ → Act Payment
create_payment env now count request_id amount = do
  enforce_rate_limit count
  create_positive env now request_id amount

-- What a callback answers.
pub data Answer : Type 0 where
  already_processed accepted : Answer
  already_terminal : PaymentStatus → Answer

-- `cb.status if cb.status in ("SUCCESS", "FAILED") else "FAILED"`
unfoldable pub reported_status : Text → PaymentStatus
reported_status status = ite (text_dec status (text "SUCCESS")) success failed

-- The status of a payment after its callback.
unfoldable pub new_status : ℕ → PaymentCallback → Payment → PaymentStatus
new_status now cb payment = ite (dec_lt payment.expires_at now) expired (reported_status cb.status)

-- `if cb_amount_cents != payment["amount_cents"]`
unfoldable pub check_amount : ℤ → ℕ → Act Unit
check_amount (negsuc n) cents = throw (http 400 amount_mismatch)
check_amount (pos n) cents = require (ℕ_discrete n cents) (http 400 amount_mismatch)

unfoldable pub ignore_terminal : Text → PaymentStatus → Act Answer
ignore_terminal event_id status = do insert_webhook event_id; pure (already_terminal status)

-- What follows the test of the state.
unfoldable pub settle_payment : Env → ℕ → PaymentCallback → Text → Payment → Act Answer
settle_payment env now cb event_id payment = do
  check_amount (to_cents env.scale cb.amount) payment.amount_cents
  modify (λ db. record db {
    payments = update_status cb.payment_request_id (new_status now cb payment) db.payments;
  })
  insert_event cb.payment_request_id (new_status now cb payment) webhook_processed
  insert_webhook event_id
  pure accepted

-- `if payment["status"] != "PENDING"`, and what follows.
unfoldable pub callback_by_status :
    Env → ℕ → PaymentCallback → Text → Payment → PaymentStatus → Act Answer
callback_by_status env now cb event_id payment pending = settle_payment env now cb event_id payment
callback_by_status env now cb event_id payment success = ignore_terminal event_id success
callback_by_status env now cb event_id payment failed = ignore_terminal event_id failed
callback_by_status env now cb event_id payment expired = ignore_terminal event_id expired

unfoldable pub callback_found : Env → ℕ → PaymentCallback → Text → Option Payment → Act Answer
callback_found env now cb event_id none = throw (http 404 payment_not_found)
callback_found env now cb event_id (some payment) =
    callback_by_status env now cb event_id payment payment.status

-- The body of the `try`.
unfoldable pub callback_steps : Env → ℕ → PaymentCallback → Text → Act Answer
callback_steps env now cb event_id db = elim (find_webhook event_id db.processed_webhooks) [
  | some _ ↦ pure already_processed db
  | none ↦
      callback_found env now cb event_id
        (find_payment cb.payment_request_id env.merchant_id db.payments) db
]

-- `except HTTPException` raises the exception again, and `except Exception` hides it.
unfoldable pub hide_error : Failure → Failure
hide_error (http code r) = http code r
hide_error (value_error r) = http 500 internal_error
hide_error Error.integrity_error = http 500 internal_error
hide_error Error.runtime_error = http 500 internal_error
hide_error Error.type_error = http 500 internal_error

-- `payment_callback`
unfoldable pub payment_callback : Env → ℕ → PaymentCallback → Text → Act Answer
payment_callback env now cb event_id = transaction hide_error (callback_steps env now cb event_id)

-- The check by `uuid.UUID` of the identifier in the path.
unfoldable pub check_id : Bool → Act Unit
check_id true = pure tt
check_id false = throw (http 400 invalid_request_id)

-- `get_payment_status`; the response shows the row, with the cents as a decimal.
unfoldable pub get_payment_status : Env → ℕ → Text → Act Payment
get_payment_status env count request_id = do
  enforce_rate_limit count
  check_id (env.is_uuid request_id)
  payment ← gets (λ db. find_payment request_id env.merchant_id db.payments)
  or_throw payment (http 404 payment_not_found)
