-- ===== src/Merchant/State.antt =====
-- The tables of payments.db (`init_db`). Times are counted in microseconds; the columns
-- `created_at` and `processed_at`, which no code reads, and the numbers of the events are left out.
use project_hamilton.Base.{ℕ, Bool, Option, none, some, List, [], ◌∷◌, Text, text_dec, ite}
use project_hamilton.Base.Int.{ℤ}
use project_hamilton.Base.Action.{Action, Error}

pub data PaymentStatus : Type 0 where
  pending success failed expired : PaymentStatus

pub data EventType : Type 0 where
  payment_created webhook_processed : EventType

pub record Payment : Type 0 where
  pub id : Text
  pub merchant_id : Text
  pub amount_cents : ℕ
  pub status : PaymentStatus
  pub expires_at : ℕ

pub record PaymentEvent : Type 0 where
  pub payment_id : Text
  pub status : PaymentStatus
  pub event_type : EventType

pub record Db : Type 0 where
  pub payments : List Payment
  pub payment_events : List PaymentEvent
  pub processed_webhooks : List Text

pub data Reason : Type 0 where
  rate_limit_exceeded invalid_amount invalid_request_id payment_not_found : Reason
  missing_key unauthorized invalid_timestamp request_expired invalid_signature : Reason
  amount_mismatch internal_error : Reason

abbrev pub Failure : Type 0
Failure = Error Reason

abbrev pub Act : Type 0 → Type 0
Act = Action Db Failure

-- `PaymentCallback`; the amount is counted in a unit of a fixed scale.
pub record PaymentCallback : Type 0 where
  pub payment_request_id : Text
  pub transaction_id : Text
  pub status : Text
  pub amount : ℤ

-- `settings.merchant_id`, the number of units of a scale in one unit of a currency, and
-- `uuid.UUID`.
pub record Env : Type 0 where
  pub merchant_id : Text
  pub scale : ℕ
  pub is_uuid : Text → Bool

-- `SELECT 1 FROM processed_webhooks WHERE event_id = ?`
unfoldable pub find_webhook : Text → List Text → Option Text
find_webhook event_id [] = none
find_webhook event_id (e ∷ es) = ite (text_dec e event_id) (some e) (find_webhook event_id es)

-- The row with the primary key `id`.
unfoldable pub find_id : Text → List Payment → Option Payment
find_id id [] = none
find_id id (p ∷ ps) = ite (text_dec p.id id) (some p) (find_id id ps)

-- `WHERE id = ? AND merchant_id = ?`
unfoldable pub find_payment : Text → Text → List Payment → Option Payment
find_payment id merchant_id [] = none
find_payment id merchant_id (p ∷ ps) =
    let rest = find_payment id merchant_id ps in
    ite (text_dec p.id id) (ite (text_dec p.merchant_id merchant_id) (some p) rest) rest

-- `UPDATE payments SET status = ? WHERE id = ?`
unfoldable pub update_status : Text → PaymentStatus → List Payment → List Payment
update_status id status [] = []
update_status id status (p ∷ ps) =
    ite (text_dec p.id id) (record p { status = status }) p ∷ update_status id status ps
