-- ===== src/Merchant/Tests.antt =====
-- Callbacks for one payment, and each theorem at such a callback.
use project_hamilton.Base.{
  ◌≡◌, ◌≢◌, ◌⊎◌, refl, none, some, [], ◌∷◌, text, text_dec, dec_lt, dec_le, ℕ_discrete, true,
}
use project_hamilton.Base.Money.{round}
use project_hamilton.Base.Int.{pos}
use project_hamilton.Base.Action.{ok, raise, http}
use project_hamilton.Merchant.State.{
  Db, Env, Payment, PaymentCallback, pending, success, amount_mismatch, find_payment, find_webhook,
  find_id, update_status,
}
use project_hamilton.Merchant.Payments.{
  to_cents, reported_status, new_status, insert_event, insert_webhook, check_amount,
  ignore_terminal, settle_payment, callback_by_status, callback_found, callback_steps, hide_error,
  payment_callback, accepted, already_processed,
}
use project_hamilton.Merchant.Callback.{callback_once, run_callbacks}
use project_hamilton.Merchant.Settled.{terminal_kept, callback_decided}

program : Unit {0}
unfolding round to_cents reported_status new_status insert_event insert_webhook check_amount
    ignore_terminal settle_payment callback_by_status callback_found callback_steps hide_error
    payment_callback find_payment find_webhook find_id update_status text_dec dec_lt dec_le
    ℕ_discrete
program = tt

-- Amounts are counted in cents.
abbrev env : Env
env = record { merchant_id = text "m"; scale = 100; is_uuid = λ id. true }

abbrev waiting : Payment
waiting = record {
  id = text "p";
  merchant_id = text "m";
  amount_cents = 7;
  status = pending;
  expires_at = 10;
}

abbrev asked : Db
asked = record { payments = waiting ∷ []; payment_events = []; processed_webhooks = [] }

abbrev cb : PaymentCallback
cb = record {
  payment_request_id = text "p";
  transaction_id = text "t";
  status = text "SUCCESS";
  amount = pos 7;
}

abbrev unknown : PaymentCallback
unknown = record cb { payment_request_id = text "q" }

abbrev answered : Db
answered = (payment_callback env 3 cb (text "e") asked).1

was_accepted : payment_callback env 3 cb (text "e") asked ≡ (ok accepted, answered)
unfolding program
was_accepted = refl

is_new : find_webhook (text "e") asked.processed_webhooks ≡ none
unfolding program
is_new = refl

is_found : find_payment cb.payment_request_id env.merchant_id asked.payments ≡ some waiting
unfolding program
is_found = refl

abbrev paid_row : Payment
paid_row = record waiting { status = success }

is_paid : find_payment (text "p") env.merchant_id answered.payments ≡ some paid_row
unfolding program
is_paid = refl

paid_ne_pending : paid_row.status ≢ pending
paid_ne_pending = λ e. cc

callback_once_example :
    payment_callback env 99 unknown
      (text "e")
      (run_callbacks env ((5, cb, text "f") ∷ (6, unknown, text "g") ∷ []) answered)
    ≡ (
      ok already_processed,
      run_callbacks env ((5, cb, text "f") ∷ (6, unknown, text "g") ∷ []) answered,
    )
callback_once_example =
    callback_once env (text "e") asked 3 99 cb unknown accepted answered
      ((5, cb, text "f") ∷ (6, unknown, text "g") ∷ []) was_accepted

terminal_kept_example :
    find_payment
      (text "p")
      env.merchant_id
      (payment_callback env 99 cb (text "f") answered).1.payments
    ≡ some paid_row
terminal_kept_example =
    terminal_kept env 99 cb (text "f") answered (text "p") paid_row is_paid paid_ne_pending

callback_decided_example :
    ((to_cents 100 (pos 7) ≡ pos 7)
      × ((payment_callback env 3 cb (text "e") asked).0 ≡ ok accepted)
      × (find_payment
            (text "p")
            env.merchant_id
            (payment_callback env 3 cb (text "e") asked).1.payments
          ≡ some (record waiting { status = new_status 3 cb waiting })))
    ⊎ ((to_cents 100 (pos 7) ≢ pos 7)
        × (payment_callback env 3 cb (text "e") asked ≡ (raise (http 400 amount_mismatch), asked)))
callback_decided_example = callback_decided env 3 cb (text "e") asked waiting is_new is_found refl
