-- ===== src/Merchant/Settled.antt =====
-- What a callback does to the row of a payment.
use project_hamilton.Base.{
  ℕ, ◌≡◌, ◌≢◌, ◌⊎◌, refl, ap, none, some, Option, Option-cases, List, [], ◌∷◌, Text, text_dec,
  ℕ_discrete, arith, inl, inr,
}
use project_hamilton.Base.Int.{ℤ, pos, negsuc}
use project_hamilton.Base.Action.{Result, ok, raise, http, settle}
use project_hamilton.Merchant.State.{
  Db, Env, Payment, PaymentStatus, pending, success, failed, expired, PaymentCallback, find_payment,
  find_webhook, update_status, Failure, amount_mismatch, webhook_processed,
}
use project_hamilton.Merchant.Payments.{
  to_cents, new_status, insert_event, insert_webhook, check_amount, ignore_terminal, settle_payment,
  callback_by_status, callback_found, callback_steps, hide_error, payment_callback, Answer,
  accepted, already_processed,
}

module _ (pid merchant : Text) where
  update_other :
      (id : Text) (s : PaymentStatus) (ps : List Payment)
      → id ≢ pid
      → find_payment pid merchant (update_status id s ps) ≡ find_payment pid merchant ps
  unfolding find_payment update_status
  update_other id s [] ne = refl
  update_other id s (p ∷ ps) ne = let ih = update_other id s ps ne in ground arith

  update_same :
      (row : Payment) (s : PaymentStatus) (ps : List Payment)
      → find_payment pid merchant ps ≡ some row
      → find_payment pid merchant (update_status pid s ps) ≡ some (record row { status = s })
  unfolding find_payment update_status
  update_same row s [] h = ground arith
  update_same row s (p ∷ ps) h = let ih = update_same row s ps in ground arith

  -- The row is the one before, whether the transaction commits or rolls back.
  settle-row :
      (db : Db) (o : Option Payment) (r : Result Failure Answer × Db)
      → find_payment pid merchant db.payments ≡ o
      → find_payment pid merchant r.1.payments ≡ o
      → find_payment pid merchant (settle hide_error db r).1.payments ≡ o
  settle-row db o (ok a, db₁) h k = k
  settle-row db o (raise e, db₁) h k = h

ignore-payments :
    (event_id : Text) (s : PaymentStatus) (db : Db)
    → (ignore_terminal event_id s db).1.payments ≡ db.payments
unfolding ignore_terminal insert_webhook
ignore-payments event_id s db = ground arith

module _ (env : Env) (now : ℕ) (cb : PaymentCallback) (event_id : Text) (db : Db) where
  status-payments :
      (p : Payment) (s : PaymentStatus)
      → s ≢ pending
      → (callback_by_status env now cb event_id p s db).1.payments ≡ db.payments
  unfolding callback_by_status
  status-payments p pending ne = elim (ne refl) [ ]
  status-payments p success ne = ignore-payments event_id success db
  status-payments p failed ne = ignore-payments event_id failed db
  status-payments p expired ne = ignore-payments event_id expired db

  settle-other :
      (p : Payment) (pid : Text)
      → cb.payment_request_id ≢ pid
      → find_payment pid env.merchant_id (settle_payment env now cb event_id p db).1.payments
        ≡ find_payment pid env.merchant_id db.payments
  unfolding settle_payment insert_event insert_webhook check_amount
  settle-other p pid ne =
      let same =
        update_other pid env.merchant_id cb.payment_request_id (new_status now cb p) db.payments
          ne in
      ground arith

  status-other :
      (p : Payment) (s : PaymentStatus) (pid : Text)
      → cb.payment_request_id ≢ pid
      → find_payment pid env.merchant_id (callback_by_status env now cb event_id p s db).1.payments
        ≡ find_payment pid env.merchant_id db.payments
  unfolding callback_by_status
  status-other p pending pid ne = settle-other p pid ne
  status-other p success pid ne = rw (ignore-payments event_id success db) refl
  status-other p failed pid ne = rw (ignore-payments event_id failed db) refl
  status-other p expired pid ne = rw (ignore-payments event_id expired db) refl

  found-other :
      (o : Option Payment) (pid : Text)
      → cb.payment_request_id ≢ pid
      → find_payment pid env.merchant_id (callback_found env now cb event_id o db).1.payments
        ≡ find_payment pid env.merchant_id db.payments
  unfolding callback_found
  found-other none pid ne = refl
  found-other (some p) pid ne = status-other p p.status pid ne

  found-settled :
      (row : Payment)
      → row.status ≢ pending
      → (callback_found env now cb event_id (some row) db).1.payments ≡ db.payments
  unfolding callback_found
  found-settled row ne = status-payments row row.status ne

  steps-new :
      find_webhook event_id db.processed_webhooks ≡ none
      → callback_steps env now cb event_id db
        ≡ callback_found env now cb event_id
            (find_payment cb.payment_request_id env.merchant_id db.payments)
            db
  unfolding callback_steps
  steps-new new = ground arith

  steps-seen :
      (e : Text)
      → find_webhook event_id db.processed_webhooks ≡ some e
      → callback_steps env now cb event_id db ≡ (ok already_processed, db)
  unfolding callback_steps
  steps-seen e seen = ground arith

  steps-settled :
      (pid : Text) (row : Payment)
      → find_payment pid env.merchant_id db.payments ≡ some row
      → row.status ≢ pending
      → find_payment pid env.merchant_id (callback_steps env now cb event_id db).1.payments
        ≡ some row
  steps-settled pid row found ne =
      elim (Option-cases (find_webhook event_id db.processed_webhooks)) [
        | inr (e, seen) ↦ rw (steps-seen e seen) found
        | inl new ↦ elim (text_dec cb.payment_request_id pid) [
          | yes same ↦
              let found_cb : find_payment cb.payment_request_id env.merchant_id db.payments
                  ≡ some row =
                rw same found in
              rw (steps-new new, found_cb, found-settled row ne) found
          | no ne_pid ↦
              rw
                (
                  steps-new new,
                  found-other (find_payment cb.payment_request_id env.merchant_id db.payments) pid
                      ne_pid,
                )
                found
        ]
      ]

  -- A payment of the merchant that is not pending keeps its row, whatever callback comes for it or
  -- for another payment, and whatever its outcome.
  pub terminal_kept :
      (pid : Text) (row : Payment)
      → find_payment pid env.merchant_id db.payments ≡ some row
      → row.status ≢ pending
      → find_payment pid env.merchant_id (payment_callback env now cb event_id db).1.payments
        ≡ some row
  unfolding payment_callback
  terminal_kept pid row found ne =
      settle-row pid env.merchant_id db (some row) (callback_steps env now cb event_id db) found
        (steps-settled pid row found ne)

  -- The database after an accepted callback.
  abbrev paid : Payment → Db
  paid row = record {
    payments = update_status cb.payment_request_id (new_status now cb row) db.payments;
    payment_events =
        record {
          payment_id = cb.payment_request_id;
          status = new_status now cb row;
          event_type = webhook_processed;
        }
        ∷ db.payment_events;
    processed_webhooks = event_id ∷ db.processed_webhooks;
  }

  check_decided :
      (z : ℤ) (cents : ℕ)
      → ((z ≡ pos cents) × (check_amount z cents db ≡ (ok tt, db)))
        ⊎ ((z ≢ pos cents) × (check_amount z cents db ≡ (raise (http 400 amount_mismatch), db)))
  unfolding check_amount
  check_decided (negsuc n) cents = inr (λ e. cc, refl)
  check_decided (pos n) cents = elim (ℕ_discrete n cents) [
    | yes e ↦ inl (ap pos e, rw e (ground arith))
    | no ne ↦ inr (λ e. ne (cc), ground arith)
  ]

  settle_decided :
      (row : Payment)
      → find_webhook event_id db.processed_webhooks ≡ none
      → ((to_cents env.scale cb.amount ≡ pos row.amount_cents)
          × (settle_payment env now cb event_id row db ≡ (ok accepted, paid row)))
        ⊎ ((to_cents env.scale cb.amount ≢ pos row.amount_cents)
            × (settle_payment env now cb event_id row db ≡ (raise (http 400 amount_mismatch), db)))
  unfolding settle_payment insert_event insert_webhook
  settle_decided row new = elim (check_decided (to_cents env.scale cb.amount) row.amount_cents) [
    | inl (e, passed) ↦ inl (e, ground arith)
    | inr (ne, refused) ↦ inr (ne, ground arith)
  ]

  by_status :
      (row : Payment) (s : PaymentStatus)
      → s ≡ pending
      → callback_by_status env now cb event_id row s db ≡ settle_payment env now cb event_id row db
  unfolding callback_by_status
  by_status row pending e = refl
  by_status row success e = cc
  by_status row failed e = cc
  by_status row expired e = cc

  steps_pending :
      (row : Payment)
      → find_webhook event_id db.processed_webhooks ≡ none
      → find_payment cb.payment_request_id env.merchant_id db.payments ≡ some row
      → row.status ≡ pending
      → payment_callback env now cb event_id db
        ≡ settle hide_error db (settle_payment env now cb event_id row db)
  unfolding payment_callback callback_found
  steps_pending row new found is_pending =
      rw (steps-new new, found, by_status row row.status is_pending) refl

  -- A callback with a new event for a pending payment is accepted exactly if its amount in cents is
  -- the one of the payment, and then the payment has the status that the time and the callback
  -- give; otherwise it raises a 400 and changes nothing.
  pub callback_decided :
      (row : Payment)
      → find_webhook event_id db.processed_webhooks ≡ none
      → find_payment cb.payment_request_id env.merchant_id db.payments ≡ some row
      → row.status ≡ pending
      → ((to_cents env.scale cb.amount ≡ pos row.amount_cents)
          × ((payment_callback env now cb event_id db).0 ≡ ok accepted)
          × (find_payment cb.payment_request_id env.merchant_id
                (payment_callback env now cb event_id db).1.payments
              ≡ some (record row { status = new_status now cb row })))
        ⊎ ((to_cents env.scale cb.amount ≢ pos row.amount_cents)
            × (payment_callback env now cb event_id db ≡ (raise (http 400 amount_mismatch), db)))
  unfolding hide_error
  callback_decided row new found is_pending =
      let run = steps_pending row new found is_pending in
      let same =
        update_same cb.payment_request_id env.merchant_id row (new_status now cb row) db.payments
          found in
      elim (settle_decided row new) [
        | inl (e, done) ↦ inl (e, rw (run, done) refl, rw (run, done) same)
        | inr (ne, refused) ↦ inr (ne, rw (run, refused) refl)
      ]
