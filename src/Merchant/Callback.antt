-- ===== src/Merchant/Callback.antt =====
-- What callbacks do to payments.
use project_hamilton.Base.{
  ℕ, ◌≡◌, ◌≢◌, List, [], ◌∷◌, none, some, Option, Option-cases, Text, arith, inl, inr,
}
use project_hamilton.Base.Action.{Result, ok, raise, settle}
use project_hamilton.Base.Action.Atomic.{transaction-IsAtomic}
use project_hamilton.Merchant.State.{
  Db, Env, Payment, PaymentStatus, pending, success, failed, expired, find_payment, PaymentCallback,
  find_webhook, Failure,
}
use project_hamilton.Merchant.Payments.{
  check_amount, insert_event, insert_webhook, ignore_terminal, settle_payment, callback_by_status,
  callback_found, callback_steps, hide_error, payment_callback, Answer, already_processed,
}

-- A transaction that returned: its body returned.
settled_ok :
    (db : Db) (r : Result Failure Answer × Db) {a : Answer} {db' : Db}
    → settle hide_error db r ≡ (ok a, db')
    → r ≡ (ok a, db')
settled_ok db (ok x, db₁) h = h
settled_ok db (raise e, db₁) h = ground arith

module _ (event_id : Text) (db : Db) where
  -- A webhook that was inserted is found.
  inserted :
      (db' : Db) (u : Unit)
      → insert_webhook event_id db ≡ (ok u, db')
      → find_webhook event_id db'.processed_webhooks ≢ none
  unfolding insert_webhook find_webhook
  inserted db' u h = ground arith

module _ (env : Env) (now : ℕ) (cb : PaymentCallback) (event_id : Text) (db db' : Db)
    (a : Answer) where
  ignore-kept :
      (s : PaymentStatus)
      → ignore_terminal event_id s db ≡ (ok a, db')
      → find_webhook event_id db'.processed_webhooks ≢ none
  unfolding ignore_terminal insert_webhook find_webhook
  ignore-kept s h = ground arith

  settle-kept :
      (p : Payment)
      → settle_payment env now cb event_id p db ≡ (ok a, db')
      → find_webhook event_id db'.processed_webhooks ≢ none
  unfolding settle_payment insert_event insert_webhook find_webhook
  settle-kept p h = ground arith

  status-kept :
      (p : Payment) (s : PaymentStatus)
      → callback_by_status env now cb event_id p s db ≡ (ok a, db')
      → find_webhook event_id db'.processed_webhooks ≢ none
  unfolding callback_by_status
  status-kept p pending h = settle-kept p h
  status-kept p success h = ignore-kept success h
  status-kept p failed h = ignore-kept failed h
  status-kept p expired h = ignore-kept expired h

  found-kept :
      (o : Option Payment)
      → callback_found env now cb event_id o db ≡ (ok a, db')
      → find_webhook event_id db'.processed_webhooks ≢ none
  unfolding callback_found
  found-kept none h = ground arith
  found-kept (some p) h = status-kept p p.status h

  steps-kept :
      callback_steps env now cb event_id db ≡ (ok a, db')
      → find_webhook event_id db'.processed_webhooks ≢ none
  unfolding callback_steps
  steps-kept h = elim (Option-cases (find_webhook event_id db.processed_webhooks)) [
    | inl new ↦
        found-kept (find_payment cb.payment_request_id env.merchant_id db.payments) (ground arith)
    | inr (e, seen) ↦ ground arith
  ]

module _ (env : Env) (event_id : Text) (db : Db) where
  seen_ignored :
      (now : ℕ) (cb : PaymentCallback)
      → find_webhook event_id db.processed_webhooks ≢ none
      → payment_callback env now cb event_id db ≡ (ok already_processed, db)
  unfolding payment_callback callback_steps
  seen_ignored now cb h = elim (Option-cases (find_webhook event_id db.processed_webhooks)) [
    | inl new ↦ elim (h new) [ ]
    | inr (e, seen) ↦ ground arith
  ]

-- A callback that a provider sends: its time, its content and its event.
abbrev pub Sent : Type 0
Sent = ℕ × PaymentCallback × Text

-- What a sequence of callbacks leaves of the database, each of them answered or refused.
abbrev pub run_callbacks : Env → List Sent → Db → Db
run_callbacks env [] db = db
run_callbacks env ((now, cb, event_id) ∷ cs) db =
    run_callbacks env cs (payment_callback env now cb event_id db).1

module _ (env : Env) (seen : Text) where
  abbrev Remembers : Db → Type 0
  Remembers db = find_webhook seen db.processed_webhooks ≢ none

  module _ (db : Db) (kept : Remembers db) where
    webhook-remembered : (event_id : Text) → Remembers (insert_webhook event_id db).1
    unfolding insert_webhook find_webhook
    webhook-remembered event_id h = ground arith

    terminal-remembered :
        (event_id : Text) (s : PaymentStatus) → Remembers (ignore_terminal event_id s db).1
    unfolding ignore_terminal insert_webhook find_webhook
    terminal-remembered event_id s h = ground arith

    module _ (now : ℕ) (cb : PaymentCallback) (event_id : Text) where
      settled-remembered : (p : Payment) → Remembers (settle_payment env now cb event_id p db).1
      unfolding settle_payment check_amount insert_event insert_webhook find_webhook
      settled-remembered p h = ground arith

      status-remembered :
          (p : Payment) (s : PaymentStatus)
          → Remembers (callback_by_status env now cb event_id p s db).1
      unfolding callback_by_status
      status-remembered p pending = settled-remembered p
      status-remembered p success = terminal-remembered event_id success
      status-remembered p failed = terminal-remembered event_id failed
      status-remembered p expired = terminal-remembered event_id expired

      found-remembered :
          (o : Option Payment) → Remembers (callback_found env now cb event_id o db).1
      unfolding callback_found
      found-remembered none = kept
      found-remembered (some p) = status-remembered p p.status

      settle-remembered :
          (r : Result Failure Answer × Db) → Remembers r.1 → Remembers (settle hide_error db r).1
      settle-remembered (ok a, db') there = there
      settle-remembered (raise e, db') there = kept

    callback-remembered :
        (now : ℕ) (cb : PaymentCallback) (event_id : Text)
        → Remembers (payment_callback env now cb event_id db).1
    unfolding payment_callback callback_steps
    callback-remembered now cb event_id =
        settle-remembered now cb event_id (callback_steps env now cb event_id db)
          (elim (Option-cases (find_webhook event_id db.processed_webhooks)) [
            | inr (e, seen) ↦ (λ h. kept (ground arith))
            | inl new ↦
                let found =
                  found-remembered now cb event_id
                    (find_payment cb.payment_request_id env.merchant_id db.payments) in
                (λ h. found (ground arith))
          ])

  callbacks-remembered :
      (cs : List Sent) (db : Db) → Remembers db → Remembers (run_callbacks env cs db)
  callbacks-remembered [] db kept = kept
  callbacks-remembered ((now, cb, event_id) ∷ cs) db kept =
      callbacks-remembered cs (payment_callback env now cb event_id db).1
        (callback-remembered db kept now cb event_id)

module _ (env : Env) (event_id : Text) (db : Db) where
  -- After a callback that returned, and after any further callbacks of any events, each answered or
  -- refused, every callback of the same event, at any time and with any content, is answered as
  -- processed already and changes nothing.
  pub callback_once :
      (now later : ℕ) (cb other : PaymentCallback) (a : Answer) (db' : Db) (cs : List Sent)
      → payment_callback env now cb event_id db ≡ (ok a, db')
      → payment_callback env later other event_id (run_callbacks env cs db')
        ≡ (ok already_processed, run_callbacks env cs db')
  unfolding payment_callback
  callback_once now later cb other a db' cs h =
      let first =
        steps-kept env now cb event_id db db' a
          (settled_ok db (callback_steps env now cb event_id db) h) in
      seen_ignored env event_id (run_callbacks env cs db') later other
        (callbacks-remembered env event_id cs db' first)

  -- A callback that raises changes nothing.
  pub callback_atomic :
      (now : ℕ) (cb : PaymentCallback) (e : Failure) (db' : Db)
      → payment_callback env now cb event_id db ≡ (raise e, db')
      → db' ≡ db
  unfolding payment_callback
  callback_atomic now cb e db' h =
      (transaction-IsAtomic hide_error (callback_steps env now cb event_id)).at db db' e h
