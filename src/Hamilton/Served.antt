-- ===== src/Hamilton/Served.antt =====
-- What a request did, from its arrival to its response.
use project_hamilton.Base.{
  ◌⊎◌, ℕ, ◌≤◌, ◌≡◌, ◌∙◌, ap, sym, Bool, Option, Text, arith, inl, inr, subst,
}
use project_hamilton.Base.Int.{ℤ}
use project_hamilton.Base.Action.{ok, raise, outcome, >>=-run, >>=-raise}
use project_hamilton.Base.Action.Atomic.{IsAtomic}
use project_hamilton.Hamilton.State.{Failure, Reply}
use project_hamilton.Hamilton.Request.{Env}
use project_hamilton.Hamilton.Atomic.{process_tx-IsAtomic, mint-IsAtomic, burn-IsAtomic}
use project_hamilton.Hamilton.Access.{
  Service, Incoming, incr, counter, bucket, Endpoint, transfer_endpoint, mint_endpoint,
  burn_endpoint, endpoint_key, limit_of, handle, admit, respond, on_db,
}
use project_hamilton.Hamilton.Admitted.{IsAuthorized, admit-SameDb, admit-ok}

-- The response of a request whose client may make it: its counter, which has grown by one, is within
-- the limit, and the handler has returned the response and written the database.
pub record IsServed (env : Env) (parse_int : Text → Option ℤ) (now : ℕ) (req : Incoming)
    (call : Endpoint) (s : Service) (reply : Reply) (s' : Service) : Type 0 where
  pub authorized : IsAuthorized env parse_int now req call s
  pub counted : s'.counters ≡ incr (bucket (endpoint_key call) req.client_id now) s.counters
  pub within : counter (bucket (endpoint_key call) req.client_id now) s'.counters ≤ limit_of call
  pub handled : handle env parse_int now req call s.db ≡ (ok reply, s'.db)

module _ (env : Env) (parse_int : Text → Option ℤ) (online : Bool) (now : ℕ) (req : Incoming) where
  handle-IsAtomic : (call : Endpoint) → IsAtomic (handle env parse_int now req call)
  handle-IsAtomic (transfer_endpoint tx) = process_tx-IsAtomic env now req.client_id tx req.idem_key
  handle-IsAtomic (mint_endpoint body tid) =
      mint-IsAtomic env now req.client_id body req.idem_key tid
  handle-IsAtomic (burn_endpoint body audit_id) =
      burn-IsAtomic env now req.client_id body req.idem_key audit_id

  -- A request either gets a response, and then its client is known, its time is at most 30 seconds
  -- away, its signature is the HMAC of the route, the body and the time, the client has the role of
  -- the endpoint, the counter of the client is within the limit of the endpoint, and the response
  -- and the database are those of the handler; or it is refused, and the database is as it was.
  pub respond_guarded :
      (call : Endpoint) (s : Service)
      → ((reply : Reply) × (s' : Service) × (respond env parse_int online now req call s
            ≡ (ok reply, s'))
          × IsServed env parse_int now req call s reply s')
        ⊎ ((e : Failure) × (s' : Service) × (respond env parse_int online now req call s
              ≡ (raise e, s'))
            × (s'.db ≡ s.db))
  unfolding respond
  respond_guarded call s =
      let run = on_db (handle env parse_int now req call) in
      elim (outcome (admit env parse_int online now req call s)) [
        | inr (e, s₁, refused) ↦
            let kept = (admit-SameDb env parse_int online now req call).at s in
            inr (
              e,
              s₁,
              >>=-raise (admit env parse_int online now req call) (λ _. run) refused,
              sym (ap (λ p. p.1.db) refused) ∙ kept,
            )
        | inl (u, s₁, passed) ↦
            let (may, grown, small) = admit-ok env parse_int online now req call s s₁ u passed in
            let same = ap (λ t. t.db) grown in
            elim (outcome (handle env parse_int now req call s₁.db)) [
              | inl (reply, db, ran) ↦ inl (
                reply,
                record s₁ { db = db },
                >>=-run (admit env parse_int online now req call) (λ _. run) passed
                    (ap (λ p. (p.0, record s₁ { db = p.1 })) ran),
                record {
                  authorized = may;
                  counted = ap (λ t. t.counters) grown;
                  within = ground (arith, small, grown);
                  handled =
                      subst (λ d. handle env parse_int now req call d ≡ (ok reply, db)) same ran;
                },
              )
              | inr (e, db, failed) ↦ inr (
                e,
                record s₁ { db = db },
                >>=-run (admit env parse_int online now req call) (λ _. run) passed
                    (ap (λ p. (p.0, record s₁ { db = p.1 })) failed),
                (handle-IsAtomic call).at s₁.db db e failed ∙ same,
              )
            ]
      ]
