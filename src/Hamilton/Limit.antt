-- ===== src/Hamilton/Limit.antt =====
-- The rate limit over a sequence of requests.
use project_hamilton.Base.{
  ◌⊎◌, ℕ, ◌+◌, ◌/◌, ◌≤◌, ◌++◌, ◌≡◌, ◌∙◌, ap, refl, Bool, Option, List, [], ◌∷◌, Text, text,
  text_dec, ℕ_discrete, arith, inl, inr, ite,
}
use project_hamilton.Base.Int.{ℤ}
use project_hamilton.Base.Json.{decimal}
use project_hamilton.Base.Action.{Result, ok, raise}
use project_hamilton.Base.Action.Atomic.{Follows, >>=-Follows}
use project_hamilton.Hamilton.State.{Failure, Reply}
use project_hamilton.Hamilton.Request.{Env}
use project_hamilton.Hamilton.Access.{
  Service, Incoming, incr, counter, bucket, Endpoint, transfer_endpoint, mint_endpoint,
  burn_endpoint, endpoint_key, limit_of, handle, admit, respond, on_db,
}
use project_hamilton.Hamilton.Admitted.{Grown, Grown-trans, admit-Grown, counter-incr}
use project_hamilton.Hamilton.Served.{respond_guarded}

-- A request that arrives, and whether Redis answers moment.
pub record Arrival : Type 0 where
  pub online : Bool
  pub now : ℕ
  pub req : Incoming
  pub call : Endpoint

-- The request is one to the endpoint of `call` by the client `cid`, in the minute of the time `moment`.
pub record IsCounted (call : Endpoint) (cid : Text) (moment : ℕ) (a : Arrival) : Type 0 where
  pub endpoint : endpoint_key a.call ≡ endpoint_key call
  pub client : a.req.client_id ≡ cid
  pub time : a.now / 60 ≡ moment / 60

unfoldable pub is_counted_dec :
    (call : Endpoint) (cid : Text) (moment : ℕ) (a : Arrival) → Dec (IsCounted call cid moment a)
is_counted_dec call cid moment a = elim (text_dec (endpoint_key a.call) (endpoint_key call)) [
  | no n ↦ no (λ h. n h.endpoint)
  | yes e ↦ elim (text_dec a.req.client_id cid) [
    | no n ↦ no (λ h. n h.client)
    | yes c ↦ elim (ℕ_discrete (a.now / 60) (moment / 60)) [
      | no n ↦ no (λ h. n h.time)
      | yes t ↦ yes record { endpoint = e; client = c; time = t }
    ]
  ]
]

abbrev pub got : Result Failure Reply → ℕ
got (ok reply) = 1
got (raise e) = 0

same_limit : (c d : Endpoint) → endpoint_key c ≡ endpoint_key d → limit_of c ≡ limit_of d
same_limit (transfer_endpoint tx) (transfer_endpoint tx') e = refl
same_limit (transfer_endpoint tx) (mint_endpoint body' tid') e = absurd cc
same_limit (transfer_endpoint tx) (burn_endpoint body' audit_id') e = absurd cc
same_limit (mint_endpoint body tid) (transfer_endpoint tx') e = absurd cc
same_limit (mint_endpoint body tid) (mint_endpoint body' tid') e = refl
same_limit (mint_endpoint body tid) (burn_endpoint body' audit_id') e = absurd cc
same_limit (burn_endpoint body audit_id) (transfer_endpoint tx') e = absurd cc
same_limit (burn_endpoint body audit_id) (mint_endpoint body' tid') e = absurd cc
same_limit (burn_endpoint body audit_id) (burn_endpoint body' audit_id') e = refl

same_bucket :
    (key cid : Text) (now moment : ℕ)
    → now / 60 ≡ moment / 60
    → bucket key cid now ≡ bucket key cid moment
unfolding bucket
same_bucket key cid now moment e =
    ap (λ n. text "rl:" ++ (key ++ (b':' ∷ (cid ++ (b':' ∷ decimal n))))) e

-- `n` responses that a counter of `before` allows.
abbrev Bounded : ℕ → ℕ → ℕ → Type 0
Bounded n before limit = (n ≡ 0) ⊎ (n + before ≤ limit)

add-Bounded :
    (n m : ℕ) {before after limit : ℕ}
    → before ≤ after
    → (n ≡ 0) ⊎ ((n ≡ 1) × (after ≡ before + 1) × (after ≤ limit))
    → Bounded m after limit
    → Bounded (n + m) before limit
add-Bounded n m grown (inl a) (inl b) = inl (omega arith)
add-Bounded n m grown (inl a) (inr b) = inr (omega arith)
add-Bounded n m grown (inr (a, b, c)) (inl d) = inr (omega arith)
add-Bounded n m grown (inr (a, b, c)) (inr d) = inr (omega arith)

module _ (env : Env) (parse_int : Text → Option ℤ) where
  abbrev pub arrive : Arrival → Service → Result Failure Reply × Service
  arrive a = respond env parse_int a.online a.now a.req a.call

  -- How many of the requests of an endpoint, a client and a minute get a response.
  unfoldable pub served_count : Endpoint → Text → ℕ → List Arrival → Service → ℕ
  served_count call cid moment [] s = 0
  served_count call cid moment (a ∷ rest) s =
      ite (is_counted_dec call cid moment a) (got (arrive a s).0) 0
      + served_count call cid moment rest (arrive a s).1

  respond-Grown : (a : Arrival) → Follows Grown (arrive a)
  unfolding respond
  respond-Grown a =
      >>=-Follows Grown Grown-trans (admit env parse_int a.online a.now a.req a.call)
        (λ _. on_db (handle env parse_int a.now a.req a.call))
        (admit-Grown env parse_int a.online a.now a.req a.call)
        (λ _. record { at = λ s name. omega arith })

  -- One request: what it adds to the number of responses.
  got_within :
      (call : Endpoint) (cid : Text) (moment : ℕ) (a : Arrival) (s : Service)
      → IsCounted call cid moment a
      → let name = bucket (endpoint_key call) cid moment in
        let p = arrive a s in
        (got p.0 ≡ 0)
        ⊎ ((got p.0 ≡ 1)
            × (counter name p.1.counters ≡ counter name s.counters + 1)
            × (counter name p.1.counters ≤ limit_of call))
  got_within call cid moment a s c =
      let name = bucket (endpoint_key call) cid moment in
      elim (respond_guarded env parse_int a.online a.now a.req a.call s) [
        | inr (e, s', refused, _) ↦ inl (ap (λ p. got p.0) refused)
        | inl (reply, s', ran, served) ↦
            let state : (arrive a s).1 ≡ s' = ap (λ p. p.1) ran in
            let key : bucket (endpoint_key a.call) a.req.client_id a.now ≡ name =
              ap (λ k. bucket k a.req.client_id a.now) c.endpoint
              ∙ ap (λ i. bucket (endpoint_key call) i a.now) c.client
              ∙ same_bucket (endpoint_key call) cid a.now moment c.time in
            let limit = same_limit a.call call c.endpoint in
            let grown = (counter-incr name name s.counters).0 in
            let counted = served.counted in
            let within = served.within in
            let keyed = ap (λ k. counter k s'.counters) key in
            let counters = ap (λ k. counter name (incr k s.counters)) key in
            let here = ap (λ t. counter name t.counters) state in
            let there = ap (λ l. counter name l) counted in
            inr (ap (λ p. got p.0) ran, here ∙ there ∙ counters ∙ grown, omega arith)
      ]

  served_small :
      (call : Endpoint) (cid : Text) (moment : ℕ) (arrivals : List Arrival) (s : Service)
      → Bounded
          (served_count call cid moment arrivals s)
          (counter (bucket (endpoint_key call) cid moment) s.counters)
          (limit_of call)
  unfolding served_count
  served_small call cid moment [] s = inl refl
  served_small call cid moment (a ∷ rest) s =
      let ih = served_small call cid moment rest (arrive a s).1 in
      let name = bucket (endpoint_key call) cid moment in
      let grown = (respond-Grown a).at s name in
      elim (is_counted_dec call cid moment a)
        as (λ d.
          Bounded (ite d (got (arrive a s).0) 0 + served_count call cid moment rest (arrive a s).1)
            (counter name s.counters) (limit_of call)) [
              | no n ↦
                  add-Bounded 0 (served_count call cid moment rest (arrive a s).1) grown (inl refl)
                    ih
              | yes c ↦
                  add-Bounded (got (arrive a s).0)
                    (served_count call cid moment rest (arrive a s).1) grown
                    (got_within call cid moment a s c) ih
            ]

  -- However requests arrive, one after another, an endpoint gives a client at most as many responses
  -- in a minute as its limit, refused requests not counted; a mint has the limit 20, a transfer 30
  -- and a burn 120.
  pub served_within :
      (call : Endpoint) (cid : Text) (moment : ℕ) (arrivals : List Arrival) (s : Service)
      → served_count call cid moment arrivals s ≤ limit_of call
  served_within call cid moment arrivals s = elim (served_small call cid moment arrivals s) [
    | inl none ↦ omega arith
    | inr some ↦ omega arith
  ]
