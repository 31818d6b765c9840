-- ===== src/Bridge/Replay.antt =====
-- A signature is accepted once.
use project_hamilton.Base.{
  ◌⊎◌, inl, inr, ℕ, ◌/◌, ◌++◌, ◌≡◌, ◌∙◌, refl, sym, ap, subst, Bool, Option, none, some, List, [],
  ◌∷◌, Text, text_dec, arith, Option-cases, ⊤,
}
use project_hamilton.Base.Int.{ℤ}
use project_hamilton.Base.Action.{Result, ok, raise, outcome, >>=-ok, >>=-run, >>=-raise, ◌>>◌}
use project_hamilton.Base.Action.Atomic.{
  IsAtomic, readonly_rules, transaction-IsAtomic, Follows, >>=-Follows, IsReadonly-Follows, >>-ok,
}
use project_hamilton.Bridge.State.{Db, Failure}
use project_hamilton.Bridge.Liquidity.{process_liquidity_transaction}
use project_hamilton.Bridge.Access.{
  Env, verify_api_key, check_rate_limit, find_signature, protect, verify_parsed, verify_signature,
  InDrift, in_drift_dec,
}
use project_hamilton.Bridge.Endpoints.{Arrival, route, body_guard, validate_body, admit, respond}
use project_hamilton.Bridge.Keeps.{
  Kept, Kept-same, Kept-trans, SameBooks, Both, Both-same, Both-trans, check_rate_limit-Both,
  protect-Both, body_guard-IsReadonly, verify_api_key-IsReadonly, validate_body-IsReadonly,
  process-SameReplay, process-Kept,
}

-- The request has the key and a time near the current one, its signature is the HMAC of the route,
-- the body and the time, and the signature was not used before.
pub record IsAccepted (env : Env) (a : Arrival) (db : Db) : Type 0 where
  pub ts : ℤ
  pub keyed : env.sha256_hex a.api_key ≡ env.api_key_hash
  pub parsed : env.parse_int a.x_timestamp ≡ some ts
  pub recent : InDrift a.now ts
  pub signed :
      env.hmac_sha256_hex env.signing_secret (route a.tx_type ++ a.raw_body ++ a.x_timestamp)
      ≡ a.x_signature
  pub unused : find_signature a.x_signature db.replay_protection ≡ none

protect-ok :
    (signature : Text) (ts : ℤ) (db db' : Db) (u : ⊤)
    → protect signature ts db ≡ (ok u, db')
    → (find_signature signature db.replay_protection ≡ none)
      × (find_signature signature db'.replay_protection ≡ some ts)
unfolding protect find_signature
protect-ok signature ts db db' u h =
    elim (Option-cases (find_signature signature db.replay_protection)) [
      | inl e ↦ (e, ground arith)
      | inr (t, e) ↦ absurd (ground arith)
    ]

verify_api_key-ok :
    (env : Env) (key : Text) (db db' : Db) (u : ⊤)
    → verify_api_key env key db ≡ (ok u, db')
    → env.sha256_hex key ≡ env.api_key_hash
unfolding verify_api_key
verify_api_key-ok env key db db' u h = elim (text_dec (env.sha256_hex key) env.api_key_hash) [
  | yes e ↦ e
  | no n ↦ absurd (ground arith)
]

check_rate_limit_replay :
    (ip : Text) (now : ℕ) (db db' : Db) (u : ⊤)
    → check_rate_limit ip now db ≡ (ok u, db')
    → db'.replay_protection ≡ db.replay_protection
unfolding check_rate_limit
check_rate_limit_replay ip now db db' u h = ground arith

module _ (env : Env) where
  verify_parsed-Both :
      (now : ℕ) (request : List ℕ) (signature timestamp : Text) (ts : Option ℤ)
      → Follows Both (verify_parsed env now request signature timestamp ts)
  unfolding verify_parsed
  verify_parsed-Both now request signature timestamp none = record { at = λ db. Both-same db }
  verify_parsed-Both now request signature timestamp (some ts) =
      search (readonly_rules, >>=-Follows, IsReadonly-Follows, Both-same, Both-trans, protect-Both)

  verify_parsed-ok :
      (now : ℕ) (request : List ℕ) (signature timestamp : Text) (o : Option ℤ) (db db' : Db) (u : ⊤)
      → verify_parsed env now request signature timestamp o db ≡ (ok u, db')
      → (ts : ℤ) × (o ≡ some ts)
        × InDrift now ts
        × (env.hmac_sha256_hex env.signing_secret (request ++ timestamp) ≡ signature)
        × (protect signature ts db ≡ (ok u, db'))
  unfolding verify_parsed
  verify_parsed-ok now request signature timestamp none db db' u h = absurd (ground arith)
  verify_parsed-ok now request signature timestamp (some ts) db db' u h =
      elim (in_drift_dec now ts) [
        | no n ↦ absurd (ground arith)
        | yes w ↦
            elim (text_dec (env.hmac_sha256_hex env.signing_secret (request ++ timestamp))
              signature) [ no n ↦ absurd (ground arith) | yes g ↦ (ts, refl, w, g, ground arith) ]
      ]

  admit-Both : (a : Arrival) → Follows Both (admit env a)
  unfolding admit verify_signature
  admit-Both a = search (
    >>=-Follows, IsReadonly-Follows, Both-same, Both-trans, check_rate_limit-Both,
    verify_parsed-Both, body_guard-IsReadonly, verify_api_key-IsReadonly,
  )

  admit-ok :
      (a : Arrival) (db db' : Db) (u : ⊤)
      → admit env a db ≡ (ok u, db')
      → IsAccepted env a db
        × ((ts : ℤ) × (find_signature a.x_signature db'.replay_protection ≡ some ts))
  unfolding admit verify_signature
  admit-ok a db db' u h =
      let seconds = a.now / 1000000 in
      let request = route a.tx_type ++ a.raw_body in
      let signed = verify_signature env a.now request a.x_signature a.x_timestamp in
      let limited = check_rate_limit a.ip seconds in
      let (g, _, h₁) =
        >>-ok (body_guard a.raw_body) (verify_api_key env a.api_key >> (limited >> signed))
          (body_guard-IsReadonly a.raw_body) h in
      let (k, keyed, h₂) =
        >>-ok (verify_api_key env a.api_key) (limited >> signed)
          (verify_api_key-IsReadonly env a.api_key) h₁ in
      let (l, db₁, counted, h₃) = >>=-ok limited (λ _. signed) h₂ in
      let (ts, parsed, recent, fits, protected) =
        verify_parsed-ok a.now request a.x_signature a.x_timestamp (env.parse_int a.x_timestamp) db₁
          db' u h₃ in
      let (unused, used) = protect-ok a.x_signature ts db₁ db' u protected in
      let same = check_rate_limit_replay a.ip seconds db db₁ l counted in
      (
        record {
          ts = ts;
          keyed = verify_api_key-ok env a.api_key db db k keyed;
          parsed = parsed;
          recent = recent;
          signed = fits;
          unused = sym (ap (λ r. find_signature a.x_signature r) same) ∙ unused;
        },
        (ts, used),
      )

  module _ (is_uuid : Text → Bool) where
    -- The state after the transaction of an accepted request.
    pub record IsProcessed (a : Arrival) (db : Db) (tx_id : Text) (db' : Db) : Type 0 where
      pub accepted : IsAccepted env a db
      pub before : Db
      pub books : SameBooks db before
      pub processed : process_liquidity_transaction a.req a.tx_type a.tx_id before ≡ (ok tx_id, db')
      pub ts : ℤ
      pub used : find_signature a.x_signature db'.replay_protection ≡ some ts

    -- The two ways in which a request ends.
    abbrev pub Answered : Arrival → Db → Type 0
    Answered a db =
        ((tx_id : Text) × (db' : Db) × (respond env is_uuid a db ≡ (ok tx_id, db'))
          × IsProcessed a db tx_id db')
        ⊎ ((e : Failure) × (db' : Db) × (respond env is_uuid a db ≡ (raise e, db'))
            × SameBooks db db')

    process-IsAtomic :
        (a : Arrival) → IsAtomic (process_liquidity_transaction a.req a.tx_type a.tx_id)
    unfolding process_liquidity_transaction
    process-IsAtomic a = search transaction-IsAtomic

    -- What runs after the dependencies, once the body is valid.
    respond_run :
        (a : Arrival) (db db₁ db₂ : Db) (u v : ⊤) (r : Result Failure Text × Db)
        → admit env a db ≡ (ok u, db₁)
        → validate_body is_uuid a.tx_type a.token_ids db₁ ≡ (ok v, db₂)
        → process_liquidity_transaction a.req a.tx_type a.tx_id db₂ ≡ r
        → respond env is_uuid a db ≡ r
    unfolding respond
    respond_run a db db₁ db₂ u v r passed validated h =
        let valid = validate_body is_uuid a.tx_type a.token_ids in
        let process = process_liquidity_transaction a.req a.tx_type a.tx_id in
        >>=-run (admit env a) (λ _. valid >> process) passed
          (>>=-run valid (λ _. process) validated h)

    respond_passed :
        (a : Arrival) (db db₁ db₂ : Db) (u v : ⊤)
        → admit env a db ≡ (ok u, db₁)
        → validate_body is_uuid a.tx_type a.token_ids db₁ ≡ (ok v, db₂)
        → db₂ ≡ db₁
        → SameBooks db db₂
        → Answered a db
    respond_passed a db db₁ db₂ u v passed validated state books =
        let process = process_liquidity_transaction a.req a.tx_type a.tx_id in
        let (accepted, (ts, used)) = admit-ok a db db₁ u passed in
        elim (outcome (process db₂)) [
          | inr (e, db₃, failed) ↦ inr (
            e,
            db₃,
            respond_run a db db₁ db₂ u v (raise e, db₃) passed validated failed,
            subst (λ d. SameBooks db d) (sym ((process-IsAtomic a).at db₂ db₃ e failed)) books,
          )
          | inl (tx_id, db₃, done) ↦
              let kept = (process-SameReplay a.req a.tx_type a.tx_id).at db₂ in
              let replay =
                ap (λ p. p.1.replay_protection) (sym done)
                ∙ kept
                ∙ ap (λ d. d.replay_protection) state in
              inl (
                tx_id,
                db₃,
                respond_run a db db₁ db₂ u v (ok tx_id, db₃) passed validated done,
                record {
                  accepted = accepted;
                  before = db₂;
                  books = books;
                  processed = done;
                  ts = ts;
                  used = ap (λ r. find_signature a.x_signature r) replay ∙ used;
                },
              )
        ]

    -- A request of the bridge either returns, and then it has the key, a time near the current one,
    -- the HMAC of the route, the body and the time as its signature, and a signature that was not
    -- used before, and its transaction has returned on the books as they were; or it is refused, and
    -- the books are as they were.
    pub request_guarded : (a : Arrival) (db : Db) → Answered a db
    unfolding respond
    request_guarded a db =
        let valid = validate_body is_uuid a.tx_type a.token_ids in
        let process = process_liquidity_transaction a.req a.tx_type a.tx_id in
        let rest = valid >> process in
        let kept = (admit-Both a).at db in
        elim (outcome (admit env a db)) [
          | inr (e, db₁, refused) ↦ inr (
            e,
            db₁,
            >>=-raise (admit env a) (λ _. rest) refused,
            subst (λ p. SameBooks db p.1) refused kept.0,
          )
          | inl (u, db₁, passed) ↦
              let books = subst (λ p. SameBooks db p.1) passed kept.0 in
              let same = (validate_body-IsReadonly is_uuid a.tx_type a.token_ids).at db₁ in
              elim (outcome (valid db₁)) [
                | inr (e, db₂, invalid) ↦
                    let state : db₂ ≡ db₁ = sym (ap (λ p. p.1) invalid) ∙ same in
                    inr (
                      e,
                      db₂,
                      >>=-run (admit env a) (λ _. rest) passed
                          (>>=-raise valid (λ _. process) invalid),
                      subst (λ d. SameBooks db d) (sym state) books,
                    )
                | inl (v, db₂, validated) ↦
                    let state : db₂ ≡ db₁ = sym (ap (λ p. p.1) validated) ∙ same in
                    respond_passed a db db₁ db₂ u v passed validated state
                      (subst (λ d. SameBooks db d) (sym state) books)
              ]
        ]

    -- The database after requests that arrive one after another.
    unfoldable pub run : List Arrival → Db → Db
    run [] db = db
    run (a ∷ later) db = run later (respond env is_uuid a db).1

    respond-Kept : (a : Arrival) → Follows Kept (respond env is_uuid a)
    unfolding respond
    respond-Kept a =
        let admitted : Follows Kept (admit env a) = record {
          at = λ db. ((admit-Both a).at db).1;
        } in
        let valid = validate_body is_uuid a.tx_type a.token_ids in
        let process = process_liquidity_transaction a.req a.tx_type a.tx_id in
        let validated =
          IsReadonly-Follows Kept Kept-same valid
            (validate_body-IsReadonly is_uuid a.tx_type a.token_ids) in
        >>=-Follows Kept Kept-trans (admit env a) (λ _. valid >> process) admitted
          (λ _.
            >>=-Follows Kept Kept-trans valid (λ _. process) validated
              (λ _. process-Kept a.req a.tx_type a.tx_id))

    run-Kept : (arrivals : List Arrival) (db : Db) → Kept db (run arrivals db)
    unfolding run
    run-Kept [] db = Kept-same db
    run-Kept (a ∷ later) db =
        Kept-trans db (respond env is_uuid a db).1 (run later (respond env is_uuid a db).1)
          ((respond-Kept a).at db) (run-Kept later (respond env is_uuid a db).1)

    -- The signature of a request that returned is never accepted again: whatever requests arrive
    -- after it, a request with that signature is refused, and the books are as they were.
    pub respond_once :
        (a b : Arrival) (later : List Arrival) (db db' : Db) (tx_id : Text)
        → respond env is_uuid a db ≡ (ok tx_id, db')
        → b.x_signature ≡ a.x_signature
        → (e : Failure) × (db'' : Db) × (respond env is_uuid b (run later db') ≡ (raise e, db''))
          × SameBooks (run later db') db''
    respond_once a b later db db' tx_id h same = elim (request_guarded a db) [
      | inr (e, d, refused, _) ↦ absurd cc
      | inl (t, d, ran, done) ↦
          let state : d ≡ db' = cc in
          let here =
            ap (λ x. find_signature a.x_signature x.replay_protection) (sym state) ∙ done.used in
          let there = run-Kept later db' a.x_signature done.ts here in
          elim (request_guarded b (run later db')) [
            | inr refused ↦ refused
            | inl (t', d', ran', done') ↦ absurd (let new = done'.accepted.unused in ground arith)
          ]
    ]
