-- ===== src/Hamilton/Admitted.antt =====
-- What `authenticate`, the rate limit and the role let pass.
use project_hamilton.Base.{
  ℕ, ◌+◌, ◌≤◌, ◌≡◌, ◌++◌, ◌∙◌, refl, sym, ap, Bool, true, false, Option, none, some, List, [], ◌∷◌,
  Text, text_dec, arith, inl, inr, Option-cases, ⊤, dec_lt,
}
use project_hamilton.Base.Int.{ℤ, pos, negsuc}
use project_hamilton.Base.Action.{ok, http, or_throw, require, refuse, >>=-ok, ◌>>=◌, ◌>>◌}
use project_hamilton.Base.Action.Atomic.{
  IsReadonly, readonly_rules, >>-ok, >>=-same, Follows, >>=-Follows, IsReadonly-Follows,
  or_throw-IsReadonly,
}
use project_hamilton.Hamilton.State.{
  Client, issuer, processor, timestamp_not_integer, forbidden, rate_limited,
}
use project_hamilton.Hamilton.Request.{Env, from_hex}
use project_hamilton.Hamilton.Access.{
  Service, Incoming, find_client, InWindow, in_window_dec, incr, counter, bucket, rate_limit,
  role_dec, require_role, Endpoint, transfer_endpoint, mint_endpoint, burn_endpoint, route,
  endpoint_key, limit_of, check_role, check_length, body_size_guard, authenticate_at, authenticate,
  admit,
}

require-ok :
    {S E P : Type 0} (d : Dec P) (e : E) {s s' : S} {a : ⊤}
    → require d e s ≡ (ok a, s')
    → P × (s' ≡ s)
require-ok (yes p) e h = (p, cc)
require-ok (no _) e h = cc

or_throw-ok :
    {S E A : Type 0} (o : Option A) (e : E) {s s' : S} {a : A}
    → or_throw o e s ≡ (ok a, s')
    → (o ≡ some a) × (s' ≡ s)
or_throw-ok none e h = cc
or_throw-ok (some x) e h = (cc, cc)

-- The role that a call needs.
abbrev pub HasRole : Endpoint → Client → Type 0
HasRole (transfer_endpoint tx) row = row.role ≡ processor
HasRole (mint_endpoint body tid) row = row.role ≡ issuer
HasRole (burn_endpoint body audit_id) row = ⊤

-- The request comes from a client of the table: its time is near, its signature is the HMAC of the
-- route, the body and the time under the key of the client, and the client has the role.
pub record IsAuthorized (env : Env) (parse_int : Text → Option ℤ) (now : ℕ) (req : Incoming)
    (call : Endpoint) (s : Service) : Type 0 where
  pub row : Client
  pub ts : ℤ
  pub key : List ℕ
  pub parsed : parse_int req.timestamp ≡ some ts
  pub recent : InWindow now ts
  pub known : find_client req.client_id s.db.clients ≡ some row
  pub decoded : from_hex row.hmac_key ≡ some key
  pub signed : env.hmac_sha256_hex key (route call ++ (req.body ++ req.timestamp)) ≡ req.signature
  pub permitted : HasRole call row

refuse-ok :
    {S E P : Type 0} (d : Dec P) (e : E) {s s' : S} {a : ⊤}
    → refuse d e s ≡ (ok a, s')
    → (¬ P) × (s' ≡ s)
refuse-ok (yes p) e h = cc
refuse-ok (no np) e h = (np, cc)

-- The database of a state is that of another.
abbrev pub SameDb : Service → Service → Type 0
SameDb s s' = s'.db ≡ s.db

-- No counter of a state is above that of a later one.
abbrev pub Grown : Service → Service → Type 0
Grown s s' = (name : Text) → counter name s.counters ≤ counter name s'.counters

rate_limit-SameDb :
    (online : Bool) (name : Text) (limit : ℕ) → Follows SameDb (rate_limit online name limit)
unfolding rate_limit
rate_limit-SameDb false name limit = record { at = λ s. refl }
rate_limit-SameDb true name limit = record { at = λ s. ground arith }

pub counter-incr :
    (name other : Text) (l : List (Text × ℕ))
    → (counter name (incr name l) ≡ counter name l + 1)
      × (counter other l ≤ counter other (incr name l))
unfolding counter incr
counter-incr name other [] = ground arith
counter-incr name other ((k, n) ∷ l) = let ih = counter-incr name other l in ground arith

pub Grown-trans : (s t u : Service) → Grown s t → Grown t u → Grown s u
Grown-trans s t u p q name = let first = p name in let last = q name in omega arith

rate_limit-Grown :
    (online : Bool) (name : Text) (limit : ℕ) → Follows Grown (rate_limit online name limit)
unfolding rate_limit
rate_limit-Grown false name limit = record { at = λ s other. omega arith }
rate_limit-Grown true name limit = record {
  at = λ s other. let grown = (counter-incr name other s.counters).1 in ground arith;
}

pub rate_limit-ok :
    (online : Bool) (name : Text) (limit : ℕ) (s s' : Service) (a : ⊤)
    → rate_limit online name limit s ≡ (ok a, s')
    → (s' ≡ record s { counters = incr name s.counters })
      × (counter name (incr name s.counters) ≤ limit)
unfolding rate_limit
rate_limit-ok false name limit s s' a h = cc
rate_limit-ok true name limit s s' a h =
    let (np, same) =
      refuse-ok (dec_lt limit (counter name (incr name s.counters))) (http 429 rate_limited) h in
    (same, omega arith)

check_role-IsReadonly : (call : Endpoint) (row : Client) → IsReadonly (check_role call row)
unfolding require_role
check_role-IsReadonly (transfer_endpoint tx) row = search readonly_rules
check_role-IsReadonly (mint_endpoint body tid) row = search readonly_rules
check_role-IsReadonly (burn_endpoint body audit_id) row = search readonly_rules

check_role-ok :
    (call : Endpoint) (row : Client) (s s' : Service) (a : ⊤)
    → check_role call row s ≡ (ok a, s')
    → HasRole call row × (s' ≡ s)
unfolding require_role
check_role-ok (transfer_endpoint tx) row s s' a h =
    require-ok (role_dec row.role processor) (http 403 forbidden) h
check_role-ok (mint_endpoint body tid) row s s' a h =
    require-ok (role_dec row.role issuer) (http 403 forbidden) h
check_role-ok (burn_endpoint body audit_id) row s s' a h = (tt, cc)

module _ (env : Env) (parse_int : Text → Option ℤ) where
  check_length-IsReadonly : (n : Option ℤ) → IsReadonly (check_length env parse_int n)
  unfolding check_length
  check_length-IsReadonly none = search readonly_rules
  check_length-IsReadonly (some (negsuc n)) = search readonly_rules
  check_length-IsReadonly (some (pos n)) = search readonly_rules

  body_size_guard-IsReadonly : (cl : Option Text) → IsReadonly (body_size_guard env parse_int cl)
  unfolding body_size_guard
  body_size_guard-IsReadonly none = search readonly_rules
  body_size_guard-IsReadonly (some []) = search readonly_rules
  body_size_guard-IsReadonly (some (c ∷ cl)) = check_length-IsReadonly (parse_int (c ∷ cl))

  authenticate-IsReadonly :
      (now : ℕ) (req : Incoming) (path : Text)
      → IsReadonly (authenticate env parse_int now req path)
  unfolding authenticate authenticate_at
  authenticate-IsReadonly now req path = search readonly_rules depth 14

  authenticate_at-ok :
      (now : ℕ) (req : Incoming) (path : Text) (ts : ℤ) (row : Client) (s s' : Service)
      → authenticate_at env parse_int now req path ts s ≡ (ok row, s')
      → InWindow now ts
        × (find_client req.client_id s.db.clients ≡ some row)
        × ((key : List ℕ) × (from_hex row.hmac_key ≡ some key)
            × (env.hmac_sha256_hex key (path ++ (req.body ++ req.timestamp)) ≡ req.signature))
  unfolding authenticate_at
  authenticate_at-ok now req path ts row s s' h = elim (in_window_dec now ts) [
    | no nw ↦ absurd (ground arith)
    | yes w ↦ elim (Option-cases (find_client req.client_id s.db.clients)) [
      | inl e ↦ absurd (ground arith)
      | inr (c, e) ↦ elim (Option-cases (from_hex c.hmac_key)) [
        | inl e' ↦ absurd (ground arith)
        | inr (key, e') ↦
            elim (text_dec (env.hmac_sha256_hex key (path ++ (req.body ++ req.timestamp)))
              req.signature) [
                | no ng ↦ absurd (ground arith)
                | yes g ↦
                    let same : c ≡ row = ground arith in
                    (w, e ∙ ap some same, (key, sym (ap (λ r. from_hex r.hmac_key) same) ∙ e', g))
              ]
      ]
    ]
  ]

  admit-Follows :
      (R : Service → Service → Type 0)
      → ((s : Service) → R s s)
      → ((s t u : Service) → R s t → R t u → R s u)
      → ((online : Bool) (name : Text) (limit : ℕ) → Follows R (rate_limit online name limit))
      → (online : Bool) (now : ℕ) (req : Incoming) (call : Endpoint)
      → Follows R (admit env parse_int online now req call)
  unfolding admit
  admit-Follows R same trans limited online now req call = search (
    IsReadonly-Follows, >>=-Follows, check_role-IsReadonly, body_size_guard-IsReadonly,
    authenticate-IsReadonly,
  )

  pub admit-SameDb :
      (online : Bool) (now : ℕ) (req : Incoming) (call : Endpoint)
      → Follows SameDb (admit env parse_int online now req call)
  admit-SameDb = admit-Follows SameDb (λ s. refl) (λ s t u p q. q ∙ p) rate_limit-SameDb

  pub admit-Grown :
      (online : Bool) (now : ℕ) (req : Incoming) (call : Endpoint)
      → Follows Grown (admit env parse_int online now req call)
  admit-Grown = admit-Follows Grown (λ s name. omega arith) Grown-trans rate_limit-Grown

  -- A request that passes comes from a client that may make it, and its counter, which has grown by
  -- one, is within the limit; nothing else has changed.
  pub admit-ok :
      (online : Bool) (now : ℕ) (req : Incoming) (call : Endpoint) (s s' : Service) (u : ⊤)
      → admit env parse_int online now req call s ≡ (ok u, s')
      → let name = bucket (endpoint_key call) req.client_id now in
        IsAuthorized env parse_int now req call s
        × (s' ≡ record s { counters = incr name s.counters })
        × (counter name (incr name s.counters) ≤ limit_of call)
  unfolding admit authenticate
  admit-ok online now req call s s' u h =
      let name = bucket (endpoint_key call) req.client_id now in
      let limited = rate_limit online name (limit_of call) in
      let last = λ (row : Client). limited >> check_role call row in
      let known = authenticate env parse_int now req (route call) >>= last in
      let (g, _, h₁) =
        >>-ok (body_size_guard env parse_int req.content_length) known
          (body_size_guard-IsReadonly req.content_length) h in
      let (row, auth, h₂) =
        >>=-same (authenticate env parse_int now req (route call)) last
          (authenticate-IsReadonly now req (route call)) h₁ in
      let (v, s₁, counted, h₃) = >>=-ok limited (λ _. check_role call row) h₂ in
      let (role, same) = check_role-ok call row s₁ s' u h₃ in
      let (grown, small) = rate_limit-ok online name (limit_of call) s s₁ v counted in
      let (ts, parse, at) =
        >>=-same (or_throw (parse_int req.timestamp) (http 400 timestamp_not_integer))
          (authenticate_at env parse_int now req (route call))
          (or_throw-IsReadonly (parse_int req.timestamp) (http 400 timestamp_not_integer)) auth in
      let (recent, known, (key, decoded, signed)) =
        authenticate_at-ok now req (route call) ts row s s at in
      (
        record {
          row = row;
          ts = ts;
          key = key;
          parsed = (or_throw-ok (parse_int req.timestamp) (http 400 timestamp_not_integer) parse).0;
          recent = recent;
          known = known;
          decoded = decoded;
          signed = signed;
          permitted = role;
        },
        same ∙ grown,
        small,
      )
