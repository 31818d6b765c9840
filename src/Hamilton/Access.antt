-- ===== src/Hamilton/Access.antt =====
-- What a request passes before its handler: the limit on its body, the authentication of its client,
-- the rate limit and the role; and the three endpoints. The headers are ASCII.
use project_hamilton.Base.{
  ℕ, ◌+◌, ◌/◌, ◌≤◌, ◌++◌, refl, Bool, true, false, Option, none, some, List, [], ◌∷◌, Text, text,
  text_dec, ite, dec_lt, dec_le, ⊤,
}
use project_hamilton.Base.Int.{ℤ, pos, negsuc}
use project_hamilton.Base.Json.{decimal}
use project_hamilton.Base.Action.{
  Action, http, value_error, pure, throw, gets, or_throw, require, refuse, ◌>>=◌, ◌>>◌,
}
use project_hamilton.Hamilton.State.{
  Db, Client, Role, issuer, processor, Reply, Failure, timestamp_not_integer, timestamp_window,
  unauthorized, forbidden, rate_limited, limiter_offline, bad_hex, payload_too_large,
  bad_content_length,
}
use project_hamilton.Hamilton.Request.{Env, TxRequest, MintReq, BurnReq, from_hex}
use project_hamilton.Hamilton.Handlers.{process_tx, mint, burn}

abbrev pub ts_window_hmac : ℕ
ts_window_hmac = 30

abbrev pub rl_limit_default : ℕ
rl_limit_default = 120

abbrev pub rl_limit_tx : ℕ
rl_limit_tx = 30

abbrev pub rl_limit_mint : ℕ
rl_limit_mint = 20

abbrev pub max_body : ℕ
max_body = 512000

-- The counters of Redis, by their names. A name has its minute, and its counter expires no sooner
-- than that minute ends.
pub record Service : Type 0 where
  pub db : Db
  pub counters : List (Text × ℕ)

abbrev pub Serve : Type 0 → Type 0
Serve = Action Service Failure

-- A handler, which reads and writes the database only.
abbrev pub on_db : {A : Type 0} → Action Db Failure A → Serve A
on_db act s = let (r, db) = act s.db in (r, record s { db = db })

-- A request as it arrives: its body and its headers.
pub record Incoming : Type 0 where
  pub body : List ℕ
  pub content_length : Option Text
  pub client_id : Text
  pub timestamp : Text
  pub signature : Text
  pub idem_key : Text

-- `SELECT ... FROM clients WHERE client_id=?`
unfoldable pub find_client : Text → List Client → Option Client
find_client cid [] = none
find_client cid (c ∷ cs) = ite (text_dec c.client_id cid) (some c) (find_client cid cs)

-- `abs(now - ts) <= TS_WINDOW_HMAC`
abbrev pub InWindow : ℕ → ℤ → Type 0
InWindow now (pos ts) = (now ≤ ts + ts_window_hmac) × (ts ≤ now + ts_window_hmac)
InWindow now (negsuc n) = now + (n + 1) ≤ ts_window_hmac

unfoldable pub in_window_dec : (now : ℕ) (ts : ℤ) → Dec (InWindow now ts)
in_window_dec now (pos ts) = elim (dec_le now (ts + ts_window_hmac)) [
  | no p ↦ no (λ h. p h.0)
  | yes p ↦ elim (dec_le ts (now + ts_window_hmac)) [ yes q ↦ yes (p, q) | no q ↦ no (λ h. q h.1) ]
]
in_window_dec now (negsuc n) = dec_le (now + (n + 1)) ts_window_hmac

-- `INCR`
unfoldable pub incr : Text → List (Text × ℕ) → List (Text × ℕ)
incr name [] = (name, 1) ∷ []
incr name ((k, n) ∷ rest) = ite (text_dec k name) ((k, n + 1) ∷ rest) ((k, n) ∷ incr name rest)

unfoldable pub counter : Text → List (Text × ℕ) → ℕ
counter name [] = 0
counter name ((k, n) ∷ rest) = ite (text_dec k name) n (counter name rest)

-- `f"rl:{endpoint_key}:{cid}:{int(time.time()) // 60}"`
unfoldable pub bucket : Text → Text → ℕ → Text
bucket endpoint_key cid now =
    text "rl:" ++ (endpoint_key ++ (b':' ∷ (cid ++ (b':' ∷ decimal (now / 60)))))

-- `_rate_limit` of a bucket, when Redis answers and when it does not.
unfoldable pub rate_limit : Bool → Text → ℕ → Serve ⊤
rate_limit false name limit s = throw (http 503 limiter_offline) s
rate_limit true name limit s =
    let counters = incr name s.counters in
    refuse (dec_lt limit (counter name counters)) (http 429 rate_limited)
      (record s { counters = counters })

unfoldable pub role_dec : Discrete Role
role_dec issuer issuer = yes refl
role_dec issuer processor = no (λ e. cc)
role_dec processor issuer = no (λ e. cc)
role_dec processor processor = yes refl

-- `require_role`
unfoldable pub require_role : Role → Client → Serve ⊤
require_role role client = require (role_dec client.role role) (http 403 forbidden)

-- An endpoint, with the parsed body of a request and the identifier that the handler draws.
pub data Endpoint : Type 0 where
  transfer_endpoint : TxRequest → Endpoint
  mint_endpoint : MintReq → Text → Endpoint
  burn_endpoint : BurnReq → Text → Endpoint

-- The method and the path of an endpoint.
abbrev pub route : Endpoint → Text
route (transfer_endpoint tx) = text "POST/transactions/process"
route (mint_endpoint body tid) = text "POST/tokens/mint"
route (burn_endpoint body audit_id) = text "POST/tokens/burn"

-- The key of its rate limit.
abbrev pub endpoint_key : Endpoint → Text
endpoint_key (transfer_endpoint tx) = text "tx"
endpoint_key (mint_endpoint body tid) = text "mint"
endpoint_key (burn_endpoint body audit_id) = text "default"

abbrev pub limit_of : Endpoint → ℕ
limit_of (transfer_endpoint tx) = rl_limit_tx
limit_of (mint_endpoint body tid) = rl_limit_mint
limit_of (burn_endpoint body audit_id) = rl_limit_default

-- `Depends(require_role(...))`, which the endpoint of burns does not have.
abbrev pub check_role : Endpoint → Client → Serve ⊤
check_role (transfer_endpoint tx) client = require_role processor client
check_role (mint_endpoint body tid) client = require_role issuer client
check_role (burn_endpoint body audit_id) client = pure tt

module _ (env : Env) (parse_int : Text → Option ℤ) where
  -- The header is no number: `int` raises a ValueError. It is above the limit: a 413.
  unfoldable pub check_length : Option ℤ → Serve ⊤
  check_length none = throw (value_error bad_content_length)
  check_length (some (negsuc n)) = pure tt
  check_length (some (pos n)) = refuse (dec_lt max_body n) (http 413 payload_too_large)

  -- `body_size_guard`
  unfoldable pub body_size_guard : Option Text → Serve ⊤
  body_size_guard none = pure tt
  body_size_guard (some []) = pure tt
  body_size_guard (some (c ∷ cl)) = check_length (parse_int (c ∷ cl))

  -- `authenticate`, from the comparison of the times on.
  unfoldable pub authenticate_at : ℕ → Incoming → Text → ℤ → Serve Client
  authenticate_at now req path ts = do
    require (in_window_dec now ts) (http 401 timestamp_window)
    found ← gets (λ s. find_client req.client_id s.db.clients)
    row ← or_throw found (http 401 unauthorized)
    key ← or_throw (from_hex row.hmac_key) (value_error bad_hex)
    require (text_dec (env.hmac_sha256_hex key (path ++ (req.body ++ req.timestamp))) req.signature)
        (http 401 unauthorized)
    pure row

  -- `authenticate`, and the client that it finds.
  unfoldable pub authenticate : ℕ → Incoming → Text → Serve Client
  authenticate now req path = do
    ts ← or_throw (parse_int req.timestamp) (http 400 timestamp_not_integer)
    authenticate_at now req path ts

  -- The function of the endpoint.
  abbrev pub handle : ℕ → Incoming → Endpoint → Action Db Failure Reply
  handle now req (transfer_endpoint tx) = process_tx env now req.client_id tx req.idem_key
  handle now req (mint_endpoint body tid) = mint env now req.client_id body req.idem_key tid
  handle now req (burn_endpoint body audit_id) =
      burn env now req.client_id body req.idem_key audit_id

  -- The dependencies of an endpoint, in their order.
  unfoldable pub admit : Bool → ℕ → Incoming → Endpoint → Serve ⊤
  admit online now req endpoint = do
    body_size_guard req.content_length
    client ← authenticate now req (route endpoint)
    rate_limit online (bucket (endpoint_key endpoint) req.client_id now) (limit_of endpoint)
    check_role endpoint client

  -- A request, from the middleware to the response.
  unfoldable pub respond : Bool → ℕ → Incoming → Endpoint → Serve Reply
  respond online now req endpoint = do
    admit online now req endpoint
    on_db (handle now req endpoint)
