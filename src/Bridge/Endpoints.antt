-- ===== src/Bridge/Endpoints.antt =====
-- The endpoints "/mint" and "/burn": what a request passes, and the transaction.
use project_hamilton.Base.{
  ℕ, ◌/◌, ◌++◌, Bool, true, false, List, [], ◌∷◌, Text, text, length, dec_lt, ⊤,
}
use project_hamilton.Base.Action.{http, pure, throw, refuse, ◌>>◌}
use project_hamilton.Bridge.State.{
  TxType, mint, burn, Act, Request, payload_too_large, invalid_token_id,
}
use project_hamilton.Bridge.Access.{Env, verify_api_key, check_rate_limit, verify_signature}
use project_hamilton.Bridge.Liquidity.{process_liquidity_transaction}

abbrev pub max_body : ℕ
max_body = 1000000

-- A request as it arrives at a time in microseconds: the address it comes from, its headers, its
-- body as bytes and as fields, and the identifier that the transaction draws.
pub record Arrival : Type 0 where
  pub now : ℕ
  pub ip : Text
  pub api_key : Text
  pub x_signature : Text
  pub x_timestamp : Text
  pub raw_body : List ℕ
  pub tx_type : TxType
  pub req : Request
  pub token_ids : List Text
  pub tx_id : Text

-- The method and the path of the endpoint.
abbrev pub route : TxType → Text
route mint = text "POST/mint"
route burn = text "POST/burn"

-- `body_guard`
unfoldable pub body_guard : List ℕ → Act ⊤
body_guard body = refuse (dec_lt max_body (length body)) (http 413 payload_too_large)

-- `validate_tokens`, by `uuid.UUID` as a test; FastAPI answers 422.
unfoldable pub validate_tokens : (Text → Bool) → List Text → Act ⊤
validate_tokens is_uuid [] = pure tt
validate_tokens is_uuid (t ∷ ts) = elim (is_uuid t) [
  | true ↦ validate_tokens is_uuid ts
  | false ↦ throw (http 422 invalid_token_id)
]

-- The body of a mint has no token identifiers.
abbrev pub validate_body : (Text → Bool) → TxType → List Text → Act ⊤
validate_body is_uuid mint token_ids = pure tt
validate_body is_uuid burn token_ids = validate_tokens is_uuid token_ids

-- The middleware and the dependencies of an endpoint, in their order.
unfoldable pub admit : Env → Arrival → Act ⊤
admit env a = do
  body_guard a.raw_body
  verify_api_key env a.api_key
  check_rate_limit a.ip (a.now / 1000000)
  verify_signature env a.now (route a.tx_type ++ a.raw_body) a.x_signature a.x_timestamp

-- `mint_endpoint` and `burn_endpoint`, whose body is validated after the dependencies have run.
unfoldable pub respond : Env → (Text → Bool) → Arrival → Act Text
respond env is_uuid a = do
  admit env a
  validate_body is_uuid a.tx_type a.token_ids
  process_liquidity_transaction a.req a.tx_type a.tx_id
