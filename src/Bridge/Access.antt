-- ===== src/Bridge/Access.antt =====
-- What a request passes before its transaction: the key, the rate limit and the signature.
use project_hamilton.Base.{
  ℕ, ◌+◌, ◌*◌, ◌%◌, ◌≤◌, ◌++◌, Option, none, some, List, [], ◌∷◌, Text, text_dec, ite, dec_le,
  dec_lt, ℕ_discrete, ⊤,
}
use project_hamilton.Base.Int.{ℤ, pos, negsuc}
use project_hamilton.Base.Action.{http, throw, require, refuse, modify, ◌>>◌}
use project_hamilton.Bridge.State.{
  Act, rate_limited, unauthorized, invalid_timestamp, request_expired, bad_signature,
  replay_detected,
}

abbrev pub max_drift_seconds : ℕ
max_drift_seconds = 300

-- `RATE_LIMIT`
abbrev pub rate_limit_count : ℕ
rate_limit_count = 60

abbrev pub rate_window : ℕ
rate_window = 60

-- What the service takes from outside: its secrets, the hash functions, and `int` on a header.
pub record Env : Type 0 where
  pub api_key_hash : Text
  pub signing_secret : List ℕ
  pub sha256_hex : List ℕ → Text
  pub hmac_sha256_hex : List ℕ → List ℕ → Text
  pub parse_int : Text → Option ℤ

-- `verify_api_key`; the texts are ASCII.
unfoldable pub verify_api_key : Env → Text → Act ⊤
verify_api_key env key =
    require (text_dec (env.sha256_hex key) env.api_key_hash) (http 401 unauthorized)

-- `DELETE FROM rate_limit WHERE ts < cutoff`, the cutoff being `now - RATE_WINDOW`.
unfoldable pub drop_old : ℕ → List (Text × ℕ) → List (Text × ℕ)
drop_old now [] = []
drop_old now ((ip, ts) ∷ rows) = elim (dec_lt (ts + rate_window) now) [
  | yes _ ↦ drop_old now rows
  | no _ ↦ (ip, ts) ∷ drop_old now rows
]

-- `SELECT COUNT(*) FROM rate_limit WHERE ip=? AND ts >= cutoff`
unfoldable pub count_recent : Text → ℕ → List (Text × ℕ) → ℕ
count_recent ip now [] = 0
count_recent ip now ((j, ts) ∷ rows) =
    ite (text_dec j ip) (ite (dec_le now (ts + rate_window)) 1 0) 0 + count_recent ip now rows

-- Every twentieth second the old rows are deleted.
unfoldable pub clean_up : ℕ → List (Text × ℕ) → List (Text × ℕ)
clean_up now rows = elim (ℕ_discrete (now % 20) 0) [ yes _ ↦ drop_old now rows | no _ ↦ rows ]

-- `check_rate_limit`; the row stays written when the request is refused.
unfoldable pub check_rate_limit : Text → ℕ → Act ⊤
check_rate_limit ip now db =
    let rows = clean_up now ((ip, now) ∷ db.rate_limit) in
    refuse (dec_lt rate_limit_count (count_recent ip now rows)) (http 429 rate_limited)
      (record db { rate_limit = rows })

-- `abs(time.time() - ts) <= MAX_DRIFT_SECONDS`, the time being in microseconds.
abbrev pub InDrift : ℕ → ℤ → Type 0
InDrift now (pos ts) =
    (now ≤ (ts + max_drift_seconds) * 1000000) × (ts * 1000000 ≤ now + max_drift_seconds * 1000000)
InDrift now (negsuc n) = now + (n + 1) * 1000000 ≤ max_drift_seconds * 1000000

unfoldable pub in_drift_dec : (now : ℕ) (ts : ℤ) → Dec (InDrift now ts)
in_drift_dec now (pos ts) = elim (dec_le now ((ts + max_drift_seconds) * 1000000)) [
  | no p ↦ no (λ h. p h.0)
  | yes p ↦ elim (dec_le (ts * 1000000) (now + max_drift_seconds * 1000000)) [
    | yes q ↦ yes (p, q)
    | no q ↦ no (λ h. q h.1)
  ]
]
in_drift_dec now (negsuc n) = dec_le (now + (n + 1) * 1000000) (max_drift_seconds * 1000000)

unfoldable pub find_signature : Text → List (Text × ℤ) → Option ℤ
find_signature signature [] = none
find_signature signature ((s, ts) ∷ rows) =
    ite (text_dec s signature) (some ts) (find_signature signature rows)

-- `INSERT INTO replay_protection`, which refuses a signature that is there.
unfoldable pub protect : Text → ℤ → Act ⊤
protect signature ts db = elim (find_signature signature db.replay_protection) [
  | some _ ↦ throw (http 409 replay_detected) db
  | none ↦ modify (λ d. record d { replay_protection = (signature, ts) ∷ d.replay_protection }) db
]

-- What is signed: the method, the path and the body, as bytes.
unfoldable pub verify_parsed : Env → ℕ → List ℕ → Text → Text → Option ℤ → Act ⊤
verify_parsed env now request x_signature x_timestamp none = throw (http 400 invalid_timestamp)
verify_parsed env now request x_signature x_timestamp (some ts) = do
  require (in_drift_dec now ts) (http 401 request_expired)
  require (text_dec (env.hmac_sha256_hex env.signing_secret (request ++ x_timestamp)) x_signature)
      (http 403 bad_signature)
  protect x_signature ts

-- `verify_signature`; `request` is the method, the path and the body, one after another.
unfoldable pub verify_signature : Env → ℕ → List ℕ → Text → Text → Act ⊤
verify_signature env now request x_signature x_timestamp =
    verify_parsed env now request x_signature x_timestamp (env.parse_int x_timestamp)
