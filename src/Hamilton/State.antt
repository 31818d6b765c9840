-- ===== src/Hamilton/State.antt =====
-- The tables of ledger.db (`init_db`), a record for each row, and the statements on them. The
-- column `created_at` of utxos and ledger_audit, which no code reads, is left out; amounts are in
-- cents, `token_id` and `tx_id` are unique, and the newest audit row stands first.
use project_hamilton.Base.{ℕ, Option, none, some, List, [], ◌∷◌, Text, text_dec, ite}
use project_hamilton.Base.Action.{Action, Error, throw, modify}

pub data UtxoStatus : Type 0 where
  unspent spent burned : UtxoStatus

pub record Utxo : Type 0 where
  pub token_id : Text
  pub amount : ℕ
  pub currency : Text
  pub owner_public_key : Text
  pub status : UtxoStatus

pub data AuditAction : Type 0 where
  transfer mint burn : AuditAction

pub record AuditRow : Type 0 where
  pub seq : ℕ
  pub tx_id : Text
  pub action : AuditAction
  pub payload : Text
  pub prev_hash : Text
  pub chain_hash : Text

-- The result of a handler, which always reports the status COMPLETED: the transaction of a
-- transfer, the token of a mint, the number of tokens of a burn.
pub data Body : Type 0 where
  transferred : Text → Body
  minted : Text → Body
  burned_count : ℕ → Body

-- A response: the status code and the body.
pub record Reply : Type 0 where
  pub status_code : ℕ
  pub body : Body

pub data IdemStatus : Type 0 where
  pending complete : IdemStatus

-- `response` holds the two nullable columns `status_code` and `response`, which are written at once.
pub record IdemRow : Type 0 where
  pub client_id : Text
  pub idem_key : Text
  pub status : IdemStatus
  pub response : Option Reply
  pub created_ts : ℕ

pub data Role : Type 0 where
  issuer processor : Role

pub record Client : Type 0 where
  pub client_id : Text
  pub hmac_key : Text
  pub role : Role

pub record Db : Type 0 where
  pub clients : List Client
  pub utxos : List Utxo
  pub audit : List AuditRow
  pub idem : List IdemRow

-- The details of the HTTP errors and the texts of the `ValueError`s.
pub data Reason : Type 0 where
  idem_length idem_not_uuid network_mismatch signed_at_window bad_signature : Reason
  duplicate_inputs duplicate_outputs duplicate_tokens in_flight : Reason
  utxo_not_available currency_mismatch ownership_error value_conservation_failed : Reason
  timestamp_not_integer timestamp_window unauthorized forbidden rate_limited limiter_offline :
      Reason
  bad_amount bad_hex bad_currency payload_too_large bad_content_length : Reason

abbrev pub Failure : Type 0
Failure = Error Reason

abbrev pub Act : Type 0 → Type 0
Act = Action Db Failure

-- `SELECT ... FROM utxos WHERE token_id=?`
unfoldable pub find_utxo : Text → List Utxo → Option Utxo
find_utxo tid [] = none
find_utxo tid (u ∷ us) = ite (text_dec u.token_id tid) (some u) (find_utxo tid us)

-- `UPDATE utxos SET status=? WHERE token_id=?`
unfoldable pub set_status : Text → UtxoStatus → List Utxo → List Utxo
set_status tid status [] = []
set_status tid status (u ∷ us) =
    ite (text_dec u.token_id tid) (record u { status = status }) u ∷ set_status tid status us

-- `INSERT INTO utxos`, which refuses a `token_id` that is there.
unfoldable pub insert_utxo : Utxo → Act Unit
insert_utxo u db = elim (find_utxo u.token_id db.utxos) [
  | some _ ↦ throw Error.integrity_error db
  | none ↦ modify (λ d. record d { utxos = u ∷ d.utxos }) db
]

-- `UPDATE utxos SET status=?` as a step of a handler.
unfoldable pub mark : Text → UtxoStatus → Act Unit
mark tid status = modify (λ d. record d { utxos = set_status tid status d.utxos })
