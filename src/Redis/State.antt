-- ===== src/Redis/State.antt =====
-- The keys of `UTXOStore` in Redis. The value of a key "utxo:" is the JSON text that a writer
-- prints from the fields of `Stored`, so it stands for them; it stands under the key of its own
-- identifier, as every writer puts it. A key "owner:" is a set, which is gone when it is empty.
use project_hamilton.Base.{
  ℕ, Bool, true, false, Option, none, some, List, [], ◌∷◌, Text, text_dec, ite, dec_lt,
}
use project_hamilton.Base.Action.{Action}
use project_hamilton.Models.Types.{uuid_id, Currency, Utxo, TransactionOutput}
use project_hamilton.Models.Validate.{script_fits, expiry_after}
use project_hamilton.Stores.State.{LedgerError}

-- The fields of a stored token; a token that a transaction made has no `created_at`.
pub record Stored : Type 0 where
  pub token_id : Text
  pub amount : ℕ
  pub currency : Currency
  pub owner_public_key : Text
  pub lock_script : Option Text
  pub created_at : Option ℕ
  pub expires_at : Option ℕ

-- An entry of the stream "ledger:audit_log", without its time.
pub record AuditEntry : Type 0 where
  pub tx_id : Text
  pub inputs : List Text
  pub outputs : List TransactionOutput
  pub fee : ℕ

-- `txs` has the times at which the keys "tx:" expire.
pub record Store : Type 0 where
  pub fee_collector : Text
  pub utxos : List Stored
  pub owners : List (Text × List Text)
  pub txs : List (Text × ℕ)
  pub audit : List AuditEntry

abbrev pub Act : Type 0 → Type 0
Act = Action Store LedgerError

-- `GET utxo:token_id`
unfoldable pub get_stored : Text → List Stored → Option Stored
get_stored tid [] = none
get_stored tid (d ∷ ds) = ite (text_dec d.token_id tid) (some d) (get_stored tid ds)

-- `DELETE utxo:token_id`
unfoldable pub delete_stored : Text → List Stored → List Stored
delete_stored tid [] = []
delete_stored tid (d ∷ ds) =
    ite (text_dec d.token_id tid) (delete_stored tid ds) (d ∷ delete_stored tid ds)

-- `SET utxo:token_id`
unfoldable pub set_stored : Stored → List Stored → List Stored
set_stored d ds = d ∷ delete_stored d.token_id ds

-- `EXISTS tx:tx_id`, at a time.
unfoldable pub tx_exists : ℕ → Text → List (Text × ℕ) → Bool
tx_exists now tx_id [] = false
tx_exists now tx_id ((i, expiry) ∷ txs) =
    ite (text_dec i tx_id) (ite (dec_lt now expiry) true (tx_exists now tx_id txs))
      (tx_exists now tx_id txs)

-- `created_at` of a parsed token: the model takes the current time where the field is missing.
unfoldable pub created_or : ℕ → Option ℕ → ℕ
created_or now none = now
created_or now (some t) = t

-- The token that `UTXO(**data)` makes: its identifier becomes a UUID object.
unfoldable pub utxo_of : ℕ → Stored → Utxo
utxo_of now d = record {
  token_id = d.token_id;
  id_kind = uuid_id;
  amount = d.amount;
  currency = d.currency;
  owner_public_key = d.owner_public_key;
  lock_script = d.lock_script;
  created_at = created_or now d.created_at;
  expires_at = d.expires_at;
}

-- The validators of UTXO: the identifier is a UUID of version 4, as `is_uuid4` tells, the amount is
-- above 0, the script is not too long, and the expiry is later than the creation.
unfoldable pub is_accepted : (Text → Bool) → ℕ → Stored → Bool
is_accepted is_uuid4 now d = elim (is_uuid4 d.token_id) [
  | false ↦ false
  | true ↦ elim (dec_lt 0 d.amount) [
    | no _ ↦ false
    | yes _ ↦ elim (script_fits d.lock_script) [
      | false ↦ false
      | true ↦ expiry_after (utxo_of now d)
    ]
  ]
]

-- `_parse_utxo`; `none` is a ValidationError.
unfoldable pub parse_utxo : (Text → Bool) → ℕ → Stored → Option Utxo
parse_utxo is_uuid4 now d = elim (is_accepted is_uuid4 now d) [
  | true ↦ some (utxo_of now d)
  | false ↦ none
]

-- What `add_utxo` prints.
unfoldable pub print_utxo : Utxo → Stored
print_utxo u = record {
  token_id = u.token_id;
  amount = u.amount;
  currency = u.currency;
  owner_public_key = u.owner_public_key;
  lock_script = u.lock_script;
  created_at = some u.created_at;
  expires_at = u.expires_at;
}
