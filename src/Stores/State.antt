-- ===== src/Stores/State.antt =====
-- The state of `MemoryUTXOLedger`. A dictionary is a list of its entries; the newest entry of
-- `processed_txs` stands first, and the order of the other two is read by no operation.
use project_hamilton.Base.{Option, none, some, List, [], ◌∷◌, Text, text_dec, ite}
use project_hamilton.Base.Action.{Action}
use project_hamilton.Models.Types.{Utxo}

pub record Ledger : Type 0 where
  pub fee_collector : Text
  pub utxos : List Utxo
  pub owner_index : List (Text × List Text)
  pub processed_txs : List Text

pub data Reason : Type 0 where
  no_inputs_or_outputs exceeds_bounds negative_fee invalid_amount id_mismatch : Reason
  duplicate_inputs already_processed missing_utxo missing_mapping mixed_currency : Reason
  utxo_expired lock_script_unsupported bad_signature output_currency ledger_imbalance : Reason
  processed_concurrently spent_concurrently watch_conflict : Reason

-- `TxValidationError`, `DoubleSpendError`, a `ValueError`, and the exceptions that no
-- code raises on purpose: a KeyError, the TypeError of `json.dumps`, and pydantic's ValidationError.
pub data LedgerError : Type 0 where
  tx_validation : Reason → LedgerError
  double_spend : Reason → LedgerError
  key_error value_error type_error validation_error : LedgerError

abbrev pub Act : Type 0 → Type 0
Act = Action Ledger LedgerError

-- `utxos.get(token_id)`
unfoldable pub get_token : Text → List Utxo → Option Utxo
get_token tid [] = none
get_token tid (u ∷ us) = ite (text_dec u.token_id tid) (some u) (get_token tid us)

-- `utxos` without the entry of `token_id`.
unfoldable pub drop_token : Text → List Utxo → List Utxo
drop_token tid [] = []
drop_token tid (u ∷ us) = ite (text_dec u.token_id tid) (drop_token tid us) (u ∷ drop_token tid us)

-- `utxos[token_id] = utxo`
unfoldable pub put_token : Utxo → List Utxo → List Utxo
put_token u us = u ∷ drop_token u.token_id us
