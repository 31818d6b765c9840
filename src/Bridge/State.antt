-- ===== src/Bridge/State.antt =====
-- The tables of bridge_state.db (`init_db`). Amounts are counted in a unit of a fixed scale, fine
-- enough for every amount that is sent. The columns `status`, always COMPLETED, and `created_at`
-- of transactions, which no code reads, are left out.
use project_hamilton.Base.{ℕ, Option, none, some, List, [], ◌∷◌, Text, text_dec, ite}
use project_hamilton.Base.Int.{ℤ}
use project_hamilton.Base.Action.{Action, Error}

-- `tx_type`
pub data TxType : Type 0 where
  mint burn : TxType

pub record TxRow : Type 0 where
  pub transaction_id : Text
  pub bank_reference : Text
  pub tx_type : TxType
  pub account_id : Text
  pub amount : ℕ
  pub currency : Text

pub record Liquidity : Type 0 where
  pub currency : Text
  pub total : ℤ
  pub available : ℤ
  pub locked : ℤ

pub record Db : Type 0 where
  pub transactions : List TxRow
  pub liquidity : List Liquidity
  pub replay_protection : List (Text × ℤ)
  pub rate_limit : List (Text × ℕ)

pub data Reason : Type 0 where
  duplicate_transaction insufficient_liquidity rate_limited unauthorized : Reason
  invalid_timestamp request_expired bad_signature replay_detected : Reason
  payload_too_large invalid_token_id : Reason

abbrev pub Failure : Type 0
Failure = Error Reason

abbrev pub Act : Type 0 → Type 0
Act = Action Db Failure

-- The fields of `MintRequest` and `BurnRequest` that the transaction reads; `amount` is above 0.
pub record Request : Type 0 where
  pub account_id : Text
  pub amount : ℕ
  pub currency : Text
  pub bank_reference : Text

-- `SELECT 1 FROM transactions WHERE bank_reference=?`
unfoldable pub find_reference : Text → List TxRow → Option TxRow
find_reference reference [] = none
find_reference reference (r ∷ rs) =
    ite (text_dec r.bank_reference reference) (some r) (find_reference reference rs)

unfoldable pub find_transaction : Text → List TxRow → Option TxRow
find_transaction tx_id [] = none
find_transaction tx_id (r ∷ rs) =
    ite (text_dec r.transaction_id tx_id) (some r) (find_transaction tx_id rs)

-- `SELECT total, available FROM liquidity WHERE currency=?`
unfoldable pub find_liquidity : Text → List Liquidity → Option Liquidity
find_liquidity currency [] = none
find_liquidity currency (l ∷ ls) =
    ite (text_dec l.currency currency) (some l) (find_liquidity currency ls)

-- `UPDATE liquidity SET total=?, available=? WHERE currency=?`
unfoldable pub update_liquidity : Text → ℤ → ℤ → List Liquidity → List Liquidity
update_liquidity currency total available [] = []
update_liquidity currency total available (l ∷ ls) =
    ite (text_dec l.currency currency) (record l { total = total; available = available }) l
    ∷ update_liquidity currency total available ls
