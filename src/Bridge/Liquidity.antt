-- ===== src/Bridge/Liquidity.antt =====
-- `process_liquidity_transaction` and its two endpoints.
use project_hamilton.Base.{Option, none, some, ◌∷◌, Text}
use project_hamilton.Base.Money.{round}
use project_hamilton.Base.Int.{ℤ, pos, negsuc, neg_ℕ, add_decimal}
use project_hamilton.Base.Action.{Error, http, pure, throw, modify, transaction, ◌>>◌}
use project_hamilton.Bridge.State.{
  TxType, mint, burn, TxRow, Liquidity, Act, Request, duplicate_transaction, insufficient_liquidity,
  find_reference, find_transaction, find_liquidity, update_liquidity,
}

-- `req.amount if tx_type == "mint" else -req.amount`; the unary minus rounds to the context.
unfoldable pub delta : Request → TxType → ℤ
delta req mint = pos req.amount
delta req burn = neg_ℕ (round req.amount)

-- `Duplicate transaction`
unfoldable pub refuse_duplicate : Request → Act Unit
refuse_duplicate req db = elim (find_reference req.bank_reference db.transactions) [
  | some _ ↦ throw (http 409 duplicate_transaction) db
  | none ↦ pure tt db
]

-- The first transaction of a currency.
unfoldable pub open_liquidity : Request → TxType → Act Unit
open_liquidity req burn = throw (http 400 insufficient_liquidity)
open_liquidity req mint = modify λ db. record db {
  liquidity =
      record {
        currency = req.currency;
        total = delta req mint;
        available = delta req mint;
        locked = pos 0;
      }
      ∷ db.liquidity;
}

-- `if new_available < 0`, and the update otherwise.
unfoldable pub set_liquidity : Text → ℤ → ℤ → Act Unit
set_liquidity currency total (negsuc n) = throw (http 400 insufficient_liquidity)
set_liquidity currency total (pos n) =
    modify λ db. record db { liquidity = update_liquidity currency total (pos n) db.liquidity }

unfoldable pub adjust_found : Request → TxType → Option Liquidity → Act Unit
adjust_found req tx_type none = open_liquidity req tx_type
adjust_found req tx_type (some row) =
    set_liquidity req.currency (add_decimal row.total (delta req tx_type))
      (add_decimal row.available (delta req tx_type))

unfoldable pub adjust_liquidity : Request → TxType → Act Unit
adjust_liquidity req tx_type db =
    adjust_found req tx_type (find_liquidity req.currency db.liquidity) db

abbrev pub tx_row : Request → TxType → Text → TxRow
tx_row req tx_type tx_id = record {
  transaction_id = tx_id;
  bank_reference = req.bank_reference;
  tx_type = tx_type;
  account_id = req.account_id;
  amount = req.amount;
  currency = req.currency;
}

-- `INSERT INTO transactions`: the identifier is the primary key, and the reference is unique.
unfoldable pub record_transaction : Request → TxType → Text → Act Unit
record_transaction req tx_type tx_id db = elim (find_transaction tx_id db.transactions) [
  | some _ ↦ throw Error.integrity_error db
  | none ↦ elim (find_reference req.bank_reference db.transactions) [
    | some _ ↦ throw Error.integrity_error db
    | none ↦ modify (λ d. record d { transactions = tx_row req tx_type tx_id ∷ d.transactions }) db
  ]
]

-- The body of the `try`.
unfoldable pub liquidity_steps : Request → TxType → Text → Act Text
liquidity_steps req tx_type tx_id = do
  refuse_duplicate req
  adjust_liquidity req tx_type
  record_transaction req tx_type tx_id
  pure tx_id

-- `process_liquidity_transaction`; `tx_id` is the fresh identifier of `uuid.uuid4()`.
unfoldable pub process_liquidity_transaction : Request → TxType → Text → Act Text
process_liquidity_transaction req tx_type tx_id =
    transaction (λ e. e) (liquidity_steps req tx_type tx_id)
