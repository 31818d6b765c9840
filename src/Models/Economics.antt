-- ===== src/Models/Economics.antt =====
-- `Transaction.verify_economic_validity`.
use project_hamilton.Base.{
  ℕ, ◌≡◌, none, some, Option, Bool, true, false, List, [], ◌∷◌, dec_le, ℕ_discrete, length, ⊤,
}
use project_hamilton.Base.Money.{add_money}
use project_hamilton.Base.Action.{Action, pure, throw, or_throw, require, refuse_if, ◌>>=◌, ◌>>◌}
use project_hamilton.Models.Types.{
  mapped, Currency, currency_dec, Utxo, TransactionInput, TransactionOutput, Transaction,
}

pub data EconomicError : Type 0 where
  count_mismatch missing_utxo currency_mismatch utxo_expired : EconomicError
  value_conservation index_error : EconomicError

-- The method changes nothing: its state is empty.
abbrev pub Check : Type 0 → Type 0
Check = Action ⊤ EconomicError

-- `expires_at and expires_at <= now`
unfoldable pub has_expired : ℕ → Option ℕ → Bool
has_expired now none = false
has_expired now (some t) = elim (dec_le t now) [ yes _ ↦ true | no _ ↦ false ]

-- One round of the loop over the inputs: the amount of its token.
unfoldable pub back_input : ℕ → Currency → List Utxo → TransactionInput → Check ℕ
back_input now target utxos inp = do
  utxo ← or_throw (mapped inp.token_id utxos) missing_utxo
  require (currency_dec utxo.currency target) currency_mismatch
  refuse_if (has_expired now utxo.expires_at) utxo_expired
  pure utxo.amount

-- The loop; `total` is `total_in`.
unfoldable pub back_inputs : ℕ → Currency → List Utxo → ℕ → List TransactionInput → Check ℕ
back_inputs now target utxos total [] = pure total
back_inputs now target utxos total (i ∷ is) = do
  amount ← back_input now target utxos i
  back_inputs now target utxos (add_money total amount) is

-- `sum((out.amount for out in self.outputs), Decimal("0.00"))`
unfoldable pub total_outputs : ℕ → List TransactionOutput → ℕ
total_outputs total [] = total
total_outputs total (o ∷ os) = total_outputs (add_money total o.amount) os

-- What follows the count, with the currency of `outputs[0]`.
unfoldable pub verify_values : ℕ → List Utxo → Transaction → List TransactionOutput → Check ⊤
verify_values now utxos tx [] = throw index_error
verify_values now utxos tx (o ∷ os) = do
  total_in ← back_inputs now o.currency utxos 0 tx.inputs
  require (ℕ_discrete total_in (add_money (total_outputs 0 (o ∷ os)) tx.fee)) value_conservation

-- `verify_economic_validity` at the time `now`.
unfoldable pub verify_economic_validity : ℕ → List Utxo → Transaction → Check ⊤
verify_economic_validity now utxos tx = do
  require (ℕ_discrete (length utxos) (length tx.inputs)) count_mismatch
  verify_values now utxos tx tx.outputs

-- The tokens that back the inputs: each is the one of its identifier, of the currency, and has not
-- expired.
abbrev pub Backed : ℕ → Currency → List Utxo → List TransactionInput → List Utxo → Type 0
Backed now target utxos [] [] = ⊤
Backed now target utxos [] (f ∷ fs) = ⊥
Backed now target utxos (i ∷ is) [] = ⊥
Backed now target utxos (i ∷ is) (f ∷ fs) =
    ((mapped i.token_id utxos ≡ some f)
      × (f.currency ≡ target)
      × (has_expired now f.expires_at ≡ false))
    × Backed now target utxos is fs
