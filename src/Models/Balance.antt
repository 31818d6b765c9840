-- ===== src/Models/Balance.antt =====
-- `verify_economic_validity` returns exactly if the inputs are backed and no value is lost.
use project_hamilton.Base.{ℕ, ◌+◌, ◌<◌, ◌≡◌, List, ◌∷◌, length, arith}
use project_hamilton.Base.Money.{limit}
use project_hamilton.Base.Action.{ok}
use project_hamilton.Models.Types.{Utxo, TransactionOutput, Transaction}
use project_hamilton.Models.Economics.{verify_values, verify_economic_validity, Backed}
use project_hamilton.Stores.Sums.{token_sum, output_sum}

-- What a valid transaction is: as many tokens as inputs, each input backed by the token of its
-- identifier, in the currency of the outputs and not expired, and the backing tokens worth the
-- outputs and the fee.
pub record IsEconomic (now : ℕ) (utxos : List Utxo) (tx : Transaction) (o : TransactionOutput)
    : Type 0 where
  pub count : length utxos ≡ length tx.inputs
  pub tokens : List Utxo
  pub backed : Backed now o.currency utxos tx.inputs tokens
  pub conserved : token_sum tokens ≡ output_sum tx.outputs + tx.fee

module _ (now : ℕ) (utxos : List Utxo) (tx : Transaction) (o : TransactionOutput)
    (os : List TransactionOutput) (outs : tx.outputs ≡ o ∷ os)
    (small : output_sum tx.outputs + tx.fee < limit) where
  counted :
      verify_economic_validity now utxos tx tt ≡ (ok tt, tt)
      → (length utxos ≡ length tx.inputs) × (verify_values now utxos tx tx.outputs tt ≡ (ok tt, tt))
  unfolding verify_economic_validity
  counted h = ground arith
