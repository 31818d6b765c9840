-- ===== src/Wallet/Sign.antt =====
-- `Wallet.sign`.
use project_hamilton.Base.{ℕ, ⊤, Bool, true, false, List, [], ◌∷◌, Text, text}
use project_hamilton.Base.Json.{
  Json, str, arr, obj, end, field, compact, dumps, sort_keys, str_amount,
}
use project_hamilton.Base.Action.{throw, pure, gets, or_throw, ◌>>=◌, ◌>>◌}
use project_hamilton.Models.Types.{mapped, of_kind, Utxo, TransactionInput, Transaction}
use project_hamilton.Stores.Hash.{text_then, all_texts, input_items, output_items, sig_payload}
use project_hamilton.Wallet.Payment.{missing_utxo, type_error, Act}

-- SHA-256, and `CryptoUtils.sign_data` under the private key of the wallet.
pub record Env : Type 0 where
  pub sha256_hex : List ℕ → Text
  pub sign_data : List ℕ → Text

-- `tx_intent`: unlike that of the stores, it has the identifier of the transaction.
unfoldable pub signed_intent : Transaction → Json
signed_intent tx = obj (
    field (text "transaction_id") (str tx.transaction_id) (
      field (text "inputs") (arr (input_items tx.inputs)) (
        field (text "outputs") (arr (output_items tx.outputs))
          (field (text "fee") (str (str_amount tx.fee)) end))))

-- `tx_hash`
unfoldable pub signed_hash : Env → Transaction → Text
signed_hash env tx = env.sha256_hex (dumps compact (sort_keys (signed_intent tx)))

-- The TypeError that `json.dumps` raises for a UUID object in `tx_intent`.
unfoldable pub check_intent : Bool → Act ⊤
check_intent true = pure tt
check_intent false = throw type_error

-- One round of the loop over `tx.inputs`.
unfoldable pub sign_input : Env → Text → List Utxo → TransactionInput → Act TransactionInput
sign_input env tx_hash utxos inp = do
  utxo ← or_throw (mapped inp.token_id (of_kind inp.id_kind utxos)) missing_utxo
  pure (record inp { signature = env.sign_data (sig_payload tx_hash utxo.token_id) })

unfoldable pub sign_inputs :
    Env → Text → List Utxo → List TransactionInput → Act (List TransactionInput)
sign_inputs env tx_hash utxos [] = pure []
sign_inputs env tx_hash utxos (i ∷ is) = do
  first ← sign_input env tx_hash utxos i
  rest ← sign_inputs env tx_hash utxos is
  pure (first ∷ rest)

-- `sign`, once the password has unlocked the key.
unfoldable pub sign : Env → Transaction → Act Transaction
sign env tx = do
  utxos ← gets (λ f. f.utxos)
  check_intent (text_then tx.id_kind (all_texts tx.inputs))
  signed ← sign_inputs env (signed_hash env tx) utxos tx.inputs
  pure (record tx { inputs = signed })
