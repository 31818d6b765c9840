-- ===== src/Models/Tests.antt =====
-- Each theorem at a concrete transaction.
use project_hamilton.Base.{◌≡◌, inr, none, [], ◌∷◌, text, arith, dec_lt, ℕ_discrete}
use project_hamilton.Base.Decimal.{nearest, quantize}
use project_hamilton.Models.Types.{
  uuid_id, inr, pending, Utxo, TransactionInput, TransactionOutput, Transaction,
}
use project_hamilton.Models.Validate.{valid, quantize_decimal, currency_amount}

abbrev input : TransactionInput
input = record { token_id = text "aa"; id_kind = uuid_id; signature = []; unlock_script = none }

abbrev output : TransactionOutput
output = record { amount = 5; currency = inr; owner_public_key = text "bob"; lock_script = none }

abbrev payment : Transaction
payment = record {
  transaction_id = text "id";
  id_kind = uuid_id;
  inputs = input ∷ [];
  outputs = output ∷ [];
  fee = 0;
  status = pending;
}

abbrev token : Utxo
token = record {
  token_id = text "aa";
  id_kind = uuid_id;
  amount = 5;
  currency = inr;
  owner_public_key = text "alice";
  lock_script = none;
  created_at = 0;
  expires_at = none;
}

accepted : currency_amount (record { digits = 1256; places = 3 }) ≡ valid 126
unfolding currency_amount quantize_decimal quantize nearest dec_lt ℕ_discrete
accepted = ground arith
