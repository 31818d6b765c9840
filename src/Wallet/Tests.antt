-- ===== src/Wallet/Tests.antt =====
-- A wallet of two tokens, and a payment from it.
mod Sessions
use project_hamilton.Base.{
  inr, none, List, [], ◌∷◌, ℕ, Text, text, text_dec, dec_lt, dec_le, ℕ_discrete, contains,
}
use project_hamilton.Base.Money.{add_money}
use project_hamilton.Base.Decimal.{Decimal}
use project_hamilton.Base.Action.{ok}
use project_hamilton.Models.Types.{uuid_id, inr, currency_dec, Utxo}
use project_hamilton.Stores.Sums.{token_sum}
use project_hamilton.Wallet.Payment.{Files, is_listed, available}

program : Unit {0}
unfolding is_listed available token_sum add_money currency_dec text_dec dec_lt dec_le ℕ_discrete
    contains
program = tt

abbrev coin : Text → ℕ → Utxo
coin tid amount = record {
  token_id = tid;
  id_kind = uuid_id;
  amount = amount;
  currency = inr;
  owner_public_key = text "me";
  lock_script = none;
  created_at = 0;
  expires_at = none;
}

abbrev wallet : Files
wallet = record {
  utxos = coin (text "aa") 500 ∷ coin (text "bb") 900 ∷ [];
  locked = text "aa" ∷ [];
}

-- A payment of 7.005.
abbrev amount : Decimal
amount = record { digits = 7005; places = 3 }
