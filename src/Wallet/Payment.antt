-- ===== src/Wallet/Payment.antt =====
-- `Wallet.build_payment` and what it reads and writes: utxos.json, as the last synchronisation left
-- it, and pending_spends.json. Tokens are in cents.
use project_hamilton.Base.{
  ℕ, ◌+◌, ◌-◌, ◌*◌, ◌^◌, ◌≤◌, Bool, true, false, none, List, [], ◌∷◌, Text, text_dec, ite, dec_lt,
  dec_le, contains, ⊤, map,
}
use project_hamilton.Base.Money.{add_money, round}
use project_hamilton.Base.Decimal.{Decimal}
use project_hamilton.Base.Action.{Action, pure, throw, require, modify, ◌>>=◌, ◌>>◌}
use project_hamilton.Models.Types.{
  IdKind, str_id, uuid_id, Currency, currency_dec, Utxo, TransactionInput, TransactionOutput,
  Transaction, pending,
}
use project_hamilton.Models.Validate.{ModelError, Checked, valid, invalid, check_output}
use project_hamilton.Stores.Hash.{text_then}

-- The two files; a file that does not exist reads as an empty list.
pub record Files : Type 0 where
  pub utxos : List Utxo
  pub locked : List Text

-- `ValueError("Insufficient balance")`, what the models raise, the TypeError of `json.dump`, and a
-- missing token.
pub data WalletError : Type 0 where
  insufficient_balance type_error missing_utxo : WalletError
  model_error : ModelError → WalletError

abbrev pub Act : Type 0 → Type 0
Act = Action Files WalletError

-- `locked.update(token_ids)`
unfoldable pub update_locked : List Text → List Text → List Text
update_locked [] locked = locked
update_locked (t ∷ ts) locked =
    update_locked ts (elim (contains text_dec t locked) [ true ↦ locked | false ↦ t ∷ locked ])

-- `json.dump` takes identifiers that are str, and refuses a UUID object with a TypeError.
unfoldable pub all_listed : List Utxo → Bool
all_listed [] = true
all_listed (u ∷ us) = text_then u.id_kind (all_listed us)

unfoldable pub check_listed : Bool → Act ⊤
check_listed true = pure tt
check_listed false = throw type_error

-- `_lock_tokens` of the identifiers of the tokens; the file is replaced once all is printed.
unfoldable pub lock_tokens : List Utxo → Act ⊤
lock_tokens us = do
  check_listed (all_listed us)
  modify (λ f. record f { locked = update_locked (map (λ u. u.token_id) us) f.locked })

-- `u.token_id in locked_tokens`, where the file has given a set of str: no UUID object is in it.
unfoldable pub is_listed : IdKind → Text → List Text → Bool
is_listed str_id tid locked = contains text_dec tid locked
is_listed uuid_id tid locked = false

-- `[u for u in utxos if u.currency == currency and u.token_id not in locked_tokens]`
unfoldable pub available : Currency → List Text → List Utxo → List Utxo
available currency locked [] = []
available currency locked (u ∷ us) =
    let rest = available currency locked us in
    ite (currency_dec u.currency currency)
      (elim (is_listed u.id_kind u.token_id locked) [ true ↦ rest | false ↦ u ∷ rest ]) rest

-- `sort(key=amount, reverse=True)`, which keeps the order of equal amounts.
unfoldable pub insert_sorted : Utxo → List Utxo → List Utxo
insert_sorted u [] = u ∷ []
insert_sorted u (v ∷ vs) = elim (dec_le v.amount u.amount) [
  | yes _ ↦ u ∷ v ∷ vs
  | no _ ↦ v ∷ insert_sorted u vs
]

unfoldable pub sort_largest : List Utxo → List Utxo
sort_largest [] = []
sort_largest (u ∷ us) = insert_sorted u (sort_largest us)

-- `total >= amount`, the total being in cents.
abbrev pub Covers : ℕ → Decimal → Type 0
Covers total amount = amount.digits * 100 ≤ total * 10 ^ amount.places

abbrev pub covers_dec : (total : ℕ) (amount : Decimal) → Dec (Covers total amount)
covers_dec total amount = dec_le (amount.digits * 100) (total * 10 ^ amount.places)

-- The loop that chooses: the tokens, and their `total`.
unfoldable pub choose : Decimal → ℕ → List Utxo → List Utxo × ℕ
choose amount total [] = ([], total)
choose amount total (u ∷ us) =
    let total' = add_money total u.amount in
    elim (covers_dec total' amount) [
      | yes _ ↦ (u ∷ [], total')
      | no _ ↦ let rest = choose amount total' us in (u ∷ rest.0, rest.1)
    ]

-- `TransactionInput(...)`, whose field makes a UUID object of the identifier.
abbrev pub unsigned_input : Utxo → TransactionInput
unsigned_input u = record {
  token_id = u.token_id;
  id_kind = uuid_id;
  signature = [];
  unlock_script = none;
}

-- `TransactionOutput(...)`
abbrev pub payment_output : Decimal → Currency → Text → Checked TransactionOutput
payment_output amount currency owner =
    check_output (record {
      amount = amount;
      currency = currency;
      owner_public_key = owner;
      lock_script = none;
    })

-- `total - amount`, rounded to 28 digits.
abbrev pub change_of : ℕ → Decimal → Decimal
change_of total amount = record {
  digits = round (total * 10 ^ amount.places - amount.digits * 100);
  places = amount.places + 2;
}

unfoldable pub single : Checked TransactionOutput → Checked (List TransactionOutput)
single (valid o) = valid (o ∷ [])
single (invalid e) = invalid e

-- `if change > 0`
unfoldable pub change_outputs : Decimal → Currency → Text → Checked (List TransactionOutput)
change_outputs change currency my_key =
    ite (dec_lt 0 change.digits) (single (payment_output change currency my_key)) (valid [])

-- The first output, and what follows unless it raises.
unfoldable pub output_then :
    Checked TransactionOutput → Checked (List TransactionOutput) → Checked (List TransactionOutput)
output_then (invalid e) rest = invalid e
output_then (valid o) (invalid e) = invalid e
output_then (valid o) (valid os) = valid (o ∷ os)

-- `outputs`
unfoldable pub payment_outputs :
    Decimal → Currency → Text → Text → ℕ → Checked (List TransactionOutput)
payment_outputs amount currency merchant_key my_key total =
    output_then (payment_output amount currency merchant_key)
      (change_outputs (change_of total amount) currency my_key)

unfoldable pub accept_outputs : Checked (List TransactionOutput) → Act (List TransactionOutput)
accept_outputs (valid os) = pure os
accept_outputs (invalid e) = throw (model_error e)

-- `Transaction(...)`, whose status is the default. Its validators have nothing to refuse: there are
-- inputs, since the amount is above 0, and the outputs have one currency.
abbrev pub payment_transaction : Text → List Utxo → List TransactionOutput → Transaction
payment_transaction tx_id chosen outputs = record {
  transaction_id = tx_id;
  id_kind = uuid_id;
  inputs = map unsigned_input chosen;
  outputs = outputs;
  fee = 0;
  status = pending;
}

-- What follows the choice.
unfoldable pub pay_chosen :
    Text → Text → Text → Decimal → Currency → List Utxo × ℕ → Act Transaction
pay_chosen my_key tx_id merchant_key amount currency (chosen, total) = do
  require (covers_dec total amount) insufficient_balance
  outputs ← accept_outputs (payment_outputs amount currency merchant_key my_key total)
  lock_tokens chosen
  pure (payment_transaction tx_id chosen outputs)

-- `build_payment` of a finite amount of zero or more; `my_key` is `public_key_str()`, and `tx_id`
-- the fresh identifier of `uuid.uuid4()`.
unfoldable pub build_payment : Text → Text → Text → Decimal → Currency → Act Transaction
build_payment my_key tx_id merchant_key amount currency files =
    pay_chosen my_key tx_id merchant_key amount currency
      (choose amount 0 (sort_largest (available currency files.locked files.utxos))) files

-- `sum(...)` of `balance`, over the tokens that are locked, or that are not.
unfoldable pub sum_amounts : ℕ → List Utxo → ℕ
sum_amounts total [] = total
sum_amounts total (u ∷ us) = sum_amounts (add_money total u.amount) us

unfoldable pub locked_tokens : Currency → List Text → List Utxo → List Utxo
locked_tokens currency locked [] = []
locked_tokens currency locked (u ∷ us) =
    let rest = locked_tokens currency locked us in
    ite (currency_dec u.currency currency)
      (elim (is_listed u.id_kind u.token_id locked) [ true ↦ u ∷ rest | false ↦ rest ]) rest

-- The two numbers that `balance` prints.
unfoldable pub balance : Currency → Files → ℕ × ℕ
balance currency files = (
  sum_amounts 0 (available currency files.locked files.utxos),
  sum_amounts 0 (locked_tokens currency files.locked files.utxos),
)
