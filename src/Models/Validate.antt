-- ===== src/Models/Validate.antt =====
-- The validators of the models: what pydantic accepts, and what it makes of the amounts. A field
-- whose type is its only constraint is taken as it is.
use project_hamilton.Base.{
  ℕ, Bool, true, false, Option, none, some, List, [], ◌∷◌, Text, text, text_dec, ite, dec_le,
  dec_lt, length,
}
use project_hamilton.Base.Decimal.{Decimal, quantize}
use project_hamilton.Base.Json.{Fields, obj, end, field, spaced, dumps}
use project_hamilton.Models.Types.{
  Currency, currency_dec, uuid_id, Utxo, TransactionInput, TransactionOutput, Transaction,
  TransactionStatus,
}

abbrev pub max_metadata_bytes : ℕ
max_metadata_bytes = 4096

abbrev pub max_script_length : ℕ
max_script_length = 2048

-- A `ValidationError`, or the InvalidOperation that a validator lets through.
pub data ModelError : Type 0 where
  validation_error invalid_operation : ModelError

pub data Checked (A : Type 0) : Type 0 where
  valid : A → Checked A
  invalid : ModelError → Checked A

-- Two fields: an InvalidOperation ends the validation, and other faults are collected.
unfoldable pub both : {A B : Type 0} → Checked A → Checked B → Checked (A × B)
both (valid a) (valid b) = valid (a, b)
both (valid a) (invalid e) = invalid e
both (invalid invalid_operation) b = invalid invalid_operation
both (invalid validation_error) (valid b) = invalid validation_error
both (invalid validation_error) (invalid e) = invalid e

-- A validator that runs if the ones before it accept.
unfoldable pub then_check : {A : Type 0} → Checked A → (A → Bool) → Checked A
then_check (valid a) test = elim (test a) [ true ↦ valid a | false ↦ invalid validation_error ]
then_check (invalid e) test = invalid e

-- `_quantize_decimal`
unfoldable pub quantize_decimal : Decimal → Checked ℕ
quantize_decimal d = elim (quantize d) [
  | some cents ↦ valid cents
  | none ↦ invalid invalid_operation
]

-- `CurrencyAmount`, above 0; a negative number is refused like 0.
unfoldable pub currency_amount : Decimal → Checked ℕ
currency_amount d = elim (dec_lt 0 d.digits) [
  | yes _ ↦ quantize_decimal d
  | no _ ↦ invalid validation_error
]

-- `FeeAmount`, of 0 or more.
unfoldable pub fee_amount : Decimal → Checked ℕ
fee_amount d = quantize_decimal d

-- `Field(default=None, max_length=MAX_SCRIPT_LENGTH)`
unfoldable pub script_fits : Option Text → Bool
script_fits none = true
script_fits (some s) = elim (dec_le (length s) max_script_length) [ yes _ ↦ true | no _ ↦ false ]

unfoldable pub check_script : Option Text → Checked (Option Text)
check_script s = then_check (valid s) script_fits

-- `validate_expiry`
unfoldable pub expiry_after : Utxo → Bool
expiry_after u = elim u.expires_at [
  | none ↦ true
  | some t ↦ elim (dec_lt u.created_at t) [ yes _ ↦ true | no _ ↦ false ]
]

unfoldable pub make_utxo :
    Text → Currency → Text → ℕ → Option ℕ → Checked (ℕ × Option Text) → Checked Utxo
make_utxo token_id currency owner created_at expires_at (invalid e) = invalid e
make_utxo token_id currency owner created_at expires_at (valid (amount, script)) =
    then_check
      (valid (record {
        token_id = token_id;
        id_kind = uuid_id;
        amount = amount;
        currency = currency;
        owner_public_key = owner;
        lock_script = script;
        created_at = created_at;
        expires_at = expires_at;
      }))
      expiry_after

-- `UTXO(...)`
unfoldable pub new_utxo_model :
    Text → Decimal → Currency → Text → Option Text → ℕ → Option ℕ → Checked Utxo
new_utxo_model token_id amount currency owner script created_at expires_at =
    make_utxo token_id currency owner created_at expires_at
      (both (currency_amount amount) (check_script script))

-- The fields of `TransactionOutput`, as they are sent.
pub record RawOutput : Type 0 where
  pub amount : Decimal
  pub currency : Currency
  pub owner_public_key : Text
  pub lock_script : Option Text

unfoldable pub make_output : RawOutput → Checked (ℕ × Option Text) → Checked TransactionOutput
make_output o (invalid e) = invalid e
make_output o (valid (amount, script)) = valid (record {
  amount = amount;
  currency = o.currency;
  owner_public_key = o.owner_public_key;
  lock_script = script;
})

unfoldable pub check_output : RawOutput → Checked TransactionOutput
check_output o = make_output o (both (currency_amount o.amount) (check_script o.lock_script))

unfoldable pub cons_checked : {A : Type 0} → Checked (A × List A) → Checked (List A)
cons_checked (valid (x, xs)) = valid (x ∷ xs)
cons_checked (invalid e) = invalid e

unfoldable pub check_outputs : List RawOutput → Checked (List TransactionOutput)
check_outputs [] = valid []
check_outputs (o ∷ os) = cons_checked (both (check_output o) (check_outputs os))

unfoldable pub check_inputs : List TransactionInput → Checked (List TransactionInput)
check_inputs [] = valid []
check_inputs (i ∷ is) = cons_checked (
    both (then_check (valid (record i { id_kind = uuid_id })) (λ x. script_fits x.unlock_script))
      (check_inputs is))

-- `min_length=1`
unfoldable pub at_least_one : {A : Type 0} → List A → Bool
at_least_one [] = false
at_least_one (x ∷ xs) = true

-- `"reserved" in v`
unfoldable pub has_reserved : Fields → Bool
has_reserved end = false
has_reserved (field k v fs) = ite (text_dec k (text "reserved")) true (has_reserved fs)

-- `validate_metadata_constraints`
unfoldable pub metadata_fits : Option Fields → Bool
metadata_fits none = true
metadata_fits (some fs) = elim (has_reserved fs) [
  | true ↦ false
  | false ↦ elim (dec_le (length (dumps spaced (obj fs))) max_metadata_bytes) [
    | yes _ ↦ true
    | no _ ↦ false
  ]
]

unfoldable pub all_of : Currency → List TransactionOutput → Bool
all_of c [] = true
all_of c (o ∷ os) = ite (currency_dec o.currency c) (all_of c os) false

-- `validate_currency_consistency`
unfoldable pub one_currency : List TransactionOutput → Bool
one_currency [] = true
one_currency (o ∷ os) = all_of o.currency (o ∷ os)

unfoldable pub make_transaction :
    Text
    → TransactionStatus
    → Checked (((List TransactionInput × List TransactionOutput) × ℕ) × Option Fields)
    → Checked Transaction
make_transaction tx_id status (invalid e) = invalid e
make_transaction tx_id status (valid (((inputs, outputs), fee), metadata)) =
    then_check
      (valid (record {
        transaction_id = tx_id;
        id_kind = uuid_id;
        inputs = inputs;
        outputs = outputs;
        fee = fee;
        status = status;
      }))
      (λ t. one_currency t.outputs)

-- `Transaction(...)`
unfoldable pub new_transaction :
    Text
    → List TransactionInput
    → List RawOutput
    → Decimal
    → TransactionStatus
    → Option Fields
    → Checked Transaction
new_transaction tx_id inputs outputs fee status metadata = make_transaction tx_id status (
    both
      (both
        (both (then_check (check_inputs inputs) at_least_one)
          (then_check (check_outputs outputs) at_least_one))
        (fee_amount fee))
      (then_check (valid metadata) metadata_fits))

-- `PaymentRequest.validate_future_expiry`
unfoldable pub future_expiry : ℕ → Option ℕ → Checked (Option ℕ)
future_expiry now expires_at =
    then_check (valid expires_at)
      (λ e. elim e [ none ↦ true | some t ↦ elim (dec_lt now t) [ yes _ ↦ true | no _ ↦ false ] ])
