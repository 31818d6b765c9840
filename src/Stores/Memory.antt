-- ===== src/Stores/Memory.antt =====
-- `MemoryUTXOLedger`. Fetching and committing are its two sections under the lock; what stands
-- before and between them reads the transaction and the fetched tokens only.
use project_hamilton.Base.{
  ℕ, suc, Bool, true, false, Option, none, some, List, [], ◌∷◌, Text, text_dec, ite, dec_lt, dec_le,
  ℕ_discrete, length, has_duplicate, contains, ⊤, map,
}
use project_hamilton.Base.Money.{add_money}
use project_hamilton.Base.Action.{
  pure, throw, gets, or_throw, require, refuse, refuse_if, modify, ◌>>=◌, ◌>>◌,
}
use project_hamilton.Models.Types.{
  IdKind, str_id, uuid_id, mapped, of_kind, Currency, currency_dec, Utxo, TransactionInput,
  TransactionOutput, Transaction,
}
use project_hamilton.Stores.State.{
  Ledger, LedgerError, tx_validation, double_spend, key_error, type_error, Act, get_token,
  drop_token, put_token, no_inputs_or_outputs, exceeds_bounds, negative_fee, invalid_amount,
  id_mismatch, duplicate_inputs, already_processed, missing_utxo, missing_mapping, mixed_currency,
  utxo_expired, lock_script_unsupported, bad_signature, output_currency, ledger_imbalance,
  processed_concurrently, spent_concurrently,
}
use project_hamilton.Stores.Index.{owner_bucket, index_discard, index_add}
use project_hamilton.Stores.Hash.{Env, all_texts, compute_tx_hash, sig_payload}

abbrev pub max_tx_inputs : ℕ
max_tx_inputs = 100

abbrev pub max_tx_outputs : ℕ
max_tx_outputs = 100

abbrev pub max_history_size : ℕ
max_history_size = 100000

-- `__init__`; `none` is its ValueError.
unfoldable pub new_ledger : Text → Option Ledger
new_ledger [] = none
new_ledger (c ∷ key) =
    some (record { fee_collector = c ∷ key; utxos = []; owner_index = []; processed_txs = [] })

-- `get_utxo`
unfoldable pub get_utxo : Text → Ledger → Option Utxo
get_utxo token_id l = get_token token_id l.utxos

-- `if not xs`
unfoldable pub is_empty : {A : Type 0} → List A → Bool
is_empty [] = true
is_empty (x ∷ xs) = false

-- `if out.amount <= 0`, for some output.
unfoldable pub check_amounts : List TransactionOutput → Act ⊤
check_amounts [] = pure tt
check_amounts (o ∷ os) =
    refuse (dec_le o.amount 0) (tx_validation invalid_amount) >> check_amounts os

-- The checks that read the transaction only.
unfoldable pub check_shape : Transaction → Act ⊤
check_shape tx = do
  refuse_if (is_empty tx.inputs) (tx_validation no_inputs_or_outputs)
  refuse_if (is_empty tx.outputs) (tx_validation no_inputs_or_outputs)
  refuse (dec_lt max_tx_inputs (length tx.inputs)) (tx_validation exceeds_bounds)
  refuse (dec_lt max_tx_outputs (length tx.outputs)) (tx_validation exceeds_bounds)
  refuse (dec_lt tx.fee 0) (tx_validation negative_fee)
  check_amounts tx.outputs

-- `if getattr(tx, "transaction_id", None) and tx.transaction_id != derived_tx_id`; a UUID object is
-- not equal to the text of the hash.
unfoldable pub check_id : IdKind → Text → Text → Act ⊤
check_id kind [] derived = pure tt
check_id str_id (c ∷ given) derived =
    require (text_dec (c ∷ given) derived) (tx_validation id_mismatch)
check_id uuid_id (c ∷ given) derived = throw (tx_validation id_mismatch)

-- The TypeError that `json.dumps` raises in `_compute_tx_hash`.
unfoldable pub check_texts : Bool → Act ⊤
check_texts true = pure tt
check_texts false = throw type_error

unfoldable pub input_ids : Transaction → List Text
input_ids tx = map (λ i. i.token_id) tx.inputs

-- `if tx.transaction_id in self.processed_txs`
unfoldable pub refuse_processed : Text → LedgerError → Act ⊤
refuse_processed tx_id e l = refuse_if (contains text_dec tx_id l.processed_txs) e l

unfoldable pub fetch_inputs : List Text → Act (List Utxo)
fetch_inputs [] = pure []
fetch_inputs (tid ∷ tids) = do
  found ← gets (λ l. get_token tid l.utxos)
  utxo ← or_throw found (double_spend missing_utxo)
  rest ← fetch_inputs tids
  pure (utxo ∷ rest)

-- `expires_at and expires_at < now`
unfoldable pub is_expired : ℕ → Option ℕ → Bool
is_expired now none = false
is_expired now (some t) = elim (dec_lt t now) [ yes _ ↦ true | no _ ↦ false ]

-- `if underlying_utxo.lock_script`
unfoldable pub is_locked : Option Text → Bool
is_locked none = false
is_locked (some []) = false
is_locked (some (c ∷ s)) = true

-- `not CryptoUtils.verify_signature(...)`
unfoldable pub check_signature : Env → Text → Utxo → Text → Act ⊤
check_signature env tx_hash u signature =
    elim (env.verify u.owner_public_key (sig_payload tx_hash u.token_id) signature) [
      | true ↦ pure tt
      | false ↦ throw (tx_validation bad_signature)
    ]

-- One round of the loop over `tx.inputs`: the amount of its token.
unfoldable pub check_input : Env → ℕ → Text → Currency → List Utxo → TransactionInput → Act ℕ
check_input env now tx_hash target inputs inp = do
  u ← or_throw (mapped inp.token_id (of_kind inp.id_kind inputs)) (tx_validation missing_mapping)
  require (currency_dec u.currency target) (tx_validation mixed_currency)
  refuse_if (is_expired now u.expires_at) (tx_validation utxo_expired)
  refuse_if (is_locked u.lock_script) (tx_validation lock_script_unsupported)
  check_signature env tx_hash u inp.signature
  pure u.amount

-- The loop; `total` is `total_in`.
unfoldable pub sum_inputs :
    Env → ℕ → Text → Currency → List Utxo → ℕ → List TransactionInput → Act ℕ
sum_inputs env now tx_hash target inputs total [] = pure total
sum_inputs env now tx_hash target inputs total (i ∷ is) = do
  amount ← check_input env now tx_hash target inputs i
  sum_inputs env now tx_hash target inputs (add_money total amount) is

-- The loop over `tx.outputs`; `total` is `total_out`.
unfoldable pub sum_outputs : Currency → ℕ → List TransactionOutput → Act ℕ
sum_outputs target total [] = pure total
sum_outputs target total (o ∷ os) = do
  require (currency_dec o.currency target) (tx_validation output_currency)
  sum_outputs target (add_money total o.amount) os

-- `_validate_tx_intent`, with the currency of `inputs[0]`.
unfoldable pub validate_against : Env → ℕ → Transaction → List Utxo → Text → Currency → Act ⊤
validate_against env now tx inputs tx_hash target = do
  total_in ← sum_inputs env now tx_hash target inputs 0 tx.inputs
  total_out ← sum_outputs target 0 tx.outputs
  require (ℕ_discrete total_in (add_money total_out tx.fee)) (tx_validation ledger_imbalance)

-- `_validate_tx_intent`; `inputs[0]` raises an IndexError on an empty list, which is not passed.
unfoldable pub validate_tx_intent : Env → ℕ → Transaction → List Utxo → Text → Act ⊤
validate_tx_intent env now tx [] tx_hash = throw key_error
validate_tx_intent env now tx (u ∷ us) tx_hash =
    validate_against env now tx (u ∷ us) tx_hash u.currency

-- `apply_transaction` up to the second section: the fetched tokens.
unfoldable pub prepare : Env → ℕ → Transaction → Act (List Utxo)
prepare env now tx = do
  check_shape tx
  check_texts (all_texts tx.inputs)
  check_id tx.id_kind tx.transaction_id (compute_tx_hash env tx)
  refuse_if (has_duplicate text_dec (input_ids tx)) (tx_validation duplicate_inputs)
  refuse_processed (compute_tx_hash env tx) (tx_validation already_processed)
  fetched ← fetch_inputs (input_ids tx)
  validate_tx_intent env now tx fetched (compute_tx_hash env tx)
  pure fetched

-- `if tid not in self.utxos`
unfoldable pub check_present : List Text → Act ⊤
check_present [] = pure tt
check_present (tid ∷ tids) = do
  found ← gets (λ l. get_token tid l.utxos)
  utxo ← or_throw found (double_spend spent_concurrently)
  check_present tids

-- `self.utxos.pop(tid)`, and the index.
unfoldable pub spend_token : Text → Act ⊤
spend_token tid = do
  found ← gets (λ l. get_token tid l.utxos)
  utxo ← or_throw found key_error
  modify (λ l. record l {
    utxos = drop_token tid l.utxos;
    owner_index = index_discard utxo.owner_public_key tid l.owner_index;
  })

unfoldable pub spend_tokens : List Text → Act ⊤
spend_tokens [] = pure tt
spend_tokens (tid ∷ tids) = spend_token tid >> spend_tokens tids

-- A new token and its entry in the index.
unfoldable pub insert_token : Utxo → Act ⊤
insert_token u = modify (λ l. record l {
  utxos = put_token u l.utxos;
  owner_index = index_add u.owner_public_key u.token_id l.owner_index;
})

-- `UTXO(...)` of an output: its key is a str, and its own identifier the UUID object that the
-- field makes of it; `now` is its `created_at`.
unfoldable pub output_token : ℕ → Text → TransactionOutput → Utxo
output_token now tid o = record {
  token_id = tid;
  id_kind = uuid_id;
  amount = o.amount;
  currency = o.currency;
  owner_public_key = o.owner_public_key;
  lock_script = o.lock_script;
  created_at = now;
  expires_at = none;
}

-- `fresh k` is the identifier of the call of `uuid.uuid4()` after `k` calls.
unfoldable pub insert_outputs : ℕ → (ℕ → Text) → ℕ → List TransactionOutput → Act ⊤
insert_outputs now fresh k [] = pure tt
insert_outputs now fresh k (o ∷ os) =
    insert_token (output_token now (fresh k) o) >> insert_outputs now fresh (suc k) os

unfoldable pub fee_token : ℕ → Text → ℕ → Currency → Text → Utxo
fee_token now tid fee currency owner = record {
  token_id = tid;
  id_kind = uuid_id;
  amount = fee;
  currency = currency;
  owner_public_key = owner;
  lock_script = some [];
  created_at = now;
  expires_at = none;
}

-- `if tx.fee > 0`
unfoldable pub insert_fee : ℕ → Text → ℕ → List Utxo → Act ⊤
insert_fee now tid fee [] l = elim (dec_lt 0 fee) [ yes _ ↦ throw key_error l | no _ ↦ pure tt l ]
insert_fee now tid fee (u ∷ us) l = elim (dec_lt 0 fee) [
  | yes _ ↦ insert_token (fee_token now tid fee u.currency l.fee_collector) l
  | no _ ↦ pure tt l
]

-- The list without its last element.
unfoldable pub drop_oldest : List Text → List Text
drop_oldest [] = []
drop_oldest (x ∷ []) = []
drop_oldest (x ∷ y ∷ ys) = x ∷ drop_oldest (y ∷ ys)

-- The history keeps the newest `max_history_size` transactions.
unfoldable pub bound_history : List Text → List Text
bound_history txs = ite (dec_lt max_history_size (length txs)) (drop_oldest txs) txs

unfoldable pub record_processed : Text → Act ⊤
record_processed tx_id =
    modify (λ l. record l { processed_txs = bound_history (tx_id ∷ l.processed_txs) })

-- The second section under the lock.
unfoldable pub commit : Env → ℕ → (ℕ → Text) → Transaction → List Utxo → Act Text
commit env now fresh tx fetched = do
  refuse_processed (compute_tx_hash env tx) (double_spend processed_concurrently)
  check_present (input_ids tx)
  spend_tokens (input_ids tx)
  insert_outputs now fresh 0 tx.outputs
  insert_fee now (fresh (length tx.outputs)) tx.fee fetched
  record_processed (compute_tx_hash env tx)
  pure (compute_tx_hash env tx)

-- `apply_transaction`, when no other thread runs between its two sections.
unfoldable pub apply_transaction : Env → ℕ → (ℕ → Text) → Transaction → Act Text
apply_transaction env now fresh tx = do
  fetched ← prepare env now tx
  commit env now fresh tx fetched

-- A token that is there counts, in its currency and before it expires.
unfoldable pub counted_in : ℕ → Currency → ℕ → Option Utxo → ℕ
counted_in now currency total none = total
counted_in now currency total (some u) =
    ite (currency_dec u.currency currency)
      (elim u.expires_at [
        | none ↦ add_money total u.amount
        | some t ↦ ite (dec_lt now t) (add_money total u.amount) total
      ])
      total

-- The loop of `get_balance` over the identifiers of the owner.
unfoldable pub balance_of : ℕ → Currency → List Utxo → ℕ → List Text → ℕ
balance_of now currency us total [] = total
balance_of now currency us total (tid ∷ tids) =
    balance_of now currency us (counted_in now currency total (get_token tid us)) tids

-- `get_balance`
unfoldable pub get_balance : ℕ → Text → Currency → Ledger → ℕ
get_balance now public_key currency l =
    balance_of now currency l.utxos 0 (owner_bucket public_key l.owner_index)
