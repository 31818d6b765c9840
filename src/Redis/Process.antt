-- ===== src/Redis/Process.antt =====
-- `process_transaction`: the checks, what is read under WATCH, and what is written by EXEC.
use project_hamilton.Base.{
  ℕ, suc, refl, ap, ◌+◌, ◌*◌, Bool, true, false, Option, none, some, List, [], ◌∷◌, Text, text_dec,
  ite, dec_lt, dec_le, ℕ_discrete, length, has_duplicate, ⊤, map,
}
use project_hamilton.Base.Money.{add_money}
use project_hamilton.Base.Action.{
  Action, pure, throw, gets, or_throw, require, refuse, refuse_if, modify, ◌>>=◌, ◌>>◌,
}
use project_hamilton.Models.Types.{
  IdKind, str_id, uuid_id, mapped, of_kind, Currency, currency_dec, Utxo, TransactionInput,
  TransactionOutput, Transaction,
}
use project_hamilton.Stores.State.{
  LedgerError, tx_validation, double_spend, key_error, type_error, validation_error,
  no_inputs_or_outputs, exceeds_bounds, negative_fee, invalid_amount, id_mismatch, duplicate_inputs,
  already_processed, missing_utxo, missing_mapping, mixed_currency, utxo_expired, bad_signature,
  output_currency, ledger_imbalance, watch_conflict,
}
use project_hamilton.Stores.Index.{index_discard, index_add}
use project_hamilton.Stores.Hash.{Env, all_texts, compute_tx_hash, sig_payload}
use project_hamilton.Stores.Memory.{max_tx_inputs, max_tx_outputs, is_empty, input_ids, is_expired}
use project_hamilton.Redis.State.{
  Stored, Store, Act, get_stored, delete_stored, set_stored, tx_exists, parse_utxo, print_utxo,
}

-- A check that reads no key.
abbrev pub Check : Type 0 → Type 0
Check = Action ⊤ LedgerError

abbrev pub checked : {A : Type 0} → Check A → Act A
checked c s = ((c tt).0, s)

unfoldable pub kind_dec : Discrete IdKind
kind_dec str_id str_id = yes refl
kind_dec str_id uuid_id = no (λ e. cc)
kind_dec uuid_id str_id = no (λ e. cc)
kind_dec uuid_id uuid_id = yes refl

-- Two identifiers are equal if they are of one kind and have the same text.
unfoldable pub same_input : Discrete (IdKind × Text)
same_input (k, t) (k', t') = elim (kind_dec k k') [
  | no ne ↦ no (λ e. ne (ap (λ p. p.0) e))
  | yes e ↦ elim (text_dec t t') [
    | yes e' ↦ yes (cc (e, e'))
    | no ne ↦ no (λ e''. ne (ap (λ p. p.1) e''))
  ]
]

-- `input_ids`, with what they are.
unfoldable pub input_values : Transaction → List (IdKind × Text)
input_values tx = map (λ i. (i.id_kind, i.token_id)) tx.inputs

-- `if getattr(tx, "transaction_id", None) and tx.transaction_id != derived_tx_id`; a UUID object is
-- not equal to the text of the hash.
unfoldable pub check_tx_id : IdKind → Text → Text → Check ⊤
check_tx_id kind [] derived = pure tt
check_tx_id str_id (c ∷ given) derived =
    require (text_dec (c ∷ given) derived) (tx_validation id_mismatch)
check_tx_id uuid_id (c ∷ given) derived = throw (tx_validation id_mismatch)

-- The TypeError that `json.dumps` raises in `_compute_tx_hash`.
unfoldable pub check_dumps : Bool → Check ⊤
check_dumps true = pure tt
check_dumps false = throw type_error

-- What stands before WATCH.
unfoldable pub check_request : Env → Transaction → Check ⊤
check_request env tx = do
  refuse_if (is_empty tx.inputs) (tx_validation no_inputs_or_outputs)
  refuse_if (is_empty tx.outputs) (tx_validation no_inputs_or_outputs)
  refuse (dec_lt max_tx_inputs (length tx.inputs)) (tx_validation exceeds_bounds)
  refuse (dec_lt max_tx_outputs (length tx.outputs)) (tx_validation exceeds_bounds)
  refuse_if (has_duplicate same_input (input_values tx)) (tx_validation duplicate_inputs)
  check_dumps (all_texts tx.inputs)
  check_tx_id tx.id_kind tx.transaction_id (compute_tx_hash env tx)

-- `not CryptoUtils.verify_signature(...)`
unfoldable pub check_signed : Env → Text → Utxo → Text → Check ⊤
check_signed env tx_hash u signature =
    elim (env.verify u.owner_public_key (sig_payload tx_hash u.token_id) signature) [
      | true ↦ pure tt
      | false ↦ throw (tx_validation bad_signature)
    ]

-- One round of the loop over `tx.inputs`: the amount of its token. No lock script is read.
unfoldable pub check_spent : Env → ℕ → Text → Currency → List Utxo → TransactionInput → Check ℕ
check_spent env now tx_hash target inputs inp = do
  u ← or_throw (mapped inp.token_id (of_kind inp.id_kind inputs)) (tx_validation missing_mapping)
  require (currency_dec u.currency target) (tx_validation mixed_currency)
  refuse_if (is_expired now u.expires_at) (tx_validation utxo_expired)
  check_signed env tx_hash u inp.signature
  pure u.amount

-- The loop; `total` is `total_in`.
unfoldable pub sum_spent :
    Env → ℕ → Text → Currency → List Utxo → ℕ → List TransactionInput → Check ℕ
sum_spent env now tx_hash target inputs total [] = pure total
sum_spent env now tx_hash target inputs total (i ∷ is) = do
  amount ← check_spent env now tx_hash target inputs i
  sum_spent env now tx_hash target inputs (add_money total amount) is

-- The loop over `tx.outputs`; `total` is `total_out`.
unfoldable pub sum_created : Currency → ℕ → List TransactionOutput → Check ℕ
sum_created target total [] = pure total
sum_created target total (o ∷ os) = do
  require (currency_dec o.currency target) (tx_validation output_currency)
  refuse (dec_le o.amount 0) (tx_validation invalid_amount)
  sum_created target (add_money total o.amount) os

-- `_validate_tx_intent`, with the currency of `inputs[0]`.
unfoldable pub validate_currency : Env → ℕ → Transaction → List Utxo → Text → Currency → Check ⊤
validate_currency env now tx inputs tx_hash target = do
  total_in ← sum_spent env now tx_hash target inputs 0 tx.inputs
  total_out ← sum_created target 0 tx.outputs
  refuse (dec_lt tx.fee 0) (tx_validation negative_fee)
  require (ℕ_discrete total_in (add_money total_out tx.fee)) (tx_validation ledger_imbalance)

-- `_validate_tx_intent`; `inputs[0]` raises an IndexError on an empty list, which is not passed.
unfoldable pub validate_intent : Env → ℕ → Transaction → List Utxo → Text → Check ⊤
validate_intent env now tx [] tx_hash = throw key_error
validate_intent env now tx (u ∷ us) tx_hash =
    validate_currency env now tx (u ∷ us) tx_hash u.currency

-- `MGET`, and `none` where some value is missing.
unfoldable pub mget : List Text → List Stored → Option (List Stored)
mget [] ds = some []
mget (t ∷ ts) ds = elim (get_stored t ds) [
  | none ↦ none
  | some d ↦ elim (mget ts ds) [ none ↦ none | some rest ↦ some (d ∷ rest) ]
]

-- `[self._parse_utxo(raw) for raw in raw_inputs]`
unfoldable pub parse_all : (Text → Bool) → ℕ → List Stored → Check (List Utxo)
parse_all is_uuid4 now [] = pure []
parse_all is_uuid4 now (d ∷ ds) = do
  u ← or_throw (parse_utxo is_uuid4 now d) validation_error
  us ← parse_all is_uuid4 now ds
  pure (u ∷ us)

-- What stands between WATCH and MULTI: the parsed inputs.
unfoldable pub read_inputs : Env → (Text → Bool) → ℕ → Transaction → Act (List Utxo)
read_inputs env is_uuid4 now tx = do
  processed ← gets (λ s. tx_exists now (compute_tx_hash env tx) s.txs)
  refuse_if processed (tx_validation already_processed)
  raw ← gets (λ s. mget (input_ids tx) s.utxos)
  found ← or_throw raw (double_spend missing_utxo)
  utxos ← checked (parse_all is_uuid4 now found)
  checked (validate_intent env now tx utxos (compute_tx_hash env tx))
  pure utxos

-- `ex=86400 * 7`, in microseconds.
abbrev pub seven_days : ℕ
seven_days = 604800 * 1000000

-- `DELETE` of the token and `SREM` from the set of its owner.
unfoldable pub delete_tokens : List Utxo → Store → Store
delete_tokens [] s = s
delete_tokens (u ∷ us) s = delete_tokens us (record s {
  utxos = delete_stored u.token_id s.utxos;
  owners = index_discard u.owner_public_key u.token_id s.owners;
})

-- `SET` of a token and `SADD` to the set of its owner.
unfoldable pub set_token : Stored → Store → Store
set_token d s = record s {
  utxos = set_stored d s.utxos;
  owners = index_add d.owner_public_key d.token_id s.owners;
}

unfoldable pub output_stored : Text → TransactionOutput → Stored
output_stored tid o = record {
  token_id = tid;
  amount = o.amount;
  currency = o.currency;
  owner_public_key = o.owner_public_key;
  lock_script = o.lock_script;
  created_at = none;
  expires_at = none;
}

-- `fresh k` is the identifier of the call of `uuid.uuid4()` after `k` calls.
unfoldable pub set_outputs : (ℕ → Text) → ℕ → List TransactionOutput → Store → Store
set_outputs fresh k [] s = s
set_outputs fresh k (o ∷ os) s =
    set_outputs fresh (suc k) os (set_token (output_stored (fresh k) o) s)

unfoldable pub fee_stored : Text → ℕ → Currency → Text → Stored
fee_stored tid fee currency owner = record {
  token_id = tid;
  amount = fee;
  currency = currency;
  owner_public_key = owner;
  lock_script = some [];
  created_at = none;
  expires_at = none;
}

-- `if tx.fee > 0`, in the currency of `utxos[0]`.
unfoldable pub set_fee : Text → ℕ → List Utxo → Store → Store
set_fee tid fee [] s = s
set_fee tid fee (u ∷ us) s =
    ite (dec_lt 0 fee) (set_token (fee_stored tid fee u.currency s.fee_collector) s) s

-- The commands that are queued after MULTI.
unfoldable pub queued : Env → ℕ → (ℕ → Text) → Transaction → List Utxo → Store → Store
queued env now fresh tx utxos s =
    let marked = record s { txs = (compute_tx_hash env tx, now + seven_days) ∷ s.txs } in
    let paid =
      set_fee (fresh (length tx.outputs)) tx.fee utxos
        (set_outputs fresh 0 tx.outputs (delete_tokens utxos marked)) in
    record paid {
      audit =
          record {
            tx_id = compute_tx_hash env tx;
            inputs = input_ids tx;
            outputs = tx.outputs;
            fee = tx.fee;
          }
          ∷ paid.audit;
    }

-- EXEC, which runs all commands or, if a watched key was touched since WATCH, none.
unfoldable pub execute : Bool → (Store → Store) → Act ⊤
execute true commands = throw (double_spend watch_conflict)
execute false commands = modify commands

-- What stands from MULTI on.
unfoldable pub write_transaction : Env → ℕ → (ℕ → Text) → Bool → Transaction → List Utxo → Act Text
write_transaction env now fresh touched tx utxos = do
  execute touched (queued env now fresh tx utxos)
  pure (compute_tx_hash env tx)

-- `process_transaction`, when no other client runs between its commands.
unfoldable pub process_transaction : Env → (Text → Bool) → ℕ → (ℕ → Text) → Transaction → Act Text
process_transaction env is_uuid4 now fresh tx = do
  checked (check_request env tx)
  utxos ← read_inputs env is_uuid4 now tx
  write_transaction env now fresh false tx utxos

-- The TypeError that `json.dumps` raises for a UUID object.
unfoldable pub check_printed : IdKind → Act ⊤
check_printed str_id = pure tt
check_printed uuid_id = throw type_error

-- `add_utxo`
unfoldable pub add_utxo : Utxo → Act Text
add_utxo u = do check_printed u.id_kind; modify (set_token (print_utxo u)); pure u.token_id
