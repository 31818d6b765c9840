-- ===== src/Stores/Tests.antt =====
-- A ledger of one token, the transaction that spends it, and each theorem there.
use project_hamilton.Base.{
  ℕ, ◌<◌, ◌≡◌, inr, refl, true, none, List, [], ◌∷◌, Text, text, text_dec, arith, dec_lt, dec_le,
  ℕ_discrete, All, contains, has_duplicate,
}
use project_hamilton.Base.Money.{limit, add_money}
use project_hamilton.Base.Action.{ok, raise}
use project_hamilton.Models.Types.{
  mapped, of_kind, same_kind, str_id, uuid_id, Currency, inr, usd, eur, currency_dec, pending, Utxo,
  Transaction,
}
use project_hamilton.Stores.State.{Ledger, LedgerError, get_token, drop_token, put_token}
use project_hamilton.Stores.Index.{index_add, index_discard}
use project_hamilton.Stores.Hash.{Env, text_then, all_texts, compute_tx_hash}
use project_hamilton.Stores.Memory.{
  is_empty, check_texts, check_shape, check_amounts, check_id, input_ids, refuse_processed,
  fetch_inputs, is_expired, is_locked, check_signature, check_input, sum_inputs, sum_outputs,
  validate_against, validate_tx_intent, prepare, check_present, spend_token, spend_tokens,
  insert_token, output_token, insert_outputs, insert_fee, drop_oldest, bound_history,
  record_processed, commit, apply_transaction,
}
use project_hamilton.Stores.Table.{IsUnique, Held, share, supply}
use project_hamilton.Stores.Intent.{AllSpendable}
use project_hamilton.Stores.Conserve.{IsFresh}
use project_hamilton.Stores.Apply.{apply_once, apply-spends}
use project_hamilton.Stores.Indexed.{owned_by, IsIndexed, apply-IsIndexed}
use project_hamilton.Stores.Index.{owner_bucket}
use project_hamilton.Stores.Threads.{Pending, System, IsFreshFor, start, finish, Reach, here, next}
use project_hamilton.Stores.Interleaved.{interleaved-conserves}

program : Unit {0}
unfolding check_texts text_then all_texts of_kind same_kind check_shape check_amounts check_id
    refuse_processed fetch_inputs is_expired is_locked check_signature check_input sum_inputs
    sum_outputs validate_against validate_tx_intent prepare check_present spend_token spend_tokens
    insert_token output_token insert_outputs insert_fee drop_oldest bound_history record_processed
    commit apply_transaction get_token drop_token put_token index_add index_discard compute_tx_hash
    input_ids is_empty mapped add_money currency_dec text_dec dec_lt dec_le ℕ_discrete contains
    has_duplicate supply share owned_by owner_bucket
program = tt

-- The hash of every transaction is the same, and every signature fits.
abbrev env : Env
env = record { sha256_hex = λ x. []; verify = λ k m s. true }

abbrev fresh : ℕ → Text
fresh k = k ∷ []

abbrev token : Utxo
token = record {
  token_id = text "aa";
  id_kind = str_id;
  amount = 5;
  currency = inr;
  owner_public_key = text "alice";
  lock_script = none;
  created_at = 0;
  expires_at = none;
}

abbrev ledger : Ledger
ledger = record {
  fee_collector = text "fees";
  utxos = token ∷ [];
  owner_index = (text "alice", text "aa" ∷ []) ∷ [];
  processed_txs = [];
}

abbrev payment : Transaction
payment = record {
  transaction_id = [];
  id_kind = str_id;
  inputs =
      record { token_id = text "aa"; id_kind = str_id; signature = []; unlock_script = none } ∷ [];
  outputs =
      record { amount = 4; currency = inr; owner_public_key = text "bob"; lock_script = none } ∷ [];
  fee = 1;
  status = pending;
}

ledger-IsUnique : IsUnique ledger.utxos
unfolding program
ledger-IsUnique = (refl, tt)

ledger-IsFresh : IsFresh fresh ledger.utxos
unfolding program
ledger-IsFresh = record { new = λ k. ground arith; distinct = λ j k e. cc }

ledger_small : (c : Currency) → supply c ledger.utxos < limit
unfolding program
ledger_small inr = omega arith
ledger_small usd = omega arith
ledger_small eur = omega arith

-- The ledger after the payment.
abbrev paid : Ledger
paid = (apply_transaction env 1 fresh payment ledger).1

paid_ok : apply_transaction env 1 fresh payment ledger ≡ (ok [], paid)
unfolding program
paid_ok = refl

apply_once_example :
    (e : LedgerError) × (apply_transaction env 7 (λ k. k ∷ k ∷ []) payment paid ≡ (raise e, paid))
apply_once_example =
    apply_once env 1 7 fresh (λ k. k ∷ k ∷ []) payment payment ledger paid [] paid_ok refl

apply-spends_example :
    ([] ≡ compute_tx_hash env payment)
    × (u : Utxo) × (us : List Utxo) × Held ledger.utxos (input_ids payment) (u ∷ us)
    × AllSpendable env 1 (compute_tx_hash env payment) u.currency payment.inputs (u ∷ us)
    × All (λ o. o.currency ≡ u.currency) payment.outputs
    × All (λ tid. get_token tid paid.utxos ≡ none) (input_ids payment)
apply-spends_example =
    apply-spends env 1 7 fresh fresh payment payment ledger paid [] ledger-IsUnique ledger-IsFresh
      paid_ok

-- A call that has run its first section, and the same call after its second one.
abbrev idle : System
idle = record { ledger = ledger; pending = [] }

abbrev call : Pending
call = record { now = 1; tx = payment; fetched = token ∷ [] }

abbrev waiting : System
waiting = record { ledger = ledger; pending = call ∷ [] }

abbrev finished : System
finished = record { ledger = (commit env 2 fresh payment (token ∷ []) ledger).1; pending = [] }

prepared : prepare env 1 payment ledger ≡ (ok (token ∷ []), ledger)
unfolding program
prepared = refl

waiting-IsFreshFor : IsFreshFor fresh waiting
unfolding program
waiting-IsFreshFor = record { ledger = ledger-IsFresh; pending = ((λ k e. cc, tt), tt) }

run : Reach env idle finished
run =
    next (next here (start 1 payment (token ∷ []) prepared refl))
      (finish 2 fresh [] [] call refl waiting-IsFreshFor refl)

interleaved-conserves_example :
    IsUnique finished.ledger.utxos
    × ((c : Currency) → supply c finished.ledger.utxos ≡ supply c ledger.utxos)
interleaved-conserves_example =
    interleaved-conserves env idle finished ledger_small ledger-IsUnique refl run

ledger-IsIndexed : IsIndexed ledger
unfolding program
ledger-IsIndexed = record {
  keyed = (refl, tt);
  distinct = λ owner. ground arith;
  agrees = λ owner tid. ground arith;
}

apply-IsIndexed_example : IsIndexed paid
apply-IsIndexed_example = apply-IsIndexed env 1 fresh payment ledger ledger-IsIndexed ledger-IsFresh

-- The payment as the validators make it.
abbrev validated : Transaction
validated = record payment {
  inputs =
      record { token_id = text "aa"; id_kind = uuid_id; signature = []; unlock_script = none } ∷ [];
}
