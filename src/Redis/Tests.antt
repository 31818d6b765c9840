-- ===== src/Redis/Tests.antt =====
-- A store of one token, clients, a snapshot, and each theorem there.
use project_hamilton.Base.{
  ℕ, ◌<◌, ◌≡◌, inl, inr, refl, Bool, true, false, none, [], ◌∷◌, Text, text, text_dec, arith,
  dec_lt, dec_le, ℕ_discrete, contains, has_duplicate,
}
use project_hamilton.Base.Money.{limit, add_money}
use project_hamilton.Base.Action.{ok, raise}
use project_hamilton.Models.Types.{str_id, mapped, inr, currency_dec, pending, Transaction}
use project_hamilton.Models.Validate.{script_fits, expiry_after}
use project_hamilton.Stores.State.{LedgerError, get_token}
use project_hamilton.Stores.Index.{owner_bucket}
use project_hamilton.Stores.Hash.{Env, compute_tx_hash}
use project_hamilton.Stores.Memory.{is_empty, input_ids, is_expired, is_locked}
use project_hamilton.Stores.Table.{IsUnique, share, supply}
use project_hamilton.Stores.Indexed.{owned_by, IsIndexed}
use project_hamilton.Stores.Balances.{holdings}
use project_hamilton.Redis.State.{
  Stored, Store, get_stored, tx_exists, utxo_of, is_accepted, created_or,
}
use project_hamilton.Redis.Process.{
  check_tx_id, check_request, check_signed, check_spent, sum_spent, sum_created, validate_currency,
  validate_intent, mget, read_inputs, execute, write_transaction, process_transaction,
}
use project_hamilton.Redis.View.{tokens_of, memory_of}
use project_hamilton.Redis.Refused.{process_raises}
use project_hamilton.Redis.Snapshot.{Scanned, snapshot, restore}
use project_hamilton.Redis.Values.{Covers}
use project_hamilton.Redis.Restored.{IsComplete, restore-snapshot}
use project_hamilton.Redis.Balance.{Parses, get_balance, get_balance_worth}

program : Unit {0}
unfolding check_tx_id check_request check_signed check_spent sum_spent sum_created validate_currency
    validate_intent mget read_inputs execute write_transaction process_transaction get_stored
    tx_exists utxo_of created_or is_empty input_ids is_expired is_locked compute_tx_hash mapped
    add_money currency_dec text_dec dec_lt dec_le ℕ_discrete contains has_duplicate supply share
    owned_by owner_bucket get_token
program = tt

-- The hash of every transaction is the same, and every signature fits.
abbrev env : Env
env = record { sha256_hex = λ x. []; verify = λ k m s. true }

-- Every text counts as a UUID.
abbrev is_uuid4 : Text → Bool
is_uuid4 t = true

abbrev fresh : ℕ → Text
fresh k = k ∷ []

abbrev token : Stored
token = record {
  token_id = text "aa";
  amount = 5;
  currency = inr;
  owner_public_key = text "alice";
  lock_script = none;
  created_at = none;
  expires_at = none;
}

abbrev store : Store
store = record {
  fee_collector = text "fees";
  utxos = token ∷ [];
  owners = (text "alice", text "aa" ∷ []) ∷ [];
  txs = [];
  audit = [];
}

abbrev payment : Transaction
payment = record {
  transaction_id = [];
  id_kind = str_id;
  inputs =
      record { token_id = text "aa"; id_kind = str_id; signature = []; unlock_script = none } ∷ [];
  outputs =
      record { amount = 4; currency = inr; owner_public_key = text "bob"; lock_script = none } ∷ [];
  fee = 1;
  status = pending;
}

all_listed : (j : Text) → Covers j (text "aa" ∷ []) store.utxos
unfolding program
all_listed j = elim (text_dec (text "aa") j) [
  | yes e ↦ inl (ground arith)
  | no ne ↦ inr (ground arith)
]

scanned : Scanned
scanned = record { token_ids = text "aa" ∷ []; owner_keys = text "alice" ∷ []; tx_ids = [] }

store-IsComplete : IsComplete scanned store
unfolding program scanned
store-IsComplete = record { token_ids = all_listed; owner_keys = (refl, tt); tx_ids = tt }

restore-snapshot_example :
    (r : Store) × (restore scanned (snapshot (text "aa" ∷ []) store) store ≡ (ok true, r))
    × ((j : Text) → get_stored j r.utxos ≡ get_stored j store.utxos)
    × IsIndexed (memory_of 1 r)
    × (r.txs ≡ [])
    × (r.audit ≡ store.audit)
restore-snapshot_example =
    restore-snapshot 1 (text "aa" ∷ []) scanned store store all_listed store-IsComplete

store-IsIndexed : IsIndexed (memory_of 1 store)
unfolding program
store-IsIndexed = record {
  keyed = (refl, tt);
  distinct = λ owner. ground arith;
  agrees = λ owner tid. ground arith;
}

store-IsUnique : IsUnique (tokens_of 1 store.utxos)
unfolding program
store-IsUnique = (refl, tt)

store_small : supply inr (tokens_of 1 store.utxos) < limit
unfolding program
store_small = omega arith

one_page : has_duplicate text_dec (text "aa" ∷ []) ≡ false
unfolding program
one_page = refl

all_parse : Parses is_uuid4 1 store.utxos (text "aa" ∷ [])
unfolding is_accepted utxo_of script_fits expiry_after program
all_parse t d there found = ground arith

get_balance_worth_example :
    get_balance is_uuid4 1 (text "alice") inr ((text "aa" ∷ []) ∷ []) store
    ≡ (ok (holdings 1 inr (text "alice") (tokens_of 1 store.utxos)), store)
unfolding program
get_balance_worth_example =
    get_balance_worth is_uuid4 1 (text "alice") inr ((text "aa" ∷ []) ∷ []) store all_parse one_page
      (λ t. refl) store-IsIndexed store-IsUnique store_small

process_raises_example :
    (e : LedgerError) × (process_transaction env is_uuid4 1 fresh payment store ≡ (raise e, store))
process_raises_example = process_raises env is_uuid4 1 fresh payment store
