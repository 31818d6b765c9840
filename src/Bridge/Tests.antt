-- ===== src/Bridge/Tests.antt =====
-- Calls of the bridge on empty books, and each theorem at such a call.
use project_hamilton.Base.{
  Bool, true, some, ◌∷◌, Text, ◌+◌, ◌≤◌, ◌<◌, ◌≡◌, ◌⊎◌, refl, none, [], text, text_dec, arith,
  dec_lt, dec_le, ℕ_discrete,
}
use project_hamilton.Base.Money.{limit}
use project_hamilton.Base.Int.{pos}
use project_hamilton.Base.Action.{ok, raise, http}
use project_hamilton.Bridge.State.{
  mint, burn, Db, Failure, Request, insufficient_liquidity, find_reference, find_transaction,
  find_liquidity, update_liquidity,
}
use project_hamilton.Bridge.Liquidity.{
  delta, refuse_duplicate, open_liquidity, set_liquidity, adjust_found, adjust_liquidity,
  record_transaction, liquidity_steps, process_liquidity_transaction,
}
use project_hamilton.Bridge.Backing.{counted, recorded, IsBacked}
use project_hamilton.Bridge.Process.{burn_decided}
use project_hamilton.Bridge.Books.{process-IsBacked}
use project_hamilton.Bridge.Access.{
  Env, verify_api_key, drop_old, count_recent, clean_up, check_rate_limit, in_drift_dec,
  find_signature, protect, verify_parsed, verify_signature,
}
use project_hamilton.Bridge.Endpoints.{Arrival, body_guard, validate_tokens, admit, respond}
use project_hamilton.Bridge.Keeps.{SameBooks}
use project_hamilton.Bridge.Replay.{Answered, run, request_guarded, respond_once}

program : Unit {0}
unfolding delta refuse_duplicate open_liquidity set_liquidity adjust_found adjust_liquidity
    record_transaction liquidity_steps process_liquidity_transaction find_reference find_transaction
    find_liquidity update_liquidity counted recorded text_dec ℕ_discrete dec_lt dec_le
program = tt

access_program : Unit {0}
unfolding verify_api_key drop_old count_recent clean_up check_rate_limit in_drift_dec find_signature
    protect verify_parsed verify_signature body_guard validate_tokens admit respond
access_program = tt

-- Books without a transaction.
abbrev books : Db
books = record { transactions = []; liquidity = []; replay_protection = []; rate_limit = [] }

abbrev five_dollars : Request
five_dollars = record {
  account_id = text "a";
  amount = 5;
  currency = text "USD";
  bank_reference = text "r";
}

books-IsBacked : IsBacked books
unfolding program
books-IsBacked = λ c. (refl, refl)

five_positive : 0 < five_dollars.amount
five_positive = omega arith

five_fits : recorded five_dollars.currency mint books.transactions + five_dollars.amount < limit
unfolding program
five_fits = omega arith

no_reference : find_reference five_dollars.bank_reference books.transactions ≡ none
unfolding program
no_reference = refl

no_transaction : find_transaction (text "t") books.transactions ≡ none
unfolding program
no_transaction = refl

process-IsBacked_example :
    IsBacked (process_liquidity_transaction five_dollars mint (text "t") books).1
process-IsBacked_example =
    process-IsBacked five_dollars (text "t") books books-IsBacked five_positive five_fits mint

burn_decided_example :
    ((recorded (text "USD") burn [] + 5 ≤ recorded (text "USD") mint [])
      × ((process_liquidity_transaction five_dollars burn (text "t") books).0 ≡ ok (text "t")))
    ⊎ ((recorded (text "USD") mint [] < recorded (text "USD") burn [] + 5)
        × (process_liquidity_transaction five_dollars burn (text "t") books
            ≡ (raise (http 400 insufficient_liquidity), books)))
burn_decided_example =
    burn_decided five_dollars (text "t") books books-IsBacked five_positive five_fits no_reference
      no_transaction

-- A hash that is not one, and a mint that arrives.
abbrev env : Env
env = record {
  api_key_hash = [];
  signing_secret = [];
  sha256_hex = λ x. [];
  hmac_sha256_hex = λ k x. [];
  parse_int = λ t. some (pos 1);
}

abbrev is_uuid : Text → Bool
is_uuid t = true

abbrev arrival : Arrival
arrival = record {
  now = 1000000;
  ip = text "i";
  api_key = [];
  x_signature = [];
  x_timestamp = text "1";
  raw_body = [];
  tx_type = mint;
  req = five_dollars;
  token_ids = [];
  tx_id = text "t";
}

abbrev minted : Db
minted = (respond env is_uuid arrival books).1

mint_accepted : respond env is_uuid arrival books ≡ (ok (text "t"), minted)
unfolding program access_program
mint_accepted = refl

request_guarded_example : Answered env is_uuid arrival books
request_guarded_example = request_guarded env is_uuid arrival books

respond_once_example :
    (e : Failure) × (db'' : Db) × (respond env is_uuid arrival
        (run env is_uuid (arrival ∷ []) minted)
      ≡ (raise e, db''))
    × SameBooks (run env is_uuid (arrival ∷ []) minted) db''
respond_once_example =
    respond_once env is_uuid arrival arrival (arrival ∷ []) books minted (text "t") mint_accepted
      refl
