-- ===== src/Hamilton/Tests.antt =====
-- Runs of the handlers on a small ledger, and each theorem at such a run.
mod Requests
use project_hamilton.Base.{
  ℕ, ◌+◌, ◌≡◌, ◌≢◌, ◌⊎◌, refl, Option, none, some, ◌≤◌, List, [], ◌∷◌, ◌++◌, Text, text, text_dec,
  arith, All, ℕ_discrete, dec_lt, dec_le, has_duplicate, contains, true,
}
use project_hamilton.Base.Money.{add_money}
use project_hamilton.Base.Int.{ℤ, pos}
use project_hamilton.Base.Json.{dumps, sort_keys, decimal}
use project_hamilton.Base.Action.{ok, raise, http}
use project_hamilton.Hamilton.State.{
  Db, Client, processor, Failure, Utxo, unspent, Reply, Body, find_utxo, set_status, insert_utxo,
  mark, in_flight, Reason, AuditRow, AuditAction,
}
use project_hamilton.Base.Json.{str_amount}
use project_hamilton.Hamilton.Request.{
  Env, TxOut, TxRequest, MintReq, BurnReq, from_hex, is_space, hex_value, hex_pair, items_of,
  out_items, tx_signing_data, burn_signing_data, mint_payload, canon, within_dec, validate_idem_key,
  verify_network, signature_ok, verify_ed25519, verify_signed_at,
}
use project_hamilton.Hamilton.Audit.{
  find_audit, last_hash, next_seq, audit_chain_hash, audit_row, audit_insert,
}
use project_hamilton.Hamilton.Idem.{
  if_key, find_idem, replay_of, idem_acquire, complete_row, complete_rows, is_pending,
  pending_count, idem_complete, gc_rows, gc_stale_idem,
}
use project_hamilton.Hamilton.Handlers.{
  to_bad_request, unspent_or_throw, fetch_unspent, spend_input, spend_inputs, sum_outputs, new_utxo,
  insert_outputs, burn_all, work_or_replay, once, log_transfer, pay_outputs, transfer_tokens,
  mint_token, burn_tokens, check_tx, process_tx, mint, check_burn, burn,
}
use project_hamilton.Hamilton.Table.{supply, share, worth, Ages}
use project_hamilton.Hamilton.Spending.{Consumed}
use project_hamilton.Hamilton.Transfer.{transfer_reply}
use project_hamilton.Hamilton.MintBurn.{token_value, Burned, burn_reply}
use project_hamilton.Hamilton.Guards.{TxChecked, BurnChecked}
use project_hamilton.Hamilton.Chain.{tamper_evident, payloads, Collision}
use project_hamilton.Hamilton.Conservation.{process_tx-conserves, burn-supply}
use project_hamilton.Hamilton.Ownership.{process_tx-spends, burn-retires}
use project_hamilton.Hamilton.Sound.{IsSound}
use project_hamilton.Hamilton.Run.{
  Call, mint_call, burn_call, restart, serve, run, run-IsSound, token_history, audit-run,
  no_double_spend, replayed_once, never_in_flight,
}

program : Unit {0}
unfolding add_money dumps sort_keys find_utxo set_status insert_utxo mark from_hex is_space
    hex_value hex_pair str_amount items_of out_items tx_signing_data burn_signing_data mint_payload
    canon within_dec validate_idem_key verify_network signature_ok verify_ed25519 verify_signed_at
    find_audit last_hash next_seq audit_chain_hash audit_row audit_insert if_key find_idem replay_of
    idem_acquire complete_row complete_rows is_pending pending_count idem_complete gc_rows
    gc_stale_idem to_bad_request unspent_or_throw fetch_unspent spend_input spend_inputs sum_outputs
    new_utxo insert_outputs burn_all work_or_replay once log_transfer pay_outputs transfer_tokens
    mint_token burn_tokens check_tx process_tx mint check_burn burn supply share worth text_dec
    ℕ_discrete dec_lt dec_le has_duplicate contains serve run token_value
program = tt

-- A hash that is not one, and signatures that all fit.
abbrev env : Env
env = record {
  network_id = text "n";
  sha256_hex = λ x. [];
  hmac_sha256_hex = λ k x. [];
  ed25519_verify = λ k m s. true;
  is_uuid = λ k. true;
}

abbrev token : Utxo
token = record {
  token_id = text "a";
  amount = 700;
  currency = text "USD";
  owner_public_key = [];
  status = unspent;
}

abbrev start : Db
start = record { clients = []; utxos = token ∷ []; audit = []; idem = [] }

abbrev out_of : Text → ℕ → TxOut
out_of tid amount = record { token_id = tid; amount = amount; receiver_public_key = [] }

abbrev pay : TxRequest
pay = record {
  transaction_id = text "t";
  network_id = text "n";
  currency = text "USD";
  inputs = text "a" ∷ [];
  outputs = out_of (text "b") 500 ∷ out_of (text "c") 200 ∷ [];
  signer_public_key = [];
  signed_at = pos 1000;
  signature = [];
}

abbrev ok_reply : Reply
ok_reply = record { status_code = 200; body = Body.transferred (text "t") }

abbrev cid : Text
cid = text "w"

abbrev key : Text
key = text "k"

abbrev paid : Db
paid = (process_tx env 1010 cid pay key start).1

pay_returns : process_tx env 1010 cid pay key start ≡ (ok ok_reply, paid)
unfolding program
pay_returns = refl

-- Without the output of 200 the value is not conserved; nothing is written.
pay_less :
    process_tx env 1010 cid (record pay { outputs = out_of (text "b") 500 ∷ [] }) key start
    ≡ (raise (http 400 Reason.value_conservation_failed), start)
unfolding program
pay_less = refl

abbrev mint_req : MintReq
mint_req = record { amount = 300; currency = text "EUR"; public_key = [] }

abbrev minted : Db
minted = (mint env 1010 cid mint_req key (text "m") start).1

abbrev mint_ok : Reply
mint_ok = record { status_code = 200; body = Body.minted (text "m") }

mint_returns : mint env 1010 cid mint_req key (text "m") start ≡ (ok mint_ok, minted)
unfolding program
mint_returns = refl

abbrev burn_req : BurnReq
burn_req = record {
  token_ids = text "a" ∷ [];
  network_id = text "n";
  owner_public_key = [];
  signed_at = pos 1000;
  signature = [];
}

abbrev burnt : Db
burnt = (burn env 1010 cid burn_req key (text "x") start).1

abbrev burn_ok : Reply
burn_ok = record { status_code = 200; body = Body.burned_count 1 }

burn_returns : burn env 1010 cid burn_req key (text "x") start ≡ (ok burn_ok, burnt)
unfolding program
burn_returns = refl

start-IsSound : IsSound env start
start-IsSound = record { unique = (unfold find_utxo in refl, tt); chained = tt; settled = tt }

process_tx-conserves_example : supply (text "USD") paid.utxos ≡ supply (text "USD") start.utxos
unfolding program
process_tx-conserves_example =
    process_tx-conserves env 1010 cid key ok_reply start paid pay pay_returns start-IsSound.unique
      (omega arith) (text "USD")

process_tx-spends_example :
    TxChecked env 1010 pay key
    × All (Consumed pay start.utxos paid.utxos) pay.inputs
    × All (λ o. find_utxo o.token_id paid.utxos ≡ some (new_utxo pay.currency o)) pay.outputs
    × (ok_reply ≡ transfer_reply pay)
unfolding find_idem
process_tx-spends_example =
    process_tx-spends env 1010 cid key start paid pay ok_reply pay_returns refl

burn-retires_example :
    BurnChecked env 1010 burn_req key
    × All (Burned burn_req start.utxos burnt.utxos) burn_req.token_ids
    × (burn_ok ≡ burn_reply burn_req)
unfolding find_idem
burn-retires_example =
    burn-retires env 1010 cid key start burnt burn_req (text "x") burn_ok burn_returns refl

-- Two calls that fail or succeed, and a restart.
abbrev calls : List Call
calls =
    mint_call 1011 cid mint_req (text "k3") (text "m")
    ∷ burn_call 1012 cid burn_req (text "k4") (text "y")
    ∷ restart 1013
    ∷ []

run-IsSound_example : IsSound env (run env calls start)
run-IsSound_example = run-IsSound env calls start start-IsSound

token_history_example :
    (v : Utxo) × (find_utxo (text "a") (run env calls start).utxos ≡ some v) × Ages token v
unfolding program
token_history_example = token_history env calls start (text "a") token refl

audit-run_example : (rows : List AuditRow) × ((run env calls start).audit ≡ rows ++ start.audit)
audit-run_example = audit-run env calls start

no_double_spend_example :
    process_tx env 1020 cid pay (text "k2") (run env calls paid) ≢ (ok ok_reply, paid)
unfolding program
no_double_spend_example =
    no_double_spend env 1010 cid key pay ok_reply start paid pay_returns refl calls 1020 cid
      (text "k2") pay ok_reply paid (text "a") refl refl refl

replayed_once_example :
    process_tx env 1030 cid pay key (run env calls paid) ≡ (ok ok_reply, run env calls paid)
unfolding program
replayed_once_example =
    replayed_once env 1010 cid key pay ok_reply start paid pay_returns refl calls 1030 pay
      start-IsSound refl

never_in_flight_example :
    ((now : ℕ) (c k : Text) (db' : Db)
      → idem_acquire now c k (run env calls start) ≢ (raise (http 409 in_flight), db'))
    × ((now : ℕ) → gc_stale_idem now (run env calls start) ≡ run env calls start)
never_in_flight_example = never_in_flight env calls start start-IsSound

abbrev row : Text → AuditRow
row payload = record {
  seq = 1;
  tx_id = [];
  action = AuditAction.mint;
  payload = payload;
  prev_hash = [];
  chain_hash = [];
}

tamper_evident_example :
    (payloads (row (text "p") ∷ []) ≡ payloads (row (text "q") ∷ [])) ⊎ Collision env
unfolding program
tamper_evident_example =
    tamper_evident env 0 (λ x. refl) (row (text "p") ∷ []) (row (text "q") ∷ [])
      (refl, refl, refl, refl, tt) (refl, refl, refl, refl, tt) refl refl
