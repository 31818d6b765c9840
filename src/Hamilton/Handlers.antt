-- ===== src/Hamilton/Handlers.antt =====
-- The three handlers that write the ledger: `process_tx`, `mint` and `burn`. The body of a `try`
-- is one transaction; SQLite runs the transactions one after another (BEGIN IMMEDIATE).
use project_hamilton.Base.{
  ℕ, Option, none, some, List, [], ◌∷◌, map, Text, text_dec, ℕ_discrete, length, has_duplicate, ⊤,
}
use project_hamilton.Base.Money.{add_money}
use project_hamilton.Base.Json.{dumps, spaced}
use project_hamilton.Base.Action.{
  Error, http, value_error, pure, throw, require, refuse_if, transaction, ◌>>=◌, ◌>>◌,
}
use project_hamilton.Hamilton.State.{
  Utxo, unspent, spent, burned, find_utxo, insert_utxo, mark, Body, Reply, Act, Failure,
  AuditAction, duplicate_inputs, duplicate_outputs, duplicate_tokens, utxo_not_available,
  currency_mismatch, ownership_error, value_conservation_failed,
}
use project_hamilton.Hamilton.Request.{
  Env, TxOut, TxRequest, MintReq, BurnReq, sig_prefix_tx, sig_prefix_burn, tx_signing_data,
  burn_signing_data, mint_payload, canon, validate_idem_key, verify_network, verify_ed25519,
  verify_signed_at,
}
use project_hamilton.Hamilton.Audit.{audit_insert}
use project_hamilton.Hamilton.Idem.{idem_acquire, idem_complete}

-- `except ValueError as exc: raise HTTPException(400, str(exc))`
unfoldable pub to_bad_request : Failure → Failure
to_bad_request (value_error r) = http 400 r
to_bad_request (http code r) = http code r
to_bad_request Error.integrity_error = Error.integrity_error
to_bad_request Error.runtime_error = Error.runtime_error
to_bad_request Error.type_error = Error.type_error

-- `if not row or row["status"] != "UNSPENT": raise ValueError("UTXO_NOT_AVAILABLE")`
unfoldable pub unspent_or_throw : Option Utxo → Act Utxo
unspent_or_throw none = throw (value_error utxo_not_available)
unspent_or_throw (some u) = elim u.status [
  | unspent ↦ pure u
  | spent ↦ throw (value_error utxo_not_available)
  | burned ↦ throw (value_error utxo_not_available)
]

unfoldable pub fetch_unspent : Text → Act Utxo
fetch_unspent tid db = unspent_or_throw (find_utxo tid db.utxos) db

-- One round of the loop over `tx.inputs`: the amount of the token that it spends.
unfoldable pub spend_input : TxRequest → Text → Act ℕ
spend_input tx tid = do
  row ← fetch_unspent tid
  require (text_dec row.currency tx.currency) (value_error currency_mismatch)
  require (text_dec row.owner_public_key tx.signer_public_key) (value_error ownership_error)
  mark tid spent
  pure row.amount

-- The loop; `total` is `in_total`.
unfoldable pub spend_inputs : TxRequest → ℕ → List Text → Act ℕ
spend_inputs tx total [] = pure total
spend_inputs tx total (tid ∷ tids) = do
  amount ← spend_input tx tid
  spend_inputs tx (add_money total amount) tids

-- `sum(o.amount for o in tx.outputs)`, from the left.
unfoldable pub sum_outputs : ℕ → List TxOut → ℕ
sum_outputs total [] = total
sum_outputs total (o ∷ os) = sum_outputs (add_money total o.amount) os

unfoldable pub new_utxo : Text → TxOut → Utxo
new_utxo currency o = record {
  token_id = o.token_id;
  amount = o.amount;
  currency = currency;
  owner_public_key = o.receiver_public_key;
  status = unspent;
}

unfoldable pub insert_outputs : Text → List TxOut → Act Unit
insert_outputs currency [] = pure tt
insert_outputs currency (o ∷ os) = insert_utxo (new_utxo currency o) >> insert_outputs currency os

-- The loop over `body.token_ids`.
unfoldable pub burn_all : BurnReq → List Text → Act Unit
burn_all body [] = pure tt
burn_all body (tid ∷ tids) = do
  row ← fetch_unspent tid
  require (text_dec row.owner_public_key body.owner_public_key) (value_error ownership_error)
  mark tid burned
  burn_all body tids

-- A stored response ends the transaction; otherwise the work runs and its response is stored.
unfoldable pub work_or_replay : Text → Text → Act Reply → Option Reply → Act Reply
work_or_replay cid key work (some reply) = pure reply
work_or_replay cid key work none = do reply ← work; idem_complete cid key reply; pure reply

-- The body of the `try` that the three handlers share.
unfoldable pub once : (Failure → Failure) → ℕ → Text → Text → Act Reply → Act Reply
once handler now cid key work =
    transaction handler (do cached ← idem_acquire now cid key; work_or_replay cid key work cached)

module _ (env : Env) where
  -- The end of a transfer: the audit row and the response.
  unfoldable pub log_transfer : TxRequest → Act Reply
  log_transfer tx = do
    audit_insert env tx.transaction_id AuditAction.transfer (dumps spaced (tx_signing_data tx))
    pure (record { status_code = 200; body = Body.transferred tx.transaction_id })

  -- What follows the loop over the inputs, with its `in_total`.
  unfoldable pub pay_outputs : TxRequest → ℕ → Act Reply
  pay_outputs tx in_total = do
    require (ℕ_discrete in_total (sum_outputs 0 tx.outputs)) (value_error value_conservation_failed)
    insert_outputs tx.currency tx.outputs
    log_transfer tx

  -- The ledger part of the transaction of `process_tx`.
  unfoldable pub transfer_tokens : TxRequest → Act Reply
  transfer_tokens tx = do in_total ← spend_inputs tx 0 tx.inputs; pay_outputs tx in_total

  -- `tid` is the fresh identifier of `uuid.uuid4()`.
  unfoldable pub mint_token : MintReq → Text → Act Reply
  mint_token body tid = do
    insert_utxo (record {
      token_id = tid;
      amount = body.amount;
      currency = body.currency;
      owner_public_key = body.public_key;
      status = unspent;
    })
    audit_insert env tid AuditAction.mint (dumps spaced (mint_payload body))
    pure (record { status_code = 200; body = Body.minted tid })

  unfoldable pub burn_tokens : BurnReq → Text → Act Reply
  burn_tokens body audit_id = do
    burn_all body body.token_ids
    audit_insert env audit_id AuditAction.burn (dumps spaced (burn_signing_data body))
    pure (record { status_code = 200; body = Body.burned_count (length body.token_ids) })

  -- The checks of `process_tx` before its transaction.
  unfoldable pub check_tx : ℕ → TxRequest → Text → Act ⊤
  check_tx now tx x_idem = do
    validate_idem_key env x_idem
    verify_network env tx.network_id
    verify_signed_at now tx.signed_at
    refuse_if (has_duplicate text_dec tx.inputs) (http 400 duplicate_inputs)
    refuse_if (has_duplicate text_dec (map (λ o. o.token_id) tx.outputs))
        (http 400 duplicate_outputs)
    verify_ed25519 env tx.signer_public_key (canon (tx_signing_data tx)) tx.signature sig_prefix_tx

  -- `process_tx`, for an authenticated client `cid`.
  unfoldable pub process_tx : ℕ → Text → TxRequest → Text → Act Reply
  process_tx now cid tx x_idem = do
    check_tx now tx x_idem
    once to_bad_request now cid x_idem (transfer_tokens tx)

  -- `mint`, which has no `except ValueError`; `tid` is the fresh identifier of the token.
  unfoldable pub mint : ℕ → Text → MintReq → Text → Text → Act Reply
  mint now cid body x_idem tid = do
    validate_idem_key env x_idem
    once (λ e. e) now cid x_idem (mint_token body tid)

  -- The checks of `burn` before its transaction.
  unfoldable pub check_burn : ℕ → BurnReq → Text → Act ⊤
  check_burn now body x_idem = do
    validate_idem_key env x_idem
    verify_network env body.network_id
    verify_signed_at now body.signed_at
    refuse_if (has_duplicate text_dec body.token_ids) (http 400 duplicate_tokens)
    verify_ed25519 env body.owner_public_key (canon (burn_signing_data body)) body.signature
        sig_prefix_burn

  -- `burn`; `audit_id` is the fresh identifier of the audit row.
  unfoldable pub burn : ℕ → Text → BurnReq → Text → Text → Act Reply
  burn now cid body x_idem audit_id = do
    check_burn now body x_idem
    once to_bad_request now cid x_idem (burn_tokens body audit_id)
