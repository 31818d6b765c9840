-- ===== src/Hamilton/Guards.antt =====
-- What a handler has checked when it returns a response.
use project_hamilton.Base.{
  ℕ, ◌≤◌, ◌<◌, ◌≡◌, ◌++◌, Bool, true, false, map, Text, text_dec, length, arith, has_duplicate,
  refl, ⊤,
}
use project_hamilton.Base.Action.{ok, http, refuse_if, ◌>>◌}
use project_hamilton.Base.Action.Atomic.{>>-ok, refuse_if-IsReadonly}
use project_hamilton.Base.Int.{ℤ}
use project_hamilton.Hamilton.State.{
  Db, Act, Reply, duplicate_inputs, duplicate_outputs, duplicate_tokens,
}
use project_hamilton.Hamilton.Request.{
  Env, TxRequest, MintReq, BurnReq, Within, ts_window_sig, within_dec, signature_ok, canon,
  tx_signing_data, burn_signing_data, sig_prefix_tx, sig_prefix_burn, validate_idem_key,
  verify_network, verify_ed25519, verify_signed_at,
}
use project_hamilton.Hamilton.Handlers.{
  to_bad_request, once, transfer_tokens, mint_token, burn_tokens, check_tx, process_tx, mint,
  check_burn, burn,
}
use project_hamilton.Hamilton.Atomic.{
  validate_idem_key-IsReadonly, verify_network-IsReadonly, verify_signed_at-IsReadonly,
  check_tx-IsReadonly, check_burn-IsReadonly,
}

-- The idempotency key has 1 to 128 characters and is a UUID.
pub record IsKey (env : Env) (key : Text) : Type 0 where
  pub nonempty : 0 < length key
  pub short : length key ≤ 128
  pub uuid : env.is_uuid key ≡ true

-- The checks of `process_tx` before its transaction.
pub record TxChecked (env : Env) (now : ℕ) (tx : TxRequest) (key : Text) : Type 0 where
  pub is_key : IsKey env key
  pub network : tx.network_id ≡ env.network_id
  pub recent : Within ts_window_sig now tx.signed_at
  pub distinct_inputs : has_duplicate text_dec tx.inputs ≡ false
  pub distinct_outputs : has_duplicate text_dec (map (λ o. o.token_id) tx.outputs) ≡ false
  pub signed :
      signature_ok env tx.signer_public_key
        (sig_prefix_tx ++ canon (tx_signing_data tx))
        tx.signature
      ≡ true

-- The checks of `burn` before its transaction.
pub record BurnChecked (env : Env) (now : ℕ) (body : BurnReq) (key : Text) : Type 0 where
  pub is_key : IsKey env key
  pub network : body.network_id ≡ env.network_id
  pub recent : Within ts_window_sig now body.signed_at
  pub distinct : has_duplicate text_dec body.token_ids ≡ false
  pub signed :
      signature_ok env body.owner_public_key
        (sig_prefix_burn ++ canon (burn_signing_data body))
        body.signature
      ≡ true

module _ (env : Env) where
  validate_idem_key-ok :
      (key : Text) (db db' : Db) (u : Unit {0})
      → validate_idem_key env key db ≡ (ok u, db')
      → IsKey env key
  unfolding validate_idem_key
  validate_idem_key-ok key db db' u h = ground arith

  verify_network-ok :
      (v : Text) (db db' : Db) (u : Unit {0})
      → verify_network env v db ≡ (ok u, db')
      → v ≡ env.network_id
  unfolding verify_network
  verify_network-ok v db db' u h = ground arith

  verify_ed25519-ok :
      (key msg sig prefix : Text) (db db' : Db) (u : Unit {0})
      → verify_ed25519 env key msg sig prefix db ≡ (ok u, db')
      → signature_ok env key (prefix ++ msg) sig ≡ true
  unfolding verify_ed25519
  verify_ed25519-ok key msg sig prefix db db' u h = ground arith

verify_signed_at-ok :
    (now : ℕ) (t : ℤ) (db db' : Db) (u : Unit {0})
    → verify_signed_at now t db ≡ (ok u, db')
    → Within ts_window_sig now t
unfolding verify_signed_at
verify_signed_at-ok now t db db' u h = elim (within_dec ts_window_sig now t) [
  | yes p ↦ p
  | no n ↦ absurd (ground arith)
]

refuse_if-ok :
    {S E : Type 0} (b : Bool) (e : E) (s s' : S) (u : Unit {0})
    → refuse_if b e s ≡ (ok u, s')
    → b ≡ false
refuse_if-ok true e s s' u h = cc
refuse_if-ok false e s s' u h = refl

module _ (env : Env) (now : ℕ) where
  check_tx-ok :
      (tx : TxRequest) (key : Text) (db db' : Db) (u : Unit {0})
      → check_tx env now tx key db ≡ (ok u, db')
      → TxChecked env now tx key
  unfolding check_tx
  check_tx-ok tx key db db' u h =
      let inputs = has_duplicate text_dec tx.inputs in
      let outputs = has_duplicate text_dec (map (λ o. o.token_id) tx.outputs) in
      let msg = canon (tx_signing_data tx) in
      let k₅ : Act ⊤ = verify_ed25519 env tx.signer_public_key msg tx.signature sig_prefix_tx in
      let k₄ : Act ⊤ = refuse_if outputs (http 400 duplicate_outputs) >> k₅ in
      let k₃ : Act ⊤ = refuse_if inputs (http 400 duplicate_inputs) >> k₄ in
      let k₂ : Act ⊤ = verify_signed_at now tx.signed_at >> k₃ in
      let k₁ : Act ⊤ = verify_network env tx.network_id >> k₂ in
      let (u₁, c₁, h₁) =
        >>-ok (validate_idem_key env key) k₁ (validate_idem_key-IsReadonly env key) h in
      let (u₂, c₂, h₂) =
        >>-ok (verify_network env tx.network_id) k₂ (verify_network-IsReadonly env tx.network_id)
          h₁ in
      let (u₃, c₃, h₃) =
        >>-ok (verify_signed_at now tx.signed_at) k₃ (verify_signed_at-IsReadonly now tx.signed_at)
          h₂ in
      let (u₄, c₄, h₄) =
        >>-ok (refuse_if inputs (http 400 duplicate_inputs)) k₄
          (refuse_if-IsReadonly inputs (http 400 duplicate_inputs)) h₃ in
      let (u₅, c₅, h₅) =
        >>-ok (refuse_if outputs (http 400 duplicate_outputs)) k₅
          (refuse_if-IsReadonly outputs (http 400 duplicate_outputs)) h₄ in
      record {
        is_key = validate_idem_key-ok env key db db u₁ c₁;
        network = verify_network-ok env tx.network_id db db u₂ c₂;
        recent = verify_signed_at-ok now tx.signed_at db db u₃ c₃;
        distinct_inputs = refuse_if-ok inputs (http 400 duplicate_inputs) db db u₄ c₄;
        distinct_outputs = refuse_if-ok outputs (http 400 duplicate_outputs) db db u₅ c₅;
        signed =
            verify_ed25519-ok env tx.signer_public_key msg tx.signature sig_prefix_tx db db' u h₅;
      }

  check_burn-ok :
      (body : BurnReq) (key : Text) (db db' : Db) (u : Unit {0})
      → check_burn env now body key db ≡ (ok u, db')
      → BurnChecked env now body key
  unfolding check_burn
  check_burn-ok body key db db' u h =
      let tokens = has_duplicate text_dec body.token_ids in
      let msg = canon (burn_signing_data body) in
      let k₄ : Act ⊤ =
        verify_ed25519 env body.owner_public_key msg body.signature sig_prefix_burn in
      let k₃ : Act ⊤ = refuse_if tokens (http 400 duplicate_tokens) >> k₄ in
      let k₂ : Act ⊤ = verify_signed_at now body.signed_at >> k₃ in
      let k₁ : Act ⊤ = verify_network env body.network_id >> k₂ in
      let (u₁, c₁, h₁) =
        >>-ok (validate_idem_key env key) k₁ (validate_idem_key-IsReadonly env key) h in
      let (u₂, c₂, h₂) =
        >>-ok (verify_network env body.network_id) k₂
          (verify_network-IsReadonly env body.network_id) h₁ in
      let (u₃, c₃, h₃) =
        >>-ok (verify_signed_at now body.signed_at) k₃
          (verify_signed_at-IsReadonly now body.signed_at) h₂ in
      let (u₄, c₄, h₄) =
        >>-ok (refuse_if tokens (http 400 duplicate_tokens)) k₄
          (refuse_if-IsReadonly tokens (http 400 duplicate_tokens)) h₃ in
      record {
        is_key = validate_idem_key-ok env key db db u₁ c₁;
        network = verify_network-ok env body.network_id db db u₂ c₂;
        recent = verify_signed_at-ok now body.signed_at db db u₃ c₃;
        distinct = refuse_if-ok tokens (http 400 duplicate_tokens) db db u₄ c₄;
        signed =
            verify_ed25519-ok env body.owner_public_key msg body.signature sig_prefix_burn db db' u
              h₄;
      }

module _ (env : Env) (now : ℕ) (cid : Text) where
  -- A transfer that returns has passed every check, and then its transaction.
  pub process_tx-ok :
      (tx : TxRequest) (key : Text) (db db' : Db) (reply : Reply)
      → process_tx env now cid tx key db ≡ (ok reply, db')
      → TxChecked env now tx key
        × (once to_bad_request now cid key (transfer_tokens env tx) db ≡ (ok reply, db'))
  unfolding process_tx
  process_tx-ok tx key db db' reply h =
      let (u, c, rest) =
        >>-ok (check_tx env now tx key) (once to_bad_request now cid key (transfer_tokens env tx))
          (check_tx-IsReadonly env now tx key) h in
      (check_tx-ok env now tx key db db u c, rest)

  pub mint-ok :
      (body : MintReq) (key tid : Text) (db db' : Db) (reply : Reply)
      → mint env now cid body key tid db ≡ (ok reply, db')
      → IsKey env key × (once (λ e. e) now cid key (mint_token env body tid) db ≡ (ok reply, db'))
  unfolding mint
  mint-ok body key tid db db' reply h =
      let (u, c, rest) =
        >>-ok (validate_idem_key env key) (once (λ e. e) now cid key (mint_token env body tid))
          (validate_idem_key-IsReadonly env key) h in
      (validate_idem_key-ok env key db db u c, rest)

  pub burn-ok :
      (body : BurnReq) (key audit_id : Text) (db db' : Db) (reply : Reply)
      → burn env now cid body key audit_id db ≡ (ok reply, db')
      → BurnChecked env now body key
        × (once to_bad_request now cid key (burn_tokens env body audit_id) db ≡ (ok reply, db'))
  unfolding burn
  burn-ok body key audit_id db db' reply h =
      let (u, c, rest) =
        >>-ok (check_burn env now body key)
          (once to_bad_request now cid key (burn_tokens env body audit_id))
          (check_burn-IsReadonly env now body key) h in
      (check_burn-ok env now body key db db u c, rest)
