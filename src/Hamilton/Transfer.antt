-- ===== src/Hamilton/Transfer.antt =====
-- The ledger part of `process_tx`, when it returns.
use project_hamilton.Base.{
  ℕ, ◌<◌, ◌≡◌, ◌∙◌, ap, none, some, List, [], ◌∷◌, Text, arith, All, ℕ_discrete,
}
use project_hamilton.Base.Money.{limit}
use project_hamilton.Base.Json.{dumps, spaced}
use project_hamilton.Base.Action.{Result, ok, ◌>>◌, >>=-ok}
use project_hamilton.Hamilton.State.{Db, Failure, Utxo, spent, AuditAction, Body, Reply, find_utxo}
use project_hamilton.Hamilton.Request.{Env, TxRequest, tx_signing_data}
use project_hamilton.Hamilton.Audit.{find_audit, audit_row, audit_insert}
use project_hamilton.Hamilton.Handlers.{
  spend_inputs, sum_outputs, new_utxo, insert_outputs, log_transfer, pay_outputs, transfer_tokens,
}
use project_hamilton.Hamilton.Table.{
  IsUnique, Grows, Grows-trans, Keeps, Keeps-Grows, supply, share,
}
use project_hamilton.Hamilton.Spending.{
  Consumed, spend_inputs-OnlyUtxos, spend_inputs-IsUnique, spend_inputs-Grows,
  spend_inputs-Consumed, spend_inputs-supply,
}
use project_hamilton.Hamilton.Outputs.{output_value, sum_outputs_exact, insert_outputs-Inserts}

-- One row was appended to the audit log, and no other table was written.
pub record Logged (env : Env) (tx_id : Text) (action : AuditAction) (payload : Text) (db db' : Db)
    : Type 0 where
  pub absent : find_audit tx_id db.audit ≡ none
  pub audit : db'.audit ≡ audit_row env db.audit tx_id action payload ∷ db.audit
  pub clients : db'.clients ≡ db.clients
  pub utxos : db'.utxos ≡ db.utxos
  pub idem : db'.idem ≡ db.idem

pub audit_insert-ok :
    (env : Env) (tx_id : Text) (action : AuditAction) (payload : Text) (db db' : Db) (u : Unit {0})
    → audit_insert env tx_id action payload db ≡ (ok u, db')
    → Logged env tx_id action payload db db'
unfolding audit_insert
audit_insert-ok env tx_id action payload db db' u h = ground arith

abbrev pub transfer_payload : TxRequest → Text
transfer_payload tx = dumps spaced (tx_signing_data tx)

-- What a transfer does to the ledger.
pub record Transferred (env : Env) (tx : TxRequest) (db db' : Db) : Type 0 where
  pub consumed : All (Consumed tx db.utxos db'.utxos) tx.inputs
  pub created : All (λ o. find_utxo o.token_id db'.utxos ≡ some (new_utxo tx.currency o)) tx.outputs
  pub conserved :
      IsUnique db.utxos
      → supply tx.currency db.utxos < limit
      → (c : Text) → supply c db'.utxos ≡ supply c db.utxos
  pub unique : IsUnique db.utxos → IsUnique db'.utxos
  pub grows : Grows db.utxos db'.utxos
  pub absent : find_audit tx.transaction_id db.audit ≡ none
  pub audit :
      db'.audit
      ≡ audit_row env db.audit tx.transaction_id AuditAction.transfer (transfer_payload tx)
        ∷ db.audit
  pub idem : db'.idem ≡ db.idem
  pub clients : db'.clients ≡ db.clients

abbrev pub transfer_reply : TxRequest → Reply
transfer_reply tx = record { status_code = 200; body = Body.transferred tx.transaction_id }

-- The steps of a transfer that returned.
record Steps (env : Env) (tx : TxRequest) (db db' : Db) : Type 0 where
  total : ℕ
  db₁ : Db
  db₂ : Db
  spending : spend_inputs tx 0 tx.inputs db ≡ (ok total, db₁)
  balanced : total ≡ sum_outputs 0 tx.outputs
  inserting : insert_outputs tx.currency tx.outputs db₁ ≡ (ok tt, db₂)
  logging : Logged env tx.transaction_id AuditAction.transfer (transfer_payload tx) db₂ db'

log_transfer-ok :
    (env : Env) (tx : TxRequest) (db db' : Db) (reply : Reply)
    → log_transfer env tx db ≡ (ok reply, db')
    → Logged env tx.transaction_id AuditAction.transfer (transfer_payload tx) db db'
      × (reply ≡ transfer_reply tx)
unfolding log_transfer
log_transfer-ok env tx db db' reply h =
    let (u, db₁, logged, rest) =
      >>=-ok (audit_insert env tx.transaction_id AuditAction.transfer (transfer_payload tx))
        (λ _ s. (ok (transfer_reply tx), s)) h in
    let e : db₁ ≡ db' = ap (λ (p : Result Failure Reply × Db). p.1) rest in
    (
      rw (← e) (
          audit_insert-ok env tx.transaction_id AuditAction.transfer (transfer_payload tx) db db₁ u
            logged),
      ground arith,
    )

pay_outputs-ok :
    (env : Env) (tx : TxRequest) (total : ℕ) (db db' : Db) (reply : Reply)
    → pay_outputs env tx total db ≡ (ok reply, db')
    → (total ≡ sum_outputs 0 tx.outputs)
      × ((insert_outputs tx.currency tx.outputs >> log_transfer env tx) db ≡ (ok reply, db'))
unfolding pay_outputs
pay_outputs-ok env tx total db db' reply h = elim (ℕ_discrete total (sum_outputs 0 tx.outputs)) [
  | yes p ↦ (p, ground arith)
  | no n ↦ absurd (ground arith)
]

transfer_tokens-Steps :
    (env : Env) (tx : TxRequest) (db db' : Db) (reply : Reply)
    → transfer_tokens env tx db ≡ (ok reply, db')
    → Steps env tx db db' × (reply ≡ transfer_reply tx)
unfolding transfer_tokens
transfer_tokens-Steps env tx db db' reply h =
    let (total, db₁, spending, h₁) = >>=-ok (spend_inputs tx 0 tx.inputs) (pay_outputs env tx) h in
    let (balanced, h₂) = pay_outputs-ok env tx total db₁ db' reply h₁ in
    let (u, db₂, inserting, h₃) =
      >>=-ok (insert_outputs tx.currency tx.outputs) (λ _. log_transfer env tx) h₂ in
    let (logging, e) = log_transfer-ok env tx db₂ db' reply h₃ in
    (
      record {
        total = total;
        db₁ = db₁;
        db₂ = db₂;
        spending = spending;
        balanced = balanced;
        inserting = inserting;
        logging = logging;
      },
      e,
    )

Consumed-later :
    (tx : TxRequest) (us vs ws : List Utxo) (tids : List Text)
    → Keeps vs ws
    → All (Consumed tx us vs) tids
    → All (Consumed tx us ws) tids
unfolding Consumed
Consumed-later tx us vs ws [] k all = tt
Consumed-later tx us vs ws (tid ∷ tids) k ((u, able, gone), all) =
    ((u, able, k tid (record u { status = spent }) gone), Consumed-later tx us vs ws tids k all)

share-zero : (c d : Text) → share c d 0 ≡ 0
unfolding share
share-zero c d = ground arith

module _ (env : Env) (tx : TxRequest) (db db' : Db) (s : Steps env tx db db') where
  -- The inputs' total leaves the supply, and the outputs' value, which is the same, enters it.
  Steps-conserved :
      IsUnique db.utxos
      → supply tx.currency db.utxos < limit
      → (c : Text) → supply c db'.utxos ≡ supply c db.utxos
  Steps-conserved uniq fits c =
      let cur = tx.currency in
      let (spending, small) =
        spend_inputs-supply c tx 0 tx.inputs db s.db₁ s.total s.spending uniq (omega arith) in
      let inserted = (insert_outputs-Inserts cur tx.outputs s.db₁ s.db₂ s.inserting).added c in
      let value = sum_outputs_exact 0 tx.outputs (omega (arith, s.balanced)) in
      let e : output_value tx.outputs ≡ s.total = omega (arith, s.balanced) in
      let inserted' = rw e at inserted in rw s.logging.utxos (omega (arith, share-zero c cur))

  Steps-Transferred : Transferred env tx db db'
  Steps-Transferred =
      let t = s.logging in
      let i = insert_outputs-Inserts tx.currency tx.outputs s.db₁ s.db₂ s.inserting in
      let o = spend_inputs-OnlyUtxos tx 0 tx.inputs db s.db₁ s.total s.spending in
      let grows = spend_inputs-Grows tx 0 tx.inputs db s.db₁ s.total s.spending in
      let consumed = spend_inputs-Consumed tx 0 tx.inputs db s.db₁ s.total s.spending in
      let kept : Keeps s.db₁.utxos db'.utxos = rw t.utxos i.kept in
      let before = i.only.audit ∙ o.audit in
      record {
        consumed = Consumed-later tx db.utxos s.db₁.utxos db'.utxos tx.inputs kept consumed;
        created = rw t.utxos i.created;
        conserved = Steps-conserved;
        unique = λ uniq.
            rw t.utxos
              (i.unique (spend_inputs-IsUnique tx 0 tx.inputs db s.db₁ s.total s.spending uniq));
        grows =
            Grows-trans db.utxos s.db₁.utxos db'.utxos grows
              (Keeps-Grows s.db₁.utxos db'.utxos kept);
        absent = rw (← before) t.absent;
        audit = rw (← before) t.audit;
        idem = t.idem ∙ i.only.idem ∙ o.idem;
        clients = t.clients ∙ i.only.clients ∙ o.clients;
      }

-- A transfer that returns spends its inputs, creates its outputs, conserves the supply of every
-- currency and appends one audit row.
pub transfer_tokens-ok :
    (env : Env) (tx : TxRequest) (db db' : Db) (reply : Reply)
    → transfer_tokens env tx db ≡ (ok reply, db')
    → Transferred env tx db db' × (reply ≡ transfer_reply tx)
transfer_tokens-ok env tx db db' reply h =
    let (s, e) = transfer_tokens-Steps env tx db db' reply h in
    (Steps-Transferred env tx db db' s, e)
