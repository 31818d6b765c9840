-- ===== src/Hamilton/Effects.antt =====
-- What each handler does to the database when it returns a response.
use project_hamilton.Base.{ℕ, ◌+◌, ◌<◌, ◌≡◌, ◌∙◌, ap, ◌⊎◌, inl, inr, none, some, ◌∷◌, Text, All}
use project_hamilton.Base.Money.{limit}
use project_hamilton.Base.Action.{ok}
use project_hamilton.Hamilton.State.{Db, Act, Reply, AuditAction, find_utxo}
use project_hamilton.Hamilton.Request.{Env, TxRequest, MintReq, BurnReq}
use project_hamilton.Hamilton.Audit.{find_audit, audit_row}
use project_hamilton.Hamilton.Idem.{find_idem, complete_rows}
use project_hamilton.Hamilton.Handlers.{
  new_utxo, transfer_tokens, mint_token, burn_tokens, process_tx, mint, burn,
}
use project_hamilton.Hamilton.Table.{IsUnique, Grows, supply, Keeps-Grows, cons-Keeps}
use project_hamilton.Hamilton.Once.{Replayed, Ran, pending_row, with_pending, once-ok}
use project_hamilton.Hamilton.Spending.{Consumed}
use project_hamilton.Hamilton.Transfer.{transfer_payload, transfer_tokens-ok, transfer_reply}
use project_hamilton.Hamilton.MintBurn.{
  minted_utxo, mint_text, mint_reply, mint_token-ok, Burned, token_value, burn_text, burn_reply,
  burn_tokens-ok,
}
use project_hamilton.Hamilton.Guards.{
  TxChecked, BurnChecked, IsKey, process_tx-ok, mint-ok, burn-ok,
}

-- The bookkeeping that the three handlers share: one audit row, one stored response, tokens that
-- age, and no token twice.
pub record Extends (env : Env) (now : ℕ) (cid key tx_id : Text) (action : AuditAction)
    (payload : Text) (reply : Reply) (db db' : Db) : Type 0 where
  pub absent : find_audit tx_id db.audit ≡ none
  pub audit : db'.audit ≡ audit_row env db.audit tx_id action payload ∷ db.audit
  pub new_key : find_idem cid key db.idem ≡ none
  pub idem : db'.idem ≡ complete_rows cid key reply (pending_row now cid key ∷ db.idem)
  pub clients : db'.clients ≡ db.clients
  pub unique : IsUnique db.utxos → IsUnique db'.utxos
  pub grows : Grows db.utxos db'.utxos

-- A transfer that ran.
pub record TransferRan (env : Env) (now : ℕ) (cid key : Text) (tx : TxRequest) (reply : Reply)
    (db db' : Db) : Type 0 where
  pub consumed : All (Consumed tx db.utxos db'.utxos) tx.inputs
  pub created : All (λ o. find_utxo o.token_id db'.utxos ≡ some (new_utxo tx.currency o)) tx.outputs
  pub conserved :
      IsUnique db.utxos
      → supply tx.currency db.utxos < limit
      → (c : Text) → supply c db'.utxos ≡ supply c db.utxos
  pub extends :
      Extends env now cid key tx.transaction_id AuditAction.transfer
        (transfer_payload tx)
        reply
        db
        db'
  pub replied : reply ≡ transfer_reply tx

-- A mint that ran.
pub record MintRan (env : Env) (now : ℕ) (cid key tid : Text) (body : MintReq) (reply : Reply)
    (db db' : Db) : Type 0 where
  pub fresh : find_utxo tid db.utxos ≡ none
  pub utxos : db'.utxos ≡ minted_utxo body tid ∷ db.utxos
  pub extends : Extends env now cid key tid AuditAction.mint (mint_text body) reply db db'
  pub replied : reply ≡ mint_reply tid

-- A burn that ran.
pub record BurnRan (env : Env) (now : ℕ) (cid key audit_id : Text) (body : BurnReq) (reply : Reply)
    (db db' : Db) : Type 0 where
  pub retired : All (Burned body db.utxos db'.utxos) body.token_ids
  pub removed :
      IsUnique db.utxos
      → (c : Text) → supply c db'.utxos + token_value c db.utxos body.token_ids ≡ supply c db.utxos
  pub extends : Extends env now cid key audit_id AuditAction.burn (burn_text body) reply db db'
  pub replied : reply ≡ burn_reply body

stored-idem :
    {now : ℕ} {cid key : Text} {work : Act Reply} {reply : Reply} {db db' : Db}
    (ran : Ran now cid key work reply db db')
    → ran.worked.idem ≡ pending_row now cid key ∷ db.idem
    → db'.idem ≡ complete_rows cid key reply (pending_row now cid key ∷ db.idem)
stored-idem {cid = cid} {key = key} {reply = reply} ran same =
    ap (λ (d : Db). d.idem) ran.stored ∙ ap (complete_rows cid key reply) same

module _ (env : Env) (now : ℕ) (cid key : Text) (reply : Reply) (db db' : Db) where
  transfer-Ran :
      (tx : TxRequest)
      → Ran now cid key (transfer_tokens env tx) reply db db'
      → TransferRan env now cid key tx reply db db'
  transfer-Ran tx ran =
      let (t, replied) =
        transfer_tokens-ok env tx (with_pending now cid key db) ran.worked reply ran.returned in
      let e = ap (λ (d : Db). d.utxos) ran.stored in
      record {
        consumed = rw e t.consumed;
        created = rw e t.created;
        conserved = rw e t.conserved;
        extends = record {
          absent = t.absent;
          audit = ap (λ (d : Db). d.audit) ran.stored ∙ t.audit;
          new_key = ran.absent;
          idem = stored-idem ran t.idem;
          clients = ap (λ (d : Db). d.clients) ran.stored ∙ t.clients;
          unique = rw e t.unique;
          grows = rw e t.grows;
        };
        replied = replied;
      }

  mint-Ran :
      (body : MintReq) (tid : Text)
      → Ran now cid key (mint_token env body tid) reply db db'
      → MintRan env now cid key tid body reply db db'
  mint-Ran body tid ran =
      let (fresh, logged, replied) =
        mint_token-ok env body tid (with_pending now cid key db) ran.worked reply ran.returned in
      let e : db'.utxos ≡ minted_utxo body tid ∷ db.utxos =
        ap (λ (d : Db). d.utxos) ran.stored ∙ logged.utxos in
      record {
        fresh = fresh;
        utxos = e;
        extends = record {
          absent = logged.absent;
          audit = ap (λ (d : Db). d.audit) ran.stored ∙ logged.audit;
          new_key = ran.absent;
          idem = stored-idem ran logged.idem;
          clients = ap (λ (d : Db). d.clients) ran.stored ∙ logged.clients;
          unique = λ uniq. rw e (fresh, uniq);
          grows = rw e (
              Keeps-Grows db.utxos (minted_utxo body tid ∷ db.utxos)
                (cons-Keeps (minted_utxo body tid) db.utxos fresh));
        };
        replied = replied;
      }

  burn-Ran :
      (body : BurnReq) (audit_id : Text)
      → Ran now cid key (burn_tokens env body audit_id) reply db db'
      → BurnRan env now cid key audit_id body reply db db'
  burn-Ran body audit_id ran =
      let (db₁, burns, logged, replied) =
        burn_tokens-ok env body audit_id (with_pending now cid key db) ran.worked reply
          ran.returned in
      let e : db'.utxos ≡ db₁.utxos = ap (λ (d : Db). d.utxos) ran.stored ∙ logged.utxos in
      record {
        retired = rw e burns.retired;
        removed = rw e burns.removed;
        extends = record {
          absent = rw (← burns.only.audit) logged.absent;
          audit =
              ap (λ (d : Db). d.audit) ran.stored
              ∙ logged.audit
              ∙ ap (λ rows. audit_row env rows audit_id AuditAction.burn (burn_text body) ∷ rows)
                  burns.only.audit;
          new_key = ran.absent;
          idem = stored-idem ran (logged.idem ∙ burns.only.idem);
          clients = ap (λ (d : Db). d.clients) ran.stored ∙ logged.clients ∙ burns.only.clients;
          unique = rw e burns.unique;
          grows = rw e burns.grows;
        };
        replied = replied;
      }

  -- A transfer that returns was checked, and either replayed a stored response or ran.
  pub process_tx-effect :
      (tx : TxRequest)
      → process_tx env now cid tx key db ≡ (ok reply, db')
      → TxChecked env now tx key
        × (Replayed cid key reply db db' ⊎ TransferRan env now cid key tx reply db db')
  process_tx-effect tx h =
      let (checked, rest) = process_tx-ok env now cid tx key db db' reply h in
      (
        checked,
        elim (once-ok _ now cid key (transfer_tokens env tx) reply db db' rest) [
          | inl replayed ↦ inl replayed
          | inr ran ↦ inr (transfer-Ran tx ran)
        ],
      )

  pub mint-effect :
      (body : MintReq) (tid : Text)
      → mint env now cid body key tid db ≡ (ok reply, db')
      → IsKey env key
        × (Replayed cid key reply db db' ⊎ MintRan env now cid key tid body reply db db')
  mint-effect body tid h =
      let (checked, rest) = mint-ok env now cid body key tid db db' reply h in
      (
        checked,
        elim (once-ok _ now cid key (mint_token env body tid) reply db db' rest) [
          | inl replayed ↦ inl replayed
          | inr ran ↦ inr (mint-Ran body tid ran)
        ],
      )

  pub burn-effect :
      (body : BurnReq) (audit_id : Text)
      → burn env now cid body key audit_id db ≡ (ok reply, db')
      → BurnChecked env now body key
        × (Replayed cid key reply db db' ⊎ BurnRan env now cid key audit_id body reply db db')
  burn-effect body audit_id h =
      let (checked, rest) = burn-ok env now cid body key audit_id db db' reply h in
      (
        checked,
        elim (once-ok _ now cid key (burn_tokens env body audit_id) reply db db' rest) [
          | inl replayed ↦ inl replayed
          | inr ran ↦ inr (burn-Ran body audit_id ran)
        ],
      )
