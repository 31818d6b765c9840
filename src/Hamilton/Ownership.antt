-- ===== src/Hamilton/Ownership.antt =====
-- Who may spend or burn what, and what an exception leaves.
use project_hamilton.Base.{ℕ, ◌≡◌, inl, inr, none, some, Text, All}
use project_hamilton.Base.Action.{ok}
use project_hamilton.Hamilton.State.{Db, Reply, find_utxo}
use project_hamilton.Hamilton.Request.{Env, TxRequest, BurnReq}
use project_hamilton.Hamilton.Idem.{find_idem}
use project_hamilton.Hamilton.Handlers.{new_utxo, process_tx, burn}
use project_hamilton.Hamilton.Spending.{Consumed}
use project_hamilton.Hamilton.Transfer.{transfer_reply}
use project_hamilton.Hamilton.MintBurn.{Burned, burn_reply}
use project_hamilton.Hamilton.Guards.{TxChecked, BurnChecked}
use project_hamilton.Hamilton.Conservation.{not-Replayed}
use project_hamilton.Hamilton.Effects.{process_tx-effect, burn-effect}

module _ (env : Env) (now : ℕ) (cid key : Text) (db db' : Db) where
  -- If a transfer with a new key returns a response, then it has passed every check, its signature
  -- among them; each input was an unspent token of its currency, owned by the signer, and is that
  -- token, spent, now; each output is in the table as an unspent token of its receiver; and the
  -- response is a 200 that names the transaction.
  pub process_tx-spends :
      (tx : TxRequest) (reply : Reply)
      → process_tx env now cid tx key db ≡ (ok reply, db')
      → find_idem cid key db.idem ≡ none
      → TxChecked env now tx key
        × All (Consumed tx db.utxos db'.utxos) tx.inputs
        × All (λ o. find_utxo o.token_id db'.utxos ≡ some (new_utxo tx.currency o)) tx.outputs
        × (reply ≡ transfer_reply tx)
  process_tx-spends tx reply h new =
      let (checked, outcome) = process_tx-effect env now cid key reply db db' tx h in
      elim outcome [
        | inl replayed ↦ absurd (not-Replayed new replayed)
        | inr ran ↦ (checked, ran.consumed, ran.created, ran.replied)
      ]

  -- If a burn with a new key returns a response, then it has passed every check, its signature
  -- among them; each token was unspent and owned by the signer, and is that token, burned, now; and
  -- the response is a 200 that counts the tokens.
  pub burn-retires :
      (body : BurnReq) (audit_id : Text) (reply : Reply)
      → burn env now cid body key audit_id db ≡ (ok reply, db')
      → find_idem cid key db.idem ≡ none
      → BurnChecked env now body key
        × All (Burned body db.utxos db'.utxos) body.token_ids
        × (reply ≡ burn_reply body)
  burn-retires body audit_id reply h new =
      let (checked, outcome) = burn-effect env now cid key reply db db' body audit_id h in
      elim outcome [
        | inl replayed ↦ absurd (not-Replayed new replayed)
        | inr ran ↦ (checked, ran.retired, ran.replied)
      ]
