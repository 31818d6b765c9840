-- ===== src/Hamilton/Conservation.antt =====
-- The supply of each currency under the three handlers.
use project_hamilton.Base.{ℕ, ◌+◌, ◌<◌, ◌≡◌, ap, inl, inr, refl, none, ◌∷◌, Text}
use project_hamilton.Base.Money.{limit}
use project_hamilton.Base.Action.{ok}
use project_hamilton.Hamilton.State.{Db, Reply}
use project_hamilton.Hamilton.Request.{Env, TxRequest, MintReq, BurnReq}
use project_hamilton.Hamilton.Idem.{find_idem}
use project_hamilton.Hamilton.Handlers.{process_tx, mint, burn}
use project_hamilton.Hamilton.Table.{IsUnique, supply, share, worth}
use project_hamilton.Hamilton.MintBurn.{token_value, minted_utxo}
use project_hamilton.Hamilton.Once.{Replayed}
use project_hamilton.Hamilton.Effects.{process_tx-effect, mint-effect, burn-effect}

-- A key that is new is not replayed.
pub not-Replayed :
    {cid key : Text} {reply : Reply} {db db' : Db}
    → find_idem cid key db.idem ≡ none
    → ¬ Replayed cid key reply db db'
not-Replayed new replayed = cc (new, replayed.found)

module _ (env : Env) (now : ℕ) (cid key : Text) (reply : Reply) (db db' : Db) where
  -- If the table holds no token twice and the unspent amount of the request's currency has at most
  -- 28 digits in cents, then a transfer that returns a response, be it stored or new, leaves the
  -- unspent amount of every currency as it was.
  pub process_tx-conserves :
      (tx : TxRequest)
      → process_tx env now cid tx key db ≡ (ok reply, db')
      → IsUnique db.utxos
      → supply tx.currency db.utxos < limit
      → (c : Text) → supply c db'.utxos ≡ supply c db.utxos
  process_tx-conserves tx h uniq fits c =
      elim (process_tx-effect env now cid key reply db db' tx h).1 [
        | inl replayed ↦ ap (λ (d : Db). supply c d.utxos) replayed.same
        | inr ran ↦ ran.conserved uniq fits c
      ]

  minted_supply :
      (c tid : Text) (body : MintReq)
      → supply c (minted_utxo body tid ∷ db.utxos)
        ≡ share c body.currency body.amount + supply c db.utxos
  unfolding supply worth
  minted_supply c tid body = refl

  -- A mint with a new key that returns raises the unspent amount of its currency by its amount,
  -- and that of no other currency.
  pub mint-supply :
      (body : MintReq) (tid : Text)
      → mint env now cid body key tid db ≡ (ok reply, db')
      → find_idem cid key db.idem ≡ none
      → (c : Text) → supply c db'.utxos ≡ share c body.currency body.amount + supply c db.utxos
  mint-supply body tid h new c = elim (mint-effect env now cid key reply db db' body tid h).1 [
    | inl replayed ↦ absurd (not-Replayed new replayed)
    | inr ran ↦ rw ran.utxos (minted_supply c tid body)
  ]

  -- A burn with a new key that returns, in a table that holds no token twice, lowers the unspent
  -- amount of each currency by exactly the value that the burned tokens had in it.
  pub burn-supply :
      (body : BurnReq) (audit_id : Text)
      → burn env now cid body key audit_id db ≡ (ok reply, db')
      → find_idem cid key db.idem ≡ none
      → IsUnique db.utxos
      → (c : Text) → supply c db'.utxos + token_value c db.utxos body.token_ids ≡ supply c db.utxos
  burn-supply body audit_id h new uniq c =
      elim (burn-effect env now cid key reply db db' body audit_id h).1 [
        | inl replayed ↦ absurd (not-Replayed new replayed)
        | inr ran ↦ ran.removed uniq c
      ]
