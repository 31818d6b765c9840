-- ===== src/Stores/Apply.antt =====
-- `apply_transaction` on a ledger that no other thread changes.
use project_hamilton.Base.{
  ℕ, ◌≡◌, ◌<◌, refl, none, List, [], ◌∷◌, Text, arith, true, inl, inr, ◌⊎◌, subst, sym, All,
  contains, dec_lt, text_dec,
}
use project_hamilton.Base.Money.{limit}
use project_hamilton.Base.Action.{ok, raise, outcome}
use project_hamilton.Models.Types.{Currency, Utxo, Transaction}
use project_hamilton.Stores.State.{Ledger, LedgerError, get_token}
use project_hamilton.Stores.Hash.{Env, compute_tx_hash}
use project_hamilton.Stores.Memory.{
  input_ids, prepare, apply_transaction, bound_history, drop_oldest,
}
use project_hamilton.Stores.Table.{IsUnique, Held, supply}
use project_hamilton.Stores.Commit.{committed, commit-run}
use project_hamilton.Stores.Prepared.{Prepared, prepare-ok, prepare-IsReadonly}
use project_hamilton.Stores.Conserve.{IsFresh, committed-supply, committed-gone}
use project_hamilton.Stores.Intent.{AllSpendable}

module _ (env : Env) (now : ℕ) (fresh : ℕ → Text) (tx : Transaction) (l : Ledger) where
  -- Either the checks raise and nothing changes, or the transaction is committed.
  pub apply_cases :
      ((u : Utxo) × (us : List Utxo) × Prepared env now tx l u us
        × (apply_transaction env now fresh tx l
            ≡ (ok (compute_tx_hash env tx), committed env now fresh tx (u ∷ us) u.currency l)))
      ⊎ ((e : LedgerError) × (apply_transaction env now fresh tx l ≡ (raise e, l)))
  unfolding apply_transaction
  apply_cases = elim (outcome (prepare env now tx l)) [
    | inr (e, l', failed) ↦
        let same : l' ≡ l = ground (arith, (prepare-IsReadonly env now tx).at l) in
        inr (e, ground arith)
    | inl (fetched, l', done) ↦
        let (u, us, cons, prepared, same) = prepare-ok env now tx l l' fetched done in
        let run =
          commit-run env now fresh tx u us (u ∷ us) l prepared.new prepared.distinct
            prepared.held in
        inl (u, us, prepared, ground arith)
  ]

  -- If no token of the ledger occurs twice, the identifiers of the new tokens are fresh, and the
  -- amount of every currency has at most 28 digits in cents, then a call, whatever its outcome,
  -- leaves the amount of every currency as it was: the fee goes to the fee collector.
  pub apply-conserves :
      IsUnique l.utxos
      → IsFresh fresh l.utxos
      → ((c : Currency) → supply c l.utxos < limit)
      → (c : Currency) → supply c (apply_transaction env now fresh tx l).1.utxos ≡ supply c l.utxos
  apply-conserves uniq ids small c = elim apply_cases [
    | inr (e, failed) ↦ rw failed refl
    | inl (u, us, p, done) ↦
        rw done
          (committed-supply env now now fresh tx u us l uniq ids p.distinct p.held p.balanced c
            (small u.currency)).0
  ]

newest_kept : (x : Text) (xs : List Text) → contains text_dec x (bound_history (x ∷ xs)) ≡ true
unfolding bound_history drop_oldest contains dec_lt
newest_kept x [] = ground arith
newest_kept x (y ∷ ys) = ground arith

module _ (env : Env) (now later : ℕ) (fresh other : ℕ → Text) (tx again : Transaction)
    (l l' : Ledger) where
  -- On the ledger that an applied transaction leaves, a transaction of the same hash, at any time
  -- and with any new identifiers, raises and changes nothing.
  pub apply_once :
      (r : Text)
      → apply_transaction env now fresh tx l ≡ (ok r, l')
      → compute_tx_hash env again ≡ compute_tx_hash env tx
      → (e : LedgerError) × (apply_transaction env later other again l' ≡ (raise e, l'))
  apply_once r h same = elim (apply_cases env later other again l') [
    | inr refused ↦ refused
    | inl (u, us, p, done) ↦ elim (apply_cases env now fresh tx l) [
      | inr (e, failed) ↦ absurd (ground arith)
      | inl (v, vs, q, first) ↦
          let l₂ = committed env now fresh tx (v ∷ vs) v.currency l in
          let kept : contains text_dec (compute_tx_hash env tx) l₂.processed_txs ≡ true =
            newest_kept (compute_tx_hash env tx) _ in
          let e : l' ≡ l₂ = ground arith in
          let there =
            subst (λ x. contains text_dec x l'.processed_txs ≡ true) (sym same)
              (subst (λ x. contains text_dec (compute_tx_hash env tx) x.processed_txs ≡ true)
                (sym e) kept) in
          let new = p.new in absurd (cc)
    ]
  ]

  -- What an applied transaction has done, if no token of the ledger occurs twice and the
  -- identifiers of the new tokens are fresh: it returned its hash; each input was a token of the
  -- ledger in one currency, unexpired, without a lock script and signed by its owner, and is gone;
  -- the outputs are of that currency.
  pub apply-spends :
      (r : Text)
      → IsUnique l.utxos
      → IsFresh fresh l.utxos
      → apply_transaction env now fresh tx l ≡ (ok r, l')
      → (r ≡ compute_tx_hash env tx)
        × (u : Utxo) × (us : List Utxo) × Held l.utxos (input_ids tx) (u ∷ us)
        × AllSpendable env now (compute_tx_hash env tx) u.currency tx.inputs (u ∷ us)
        × All (λ o. o.currency ≡ u.currency) tx.outputs
        × All (λ tid. get_token tid l'.utxos ≡ none) (input_ids tx)
  apply-spends r uniq ids h = elim (apply_cases env now fresh tx l) [
    | inr (e, failed) ↦ absurd (ground arith)
    | inl (u, us, p, done) ↦
        let e : l' ≡ committed env now fresh tx (u ∷ us) u.currency l = ground arith in
        let gone =
          committed-gone env now now fresh tx u us l uniq ids p.distinct p.held p.balanced in
        (ground arith, u, us, p.held, p.balanced.inputs, p.balanced.outputs, rw e gone)
  ]
