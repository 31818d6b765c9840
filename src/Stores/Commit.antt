-- ===== src/Stores/Commit.antt =====
-- The second section of `apply_transaction`: the ledger that it leaves.
use project_hamilton.Base.{
  ℕ, suc, ◌≡◌, refl, some, Option-cases, Bool-cases, List, [], ◌∷◌, Text, text_dec, ite, arith, ◌⊎◌,
  inl, inr, false, contains, has_duplicate, length, dec_lt,
}
use project_hamilton.Base.Action.{ok, raise, >>=-run}
use project_hamilton.Models.Types.{Currency, Utxo, Transaction, TransactionOutput}
use project_hamilton.Stores.State.{
  Ledger, LedgerError, double_spend, spent_concurrently, processed_concurrently, get_token,
  drop_token, put_token,
}
use project_hamilton.Stores.Index.{index_discard, index_add}
use project_hamilton.Stores.Hash.{Env, compute_tx_hash}
use project_hamilton.Stores.Memory.{
  input_ids, refuse_processed, check_present, spend_token, spend_tokens, insert_token, output_token,
  insert_outputs, fee_token, insert_fee, bound_history, record_processed, commit,
}
use project_hamilton.Stores.Table.{Held, Held-drop_token}

-- The ledger without the tokens `fs` that stand under `ts`.
abbrev pub spent : List Text → List Utxo → Ledger → Ledger
spent [] fs l = l
spent (t ∷ ts) [] l = l
spent (t ∷ ts) (f ∷ fs) l = spent ts fs (record l {
  utxos = drop_token t l.utxos;
  owner_index = index_discard f.owner_public_key t l.owner_index;
})

-- The ledger with one more token.
abbrev pub with_token : Utxo → Ledger → Ledger
with_token u l = record l {
  utxos = put_token u l.utxos;
  owner_index = index_add u.owner_public_key u.token_id l.owner_index;
}

abbrev pub with_outputs : ℕ → (ℕ → Text) → ℕ → List TransactionOutput → Ledger → Ledger
with_outputs now fresh k [] l = l
with_outputs now fresh k (o ∷ os) l =
    with_outputs now fresh (suc k) os (with_token (output_token now (fresh k) o) l)

abbrev pub with_fee : ℕ → Text → ℕ → Currency → Ledger → Ledger
with_fee now tid fee currency l =
    ite (dec_lt 0 fee) (with_token (fee_token now tid fee currency l.fee_collector) l) l

-- The ledger after the transaction.
abbrev pub committed : Env → ℕ → (ℕ → Text) → Transaction → List Utxo → Currency → Ledger → Ledger
committed env now fresh tx fs currency l =
    let l' =
      with_fee now (fresh (length tx.outputs)) tx.fee currency
        (with_outputs now fresh 0 tx.outputs (spent (input_ids tx) fs l)) in
    record l' { processed_txs = bound_history (compute_tx_hash env tx ∷ l'.processed_txs) }

check_present-run :
    (ts : List Text) (fs : List Utxo) (l : Ledger)
    → Held l.utxos ts fs
    → check_present ts l ≡ (ok tt, l)
unfolding check_present
check_present-run [] fs l held = refl
check_present-run (t ∷ ts) [] l held = absurd held
check_present-run (t ∷ ts) (f ∷ fs) l held = rw (held.0) (check_present-run ts fs l held.1)

-- The ledger without one token.
abbrev spent_one : Text → Utxo → Ledger → Ledger
spent_one t f l = record l {
  utxos = drop_token t l.utxos;
  owner_index = index_discard f.owner_public_key t l.owner_index;
}

spend_token-run :
    (t : Text) (f : Utxo) (l : Ledger)
    → get_token t l.utxos ≡ some f
    → spend_token t l ≡ (ok tt, spent_one t f l)
unfolding spend_token
spend_token-run t f l found = ground arith

spend_tokens-run :
    (ts : List Text) (fs : List Utxo) (l : Ledger)
    → has_duplicate text_dec ts ≡ false
    → Held l.utxos ts fs
    → spend_tokens ts l ≡ (ok tt, spent ts fs l)
unfolding spend_tokens has_duplicate
spend_tokens-run [] [] l distinct held = refl
spend_tokens-run [] (f ∷ fs) l distinct held = absurd held
spend_tokens-run (t ∷ ts) [] l distinct held = absurd held
spend_tokens-run (t ∷ ts) (f ∷ fs) l distinct held =
    >>=-run (spend_token t) (λ _. spend_tokens ts) (spend_token-run t f l held.0)
      (spend_tokens-run ts fs (spent_one t f l) (ground arith)
        (Held-drop_token l.utxos t ts fs (ground arith) held.1))

insert_outputs-run :
    (now : ℕ) (fresh : ℕ → Text) (k : ℕ) (os : List TransactionOutput) (l : Ledger)
    → insert_outputs now fresh k os l ≡ (ok tt, with_outputs now fresh k os l)
unfolding insert_outputs insert_token
insert_outputs-run now fresh k [] l = refl
insert_outputs-run now fresh k (o ∷ os) l =
    insert_outputs-run now fresh (suc k) os (with_token (output_token now (fresh k) o) l)

insert_fee-run :
    (now : ℕ) (tid : Text) (fee : ℕ) (u : Utxo) (us : List Utxo) (l : Ledger)
    → insert_fee now tid fee (u ∷ us) l ≡ (ok tt, with_fee now tid fee u.currency l)
unfolding insert_fee insert_token
insert_fee-run now tid fee u us l = ground arith

passed :
    (tx_id : Text) (e : LedgerError) (l : Ledger)
    → contains text_dec tx_id l.processed_txs ≡ false
    → refuse_processed tx_id e l ≡ (ok tt, l)
unfolding refuse_processed
passed tx_id e l new = rw new refl

module _ (env : Env) (now : ℕ) (fresh : ℕ → Text) (tx : Transaction) (u : Utxo) (us fs : List Utxo)
    (l : Ledger) where
  pub commit-run :
      contains text_dec (compute_tx_hash env tx) l.processed_txs ≡ false
      → has_duplicate text_dec (input_ids tx) ≡ false
      → Held l.utxos (input_ids tx) fs
      → commit env now fresh tx (u ∷ us) l
        ≡ (ok (compute_tx_hash env tx), committed env now fresh tx fs u.currency l)
  unfolding commit record_processed
  commit-run new distinct held =
      let ids = input_ids tx in
      let l₁ = spent ids fs l in
      let l₂ = with_outputs now fresh 0 tx.outputs l₁ in
      ground (
        arith,
        passed (compute_tx_hash env tx) (double_spend processed_concurrently) l new,
        check_present-run ids fs l held,
        spend_tokens-run ids fs l distinct held,
        insert_outputs-run now fresh 0 tx.outputs l₁,
        insert_fee-run now (fresh (length tx.outputs)) tx.fee u us l₂,
      )

-- Either every token of the list is there, or the check raises.
present_or :
    (ts : List Text) (l : Ledger)
    → ((fs : List Utxo) × Held l.utxos ts fs)
      ⊎ (check_present ts l ≡ (raise (double_spend spent_concurrently), l))
unfolding check_present
present_or [] l = inl ([], tt)
present_or (t ∷ ts) l = elim (Option-cases (get_token t l.utxos)) [
  | inl gone ↦ inr (ground arith)
  | inr (f, found) ↦ elim (present_or ts l) [
    | inl (fs, held) ↦ inl (f ∷ fs, (found, held))
    | inr missing ↦ inr (ground arith)
  ]
]

module _ (env : Env) (now : ℕ) (fresh : ℕ → Text) (tx : Transaction) (u : Utxo) (us : List Utxo)
    (l : Ledger) where
  -- A commit that finds its tokens leaves the committed ledger, and any other raises and changes
  -- nothing.
  pub commit_cases :
      has_duplicate text_dec (input_ids tx) ≡ false
      → ((fs : List Utxo) × Held l.utxos (input_ids tx) fs
          × (contains text_dec (compute_tx_hash env tx) l.processed_txs ≡ false)
          × (commit env now fresh tx (u ∷ us) l
              ≡ (ok (compute_tx_hash env tx), committed env now fresh tx fs u.currency l)))
        ⊎ ((e : LedgerError) × (commit env now fresh tx (u ∷ us) l ≡ (raise e, l)))
  unfolding commit refuse_processed
  commit_cases distinct =
      elim (Bool-cases (contains text_dec (compute_tx_hash env tx) l.processed_txs)) [
        | inl old ↦ inr (double_spend processed_concurrently, ground arith)
        | inr new ↦ elim (present_or (input_ids tx) l) [
          | inl (fs, held) ↦
              inl (fs, held, new, commit-run env now fresh tx u us fs l new distinct held)
          | inr missing ↦ inr (double_spend spent_concurrently, ground arith)
        ]
      ]
