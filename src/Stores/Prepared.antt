-- ===== src/Stores/Prepared.antt =====
-- The first section of `apply_transaction`: it changes nothing, and what it has checked.
use project_hamilton.Base.{
  ℕ, ◌≡◌, subst, sym, Bool, refl, List, [], ◌∷◌, Text, text_dec, arith, ⊤, ◌⊎◌, inl, inr, true,
  false, contains, has_duplicate,
}
use project_hamilton.Base.Action.{ok, >>=-ok, pure, refuse_if, ◌>>=◌, ◌>>◌}
use project_hamilton.Base.Action.Atomic.{
  IsReadonly, >>-ok, readonly_rules, >>=-IsReadonly, >>-IsReadonly, refuse_if-IsReadonly,
  pure-IsReadonly,
}
use project_hamilton.Base.Money.{add_money}
use project_hamilton.Models.Types.{
  IdKind, str_id, uuid_id, Currency, Utxo, Transaction, TransactionInput, TransactionOutput,
}
use project_hamilton.Stores.State.{
  Ledger, LedgerError, Act, tx_validation, duplicate_inputs, already_processed,
}
use project_hamilton.Stores.Hash.{Env, all_texts, compute_tx_hash}
use project_hamilton.Stores.Memory.{
  check_amounts, check_shape, check_id, check_texts, refuse_processed, fetch_inputs,
  check_signature, check_input, sum_inputs, sum_outputs, validate_against, validate_tx_intent,
  prepare, input_ids,
}
use project_hamilton.Stores.Table.{Held}
use project_hamilton.Stores.Intent.{Balanced, fetch_inputs-Held, validate_against-ok}

check_amounts-IsReadonly : (os : List TransactionOutput) → IsReadonly (check_amounts os)
unfolding check_amounts
check_amounts-IsReadonly [] = search readonly_rules
check_amounts-IsReadonly (o ∷ os) = record {
  at = λ l. ground (arith, (check_amounts-IsReadonly os).at l);
}

check_shape-IsReadonly : (tx : Transaction) → IsReadonly (check_shape tx)
unfolding check_shape
check_shape-IsReadonly tx = record {
  at = λ l. ground (arith, (check_amounts-IsReadonly tx.outputs).at l);
}

check_id-IsReadonly :
    (kind : IdKind) (given derived : Text) → IsReadonly (check_id kind given derived)
unfolding check_id
check_id-IsReadonly kind [] derived = search readonly_rules
check_id-IsReadonly str_id (c ∷ given) derived = search readonly_rules
check_id-IsReadonly uuid_id (c ∷ given) derived = search readonly_rules

check_texts-IsReadonly : (b : Bool) → IsReadonly (check_texts b)
unfolding check_texts
check_texts-IsReadonly true = search readonly_rules
check_texts-IsReadonly false = search readonly_rules

refuse_processed-IsReadonly :
    (tx_id : Text) (e : LedgerError) → IsReadonly (refuse_processed tx_id e)
unfolding refuse_processed
refuse_processed-IsReadonly tx_id e = record { at = λ l. ground arith }

fetch_inputs-IsReadonly : (ts : List Text) → IsReadonly (fetch_inputs ts)
unfolding fetch_inputs
fetch_inputs-IsReadonly [] = search readonly_rules
fetch_inputs-IsReadonly (t ∷ ts) = record {
  at = λ l. ground (arith, (fetch_inputs-IsReadonly ts).at l);
}

module _ (env : Env) (now : ℕ) where
  module _ (tx_hash : Text) (target : Currency) (inputs : List Utxo) where
    check_input-IsReadonly :
        (i : TransactionInput) → IsReadonly (check_input env now tx_hash target inputs i)
    unfolding check_input check_signature
    check_input-IsReadonly i = record { at = λ l. ground arith }

    sum_inputs-IsReadonly :
        (total : ℕ) (is : List TransactionInput)
        → IsReadonly (sum_inputs env now tx_hash target inputs total is)
    unfolding sum_inputs
    sum_inputs-IsReadonly total [] = search readonly_rules
    sum_inputs-IsReadonly total (i ∷ is) =
        >>=-IsReadonly _ _ (check_input-IsReadonly i)
          (λ amount. sum_inputs-IsReadonly (add_money total amount) is)

  pub sum_outputs-IsReadonly :
      (target : Currency) (total : ℕ) (os : List TransactionOutput)
      → IsReadonly (sum_outputs target total os)
  unfolding sum_outputs
  sum_outputs-IsReadonly target total [] = search readonly_rules
  sum_outputs-IsReadonly target total (o ∷ os) = record {
    at = λ l. ground (arith, (sum_outputs-IsReadonly target (add_money total o.amount) os).at l);
  }

  validate_against-IsReadonly :
      (tx : Transaction) (inputs : List Utxo) (tx_hash : Text) (target : Currency)
      → IsReadonly (validate_against env now tx inputs tx_hash target)
  unfolding validate_against
  validate_against-IsReadonly tx inputs tx_hash target = search (
    readonly_rules,
    sum_inputs-IsReadonly tx_hash target inputs 0 tx.inputs,
    sum_outputs-IsReadonly target 0 tx.outputs,
  )

  validate_tx_intent-IsReadonly :
      (tx : Transaction) (inputs : List Utxo) (tx_hash : Text)
      → IsReadonly (validate_tx_intent env now tx inputs tx_hash)
  unfolding validate_tx_intent
  validate_tx_intent-IsReadonly tx [] tx_hash = search readonly_rules
  validate_tx_intent-IsReadonly tx (u ∷ us) tx_hash =
      validate_against-IsReadonly tx (u ∷ us) tx_hash u.currency

  pub prepare-IsReadonly : (tx : Transaction) → IsReadonly (prepare env now tx)
  unfolding prepare
  prepare-IsReadonly tx = >>-IsReadonly _ _ (check_shape-IsReadonly tx) (
      >>-IsReadonly _ _ (check_texts-IsReadonly (all_texts tx.inputs)) (
        >>-IsReadonly _ _
          (check_id-IsReadonly tx.id_kind tx.transaction_id (compute_tx_hash env tx))
          (>>-IsReadonly _ _
            (refuse_if-IsReadonly (has_duplicate text_dec (input_ids tx))
              (tx_validation duplicate_inputs))
            (>>-IsReadonly _ _
              (refuse_processed-IsReadonly (compute_tx_hash env tx)
                (tx_validation already_processed))
              (>>=-IsReadonly _ _ (fetch_inputs-IsReadonly (input_ids tx)) (λ fetched.
                >>-IsReadonly _ _
                  (validate_tx_intent-IsReadonly tx fetched (compute_tx_hash env tx))
                  (pure-IsReadonly fetched)))))))

  -- What `prepare` has checked when it returns.
  pub record Prepared (tx : Transaction) (l : Ledger) (u : Utxo) (us : List Utxo) : Type 0 where
    pub texts : all_texts tx.inputs ≡ true
    pub id : (tx.transaction_id ≡ []) ⊎ (tx.transaction_id ≡ compute_tx_hash env tx)
    pub distinct : has_duplicate text_dec (input_ids tx) ≡ false
    pub new : contains text_dec (compute_tx_hash env tx) l.processed_txs ≡ false
    pub held : Held l.utxos (input_ids tx) (u ∷ us)
    pub balanced : Balanced env now (compute_tx_hash env tx) u.currency tx (u ∷ us)

  validated :
      (tx : Transaction) (fetched : List Utxo) (l l' : Ledger) (a : ⊤)
      → Held l.utxos (input_ids tx) fetched
      → validate_tx_intent env now tx fetched (compute_tx_hash env tx) l ≡ (ok a, l')
      → (u : Utxo) × (us : List Utxo) × (fetched ≡ u ∷ us)
        × Balanced env now (compute_tx_hash env tx) u.currency tx (u ∷ us)
  unfolding validate_tx_intent
  validated tx [] l l' a held h = cc
  validated tx (u ∷ us) l l' a held h = (
    u,
    us,
    refl,
    (validate_against-ok env now (compute_tx_hash env tx) u.currency tx (u ∷ us) l l' a held h).0,
  )

  validated_last :
      (tx : Transaction) (fs fetched : List Utxo) (l l' : Ledger)
      → (validate_tx_intent env now tx fs (compute_tx_hash env tx) >> pure fs) l ≡ (ok fetched, l')
      → (fetched ≡ fs)
        × (a : ⊤) × (validate_tx_intent env now tx fs (compute_tx_hash env tx) l ≡ (ok a, l'))
  validated_last tx fs fetched l l' h = ground arith

  -- The ends of `prepare`, each after one more step.
  abbrev from_fetch : Transaction → Act (List Utxo)
  from_fetch tx = do
    fetched ← fetch_inputs (input_ids tx)
    validate_tx_intent env now tx fetched (compute_tx_hash env tx)
    pure fetched

  abbrev from_processed : Transaction → Act (List Utxo)
  from_processed tx =
      refuse_processed (compute_tx_hash env tx) (tx_validation already_processed) >> from_fetch tx

  abbrev from_distinct : Transaction → Act (List Utxo)
  from_distinct tx =
      refuse_if (has_duplicate text_dec (input_ids tx)) (tx_validation duplicate_inputs)
      >> from_processed tx

  checked_id :
      (kind : IdKind) (given derived : Text) (l : Ledger) (a : ⊤)
      → check_id kind given derived l ≡ (ok a, l)
      → (given ≡ []) ⊎ (given ≡ derived)
  unfolding check_id
  checked_id kind [] derived l a h = inl refl
  checked_id str_id (c ∷ given) derived l a h = inr (ground arith)
  checked_id uuid_id (c ∷ given) derived l a h = absurd (ground arith)

  checked_texts : (b : Bool) (l l' : Ledger) (a : ⊤) → check_texts b l ≡ (ok a, l') → b ≡ true
  unfolding check_texts
  checked_texts true l l' a h = refl
  checked_texts false l l' a h = absurd (ground arith)

  refused_if_ok :
      (b : Bool) (e : LedgerError) (l : Ledger) (a : ⊤) → refuse_if b e l ≡ (ok a, l) → b ≡ false
  refused_if_ok true e l a h = cc
  refused_if_ok false e l a h = refl

  -- The checks of `prepare`, one by one, when it returns.
  pub prepare-parts :
      (tx : Transaction) (l l' : Ledger) (fetched : List Utxo)
      → prepare env now tx l ≡ (ok fetched, l')
      → (l' ≡ l)
        × (check_shape tx l ≡ (ok tt, l))
        × (all_texts tx.inputs ≡ true)
        × (check_id tx.id_kind tx.transaction_id (compute_tx_hash env tx) l ≡ (ok tt, l))
        × (has_duplicate text_dec (input_ids tx) ≡ false)
        × (contains text_dec (compute_tx_hash env tx) l.processed_txs ≡ false)
        × Held l.utxos (input_ids tx) fetched
        × (validate_tx_intent env now tx fetched (compute_tx_hash env tx) l ≡ (ok tt, l))
  unfolding prepare refuse_processed
  prepare-parts tx l l' fetched h =
      let same : l' ≡ l = ground (arith, (prepare-IsReadonly tx).at l) in
      let (a₁, shape, r₁) =
        >>-ok (check_shape tx)
          (check_texts (all_texts tx.inputs)
            >> (check_id tx.id_kind tx.transaction_id (compute_tx_hash env tx) >> from_distinct tx))
          (check_shape-IsReadonly tx) h in
      let (a₀, texts, r₀) =
        >>-ok (check_texts (all_texts tx.inputs))
          (check_id tx.id_kind tx.transaction_id (compute_tx_hash env tx) >> from_distinct tx)
          (check_texts-IsReadonly (all_texts tx.inputs)) r₁ in
      let (a₂, id, r₂) =
        >>-ok (check_id tx.id_kind tx.transaction_id (compute_tx_hash env tx)) (from_distinct tx)
          (check_id-IsReadonly tx.id_kind tx.transaction_id (compute_tx_hash env tx)) r₀ in
      let (a₃, distinct, r₃) =
        >>-ok (refuse_if (has_duplicate text_dec (input_ids tx)) (tx_validation duplicate_inputs))
          (from_processed tx)
          (refuse_if-IsReadonly (has_duplicate text_dec (input_ids tx))
            (tx_validation duplicate_inputs))
          r₂ in
      let (a₄, new, r₄) =
        >>-ok (refuse_processed (compute_tx_hash env tx) (tx_validation already_processed))
          (from_fetch tx)
          (refuse_processed-IsReadonly (compute_tx_hash env tx) (tx_validation already_processed))
          r₃ in
      let (fs, l₅, got, r₅) =
        >>=-ok (fetch_inputs (input_ids tx))
          (λ fetched.
            validate_tx_intent env now tx fetched (compute_tx_hash env tx) >> pure fetched)
          r₄ in
      let (same₅, held) = fetch_inputs-Held (input_ids tx) l l₅ fs got in
      let (whole, a₆, valid) = validated_last tx fs fetched l₅ l' r₅ in
      let back = λ (x : Ledger) (y : Ledger).
        validate_tx_intent env now tx fs (compute_tx_hash env tx) x ≡ (ok a₆, y) in
      let valid' = subst (λ y. back l y) same (subst (λ x. back x l') same₅ valid) in
      (
        same,
        shape,
        checked_texts (all_texts tx.inputs) l l a₀ texts,
        id,
        refused_if_ok _ _ l a₃ distinct,
        refused_if_ok _ _ l a₄ new,
        subst (Held l.utxos (input_ids tx)) (sym whole) held,
        subst (λ xs. validate_tx_intent env now tx xs (compute_tx_hash env tx) l ≡ (ok a₆, l))
            (sym whole) valid',
      )

  pub prepare-ok :
      (tx : Transaction) (l l' : Ledger) (fetched : List Utxo)
      → prepare env now tx l ≡ (ok fetched, l')
      → (u : Utxo) × (us : List Utxo) × (fetched ≡ u ∷ us) × Prepared tx l u us × (l' ≡ l)
  prepare-ok tx l l' fetched h =
      let (same, shape, texts, id, distinct, new, held, valid) = prepare-parts tx l l' fetched h in
      let (u, us, cons, balanced) = validated tx fetched l l tt held valid in
      (
        u,
        us,
        cons,
        record {
          texts = texts;
          id = checked_id tx.id_kind tx.transaction_id (compute_tx_hash env tx) l tt id;
          distinct = distinct;
          new = new;
          held = subst (Held l.utxos (input_ids tx)) cons held;
          balanced = balanced;
        },
        same,
      )
