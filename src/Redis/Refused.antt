-- ===== src/Redis/Refused.antt =====
-- What becomes of the transactions that `process_transaction` is given.
use project_hamilton.Base.{
  ℕ, ◌≡◌, refl, ap, ◌∙◌, inl, inr, Bool, Bool-cases, Option-cases, true, false, some, List, [], ◌∷◌,
  Text, All, arith, ⊤,
}
use project_hamilton.Base.Action.{Result, ok, raise, pure, ◌>>=◌, ◌>>◌}
use project_hamilton.Models.Types.{
  str_id, uuid_id, same_kind, of_kind, mapped, Currency, Utxo, Transaction, TransactionInput,
}
use project_hamilton.Stores.State.{
  LedgerError, tx_validation, double_spend, key_error, missing_mapping, missing_utxo,
  already_processed,
}
use project_hamilton.Stores.Hash.{Env, all_texts, compute_tx_hash}
use project_hamilton.Stores.Memory.{is_empty, input_ids}
use project_hamilton.Stores.Uuids.{text_first}
use project_hamilton.Redis.State.{Stored, Store, Act, tx_exists, utxo_of, parse_utxo}
use project_hamilton.Redis.Process.{
  Check, checked, check_dumps, check_request, check_spent, sum_spent, validate_currency,
  validate_intent, parse_all, mget, read_inputs, write_transaction, process_transaction,
}

-- The call raises and leaves the store as it is.
abbrev pub Raises : {A : Type 0} → Act A → Store → Type 0
Raises act s = (e : LedgerError) × (act s ≡ (raise e, s))

by_result :
    {A B : Type 0} (r : Result LedgerError A) (c : Check A) (k : A → Act B) (s : Store)
    → (c tt).0 ≡ r
    → ((a : A) → r ≡ ok a → Raises (k a) s)
    → Raises (checked c >>= k) s
by_result (raise e) c k s h next = (e, ground arith)
by_result (ok a) c k s h next = let (e, run) = next a refl in (e, ground arith)

-- Every parsed token has a UUID object.
abbrev AllUuids : List Utxo → Type 0
AllUuids us = All (λ u. u.id_kind ≡ uuid_id) us

parse_utxo-kind :
    (is_uuid4 : Text → Bool) (now : ℕ) (d : Stored) (u : Utxo)
    → parse_utxo is_uuid4 now d ≡ some u
    → u.id_kind ≡ uuid_id
unfolding parse_utxo utxo_of
parse_utxo-kind is_uuid4 now d u h = ground arith

parse_all-step :
    (is_uuid4 : Text → Bool) (now : ℕ) (d : Stored) (ds : List Stored) (us : List Utxo)
    → (parse_all is_uuid4 now (d ∷ ds) tt).0 ≡ ok us
    → (u : Utxo) × (rest : List Utxo) × (us ≡ u ∷ rest)
      × (parse_utxo is_uuid4 now d ≡ some u)
      × ((parse_all is_uuid4 now ds tt).0 ≡ ok rest)
unfolding parse_all
parse_all-step is_uuid4 now d ds us h = ground arith

parse_all-Uuids :
    (is_uuid4 : Text → Bool) (now : ℕ) (ds : List Stored) (us : List Utxo)
    → (parse_all is_uuid4 now ds tt).0 ≡ ok us
    → AllUuids us
unfolding parse_all
parse_all-Uuids is_uuid4 now [] [] h = tt
parse_all-Uuids is_uuid4 now [] (u ∷ us) h = absurd (ground arith)
parse_all-Uuids is_uuid4 now (d ∷ ds) us h =
    let (u, rest, e, first, more) = parse_all-step is_uuid4 now d ds us h in
    rw e (parse_utxo-kind is_uuid4 now d u first, parse_all-Uuids is_uuid4 now ds rest more)

of_kind-Uuids : (us : List Utxo) → AllUuids us → of_kind str_id us ≡ []
unfolding of_kind same_kind
of_kind-Uuids [] all = refl
of_kind-Uuids (u ∷ us) all = let ih = of_kind-Uuids us all.1 in let e = all.0 in ground arith

module _ (env : Env) (is_uuid4 : Text → Bool) (now : ℕ) where
  -- A request that is checked has inputs, and names its tokens by texts.
  request_texts :
      (tx : Transaction) (a : ⊤)
      → (check_request env tx tt).0 ≡ ok a
      → (is_empty tx.inputs ≡ false) × (all_texts tx.inputs ≡ true)
  unfolding check_request check_dumps
  request_texts tx a h = ground arith

  first_missing :
      (tx_hash : Text) (target : Currency) (us : List Utxo) (i : TransactionInput)
      (is : List TransactionInput)
      → AllUuids us
      → i.id_kind ≡ str_id
      → (e : LedgerError) × ((sum_spent env now tx_hash target us 0 (i ∷ is) tt).0 ≡ raise e)
  unfolding sum_spent check_spent mapped
  first_missing tx_hash target us i is all str =
      let gone = of_kind-Uuids us all in
      let here : of_kind i.id_kind us ≡ [] = ap (λ k. of_kind k us) str ∙ gone in
      (tx_validation missing_mapping, ground arith)

  intent_raises :
      (tx : Transaction) (us : List Utxo) (tx_hash : Text) (is : List TransactionInput)
      → tx.inputs ≡ is
      → is_empty is ≡ false
      → all_texts is ≡ true
      → AllUuids us
      → (e : LedgerError) × ((validate_intent env now tx us tx_hash tt).0 ≡ raise e)
  unfolding validate_intent validate_currency is_empty
  intent_raises tx [] tx_hash is same full texts all = (key_error, refl)
  intent_raises tx (u ∷ us) tx_hash [] same full texts all = absurd cc
  intent_raises tx (u ∷ us) tx_hash (i ∷ is) same full texts all =
      let (str, rest) = text_first i is texts in
      let (e, failed) = first_missing tx_hash u.currency (u ∷ us) i is all str in (e, ground arith)

  parsed-Raises :
      (tx : Transaction) (found : List Stored) (s : Store)
      → is_empty tx.inputs ≡ false
      → all_texts tx.inputs ≡ true
      → Raises
          (checked (parse_all is_uuid4 now found) >>= (λ utxos.
            checked (validate_intent env now tx utxos (compute_tx_hash env tx)) >> pure utxos))
          s
  parsed-Raises tx found s full texts =
      let rest = λ (utxos : List Utxo).
        checked (validate_intent env now tx utxos (compute_tx_hash env tx)) >> pure utxos in
      by_result (parse_all is_uuid4 now found tt).0 (parse_all is_uuid4 now found) rest s refl
        (λ us h.
          let all = parse_all-Uuids is_uuid4 now found us h in
          let (e, failed) =
            intent_raises tx us (compute_tx_hash env tx) tx.inputs refl full texts all in
          (e, ground arith))

  read-Raises :
      (tx : Transaction) (s : Store)
      → is_empty tx.inputs ≡ false
      → all_texts tx.inputs ≡ true
      → Raises (read_inputs env is_uuid4 now tx) s
  unfolding read_inputs
  read-Raises tx s full texts = elim (Bool-cases (tx_exists now (compute_tx_hash env tx) s.txs)) [
    | inl there ↦ (tx_validation already_processed, ground arith)
    | inr new ↦ elim (Option-cases (mget (input_ids tx) s.utxos)) [
      | inl missing ↦ (double_spend missing_utxo, ground arith)
      | inr (found, got) ↦
          let (e, failed) = parsed-Raises tx found s full texts in (e, ground arith)
    ]
  ]

  -- Every call of `process_transaction` raises and leaves the store as it is, whatever the
  -- transaction and the store hold: where the inputs are named by UUID objects, the hash raises, and
  -- where they are named by texts, no parsed token is found, its identifier being a UUID object.
  pub process_raises :
      (fresh : ℕ → Text) (tx : Transaction) (s : Store)
      → (e : LedgerError) × (process_transaction env is_uuid4 now fresh tx s ≡ (raise e, s))
  unfolding process_transaction
  process_raises fresh tx s =
      let rest =
        λ (a : ⊤). read_inputs env is_uuid4 now tx >>= write_transaction env now fresh false tx in
      by_result (check_request env tx tt).0 (check_request env tx) rest s refl (λ a h.
        let (full, texts) = request_texts tx a h in
        let (e, failed) = read-Raises tx s full texts in (e, ground arith))
