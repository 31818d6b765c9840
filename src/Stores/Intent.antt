-- ===== src/Stores/Intent.antt =====
-- What `apply_transaction` has checked when its first section returns.
use project_hamilton.Base.{
  ℕ, ◌≡◌, ◌∙◌, some, List, [], ◌∷◌, Text, arith, ⊤, true, false, map, ℕ_discrete, All,
}
use project_hamilton.Base.Money.{add_money}
use project_hamilton.Base.Action.{ok, require, >>=-ok, ◌>>=◌}
use project_hamilton.Models.Types.{
  IdKind, same_kind, mapped, of_kind, Currency, Utxo, Transaction, TransactionInput,
  TransactionOutput,
}
use project_hamilton.Stores.State.{Ledger, get_token, tx_validation, ledger_imbalance}
use project_hamilton.Stores.Hash.{Env, sig_payload}
use project_hamilton.Stores.Memory.{
  input_ids, is_expired, is_locked, check_signature, check_input, sum_inputs, sum_outputs,
  validate_against, fetch_inputs,
}
use project_hamilton.Stores.Table.{Held, get_token-id}

fetch_inputs-step :
    (t : Text) (ts : List Text) (l l' : Ledger) (fs : List Utxo)
    → fetch_inputs (t ∷ ts) l ≡ (ok fs, l')
    → (u : Utxo) × (rest : List Utxo) × (get_token t l.utxos ≡ some u)
      × (fs ≡ u ∷ rest)
      × (fetch_inputs ts l ≡ (ok rest, l'))
unfolding fetch_inputs
fetch_inputs-step t ts l l' fs h = ground arith

-- The first section reads the tokens that stand under the identifiers.
pub fetch_inputs-Held :
    (ts : List Text) (l l' : Ledger) (fs : List Utxo)
    → fetch_inputs ts l ≡ (ok fs, l')
    → (l' ≡ l) × Held l.utxos ts fs
unfolding fetch_inputs
fetch_inputs-Held [] l l' [] h = (ground arith, tt)
fetch_inputs-Held [] l l' (f ∷ fs) h = absurd (ground arith)
fetch_inputs-Held (t ∷ ts) l l' [] h =
    let (u, rest, found, e, tail) = fetch_inputs-step t ts l l' [] h in cc
fetch_inputs-Held (t ∷ ts) l l' (f ∷ fs) h =
    let (u, rest, found, e, tail) = fetch_inputs-step t ts l l' (f ∷ fs) h in
    let (same, held) = fetch_inputs-Held ts l l' rest tail in
    let e' : rest ≡ fs = ground arith in (same, (ground arith, rw (← e') held))

-- A token of the map stands in the table under its identifier, and is of the kind asked for.
pub mapped-Held :
    (us : List Utxo) (ts : List Text) (fs : List Utxo) (k : IdKind) (tid : Text) (u : Utxo)
    → Held us ts fs
    → mapped tid (of_kind k fs) ≡ some u
    → (get_token tid us ≡ some u) × (same_kind u.id_kind k ≡ true)
unfolding mapped of_kind
mapped-Held us [] [] k tid u held h = absurd cc
mapped-Held us [] (f ∷ fs) k tid u held h = absurd held
mapped-Held us (t ∷ ts) [] k tid u held h = absurd held
mapped-Held us (t ∷ ts) (f ∷ fs) k tid u held h =
    ground (arith, mapped-Held us ts fs k tid u held.1, get_token-id t f us held.0)

-- What an input needs to be spent: its token has the same kind of identifier, is of the currency, has not expired, has no lock
-- script, and its owner has signed.
pub record Spendable (env : Env) (now : ℕ) (tx_hash : Text) (target : Currency)
    (inp : TransactionInput) (u : Utxo) : Type 0 where
  pub kind : same_kind u.id_kind inp.id_kind ≡ true
  pub currency : u.currency ≡ target
  pub live : is_expired now u.expires_at ≡ false
  pub unlocked : is_locked u.lock_script ≡ false
  pub signed : env.verify u.owner_public_key (sig_payload tx_hash u.token_id) inp.signature ≡ true

abbrev pub AllSpendable : Env → ℕ → Text → Currency → List TransactionInput → List Utxo → Type 0
AllSpendable env now tx_hash target [] [] = ⊤
AllSpendable env now tx_hash target [] (f ∷ fs) = ⊥
AllSpendable env now tx_hash target (i ∷ is) [] = ⊥
AllSpendable env now tx_hash target (i ∷ is) (f ∷ fs) =
    Spendable env now tx_hash target i f × AllSpendable env now tx_hash target is fs

-- `total_in` and `total_out`, by rounding after each addition.
unfoldable pub add_tokens : ℕ → List Utxo → ℕ
add_tokens total [] = total
add_tokens total (u ∷ us) = add_tokens (add_money total u.amount) us

unfoldable pub add_outputs : ℕ → List TransactionOutput → ℕ
add_outputs total [] = total
add_outputs total (o ∷ os) = add_outputs (add_money total o.amount) os

module _ (env : Env) (now : ℕ) (tx_hash : Text) (target : Currency) where
  check_input-ok :
      (inputs : List Utxo) (i : TransactionInput) (l l' : Ledger) (amount : ℕ)
      → check_input env now tx_hash target inputs i l ≡ (ok amount, l')
      → (u : Utxo) × (mapped i.token_id (of_kind i.id_kind inputs) ≡ some u)
        × (same_kind u.id_kind i.id_kind ≡ true → Spendable env now tx_hash target i u)
        × (amount ≡ u.amount)
        × (l' ≡ l)
  unfolding check_input check_signature
  check_input-ok inputs i l l' amount h = ground arith

  sum_inputs-ok :
      (us inputs fs : List Utxo) (ts : List Text) (total : ℕ) (is : List TransactionInput)
      (l l' : Ledger) (r : ℕ)
      → Held us ts inputs
      → Held us (map (λ i. i.token_id) is) fs
      → sum_inputs env now tx_hash target inputs total is l ≡ (ok r, l')
      → AllSpendable env now tx_hash target is fs × (r ≡ add_tokens total fs) × (l' ≡ l)
  unfolding sum_inputs add_tokens
  sum_inputs-ok us inputs [] ts total [] l l' r all held h = (tt, ground arith, ground arith)
  sum_inputs-ok us inputs (f ∷ fs) ts total [] l l' r all held h = absurd held
  sum_inputs-ok us inputs [] ts total (i ∷ is) l l' r all held h = absurd held
  sum_inputs-ok us inputs (f ∷ fs) ts total (i ∷ is) l l' r all held h =
      let (amount, l₁, first, rest) =
        >>=-ok (check_input env now tx_hash target inputs i)
          (λ amount. sum_inputs env now tx_hash target inputs (add_money total amount) is) h in
      let (u, found, able, paid, same) = check_input-ok inputs i l l₁ amount first in
      let (stands, kind) = mapped-Held us ts inputs i.id_kind i.token_id u all found in
      let at = held.0 in
      let e : u ≡ f = ground arith in
      let (ables, sum, same') =
        sum_inputs-ok us inputs fs ts (add_money total amount) is l₁ l' r all held.1 rest in
      ((rw (← e) (able kind), ables), ground arith, same' ∙ same)

  first_output :
      (total : ℕ) (o : TransactionOutput) (os : List TransactionOutput) (l l' : Ledger) (r : ℕ)
      → sum_outputs target total (o ∷ os) l ≡ (ok r, l')
      → (o.currency ≡ target) × (sum_outputs target (add_money total o.amount) os l ≡ (ok r, l'))
  unfolding sum_outputs
  first_output total o os l l' r h = ground arith

  sum_outputs-ok :
      (total : ℕ) (os : List TransactionOutput) (l l' : Ledger) (r : ℕ)
      → sum_outputs target total os l ≡ (ok r, l')
      → All (λ o. o.currency ≡ target) os × (r ≡ add_outputs total os) × (l' ≡ l)
  unfolding sum_outputs add_outputs
  sum_outputs-ok total [] l l' r h = (tt, ground arith, ground arith)
  sum_outputs-ok total (o ∷ os) l l' r h =
      let (same, rest) = first_output total o os l l' r h in
      let (alls, sum, e) = sum_outputs-ok (add_money total o.amount) os l l' r rest in
      ((same, alls), sum, e)

  -- What `_validate_tx_intent` has checked.
  pub record Balanced (tx : Transaction) (fs : List Utxo) : Type 0 where
    pub inputs : AllSpendable env now tx_hash target tx.inputs fs
    pub outputs : All (λ o. o.currency ≡ target) tx.outputs
    pub sums : add_tokens 0 fs ≡ add_money (add_outputs 0 tx.outputs) tx.fee

  pub validate_against-ok :
      (tx : Transaction) (fs : List Utxo) (l l' : Ledger) (a : ⊤)
      → Held l.utxos (input_ids tx) fs
      → validate_against env now tx fs tx_hash target l ≡ (ok a, l')
      → Balanced tx fs × (l' ≡ l)
  unfolding validate_against input_ids
  validate_against-ok tx fs l l' a held h =
      let (total_in, l₁, first, rest) =
        >>=-ok (sum_inputs env now tx_hash target fs 0 tx.inputs)
          (λ total_in. sum_outputs target 0 tx.outputs >>= λ total_out.
            require (ℕ_discrete total_in (add_money total_out tx.fee))
              (tx_validation ledger_imbalance))
          h in
      let (total_out, l₂, second, last) =
        >>=-ok (sum_outputs target 0 tx.outputs)
          (λ total_out.
            require (ℕ_discrete total_in (add_money total_out tx.fee))
              (tx_validation ledger_imbalance))
          rest in
      let (ables, sum_in, same₁) =
        sum_inputs-ok l.utxos fs fs (input_ids tx) 0 tx.inputs l l₁ total_in held held first in
      let (alls, sum_out, same₂) = sum_outputs-ok 0 tx.outputs l₁ l₂ total_out second in
      (record { inputs = ables; outputs = alls; sums = ground arith }, ground arith)
