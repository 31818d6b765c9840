-- ===== src/Wallet/Build.antt =====
-- `build_payment` and `sign`: how they end.
use project_hamilton.Base.{
  ℕ, ◌≡◌, refl, ap, subst, ◌*◌, ◌^◌, ◌≤◌, false, List, [], ◌∷◌, Text, All, arith,
}
use project_hamilton.Base.Decimal.{Decimal}
use project_hamilton.Base.Action.{raise, pure, ◌>>=◌, ◌>>◌}
use project_hamilton.Models.Types.{uuid_id, Currency, Utxo, Transaction, TransactionOutput}
use project_hamilton.Models.Validate.{
  Checked, valid, invalid, validation_error, both, then_check, currency_amount, script_fits,
  check_script, make_output, check_output,
}
use project_hamilton.Stores.Hash.{text_then}
use project_hamilton.Wallet.Payment.{
  Act, Files, WalletError, insufficient_balance, type_error, model_error, all_listed, check_listed,
  lock_tokens, available, sort_largest, Covers, covers_dec, choose, change_of, payment_output,
  payment_transaction, change_outputs, output_then, payment_outputs, accept_outputs, pay_chosen,
  build_payment,
}
use project_hamilton.Wallet.Choice.{available-All, sort_largest-All, choose-All}

-- The tokens have UUID objects as identifiers, as the validators make them.
abbrev pub AllUuids : List Utxo → Type 0
AllUuids us = All (λ u. u.id_kind ≡ uuid_id) us

-- What is raised after the choice: the error of an output that is refused, or the TypeError.
abbrev pub raised : Checked (List TransactionOutput) → WalletError
raised (valid os) = type_error
raised (invalid e) = model_error e

unlisted : (u : Utxo) (us : List Utxo) → AllUuids (u ∷ us) → all_listed (u ∷ us) ≡ false
unfolding all_listed text_then
unlisted u us all = let e = all.0 in ground arith

lock_raises :
    (u : Utxo) (us : List Utxo) (files : Files)
    → AllUuids (u ∷ us)
    → lock_tokens (u ∷ us) files ≡ (raise type_error, files)
unfolding lock_tokens check_listed
lock_raises u us files all = let e = unlisted u us all in ground arith

-- An amount of nothing is refused.
nothing_refused :
    (amount : Decimal) (c : Currency) (key : Text)
    → amount.digits ≡ 0
    → payment_output amount c key ≡ invalid validation_error
unfolding check_output make_output currency_amount check_script then_check script_fits both
nothing_refused amount c key e = ground arith

-- Nothing is chosen only where nothing is summed.
choose-empty :
    (amount : Decimal) (total : ℕ) (us : List Utxo)
    → ((choose amount total us).0 ≡ [])
    → (choose amount total us).1 ≡ total
unfolding choose
choose-empty amount total [] h = refl
choose-empty amount total (u ∷ us) h = absurd (ground arith)

refused_raises :
    (o : Checked (List TransactionOutput)) (k : List TransactionOutput → Act Transaction)
    (files : Files)
    → o ≡ invalid validation_error
    → (accept_outputs o >>= k) files ≡ (raise (raised o), files)
unfolding accept_outputs
refused_raises (valid os) k files e = absurd cc
refused_raises (invalid x) k files e = refl

accept-raises :
    (o : Checked (List TransactionOutput)) (key tx_id merchant : Text) (u : Utxo) (us : List Utxo)
    (files : Files)
    → AllUuids (u ∷ us)
    → (accept_outputs o >>= (λ outputs.
          lock_tokens (u ∷ us) >> pure (payment_transaction tx_id (u ∷ us) outputs)))
        files
      ≡ (raise (raised o), files)
unfolding accept_outputs
accept-raises (invalid e) key tx_id merchant u us files all = refl
accept-raises (valid os) key tx_id merchant u us files all =
    let e = lock_raises u us files all in ground arith

zero_covers : (d x total : ℕ) → total ≡ 0 → d * 100 ≤ total * x → d ≡ 0
zero_covers d x total e h =
    let none_left : d * 100 ≤ 0 * x = subst (λ t. d * 100 ≤ t * x) e h in omega arith

module _ (my_key tx_id merchant_key : Text) (amount : Decimal) (c : Currency) (files : Files) where
  abbrev outputs_for : ℕ → Checked (List TransactionOutput)
  outputs_for total = payment_outputs amount c merchant_key my_key total

  refused_first : (total : ℕ) → amount.digits ≡ 0 → outputs_for total ≡ invalid validation_error
  unfolding payment_outputs output_then
  refused_first total e =
      ap (λ o. output_then o (change_outputs (change_of total amount) c my_key))
        (nothing_refused amount c merchant_key e)

  covered_raises :
      (chosen : List Utxo) (total : ℕ)
      → AllUuids chosen
      → (chosen ≡ [] → total ≡ 0)
      → Covers total amount
      → pay_chosen my_key tx_id merchant_key amount c (chosen, total) files
        ≡ (raise (raised (outputs_for total)), files)
  unfolding pay_chosen
  covered_raises [] total all empty covers =
      let none_left = zero_covers amount.digits (10 ^ amount.places) total (empty refl) covers in
      let e = refused_first total none_left in
      let run =
        refused_raises (outputs_for total)
          (λ outputs. lock_tokens [] >> pure (payment_transaction tx_id [] outputs)) files e in
      ground arith
  covered_raises (u ∷ us) total all empty covers =
      let run = accept-raises (outputs_for total) my_key tx_id merchant_key u us files all in
      ground arith

  uncovered_raises :
      (chosen : List Utxo) (total : ℕ)
      → ¬ Covers total amount
      → pay_chosen my_key tx_id merchant_key amount c (chosen, total) files
        ≡ (raise insufficient_balance, files)
  unfolding pay_chosen
  uncovered_raises chosen total short = ground arith

  -- Whatever the sums are, it raises.
  pub build_fails :
      AllUuids files.utxos
      → (e : WalletError) × (build_payment my_key tx_id merchant_key amount c files
          ≡ (raise e, files))
  unfolding build_payment
  build_fails uuids =
      let us = sort_largest (available c files.locked files.utxos) in
      let (chosen, total) = choose amount 0 us in
      let kinds =
        choose-All (λ u. u.id_kind ≡ uuid_id) amount 0 us
          (sort_largest-All (λ u. u.id_kind ≡ uuid_id) (available c files.locked files.utxos)
            (available-All (λ u. u.id_kind ≡ uuid_id) c files.locked files.utxos uuids)) in
      elim (covers_dec total amount) [
        | yes covers ↦ (
          raised (outputs_for total),
          covered_raises chosen total kinds (choose-empty amount 0 us) covers,
        )
        | no short ↦ (insufficient_balance, uncovered_raises chosen total short)
      ]
