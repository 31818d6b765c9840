-- ===== src/Wallet/Unpaid.antt =====
-- What `build_payment` comes to in a session, with the tokens that utxos.json gives.
use project_hamilton.Base.{ℕ, ◌≡◌, ◌∙◌, refl, sym, subst, ap, none, List, [], ◌∷◌, Text, arith}
use project_hamilton.Base.Action.{Action, Result, ok, raise, pure, >>=-ok, ◌>>=◌}
use project_hamilton.Base.Decimal.{Decimal}
use project_hamilton.Models.Types.{uuid_id, Currency, Utxo}
use project_hamilton.Models.Validate.{valid, then_check, make_utxo, new_utxo_model}
use project_hamilton.Wallet.Payment.{Files, build_payment}
use project_hamilton.Wallet.Build.{AllUuids, build_fails}
use project_hamilton.Wallet.Fetch.{CliError, payment_error}
use project_hamilton.Wallet.Session.{
  Library, Session, RemoteUtxo, check_uuid, checked_utxo, parse_remote, parse_remotes, local_utxos,
  or_empty, on_files, public_key_str, pay,
}
use project_hamilton.Wallet.Synced.{public_key_str-SameDisk}
use project_hamilton.Wallet.Kept.{local_utxos-IsReadonly}

made_kind :
    (tid : Text) (amount : Decimal) (c : Currency) (owner : Text) (now : ℕ) (u : Utxo)
    → new_utxo_model tid amount c owner none now none ≡ valid u
    → u.id_kind ≡ uuid_id
unfolding new_utxo_model make_utxo then_check
made_kind tid amount c owner now u h = ground arith

module _ (lib : Library) where
  open lib use {PublicKey}

  parse_remote-kind :
      (now : ℕ) (r : RemoteUtxo) (s s' : Session PublicKey) (u : Utxo)
      → parse_remote lib now r s ≡ (ok u, s')
      → u.id_kind ≡ uuid_id
  unfolding parse_remote checked_utxo check_uuid new_utxo_model make_utxo then_check
  parse_remote-kind now r s s' u h = ground arith

  parse_remotes-Uuids :
      (now : ℕ) (rs : List RemoteUtxo) (s s' : Session PublicKey) (us : List Utxo)
      → parse_remotes lib now rs s ≡ (ok us, s')
      → AllUuids us
  unfolding parse_remotes
  parse_remotes-Uuids now [] s s' [] h = tt
  parse_remotes-Uuids now [] s s' (u ∷ us) h = absurd (ground arith)
  parse_remotes-Uuids now (r ∷ rs) s s' us h =
      let (u, s₁, first, more) =
        >>=-ok (parse_remote lib now r)
          (λ first. parse_remotes lib now rs >>= (λ rest. pure (first ∷ rest))) h in
      let (rest, s₂, others, last) =
        >>=-ok (parse_remotes lib now rs) (λ rest. pure (u ∷ rest)) more in
      let e : us ≡ u ∷ rest = ground arith in
      subst AllUuids (sym e)
        (parse_remote-kind now r s s₁ u first, parse_remotes-Uuids now rs s₁ s₂ rest others)

  local_utxos-Uuids :
      (now : ℕ) (s s' : Session PublicKey) (us : List Utxo)
      → local_utxos lib now s ≡ (ok us, s')
      → AllUuids us
  unfolding local_utxos
  local_utxos-Uuids now s s' us h = parse_remotes-Uuids now _ s s' us h

  -- A call raises and leaves the files as they are.
  abbrev Fails : {A : Type 0} → Action (Session PublicKey) CliError A → Session PublicKey → Type 0
  Fails act s =
      (e : CliError) × (s' : Session PublicKey) × (act s ≡ (raise e, s')) × (s'.disk ≡ s.disk)

  after-Fails :
      {A B : Type 0} (m : Action (Session PublicKey) CliError A)
      (k : A → Action (Session PublicKey) CliError B) (s : Session PublicKey)
      (r : Result CliError A × Session PublicKey)
      → m s ≡ r
      → r.1.disk ≡ s.disk
      → ((a : A) → r.0 ≡ ok a → Fails (k a) r.1)
      → Fails (m >>= k) s
  after-Fails m k s (raise e, s₁) h kept next = (e, s₁, ground arith, kept)
  after-Fails m k s (ok a, s₁) h kept next =
      let (e, s₂, failed, same) = next a refl in (e, s₂, ground arith, same ∙ kept)

  on_files-Fails :
      (my_key tx_id merchant : Text) (amount : Decimal) (c : Currency) (us : List Utxo)
      (s : Session PublicKey)
      → AllUuids us
      → Fails (on_files lib (build_payment my_key tx_id merchant amount c) us) s
  unfolding on_files
  on_files-Fails my_key tx_id merchant amount c us s uuids =
      let files : Files = record { utxos = us; locked = or_empty lib s.disk.locked_file } in
      let (e, failed) = build_fails my_key tx_id merchant amount c files uuids in
      (payment_error, s, ground arith, refl)

  -- No payment is ever built: in every session, with whatever keys.json, utxos.json and
  -- pending_spends.json hold, `build_payment` raises and leaves the files as they are.
  pub pay_raises :
      (now : ℕ) (tx_id merchant : Text) (amount : Decimal) (c : Currency) (s : Session PublicKey)
      → (e : CliError) × (s' : Session PublicKey) × (pay lib now tx_id merchant amount c s
          ≡ (raise e, s'))
        × (s'.disk ≡ s.disk)
  unfolding pay
  pay_raises now tx_id merchant amount c s =
      let build = λ (my_key : Text) (utxos : List Utxo).
        on_files lib (build_payment my_key tx_id merchant amount c) utxos in
      after-Fails (public_key_str lib) (λ my_key. local_utxos lib now >>= build my_key) s
        (public_key_str lib s) refl ((public_key_str-SameDisk lib).at s)
        (λ my_key h.
          let s₁ = (public_key_str lib s).1 in
          after-Fails (local_utxos lib now) (build my_key) s₁ (local_utxos lib now s₁) refl
            (ap (λ t. t.disk) ((local_utxos-IsReadonly lib now).at s₁))
            (λ utxos got.
              on_files-Fails my_key tx_id merchant amount c utxos (local_utxos lib now s₁).1
                (local_utxos-Uuids now s₁ (local_utxos lib now s₁).1 utxos (ground arith))))
