-- ===== src/Wallet/Kept.antt =====
-- What a sequence of commands keeps.
use project_hamilton.Base.{
  ℕ, ◌≡◌, ◌∙◌, ap, Bool, true, false, Option, some, List, [], ◌∷◌, Text, arith, inl, inr,
}
use project_hamilton.Base.Action.{pure, ◌>>=◌}
use project_hamilton.Base.Action.Atomic.{
  IsReadonly, readonly_rules, >>=-IsReadonly, pure-IsReadonly, Follows, >>=-Follows,
  IsReadonly-Follows,
}
use project_hamilton.Base.Decimal.{Decimal}
use project_hamilton.Models.Types.{Utxo, Currency}
use project_hamilton.Wallet.Fetch.{Url, Answer}
use project_hamilton.Wallet.Session.{
  KeyFile, Disk, Library, Loaded, RemoteUtxo, Session, public_key_str, sync_utxos, parse_remote,
  parse_remotes, check_uuid, checked_utxo, local_utxos, or_empty, init, on_files, pay,
}
use project_hamilton.Models.Validate.{Checked, valid, invalid}
use project_hamilton.Wallet.Payment as Payment
use project_hamilton.Wallet.Payment.{build_payment}
use project_hamilton.Wallet.Commands.{fresh_session, SameKey, init-SameKey}
use project_hamilton.Wallet.Synced.{public_key_str-SameDisk, sync_decided}

module _ (lib : Library) where
  open lib use {PrivateKey, PublicKey}

  check_uuid-IsReadonly : (b : Bool) → IsReadonly (check_uuid lib b)
  unfolding check_uuid
  check_uuid-IsReadonly true = search readonly_rules
  check_uuid-IsReadonly false = search readonly_rules

  checked_utxo-IsReadonly : (c : Checked Utxo) → IsReadonly (checked_utxo lib c)
  unfolding checked_utxo
  checked_utxo-IsReadonly (valid u) = search readonly_rules
  checked_utxo-IsReadonly (invalid e) = search readonly_rules

  parse_remote-IsReadonly : (now : ℕ) (r : RemoteUtxo) → IsReadonly (parse_remote lib now r)
  unfolding parse_remote
  parse_remote-IsReadonly now r =
      search (readonly_rules, check_uuid-IsReadonly, checked_utxo-IsReadonly) depth 12

  parse_remotes-IsReadonly :
      (now : ℕ) (rs : List RemoteUtxo) → IsReadonly (parse_remotes lib now rs)
  unfolding parse_remotes
  parse_remotes-IsReadonly now [] = search readonly_rules
  parse_remotes-IsReadonly now (r ∷ rs) =
      >>=-IsReadonly (parse_remote lib now r)
        (λ first. parse_remotes lib now rs >>= λ rest. pure (first ∷ rest))
        (parse_remote-IsReadonly now r)
        (λ first.
          >>=-IsReadonly (parse_remotes lib now rs) (λ rest. pure (first ∷ rest))
            (parse_remotes-IsReadonly now rs) (λ rest. pure-IsReadonly (first ∷ rest)))

  pub local_utxos-IsReadonly : (now : ℕ) → IsReadonly (local_utxos lib now)
  unfolding local_utxos
  local_utxos-IsReadonly now = record {
    at = λ s. (parse_remotes-IsReadonly now (or_empty lib s.disk.utxo_file)).at s;
  }

  on_files-SameKey :
      {A : Type 0} (act : Payment.Act A) (utxos : List Utxo)
      → Follows (SameKey lib) (on_files lib act utxos)
  unfolding on_files
  on_files-SameKey act utxos = record { at = λ s k h. ground arith }

  pay-SameKey :
      (now : ℕ) (tx_id merchant : Text) (amount : Decimal) (currency : Currency)
      → Follows (SameKey lib) (pay lib now tx_id merchant amount currency)
  unfolding pay
  pay-SameKey now tx_id merchant amount currency =
      let trans =
        λ (s t u : Session PublicKey) (p : SameKey lib s t) (q : SameKey lib t u) (k : KeyFile)
            (h : s.disk.key_file ≡ some k).
          q k (p k h) in
      let paid = λ (my_key : Text) (utxos : List Utxo).
        on_files lib (build_payment my_key tx_id merchant amount currency) utxos in
      >>=-Follows (SameKey lib) trans (public_key_str lib)
        (λ my_key. local_utxos lib now >>= paid my_key)
        (record { at = λ s k h. ap (λ d. d.key_file) ((public_key_str-SameDisk lib).at s) ∙ h })
        (λ my_key.
          >>=-Follows (SameKey lib) trans (local_utxos lib now) (paid my_key)
            (IsReadonly-Follows (SameKey lib) (λ s k h. h) (local_utxos lib now)
              (local_utxos-IsReadonly now))
            (λ utxos. on_files-SameKey (build_payment my_key tx_id merchant amount currency) utxos))

  -- A command, which runs in a session of its own, with what it takes from outside.
  pub data Command : Type 0 where
    init_command : Bool → PrivateKey × PublicKey → Text → Text → Text → Text → Command
    sync_command : Bool → (List ℕ → Option Loaded) → (Text → Url) → (Text → Answer) → Command
    pay_command : ℕ → Text → Text → Decimal → Currency → Command

  unfoldable pub run_command : Command → Disk → Disk
  run_command (init_command fault keys wallet_id created_at pw confirm) disk =
      (init lib fault keys wallet_id created_at pw confirm (fresh_session lib disk)).1.disk
  run_command (sync_command fault loads url answer) disk =
      (sync_utxos lib fault loads url answer (fresh_session lib disk)).1.disk
  run_command (pay_command now tx_id merchant amount currency) disk =
      (pay lib now tx_id merchant amount currency (fresh_session lib disk)).1.disk

  unfoldable pub run_commands : List Command → Disk → Disk
  run_commands [] disk = disk
  run_commands (c ∷ cs) disk = run_commands cs (run_command c disk)

  abbrev KeyKept : Disk → Disk → Type 0
  KeyKept disk disk' = (k : KeyFile) → disk.key_file ≡ some k → disk'.key_file ≡ some k

  run_command-KeyKept : (c : Command) (disk : Disk) → KeyKept disk (run_command c disk)
  unfolding run_command
  run_command-KeyKept (init_command fault keys wallet_id created_at pw confirm) disk k h =
      (init-SameKey lib fault keys wallet_id created_at pw confirm).at (fresh_session lib disk) k h
  run_command-KeyKept (sync_command fault loads url answer) disk k h =
      elim (sync_decided lib fault loads url answer (fresh_session lib disk)) [
        | inl (s', run, synced) ↦
            ap (λ p. p.1.disk.key_file) run ∙ ap (λ d. d.key_file) synced.written ∙ h
        | inr (e, s', run, same) ↦ ap (λ p. p.1.disk.key_file) run ∙ ap (λ d. d.key_file) same ∙ h
      ]
  run_command-KeyKept (pay_command now tx_id merchant amount currency) disk k h =
      (pay-SameKey now tx_id merchant amount currency).at (fresh_session lib disk) k h

  -- The key file of a wallet is never replaced: whatever commands run, each in a session of its own
  -- and whatever the node answers, it stays as it is, failing commands included.
  pub keys_kept :
      (cs : List Command) (disk : Disk) (k : KeyFile)
      → disk.key_file ≡ some k
      → (run_commands cs disk).key_file ≡ some k
  unfolding run_commands
  keys_kept [] disk k h = h
  keys_kept (c ∷ cs) disk k h = keys_kept cs (run_command c disk) k (run_command-KeyKept c disk k h)
