-- ===== src/Wallet/Commands.antt =====
-- What the commands of the wallet do to its files.
use project_hamilton.Base.{◌≡◌, ap, Bool, false, none, some, Option-cases, Text, arith, inl, inr}
use project_hamilton.Base.Action.{ok}
use project_hamilton.Base.Action.Atomic.{Follows}
use project_hamilton.Wallet.Session.{
  KeyFile, Disk, Library, Session, atomic_write, exists, create, load_public, unlock_private,
  load_if, public_key_str, init,
}

module _ (lib : Library) where
  open lib use {PrivateKey, PublicKey}

  -- A session that has not read its key yet.
  abbrev pub fresh_session : Disk → Session PublicKey
  fresh_session disk = record { disk = disk; wallet_id = none; public_key = none }

  -- What the wallet needs of CryptoUtils: what it writes can be read again.
  pub record IsReadable : Type 0 where
    pub public : (k : PublicKey) → lib.deserialize_public (lib.serialize_public k) ≡ some k
    pub private :
        (k : PrivateKey) (pw t : Text)
        → lib.serialize_private k pw ≡ some t
        → lib.deserialize_private t pw ≡ some k

  -- What a later session reads of a key file.
  public_key_str-reads :
      (disk : Disk) (f : KeyFile) (k : PublicKey)
      → disk.key_file ≡ some f
      → lib.deserialize_public f.public_key ≡ some k
      → (public_key_str lib (fresh_session disk)).0 ≡ ok (lib.serialize_public k)
  unfolding public_key_str load_if load_public
  public_key_str-reads disk f k there read = ground arith

  unlock_private-reads :
      (disk : Disk) (f : KeyFile) (k : PrivateKey) (pw : Text)
      → disk.key_file ≡ some f
      → lib.deserialize_private f.private_key pw ≡ some k
      → (unlock_private lib pw (fresh_session disk)).0 ≡ ok k
  unfolding unlock_private
  unlock_private-reads disk f k pw there read = ground arith

  -- What `init` has written.
  init-writes :
      (private : PrivateKey) (public : PublicKey) (wallet_id created_at pw pem : Text) (disk : Disk)
      (s : Session PublicKey)
      → lib.serialize_private private pw ≡ some pem
      → disk.key_file ≡ none
      → init lib false (private, public) wallet_id created_at pw pw (fresh_session disk)
        ≡ (ok tt, s)
      → s.disk ≡ record disk {
        key_file = some (record {
          wallet_id = wallet_id;
          public_key = lib.serialize_public public;
          private_key = pem;
          created_at = created_at;
        });
      }
  unfolding init create exists atomic_write
  init-writes private public wallet_id created_at pw pem disk s made empty h = ground arith

  init-serialized :
      (private : PrivateKey) (public : PublicKey) (wallet_id created_at pw : Text) (disk : Disk)
      (s : Session PublicKey)
      → init lib false (private, public) wallet_id created_at pw pw (fresh_session disk)
        ≡ (ok tt, s)
      → (pem : Text) × (lib.serialize_private private pw ≡ some pem)
  unfolding init create exists atomic_write
  init-serialized private public wallet_id created_at pw disk s h =
      elim (Option-cases (lib.serialize_private private pw)) [
        | inl e ↦ absurd (ground arith)
        | inr made ↦ made
      ]

  -- A wallet that was initialised can be used by later commands: on files without a key, `init` with
  -- the same password twice that returns writes a key file and nothing else, from which a new session
  -- reads the public key, and unlocks the private key with the password; if what CryptoUtils writes can
  -- be read again.
  pub init-unlock :
      IsReadable
      → (keys : PrivateKey × PublicKey) (wallet_id created_at pw : Text) (disk : Disk)
        (s : Session PublicKey)
      → disk.key_file ≡ none
      → init lib false keys wallet_id created_at pw pw (fresh_session disk) ≡ (ok tt, s)
      → ((public_key_str lib (fresh_session s.disk)).0 ≡ ok (lib.serialize_public keys.1))
        × ((unlock_private lib pw (fresh_session s.disk)).0 ≡ ok keys.0)
        × (s.disk.utxo_file ≡ disk.utxo_file)
        × (s.disk.locked_file ≡ disk.locked_file)
  init-unlock laws (private, public) wallet_id created_at pw disk s empty h =
      let (pem, made) = init-serialized private public wallet_id created_at pw disk s h in
      let file = init-writes private public wallet_id created_at pw pem disk s made empty h in
      let f : KeyFile = record {
        wallet_id = wallet_id;
        public_key = lib.serialize_public public;
        private_key = pem;
        created_at = created_at;
      } in
      let there : s.disk.key_file ≡ some f = ap (λ d. d.key_file) file in
      (
        public_key_str-reads s.disk f public there (laws.public public),
        unlock_private-reads s.disk f private pw there (laws.private private pw pem made),
        ap (λ d. d.utxo_file) file,
        ap (λ d. d.locked_file) file,
      )

  -- `init` on a wallet that is there, and one whose confirmation is wrong, changes nothing.
  abbrev pub SameKey : Session PublicKey → Session PublicKey → Type 0
  SameKey s s' = (k : KeyFile) → s.disk.key_file ≡ some k → s'.disk.key_file ≡ some k

  pub init-SameKey :
      (fault : Bool) (keys : PrivateKey × PublicKey) (wallet_id created_at pw confirm : Text)
      → Follows SameKey (init lib fault keys wallet_id created_at pw confirm)
  unfolding init exists create atomic_write
  init-SameKey fault keys wallet_id created_at pw confirm = record { at = λ s k h. ground arith }
