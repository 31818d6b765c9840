-- ===== src/Wallet/Session.antt =====
-- The files of the wallet, and one run of a command: `Wallet`, its keys and `sync_utxos`. A file is
-- what JSON text it has says; its mode is left out.
use project_hamilton.Base.{
  ℕ, Bool, true, false, Option, none, some, List, [], ◌∷◌, Text, text, text_dec, ite, ⊤,
}
use project_hamilton.Base.Decimal.{Decimal}
use project_hamilton.Base.Json.{Json, dumps, sort_keys, compact}
use project_hamilton.Base.Action.{
  Action, ok, raise, pure, throw, require, or_throw, refuse_if, gets, modify, ◌>>=◌, ◌>>◌,
}
use project_hamilton.Models.Types.{Currency, inr, usd, eur, Utxo, Transaction}
use project_hamilton.Models.Validate.{Checked, valid, invalid, new_utxo_model}
use project_hamilton.Wallet.Payment as Payment
use project_hamilton.Wallet.Payment.{build_payment}
use project_hamilton.Wallet.Fetch.{
  CliError, malformed_utxo, not_initialized, exited, crypto_error, payment_error, type_error,
  os_error, Url, Answer, safe_fetch_json,
}

-- keys.json
pub record KeyFile : Type 0 where
  pub wallet_id : Text
  pub public_key : Text
  pub private_key : Text
  pub created_at : Text

-- `RemoteUTXOSchema`
pub record RemoteUtxo : Type 0 where
  pub token_id : Text
  pub amount : Text
  pub currency : Text
  pub owner_public_key : Text
  pub node_attestation_sig : Text

-- keys.json, utxos.json and pending_spends.json, which may be missing.
pub record Disk : Type 0 where
  pub key_file : Option KeyFile
  pub utxo_file : Option (List RemoteUtxo)
  pub locked_file : Option (List Text)

-- CryptoUtils, on which the wallet relies, and the validation of a UTXO: which texts are a UUID of
-- version 4, and the number of a text, where `Decimal` reads one that is finite and not negative.
pub record Library : Type 1 where
  pub PrivateKey : Type 0
  pub PublicKey : Type 0
  pub serialize_public : PublicKey → Text
  pub serialize_private : PrivateKey → Text → Option Text
  pub deserialize_public : Text → Option PublicKey
  pub deserialize_private : Text → Text → Option PrivateKey
  pub is_uuid4 : Text → Bool
  pub parse_decimal : Text → Option Decimal

-- What JSON gives for the tokens of a node: of a mapping, the value of each key if it is a text. An
-- empty object or text has no items, and those of another one are texts, which are no mappings.
pub data Item : Type 0 where
  mapping : List (Text × Option Text) → Item
  other : Item

pub data Loaded : Type 0 where
  items : List Item → Loaded
  not_iterable : Loaded

unfoldable pub get_text : Text → List (Text × Option Text) → Option Text
get_text key [] = none
get_text key ((k, v) ∷ rest) = ite (text_dec k key) v (get_text key rest)

-- A token whose fields are all texts.
unfoldable pub remote_from :
    Option Text → Option Text → Option Text → Option Text → Option Text → Option RemoteUtxo
remote_from none b c d e = none
remote_from (some a) none c d e = none
remote_from (some a) (some b) none d e = none
remote_from (some a) (some b) (some c) none e = none
remote_from (some a) (some b) (some c) (some d) none = none
remote_from (some a) (some b) (some c) (some d) (some e) = some (record {
  token_id = a;
  amount = b;
  currency = c;
  owner_public_key = d;
  node_attestation_sig = e;
})

unfoldable pub remote_of : List (Text × Option Text) → Option RemoteUtxo
remote_of fields =
    remote_from (get_text (text "token_id") fields) (get_text (text "amount") fields)
      (get_text (text "currency") fields) (get_text (text "owner_public_key") fields)
      (get_text (text "node_attestation_sig") fields)

-- A command has a `Wallet` object of its own, and the files.
pub record Session (PublicKey : Type 0) : Type 0 where
  pub disk : Disk
  pub wallet_id : Option Text
  pub public_key : Option PublicKey

-- What `qr` shows, of the JSON that a file has.
unfoldable pub qr_text : Json → Text
qr_text tx_data = dumps compact (sort_keys tx_data)

module _ (lib : Library) where
  open lib use {PrivateKey, PublicKey}

  abbrev pub Act : Type 0 → Type 0
  Act = Action (Session PublicKey) CliError

  -- `_atomic_write`: the file is replaced at once, or it is as before and the exception goes on.
  unfoldable pub atomic_write : Bool → (Disk → Disk) → Act ⊤
  atomic_write true change = throw os_error
  atomic_write false change = modify (λ s. record s { disk = change s.disk })

  -- `exists`
  unfoldable pub exists : Session PublicKey → Bool
  exists s = elim s.disk.key_file [ some _ ↦ true | none ↦ false ]

  -- `create`; the pair of keys, the identifier and the time are arguments, and so is whether the
  -- write fails.
  unfoldable pub create : Bool → PrivateKey × PublicKey → Text → Text → Text → Act ⊤
  create fault (private, public) wallet_id created_at password = do
    modify (λ s. record s { wallet_id = some wallet_id; public_key = some public })
    pem ← or_throw (lib.serialize_private private password) crypto_error
    atomic_write fault (λ d. record d {
      key_file = some (record {
        wallet_id = wallet_id;
        public_key = lib.serialize_public public;
        private_key = pem;
        created_at = created_at;
      });
    })

  -- `load_public`
  unfoldable pub load_public : Act ⊤
  load_public = do
    file ← gets (λ s. s.disk.key_file)
    data_ ← or_throw file not_initialized
    modify (λ s. record s { wallet_id = some data_.wallet_id })
    key ← or_throw (lib.deserialize_public data_.public_key) crypto_error
    modify (λ s. record s { public_key = some key })

  -- `_unlock_private`; a missing file reads as None, which has no items.
  unfoldable pub unlock_private : Text → Act PrivateKey
  unlock_private password = do
    file ← gets (λ s. s.disk.key_file)
    data_ ← or_throw file type_error
    or_throw (lib.deserialize_private data_.private_key password) crypto_error

  unfoldable pub load_if : Option PublicKey → Act ⊤
  load_if none = load_public
  load_if (some key) = pure tt

  -- `public_key_str`
  unfoldable pub public_key_str : Act Text
  public_key_str = do
    loaded ← gets (λ s. s.public_key)
    load_if loaded
    key ← gets (λ s. s.public_key)
    found ← or_throw key type_error
    pure (lib.serialize_public found)

  -- `RemoteUTXOSchema(**item)`
  unfoldable pub check_item : Item → Act RemoteUtxo
  check_item other = throw type_error
  check_item (mapping fields) = or_throw (remote_of fields) malformed_utxo

  unfoldable pub check_items : List Item → Act (List RemoteUtxo)
  check_items [] = pure []
  check_items (i ∷ is) = do first ← check_item i; rest ← check_items is; pure (first ∷ rest)

  unfoldable pub validate_loaded : Loaded → Act (List RemoteUtxo)
  validate_loaded (items is) = check_items is
  validate_loaded not_iterable = throw type_error

  -- `sync_utxos`; the address and the answer depend on the key that is asked for.
  unfoldable pub sync_utxos :
      Bool → (List ℕ → Option Loaded) → (Text → Url) → (Text → Answer) → Act ⊤
  sync_utxos fault loads url answer = do
    pub_ ← public_key_str
    raw_data ← safe_fetch_json loads (url pub_) (answer pub_)
    utxos ← validate_loaded raw_data
    atomic_write fault (λ d. record d { utxo_file = some utxos })

  unfoldable pub currency_of : Text → Option Currency
  currency_of t =
      ite (text_dec t (text "INR")) (some inr)
        (ite (text_dec t (text "USD")) (some usd) (ite (text_dec t (text "EUR")) (some eur) none))

  unfoldable pub checked_utxo : Checked Utxo → Act Utxo
  checked_utxo (valid u) = pure u
  checked_utxo (invalid e) = throw malformed_utxo

  unfoldable pub check_uuid : Bool → Act ⊤
  check_uuid true = pure tt
  check_uuid false = throw malformed_utxo

  -- `UTXO(**u)`, which refuses what the schema of the node lets through.
  unfoldable pub parse_remote : ℕ → RemoteUtxo → Act Utxo
  parse_remote now r = do
    check_uuid (lib.is_uuid4 r.token_id)
    amount ← or_throw (lib.parse_decimal r.amount) malformed_utxo
    currency ← or_throw (currency_of r.currency) malformed_utxo
    checked_utxo (new_utxo_model r.token_id amount currency r.owner_public_key none now none)

  unfoldable pub parse_remotes : ℕ → List RemoteUtxo → Act (List Utxo)
  parse_remotes now [] = pure []
  parse_remotes now (r ∷ rs) = do
    first ← parse_remote now r
    rest ← parse_remotes now rs
    pure (first ∷ rest)

  unfoldable pub or_empty : {A : Type 0} → Option (List A) → List A
  or_empty none = []
  or_empty (some as_) = as_

  -- `local_utxos`
  unfoldable pub local_utxos : ℕ → Act (List Utxo)
  local_utxos now = do data_ ← gets (λ s. or_empty s.disk.utxo_file); parse_remotes now data_

  -- `init`: a wrong confirmation ends in a TypeError, since `Exit` takes no style.
  unfoldable pub init : Bool → PrivateKey × PublicKey → Text → Text → Text → Text → Act ⊤
  init fault keys wallet_id created_at pw confirm = do
    there ← gets exists
    refuse_if there exited
    require (text_dec pw confirm) type_error
    create fault keys wallet_id created_at pw

  -- `build_payment` on the files as they were read; what it locks is written at once.
  unfoldable pub on_files : {A : Type 0} → Payment.Act A → List Utxo → Act A
  on_files act utxos s =
      let (r, files) = act (record { utxos = utxos; locked = or_empty s.disk.locked_file }) in
      elim r [
        | raise e ↦ throw payment_error s
        | ok a ↦ (ok a, record s { disk = record s.disk { locked_file = some files.locked } })
      ]

  -- `build_payment` of a new session.
  unfoldable pub pay : ℕ → Text → Text → Decimal → Currency → Act Transaction
  pay now tx_id merchant_key amount currency = do
    my_key ← public_key_str
    utxos ← local_utxos now
    on_files (build_payment my_key tx_id merchant_key amount currency) utxos
