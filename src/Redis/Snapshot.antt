-- ===== src/Redis/Snapshot.antt =====
-- `snapshot` and `restore`. SCAN yields the names of keys: every key that stays there, maybe twice.
use project_hamilton.Base.{
  Bool, true, false, none, some, List, [], ◌∷◌, Text, text, text_dec, contains,
}
use project_hamilton.Base.Action.{pure, require, modify, ◌>>◌}
use project_hamilton.Stores.State.{value_error}
use project_hamilton.Redis.State.{Stored, Store, Act, get_stored, delete_stored, set_stored}
use project_hamilton.Redis.Process.{set_token}

-- "utxos" maps an identifier to the value of its key.
pub record Snapshot : Type 0 where
  pub version : Text
  pub utxos : List Stored

abbrev pub schema_version : Text
schema_version = text "1.0"

-- The loop of `snapshot`, over the identifiers that SCAN yields.
unfoldable pub collect : List Text → List Stored → List Stored → List Stored
collect [] ds result = result
collect (t ∷ ts) ds result = elim (get_stored t ds) [
  | none ↦ collect ts ds result
  | some d ↦ collect ts ds (set_stored d result)
]

-- `snapshot`
unfoldable pub snapshot : List Text → Store → Snapshot
snapshot ids s = record { version = schema_version; utxos = collect ids s.utxos [] }

-- What the three SCANs of `restore` yield, without the prefixes.
pub record Scanned : Type 0 where
  pub token_ids : List Text
  pub owner_keys : List Text
  pub tx_ids : List Text

unfoldable pub delete_values : List Text → List Stored → List Stored
delete_values [] ds = ds
delete_values (t ∷ ts) ds = delete_values ts (delete_stored t ds)

-- The keys whose names SCAN did not yield.
unfoldable pub delete_keys : {A : Type 0} → List Text → List (Text × A) → List (Text × A)
delete_keys names [] = []
delete_keys names ((k, a) ∷ rest) = elim (contains text_dec k names) [
  | true ↦ delete_keys names rest
  | false ↦ (k, a) ∷ delete_keys names rest
]

unfoldable pub set_tokens : List Stored → Store → Store
set_tokens [] s = s
set_tokens (d ∷ ds) s = set_tokens ds (set_token d s)

-- The commands that `restore` queues.
unfoldable pub restored : Scanned → List Stored → Store → Store
restored scanned ds s = set_tokens ds (record s {
  utxos = delete_values scanned.token_ids s.utxos;
  owners = delete_keys scanned.owner_keys s.owners;
  txs = delete_keys scanned.tx_ids s.txs;
})

-- `restore`
unfoldable pub restore : Scanned → Snapshot → Act Bool
restore scanned snap = do
  require (text_dec snap.version schema_version) value_error
  modify (restored scanned snap.utxos)
  pure true
