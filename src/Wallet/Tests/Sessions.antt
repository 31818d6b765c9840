-- ===== src/Wallet/Tests/Sessions.antt =====
-- A wallet that is made, synchronised and used, and each theorem there.
use project_hamilton.Base.{
  ℕ, ◌≡◌, ◌⊎◌, refl, sym, true, false, Option, none, some, List, [], ◌∷◌, Text, text,
}
use project_hamilton.Base.Action.{ok, raise}
use project_hamilton.Wallet.Fetch.{
  CliError, Url, Answer, IsFetched, is_local, validate_endpoint, read_chunks, check_status,
  safe_fetch_json, fetch_decided,
}
use project_hamilton.Wallet.Session.{
  KeyFile, Disk, Library, mapping, Loaded, items, Session, get_text, remote_from, remote_of,
  atomic_write, exists, create, load_public, unlock_private, load_if, public_key_str, check_item,
  check_items, validate_loaded, sync_utxos, init, pay,
}
use project_hamilton.Wallet.Commands.{fresh_session, IsReadable, init-unlock}
use project_hamilton.Wallet.Synced.{IsSynced, sync_decided}
use project_hamilton.Wallet.Kept.{Command, init_command, sync_command, run_commands, keys_kept}
use project_hamilton.Wallet.Unpaid.{pay_raises}
use project_hamilton.Models.Types.{Currency}
use project_hamilton.Wallet.Tests.{program}

-- A library that writes keys as they are.
abbrev lib : Library
lib = record {
  PrivateKey = Text;
  PublicKey = Text;
  serialize_public = λ k. k;
  serialize_private = λ k pw. some k;
  deserialize_public = λ t. some t;
  deserialize_private = λ t pw. some t;
  is_uuid4 = λ t. true;
  parse_decimal = λ t. none;
}

lib-IsReadable : IsReadable lib
lib-IsReadable = record { public = λ k. refl; private = λ k pw t h. sym h }

abbrev no_files : Disk
no_files = record { key_file = none; utxo_file = none; locked_file = none }

abbrev keys : Text × Text
keys = (text "secret", text "me")

abbrev made : Session Text
made =
    (init lib false keys (text "w") (text "now") (text "pw") (text "pw")
      (fresh_session lib no_files)).1

session_program : Unit {0}
unfolding program is_local validate_endpoint read_chunks check_status safe_fetch_json get_text
    remote_from remote_of atomic_write exists create load_public unlock_private load_if
    public_key_str check_item check_items validate_loaded sync_utxos init
session_program = tt

is_made :
    init lib false keys (text "w") (text "now") (text "pw") (text "pw") (fresh_session lib no_files)
    ≡ (ok tt, made)
unfolding session_program
is_made = refl

init-unlock_example :
    ((public_key_str lib (fresh_session lib made.disk)).0 ≡ ok (text "me"))
    × ((unlock_private lib (text "pw") (fresh_session lib made.disk)).0 ≡ ok (text "secret"))
    × (made.disk.utxo_file ≡ none)
    × (made.disk.locked_file ≡ none)
init-unlock_example =
    init-unlock lib lib-IsReadable keys (text "w") (text "now") (text "pw") no_files made refl
      is_made

abbrev node : Url
node = record { scheme = text "https"; hostname = some (text "node") }

abbrev answer : Answer
answer = record { status = 200; chunks = (1 ∷ 2 ∷ []) ∷ (3 ∷ []) ∷ [] }

abbrev item : List (Text × Option Text)
item =
    (text "token_id", some (text "aa"))
    ∷ (text "amount", some (text "5"))
    ∷ (text "currency", some (text "INR"))
    ∷ (text "owner_public_key", some (text "me"))
    ∷ (text "node_attestation_sig", some [])
    ∷ []

abbrev loads : List ℕ → Option Loaded
loads bytes = some (items (mapping item ∷ []))

fetch_decided_example :
    ((a : Loaded) × IsFetched loads node answer a
      × (safe_fetch_json loads node answer made ≡ (ok a, made)))
    ⊎ ((e : CliError) × (¬ ((a : Loaded) × IsFetched loads node answer a))
        × (safe_fetch_json loads node answer made ≡ (raise e, made)))
fetch_decided_example = fetch_decided made loads node answer

sync_decided_example :
    ((s' : Session Text) × (sync_utxos lib false loads (λ key. node) (λ key. answer) made
        ≡ (ok tt, s'))
      × IsSynced lib false loads (λ key. node) (λ key. answer) made s')
    ⊎ ((e : CliError) × (s' : Session Text) × (sync_utxos lib false loads
            (λ key. node)
            (λ key. answer)
            made
          ≡ (raise e, s'))
        × (s'.disk ≡ made.disk))
sync_decided_example = sync_decided lib false loads (λ key. node) (λ key. answer) made

-- The synchronisation of this session returns.
synced : (sync_utxos lib false loads (λ key. node) (λ key. answer) made).0 ≡ ok tt
unfolding session_program
synced = refl

abbrev key_file : KeyFile
key_file = record {
  wallet_id = text "w";
  public_key = text "me";
  private_key = text "secret";
  created_at = text "now";
}

abbrev commands : List (Command lib)
commands =
    init_command false (text "other", text "you") (text "v") (text "now") (text "p") (text "p")
    ∷ sync_command true loads (λ key. node) (λ key. answer)
    ∷ []

is_there : made.disk.key_file ≡ some key_file
unfolding session_program
is_there = refl

keys_kept_example : (run_commands lib commands made.disk).key_file ≡ some key_file
keys_kept_example = keys_kept lib commands made.disk key_file is_there

pay_raises_example :
    (e : CliError) × (s' : Session Text) × (pay lib 1
        (text "id")
        (text "shop")
        (record { digits = 7; places = 0 })
        Currency.inr
        made
      ≡ (raise e, s'))
    × (s'.disk ≡ made.disk)
pay_raises_example =
    pay_raises lib 1 (text "id") (text "shop") (record { digits = 7; places = 0 }) Currency.inr made
