-- ===== src/Stores/Hash.antt =====
-- `_compute_tx_hash`, which the two stores share, and what they take from outside.
use project_hamilton.Base.{ℕ, Bool, true, false, List, [], ◌∷◌, ◌++◌, Text, text}
use project_hamilton.Base.Json.{
  Json, Items, str, arr, obj, nil, cons, end, field, compact, dumps, sort_keys,
}
use project_hamilton.Base.Json.{str_amount}
use project_hamilton.Models.Types.{
  IdKind, str_id, uuid_id, TransactionInput, TransactionOutput, Transaction, currency_text,
}

-- SHA-256, and `CryptoUtils`: whether a text deserialises to a public key and the signature fits
-- the payload under it.
pub record Env : Type 0 where
  pub sha256_hex : List ℕ → Text
  pub verify : Text → List ℕ → Text → Bool

-- `json.dumps` of one identifier, and of what follows it.
unfoldable pub text_then : IdKind → Bool → Bool
text_then str_id rest = rest
text_then uuid_id rest = false

unfoldable pub input_items : List TransactionInput → Items
input_items [] = nil
input_items (i ∷ is) = cons (obj (field (text "token_id") (str i.token_id) end)) (input_items is)

unfoldable pub output_items : List TransactionOutput → Items
output_items [] = nil
output_items (o ∷ os) =
    cons
      (obj (
        field (text "amount") (str (str_amount o.amount)) (
          field (text "currency") (str (currency_text o.currency))
            (field (text "owner") (str o.owner_public_key) end))))
      (output_items os)

unfoldable pub tx_intent : Transaction → Json
tx_intent tx = obj (
    field (text "inputs") (arr (input_items tx.inputs)) (
      field (text "outputs") (arr (output_items tx.outputs))
        (field (text "fee") (str (str_amount tx.fee)) end)))

-- `json.dumps` takes a str, and refuses a UUID object with a TypeError.
unfoldable pub all_texts : List TransactionInput → Bool
all_texts [] = true
all_texts (i ∷ is) = text_then i.id_kind (all_texts is)

-- `_compute_tx_hash` of identifiers that `json.dumps` takes: the hash of what it prints. The stores
-- test `all_texts` first, where it raises a TypeError.
unfoldable pub compute_tx_hash : Env → Transaction → Text
compute_tx_hash env tx = env.sha256_hex (dumps compact (sort_keys (tx_intent tx)))

-- `SIGNATURE_DOMAIN`
abbrev pub signature_domain : Text
signature_domain = text "HAMILTON_MAINNET_V1"

-- What an input's owner signs.
unfoldable pub sig_payload : Text → Text → List ℕ
sig_payload tx_hash tid = signature_domain ++ (b'|' ∷ tx_hash) ++ b'|' ∷ tid
