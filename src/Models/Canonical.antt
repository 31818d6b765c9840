-- ===== src/Models/Canonical.antt =====
-- `get_canonical_dict`, `get_canonical_json` and `compute_hash`: the fields of a transaction but for its
-- status, metadata and time, as pydantic prints them for JSON.
use project_hamilton.Base.{
  ℕ, ◌≡◌, refl, ap, ◌∙◌, Bool-cases, inl, inr, Option, none, some, List, [], ◌∷◌, Text, text, arith,
}
use project_hamilton.Base.Json.{
  Json, str, null, arr, obj, Items, nil, cons, end, field, dumps, sort_keys, compact, str_amount,
}
use project_hamilton.Models.Types.{
  currency_text, TransactionInput, TransactionOutput, TransactionStatus, Transaction,
}
use project_hamilton.Models.Status.{allowed, advance_status, advance_all}

unfoldable pub optional_text : Option Text → Json
optional_text none = null
optional_text (some t) = str t

unfoldable pub canonical_inputs : List TransactionInput → Items
canonical_inputs [] = nil
canonical_inputs (i ∷ is) =
    cons
      (obj (
        field (text "token_id") (str i.token_id) (
          field (text "signature") (str i.signature)
            (field (text "unlock_script") (optional_text i.unlock_script) end))))
      (canonical_inputs is)

unfoldable pub canonical_outputs : List TransactionOutput → Items
canonical_outputs [] = nil
canonical_outputs (o ∷ os) =
    cons
      (obj (
        field (text "amount") (str (str_amount o.amount)) (
          field (text "currency") (str (currency_text o.currency)) (
            field (text "owner_public_key") (str o.owner_public_key)
              (field (text "lock_script") (optional_text o.lock_script) end)))))
      (canonical_outputs os)

-- `get_canonical_dict`
unfoldable pub canonical_dict : Transaction → Json
canonical_dict tx = obj (
    field (text "transaction_id") (str tx.transaction_id) (
      field (text "inputs") (arr (canonical_inputs tx.inputs)) (
        field (text "outputs") (arr (canonical_outputs tx.outputs))
          (field (text "fee") (str (str_amount tx.fee)) end))))

-- `get_canonical_json`
unfoldable pub canonical_text : Transaction → Text
canonical_text tx = dumps compact (sort_keys (canonical_dict tx))

-- `compute_hash`, with SHA-256 as an argument; the text is ASCII.
unfoldable pub compute_hash : (List ℕ → List ℕ) → Transaction → List ℕ
compute_hash sha256 tx = sha256 (canonical_text tx)

advance_status-dict :
    (new : TransactionStatus) (tx : Transaction)
    → canonical_dict (advance_status new tx).1 ≡ canonical_dict tx
unfolding advance_status canonical_dict
advance_status-dict new tx = elim (Bool-cases (allowed tx.status new)) [
  | inl may ↦ ground arith
  | inr may_not ↦ ground arith
]

-- Whatever statuses are asked for, and whichever of them are refused, the hash of a transaction stays.
pub advance_all-hash :
    (sha256 : List ℕ → List ℕ) (news : List TransactionStatus) (tx : Transaction)
    → compute_hash sha256 (advance_all news tx) ≡ compute_hash sha256 tx
unfolding compute_hash canonical_text advance_all
advance_all-hash sha256 [] tx = refl
advance_all-hash sha256 (new ∷ news) tx =
    advance_all-hash sha256 news (advance_status new tx).1
    ∙ ap (λ d. sha256 (dumps compact (sort_keys d))) (advance_status-dict new tx)
