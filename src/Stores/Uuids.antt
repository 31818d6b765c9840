-- ===== src/Stores/Uuids.antt =====
-- What becomes of identifiers that are UUID objects, as pydantic makes them.
use project_hamilton.Base.{◌≡◌, refl, Bool, true, some, List, ◌∷◌}
use project_hamilton.Models.Types.{IdKind, str_id, uuid_id, Utxo, TransactionInput}
use project_hamilton.Stores.State.{get_token}
use project_hamilton.Stores.Hash.{text_then, all_texts}

-- The input names by a str a token of the ledger that has a str itself.
abbrev pub NamesText : List Utxo → TransactionInput → Type 0
NamesText us i =
    (i.id_kind ≡ str_id) × (u : Utxo) × (get_token i.token_id us ≡ some u) × (u.id_kind ≡ str_id)

text_then_ok : (k : IdKind) (rest : Bool) → text_then k rest ≡ true → (k ≡ str_id) × (rest ≡ true)
unfolding text_then
text_then_ok str_id rest e = (refl, e)
text_then_ok uuid_id rest e = absurd cc

pub text_first :
    (i : TransactionInput) (is : List TransactionInput)
    → all_texts (i ∷ is) ≡ true
    → (i.id_kind ≡ str_id) × (all_texts is ≡ true)
unfolding all_texts
text_first i is h = text_then_ok i.id_kind (all_texts is) h
