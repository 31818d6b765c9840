-- ===== src/Models/Types.antt =====
-- The models of core/models.py, as their validators leave them: amounts are numbers of cents, and
-- times are numbers of microseconds. The empty text stands for an identifier that was taken away.
use project_hamilton.Base.{
  ℕ, Bool, true, false, refl, Option, none, some, List, [], ◌∷◌, Text, text, text_dec, ite,
}

pub data Currency : Type 0 where
  inr usd eur : Currency

unfoldable pub currency_dec : Discrete Currency
currency_dec inr inr = yes refl
currency_dec inr usd = no (λ e. cc)
currency_dec inr eur = no (λ e. cc)
currency_dec usd inr = no (λ e. cc)
currency_dec usd usd = yes refl
currency_dec usd eur = no (λ e. cc)
currency_dec eur inr = no (λ e. cc)
currency_dec eur usd = no (λ e. cc)
currency_dec eur eur = yes refl

-- The value of the enumeration.
unfoldable pub currency_text : Currency → Text
currency_text inr = text "INR"
currency_text usd = text "USD"
currency_text eur = text "EUR"

pub data TransactionStatus : Type 0 where
  pending completed failed rejected expired : TransactionStatus

-- What an identifier is in Python: a str, or the UUID object that a field of the type UUID4 makes
-- of one. A str and a UUID object are never equal, also if they have the same text.
pub data IdKind : Type 0 where
  str_id uuid_id : IdKind

unfoldable pub same_kind : IdKind → IdKind → Bool
same_kind str_id str_id = true
same_kind str_id uuid_id = false
same_kind uuid_id str_id = false
same_kind uuid_id uuid_id = true

-- `token_id` is the text of the identifier.
pub record Utxo : Type 0 where
  pub token_id : Text
  pub id_kind : IdKind
  pub amount : ℕ
  pub currency : Currency
  pub owner_public_key : Text
  pub lock_script : Option Text
  pub created_at : ℕ
  pub expires_at : Option ℕ

pub record TransactionInput : Type 0 where
  pub token_id : Text
  pub id_kind : IdKind
  pub signature : Text
  pub unlock_script : Option Text

pub record TransactionOutput : Type 0 where
  pub amount : ℕ
  pub currency : Currency
  pub owner_public_key : Text
  pub lock_script : Option Text

-- `timestamp` and `metadata` are read by no operation but the validators.
pub record Transaction : Type 0 where
  pub transaction_id : Text
  pub id_kind : IdKind
  pub inputs : List TransactionInput
  pub outputs : List TransactionOutput
  pub fee : ℕ
  pub status : TransactionStatus

-- `utxo_map.get(token_id)` among tokens of one kind of identifier, where the last one wins.
unfoldable pub mapped : Text → List Utxo → Option Utxo
mapped tid [] = none
mapped tid (u ∷ us) = elim (mapped tid us) [
  | some v ↦ some v
  | none ↦ ite (text_dec u.token_id tid) (some u) none
]

-- The entries of `utxo_map` whose keys are of the kind.
unfoldable pub of_kind : IdKind → List Utxo → List Utxo
of_kind k [] = []
of_kind k (u ∷ us) =
    let rest = of_kind k us in elim (same_kind u.id_kind k) [ true ↦ u ∷ rest | false ↦ rest ]
