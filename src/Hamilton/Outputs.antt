-- ===== src/Hamilton/Outputs.antt =====
-- The outputs of `process_tx`: their sum, and the loop that inserts them, when it returns.
use project_hamilton.Base.{
  ℕ, ◌+◌, ◌≤◌, ◌<◌, ◌≡◌, ◌∙◌, refl, none, some, List, [], ◌∷◌, Text, arith, All, dec_lt,
}
use project_hamilton.Base.Money.{add_money, add_money_exact, add_money-ge, limit}
use project_hamilton.Base.Action.{ok}
use project_hamilton.Hamilton.State.{Db, Utxo, find_utxo, insert_utxo}
use project_hamilton.Hamilton.Request.{TxOut}
use project_hamilton.Hamilton.Handlers.{sum_outputs, new_utxo, insert_outputs}
use project_hamilton.Hamilton.Spending.{OnlyUtxos}
use project_hamilton.Hamilton.Table.{IsUnique, Keeps, cons-Keeps, supply, share, worth, share-add}

-- The sum of the outputs, without rounding.
unfoldable pub output_value : List TxOut → ℕ
output_value [] = 0
output_value (o ∷ os) = o.amount + output_value os

sum_outputs-ge : (total : ℕ) (os : List TxOut) → limit ≤ total → limit ≤ sum_outputs total os
unfolding sum_outputs
sum_outputs-ge total [] h = h
sum_outputs-ge total (o ∷ os) h =
    sum_outputs-ge (add_money total o.amount) os (add_money-ge total o.amount (omega arith))

-- A sum that has at most 28 digits was not rounded on the way.
pub sum_outputs_exact :
    (total : ℕ) (os : List TxOut)
    → sum_outputs total os < limit
    → sum_outputs total os ≡ total + output_value os
unfolding sum_outputs output_value
sum_outputs_exact total [] h = omega arith
sum_outputs_exact total (o ∷ os) h = elim (dec_lt (total + o.amount) limit) [
  | yes small ↦
      sum_outputs_exact (add_money total o.amount) os h
      ∙ omega (arith, add_money_exact total o.amount small)
  | no large ↦ absurd (
      omega (
        arith,
        sum_outputs-ge (add_money total o.amount) os (add_money-ge total o.amount (omega arith)),
      ))
]

abbrev after_insert : Text → TxOut → Db → Db
after_insert currency o db = record db { utxos = new_utxo currency o ∷ db.utxos }

insert_outputs-step :
    (currency : Text) (o : TxOut) (os : List TxOut) (db db' : Db)
    → insert_outputs currency (o ∷ os) db ≡ (ok tt, db')
    → (find_utxo o.token_id db.utxos ≡ none)
      × (insert_outputs currency os (after_insert currency o db) ≡ (ok tt, db'))
unfolding insert_outputs insert_utxo new_utxo
insert_outputs-step currency o os db db' h = ground arith

-- What the loop over the outputs does to the tables.
pub record Inserts (currency : Text) (os : List TxOut) (db db' : Db) : Type 0 where
  pub only : OnlyUtxos db db'
  pub unique : IsUnique db.utxos → IsUnique db'.utxos
  pub kept : Keeps db.utxos db'.utxos
  pub added :
      (c : Text) → supply c db'.utxos ≡ supply c db.utxos + share c currency (output_value os)
  pub created : All (λ o. find_utxo o.token_id db'.utxos ≡ some (new_utxo currency o)) os

module _ (currency : Text) where
  first_insert-supply :
      (c : Text) (o : TxOut) (os : List TxOut) (us : List Utxo) (n : ℕ)
      → n ≡ supply c (new_utxo currency o ∷ us) + share c currency (output_value os)
      → n ≡ supply c us + share c currency (output_value (o ∷ os))
  unfolding supply worth new_utxo output_value
  first_insert-supply c o os us n h = omega (arith, share-add c currency o.amount (output_value os))

  find_utxo-new :
      (o : TxOut) (us : List Utxo)
      → find_utxo o.token_id (new_utxo currency o ∷ us) ≡ some (new_utxo currency o)
  unfolding find_utxo new_utxo
  find_utxo-new o us = ground arith

  new-Keeps :
      (o : TxOut) (us : List Utxo)
      → find_utxo o.token_id us ≡ none
      → Keeps us (new_utxo currency o ∷ us)
  unfolding new_utxo
  new-Keeps o us absent = cons-Keeps (new_utxo currency o) us absent

  new-IsUnique :
      (o : TxOut) (us : List Utxo)
      → find_utxo o.token_id us ≡ none
      → IsUnique us
      → IsUnique (new_utxo currency o ∷ us)
  unfolding new_utxo
  new-IsUnique o us absent uniq = (absent, uniq)

  insert_outputs-none :
      (db db' : Db) → insert_outputs currency [] db ≡ (ok tt, db') → Inserts currency [] db db'
  unfolding insert_outputs output_value share
  insert_outputs-none db db' h =
      let e : db ≡ db' = ground arith in
      rw (← e) (record {
        only = record { clients = refl; audit = refl; idem = refl };
        unique = λ uniq. uniq;
        kept = λ j u found. found;
        added = λ c. ground arith;
        created = tt;
      })

  -- The loop inserts each output as an unspent token of the currency, and changes no other row.
  pub insert_outputs-Inserts :
      (os : List TxOut) (db db' : Db)
      → insert_outputs currency os db ≡ (ok tt, db')
      → Inserts currency os db db'
  insert_outputs-Inserts [] db db' h = insert_outputs-none db db' h
  insert_outputs-Inserts (o ∷ os) db db' h =
      let (absent, rest) = insert_outputs-step currency o os db db' h in
      let i = insert_outputs-Inserts os (after_insert currency o db) db' rest in
      let new = new_utxo currency o in
      record {
        only = record { clients = i.only.clients; audit = i.only.audit; idem = i.only.idem };
        unique = λ uniq. i.unique (new-IsUnique o db.utxos absent uniq);
        kept = λ j u found. i.kept j u (new-Keeps o db.utxos absent j u found);
        added = λ c. first_insert-supply c o os db.utxos (supply c db'.utxos) (i.added c);
        created = (i.kept o.token_id new (find_utxo-new o db.utxos), i.created);
      }
