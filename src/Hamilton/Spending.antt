-- ===== src/Hamilton/Spending.antt =====
-- The loop of `process_tx` over its inputs, when it returns.
use project_hamilton.Base.{
  ℕ, ◌+◌, ◌<◌, ◌≤◌, ◌≡◌, ◌∙◌, some, List, [], ◌∷◌, Text, text_dec, arith, All,
}
use project_hamilton.Base.Money.{add_money, add_money_exact, limit}
use project_hamilton.Base.Action.{ok, >>=-ok}
use project_hamilton.Hamilton.State.{Db, Utxo, unspent, spent, find_utxo, set_status, mark}
use project_hamilton.Hamilton.Request.{TxRequest}
use project_hamilton.Hamilton.Handlers.{unspent_or_throw, fetch_unspent, spend_input, spend_inputs}
use project_hamilton.Hamilton.Table.{
  IsUnique, Grows, Grows-refl, Grows-trans, supply, share, supply-set_status, set_status-IsUnique,
  set_status-Grows, find_utxo-set_status_self, find_utxo-set_status_ne, worth, share-add,
}

-- The token stands in the table and may be spent by the request.
pub record Spendable (tx : TxRequest) (tid : Text) (us : List Utxo) (u : Utxo) : Type 0 where
  pub found : find_utxo tid us ≡ some u
  pub fresh : u.status ≡ unspent
  pub currency : u.currency ≡ tx.currency
  pub owned : u.owner_public_key ≡ tx.signer_public_key

abbrev pub after_spend : Text → Db → Db
after_spend tid db = record db { utxos = set_status tid spent db.utxos }

pub spend_input-ok :
    (tx : TxRequest) (tid : Text) (db db' : Db) (amount : ℕ)
    → spend_input tx tid db ≡ (ok amount, db')
    → (u : Utxo) × Spendable tx tid db.utxos u × (amount ≡ u.amount) × (db' ≡ after_spend tid db)
unfolding spend_input fetch_unspent unspent_or_throw mark
spend_input-ok tx tid db db' amount h = ground arith

-- The first round of a loop that returned, and the rest of the loop.
spend_inputs-step :
    (tx : TxRequest) (total : ℕ) (tid : Text) (tids : List Text) (db db' : Db) (result : ℕ)
    → spend_inputs tx total (tid ∷ tids) db ≡ (ok result, db')
    → (u : Utxo) × Spendable tx tid db.utxos u
      × (spend_inputs tx (add_money total u.amount) tids (after_spend tid db) ≡ (ok result, db'))
unfolding spend_inputs
spend_inputs-step tx total tid tids db db' result h =
    let (amount, db₁, first, rest) =
      >>=-ok (spend_input tx tid) (λ amount. spend_inputs tx (add_money total amount) tids) h in
    let (u, able, paid, next) = spend_input-ok tx tid db db₁ amount first in
    (u, able, rw (← paid, ← next) rest)

-- The loop writes the table of the tokens and no other.
pub record OnlyUtxos (db db' : Db) : Type 0 where
  pub clients : db'.clients ≡ db.clients
  pub audit : db'.audit ≡ db.audit
  pub idem : db'.idem ≡ db.idem

pub spend_inputs-OnlyUtxos :
    (tx : TxRequest) (total : ℕ) (tids : List Text) (db db' : Db) (result : ℕ)
    → spend_inputs tx total tids db ≡ (ok result, db')
    → OnlyUtxos db db'
unfolding spend_inputs
spend_inputs-OnlyUtxos tx total [] db db' result h = ground arith
spend_inputs-OnlyUtxos tx total (tid ∷ tids) db db' result h =
    let (u, able, rest) = spend_inputs-step tx total tid tids db db' result h in
    let o =
      spend_inputs-OnlyUtxos tx (add_money total u.amount) tids (after_spend tid db) db' result
        rest in
    record { clients = o.clients; audit = o.audit; idem = o.idem }

pub spend_inputs-IsUnique :
    (tx : TxRequest) (total : ℕ) (tids : List Text) (db db' : Db) (result : ℕ)
    → spend_inputs tx total tids db ≡ (ok result, db')
    → IsUnique db.utxos
    → IsUnique db'.utxos
unfolding spend_inputs
spend_inputs-IsUnique tx total [] db db' result h uniq = ground arith
spend_inputs-IsUnique tx total (tid ∷ tids) db db' result h uniq =
    let (u, able, rest) = spend_inputs-step tx total tid tids db db' result h in
    spend_inputs-IsUnique tx (add_money total u.amount) tids (after_spend tid db) db' result rest
      (set_status-IsUnique tid spent db.utxos uniq)

pub spend_inputs-Grows :
    (tx : TxRequest) (total : ℕ) (tids : List Text) (db db' : Db) (result : ℕ)
    → spend_inputs tx total tids db ≡ (ok result, db')
    → Grows db.utxos db'.utxos
unfolding spend_inputs
spend_inputs-Grows tx total [] db db' result h =
    let e : db.utxos ≡ db'.utxos = ground arith in rw (← e) (Grows-refl db.utxos)
spend_inputs-Grows tx total (tid ∷ tids) db db' result h =
    let (u, able, rest) = spend_inputs-step tx total tid tids db db' result h in
    Grows-trans db.utxos (after_spend tid db).utxos db'.utxos
      (set_status-Grows tid spent u db.utxos able.found able.fresh)
      (spend_inputs-Grows tx (add_money total u.amount) tids (after_spend tid db) db' result rest)

-- The token that a request may spend, as it stands afterwards.
unfoldable pub Consumed : TxRequest → List Utxo → List Utxo → Text → Type 0
Consumed tx us vs tid =
    (u : Utxo) × Spendable tx tid us u × (find_utxo tid vs ≡ some (record u { status = spent }))

-- What is spent stays spent.
spent_stays :
    (tid : Text) (u : Utxo) (us vs : List Utxo)
    → find_utxo tid us ≡ some (record u { status = spent })
    → Grows us vs
    → find_utxo tid vs ≡ some (record u { status = spent })
spent_stays tid u us vs found g =
    let (v, found', old) = g tid (record u { status = spent }) found in ground arith

-- A token that may be spent after another was spent could be spent before, and is another one.
Spendable-before :
    (tx : TxRequest) (tid j : Text) (us : List Utxo) (u v : Utxo)
    → find_utxo tid us ≡ some u
    → Spendable tx j (set_status tid spent us) v
    → Spendable tx j us v
Spendable-before tx tid j us u v found able = elim (text_dec j tid) [
  | yes e ↦
      absurd
        (ground (arith, find_utxo-set_status_self tid spent u us found, able.found, able.fresh))
  | no ne ↦ record {
    found = rw (← find_utxo-set_status_ne tid spent j us ne) able.found;
    fresh = able.fresh;
    currency = able.currency;
    owned = able.owned;
  }
]

Consumed-before :
    (tx : TxRequest) (tid : Text) (us vs : List Utxo) (u : Utxo) (tids : List Text)
    → find_utxo tid us ≡ some u
    → All (Consumed tx (set_status tid spent us) vs) tids
    → All (Consumed tx us vs) tids
unfolding Consumed
Consumed-before tx tid us vs u [] found all = tt
Consumed-before tx tid us vs u (j ∷ tids) found ((v, able, gone), all) = (
  (v, Spendable-before tx tid j us u v found able, gone),
  Consumed-before tx tid us vs u tids found all,
)

-- Each input was there, unspent, of the currency and owned by the signer, and is spent now.
pub spend_inputs-Consumed :
    (tx : TxRequest) (total : ℕ) (tids : List Text) (db db' : Db) (result : ℕ)
    → spend_inputs tx total tids db ≡ (ok result, db')
    → All (Consumed tx db.utxos db'.utxos) tids
unfolding Consumed
spend_inputs-Consumed tx total [] db db' result h = tt
spend_inputs-Consumed tx total (tid ∷ tids) db db' result h =
    let (u, able, rest) = spend_inputs-step tx total tid tids db db' result h in
    let db₁ = after_spend tid db in
    let total' = add_money total u.amount in
    (
      (
        u,
        able,
        spent_stays tid u db₁.utxos db'.utxos
            (find_utxo-set_status_self tid spent u db.utxos able.found)
            (spend_inputs-Grows tx total' tids db₁ db' result rest),
      ),
      Consumed-before tx tid db.utxos db'.utxos u tids able.found
          (spend_inputs-Consumed tx total' tids db₁ db' result rest),
    )

worth-le-supply :
    (c tid : Text) (u : Utxo) (us : List Utxo)
    → find_utxo tid us ≡ some u
    → u.status ≡ unspent
    → u.currency ≡ c
    → u.amount ≤ supply c us
unfolding supply find_utxo worth share
worth-le-supply c tid u [] found fresh e = ground arith
worth-le-supply c tid u (v ∷ us) found fresh e = ground (arith, worth-le-supply c tid u us)

share_self : (c d : Text) (a : ℕ) → d ≡ c → share c d a ≡ a
unfolding share
share_self c d a e = ground arith

-- One round moves the token's amount from the supply to the total.
spend-supply :
    (c : Text) (tx : TxRequest) (total : ℕ) (tid : Text) (u : Utxo) (us : List Utxo)
    → IsUnique us
    → Spendable tx tid us u
    → total + supply tx.currency us < limit
    → let us' = set_status tid spent us in
      let total' = add_money total u.amount in
      (supply c us' + share c tx.currency total' ≡ supply c us + share c tx.currency total)
      × (total' + supply tx.currency us' < limit)
spend-supply c tx total tid u us uniq able fits =
    let cur = tx.currency in
    let le = worth-le-supply cur tid u us able.found able.fresh able.currency in
    let exact = add_money_exact total u.amount (omega arith) in
    let out = supply-set_status c tid spent u us (λ e. cc) uniq able.found able.fresh in
    let paid = supply-set_status cur tid spent u us (λ e. cc) uniq able.found able.fresh in
    let self = share_self cur u.currency u.amount able.currency in
    let split = share-add c cur total u.amount in
    let same : share c u.currency u.amount ≡ share c cur u.amount = rw able.currency in
    (rw exact (omega arith), rw exact (omega arith))

-- The loop moves value from the supply to its total, exactly.
pub spend_inputs-supply :
    (c : Text) (tx : TxRequest) (total : ℕ) (tids : List Text) (db db' : Db) (result : ℕ)
    → spend_inputs tx total tids db ≡ (ok result, db')
    → IsUnique db.utxos
    → total + supply tx.currency db.utxos < limit
    → (supply c db'.utxos + share c tx.currency result
        ≡ supply c db.utxos + share c tx.currency total)
      × (result < limit)
unfolding spend_inputs
spend_inputs-supply c tx total [] db db' result h uniq fits = (ground arith, ground arith)
spend_inputs-supply c tx total (tid ∷ tids) db db' result h uniq fits =
    let (u, able, rest) = spend_inputs-step tx total tid tids db db' result h in
    let (moved, fits') = spend-supply c tx total tid u db.utxos uniq able fits in
    let (onward, small) =
      spend_inputs-supply c tx (add_money total u.amount) tids (after_spend tid db) db' result rest
        (set_status-IsUnique tid spent db.utxos uniq) fits' in
    (onward ∙ moved, small)
