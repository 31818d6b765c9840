-- ===== src/Bridge/Process.antt =====
-- `process_liquidity_transaction` on every branch, and what it keeps.
use project_hamilton.Base.{
  ℕ, ◌+◌, ◌-◌, ◌≤◌, ◌<◌, ◌≡◌, ◌≢◌, refl, none, some, Option, List, ◌∷◌, Text, text_dec, dec_le,
  arith, ◌⊎◌, inl, inr,
}
use project_hamilton.Base.Money.{limit}
use project_hamilton.Base.Action.{Error, ok, raise, http}
use project_hamilton.Bridge.State.{
  TxType, mint, burn, TxRow, Liquidity, Db, Failure, Request, duplicate_transaction,
  insufficient_liquidity, find_reference, find_transaction, find_liquidity,
}
use project_hamilton.Bridge.Liquidity.{
  refuse_duplicate, adjust_found, adjust_liquidity, tx_row, record_transaction, liquidity_steps,
  process_liquidity_transaction,
}
use project_hamilton.Bridge.Backing.{
  counted, recorded, Matches, IsBacked, with_liquidity, new_liquidity-Matches, new_liquidity_ne,
  mint_found, burn_found, burn_short,
}

-- The database after a transaction of a kind that leaves `k` as the liquidity.
abbrev pub after : Request → TxType → Text → ℕ → Db → Db
after req t tx_id k db =
    let db₁ = with_liquidity req k (find_liquidity req.currency db.liquidity) db in
    record db₁ { transactions = tx_row req t tx_id ∷ db.transactions }

pub recorded_other :
    (c : Text) (kind : TxType) (req : Request) (t : TxType) (tx_id : Text) (rs : List TxRow)
    → c ≢ req.currency
    → recorded c kind (tx_row req t tx_id ∷ rs) ≡ recorded c kind rs
unfolding recorded counted
recorded_other c mint req t tx_id rs ne = ground arith
recorded_other c burn req t tx_id rs ne = ground arith

pub recorded_same :
    (kind : TxType) (req : Request) (tx_id : Text) (rs : List TxRow)
    → recorded req.currency kind (tx_row req kind tx_id ∷ rs)
      ≡ req.amount + recorded req.currency kind rs
unfolding recorded counted
recorded_same mint req tx_id rs = ground arith
recorded_same burn req tx_id rs = ground arith

pub recorded_crossed :
    (req : Request) (tx_id : Text) (rs : List TxRow)
    → (recorded req.currency burn (tx_row req mint tx_id ∷ rs) ≡ recorded req.currency burn rs)
      × (recorded req.currency mint (tx_row req burn tx_id ∷ rs) ≡ recorded req.currency mint rs)
unfolding recorded counted
recorded_crossed req tx_id rs = (ground arith, ground arith)

module _ (req : Request) (t : TxType) (tx_id : Text) (db : Db) where
  pub process_duplicate :
      (r : TxRow)
      → find_reference req.bank_reference db.transactions ≡ some r
      → process_liquidity_transaction req t tx_id db ≡ (raise (http 409 duplicate_transaction), db)
  unfolding process_liquidity_transaction liquidity_steps refuse_duplicate
  process_duplicate r found = ground arith

  pub process_adjusted :
      (k : ℕ)
      → find_reference req.bank_reference db.transactions ≡ none
      → find_transaction tx_id db.transactions ≡ none
      → adjust_found req t (find_liquidity req.currency db.liquidity) db
        ≡ (ok tt, with_liquidity req k (find_liquidity req.currency db.liquidity) db)
      → process_liquidity_transaction req t tx_id db ≡ (ok tx_id, after req t tx_id k db)
  unfolding process_liquidity_transaction liquidity_steps refuse_duplicate adjust_liquidity
      record_transaction
  process_adjusted k new fresh adjusted = ground arith

  pub process_clash :
      (k : ℕ) (r : TxRow)
      → find_reference req.bank_reference db.transactions ≡ none
      → find_transaction tx_id db.transactions ≡ some r
      → adjust_found req t (find_liquidity req.currency db.liquidity) db
        ≡ (ok tt, with_liquidity req k (find_liquidity req.currency db.liquidity) db)
      → process_liquidity_transaction req t tx_id db ≡ (raise Error.integrity_error, db)
  unfolding process_liquidity_transaction liquidity_steps refuse_duplicate adjust_liquidity
      record_transaction
  process_clash k r new taken adjusted = ground arith

  pub process_refused :
      (e : Failure)
      → find_reference req.bank_reference db.transactions ≡ none
      → adjust_found req t (find_liquidity req.currency db.liquidity) db ≡ (raise e, db)
      → process_liquidity_transaction req t tx_id db ≡ (raise e, db)
  unfolding process_liquidity_transaction liquidity_steps refuse_duplicate adjust_liquidity
  process_refused e new refused = ground arith

  pub after-IsBacked :
      (k : ℕ)
      → IsBacked db
      → recorded req.currency burn (tx_row req t tx_id ∷ db.transactions)
        ≤ recorded req.currency mint (tx_row req t tx_id ∷ db.transactions)
      → k
        ≡ recorded req.currency mint (tx_row req t tx_id ∷ db.transactions)
          - recorded req.currency burn (tx_row req t tx_id ∷ db.transactions)
      → IsBacked (after req t tx_id k db)
  after-IsBacked k backed le e c = elim (text_dec c req.currency) [
    | yes same ↦ rw same (
        new_liquidity-Matches req.currency k
          (recorded req.currency mint (tx_row req t tx_id ∷ db.transactions))
          (recorded req.currency burn (tx_row req t tx_id ∷ db.transactions))
          (find_liquidity req.currency db.liquidity) db.liquidity refl le e)
    | no other ↦
        rw
          (
            new_liquidity_ne c req.currency k (find_liquidity req.currency db.liquidity)
                db.liquidity other,
            recorded_other c mint req t tx_id db.transactions other,
            recorded_other c burn req t tx_id db.transactions other,
          )
          (backed c)
  ]

pub Matches-le : (o : Option Liquidity) (m b : ℕ) → Matches o m b → b ≤ m
Matches-le none m b h = omega arith
Matches-le (some row) m b h = h.0

module _ (req : Request) (tx_id : Text) (db : Db) (backed : IsBacked db) (positive : 0 < req.amount)
    (fits : recorded req.currency mint db.transactions + req.amount < limit)
    (new : find_reference req.bank_reference db.transactions ≡ none) where
  -- If the liquidity is backed, the amount is above 0, what was minted of its currency stays below
  -- 10 ^ 28 units with it, and the bank reference and the identifier are new, then a mint returns
  -- its identifier.
  pub mint_returns :
      find_transaction tx_id db.transactions ≡ none
      → (process_liquidity_transaction req mint tx_id db).0 ≡ ok tx_id
  mint_returns fresh =
      let c = req.currency in
      let m = recorded c mint db.transactions in
      let b = recorded c burn db.transactions in
      let o = find_liquidity c db.liquidity in
      rw
        (process_adjusted req mint tx_id db (m + req.amount - b) new fresh
          (mint_found req db m b o (backed c) fits))
        refl

  -- If the liquidity is backed, the amount is above 0, what was minted of its currency stays below
  -- 10 ^ 28 units with it, and the bank reference and the identifier are new, then a burn returns
  -- its identifier if what was burned of its currency, with the amount, is at most what was minted,
  -- and otherwise it raises a 400 and changes nothing.
  pub burn_decided :
      find_transaction tx_id db.transactions ≡ none
      → ((recorded req.currency burn db.transactions + req.amount
            ≤ recorded req.currency mint db.transactions)
          × ((process_liquidity_transaction req burn tx_id db).0 ≡ ok tx_id))
        ⊎ ((recorded req.currency mint db.transactions
              < recorded req.currency burn db.transactions + req.amount)
            × (process_liquidity_transaction req burn tx_id db
                ≡ (raise (http 400 insufficient_liquidity), db)))
  burn_decided fresh =
      let c = req.currency in
      let m = recorded c mint db.transactions in
      let b = recorded c burn db.transactions in
      let o = find_liquidity c db.liquidity in
      elim (dec_le (b + req.amount) m) [
        | yes le ↦ inl (
          le,
          rw
              (process_adjusted req burn tx_id db (m - (b + req.amount)) new fresh
                (burn_found req db m b o (backed c) positive fits le))
              refl,
        )
        | no short ↦ inr (
          omega arith,
          process_refused req burn tx_id db (http 400 insufficient_liquidity) new
              (burn_short req db m b o (backed c) fits (omega arith)),
        )
      ]
