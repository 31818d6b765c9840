-- ===== src/Bridge/Books.antt =====
-- The bridge keeps its books: its liquidity is backed by its transactions after every call, and no
-- bank reference is used twice.
use project_hamilton.Base.{ℕ, ◌+◌, ◌-◌, ◌<◌, ◌≡◌, none, Option-cases, Text, dec_le, arith, inl, inr}
use project_hamilton.Base.Money.{limit}
use project_hamilton.Base.Action.{ok, http}
use project_hamilton.Bridge.State.{
  TxType, mint, burn, Db, Request, insufficient_liquidity, find_reference, find_transaction,
  find_liquidity,
}
use project_hamilton.Bridge.Liquidity.{adjust_found, process_liquidity_transaction}
use project_hamilton.Bridge.Backing.{
  recorded, IsBacked, with_liquidity, mint_found, burn_found, burn_short,
}
use project_hamilton.Bridge.Process.{
  after, process_duplicate, process_adjusted, process_clash, process_refused, after-IsBacked,
  recorded_same, recorded_crossed, Matches-le,
}

module _ (req : Request) (tx_id : Text) (db : Db) (backed : IsBacked db) (positive : 0 < req.amount)
    (fits : recorded req.currency mint db.transactions + req.amount < limit) where
  -- An adjustment that leaves `k`: the transaction is recorded, or its identifier was taken.
  adjusted-IsBacked :
      (t : TxType) (k : ℕ)
      → find_reference req.bank_reference db.transactions ≡ none
      → adjust_found req t (find_liquidity req.currency db.liquidity) db
        ≡ (ok tt, with_liquidity req k (find_liquidity req.currency db.liquidity) db)
      → IsBacked (after req t tx_id k db)
      → IsBacked (process_liquidity_transaction req t tx_id db).1
  adjusted-IsBacked t k new adjusted kept =
      elim (Option-cases (find_transaction tx_id db.transactions)) [
        | inl fresh ↦ rw (process_adjusted req t tx_id db k new fresh adjusted) kept
        | inr (r, taken) ↦ rw (process_clash req t tx_id db k r new taken adjusted) backed
      ]

  by_type :
      (t : TxType)
      → find_reference req.bank_reference db.transactions ≡ none
      → IsBacked (process_liquidity_transaction req t tx_id db).1
  by_type mint new =
      let c = req.currency in
      let m = recorded c mint db.transactions in
      let b = recorded c burn db.transactions in
      let o = find_liquidity c db.liquidity in
      let le = Matches-le o m b (backed c) in
      let same = recorded_same mint req tx_id db.transactions in
      let crossed = recorded_crossed req tx_id db.transactions in
      adjusted-IsBacked mint (m + req.amount - b) new (mint_found req db m b o (backed c) fits)
        (after-IsBacked req mint tx_id db (m + req.amount - b) backed (omega arith) (omega arith))
  by_type burn new =
      let c = req.currency in
      let m = recorded c mint db.transactions in
      let b = recorded c burn db.transactions in
      let o = find_liquidity c db.liquidity in
      let same = recorded_same burn req tx_id db.transactions in
      let crossed = recorded_crossed req tx_id db.transactions in
      elim (dec_le (b + req.amount) m) [
        | yes le ↦
            adjusted-IsBacked burn (m - (b + req.amount)) new
              (burn_found req db m b o (backed c) positive fits le)
              (after-IsBacked req burn tx_id db (m - (b + req.amount)) backed (omega arith)
                (omega arith))
        | no short ↦
            rw
              (process_refused req burn tx_id db (http 400 insufficient_liquidity) new
                (burn_short req db m b o (backed c) fits (omega arith)))
              backed
      ]

  -- If the liquidity is backed, the amount is above 0 and what was minted of its currency stays
  -- below 10 ^ 28 units with it, then the liquidity is backed after the call, whatever its kind and
  -- its outcome: in every currency the total and the available liquidity are what was minted less
  -- what was burned, which is not negative.
  pub process-IsBacked : (t : TxType) → IsBacked (process_liquidity_transaction req t tx_id db).1
  process-IsBacked t = elim (Option-cases (find_reference req.bank_reference db.transactions)) [
    | inl new ↦ by_type t new
    | inr (r, found) ↦ rw (process_duplicate req t tx_id db r found) backed
  ]
