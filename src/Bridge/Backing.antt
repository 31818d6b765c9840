-- ===== src/Bridge/Backing.antt =====
-- The liquidity of each currency against the transactions that are recorded.
use project_hamilton.Base.{
  ℕ, ◌+◌, ◌-◌, ◌≤◌, ◌<◌, ◌≡◌, ◌≢◌, refl, Option, none, some, List, [], ◌∷◌, Text, text_dec, ite,
  arith, ap,
}
use project_hamilton.Base.Money.{round_exact, limit}
use project_hamilton.Base.Int.{ℤ, pos, add_decimal_pos, add_decimal_neg, add_decimal_short}
use project_hamilton.Base.Action.{ok, raise, http}
use project_hamilton.Bridge.State.{
  TxType, mint, burn, TxRow, Liquidity, Db, Request, insufficient_liquidity, find_liquidity,
  update_liquidity,
}
use project_hamilton.Bridge.Liquidity.{delta, open_liquidity, set_liquidity, adjust_found}

-- The amount that a row counts for one kind of transaction in one currency.
unfoldable pub counted : Text → TxType → TxRow → ℕ
counted c mint r = ite (text_dec r.currency c) (elim r.tx_type [ mint ↦ r.amount | burn ↦ 0 ]) 0
counted c burn r = ite (text_dec r.currency c) (elim r.tx_type [ mint ↦ 0 | burn ↦ r.amount ]) 0

-- The sum of the recorded transactions of one kind in one currency.
unfoldable pub recorded : Text → TxType → List TxRow → ℕ
recorded c t [] = 0
recorded c t (r ∷ rs) = counted c t r + recorded c t rs

-- A liquidity row against what was minted and burned.
abbrev pub Matches : Option Liquidity → ℕ → ℕ → Type 0
Matches none minted burned = (minted ≡ 0) × (burned ≡ 0)
Matches (some row) minted burned =
    (burned ≤ minted)
    × (row.total ≡ pos (minted - burned))
    × (row.available ≡ pos (minted - burned))

-- In every currency the total and the available liquidity are what was minted less what was
-- burned, and there is a row if there was a transaction.
abbrev pub IsBacked : Db → Type 0
IsBacked db =
    (c : Text)
    → Matches (find_liquidity c db.liquidity) (recorded c mint db.transactions)
        (recorded c burn db.transactions)

find_liquidity-update_ne :
    (c d : Text) (t a : ℤ) (ls : List Liquidity)
    → c ≢ d
    → find_liquidity c (update_liquidity d t a ls) ≡ find_liquidity c ls
unfolding find_liquidity update_liquidity
find_liquidity-update_ne c d t a [] ne = refl
find_liquidity-update_ne c d t a (l ∷ ls) ne =
    ground (arith, find_liquidity-update_ne c d t a ls ne)

find_liquidity-update_self :
    (c : Text) (t a : ℤ) (row : Liquidity) (ls : List Liquidity)
    → find_liquidity c ls ≡ some row
    → find_liquidity c (update_liquidity c t a ls) ≡ some (record row { total = t; available = a })
unfolding find_liquidity update_liquidity
find_liquidity-update_self c t a row [] h = cc
find_liquidity-update_self c t a row (l ∷ ls) h =
    ground (arith, find_liquidity-update_self c t a row ls)

abbrev pub opened : Text → ℕ → Liquidity
opened c k = record { currency = c; total = pos k; available = pos k; locked = pos 0 }

-- The rows with `k` as the liquidity of a currency.
abbrev pub new_liquidity : Text → ℕ → Option Liquidity → List Liquidity → List Liquidity
new_liquidity c k none ls = opened c k ∷ ls
new_liquidity c k (some row) ls = update_liquidity c (pos k) (pos k) ls

opened_self :
    (c : Text) (k : ℕ) (ls : List Liquidity)
    → find_liquidity c (opened c k ∷ ls) ≡ some (opened c k)
unfolding find_liquidity
opened_self c k ls = ground arith

pub new_liquidity-Matches :
    (c : Text) (k m b : ℕ) (o : Option Liquidity) (ls : List Liquidity)
    → find_liquidity c ls ≡ o
    → b ≤ m
    → k ≡ m - b
    → Matches (find_liquidity c (new_liquidity c k o ls)) m b
new_liquidity-Matches c k m b none ls found le e = rw opened_self (le, ap pos e, ap pos e)
new_liquidity-Matches c k m b (some row) ls found le e =
    rw (find_liquidity-update_self c (pos k) (pos k) row ls found) (le, ap pos e, ap pos e)

pub new_liquidity_ne :
    (c d : Text) (k : ℕ) (o : Option Liquidity) (ls : List Liquidity)
    → c ≢ d
    → find_liquidity c (new_liquidity d k o ls) ≡ find_liquidity c ls
unfolding find_liquidity
new_liquidity_ne c d k none ls ne = ground arith
new_liquidity_ne c d k (some row) ls ne = find_liquidity-update_ne c d (pos k) (pos k) ls ne

abbrev pub with_liquidity : Request → ℕ → Option Liquidity → Db → Db
with_liquidity req k o db = record db { liquidity = new_liquidity req.currency k o db.liquidity }

-- A mint in a backed currency.
pub mint_found :
    (req : Request) (db : Db) (m b : ℕ) (o : Option Liquidity)
    → Matches o m b
    → m + req.amount < limit
    → adjust_found req mint o db ≡ (ok tt, with_liquidity req (m + req.amount - b) o db)
unfolding adjust_found open_liquidity set_liquidity delta
mint_found req db m b none (em, eb) fits =
    let e : m + req.amount - b ≡ req.amount = omega arith in rw e refl
mint_found req db m b (some row) (le, et, ea) fits =
    let e : m - b + req.amount ≡ m + req.amount - b = omega arith in
    rw (et, ea, add_decimal_pos (m - b) req.amount (omega arith), e) refl

-- A burn of what is there, and of more.
pub burn_found :
    (req : Request) (db : Db) (m b : ℕ) (o : Option Liquidity)
    → Matches o m b
    → 0 < req.amount
    → m + req.amount < limit
    → b + req.amount ≤ m
    → adjust_found req burn o db ≡ (ok tt, with_liquidity req (m - (b + req.amount)) o db)
unfolding adjust_found open_liquidity set_liquidity delta
burn_found req db m b none (em, eb) p fits le = absurd (omega arith)
burn_found req db m b (some row) (below, et, ea) p fits le =
    let e : m - b - req.amount ≡ m - (b + req.amount) = omega arith in
    rw
      (
        et,
        ea,
        round_exact req.amount (omega arith),
        add_decimal_neg (m - b) req.amount (omega arith) (omega arith),
        e,
      )
      refl

pub burn_short :
    (req : Request) (db : Db) (m b : ℕ) (o : Option Liquidity)
    → Matches o m b
    → m + req.amount < limit
    → m < b + req.amount
    → adjust_found req burn o db ≡ (raise (http 400 insufficient_liquidity), db)
unfolding adjust_found open_liquidity set_liquidity delta
burn_short req db m b none (em, eb) fits lt = refl
burn_short req db m b (some row) (below, et, ea) fits lt =
    rw
      (
        et,
        ea,
        round_exact req.amount (omega arith),
        add_decimal_short (m - b) req.amount (omega arith) (omega arith),
      )
      refl
