-- ===== src/Stores/Sums.antt =====
-- The sums of `_validate_tx_intent` are exact while they have at most 28 digits.
use project_hamilton.Base.{ℕ, ◌+◌, ◌≤◌, ◌<◌, ◌≡◌, List, [], ◌∷◌, Text, arith, dec_lt}
use project_hamilton.Base.Money.{add_money, add_money_exact, add_money-ge, limit}
use project_hamilton.Models.Types.{Currency, Utxo, TransactionInput, TransactionOutput}
use project_hamilton.Stores.Hash.{Env}
use project_hamilton.Stores.Table.{share, supply, share-add}
use project_hamilton.Stores.Intent.{AllSpendable, add_tokens, add_outputs}

unfoldable pub token_sum : List Utxo → ℕ
token_sum [] = 0
token_sum (u ∷ us) = u.amount + token_sum us

unfoldable pub output_sum : List TransactionOutput → ℕ
output_sum [] = 0
output_sum (o ∷ os) = o.amount + output_sum os

pub add_tokens_exact :
    (total : ℕ) (us : List Utxo)
    → total + token_sum us < limit
    → add_tokens total us ≡ total + token_sum us
unfolding add_tokens token_sum
add_tokens_exact total [] h = omega arith
add_tokens_exact total (u ∷ us) h =
    let e = add_money_exact total u.amount (omega arith) in
    rw e (let ih = add_tokens_exact (total + u.amount) us (omega arith) in omega arith)

-- A sum that stays below the limit was not rounded.
add_money_inv : (a b : ℕ) → add_money a b < limit → (a + b < limit) × (add_money a b ≡ a + b)
add_money_inv a b h = elim (dec_lt (a + b) limit) [
  | yes lt ↦ (lt, add_money_exact a b lt)
  | no ge ↦ absurd (omega (arith, add_money-ge a b (omega arith)))
]

add_outputs-ge :
    (total : ℕ) (os : List TransactionOutput) → limit ≤ total → limit ≤ add_outputs total os
unfolding add_outputs
add_outputs-ge total [] h = h
add_outputs-ge total (o ∷ os) h =
    add_outputs-ge (add_money total o.amount) os (add_money-ge total o.amount (omega arith))

pub add_outputs_exact :
    (total : ℕ) (os : List TransactionOutput)
    → add_outputs total os < limit
    → add_outputs total os ≡ total + output_sum os
unfolding add_outputs output_sum
add_outputs_exact total [] h = omega arith
add_outputs_exact total (o ∷ os) h = elim (dec_lt (add_money total o.amount) limit) [
  | no ge ↦ absurd (omega (arith, add_outputs-ge (add_money total o.amount) os (omega arith)))
  | yes lt ↦
      let (below, e) = add_money_inv total o.amount lt in
      let ih = add_outputs_exact (add_money total o.amount) os h in omega arith
]

-- The two sides of the last check of `_validate_tx_intent`, without rounding.
pub sums_exact :
    (fs : List Utxo) (os : List TransactionOutput) (fee : ℕ)
    → token_sum fs < limit
    → add_tokens 0 fs ≡ add_money (add_outputs 0 os) fee
    → token_sum fs ≡ output_sum os + fee
sums_exact fs os fee h e =
    let i = add_tokens_exact 0 fs (omega arith) in
    let (below, e') = add_money_inv (add_outputs 0 os) fee (omega arith) in
    let o = add_outputs_exact 0 os (omega arith) in omega arith

-- Tokens of one currency are worth their sum in it, and nothing in another.
pub supply-share :
    (env : Env) (now : ℕ) (h : Text) (c d : Currency) (is : List TransactionInput) (fs : List Utxo)
    → AllSpendable env now h d is fs
    → supply c fs ≡ share c d (token_sum fs)
unfolding supply token_sum share
supply-share env now h c d [] [] all = ground arith
supply-share env now h c d [] (f ∷ fs) all = absurd all
supply-share env now h c d (i ∷ is) [] all = absurd all
supply-share env now h c d (i ∷ is) (f ∷ fs) all =
    let ih = supply-share env now h c d is fs all.1 in
    let able = all.0 in
    let split = share-add c d f.amount (token_sum fs) in rw (able.currency, ih) (omega arith)
