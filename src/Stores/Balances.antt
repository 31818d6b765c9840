-- ===== src/Stores/Balances.antt =====
-- `get_balance` is the worth of the live tokens of the owner in the table.
use project_hamilton.Base.{
  ℕ, ◌+◌, ◌≡◌, ◌≢◌, ◌≤◌, ◌<◌, refl, sym, ap, ◌∙◌, true, false, Option, none, some, List, [], ◌∷◌,
  Text, text_dec, ite, contains, has_duplicate, dec_lt, arith,
}
use project_hamilton.Base.Money.{limit, add_money_exact}
use project_hamilton.Models.Types.{Currency, currency_dec, Utxo}
use project_hamilton.Stores.State.{Ledger, get_token}
use project_hamilton.Stores.Index.{owner_bucket, discard}
use project_hamilton.Stores.Memory.{counted_in, balance_of, get_balance}
use project_hamilton.Stores.Table.{IsUnique, share, supply}
use project_hamilton.Stores.Owners.{
  contains_head, contains-discard, contains-discard_ne, discard-distinct,
}
use project_hamilton.Stores.Indexed.{owned_by, owned_self, owned_other, IsIndexed}

-- What a token counts for at a time: its amount in its currency, before it expires.
unfoldable pub worth : ℕ → Currency → Option Utxo → ℕ
worth now c none = 0
worth now c (some u) =
    ite (currency_dec u.currency c)
      (elim u.expires_at [ none ↦ u.amount | some t ↦ ite (dec_lt now t) u.amount 0 ]) 0

-- The worth of all tokens of the owner.
unfoldable pub holdings : ℕ → Currency → Text → List Utxo → ℕ
holdings now c owner [] = 0
holdings now c owner (u ∷ us) =
    ite (text_dec u.owner_public_key owner) (worth now c (some u)) 0 + holdings now c owner us

-- A sum over identifiers.
abbrev pub sum_of : (Text → ℕ) → List Text → ℕ
sum_of f [] = 0
sum_of f (t ∷ ts) = f t + sum_of f ts

counted_in_exact :
    (now : ℕ) (c : Currency) (total : ℕ) (o : Option Utxo)
    → total + worth now c o < limit
    → counted_in now c total o ≡ total + worth now c o
unfolding counted_in worth
counted_in_exact now c total none h = omega arith
counted_in_exact now c total (some u) h = ground (arith, add_money_exact total u.amount)

pub balance_of_exact :
    (now : ℕ) (c : Currency) (us : List Utxo) (total : ℕ) (ts : List Text)
    → total + sum_of (λ t. worth now c (get_token t us)) ts < limit
    → balance_of now c us total ts ≡ total + sum_of (λ t. worth now c (get_token t us)) ts
unfolding balance_of
balance_of_exact now c us total [] h = omega arith
balance_of_exact now c us total (t ∷ ts) h =
    let e = counted_in_exact now c total (get_token t us) (omega arith) in
    rw e (
      let ih = balance_of_exact now c us (total + worth now c (get_token t us)) ts (omega arith) in
      omega arith)

discard_absent : (t : Text) (ts : List Text) → contains text_dec t ts ≡ false → discard t ts ≡ ts
unfolding contains discard
discard_absent t [] h = refl
discard_absent t (i ∷ ts) h = ground (arith, discard_absent t ts)

-- One of different identifiers, in front of the rest.
sum_of-discard :
    (f : Text → ℕ) (t : Text) (ts : List Text)
    → has_duplicate text_dec ts ≡ false
    → contains text_dec t ts ≡ true
    → sum_of f ts ≡ f t + sum_of f (discard t ts)
unfolding contains discard has_duplicate
sum_of-discard f t [] d h = cc
sum_of-discard f t (i ∷ ts) d h = ground (arith, sum_of-discard f t ts, discard_absent t ts)

worth_skipped :
    (now : ℕ) (c : Currency) (u : Utxo) (us : List Utxo) (ts : List Text)
    → contains text_dec u.token_id ts ≡ false
    → sum_of (λ t. worth now c (get_token t (u ∷ us))) ts
      ≡ sum_of (λ t. worth now c (get_token t us)) ts
unfolding contains get_token
worth_skipped now c u us [] h = refl
worth_skipped now c u us (t ∷ ts) h = ground (arith, worth_skipped now c u us ts)

get_token-skip :
    (u : Utxo) (us : List Utxo) (t : Text) → t ≢ u.token_id → get_token t (u ∷ us) ≡ get_token t us
unfolding get_token
get_token-skip u us t ne = ground arith

get_token-head :
    (u : Utxo) (us : List Utxo) (t : Text) → t ≡ u.token_id → get_token t (u ∷ us) ≡ some u
unfolding get_token
get_token-head u us t e = ground arith

add_both : {a b x y : ℕ} → a ≡ b → x ≡ y → a + x ≡ b + y
add_both e f = cc

module _ (now : ℕ) (c : Currency) (owner : Text) where
  holdings_mine :
      (u : Utxo) (us : List Utxo)
      → u.owner_public_key ≡ owner
      → holdings now c owner (u ∷ us) ≡ worth now c (some u) + holdings now c owner us
  unfolding holdings
  holdings_mine u us e = ground arith

  pub sum_holdings :
      (us : List Utxo) (ts : List Text)
      → IsUnique us
      → has_duplicate text_dec ts ≡ false
      → ((t : Text) → contains text_dec t ts ≡ owned_by owner (get_token t us))
      → sum_of (λ t. worth now c (get_token t us)) ts ≡ holdings now c owner us
  unfolding holdings get_token owned_by
  sum_holdings [] [] uniq d h = refl
  sum_holdings [] (t ∷ ts) uniq d h =
      let there = contains_head t t ts refl in let gone = h t in absurd cc
  sum_holdings (u ∷ us) ts uniq d h =
      let at = h u.token_id ∙ ap (owned_by owner) (get_token-head u us u.token_id refl) in
      let rest = discard u.token_id ts in
      let new = λ (t : Text) (e : t ≡ u.token_id).
        sym (ap (λ x. owned_by owner (get_token x us)) e ∙ ap (owned_by owner) uniq.0) in
      let old =
        λ (t : Text) (n : t ≢ u.token_id). h t ∙ ap (owned_by owner) (get_token-skip u us t n) in
      elim (text_dec u.owner_public_key owner) [
        | yes e ↦
            let present : contains text_dec u.token_id ts ≡ true = at ∙ owned_self owner u e in
            let gone = contains-discard u.token_id ts in
            let pulled =
              sum_of-discard (λ t. worth now c (get_token t (u ∷ us))) u.token_id ts d present in
            let head = ap (worth now c) (get_token-head u us u.token_id refl) in
            let skipped = worth_skipped now c u us rest gone in
            let ih = sum_holdings us rest uniq.1 (discard-distinct u.token_id ts d) λ t.
              elim (text_dec t u.token_id) [
                | yes e' ↦ ap (λ x. contains text_dec x rest) e' ∙ gone ∙ new t e'
                | no n ↦ contains-discard_ne u.token_id t n ts ∙ old t n
              ] in
            pulled ∙ add_both head (skipped ∙ ih) ∙ sym (holdings_mine u us e)
        | no ne ↦
            let absent : contains text_dec u.token_id ts ≡ false = at ∙ owned_other owner u ne in
            let ih = sum_holdings us ts uniq.1 d λ t. elim (text_dec t u.token_id) [
              | yes e' ↦ ap (λ x. contains text_dec x ts) e' ∙ absent ∙ new t e'
              | no n ↦ old t n
            ] in
            worth_skipped now c u us ts absent ∙ ih ∙ ground arith
      ]

worth-le : (now : ℕ) (c : Currency) (u : Utxo) → worth now c (some u) ≤ share c u.currency u.amount
unfolding worth share
worth-le now c u = ground arith

pub holdings-le :
    (now : ℕ) (c : Currency) (owner : Text) (us : List Utxo) → holdings now c owner us ≤ supply c us
unfolding holdings supply
holdings-le now c owner [] = omega arith
holdings-le now c owner (u ∷ us) = ground (arith, holdings-le now c owner us, worth-le now c u)

-- What `get_balance` returns is the sum of the amounts of the owner's tokens in the table that
-- have the currency and no expiry that has come, if the index lists under every owner exactly the
-- identifiers of its tokens, each once, no token is in the table twice, and the amount of the
-- currency has at most 28 digits in cents.
pub get_balance_exact :
    (now : ℕ) (owner : Text) (c : Currency) (l : Ledger)
    → IsIndexed l
    → IsUnique l.utxos
    → supply c l.utxos < limit
    → get_balance now owner c l ≡ holdings now c owner l.utxos
unfolding get_balance
get_balance_exact now owner c l h uniq small =
    let ts = owner_bucket owner l.owner_index in
    let sum = sum_holdings now c owner l.utxos ts uniq (h.distinct owner) (h.agrees owner) in
    let bound = holdings-le now c owner l.utxos in
    balance_of_exact now c l.utxos 0 ts (omega arith) ∙ omega arith
