-- ===== src/Stores/Conserve.antt =====
-- What a commit does to the table and to the supply.
use project_hamilton.Base.{
  ℕ, suc, ◌+◌, ◌≤◌, ◌<◌, ◌≡◌, ◌≢◌, refl, ap, ◌∙◌, none, some, List, [], ◌∷◌, Text, arith, All,
  length, dec_lt, has_duplicate, text_dec, false, if_pos, if_neg,
}
use project_hamilton.Base.Money.{limit}
use project_hamilton.Models.Types.{Currency, Utxo, Transaction, TransactionOutput}
use project_hamilton.Stores.State.{Ledger, get_token, drop_token, put_token}
use project_hamilton.Stores.Hash.{Env, compute_tx_hash}
use project_hamilton.Stores.Memory.{input_ids, output_token, fee_token}
use project_hamilton.Stores.Table.{
  IsUnique, Held, drop_tokens, drop_tokens-IsUnique, put_token-IsUnique, supply, share, share-add,
  share_self, supply-put_token, supply-drop_tokens, get_token-put_ne, get_token-drop_self,
  get_token-drop_tokens-none,
}
use project_hamilton.Stores.Commit.{spent, with_token, with_outputs, with_fee, committed}
use project_hamilton.Stores.Intent.{Balanced}
use project_hamilton.Stores.Sums.{token_sum, output_sum, sums_exact, supply-share}

-- What `uuid.uuid4()` gives: identifiers of no token, from the k-th call on, and never one twice.
pub record IsFresh (fresh : ℕ → Text) (us : List Utxo) : Type 0 where
  pub new : (k : ℕ) → get_token (fresh k) us ≡ none
  pub distinct : (j k : ℕ) → fresh j ≡ fresh k → j ≡ k

-- The same from the k-th call on.
abbrev pub NewFrom : (ℕ → Text) → ℕ → List Utxo → Type 0
NewFrom fresh k us = (j : ℕ) → k ≤ j → get_token (fresh j) us ≡ none

pub spent-utxos :
    (ts : List Text) (fs : List Utxo) (l : Ledger) (us : List Utxo)
    → Held us ts fs
    → (spent ts fs l).utxos ≡ drop_tokens ts l.utxos
unfolding drop_tokens
spent-utxos [] fs l us held = refl
spent-utxos (t ∷ ts) [] l us held = absurd held
spent-utxos (t ∷ ts) (f ∷ fs) l us held = spent-utxos ts fs _ us held.1

module _ (fresh : ℕ → Text) (distinct : (j k : ℕ) → fresh j ≡ fresh k → j ≡ k) where
  pub NewFrom-put :
      (k : ℕ) (u : Utxo) (us : List Utxo)
      → u.token_id ≡ fresh k
      → NewFrom fresh k us
      → NewFrom fresh (suc k) (put_token u us)
  NewFrom-put k u us e new j le =
      let other : fresh j ≢ u.token_id = λ e'. (let same = distinct j k (e' ∙ e) in omega arith) in
      rw (get_token-put_ne (fresh j) u us other) (new j (omega arith))

  with_outputs-supply :
      (now k : ℕ) (c d : Currency) (os : List TransactionOutput) (l : Ledger)
      → NewFrom fresh k l.utxos
      → All (λ o. o.currency ≡ d) os
      → IsUnique l.utxos
      → (supply c (with_outputs now fresh k os l).utxos
          ≡ share c d (output_sum os) + supply c l.utxos)
        × NewFrom fresh (k + length os) (with_outputs now fresh k os l).utxos
        × IsUnique (with_outputs now fresh k os l).utxos
  unfolding output_sum share output_token
  with_outputs-supply now k c d [] l new all uniq =
      (ground arith, (λ j le. new j (omega arith)), uniq)
  with_outputs-supply now k c d (o ∷ os) l new all uniq =
      let u = output_token now (fresh k) o in
      let ih =
        with_outputs-supply now (suc k) c d os (with_token u l) (NewFrom-put k u l.utxos refl new)
          all.1 (put_token-IsUnique u l.utxos uniq) in
      let one = supply-put_token c u l.utxos (new k (omega arith)) in
      let split = share-add c d o.amount (output_sum os) in
      let same : share c o.currency o.amount ≡ share c d o.amount =
        ap (λ x. share c x o.amount) all.0 in
      (omega arith, (λ j le. ih.1 j (omega arith)), ih.2)

  with_fee-supply :
      (now k fee : ℕ) (c d : Currency) (l : Ledger)
      → NewFrom fresh k l.utxos
      → IsUnique l.utxos
      → (supply c (with_fee now (fresh k) fee d l).utxos ≡ share c d fee + supply c l.utxos)
        × IsUnique (with_fee now (fresh k) fee d l).utxos
  unfolding share fee_token
  with_fee-supply now k fee c d l new uniq =
      let u = fee_token now (fresh k) fee d l.fee_collector in
      elim (dec_lt 0 fee) [
        | yes p ↦
            let e : with_fee now (fresh k) fee d l ≡ with_token u l =
              if_pos (dec_lt 0 fee) p (with_token u l) l in
            rw e (
              supply-put_token c u l.utxos (new k (omega arith)),
              put_token-IsUnique u l.utxos uniq,
            )
        | no p ↦
            let e : with_fee now (fresh k) fee d l ≡ l =
              if_neg (dec_lt 0 fee) p (with_token u l) l in
            let z : fee ≡ 0 = omega arith in rw e (ground arith, uniq)
      ]

  with_outputs-get :
      (now k : ℕ) (tid : Text) (os : List TransactionOutput) (l : Ledger)
      → ((j : ℕ) → tid ≢ fresh j)
      → get_token tid (with_outputs now fresh k os l).utxos ≡ get_token tid l.utxos
  unfolding output_token
  with_outputs-get now k tid [] l old = refl
  with_outputs-get now k tid (o ∷ os) l old =
      let u = output_token now (fresh k) o in
      with_outputs-get now (suc k) tid os (with_token u l) old
      ∙ get_token-put_ne tid u l.utxos (old k)

  with_fee-get :
      (now k fee : ℕ) (d : Currency) (tid : Text) (l : Ledger)
      → tid ≢ fresh k
      → get_token tid (with_fee now (fresh k) fee d l).utxos ≡ get_token tid l.utxos
  unfolding fee_token
  with_fee-get now k fee d tid l old =
      let u = fee_token now (fresh k) fee d l.fee_collector in
      ground (arith, get_token-put_ne tid u l.utxos old)

drop_tokens-gone :
    (ts : List Text) (us : List Utxo) → All (λ t. get_token t (drop_tokens ts us) ≡ none) ts
unfolding drop_tokens
drop_tokens-gone [] us = tt
drop_tokens-gone (t ∷ ts) us = (
  get_token-drop_tokens-none t ts (drop_token t us) (get_token-drop_self t us),
  drop_tokens-gone ts (drop_token t us),
)

module _ (env : Env) (now later : ℕ) (fresh : ℕ → Text) (tx : Transaction) (u : Utxo)
    (us : List Utxo) (l : Ledger) (uniq : IsUnique l.utxos) (ids : IsFresh fresh l.utxos)
    (distinct : has_duplicate text_dec (input_ids tx) ≡ false)
    (held : Held l.utxos (input_ids tx) (u ∷ us))
    (balanced : Balanced env now (compute_tx_hash env tx) u.currency tx (u ∷ us)) where
  pub committed-supply :
      (c : Currency)
      → supply u.currency l.utxos < limit
      → (supply c (committed env later fresh tx (u ∷ us) u.currency l).utxos ≡ supply c l.utxos)
        × IsUnique (committed env later fresh tx (u ∷ us) u.currency l).utxos
  committed-supply c small =
      let d = u.currency in
      let fs = u ∷ us in
      let ts = input_ids tx in
      let h = compute_tx_hash env tx in
      let l₁ = spent ts fs l in
      let dropped = spent-utxos ts fs l l.utxos held in
      let uniq₁ : IsUnique l₁.utxos = rw dropped (drop_tokens-IsUnique ts l.utxos uniq) in
      let new₁ : NewFrom fresh 0 l₁.utxos =
        rw dropped (λ j le. get_token-drop_tokens-none (fresh j) ts l.utxos (ids.new j)) in
      let taken = supply-drop_tokens c ts fs l.utxos uniq distinct held in
      let taken_d = supply-drop_tokens d ts fs l.utxos uniq distinct held in
      let worth = supply-share env now h c d tx.inputs fs balanced.inputs in
      let worth_d = supply-share env now h d d tx.inputs fs balanced.inputs in
      let self = share_self d (token_sum fs) in
      let sums = sums_exact fs tx.outputs tx.fee (omega arith) balanced.sums in
      let (outs, new₂, uniq₂) =
        with_outputs-supply fresh ids.distinct later 0 c d tx.outputs l₁ new₁ balanced.outputs
          uniq₁ in
      let l₂ = with_outputs later fresh 0 tx.outputs l₁ in
      let new₃ : NewFrom fresh (length tx.outputs) l₂.utxos = λ j le. new₂ j (omega arith) in
      let (fee, uniq₃) =
        with_fee-supply fresh ids.distinct later (length tx.outputs) tx.fee c d l₂ new₃ uniq₂ in
      let split = share-add c d (output_sum tx.outputs) tx.fee in
      let whole : share c d (token_sum fs) ≡ share c d (output_sum tx.outputs + tx.fee) =
        ap (share c d) sums in
      let same : supply c l₁.utxos ≡ supply c (drop_tokens ts l.utxos) = ap (supply c) dropped in
      (omega arith, uniq₃)

  -- A token that stands in the table is not one of the new ones.
  old_token : (t : Text) (f : Utxo) → get_token t l.utxos ≡ some f → (j : ℕ) → t ≢ fresh j
  old_token t f found j e = let new = ids.new j in let same = ap (λ x. get_token x l.utxos) e in cc

  pub committed-get :
      (t : Text)
      → ((j : ℕ) → t ≢ fresh j)
      → get_token t (committed env later fresh tx (u ∷ us) u.currency l).utxos
        ≡ get_token t (drop_tokens (input_ids tx) l.utxos)
  committed-get t old =
      let l₁ = spent (input_ids tx) (u ∷ us) l in
      let l₂ = with_outputs later fresh 0 tx.outputs l₁ in
      with_fee-get fresh ids.distinct later (length tx.outputs) tx.fee u.currency t l₂
        (old (length tx.outputs))
      ∙ with_outputs-get fresh ids.distinct later 0 t tx.outputs l₁ old
      ∙ ap (get_token t) (spent-utxos (input_ids tx) (u ∷ us) l l.utxos held)

  gone_still :
      (ts : List Text) (fs : List Utxo)
      → Held l.utxos ts fs
      → All (λ t. get_token t (drop_tokens (input_ids tx) l.utxos) ≡ none) ts
      → All (λ t. get_token t (committed env later fresh tx (u ∷ us) u.currency l).utxos ≡ none) ts
  gone_still [] fs h all = tt
  gone_still (t ∷ ts) [] h all = absurd h
  gone_still (t ∷ ts) (f ∷ fs) h all =
      (committed-get t (old_token t f h.0) ∙ all.0, gone_still ts fs h.1 all.1)

  -- The tokens that were spent are gone.
  pub committed-gone :
      All
        (λ tid. get_token tid (committed env later fresh tx (u ∷ us) u.currency l).utxos ≡ none)
        (input_ids tx)
  committed-gone = gone_still (input_ids tx) (u ∷ us) held (drop_tokens-gone (input_ids tx) l.utxos)
