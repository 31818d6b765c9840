-- ===== src/Wallet/Choice.antt =====
-- What `build_payment` chooses from.
use project_hamilton.Base.{
  ℕ, ◌+◌, ◌<◌, ◌≡◌, ◌⊎◌, inl, inr, refl, true, false, List, [], ◌∷◌, Text, ite, dec_le, All, arith,
  Bool-cases,
}
use project_hamilton.Base.Money.{add_money, add_money_exact, limit}
use project_hamilton.Base.Decimal.{Decimal}
use project_hamilton.Models.Types.{Currency, currency_dec, Utxo}
use project_hamilton.Stores.Sums.{token_sum}
use project_hamilton.Wallet.Payment.{
  is_listed, available, insert_sorted, sort_largest, Covers, covers_dec, choose,
}

pub available-All :
    (P : Utxo → Type 0) (currency : Currency) (locked : List Text) (us : List Utxo)
    → All P us
    → All P (available currency locked us)
unfolding available
available-All P currency locked [] all = tt
available-All P currency locked (u ∷ us) all =
    elim (currency_dec u.currency currency)
      as (λ d. All P (
        ite d
          (elim (is_listed u.id_kind u.token_id locked) [
            | true ↦ available currency locked us
            | false ↦ u ∷ available currency locked us
          ])
          (available currency locked us))) [
            | no _ ↦ available-All P currency locked us all.1
            | yes same ↦ elim (Bool-cases (is_listed u.id_kind u.token_id locked)) [
              | inl old ↦ rw old (available-All P currency locked us all.1)
              | inr new ↦ rw new (all.0, available-All P currency locked us all.1)
            ]
          ]

pub insert_sorted-All :
    (P : Utxo → Type 0) (u : Utxo) (us : List Utxo) → P u → All P us → All P (insert_sorted u us)
unfolding insert_sorted
insert_sorted-All P u [] p all = (p, tt)
insert_sorted-All P u (v ∷ vs) p all =
    elim (dec_le v.amount u.amount)
      as (λ d. All P (elim d [ yes _ ↦ u ∷ v ∷ vs | no _ ↦ v ∷ insert_sorted u vs ])) [
        | yes _ ↦ (p, all)
        | no _ ↦ (all.0, insert_sorted-All P u vs p all.1)
      ]

pub sort_largest-All : (P : Utxo → Type 0) (us : List Utxo) → All P us → All P (sort_largest us)
unfolding sort_largest
sort_largest-All P [] all = tt
sort_largest-All P (u ∷ us) all =
    insert_sorted-All P u (sort_largest us) all.0 (sort_largest-All P us all.1)

insert_sorted-sum :
    (u : Utxo) (us : List Utxo) → token_sum (insert_sorted u us) ≡ u.amount + token_sum us
unfolding insert_sorted token_sum
insert_sorted-sum u [] = refl
insert_sorted-sum u (v ∷ vs) = ground (arith, insert_sorted-sum u vs)

pub sort_largest-sum : (us : List Utxo) → token_sum (sort_largest us) ≡ token_sum us
unfolding sort_largest token_sum
sort_largest-sum [] = refl
sort_largest-sum (u ∷ us) =
    omega (arith, insert_sorted-sum u (sort_largest us), sort_largest-sum us)

pub choose-All :
    (P : Utxo → Type 0) (amount : Decimal) (total : ℕ) (us : List Utxo)
    → All P us
    → All P (choose amount total us).0
unfolding choose
choose-All P amount total [] all = tt
choose-All P amount total (u ∷ us) all =
    let total' = add_money total u.amount in
    elim (covers_dec total' amount)
      as (λ d.
        All P
          (elim d as (λ _. List Utxo × ℕ) [
            | yes _ ↦ (u ∷ [], total')
            | no _ ↦ (u ∷ (choose amount total' us).0, (choose amount total' us).1)
          ]).0) [ yes _ ↦ (all.0, tt) | no _ ↦ (all.0, choose-All P amount total' us all.1) ]

-- The total is exact, and either enough or all there is.
pub choose-total :
    (amount : Decimal) (total : ℕ) (us : List Utxo)
    → total + token_sum us < limit
    → ((choose amount total us).1 ≡ total + token_sum (choose amount total us).0)
      × (Covers (choose amount total us).1 amount
          ⊎ ((choose amount total us).1 ≡ total + token_sum us))
unfolding choose token_sum
choose-total amount total [] h = (omega arith, inr (omega arith))
choose-total amount total (u ∷ us) h =
    let e = add_money_exact total u.amount (omega arith) in
    let ih = choose-total amount (add_money total u.amount) us (omega arith) in ground arith
