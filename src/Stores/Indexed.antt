-- ===== src/Stores/Indexed.antt =====
-- `owner_index` lists under each owner the tokens of that owner in the table, and no other ones.
use project_hamilton.Base.{
  ℕ, suc, ◌+◌, ◌≡◌, ◌≢◌, ◌⊎◌, inl, inr, refl, sym, ap, ◌∙◌, Bool, true, false, Option, none, some,
  List, [], ◌∷◌, Text, text_dec, ite, contains, has_duplicate, length, dec_lt, arith,
}
use project_hamilton.Models.Types.{Currency, Utxo, Transaction, TransactionOutput}
use project_hamilton.Stores.State.{Ledger, get_token, drop_token, put_token}
use project_hamilton.Stores.Index.{owner_bucket, index_discard, index_add}
use project_hamilton.Stores.Hash.{Env}
use project_hamilton.Stores.Memory.{input_ids, output_token, fee_token, apply_transaction}
use project_hamilton.Stores.Table.{
  Held, get_token-put_ne, get_token-put_self, get_token-drop_self, get_token-drop_ne,
  Held-drop_token, get_token-drop_tokens-none,
}
use project_hamilton.Stores.Commit.{spent, with_token, with_outputs, with_fee}
use project_hamilton.Stores.Conserve.{IsFresh, NewFrom, NewFrom-put, spent-utxos}
use project_hamilton.Stores.Apply.{apply_cases}
use project_hamilton.Stores.Owners.{
  lists, IsKeyed, bucket-index_add, bucket-index_add_ne, bucket-index_discard,
  bucket-index_discard_ne, index_add-IsKeyed, index_discard-IsKeyed, contains-add_id,
  contains-discard, contains-add_id_ne, contains-discard_ne, add_id-distinct, discard-distinct,
}

-- The token, if there is one, has the owner.
unfoldable pub owned_by : Text → Option Utxo → Bool
owned_by owner none = false
owned_by owner (some u) = elim (text_dec u.owner_public_key owner) [ yes _ ↦ true | no _ ↦ false ]

pub record IsIndexed (l : Ledger) : Type 0 where
  pub keyed : IsKeyed l.owner_index
  pub distinct : (owner : Text) → has_duplicate text_dec (owner_bucket owner l.owner_index) ≡ false
  pub agrees :
      (owner tid : Text) → lists owner tid l.owner_index ≡ owned_by owner (get_token tid l.utxos)

lists-add :
    (o o' t t' : Text) (index : List (Text × List Text))
    → ((o' ≡ o) × (t ≡ t') × (lists o t (index_add o' t' index) ≡ true))
      ⊎ (((o' ≢ o) ⊎ (t ≢ t')) × (lists o t (index_add o' t' index) ≡ lists o t index))
lists-add o o' t t' index = elim (text_dec o' o) [
  | no ne ↦ inr (inl ne, ap (contains text_dec t) (bucket-index_add_ne o o' t' ne index))
  | yes e ↦ rw e (elim (text_dec t t') [
    | yes e' ↦
        inl (
          refl,
          e',
          rw (e', bucket-index_add o t' index) (contains-add_id t' (owner_bucket o index)),
        )
    | no ne ↦ inr (
      inr ne,
      rw (bucket-index_add o t' index) (contains-add_id_ne t' t ne (owner_bucket o index)),
    )
  ])
]

lists-discard :
    (o o' t t' : Text) (index : List (Text × List Text))
    → IsKeyed index
    → ((o' ≡ o) × (t ≡ t') × (lists o t (index_discard o' t' index) ≡ false))
      ⊎ (((o' ≢ o) ⊎ (t ≢ t')) × (lists o t (index_discard o' t' index) ≡ lists o t index))
lists-discard o o' t t' index keyed = elim (text_dec o' o) [
  | no ne ↦ inr (inl ne, ap (contains text_dec t) (bucket-index_discard_ne o o' t' ne index))
  | yes e ↦ rw e (elim (text_dec t t') [
    | yes e' ↦ inl (
      refl,
      e',
      rw (e', bucket-index_discard o t' index keyed) (contains-discard t' (owner_bucket o index)),
    )
    | no ne ↦ inr (
      inr ne,
      rw (bucket-index_discard o t' index keyed)
          (contains-discard_ne t' t ne (owner_bucket o index)),
    )
  ])
]

pub owned_self :
    (owner : Text) (u : Utxo) → u.owner_public_key ≡ owner → owned_by owner (some u) ≡ true
unfolding owned_by
owned_self owner u e = ground arith

pub owned_other :
    (owner : Text) (u : Utxo) → u.owner_public_key ≢ owner → owned_by owner (some u) ≡ false
unfolding owned_by
owned_other owner u ne = ground arith

-- A token that is inserted under an identifier that no token has.
with_token-agrees :
    (u : Utxo) (l : Ledger) (owner tid : Text)
    → IsIndexed l
    → get_token u.token_id l.utxos ≡ none
    → lists owner tid (index_add u.owner_public_key u.token_id l.owner_index)
      ≡ owned_by owner (get_token tid (put_token u l.utxos))
unfolding owned_by
with_token-agrees u l owner tid h new =
    let us = put_token u l.utxos in
    let seen = λ (e : tid ≡ u.token_id).
      ap (λ x. owned_by owner (get_token x us)) e
      ∙ ap (owned_by owner) (get_token-put_self u l.utxos) in
    elim (lists-add owner u.owner_public_key tid u.token_id l.owner_index) [
      | inl (own, same, listed) ↦ listed ∙ sym (seen same ∙ owned_self owner u own)
      | inr (ne, unchanged) ↦ unchanged ∙ h.agrees owner tid ∙ elim (text_dec tid u.token_id) [
        | no n ↦ sym (ap (owned_by owner) (get_token-put_ne tid u l.utxos n))
        | yes e ↦
            ap (λ x. owned_by owner (get_token x l.utxos)) e
            ∙ ap (owned_by owner) new
            ∙ sym (seen e ∙ owned_other owner u (elim ne [ inl n ↦ n | inr n ↦ λ e'. n e ]))
      ]
    ]

index_add-distinct :
    (o o' t' : Text) (index : List (Text × List Text))
    → has_duplicate text_dec (owner_bucket o index) ≡ false
    → has_duplicate text_dec (owner_bucket o (index_add o' t' index)) ≡ false
index_add-distinct o o' t' index h = elim (text_dec o' o) [
  | no ne ↦ rw (bucket-index_add_ne o o' t' ne index) h
  | yes e ↦ rw (e, bucket-index_add o t' index) (add_id-distinct t' (owner_bucket o index) h)
]

index_discard-distinct :
    (o o' t' : Text) (index : List (Text × List Text))
    → IsKeyed index
    → has_duplicate text_dec (owner_bucket o index) ≡ false
    → has_duplicate text_dec (owner_bucket o (index_discard o' t' index)) ≡ false
index_discard-distinct o o' t' index keyed h = elim (text_dec o' o) [
  | no ne ↦ rw (bucket-index_discard_ne o o' t' ne index) h
  | yes e ↦
      rw (e, bucket-index_discard o t' index keyed) (discard-distinct t' (owner_bucket o index) h)
]

pub with_token-IsIndexed :
    (u : Utxo) (l : Ledger)
    → IsIndexed l
    → get_token u.token_id l.utxos ≡ none
    → IsIndexed (with_token u l)
with_token-IsIndexed u l h new = record {
  keyed = index_add-IsKeyed u.owner_public_key u.token_id l.owner_index h.keyed;
  distinct = λ o. index_add-distinct o u.owner_public_key u.token_id l.owner_index (h.distinct o);
  agrees = λ owner tid. with_token-agrees u l owner tid h new;
}

-- The ledger without the token that stands under an identifier.
abbrev without : Text → Utxo → Ledger → Ledger
without t f l = record l {
  utxos = drop_token t l.utxos;
  owner_index = index_discard f.owner_public_key t l.owner_index;
}

without-agrees :
    (t : Text) (f : Utxo) (l : Ledger) (owner tid : Text)
    → IsIndexed l
    → get_token t l.utxos ≡ some f
    → lists owner tid (index_discard f.owner_public_key t l.owner_index)
      ≡ owned_by owner (get_token tid (drop_token t l.utxos))
unfolding owned_by
without-agrees t f l owner tid h found =
    let us = drop_token t l.utxos in
    let seen = λ (e : tid ≡ t).
      ap (λ x. owned_by owner (get_token x us)) e
      ∙ ap (owned_by owner) (get_token-drop_self t l.utxos) in
    elim (lists-discard owner f.owner_public_key tid t l.owner_index h.keyed) [
      | inl (own, same, unlisted) ↦ unlisted ∙ sym (seen same)
      | inr (ne, unchanged) ↦ unchanged ∙ h.agrees owner tid ∙ elim (text_dec tid t) [
        | no n ↦ sym (ap (owned_by owner) (get_token-drop_ne t tid l.utxos n))
        | yes e ↦
            ap (λ x. owned_by owner (get_token x l.utxos)) e
            ∙ ap (owned_by owner) found
            ∙ owned_other owner f (elim ne [ inl n ↦ n | inr n ↦ λ e'. n e ])
            ∙ sym (seen e)
      ]
    ]

without-IsIndexed :
    (t : Text) (f : Utxo) (l : Ledger)
    → IsIndexed l
    → get_token t l.utxos ≡ some f
    → IsIndexed (without t f l)
without-IsIndexed t f l h found = record {
  keyed = index_discard-IsKeyed f.owner_public_key t l.owner_index h.keyed;
  distinct =
      λ o. index_discard-distinct o f.owner_public_key t l.owner_index h.keyed (h.distinct o);
  agrees = λ owner tid. without-agrees t f l owner tid h found;
}

spent-IsIndexed :
    (ts : List Text) (fs : List Utxo) (l : Ledger)
    → IsIndexed l
    → has_duplicate text_dec ts ≡ false
    → Held l.utxos ts fs
    → IsIndexed (spent ts fs l)
unfolding has_duplicate
spent-IsIndexed [] fs l h distinct held = h
spent-IsIndexed (t ∷ ts) [] l h distinct held = h
spent-IsIndexed (t ∷ ts) (f ∷ fs) l h distinct held =
    spent-IsIndexed ts fs (without t f l) (without-IsIndexed t f l h held.0) (ground arith)
      (Held-drop_token l.utxos t ts fs (ground arith) held.1)

module _ (fresh : ℕ → Text) (distinct : (j k : ℕ) → fresh j ≡ fresh k → j ≡ k) where
  with_outputs-IsIndexed :
      (now k : ℕ) (os : List TransactionOutput) (l : Ledger)
      → IsIndexed l
      → NewFrom fresh k l.utxos
      → IsIndexed (with_outputs now fresh k os l)
        × NewFrom fresh (k + length os) (with_outputs now fresh k os l).utxos
  unfolding output_token
  with_outputs-IsIndexed now k [] l h new = (h, λ j le. new j (omega arith))
  with_outputs-IsIndexed now k (o ∷ os) l h new =
      let u = output_token now (fresh k) o in
      let (h', new') =
        with_outputs-IsIndexed now (suc k) os (with_token u l)
          (with_token-IsIndexed u l h (new k (omega arith)))
          (NewFrom-put fresh distinct k u l.utxos refl new) in
      (h', λ j le. new' j (omega arith))

with_fee-IsIndexed :
    (now fee : ℕ) (tid : Text) (c : Currency) (l : Ledger)
    → IsIndexed l
    → get_token tid l.utxos ≡ none
    → IsIndexed (with_fee now tid fee c l)
unfolding fee_token
with_fee-IsIndexed now fee tid c l h new =
    elim (dec_lt 0 fee)
      as (λ d. IsIndexed (ite d (with_token (fee_token now tid fee c l.fee_collector) l) l)) [
        | yes _ ↦ with_token-IsIndexed (fee_token now tid fee c l.fee_collector) l h new
        | no _ ↦ h
      ]

-- If the index lists under every owner exactly the identifiers of the tokens that the owner has, each once, then
-- it does so after any call of `apply_transaction`, whatever its outcome, provided that new tokens
-- get fresh identifiers.
pub apply-IsIndexed :
    (env : Env) (now : ℕ) (fresh : ℕ → Text) (tx : Transaction) (l : Ledger)
    → IsIndexed l
    → IsFresh fresh l.utxos
    → IsIndexed (apply_transaction env now fresh tx l).1
apply-IsIndexed env now fresh tx l h ids = elim (apply_cases env now fresh tx l) [
  | inr (e, failed) ↦ rw failed h
  | inl (u, us, p, done) ↦
      let ts = input_ids tx in
      let l₁ = spent ts (u ∷ us) l in
      let h₁ = spent-IsIndexed ts (u ∷ us) l h p.distinct p.held in
      let new₁ : NewFrom fresh 0 l₁.utxos =
        rw (spent-utxos ts (u ∷ us) l l.utxos p.held)
          (λ j le. get_token-drop_tokens-none (fresh j) ts l.utxos (ids.new j)) in
      let (h₂, new₂) = with_outputs-IsIndexed fresh ids.distinct now 0 tx.outputs l₁ h₁ new₁ in
      let l₂ = with_outputs now fresh 0 tx.outputs l₁ in
      let h₃ =
        with_fee-IsIndexed now tx.fee (fresh (length tx.outputs)) u.currency l₂ h₂
          (new₂ (length tx.outputs) (omega arith)) in
      rw done (record { keyed = h₃.keyed; distinct = h₃.distinct; agrees = h₃.agrees })
]
