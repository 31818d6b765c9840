-- ===== src/Hamilton/Table.antt =====
-- The utxos table: unique tokens, and what an update and an insert leave.
use project_hamilton.Base.{
  ℕ, ◌+◌, ◌≡◌, ◌≢◌, ◌⊎◌, inr, refl, none, some, List, [], ◌∷◌, Text, text_dec, ite, arith, ⊤,
}
use project_hamilton.Hamilton.State.{
  Utxo, UtxoStatus, unspent, spent, burned, find_utxo, set_status,
}

-- No two rows have the same `token_id`.
abbrev pub IsUnique : List Utxo → Type 0
IsUnique [] = ⊤
IsUnique (u ∷ us) = (find_utxo u.token_id us ≡ none) × IsUnique us

module _ (tid : Text) (status : UtxoStatus) where
  pub find_utxo-set_status_ne :
      (j : Text) (us : List Utxo)
      → j ≢ tid
      → find_utxo j (set_status tid status us) ≡ find_utxo j us
  unfolding find_utxo set_status
  find_utxo-set_status_ne j [] ne = refl
  find_utxo-set_status_ne j (u ∷ us) ne = ground (arith, find_utxo-set_status_ne j us ne)

  pub find_utxo-set_status_self :
      (u : Utxo) (us : List Utxo)
      → find_utxo tid us ≡ some u
      → find_utxo tid (set_status tid status us) ≡ some (record u { status = status })
  unfolding find_utxo set_status
  find_utxo-set_status_self u [] h = ground arith
  find_utxo-set_status_self u (v ∷ us) h = ground (arith, find_utxo-set_status_self u us)

  pub find_utxo-set_status-none :
      (j : Text) (us : List Utxo)
      → find_utxo j us ≡ none
      → find_utxo j (set_status tid status us) ≡ none
  unfolding find_utxo set_status
  find_utxo-set_status-none j [] h = refl
  find_utxo-set_status-none j (v ∷ us) h = ground (arith, find_utxo-set_status-none j us)

  pub set_status_absent : (us : List Utxo) → find_utxo tid us ≡ none → set_status tid status us ≡ us
  unfolding find_utxo set_status
  set_status_absent [] h = refl
  set_status_absent (v ∷ us) h = ground (arith, set_status_absent us)

  pub set_status-IsUnique : (us : List Utxo) → IsUnique us → IsUnique (set_status tid status us)
  unfolding set_status
  set_status-IsUnique [] h = tt
  set_status-IsUnique (v ∷ us) h =
      ground (arith, set_status-IsUnique us h.1, find_utxo-set_status-none v.token_id us h.0)

-- What a token counts for in the supply of a currency.
unfoldable pub share : Text → Text → ℕ → ℕ
share c currency amount = ite (text_dec currency c) amount 0

pub share-add : (c d : Text) (a b : ℕ) → share c d (a + b) ≡ share c d a + share c d b
unfolding share
share-add c d a b = ground arith

unfoldable pub worth : Text → Utxo → ℕ
worth c u = elim u.status [ unspent ↦ share c u.currency u.amount | spent ↦ 0 | burned ↦ 0 ]

-- The unspent amount of a currency, in cents.
unfoldable pub supply : Text → List Utxo → ℕ
supply c [] = 0
supply c (u ∷ us) = worth c u + supply c us

-- To retire an unspent token takes its amount out of its currency, and out of no other.
pub supply-set_status :
    (c tid : Text) (status : UtxoStatus) (u : Utxo) (us : List Utxo)
    → status ≢ unspent
    → IsUnique us
    → find_utxo tid us ≡ some u
    → u.status ≡ unspent
    → supply c (set_status tid status us) + share c u.currency u.amount ≡ supply c us
unfolding find_utxo set_status supply worth
supply-set_status c tid status u [] ne uniq found fresh = ground arith
supply-set_status c tid status u (v ∷ us) ne uniq found fresh =
    ground (arith, supply-set_status c tid status u us ne uniq.1, set_status_absent tid status us)

-- What may become of a token: nothing changes but its status, and that only if it is unspent.
abbrev pub Ages : Utxo → Utxo → Type 0
Ages u v = (v ≡ record u { status = v.status }) × ((u.status ≡ unspent) ⊎ (v.status ≡ u.status))

-- No token is lost, and each token that was there has aged.
abbrev pub Grows : List Utxo → List Utxo → Type 0
Grows us vs =
    (j : Text) (u : Utxo)
    → find_utxo j us ≡ some u
    → (v : Utxo) × (find_utxo j vs ≡ some v) × Ages u v

pub Ages-refl : (u : Utxo) → Ages u u
Ages-refl u = (refl, inr refl)

pub Grows-refl : (us : List Utxo) → Grows us us
Grows-refl us j u found = (u, found, Ages-refl u)

pub Ages-trans : (u v w : Utxo) → Ages u v → Ages v w → Ages u w
Ages-trans u v w p q = ground arith

pub Grows-trans : (us vs ws : List Utxo) → Grows us vs → Grows vs ws → Grows us ws
Grows-trans us vs ws p q j u found =
    let (v, found', old) = p j u found in
    let (w, found'', new) = q j v found' in (w, found'', Ages-trans u v w old new)

-- An unspent token may be retired.
pub set_status-Grows :
    (tid : Text) (status : UtxoStatus) (u : Utxo) (us : List Utxo)
    → find_utxo tid us ≡ some u
    → u.status ≡ unspent
    → Grows us (set_status tid status us)
set_status-Grows tid status u us found fresh j v h = elim (text_dec j tid) [
  | yes e ↦ (
    record u { status = status },
    rw e (find_utxo-set_status_self tid status u us found),
    (ground arith, ground arith),
  )
  | no ne ↦ (v, rw (find_utxo-set_status_ne tid status j us ne) h, Ages-refl v)
]

-- Every token is still there, as it was.
abbrev pub Keeps : List Utxo → List Utxo → Type 0
Keeps us vs = (j : Text) (u : Utxo) → find_utxo j us ≡ some u → find_utxo j vs ≡ some u

pub cons-Keeps : (u : Utxo) (us : List Utxo) → find_utxo u.token_id us ≡ none → Keeps us (u ∷ us)
unfolding find_utxo
cons-Keeps u us new j v h = ground arith

pub Keeps-Grows : (us vs : List Utxo) → Keeps us vs → Grows us vs
Keeps-Grows us vs k j u found = (u, k j u found, Ages-refl u)
