-- ===== src/Stores/Table.antt =====
-- The table of the tokens: what a removal and an insertion leave, and the supply of a currency.
use project_hamilton.Base.{
  ℕ, ◌+◌, ◌≡◌, ◌≢◌, refl, sym, ◌∙◌, ◌⊎◌, inl, inr, none, some, List, [], ◌∷◌, Text, text_dec, ite,
  arith, ⊤, false, contains, has_duplicate,
}
use project_hamilton.Models.Types.{Currency, currency_dec, Utxo}
use project_hamilton.Stores.State.{get_token, drop_token, put_token}

-- No two tokens have the same `token_id`.
abbrev pub IsUnique : List Utxo → Type 0
IsUnique [] = ⊤
IsUnique (u ∷ us) = (get_token u.token_id us ≡ none) × IsUnique us

pub get_token-id :
    (tid : Text) (u : Utxo) (us : List Utxo) → get_token tid us ≡ some u → u.token_id ≡ tid
unfolding get_token
get_token-id tid u [] h = cc
get_token-id tid u (v ∷ us) h = ground (arith, get_token-id tid u us)

module _ (tid : Text) where
  pub get_token-drop_self : (us : List Utxo) → get_token tid (drop_token tid us) ≡ none
  unfolding get_token drop_token
  get_token-drop_self [] = refl
  get_token-drop_self (u ∷ us) = ground (arith, get_token-drop_self us)

  pub get_token-drop_ne :
      (j : Text) (us : List Utxo) → j ≢ tid → get_token j (drop_token tid us) ≡ get_token j us
  unfolding get_token drop_token
  get_token-drop_ne j [] ne = refl
  get_token-drop_ne j (u ∷ us) ne = ground (arith, get_token-drop_ne j us ne)

  pub get_token-drop-none :
      (j : Text) (us : List Utxo) → get_token j us ≡ none → get_token j (drop_token tid us) ≡ none
  unfolding get_token drop_token
  get_token-drop-none j [] h = refl
  get_token-drop-none j (u ∷ us) h = ground (arith, get_token-drop-none j us)

  pub drop_token_absent : (us : List Utxo) → get_token tid us ≡ none → drop_token tid us ≡ us
  unfolding get_token drop_token
  drop_token_absent [] h = refl
  drop_token_absent (u ∷ us) h = ground (arith, drop_token_absent us)

  pub drop_token-IsUnique : (us : List Utxo) → IsUnique us → IsUnique (drop_token tid us)
  unfolding drop_token
  drop_token-IsUnique [] h = tt
  drop_token-IsUnique (u ∷ us) h =
      ground (arith, drop_token-IsUnique us h.1, get_token-drop-none u.token_id us h.0)

pub put_token-IsUnique : (u : Utxo) (us : List Utxo) → IsUnique us → IsUnique (put_token u us)
unfolding put_token
put_token-IsUnique u us h = (get_token-drop_self u.token_id us, drop_token-IsUnique u.token_id us h)

pub get_token-put_self :
    (u : Utxo) (us : List Utxo) → get_token u.token_id (put_token u us) ≡ some u
unfolding get_token put_token
get_token-put_self u us = ground arith

pub get_token-put_ne :
    (j : Text) (u : Utxo) (us : List Utxo)
    → j ≢ u.token_id
    → get_token j (put_token u us) ≡ get_token j us
unfolding get_token put_token
get_token-put_ne j u us ne = ground (arith, get_token-drop_ne u.token_id j us)

-- What an amount counts for in the supply of a currency.
unfoldable pub share : Currency → Currency → ℕ → ℕ
share c d amount = ite (currency_dec d c) amount 0

-- The amount of a currency, in cents.
unfoldable pub supply : Currency → List Utxo → ℕ
supply c [] = 0
supply c (u ∷ us) = share c u.currency u.amount + supply c us

pub share-add : (c d : Currency) (a b : ℕ) → share c d (a + b) ≡ share c d a + share c d b
unfolding share
share-add c d a b = ground arith

pub share_self : (c : Currency) (a : ℕ) → share c c a ≡ a
unfolding share
share_self c a = ground arith

pub supply-drop_token :
    (c : Currency) (tid : Text) (u : Utxo) (us : List Utxo)
    → IsUnique us
    → get_token tid us ≡ some u
    → supply c (drop_token tid us) + share c u.currency u.amount ≡ supply c us
unfolding get_token drop_token supply
supply-drop_token c tid u [] uniq found = cc
supply-drop_token c tid u (v ∷ us) uniq found =
    ground (arith, supply-drop_token c tid u us uniq.1, drop_token_absent tid us)

-- A token with a new identifier adds its amount.
pub supply-put_token :
    (c : Currency) (u : Utxo) (us : List Utxo)
    → get_token u.token_id us ≡ none
    → supply c (put_token u us) ≡ share c u.currency u.amount + supply c us
unfolding supply put_token
supply-put_token c u us new = rw (drop_token_absent u.token_id us new) refl

-- The tokens that stand in the table under a list of identifiers.
abbrev pub Held : List Utxo → List Text → List Utxo → Type 0
Held us [] [] = ⊤
Held us [] (f ∷ fs) = ⊥
Held us (t ∷ ts) [] = ⊥
Held us (t ∷ ts) (f ∷ fs) = (get_token t us ≡ some f) × Held us ts fs

pub Held-drop_token :
    (us : List Utxo) (tid : Text) (ts : List Text) (fs : List Utxo)
    → contains text_dec tid ts ≡ false
    → Held us ts fs
    → Held (drop_token tid us) ts fs
unfolding contains
Held-drop_token us tid [] [] h held = tt
Held-drop_token us tid [] (f ∷ fs) h held = held
Held-drop_token us tid (t ∷ ts) [] h held = held
Held-drop_token us tid (t ∷ ts) (f ∷ fs) h held = elim (text_dec tid t) [
  | yes e ↦ absurd (ground arith)
  | no ne ↦ (
    rw (get_token-drop_ne tid t us (λ e. ne (sym e))) held.0,
    Held-drop_token us tid ts fs (ground arith) held.1,
  )
]

-- The table without some tokens.
unfoldable pub drop_tokens : List Text → List Utxo → List Utxo
drop_tokens [] us = us
drop_tokens (t ∷ ts) us = drop_tokens ts (drop_token t us)

pub drop_tokens-IsUnique :
    (ts : List Text) (us : List Utxo) → IsUnique us → IsUnique (drop_tokens ts us)
unfolding drop_tokens
drop_tokens-IsUnique [] us h = h
drop_tokens-IsUnique (t ∷ ts) us h =
    drop_tokens-IsUnique ts (drop_token t us) (drop_token-IsUnique t us h)

-- To take tokens out takes their amounts out.
pub supply-drop_tokens :
    (c : Currency) (ts : List Text) (fs us : List Utxo)
    → IsUnique us
    → has_duplicate text_dec ts ≡ false
    → Held us ts fs
    → supply c (drop_tokens ts us) + supply c fs ≡ supply c us
unfolding drop_tokens supply has_duplicate
supply-drop_tokens c [] [] us uniq distinct held = omega arith
supply-drop_tokens c [] (f ∷ fs) us uniq distinct held = absurd held
supply-drop_tokens c (t ∷ ts) [] us uniq distinct held = absurd held
supply-drop_tokens c (t ∷ ts) (f ∷ fs) us uniq distinct held =
    let one = supply-drop_token c t f us uniq held.0 in
    let new : contains text_dec t ts ≡ false = ground arith in
    let rest =
      supply-drop_tokens c ts fs (drop_token t us) (drop_token-IsUnique t us uniq) (ground arith)
        (Held-drop_token us t ts fs new held.1) in
    omega arith

pub get_token-drop_tokens-none :
    (j : Text) (ts : List Text) (us : List Utxo)
    → get_token j us ≡ none
    → get_token j (drop_tokens ts us) ≡ none
unfolding drop_tokens
get_token-drop_tokens-none j [] us h = h
get_token-drop_tokens-none j (t ∷ ts) us h =
    get_token-drop_tokens-none j ts (drop_token t us) (get_token-drop-none t j us h)

-- A token is left by a removal, or removed.
pub drop_tokens-get :
    (t : Text) (ts : List Text) (us : List Utxo)
    → (get_token t (drop_tokens ts us) ≡ get_token t us) ⊎ (get_token t (drop_tokens ts us) ≡ none)
unfolding drop_tokens
drop_tokens-get t [] us = inl refl
drop_tokens-get t (j ∷ ts) us = elim (text_dec t j) [
  | yes e ↦
      inr (get_token-drop_tokens-none t ts (drop_token j us) (rw e (get_token-drop_self j us)))
  | no ne ↦ elim (drop_tokens-get t ts (drop_token j us)) [
    | inl same ↦ inl (same ∙ get_token-drop_ne j t us ne)
    | inr gone ↦ inr gone
  ]
]
