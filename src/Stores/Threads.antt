-- ===== src/Stores/Threads.antt =====
-- Threads that call `apply_transaction` at once: each runs its first section and, at any later time,
-- its second one, and between the two the sections of other threads may run.
use project_hamilton.Base.{
  ℕ, ◌≡◌, ◌≢◌, ◌∙◌, ◌⊎◌, inl, inr, refl, none, some, List, [], ◌∷◌, ◌++◌, Text, arith, ⊤, false,
  All, has_duplicate, text_dec,
}
use project_hamilton.Base.Action.{ok}
use project_hamilton.Models.Types.{Utxo, Transaction}
use project_hamilton.Stores.State.{Ledger, get_token}
use project_hamilton.Stores.Hash.{Env, compute_tx_hash}
use project_hamilton.Stores.Memory.{input_ids, prepare, commit}
use project_hamilton.Stores.Table.{IsUnique, Held}
use project_hamilton.Stores.Intent.{Balanced}
use project_hamilton.Stores.Conserve.{IsFresh}

-- A call between its two sections: what it was called with, and what it fetched.
pub record Pending : Type 0 where
  pub now : ℕ
  pub tx : Transaction
  pub fetched : List Utxo

pub record System : Type 0 where
  pub ledger : Ledger
  pub pending : List Pending

-- The identifiers are new to the ledger and to the calls between their sections.
pub record IsFreshFor (fresh : ℕ → Text) (s : System) : Type 0 where
  pub ledger : IsFresh fresh s.ledger.utxos
  pub pending : All (λ p. All (λ tid. (k : ℕ) → tid ≢ fresh k) (input_ids p.tx)) s.pending

pub data Step (env : Env) (s s' : System) : Type 0 where
  -- A first section that returns.
  start :
      (now : ℕ) (tx : Transaction) (fetched : List Utxo)
      → prepare env now tx s.ledger ≡ (ok fetched, s.ledger)
      → s' ≡ record s { pending = record { now = now; tx = tx; fetched = fetched } ∷ s.pending }
      → Step env s s'
  -- A second section, whatever its outcome.
  finish :
      (later : ℕ) (fresh : ℕ → Text) (before after : List Pending) (p : Pending)
      → s.pending ≡ before ++ p ∷ after
      → IsFreshFor fresh s
      → s' ≡ record {
        ledger = (commit env later fresh p.tx p.fetched s.ledger).1;
        pending = before ++ after;
      }
      → Step env s s'

pub data Reach (env : Env) (s : System) : System → Type 0 where
  here : Reach env s s
  next : {t u : System} → Reach env s t → Step env t u → Reach env s u

-- The tokens that a call fetched are in the table as they were, or gone.
abbrev pub Stale : List Utxo → List Text → List Utxo → Type 0
Stale us [] [] = ⊤
Stale us [] (f ∷ fs) = ⊥
Stale us (t ∷ ts) [] = ⊥
Stale us (t ∷ ts) (f ∷ fs) = ((get_token t us ≡ some f) ⊎ (get_token t us ≡ none)) × Stale us ts fs

pub Held-Stale : (us : List Utxo) (ts : List Text) (fs : List Utxo) → Held us ts fs → Stale us ts fs
Held-Stale us [] [] h = tt
Held-Stale us [] (f ∷ fs) h = h
Held-Stale us (t ∷ ts) [] h = h
Held-Stale us (t ∷ ts) (f ∷ fs) h = (inl h.0, Held-Stale us ts fs h.1)

-- What is found of them later is what was fetched.
pub Stale-Held :
    (us : List Utxo) (ts : List Text) (fs gs : List Utxo) → Stale us ts fs → Held us ts gs → gs ≡ fs
Stale-Held us [] [] [] s h = refl
Stale-Held us [] [] (g ∷ gs) s h = absurd h
Stale-Held us [] (f ∷ fs) gs s h = absurd s
Stale-Held us (t ∷ ts) [] gs s h = absurd s
Stale-Held us (t ∷ ts) (f ∷ fs) [] s h = absurd h
Stale-Held us (t ∷ ts) (f ∷ fs) (g ∷ gs) s h =
    let ih = Stale-Held us ts fs gs s.1 h.1 in let e : f ≡ g = ground (arith, s.0, h.0) in cc

-- What holds of a call between its sections.
pub record IsReady (env : Env) (us : List Utxo) (p : Pending) : Type 0 where
  pub first : Utxo
  pub rest : List Utxo
  pub fetched : p.fetched ≡ first ∷ rest
  pub distinct : has_duplicate text_dec (input_ids p.tx) ≡ false
  pub stale : Stale us (input_ids p.tx) (first ∷ rest)
  pub balanced : Balanced env p.now (compute_tx_hash env p.tx) first.currency p.tx (first ∷ rest)

-- The ledger, and every call between its sections.
pub record IsSafe (env : Env) (s : System) : Type 0 where
  pub unique : IsUnique s.ledger.utxos
  pub ready : All (IsReady env s.ledger.utxos) s.pending

-- A table that changes in other tokens only, or loses some, keeps what was fetched stale.
pub Stale-kept :
    (us vs : List Utxo) (ts : List Text) (fs : List Utxo)
    → All (λ t. (get_token t vs ≡ get_token t us) ⊎ (get_token t vs ≡ none)) ts
    → Stale us ts fs
    → Stale vs ts fs
Stale-kept us vs [] [] all s = tt
Stale-kept us vs [] (f ∷ fs) all s = s
Stale-kept us vs (t ∷ ts) [] all s = s
Stale-kept us vs (t ∷ ts) (f ∷ fs) all s =
    (head_kept (all.0) (s.0), Stale-kept us vs ts fs all.1 s.1)
  where
    head_kept :
        (get_token t vs ≡ get_token t us) ⊎ (get_token t vs ≡ none)
        → (get_token t us ≡ some f) ⊎ (get_token t us ≡ none)
        → (get_token t vs ≡ some f) ⊎ (get_token t vs ≡ none)
    head_kept (inr gone) old = inr gone
    head_kept (inl same) (inl old) = inl (same ∙ old)
    head_kept (inl same) (inr old) = inr (same ∙ old)

pub All-map :
    {P Q : Text → Type 0} (ts : List Text) → ((t : Text) → P t → Q t) → All P ts → All Q ts
All-map [] f all = tt
All-map (t ∷ ts) f all = (f t all.0, All-map ts f all.1)
