-- ===== src/Redis/Restored.antt =====
-- A snapshot that is restored brings back the tokens.
use project_hamilton.Base.{
  ℕ, ◌≡◌, ◌∙◌, inl, inr, refl, sym, ap, subst, true, false, none, Option-cases, List, [], ◌∷◌, Text,
  text_dec, ℕ_discrete, All, contains, has_duplicate,
}
use project_hamilton.Base.Action.{ok}
use project_hamilton.Stores.State.{Ledger, get_token}
use project_hamilton.Stores.Commit.{with_token}
use project_hamilton.Stores.Indexed.{IsIndexed, with_token-IsIndexed, owned_by}
use project_hamilton.Stores.Owners.{IsKeyed, lists}
use project_hamilton.Stores.Index.{owner_bucket}
use project_hamilton.Redis.State.{Stored, Store, get_stored, set_stored, utxo_of}
use project_hamilton.Redis.Process.{set_token}
use project_hamilton.Redis.View.{tokens_of, tokens_of-get, memory_of, Agrees, set_token-Agrees}
use project_hamilton.Redis.Snapshot.{
  collect, snapshot, Scanned, delete_values, delete_keys, set_tokens, restored, restore,
}
use project_hamilton.Redis.Values.{
  IsDistinct, get_stored-set_ne, collect-IsDistinct, Covers, collect_found, delete_values_gone,
  delete_keys-All, get_stored_head, get_stored_skip, empty_of, set_tokens_other, set_tokens_set,
}

Agrees-IsIndexed :
    (now : ℕ) (s : Store) (l : Ledger) → Agrees now s l → IsIndexed l → IsIndexed (memory_of now s)
Agrees-IsIndexed now s l a h = record {
  keyed = subst IsKeyed (sym a.owners) h.keyed;
  distinct = λ o.
      subst (λ x. has_duplicate text_dec (owner_bucket o x) ≡ false) (sym a.owners) (h.distinct o);
  agrees = λ o t.
      ap (lists o t) a.owners ∙ h.agrees o t ∙ ap (λ us. owned_by o (get_token t us)) (sym a.utxos);
}

-- None of the values stands in the table.
abbrev AllNew : List Stored → List Stored → Type 0
AllNew ds es = All (λ d. get_stored d.token_id es ≡ none) ds

AllNew-set :
    (d : Stored) (ds es : List Stored)
    → get_stored d.token_id ds ≡ none
    → AllNew ds es
    → AllNew ds (set_stored d es)
AllNew-set d [] es h all = tt
AllNew-set d (x ∷ ds) es h all = elim (text_dec x.token_id d.token_id) [
  | yes e ↦ (let head = get_stored_head d.token_id x ds e in absurd cc)
  | no ne ↦ (
    get_stored-set_ne x.token_id d es ne ∙ all.0,
    AllNew-set d ds es (sym (get_stored_skip d.token_id x ds ne) ∙ h) all.1,
  )
]

tokens_of-none :
    (now : ℕ) (t : Text) (ds : List Stored)
    → get_stored t ds ≡ none
    → get_token t (tokens_of now ds) ≡ none
tokens_of-none now t ds h = elim (tokens_of-get now t ds) [
  | inl (a, b) ↦ b
  | inr (d, a, b) ↦ absurd cc
]

set_tokens-IsIndexed :
    (now : ℕ) (ds : List Stored) (s : Store)
    → IsDistinct ds
    → AllNew ds s.utxos
    → IsIndexed (memory_of now s)
    → IsIndexed (memory_of now (set_tokens ds s))
unfolding set_tokens
set_tokens-IsIndexed now [] s distinct new h = h
set_tokens-IsIndexed now (d ∷ ds) s distinct new h =
    let l = memory_of now s in
    let own : Agrees now s l = record { collector = refl; utxos = refl; owners = refl } in
    let fresh : get_token d.token_id (tokens_of now s.utxos) ≡ none =
      tokens_of-none now d.token_id s.utxos new.0 in
    let next =
      Agrees-IsIndexed now (set_token d s) (with_token (utxo_of now d) l)
        (set_token-Agrees now d s l own)
        (unfold utxo_of in with_token-IsIndexed (utxo_of now d) l h fresh) in
    set_tokens-IsIndexed now ds (set_token d s) distinct.1
      (unfold set_token in AllNew-set d ds s.utxos distinct.0 new.1) next

-- What SCAN yields is complete for a store.
pub record IsComplete (scanned : Scanned) (s : Store) : Type 0 where
  pub token_ids : (j : Text) → Covers j scanned.token_ids s.utxos
  pub owner_keys : All (λ e. contains text_dec e.0 scanned.owner_keys ≡ true) s.owners
  pub tx_ids : All (λ e. contains text_dec e.0 scanned.tx_ids ≡ true) s.txs

set_tokens_rest :
    (ds : List Stored) (s : Store)
    → ((set_tokens ds s).txs ≡ s.txs) × ((set_tokens ds s).audit ≡ s.audit)
unfolding set_tokens set_token
set_tokens_rest [] s = (refl, refl)
set_tokens_rest (d ∷ ds) s = set_tokens_rest ds (set_token d s)

module _ (now : ℕ) (ids : List Text) (scanned : Scanned) (s s' : Store)
    (all : (j : Text) → Covers j ids s.utxos) (complete : IsComplete scanned s') where
  -- The tokens of the snapshot.
  abbrev saved : List Stored
  saved = collect ids s.utxos []

  -- The store without the keys that are deleted.
  abbrev cleared : Store
  cleared = record s' {
    utxos = delete_values scanned.token_ids s'.utxos;
    owners = delete_keys scanned.owner_keys s'.owners;
    txs = delete_keys scanned.tx_ids s'.txs;
  }

  saved_same : (j : Text) → get_stored j saved ≡ get_stored j s.utxos
  saved_same j = collect_found j ids s.utxos [] (unfold get_stored in refl) (all j)

  cleared_empty : cleared.utxos ≡ []
  cleared_empty =
      empty_of cleared.utxos
        (λ j. delete_values_gone j scanned.token_ids s'.utxos (complete.token_ids j))

  cleared-IsIndexed : IsIndexed (memory_of now cleared)
  unfolding owner_bucket get_token owned_by has_duplicate contains
  cleared-IsIndexed =
      let owners = delete_keys-All scanned.owner_keys s'.owners complete.owner_keys in
      rw (cleared_empty, owners) (record { keyed = tt; distinct = λ o. refl; agrees = λ o t. refl })

  saved-AllNew : (ds : List Stored) → AllNew ds cleared.utxos
  unfolding get_stored
  saved-AllNew [] = tt
  saved-AllNew (d ∷ ds) = (ap (get_stored d.token_id) cleared_empty, saved-AllNew ds)

  saved_get : (j : Text) → get_stored j (set_tokens saved cleared).utxos ≡ get_stored j s.utxos
  saved_get j = elim (Option-cases (get_stored j saved)) [
    | inl missing ↦
        set_tokens_other j saved cleared missing
        ∙ delete_values_gone j scanned.token_ids s'.utxos (complete.token_ids j)
        ∙ sym missing
        ∙ saved_same j
    | inr (d, found) ↦
        set_tokens_set j d saved cleared (collect-IsDistinct ids s.utxos [] tt) found
        ∙ sym found
        ∙ saved_same j
  ]

  restore_run : restore scanned (snapshot ids s) s' ≡ (ok true, set_tokens saved cleared)
  unfolding restore restored snapshot text_dec ℕ_discrete
  restore_run = refl

  -- A snapshot that is restored, into whatever store, brings back exactly the tokens that the store
  -- held when it was taken; the index lists them under their owners, each once, the record of processed
  -- transactions is empty, and the audit log stays, if SCAN yields every key of the two stores.
  pub restore-snapshot :
      (r : Store) × (restore scanned (snapshot ids s) s' ≡ (ok true, r))
      × ((j : Text) → get_stored j r.utxos ≡ get_stored j s.utxos)
      × IsIndexed (memory_of now r)
      × (r.txs ≡ [])
      × (r.audit ≡ s'.audit)
  restore-snapshot =
      let (txs, audit) = set_tokens_rest saved cleared in
      (
        set_tokens saved cleared,
        restore_run,
        saved_get,
        set_tokens-IsIndexed now saved cleared (collect-IsDistinct ids s.utxos [] tt)
            (saved-AllNew saved) cleared-IsIndexed,
        txs ∙ delete_keys-All scanned.tx_ids s'.txs complete.tx_ids,
        audit,
      )
