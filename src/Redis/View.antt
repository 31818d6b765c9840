-- ===== src/Redis/View.antt =====
-- The store as a ledger in memory: the parsed tokens, the sets of the owners and the transactions
-- whose keys have not expired.
use project_hamilton.Base.{
  ℕ, ◌≡◌, ◌∙◌, ◌⊎◌, inl, inr, refl, ap, none, some, List, [], ◌∷◌, Text, text_dec, ite, dec_lt,
  arith, map,
}
use project_hamilton.Models.Types.{Utxo}
use project_hamilton.Stores.State.{Ledger, get_token, drop_token, put_token}
use project_hamilton.Stores.Index.{index_add}
use project_hamilton.Stores.Commit.{with_token}
use project_hamilton.Redis.State.{Stored, Store, get_stored, delete_stored, set_stored, utxo_of}
use project_hamilton.Redis.Process.{set_token}

abbrev pub live_ids : ℕ → List (Text × ℕ) → List Text
live_ids now [] = []
live_ids now ((i, expiry) ∷ txs) = ite (dec_lt now expiry) (i ∷ live_ids now txs) (live_ids now txs)

abbrev pub tokens_of : ℕ → List Stored → List Utxo
tokens_of now ds = map (utxo_of now) ds

abbrev pub memory_of : ℕ → Store → Ledger
memory_of now s = record {
  fee_collector = s.fee_collector;
  utxos = tokens_of now s.utxos;
  owner_index = s.owners;
  processed_txs = live_ids now s.txs;
}

-- The store and the ledger hold the same tokens and index them alike.
pub record Agrees (now : ℕ) (s : Store) (l : Ledger) : Type 0 where
  pub collector : s.fee_collector ≡ l.fee_collector
  pub utxos : tokens_of now s.utxos ≡ l.utxos
  pub owners : s.owners ≡ l.owner_index

module _ (now : ℕ) where
  pub tokens_of-get :
      (t : Text) (ds : List Stored)
      → ((get_stored t ds ≡ none) × (get_token t (tokens_of now ds) ≡ none))
        ⊎ ((d : Stored) × (get_stored t ds ≡ some d)
            × (get_token t (tokens_of now ds) ≡ some (utxo_of now d)))
  unfolding get_stored get_token utxo_of
  tokens_of-get t [] = inl (refl, refl)
  tokens_of-get t (d ∷ ds) = elim (text_dec d.token_id t) [
    | yes e ↦ inr (d, ground arith, ground arith)
    | no ne ↦ elim (tokens_of-get t ds) [
      | inl (a, b) ↦ inl (ground arith, ground arith)
      | inr (f, a, b) ↦ inr (f, ground arith, ground arith)
    ]
  ]

  tokens_of-delete :
      (t : Text) (ds : List Stored)
      → tokens_of now (delete_stored t ds) ≡ drop_token t (tokens_of now ds)
  unfolding delete_stored drop_token utxo_of
  tokens_of-delete t [] = refl
  tokens_of-delete t (d ∷ ds) = ground (arith, tokens_of-delete t ds)

  pub set_token-Agrees :
      (d : Stored) (s : Store) (l : Ledger)
      → Agrees now s l
      → Agrees now (set_token d s) (with_token (utxo_of now d) l)
  unfolding set_token set_stored put_token utxo_of
  set_token-Agrees d s l a = record {
    collector = a.collector;
    utxos =
        ap (◌∷◌ (utxo_of now d))
          (tokens_of-delete d.token_id s.utxos ∙ ap (drop_token d.token_id) a.utxos);
    owners = ap (index_add d.owner_public_key d.token_id) a.owners;
  }
