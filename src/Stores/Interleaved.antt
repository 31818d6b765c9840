-- ===== src/Stores/Interleaved.antt =====
-- However the sections of the threads interleave, the ledger stays sound.
use project_hamilton.Base.{
  ℕ, ◌≡◌, ◌≢◌, ◌∙◌, ◌<◌, ◌⊎◌, inl, inr, refl, none, List, [], ◌∷◌, ◌++◌, Text, subst, All,
  All-split, All-zip,
}
use project_hamilton.Base.Money.{limit}
use project_hamilton.Base.Action.{ok, raise}
use project_hamilton.Models.Types.{Currency, Utxo}
use project_hamilton.Stores.State.{Ledger, get_token}
use project_hamilton.Stores.Hash.{Env, compute_tx_hash}
use project_hamilton.Stores.Memory.{input_ids, commit}
use project_hamilton.Stores.Table.{IsUnique, Held, supply, drop_tokens-get}
use project_hamilton.Stores.Commit.{committed, commit_cases}
use project_hamilton.Stores.Prepared.{prepare-ok}
use project_hamilton.Stores.Conserve.{IsFresh, committed-supply, committed-get}
use project_hamilton.Stores.Threads.{
  Pending, System, Step, start, finish, Reach, here, next, Held-Stale, Stale-Held, Stale-kept,
  IsReady, IsSafe, All-map,
}

-- A second section keeps the supply, and what other calls fetched stale.
record Kept (l l' : Ledger) (fresh : ℕ → Text) : Type 0 where
  supplies : (c : Currency) → supply c l'.utxos ≡ supply c l.utxos
  unique : IsUnique l'.utxos
  tokens :
      (t : Text)
      → ((k : ℕ) → t ≢ fresh k)
      → (get_token t l'.utxos ≡ get_token t l.utxos) ⊎ (get_token t l'.utxos ≡ none)

finish-Kept :
    (env : Env) (later : ℕ) (fresh : ℕ → Text) (l : Ledger) (p : Pending)
    → IsUnique l.utxos
    → IsFresh fresh l.utxos
    → ((c : Currency) → supply c l.utxos < limit)
    → IsReady env l.utxos p
    → Kept l (commit env later fresh p.tx p.fetched l).1 fresh
finish-Kept env later fresh l p uniq ids small r =
    elim (commit_cases env later fresh p.tx r.first r.rest l r.distinct) [
      | inr (e, failed) ↦
          let run : commit env later fresh p.tx p.fetched l ≡ (raise e, l) = rw r.fetched failed in
          rw run (record { supplies = λ c. refl; unique = uniq; tokens = λ t old. inl refl })
      | inl (fs, held, new, done) ↦
          let ts = input_ids p.tx in
          let gs = r.first ∷ r.rest in
          let same = Stale-Held l.utxos ts gs fs r.stale held in
          let held' : Held l.utxos ts gs = subst (Held l.utxos ts) same held in
          let result = λ (x : List Utxo). committed env later fresh p.tx x r.first.currency l in
          let run : commit env later fresh p.tx p.fetched l
              ≡ (ok (compute_tx_hash env p.tx), result gs) =
            rw r.fetched (
              subst
                (λ x. commit env later fresh p.tx gs l ≡ (ok (compute_tx_hash env p.tx), result x))
                same done) in
          let kept = λ (c : Currency).
            committed-supply env p.now later fresh p.tx r.first r.rest l uniq ids r.distinct held'
              r.balanced c (small r.first.currency) in
          rw run (record {
            supplies = λ c. (kept c).0;
            unique = (kept r.first.currency).1;
            tokens = λ t old.
                rw
                  (committed-get env p.now later fresh p.tx r.first r.rest l uniq ids r.distinct
                    held' r.balanced t old)
                  (drop_tokens-get t ts l.utxos);
          })
    ]

module _ (env : Env) {s s' : System}
    (small : (c : Currency) → supply c s.ledger.utxos < limit) where
  Step-IsSafe :
      Step env s s'
      → IsSafe env s
      → IsSafe env s' × ((c : Currency) → supply c s'.ledger.utxos ≡ supply c s.ledger.utxos)
  Step-IsSafe (start now tx fetched done e) safe =
      let (u, us, cons, p, same) = prepare-ok env now tx s.ledger s.ledger fetched done in
      rw e (
        record {
          unique = safe.unique;
          ready = (
            record {
              first = u;
              rest = us;
              fetched = cons;
              distinct = p.distinct;
              stale = Held-Stale s.ledger.utxos (input_ids tx) (u ∷ us) p.held;
              balanced = p.balanced;
            },
            safe.ready,
          );
        },
        λ c. refl,
      )
  Step-IsSafe (finish later fresh before after p at ids e) safe =
      let (ready, others) =
        All-split (IsReady env s.ledger.utxos) before p after
          (subst (All (IsReady env s.ledger.utxos)) at safe.ready) in
      let (new, news) =
        All-split (λ p. All (λ tid. (k : ℕ) → tid ≢ fresh k) (input_ids p.tx)) before p after
          (subst (All (λ p. All (λ tid. (k : ℕ) → tid ≢ fresh k) (input_ids p.tx))) at
            ids.pending) in
      let kept = finish-Kept env later fresh s.ledger p safe.unique ids.ledger small ready in
      rw e (
        record {
          unique = kept.unique;
          ready =
              All-zip _ _ _ (before ++ after)
                (λ q r n. record {
                  first = r.first;
                  rest = r.rest;
                  fetched = r.fetched;
                  distinct = r.distinct;
                  stale =
                      Stale-kept s.ledger.utxos _ (input_ids q.tx) (r.first ∷ r.rest)
                        (All-map (input_ids q.tx) kept.tokens n) r.stale;
                  balanced = r.balanced;
                })
                others news;
        },
        kept.supplies,
      )

Reach-IsSafe :
    (env : Env) {s s' : System}
    → ((c : Currency) → supply c s.ledger.utxos < limit)
    → Reach env s s'
    → IsSafe env s
    → IsSafe env s' × ((c : Currency) → supply c s'.ledger.utxos ≡ supply c s.ledger.utxos)
Reach-IsSafe env small here safe = (safe, λ c. refl)
Reach-IsSafe env small (next r st) safe =
    let (safe', same) = Reach-IsSafe env small r safe in
    let (safe'', step) = Step-IsSafe env (λ c. rw (same c) (small c)) st safe' in
    (safe'', λ c. step c ∙ same c)

-- However the two sections of concurrent calls interleave, the ledger has no token twice and the
-- same amount of every currency as at the beginning, if it began with no token twice, no call
-- between its sections and at most 28 digits of cents in every currency, and new tokens get
-- identifiers that neither the ledger nor a call between its sections has.
pub interleaved-conserves :
    (env : Env) (s s' : System)
    → ((c : Currency) → supply c s.ledger.utxos < limit)
    → IsUnique s.ledger.utxos
    → s.pending ≡ []
    → Reach env s s'
    → IsUnique s'.ledger.utxos
      × ((c : Currency) → supply c s'.ledger.utxos ≡ supply c s.ledger.utxos)
interleaved-conserves env s s' small uniq idle r =
    let (safe, same) = Reach-IsSafe env small r (record { unique = uniq; ready = rw idle tt }) in
    (safe.unique, same)
