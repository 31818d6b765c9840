-- ===== src/Hamilton/Run.antt =====
-- A service that runs: any sequence of requests, by any clients, and of restarts.
use project_hamilton.Base.{
  ℕ, ◌≡◌, ◌≢◌, ◌∙◌, ap, inl, inr, refl, none, some, List, [], ◌∷◌, ◌++◌, Text, text_dec, arith, sym,
  subst, true, contains, All, Option-cases,
}
use mathlib.Core.List.{append_assoc}
use project_hamilton.Base.Action.{Result, ok, raise, http}
use project_hamilton.Hamilton.State.{
  Db, Reply, Utxo, unspent, spent, find_utxo, AuditRow, in_flight, IdemRow, Failure,
}
use project_hamilton.Hamilton.Request.{Env, TxRequest, MintReq, BurnReq}
use project_hamilton.Hamilton.Idem.{find_idem, replay_of, idem_acquire, gc_stale_idem}
use project_hamilton.Hamilton.Handlers.{
  process_tx, mint, burn, check_tx, once, to_bad_request, transfer_tokens,
}
use project_hamilton.Hamilton.Table.{Grows, Grows-refl, Grows-trans, Ages}
use project_hamilton.Hamilton.Spending.{Consumed}
use project_hamilton.Hamilton.Once.{once_replays}
use project_hamilton.Hamilton.Conservation.{not-Replayed}
use project_hamilton.Hamilton.Effects.{process_tx-effect}
use project_hamilton.Hamilton.Sound.{
  IsSound, IsSettled, done_row, Extends-found, settled_found, gc_rows_settled, Follows,
  process_tx-Follows, mint-Follows, burn-Follows, gc-Follows,
}

-- A request to one of the handlers, with the time and the fresh identifier that it meets, or the
-- cleanup of a restart.
pub data Call : Type 0 where
  transfer_call : ℕ → Text → TxRequest → Text → Call
  mint_call : ℕ → Text → MintReq → Text → Text → Call
  burn_call : ℕ → Text → BurnReq → Text → Text → Call
  restart : ℕ → Call

module _ (env : Env) where
  -- The database after a call, whatever its response.
  unfoldable pub serve : Call → Db → Db
  serve (transfer_call now cid tx key) db = (process_tx env now cid tx key db).1
  serve (mint_call now cid body key tid) db = (mint env now cid body key tid db).1
  serve (burn_call now cid body key audit_id) db = (burn env now cid body key audit_id db).1
  serve (restart now) db = gc_stale_idem now db

  unfoldable pub run : List Call → Db → Db
  run [] db = db
  run (c ∷ cs) db = run cs (serve c db)

  serve-Follows : (c : Call) (db : Db) → Follows env db (serve c db)
  unfolding serve
  serve-Follows (transfer_call now cid tx key) db = process_tx-Follows env now cid key db tx
  serve-Follows (mint_call now cid body key tid) db = mint-Follows env now cid key db body tid
  serve-Follows (burn_call now cid body key audit_id) db =
      burn-Follows env now cid key db body audit_id
  serve-Follows (restart now) db = gc-Follows env now db

  -- From a sound database every sequence of calls, failing ones included, leads to a sound one: no
  -- token twice, an intact hash chain, and no request left in flight.
  pub run-IsSound : (cs : List Call) (db : Db) → IsSound env db → IsSound env (run cs db)
  unfolding run
  run-IsSound [] db s = s
  run-IsSound (c ∷ cs) db s = run-IsSound cs (serve c db) ((serve-Follows c db).sound s)

  run-Grows : (cs : List Call) (db : Db) → Grows db.utxos (run cs db).utxos
  unfolding run
  run-Grows [] db = Grows-refl db.utxos
  run-Grows (c ∷ cs) db =
      Grows-trans db.utxos (serve c db).utxos (run cs (serve c db)).utxos (serve-Follows c db).grows
        (run-Grows cs (serve c db))

  -- Whatever calls follow, the audit log keeps every row that it has, in place: new rows only come
  -- in front.
  pub audit-run :
      (cs : List Call) (db : Db) → (rows : List AuditRow) × ((run cs db).audit ≡ rows ++ db.audit)
  unfolding run
  audit-run [] db = ([], refl)
  audit-run (c ∷ cs) db =
      let f = serve-Follows c db in
      let (rows, later) = audit-run cs (serve c db) in
      (
        rows ++ f.new_rows,
        later
            ∙ ap (λ (l : List AuditRow). rows ++ l) f.log
            ∙ sym (append_assoc rows f.new_rows db.audit),
      )

  run-replays :
      (cs : List Call) (db : Db)
      → IsSound env db
      → (cid key : Text) (row : IdemRow) → find_idem cid key db.idem ≡ some row
      → find_idem cid key (run cs db).idem ≡ some row
  unfolding run
  run-replays [] db s cid key row found = found
  run-replays (c ∷ cs) db s cid key row found =
      let f = serve-Follows c db in
      run-replays cs (serve c db) (f.sound s) cid key row (f.replays s.settled cid key row found)

-- Whatever calls follow, a token stays in the table; nothing of it changes but its status, and that
-- only while it is unspent.
pub token_history :
    (env : Env) (cs : List Call) (db : Db) (tid : Text) (u : Utxo)
    → find_utxo tid db.utxos ≡ some u
    → (v : Utxo) × (find_utxo tid (run env cs db).utxos ≡ some v) × Ages u v
token_history env cs db tid u found = run-Grows env cs db tid u found

-- A token that is spent or burned stays so, whatever calls follow.
retired_stays :
    (env : Env) (cs : List Call) (db : Db) (tid : Text) (u : Utxo)
    → find_utxo tid db.utxos ≡ some u
    → u.status ≢ unspent
    → find_utxo tid (run env cs db).utxos ≡ some u
retired_stays env cs db tid u found gone =
    let (v, found', aged) = token_history env cs db tid u found in ground arith

All-contains :
    (P : Text → Type 0) (x : Text) (xs : List Text) → All P xs → contains text_dec x xs ≡ true → P x
unfolding contains
All-contains P x [] h e = cc
All-contains P x (y ∷ ys) h e = elim (text_dec x y) [
  | yes p ↦ subst P (sym p) h.0
  | no n ↦ All-contains P x ys h.1 (ground arith)
]

-- A transfer needs every input unspent.
input_unspent :
    (env : Env) (now : ℕ) (cid key : Text) (tx : TxRequest) (reply : Reply) (db db' : Db)
    (tid : Text)
    → process_tx env now cid tx key db ≡ (ok reply, db')
    → find_idem cid key db.idem ≡ none
    → contains text_dec tid tx.inputs ≡ true
    → (u : Utxo) × (find_utxo tid db.utxos ≡ some u)
      × (u.status ≡ unspent)
      × (find_utxo tid db'.utxos ≡ some (record u { status = spent }))
unfolding Consumed
input_unspent env now cid key tx reply db db' tid h new named =
    elim (process_tx-effect env now cid key reply db db' tx h).1 [
      | inl replayed ↦ absurd (not-Replayed new replayed)
      | inr ran ↦
          let (u, able, gone) =
            All-contains (Consumed tx db.utxos db'.utxos) tid tx.inputs ran.consumed named in
          (u, able.found, able.fresh, gone)
    ]

IsSound-process_tx :
    (env : Env) (now : ℕ) (cid key : Text) (db : Db) (tx : TxRequest) {reply : Reply} {db' : Db}
    → IsSound env db
    → process_tx env now cid tx key db ≡ (ok reply, db')
    → IsSound env db'
IsSound-process_tx env now cid key db tx sound h =
    subst (λ (p : Result Failure Reply × Db). IsSound env p.1) h
      ((process_tx-Follows env now cid key db tx).sound sound)

-- Checks that pass leave the rest to the transaction.
process_tx_by :
    (env : Env) (now : ℕ) (cid key : Text) (tx : TxRequest) (reply : Reply) (db : Db)
    → check_tx env now tx key db ≡ (ok tt, db)
    → once to_bad_request now cid key (transfer_tokens env tx) db ≡ (ok reply, db)
    → process_tx env now cid tx key db ≡ (ok reply, db)
unfolding process_tx
process_tx_by env now cid key tx reply db checked replayed = ground (arith, checked, replayed)

module _ (env : Env) (now : ℕ) (cid key : Text) (tx : TxRequest) (reply : Reply) (db db' : Db)
    (first : process_tx env now cid tx key db ≡ (ok reply, db'))
    (new : find_idem cid key db.idem ≡ none) where
  -- After a transfer with a new key has returned, and after any further calls, no transfer with a
  -- new key that names one of the same inputs returns a response, whoever sends it.
  pub no_double_spend :
      (cs : List Call) (now' : ℕ) (cid' key' : Text) (tx' : TxRequest) (reply' : Reply) (db'' : Db)
      (tid : Text)
      → contains text_dec tid tx.inputs ≡ true
      → contains text_dec tid tx'.inputs ≡ true
      → find_idem cid' key' (run env cs db').idem ≡ none
      → process_tx env now' cid' tx' key' (run env cs db') ≢ (ok reply', db'')
  no_double_spend cs now' cid' key' tx' reply' db'' tid named named' new' second =
      let (u, found, fresh, gone) =
        input_unspent env now cid key tx reply db db' tid first new named in
      let stays = retired_stays env cs db' tid (record u { status = spent }) gone (λ e. cc) in
      let (v, found', fresh', gone') =
        input_unspent env now' cid' key' tx' reply' (run env cs db') db'' tid second new' named' in
      ground arith

  first_found : IsSettled db.idem → find_idem cid key db'.idem ≡ some (done_row now cid key reply)
  first_found settled = elim (process_tx-effect env now cid key reply db db' tx first).1 [
    | inl replayed ↦ absurd (not-Replayed new replayed)
    | inr ran ↦ Extends-found ran.extends settled
  ]

  -- After a transfer with a new key has returned in a sound database, and after any further calls,
  -- a transfer request of the same client with the same key that passes the checks of the endpoint
  -- gets the same response and changes nothing, whatever its inputs and outputs are.
  pub replayed_once :
      (cs : List Call) (now' : ℕ) (tx' : TxRequest)
      → IsSound env db
      → check_tx env now' tx' key (run env cs db') ≡ (ok tt, run env cs db')
      → process_tx env now' cid tx' key (run env cs db') ≡ (ok reply, run env cs db')
  replayed_once cs now' tx' sound checked =
      let row = done_row now cid key reply in
      let s = IsSound-process_tx env now cid key db tx sound first in
      let found = run-replays env cs db' s cid key row (first_found sound.settled) in
      process_tx_by env now' cid key tx' reply (run env cs db') checked (
        once_replays to_bad_request now' cid key (transfer_tokens env tx') reply row
          (run env cs db') found refl refl)

settled-in_flight :
    (now : ℕ) (cid key : Text) (db db' : Db)
    → IsSettled db.idem
    → idem_acquire now cid key db ≢ (raise (http 409 in_flight), db')
unfolding idem_acquire replay_of
settled-in_flight now cid key db db' s h = elim (Option-cases (find_idem cid key db.idem)) [
  | inl absent ↦ ground arith
  | inr (row, found) ↦ let (done, full) = settled_found cid key db.idem row s found in ground arith
]

gc_settled : (now : ℕ) (db : Db) → IsSettled db.idem → gc_stale_idem now db ≡ db
unfolding gc_stale_idem
gc_settled now db s = rw (gc_rows_settled now db.idem s)

-- In a sound database, whatever calls came before, no request finds its key in flight, and the
-- cleanup of a restart deletes nothing.
pub never_in_flight :
    (env : Env) (cs : List Call) (db : Db)
    → IsSound env db
    → ((now : ℕ) (cid key : Text) (db' : Db)
        → idem_acquire now cid key (run env cs db) ≢ (raise (http 409 in_flight), db'))
      × ((now : ℕ) → gc_stale_idem now (run env cs db) ≡ run env cs db)
never_in_flight env cs db sound =
    let s = (run-IsSound env cs db sound).settled in
    (
      λ now cid key db'. settled-in_flight now cid key (run env cs db) db' s,
      λ now. gc_settled now (run env cs db) s,
    )
