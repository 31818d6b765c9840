-- ===== src/Hamilton/Sound.antt =====
-- The invariant of ledger.db, kept by every handler and by the cleanup at startup.
use project_hamilton.Base.{
  ℕ, ◌≡◌, ◌≢◌, inl, inr, refl, none, some, List, [], ◌∷◌, ◌++◌, Text, text_dec, arith, All,
}
use project_hamilton.Base.Action.{Result, ok, raise}
use project_hamilton.Hamilton.State.{Db, Reply, IdemRow, complete, AuditRow, AuditAction, Failure}
use project_hamilton.Hamilton.Request.{Env, TxRequest, MintReq, BurnReq}
use project_hamilton.Hamilton.Audit.{audit_row}
use project_hamilton.Hamilton.Idem.{
  find_idem, if_key, complete_row, complete_rows, gc_rows, gc_stale_idem,
}
use project_hamilton.Hamilton.Handlers.{process_tx, mint, burn}
use project_hamilton.Hamilton.Atomic.{process_tx-IsAtomic, mint-IsAtomic, burn-IsAtomic}
use project_hamilton.Hamilton.Table.{IsUnique, Grows, Grows-refl}
use project_hamilton.Hamilton.Once.{pending_row}
use project_hamilton.Hamilton.Chain.{IsChained, audit_row-IsChained}
use project_hamilton.Hamilton.Effects.{Extends, process_tx-effect, mint-effect, burn-effect}

-- Every row of idempotency_cache is complete and holds a response.
abbrev pub IsSettled : List IdemRow → Type 0
IsSettled = All (λ r. (r.status ≡ complete) × (r.response ≢ none))

pub record IsSound (env : Env) (db : Db) : Type 0 where
  pub unique : IsUnique db.utxos
  pub chained : IsChained env db.audit
  pub settled : IsSettled db.idem

-- The row that a handler leaves for its key.
abbrev pub done_row : ℕ → Text → Text → Reply → IdemRow
done_row now cid key reply = record {
  client_id = cid;
  idem_key = key;
  status = complete;
  response = some reply;
  created_ts = now;
}

-- A completion changes no row that is complete.
complete_rows_settled :
    (cid key : Text) (reply : Reply) (rows : List IdemRow)
    → IsSettled rows
    → complete_rows cid key reply rows ≡ rows
unfolding complete_rows complete_row if_key
complete_rows_settled cid key reply [] h = refl
complete_rows_settled cid key reply (r ∷ rs) h =
    ground (arith, complete_rows_settled cid key reply rs h.1)

pub complete_rows_first :
    (now : ℕ) (cid key : Text) (reply : Reply) (rows : List IdemRow)
    → IsSettled rows
    → complete_rows cid key reply (pending_row now cid key ∷ rows)
      ≡ done_row now cid key reply ∷ rows
unfolding complete_rows complete_row if_key
complete_rows_first now cid key reply rows h =
    ground (arith, complete_rows_settled cid key reply rows h)

pub Extends-IsSound :
    {env : Env} {now : ℕ} {cid key tx_id : Text} {action : AuditAction} {payload : Text}
    {reply : Reply} {db db' : Db}
    → Extends env now cid key tx_id action payload reply db db'
    → IsSound env db
    → IsSound env db'
Extends-IsSound {env} {now} {cid} {key} {tx_id} {action} {payload} {reply} {db} e s = record {
  unique = e.unique s.unique;
  chained = rw e.audit (audit_row-IsChained env db.audit tx_id action payload e.absent s.chained);
  settled =
      rw (e.idem, complete_rows_first now cid key reply db.idem s.settled)
        ((refl, λ e. cc), s.settled);
}

find_idem-done_row_self :
    (now : ℕ) (cid key : Text) (reply : Reply) (rows : List IdemRow)
    → find_idem cid key (done_row now cid key reply ∷ rows) ≡ some (done_row now cid key reply)
unfolding find_idem if_key
find_idem-done_row_self now cid key reply rows = ground arith

-- After a handler ran, its key gives its response.
pub Extends-found :
    {env : Env} {now : ℕ} {cid key tx_id : Text} {action : AuditAction} {payload : Text}
    {reply : Reply} {db db' : Db}
    → Extends env now cid key tx_id action payload reply db db'
    → IsSettled db.idem
    → find_idem cid key db'.idem ≡ some (done_row now cid key reply)
Extends-found {now = now} {cid = cid} {key = key} {reply = reply} {db = db} e s =
    rw (e.idem, complete_rows_first now cid key reply db.idem s)
      (find_idem-done_row_self now cid key reply db.idem)

-- A row that is found in a settled table is complete and holds a response.
pub settled_found :
    (cid key : Text) (rows : List IdemRow) (row : IdemRow)
    → IsSettled rows
    → find_idem cid key rows ≡ some row
    → (row.status ≡ complete) × (row.response ≢ none)
unfolding find_idem if_key
settled_found cid key [] row h found = absurd (ground arith)
settled_found cid key (r ∷ rs) row h found = elim (text_dec r.client_id cid) [
  | no n ↦ settled_found cid key rs row h.1 (ground arith)
  | yes p ↦ elim (text_dec r.idem_key key) [
    | no n ↦ settled_found cid key rs row h.1 (ground arith)
    | yes q ↦ let e : r ≡ row = ground arith in rw (← e) h.0
  ]
]

-- How one database follows another: sound if the other was, with all its tokens, and with new
-- audit rows in front of the old ones.
pub record Follows (env : Env) (db db' : Db) : Type 0 where
  pub sound : IsSound env db → IsSound env db'
  pub grows : Grows db.utxos db'.utxos
  pub new_rows : List AuditRow
  pub log : db'.audit ≡ new_rows ++ db.audit
  pub clients : db'.clients ≡ db.clients
  pub replays :
      IsSettled db.idem
      → (c k : Text) (row : IdemRow) → find_idem c k db.idem ≡ some row
      → find_idem c k db'.idem ≡ some row

-- A row for a key that was not used hides no other row.
find_idem-done_row :
    (now : ℕ) (cid key c k : Text) (reply : Reply) (rows : List IdemRow) (row : IdemRow)
    → find_idem cid key rows ≡ none
    → find_idem c k rows ≡ some row
    → find_idem c k (done_row now cid key reply ∷ rows) ≡ some row
unfolding find_idem if_key
find_idem-done_row now cid key c k reply rows row new found = ground arith

pub Follows-same : (env : Env) (db db' : Db) → db' ≡ db → Follows env db db'
Follows-same env db db' e = rw e (record {
  sound = λ s. s;
  grows = Grows-refl db.utxos;
  new_rows = [];
  log = refl;
  clients = refl;
  replays = λ s c k row found. found;
})

Extends-Follows :
    {env : Env} {now : ℕ} {cid key tx_id : Text} {action : AuditAction} {payload : Text}
    {reply : Reply} {db db' : Db}
    → Extends env now cid key tx_id action payload reply db db'
    → Follows env db db'
Extends-Follows {env} {now} {cid} {key} {tx_id = tx_id} {action = action} {payload = payload}
      {reply = reply} {db = db} e =
    record {
      sound = Extends-IsSound e;
      grows = e.grows;
      new_rows = audit_row env db.audit tx_id action payload ∷ [];
      log = e.audit;
      clients = e.clients;
      replays = λ s c k row found.
          rw (e.idem, complete_rows_first now cid key reply db.idem s)
            (find_idem-done_row now cid key c k reply db.idem row e.new_key found);
    }

pub gc_rows_settled : (now : ℕ) (rows : List IdemRow) → IsSettled rows → gc_rows now rows ≡ rows
unfolding gc_rows
gc_rows_settled now [] h = refl
gc_rows_settled now (r ∷ rs) h = ground (arith, gc_rows_settled now rs h.1)

gc_rows-IsSettled : (now : ℕ) (rows : List IdemRow) → IsSettled rows → IsSettled (gc_rows now rows)
gc_rows-IsSettled now rows h = rw (gc_rows_settled now rows h) h

module _ (env : Env) (now : ℕ) (cid key : Text) (db : Db) where
  pub process_tx-Follows : (tx : TxRequest) → Follows env db (process_tx env now cid tx key db).1
  process_tx-Follows tx = by_result (process_tx env now cid tx key db) refl
    where
      by_result :
          (p : Result Failure Reply × Db)
          → process_tx env now cid tx key db ≡ p
          → Follows env db p.1
      by_result (ok reply, db') h = elim (process_tx-effect env now cid key reply db db' tx h).1 [
        | inl replayed ↦ Follows-same env db db' replayed.same
        | inr ran ↦ Extends-Follows ran.extends
      ]
      by_result (raise e, db') h =
          Follows-same env db db' ((process_tx-IsAtomic env now cid tx key).at db db' e h)

  pub mint-Follows :
      (body : MintReq) (tid : Text) → Follows env db (mint env now cid body key tid db).1
  mint-Follows body tid = by_result (mint env now cid body key tid db) refl
    where
      by_result :
          (p : Result Failure Reply × Db)
          → mint env now cid body key tid db ≡ p
          → Follows env db p.1
      by_result (ok reply, db') h = elim (mint-effect env now cid key reply db db' body tid h).1 [
        | inl replayed ↦ Follows-same env db db' replayed.same
        | inr ran ↦ Extends-Follows ran.extends
      ]
      by_result (raise e, db') h =
          Follows-same env db db' ((mint-IsAtomic env now cid body key tid).at db db' e h)

  pub burn-Follows :
      (body : BurnReq) (audit_id : Text) → Follows env db (burn env now cid body key audit_id db).1
  burn-Follows body audit_id = by_result (burn env now cid body key audit_id db) refl
    where
      by_result :
          (p : Result Failure Reply × Db)
          → burn env now cid body key audit_id db ≡ p
          → Follows env db p.1
      by_result (ok reply, db') h =
          elim (burn-effect env now cid key reply db db' body audit_id h).1 [
            | inl replayed ↦ Follows-same env db db' replayed.same
            | inr ran ↦ Extends-Follows ran.extends
          ]
      by_result (raise e, db') h =
          Follows-same env db db' ((burn-IsAtomic env now cid body key audit_id).at db db' e h)

-- The cleanup at startup.
pub gc-Follows : (env : Env) (now : ℕ) (db : Db) → Follows env db (gc_stale_idem now db)
unfolding gc_stale_idem
gc-Follows env now db = record {
  sound = λ s. record {
    unique = s.unique;
    chained = s.chained;
    settled = gc_rows-IsSettled now db.idem s.settled;
  };
  grows = Grows-refl db.utxos;
  new_rows = [];
  log = refl;
  clients = refl;
  replays = λ s c k row found. rw (gc_rows_settled now db.idem s) found;
}
