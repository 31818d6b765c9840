-- ===== src/Hamilton/Once.antt =====
-- The shared body of the handlers: what a key that was used gives, and a key that is new.
use project_hamilton.Base.{
  ℕ, ◌≡◌, ◌⊎◌, inl, inr, none, some, ◌∷◌, Text, arith, Option, Option-cases, subst,
}
use project_hamilton.Base.Action.{Result, ok, raise, ◌>>=◌, ◌>>◌, >>=-ok, settle}
use project_hamilton.Hamilton.State.{Db, Act, Failure, Reply, IdemRow, pending, complete}
use project_hamilton.Hamilton.Idem.{
  find_idem, replay_of, idem_acquire, complete_rows, idem_complete,
}
use project_hamilton.Hamilton.Handlers.{work_or_replay, once}

-- The row that `_idem_acquire` inserts.
abbrev pub pending_row : ℕ → Text → Text → IdemRow
pending_row now cid key = record {
  client_id = cid;
  idem_key = key;
  status = pending;
  response = none;
  created_ts = now;
}

abbrev pub with_pending : ℕ → Text → Text → Db → Db
with_pending now cid key db = record db { idem = pending_row now cid key ∷ db.idem }

-- The key was used before: the stored response, and nothing is written.
pub record Replayed (cid key : Text) (reply : Reply) (db db' : Db) : Type 0 where
  pub row : IdemRow
  pub found : find_idem cid key db.idem ≡ some row
  pub done : row.status ≡ complete
  pub stored : row.response ≡ some reply
  pub same : db' ≡ db

-- The key is new: the work ran once, and its response was stored.
pub record Ran (now : ℕ) (cid key : Text) (work : Act Reply) (reply : Reply) (db db' : Db)
    : Type 0 where
  pub worked : Db
  pub absent : find_idem cid key db.idem ≡ none
  pub returned : work (with_pending now cid key db) ≡ (ok reply, worked)
  pub stored : db' ≡ record worked { idem = complete_rows cid key reply worked.idem }

settle-ok :
    {S E A : Type 0} (handler : E → E) (s : S) (p : Result E A × S) {a : A} {s' : S}
    → settle handler s p ≡ (ok a, s')
    → p ≡ (ok a, s')
settle-ok handler s (ok b, s₁) h = h
settle-ok handler s (raise e, s₁) h = cc

idem_complete-ok :
    (cid key : Text) (reply : Reply) (db db' : Db) (u : Unit {0})
    → idem_complete cid key reply db ≡ (ok u, db')
    → db' ≡ record db { idem = complete_rows cid key reply db.idem }
unfolding idem_complete
idem_complete-ok cid key reply db db' u h = ground arith

work-ok :
    (cid key : Text) (work : Act Reply) (reply : Reply) (db db' : Db)
    → work_or_replay cid key work none db ≡ (ok reply, db')
    → (worked : Db) × (work db ≡ (ok reply, worked))
      × (db' ≡ record worked { idem = complete_rows cid key reply worked.idem })
unfolding work_or_replay
work-ok cid key work reply db db' h =
    let (r, db₁, ran, rest) = >>=-ok work (λ r. idem_complete cid key r >> λ s. (ok r, s)) h in
    let (u, db₂, done, last) = >>=-ok (idem_complete cid key r) (λ _ s. (ok r, s)) rest in
    let e = idem_complete-ok cid key r db₁ db₂ u done in (db₁, ground arith, ground arith)

replay-ok :
    (cid key : Text) (work : Act Reply) (row : IdemRow) (reply : Reply) (db db₁ db' : Db)
    (cached : Option Reply)
    → find_idem cid key db.idem ≡ some row
    → replay_of row db ≡ (ok cached, db₁)
    → work_or_replay cid key work cached db₁ ≡ (ok reply, db')
    → Replayed cid key reply db db'
unfolding replay_of work_or_replay
replay-ok cid key work row reply db db₁ db' cached found acquired rest = record {
  row = row;
  found = found;
  done = ground arith;
  stored = ground arith;
  same = ground arith;
}

fresh-ok :
    (now : ℕ) (cid key : Text) (work : Act Reply) (reply : Reply) (db db₁ db' : Db)
    (cached : Option Reply)
    → find_idem cid key db.idem ≡ none
    → cached ≡ none
    → db₁ ≡ with_pending now cid key db
    → work_or_replay cid key work cached db₁ ≡ (ok reply, db')
    → Ran now cid key work reply db db'
fresh-ok now cid key work reply db db₁ db' cached absent ec ed h =
    let h₁ = subst (λ c. work_or_replay cid key work c db₁ ≡ (ok reply, db')) ec h in
    let h₂ = subst (λ d. work_or_replay cid key work none d ≡ (ok reply, db')) ed h₁ in
    let (worked, returned, stored) =
      work-ok cid key work reply (with_pending now cid key db) db' h₂ in
    record { worked = worked; absent = absent; returned = returned; stored = stored }

-- A handler body that returns replayed a stored response or ran its work exactly once.
pub once-ok :
    (handler : Failure → Failure) (now : ℕ) (cid key : Text) (work : Act Reply) (reply : Reply)
    (db db' : Db)
    → once handler now cid key work db ≡ (ok reply, db')
    → Replayed cid key reply db db' ⊎ Ran now cid key work reply db db'
unfolding once idem_acquire
once-ok handler now cid key work reply db db' h =
    let body = idem_acquire now cid key >>= work_or_replay cid key work in
    let settled = settle-ok handler db (body db) h in
    let (cached, db₁, acquired, rest) =
      >>=-ok (idem_acquire now cid key) (work_or_replay cid key work) settled in
    elim (Option-cases (find_idem cid key db.idem)) [
      | inl absent ↦ inr (
          fresh-ok now cid key work reply db db₁ db' cached absent (ground arith) (ground arith)
            rest)
      | inr (row, found) ↦
          inl (replay-ok cid key work row reply db db₁ db' cached found (ground arith) rest)
    ]

-- A key with a stored response gives that response, and nothing is written.
pub once_replays :
    (handler : Failure → Failure) (now : ℕ) (cid key : Text) (work : Act Reply) (reply : Reply)
    (row : IdemRow) (db : Db)
    → find_idem cid key db.idem ≡ some row
    → row.status ≡ complete
    → row.response ≡ some reply
    → once handler now cid key work db ≡ (ok reply, db)
unfolding once idem_acquire replay_of work_or_replay
once_replays handler now cid key work reply row db found done stored = ground arith
