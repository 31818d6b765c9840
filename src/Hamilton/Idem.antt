-- ===== src/Hamilton/Idem.antt =====
-- The table idempotency_cache: `_idem_acquire`, `_idem_complete` and `_gc_stale_idem`.
use project_hamilton.Base.{
  ℕ, ◌+◌, Option, none, some, List, [], ◌∷◌, Text, text_dec, dec_lt, ite, ℕ_discrete,
}
use project_hamilton.Base.Action.{Error, Result, http, pure, throw, modify}
use project_hamilton.Hamilton.State.{Db, Act, Reply, IdemRow, pending, complete, in_flight}

-- `TS_WINDOW_SIG * 2 + 10`
abbrev pub idem_stale_secs : ℕ
idem_stale_secs = 130

-- `WHERE client_id=? AND idem_key=?`: one of two values.
unfoldable pub if_key {ℓ} : {A : Type ℓ} → Text → Text → IdemRow → A → A → A
if_key cid key r x y = ite (text_dec r.client_id cid) (ite (text_dec r.idem_key key) x y) y

unfoldable pub find_idem : Text → Text → List IdemRow → Option IdemRow
find_idem cid key [] = none
find_idem cid key (r ∷ rs) = if_key cid key r (some r) (find_idem cid key rs)

-- What the handler does with the row that it finds.
unfoldable pub replay_of : IdemRow → Act (Option Reply)
replay_of r db = elim r.status [
  | pending ↦ throw (http 409 in_flight) db
  | complete ↦ elim r.response [
    | none ↦ throw Error.type_error db
    | some reply ↦ pure (some reply) db
  ]
]

-- `_idem_acquire`: the stored response, or nothing after a PENDING row is inserted.
unfoldable pub idem_acquire : ℕ → Text → Text → Act (Option Reply)
idem_acquire now cid key db = elim (find_idem cid key db.idem) [
  | some r ↦ replay_of r db
  | none ↦ (
    Result.ok none,
    record db {
      idem =
          record {
            client_id = cid;
            idem_key = key;
            status = pending;
            response = none;
            created_ts = now;
          }
          ∷ db.idem;
    },
  )
]

-- The row that `UPDATE ... SET status='COMPLETE' ... AND status='PENDING'` leaves.
unfoldable pub complete_row : Reply → IdemRow → IdemRow
complete_row reply r = elim r.status [
  | pending ↦ record r { status = complete; response = some reply }
  | complete ↦ r
]

unfoldable pub complete_rows : Text → Text → Reply → List IdemRow → List IdemRow
complete_rows cid key reply [] = []
complete_rows cid key reply (r ∷ rs) =
    if_key cid key r (complete_row reply r) r ∷ complete_rows cid key reply rs

unfoldable pub is_pending : IdemRow → ℕ
is_pending r = elim r.status [ pending ↦ 1 | complete ↦ 0 ]

-- `rowcount`
unfoldable pub pending_count : Text → Text → List IdemRow → ℕ
pending_count cid key [] = 0
pending_count cid key (r ∷ rs) = if_key cid key r (is_pending r) 0 + pending_count cid key rs

-- `_idem_complete`
unfoldable pub idem_complete : Text → Text → Reply → Act Unit
idem_complete cid key reply db = elim (ℕ_discrete (pending_count cid key db.idem) 1) [
  | yes _ ↦ modify (λ d. record d { idem = complete_rows cid key reply d.idem }) db
  | no _ ↦ throw Error.runtime_error (record db { idem = complete_rows cid key reply db.idem })
]

-- `_gc_stale_idem`: PENDING rows older than the cutoff are deleted. The cutoff may be negative,
-- so the window is added to the other side.
unfoldable pub gc_rows : ℕ → List IdemRow → List IdemRow
gc_rows now [] = []
gc_rows now (r ∷ rs) = elim r.status [
  | complete ↦ r ∷ gc_rows now rs
  | pending ↦ elim (dec_lt (r.created_ts + idem_stale_secs) now) [
    | yes _ ↦ gc_rows now rs
    | no _ ↦ r ∷ gc_rows now rs
  ]
]

unfoldable pub gc_stale_idem : ℕ → Db → Db
gc_stale_idem now db = record db { idem = gc_rows now db.idem }
