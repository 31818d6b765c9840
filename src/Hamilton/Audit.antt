-- ===== src/Hamilton/Audit.antt =====
-- The hash chain of ledger_audit: `_audit_chain_hash` and `_audit_insert`.
use project_hamilton.Base.{ℕ, suc, ◌++◌, Option, none, some, List, [], ◌∷◌, Text, text_dec, ite}
use project_hamilton.Base.Action.{Error, throw, modify}
use project_hamilton.Hamilton.State.{Act, AuditRow, AuditAction}
use project_hamilton.Hamilton.Request.{Env}

-- `tx_id TEXT NOT NULL UNIQUE`: the row with the key, if there is one.
unfoldable pub find_audit : Text → List AuditRow → Option AuditRow
find_audit tx_id [] = none
find_audit tx_id (r ∷ rs) = ite (text_dec r.tx_id tx_id) (some r) (find_audit tx_id rs)

-- `SELECT chain_hash ... ORDER BY seq DESC LIMIT 1`, or the empty text.
unfoldable pub last_hash : List AuditRow → Text
last_hash [] = []
last_hash (r ∷ rs) = r.chain_hash

-- AUTOINCREMENT: rows are never deleted, so this is one more than the last row's.
unfoldable pub next_seq : List AuditRow → ℕ
next_seq [] = 1
next_seq (r ∷ rs) = suc r.seq

module _ (env : Env) where
  -- `_audit_chain_hash`; both texts are ASCII.
  unfoldable pub audit_chain_hash : Text → Text → Text
  audit_chain_hash prev_hash payload = env.sha256_hex (prev_hash ++ payload)

  unfoldable pub audit_row : List AuditRow → Text → AuditAction → Text → AuditRow
  audit_row rows tx_id action payload_str = record {
    seq = next_seq rows;
    tx_id = tx_id;
    action = action;
    payload = payload_str;
    prev_hash = last_hash rows;
    chain_hash = audit_chain_hash (last_hash rows) payload_str;
  }

  -- `_audit_insert`
  unfoldable pub audit_insert : Text → AuditAction → Text → Act Unit
  audit_insert tx_id action payload_str db = elim (find_audit tx_id db.audit) [
    | some _ ↦ throw Error.integrity_error db
    | none ↦
        modify (λ d. record d { audit = audit_row d.audit tx_id action payload_str ∷ d.audit }) db
  ]
