-- ===== src/Hamilton/Chain.antt =====
-- The audit log as a hash chain.
use project_hamilton.Base.{
  ℕ, ◌≡◌, ◌≢◌, ◌∙◌, sym, ◌⊎◌, inl, inr, refl, none, List, [], ◌∷◌, ◌++◌, map, Text, text_dec, arith,
  length, ⊤,
}
use project_hamilton.Hamilton.State.{AuditRow, AuditAction}
use project_hamilton.Hamilton.Request.{Env}
use project_hamilton.Hamilton.Audit.{find_audit, last_hash, next_seq, audit_chain_hash, audit_row}

-- Newest row first: each is numbered after the one below it, names the hash of the one below it,
-- carries the hash of that and of its own payload, and has an identifier of its own.
abbrev pub IsChained : Env → List AuditRow → Type 0
IsChained env [] = ⊤
IsChained env (r ∷ rs) =
    (r.seq ≡ next_seq rs)
    × (r.prev_hash ≡ last_hash rs)
    × (r.chain_hash ≡ audit_chain_hash env (last_hash rs) r.payload)
    × (find_audit r.tx_id rs ≡ none)
    × IsChained env rs

-- The row that `_audit_insert` writes continues the chain.
pub audit_row-IsChained :
    (env : Env) (rows : List AuditRow) (tx_id : Text) (action : AuditAction) (payload : Text)
    → find_audit tx_id rows ≡ none
    → IsChained env rows
    → IsChained env (audit_row env rows tx_id action payload ∷ rows)
unfolding audit_row
audit_row-IsChained env rows tx_id action payload absent chained =
    (refl, refl, refl, absent, chained)

-- Two different inputs with one hash.
pub Collision : Env → Type 0
Collision env = (x : Text) × (y : Text) × (x ≢ y) × (env.sha256_hex x ≡ env.sha256_hex y)

-- Texts that are equal, with parts in front that have one length, have equal parts.
append-split : (a b c d : Text) → length a ≡ length c → a ++ b ≡ c ++ d → (a ≡ c) × (b ≡ d)
append-split [] b [] d l e = (refl, e)
append-split [] b (x ∷ c) d l e = absurd (omega arith)
append-split (x ∷ a) b [] d l e = absurd (omega arith)
append-split (x ∷ a) b (y ∷ c) d l e =
    let (p, q) = append-split a b c d (omega arith) (cc) in (cc p, q)

abbrev pub payloads : List AuditRow → List Text
payloads = map (λ r. r.payload)

module _ (env : Env) (width : ℕ) (fixed : (x : Text) → length (env.sha256_hex x) ≡ width) where
  length-last_hash :
      (rs ss : List AuditRow)
      → IsChained env rs
      → IsChained env ss
      → length rs ≡ length ss
      → length (last_hash rs) ≡ length (last_hash ss)
  unfolding last_hash audit_chain_hash
  length-last_hash [] [] p q l = refl
  length-last_hash [] (s ∷ ss) p q l = absurd (omega arith)
  length-last_hash (r ∷ rs) [] p q l = absurd (omega arith)
  length-last_hash (r ∷ rs) (s ∷ ss) p q l =
      rw (p.2, q.2)
        (omega (arith, fixed (last_hash rs ++ r.payload), fixed (last_hash ss ++ s.payload)))

  -- One row: equal hashes give equal payloads and equal hashes below, or a collision.
  row_evident :
      (rs ss : List AuditRow) (r s : AuditRow)
      → IsChained env (r ∷ rs)
      → IsChained env (s ∷ ss)
      → length rs ≡ length ss
      → r.chain_hash ≡ s.chain_hash
      → ((last_hash rs ≡ last_hash ss) × (r.payload ≡ s.payload)) ⊎ Collision env
  unfolding audit_chain_hash Collision
  row_evident rs ss r s p q l e =
      elim (text_dec (last_hash rs ++ r.payload) (last_hash ss ++ s.payload)) [
        | yes same ↦ inl (
            append-split (last_hash rs) r.payload (last_hash ss) s.payload
              (length-last_hash rs ss p.4 q.4 l) same)
        | no differ ↦
            inr (last_hash rs ++ r.payload, last_hash ss ++ s.payload, differ, sym p.2 ∙ e ∙ q.2)
      ]

  -- If the hashes have a fixed width, and each of two logs is chained, every row holding the hash
  -- of the row before it and the hash of that and its payload, then the two logs, when they have one
  -- length and end in the same hash, hold the same payloads or show a collision of the hash function.
  pub tamper_evident :
      (rs ss : List AuditRow)
      → IsChained env rs
      → IsChained env ss
      → length rs ≡ length ss
      → last_hash rs ≡ last_hash ss
      → (payloads rs ≡ payloads ss) ⊎ Collision env
  unfolding last_hash
  tamper_evident [] [] p q l e = inl refl
  tamper_evident [] (s ∷ ss) p q l e = absurd (omega arith)
  tamper_evident (r ∷ rs) [] p q l e = absurd (omega arith)
  tamper_evident (r ∷ rs) (s ∷ ss) p q l e = elim (row_evident rs ss r s p q (omega arith) e) [
    | inr c ↦ inr c
    | inl (below, same) ↦ elim (tamper_evident rs ss p.4 q.4 (omega arith) below) [
      | inr c ↦ inr c
      | inl rest ↦ inl (cc (same, rest))
    ]
  ]
