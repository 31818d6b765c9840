-- ===== src/Hamilton/Atomic.antt =====
-- The handlers write all or nothing.
use project_hamilton.Base.{ℕ, Text, arith}
use project_hamilton.Base.Action.Atomic.{IsReadonly, IsAtomic, atomic_rules}
use project_hamilton.Base.Int.{ℤ}
use project_hamilton.Hamilton.Request.{
  Env, TxRequest, MintReq, BurnReq, validate_idem_key, verify_network, verify_signed_at,
  verify_ed25519,
}
use project_hamilton.Hamilton.Handlers.{once, check_tx, process_tx, mint, check_burn, burn}

module _ (env : Env) where
  pub validate_idem_key-IsReadonly : (v : Text) → IsReadonly (validate_idem_key env v)
  unfolding validate_idem_key
  validate_idem_key-IsReadonly v = record { at = λ s. ground arith }

  pub verify_network-IsReadonly : (v : Text) → IsReadonly (verify_network env v)
  unfolding verify_network
  verify_network-IsReadonly v = record { at = λ s. ground arith }

  pub verify_ed25519-IsReadonly :
      (key msg sig prefix : Text) → IsReadonly (verify_ed25519 env key msg sig prefix)
  unfolding verify_ed25519
  verify_ed25519-IsReadonly key msg sig prefix = record { at = λ s. ground arith }

pub verify_signed_at-IsReadonly : (now : ℕ) (t : ℤ) → IsReadonly (verify_signed_at now t)
unfolding verify_signed_at
verify_signed_at-IsReadonly now t = record { at = λ s. ground arith }

ruleset handler_rules = (
  atomic_rules, validate_idem_key-IsReadonly, verify_network-IsReadonly, verify_ed25519-IsReadonly,
  verify_signed_at-IsReadonly,
)

module _ (env : Env) (now : ℕ) where
  pub check_tx-IsReadonly : (tx : TxRequest) (key : Text) → IsReadonly (check_tx env now tx key)
  unfolding check_tx
  check_tx-IsReadonly tx key = search handler_rules depth 12

  pub check_burn-IsReadonly :
      (body : BurnReq) (key : Text) → IsReadonly (check_burn env now body key)
  unfolding check_burn
  check_burn-IsReadonly body key = search handler_rules depth 12

module _ (env : Env) (now : ℕ) (cid : Text) where
  -- A transfer that raises, whatever the exception, leaves every table as it was.
  pub process_tx-IsAtomic : (tx : TxRequest) (key : Text) → IsAtomic (process_tx env now cid tx key)
  unfolding process_tx once
  process_tx-IsAtomic tx key = search (handler_rules, check_tx-IsReadonly)

  -- A mint that raises leaves every table as it was.
  pub mint-IsAtomic : (body : MintReq) (key tid : Text) → IsAtomic (mint env now cid body key tid)
  unfolding mint once
  mint-IsAtomic body key tid = search handler_rules depth 12

  -- A burn that raises leaves every table as it was.
  pub burn-IsAtomic :
      (body : BurnReq) (key audit_id : Text) → IsAtomic (burn env now cid body key audit_id)
  unfolding burn once
  burn-IsAtomic body key audit_id = search (handler_rules, check_burn-IsReadonly)
