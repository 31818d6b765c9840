-- ===== src/Bridge/Keeps.antt =====
-- What no part of a request changes.
use project_hamilton.Base.{
  inl, inr, ℕ, ◌≡◌, ◌∙◌, refl, ap, Bool, Option, none, some, List, [], ◌∷◌, Text, text_dec, arith,
  Option-cases,
}
use project_hamilton.Base.Int.{ℤ, pos, negsuc, add_decimal}
use project_hamilton.Base.Action.{Result, ok, raise, settle, pure}
use project_hamilton.Base.Action.Atomic.{IsReadonly, readonly_rules, Follows, >>=-Follows}
use project_hamilton.Bridge.State.{
  TxType, mint, burn, Db, Liquidity, Failure, Request, find_liquidity,
}
use project_hamilton.Bridge.Liquidity.{
  refuse_duplicate, open_liquidity, set_liquidity, adjust_found, adjust_liquidity,
  record_transaction, liquidity_steps, process_liquidity_transaction, delta,
}
use project_hamilton.Bridge.Access.{Env, verify_api_key, check_rate_limit, find_signature, protect}
use project_hamilton.Bridge.Endpoints.{body_guard, validate_tokens, validate_body}

-- The signatures that a database has are in a later one too.
abbrev pub Kept : Db → Db → Type 0
Kept db db' =
    (signature : Text) (ts : ℤ)
    → find_signature signature db.replay_protection ≡ some ts
    → find_signature signature db'.replay_protection ≡ some ts

pub Kept-same : (db : Db) → Kept db db
Kept-same db signature ts h = h

pub Kept-trans : (db db₁ db₂ : Db) → Kept db db₁ → Kept db₁ db₂ → Kept db db₂
Kept-trans db db₁ db₂ first last signature ts h = last signature ts (first signature ts h)

-- The transactions and the liquidity of a database are those of another.
pub record SameBooks (db db' : Db) : Type 0 where
  pub transactions : db'.transactions ≡ db.transactions
  pub liquidity : db'.liquidity ≡ db.liquidity

pub SameBooks-same : (db : Db) → SameBooks db db
SameBooks-same db = record { transactions = refl; liquidity = refl }

pub SameBooks-trans : (db db₁ db₂ : Db) → SameBooks db db₁ → SameBooks db₁ db₂ → SameBooks db db₂
SameBooks-trans db db₁ db₂ first last = record {
  transactions = last.transactions ∙ first.transactions;
  liquidity = last.liquidity ∙ first.liquidity;
}

-- Neither the books nor the signatures that are there change.
abbrev pub Both : Db → Db → Type 0
Both db db' = SameBooks db db' × Kept db db'

pub Both-same : (db : Db) → Both db db
Both-same db = (SameBooks-same db, Kept-same db)

pub Both-trans : (db db₁ db₂ : Db) → Both db db₁ → Both db₁ db₂ → Both db db₂
Both-trans db db₁ db₂ (a, b) (c, d) = (SameBooks-trans db db₁ db₂ a c, Kept-trans db db₁ db₂ b d)

pub body_guard-IsReadonly : (body : List ℕ) → IsReadonly (body_guard body)
unfolding body_guard
body_guard-IsReadonly body = search readonly_rules

pub verify_api_key-IsReadonly : (env : Env) (key : Text) → IsReadonly (verify_api_key env key)
unfolding verify_api_key
verify_api_key-IsReadonly env key = search readonly_rules

pub check_rate_limit-Both : (ip : Text) (now : ℕ) → Follows Both (check_rate_limit ip now)
unfolding check_rate_limit
check_rate_limit-Both ip now = record {
  at = λ db. (
    record { transactions = ground arith; liquidity = ground arith },
    λ signature ts h. ground arith,
  );
}

pub protect-Both : (signature : Text) (ts : ℤ) → Follows Both (protect signature ts)
unfolding protect find_signature
protect-Both signature ts = record {
  at = λ db. elim (Option-cases (find_signature signature db.replay_protection)) [
    | inl e ↦ (
      record { transactions = ground arith; liquidity = ground arith },
      λ other t h. elim (text_dec signature other) [
        | yes q ↦ absurd (ground arith)
        | no n ↦ ground arith
      ],
    )
    | inr (t', e) ↦ (
      record { transactions = ground arith; liquidity = ground arith },
      λ other t h. ground arith,
    )
  ];
}

validate_tokens-IsReadonly :
    (is_uuid : Text → Bool) (ts : List Text) → IsReadonly (validate_tokens is_uuid ts)
unfolding validate_tokens
validate_tokens-IsReadonly is_uuid [] = search readonly_rules
validate_tokens-IsReadonly is_uuid (t ∷ ts) =
    let ih = validate_tokens-IsReadonly is_uuid ts in
    record { at = λ db. let e = ih.at db in ground arith }

pub validate_body-IsReadonly :
    (is_uuid : Text → Bool) (t : TxType) (ts : List Text) → IsReadonly (validate_body is_uuid t ts)
validate_body-IsReadonly is_uuid mint ts = search readonly_rules
validate_body-IsReadonly is_uuid burn ts = validate_tokens-IsReadonly is_uuid ts

abbrev SameReplay : Db → Db → Type 0
SameReplay db db' = db'.replay_protection ≡ db.replay_protection

refuse_duplicate-SameReplay : (req : Request) → Follows SameReplay (refuse_duplicate req)
unfolding refuse_duplicate
refuse_duplicate-SameReplay req = record { at = λ db. ground arith }

open_liquidity-SameReplay : (req : Request) (t : TxType) → Follows SameReplay (open_liquidity req t)
unfolding open_liquidity
open_liquidity-SameReplay req mint = record { at = λ db. refl }
open_liquidity-SameReplay req burn = record { at = λ db. refl }

set_liquidity-SameReplay : (c : Text) (total n : ℤ) → Follows SameReplay (set_liquidity c total n)
unfolding set_liquidity
set_liquidity-SameReplay c total (pos n) = record { at = λ db. refl }
set_liquidity-SameReplay c total (negsuc n) = record { at = λ db. refl }

adjust_found-SameReplay :
    (req : Request) (t : TxType) (row : Option Liquidity)
    → Follows SameReplay (adjust_found req t row)
unfolding adjust_found
adjust_found-SameReplay req t none = open_liquidity-SameReplay req t
adjust_found-SameReplay req t (some row) =
    set_liquidity-SameReplay req.currency (add_decimal row.total (delta req t))
      (add_decimal row.available (delta req t))

adjust_liquidity-SameReplay :
    (req : Request) (t : TxType) → Follows SameReplay (adjust_liquidity req t)
unfolding adjust_liquidity
adjust_liquidity-SameReplay req t = record {
  at = λ db. (adjust_found-SameReplay req t (find_liquidity req.currency db.liquidity)).at db;
}

record_transaction-SameReplay :
    (req : Request) (t : TxType) (tx_id : Text)
    → Follows SameReplay (record_transaction req t tx_id)
unfolding record_transaction
record_transaction-SameReplay req t tx_id = record { at = λ db. ground arith }

pure-SameReplay : (tx_id : Text) → Follows {E = Failure} SameReplay (pure tx_id)
pure-SameReplay tx_id = record { at = λ db. refl }

SameReplay-trans : (db db₁ db₂ : Db) → SameReplay db db₁ → SameReplay db₁ db₂ → SameReplay db db₂
SameReplay-trans db db₁ db₂ first last = last ∙ first

settle-SameReplay :
    {A : Type 0} (db : Db) (p : Result Failure A × Db)
    → SameReplay db p.1
    → SameReplay db (settle (λ e. e) db p).1
settle-SameReplay db (ok a, db') h = h
settle-SameReplay db (raise e, db') h = refl

pub process-SameReplay :
    (req : Request) (t : TxType) (tx_id : Text)
    → Follows SameReplay (process_liquidity_transaction req t tx_id)
unfolding process_liquidity_transaction liquidity_steps
process-SameReplay req t tx_id =
    let steps : Follows SameReplay (liquidity_steps req t tx_id) = search (
      >>=-Follows, SameReplay-trans, refuse_duplicate-SameReplay, adjust_liquidity-SameReplay,
      record_transaction-SameReplay, pure-SameReplay,
    ) in
    record { at = λ db. settle-SameReplay db (liquidity_steps req t tx_id db) (steps.at db) }

pub process-Kept :
    (req : Request) (t : TxType) (tx_id : Text)
    → Follows Kept (process_liquidity_transaction req t tx_id)
process-Kept req t tx_id = record {
  at = λ db signature ts h.
      ap (λ r. find_signature signature r) ((process-SameReplay req t tx_id).at db) ∙ h;
}
