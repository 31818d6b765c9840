-- ===== src/Models/Status.antt =====
-- `Transaction.advance_status` and its table of transitions.
use project_hamilton.Base.{Bool, true, false, ◌≡◌, ◌≢◌, ◌⊎◌, inl, inr, refl, List, [], ◌∷◌, arith}
use project_hamilton.Base.Action.{Action, throw, modify, ok, raise}
use project_hamilton.Models.Types.{
  TransactionStatus, pending, completed, failed, rejected, expired, Transaction,
}

pub data StatusError : Type 0 where
  illegal_transition : TransactionStatus → TransactionStatus → StatusError

-- `new_status in _VALID_TRANSITIONS[status]`
unfoldable pub allowed : TransactionStatus → TransactionStatus → Bool
allowed pending pending = false
allowed pending completed = true
allowed pending failed = true
allowed pending rejected = true
allowed pending expired = true
allowed completed new = false
allowed failed new = false
allowed rejected new = false
allowed expired new = false

-- `advance_status`, as a step on the transaction.
unfoldable pub advance_status : TransactionStatus → Action Transaction StatusError (Unit {0})
advance_status new tx = elim (allowed tx.status new) [
  | true ↦ modify (λ t. record t { status = new }) tx
  | false ↦ throw (illegal_transition tx.status new) tx
]

-- A caller that tries one status after another, and goes on after a refusal.
unfoldable pub advance_all : List TransactionStatus → Transaction → Transaction
advance_all [] tx = tx
advance_all (new ∷ news) tx = advance_all news (advance_status new tx).1

-- The first status other than PENDING that is asked for.
unfoldable pub first_final : List TransactionStatus → TransactionStatus
first_final [] = pending
first_final (pending ∷ news) = first_final news
first_final (completed ∷ news) = completed
first_final (failed ∷ news) = failed
first_final (rejected ∷ news) = rejected
first_final (expired ∷ news) = expired

-- In a status other than PENDING every advance is refused.
settled_refuses :
    (tx : Transaction) (new : TransactionStatus)
    → tx.status ≢ pending
    → advance_status new tx ≡ (raise (illegal_transition tx.status new), tx)
unfolding advance_status allowed
settled_refuses tx new h = ground arith

settled_stays :
    (tx : Transaction) (news : List TransactionStatus)
    → tx.status ≢ pending
    → advance_all news tx ≡ tx
unfolding advance_all
settled_stays tx [] h = refl
settled_stays tx (new ∷ news) h = rw (settled_refuses tx new h) (settled_stays tx news h)

advance_pending :
    (tx : Transaction) (new : TransactionStatus)
    → tx.status ≡ pending
    → new ≢ pending
    → advance_status new tx ≡ (ok tt, record tx { status = new })
unfolding advance_status allowed
advance_pending tx new h ne = ground arith

first_wins :
    (tx : Transaction) (new : TransactionStatus) (news : List TransactionStatus)
    → tx.status ≡ pending
    → new ≢ pending
    → advance_all (new ∷ news) tx ≡ record tx { status = new }
unfolding advance_all
first_wins tx new news h ne =
    rw (advance_pending tx new h ne) (settled_stays (record tx { status = new }) news ne)

pending_first :
    (tx : Transaction) (news : List TransactionStatus)
    → tx.status ≡ pending
    → advance_all news tx ≡ record tx { status = first_final news }
unfolding first_final advance_all advance_status allowed
pending_first tx [] h = ground arith
pending_first tx (pending ∷ news) h =
    let same : (advance_status pending tx).1 ≡ tx = ground arith in
    rw same (pending_first tx news h)
pending_first tx (completed ∷ news) h = first_wins tx completed news h (λ e. cc)
pending_first tx (failed ∷ news) h = first_wins tx failed news h (λ e. cc)
pending_first tx (rejected ∷ news) h = first_wins tx rejected news h (λ e. cc)
pending_first tx (expired ∷ news) h = first_wins tx expired news h (λ e. cc)

status_cases : (s : TransactionStatus) → (s ≡ pending) ⊎ (s ≢ pending)
status_cases pending = inl refl
status_cases completed = inr (λ e. cc)
status_cases failed = inr (λ e. cc)
status_cases rejected = inr (λ e. cc)
status_cases expired = inr (λ e. cc)

-- Whatever statuses are asked for, one after another, a transaction ends in the first of them that
-- is not PENDING if it was PENDING, and as it was otherwise; nothing but the status changes.
pub advance_all-first :
    (tx : Transaction) (news : List TransactionStatus)
    → ((tx.status ≡ pending) × (advance_all news tx ≡ record tx { status = first_final news }))
      ⊎ ((tx.status ≢ pending) × (advance_all news tx ≡ tx))
advance_all-first tx news = elim (status_cases tx.status) [
  | inl h ↦ inl (h, pending_first tx news h)
  | inr h ↦ inr (h, settled_stays tx news h)
]
