-- ===== src/Base/Action/Atomic.antt =====
-- Handlers that write all or nothing.
use mathlib.Core.Bool.{true, false, Bool}
use mathlib.Core.Path.{◌≡◌, refl, sym, subst, ◌∙◌}
use mathlib.Core.Option.{Option, none, some}
use native.Mathlib.Omega.{arith}
use project_hamilton.Base.Action.{
  Action, Result, ok, raise, require, refuse, refuse_if, or_throw, pure, throw, gets, ◌>>=◌, settle,
  transaction, ◌>>◌, >>=-ok,
}

-- Whatever the outcome, nothing is written.
pub record IsReadonly {S E A : Type 0} (m : Action S E A) : Type 0 where
  pub at : (s : S) → (m s).1 ≡ s

-- If it raises, nothing is written.
pub record IsAtomic {S E A : Type 0} (m : Action S E A) : Type 0 where
  pub at : (s s' : S) (e : E) → m s ≡ (raise e, s') → s' ≡ s

module _ {S E : Type 0} where
  pub require-IsReadonly : {P : Type 0} (d : Dec P) (e : E) → IsReadonly {S = S} (require d e)
  require-IsReadonly (yes _) e = record { at = λ s. refl }
  require-IsReadonly (no _) e = record { at = λ s. refl }

  pub refuse_if-IsReadonly : (b : Bool) (e : E) → IsReadonly {S = S} (refuse_if b e)
  refuse_if-IsReadonly true e = record { at = λ s. refl }
  refuse_if-IsReadonly false e = record { at = λ s. refl }

module _ {S E : Type 0} where
  pub refuse-IsReadonly : {P : Type 0} (d : Dec P) (e : E) → IsReadonly {S = S} (refuse d e)
  refuse-IsReadonly (yes _) e = record { at = λ s. refl }
  refuse-IsReadonly (no _) e = record { at = λ s. refl }

  pub or_throw-IsReadonly :
      {A : Type 0} (o : Option A) (e : E) → IsReadonly {S = S} {A = A} (or_throw o e)
  or_throw-IsReadonly none e = record { at = λ s. refl }
  or_throw-IsReadonly (some a) e = record { at = λ s. refl }

  pub pure-IsReadonly : {A : Type 0} (a : A) → IsReadonly {S = S} {E = E} (pure a)
  pure-IsReadonly a = record { at = λ s. refl }

  pub throw-IsReadonly : {A : Type 0} (e : E) → IsReadonly {S = S} {A = A} (throw e)
  throw-IsReadonly e = record { at = λ s. refl }

  pub gets-IsReadonly : {A : Type 0} (f : S → A) → IsReadonly {S = S} {E = E} (gets f)
  gets-IsReadonly f = record { at = λ s. refl }

bound_same :
    {S E A B : Type 0} (p : Result E A × S) (f : A → Action S E B) {s : S}
    → ((a : A) → IsReadonly (f a))
    → p.1 ≡ s
    → (((λ (_ : S). p) >>= f) s).1 ≡ s
bound_same (ok a, s') f r e = (r a).at s' ∙ e
bound_same (raise x, s') f r e = e

module _ {S E A B : Type 0} where
  pub >>=-IsReadonly :
      (m : Action S E A) (f : A → Action S E B)
      → IsReadonly m
      → ((a : A) → IsReadonly (f a))
      → IsReadonly (m >>= f)
  >>=-IsReadonly m f rm rf = record { at = λ s. bound_same (m s) f rf (rm.at s) }

  pub >>-IsReadonly :
      (m : Action S E A) (k : Action S E B) → IsReadonly m → IsReadonly k → IsReadonly (m >> k)
  >>-IsReadonly m k rm rk = record { at = λ s. ground (arith, rm.at s, rk.at s) }

  pub >>-IsAtomic :
      (m : Action S E A) (k : Action S E B) → IsReadonly m → IsAtomic k → IsAtomic (m >> k)
  >>-IsAtomic m k rm ak = record { at = λ s s' e h. ground (arith, rm.at s, ak.at s s' e) }

settle-raise :
    {S E A : Type 0} (handler : E → E) (s s' : S) (p : Result E A × S) (e : E)
    → settle handler s p ≡ (raise e, s')
    → s' ≡ s
settle-raise handler s s' (ok a, s₁) e h = cc
settle-raise handler s s' (raise e', s₁) e h = cc

-- A transaction writes all or nothing, whatever its body does.
pub transaction-IsAtomic :
    {S E A : Type 0} (handler : E → E) (m : Action S E A) → IsAtomic (transaction handler m)
transaction-IsAtomic handler m = record { at = λ s s' e h. settle-raise handler s s' (m s) e h }

pub ruleset readonly_rules = (
  require-IsReadonly, refuse-IsReadonly, refuse_if-IsReadonly, or_throw-IsReadonly, pure-IsReadonly,
  throw-IsReadonly, gets-IsReadonly, >>=-IsReadonly, >>-IsReadonly,
)

pub ruleset atomic_rules =
    (require-IsReadonly, refuse_if-IsReadonly, >>-IsReadonly, >>-IsAtomic, transaction-IsAtomic)

same_state :
    {S E A : Type 0} (m : Action S E A) {s s₁ : S} {a : A}
    → IsReadonly m
    → m s ≡ (ok a, s₁)
    → s₁ ≡ s
same_state m {s} r h = ground (arith, r.at s)

-- Whatever the outcome, the state after is related to the state before.
pub record Follows {S E A : Type 0} (R : S → S → Type 0) (m : Action S E A) : Type 0 where
  pub at : (s : S) → R s (m s).1

module _ {S E A B : Type 0} (R : S → S → Type 0) (trans : (s t u : S) → R s t → R t u → R s u) where
  bound_follows :
      (p : Result E A × S) (f : A → Action S E B) (s : S)
      → ((a : A) → Follows R (f a))
      → R s p.1
      → R s (((λ (_ : S). p) >>= f) s).1
  bound_follows (ok a, t) f s ff r = trans s t (f a t).1 r ((ff a).at t)
  bound_follows (raise e, t) f s ff r = r

  pub >>=-Follows :
      (m : Action S E A) (f : A → Action S E B)
      → Follows R m
      → ((a : A) → Follows R (f a))
      → Follows R (m >>= f)
  >>=-Follows m f fm ff = record { at = λ s. bound_follows (m s) f s ff (fm.at s) }

pub IsReadonly-Follows :
    {S E A : Type 0} (R : S → S → Type 0)
    → ((s : S) → R s s)
    → (m : Action S E A) → IsReadonly m
    → Follows R m
IsReadonly-Follows R same m r = record { at = λ s. subst (λ t. R s t) (sym (r.at s)) (same s) }

-- A step that returned and wrote nothing, and what ran after it from the same state.
pub >>=-same :
    {S E A B : Type 0} (m : Action S E A) (f : A → Action S E B) {s s' : S} {b : B}
    → IsReadonly m
    → (m >>= f) s ≡ (ok b, s')
    → (a : A) × (m s ≡ (ok a, s)) × (f a s ≡ (ok b, s'))
>>=-same m f {s} {s'} {b} r h =
    let (a, s₁, first, rest) = >>=-ok m f h in
    let e = same_state m r first in
    (a, subst (λ t. m s ≡ (ok a, t)) e first, subst (λ t. f a t ≡ (ok b, s')) e rest)

-- A check that was passed, and what ran after it from the same state.
pub >>-ok :
    {S E A B : Type 0} (m : Action S E A) (k : Action S E B) {s s' : S} {b : B}
    → IsReadonly m
    → (m >> k) s ≡ (ok b, s')
    → (a : A) × (m s ≡ (ok a, s)) × (k s ≡ (ok b, s'))
>>-ok m k r h = >>=-same m (λ _. k) r h
