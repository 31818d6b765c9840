-- ===== src/Base/Action.antt =====
-- A request handler: it reads and writes a database, and returns a value or raises. What was
-- written before a raise stays written, until a rollback.
pub mod Atomic
use mathlib.Core.Option.{Option, none, some}
use mathlib.Core.Bool.{Bool, true, false}
use Prim.Native.Nat.{ℕ}
use mathlib.Core.Path.{◌≡◌, refl}
use native.Mathlib.Omega.{arith}
use mathlib.Core.Logic.{◌⊎◌, inl, inr}

-- The exceptions of the handlers: an `HTTPException` with its status, a `ValueError`, and those
-- that no handler expects.
pub data Error (R : Type 0) : Type 0 where
  http : ℕ → R → Error R
  value_error : R → Error R
  integrity_error runtime_error type_error : Error R

pub data Result (E A : Type 0) : Type 0 where
  ok : A → Result E A
  raise : E → Result E A

abbrev pub Action : Type 0 → Type 0 → Type 0 → Type 0
Action S E A = S → Result E A × S

abbrev pub pure : {S E A : Type 0} → A → Action S E A
pure a s = (ok a, s)

abbrev pub throw : {S E A : Type 0} → E → Action S E A
throw e s = (raise e, s)

abbrev pub gets : {S E A : Type 0} → (S → A) → Action S E A
gets f s = (ok (f s), s)

abbrev pub modify : {S E : Type 0} → (S → S) → Action S E Unit
modify f s = (ok tt, f s)

-- `if not row: raise e`
abbrev pub or_throw : {S E A : Type 0} → Option A → E → Action S E A
or_throw none e = throw e
or_throw (some a) e = pure a

-- `if not p: raise e`
abbrev pub require : {S E P : Type 0} → Dec P → E → Action S E Unit
require (yes _) e = pure tt
require (no _) e = throw e

-- `if p: raise e`
abbrev pub refuse : {S E P : Type 0} → Dec P → E → Action S E Unit
refuse (yes _) e = throw e
refuse (no _) e = pure tt

-- The same by a Boolean test.
abbrev pub refuse_if : {S E : Type 0} → Bool → E → Action S E Unit
refuse_if true e = throw e
refuse_if false e = pure tt

infixl 5 ◌>>=◌ ◌>>◌
abbrev pub ◌>>=◌ : {S E A B : Type 0} → Action S E A → (A → Action S E B) → Action S E B
◌>>=◌ m f s = let (r, s') = m s in elim r [ ok a ↦ f a s' | raise e ↦ throw e s' ]

abbrev pub ◌>>◌ : {S E A B : Type 0} → Action S E A → Action S E B → Action S E B
m >> k = m >>= λ _. k

-- The end of a `try` block around a transaction: what raised is rolled back to the state at
-- `BEGIN`, and the handler turns the exception into the one that the client sees.
abbrev pub settle : {S E A : Type 0} → (E → E) → S → Result E A × S → Result E A × S
settle handler s (ok a, s') = (ok a, s')
settle handler s (raise e, s') = (raise (handler e), s)

abbrev pub transaction : {S E A : Type 0} → (E → E) → Action S E A → Action S E A
transaction handler m s = settle handler s (m s)

split_ok :
    {S E A B : Type 0} (p : Result E A × S) (f : A → Action S E B) {s' : S} {b : B}
    → ((λ (_ : S). p) >>= f) p.1 ≡ (ok b, s')
    → (a : A) × (s₁ : S) × (p ≡ (ok a, s₁)) × (f a s₁ ≡ (ok b, s'))
split_ok (ok a, s₁) f h = (a, s₁, refl, h)
split_ok (raise e, s₁) f h = cc

-- A sequence that returned: its first step returned, and the rest ran from there.
pub >>=-ok :
    {S E A B : Type 0} (m : Action S E A) (f : A → Action S E B) {s s' : S} {b : B}
    → (m >>= f) s ≡ (ok b, s')
    → (a : A) × (s₁ : S) × (m s ≡ (ok a, s₁)) × (f a s₁ ≡ (ok b, s'))
>>=-ok m f {s} h = split_ok (m s) f h

-- A step that returns, and what runs after it; and a step that raises.
pub >>=-run :
    {S E A B : Type 0} (m : Action S E A) (f : A → Action S E B) {s s₁ : S} {a : A}
    {r : Result E B × S}
    → m s ≡ (ok a, s₁)
    → f a s₁ ≡ r
    → (m >>= f) s ≡ r
>>=-run m f first rest = ground arith

pub >>=-raise :
    {S E A B : Type 0} (m : Action S E A) (f : A → Action S E B) {s s₁ : S} {e : E}
    → m s ≡ (raise e, s₁)
    → (m >>= f) s ≡ (raise e, s₁)
>>=-raise m f first = ground arith

-- To split on what an action did.
pub outcome :
    {S E A : Type 0} (p : Result E A × S)
    → ((a : A) × (s : S) × (p ≡ (ok a, s))) ⊎ ((e : E) × (s : S) × (p ≡ (raise e, s)))
outcome (ok a, s) = inl (a, s, refl)
outcome (raise e, s) = inr (e, s, refl)
