-- ===== src/Common/Exceptions.antt =====
-- Exceptions as values: an operation returns its result beside the state that it leaves.
use Prim.Native.Nat.{ℕ}
use Prim.Native.String.{String}
use mathlib.Core.Option.{Option}
use mathlib.Core.Path.{◌≡◌, refl, ap}
use mathlib.Core.Logic.{◌⊎◌, inl, inr}

-- An ApiError's status, code, message and `details.retry_after` (0 when the details lack it).
pub record ApiError : Type 0 where
  pub status : ℕ
  pub code : String
  pub message : String
  pub retry_after : Option ℕ

-- What a `throw` throws: an ApiError, or any other Error with its message.
pub data Failure : Type 0 where
  api : ApiError → Failure
  other : String → Failure

pub data Result {ℓ} (A : Type ℓ) : Type ℓ where
  ok : A → Result A
  err : Failure → Result A

-- A method over the state `S`: what it mutated before a throw stays mutated.
abbrev pub Action : Type 0 → Type 0 → Type 0
Action S A = S → Result A × S

abbrev pub and_then : {S A B : Type 0} → Result A × S → (A → Action S B) → Result B × S
and_then (ok a, s) f = f a s
and_then (err e, s) f = (err e, s)

infixl 5 ◌>>=◌ ◌>>◌
abbrev pub ◌>>=◌ : {S A B : Type 0} → Action S A → (A → Action S B) → Action S B
◌>>=◌ m f s = and_then (m s) f

abbrev pub ◌>>◌ : {S B : Type 0} → Action S (Unit {0}) → Action S B → Action S B
m >> k = m >>= λ _. k

abbrev pub return : {S A : Type 0} → A → Action S A
return a s = (ok a, s)

abbrev pub throw : {S A : Type 0} → Failure → Action S A
throw e s = (err e, s)

abbrev pub caught : {S A : Type 0} → Result A × S → (Failure → Action S A) → Result A × S
caught (ok a, s) f = (ok a, s)
caught (err e, s) f = f e s

-- `try { m } catch (e) { f(e) }`.
abbrev pub try : {S A : Type 0} → Action S A → (Failure → Action S A) → Action S A
try m f s = caught (m s) f

pub Result-cases {ℓ} :
    {A : Type ℓ} (r : Result A) → ((e : Failure) × (r ≡ err e)) ⊎ ((a : A) × (r ≡ ok a))
Result-cases (err e) = inl (e, refl)
Result-cases (ok a) = inr (a, refl)

-- A step of a chain, once its own result is known.
pub and_then_ok :
    {S A B : Type 0} (r : Result A × S) (f : A → Action S B) (a : A)
    → r.0 ≡ ok a
    → and_then r f ≡ f a r.1
and_then_ok (ok a', s) f a e = let same : a' ≡ a = cc in ap (λ x. f x s) same
and_then_ok (err e', s) f a e = cc

pub and_then_err :
    {S A B : Type 0} (r : Result A × S) (f : A → Action S B) (e : Failure)
    → r.0 ≡ err e
    → and_then r f ≡ (err e, r.1)
and_then_err (ok a, s) f e h = cc
and_then_err (err e', s) f e h = let same : e' ≡ e = cc in ap (λ x. (err x, s)) same

-- A failure that is only logged.
pub caught_quiet : {S : Type 0} (r : Result (Unit {0}) × S) → (caught r (λ e. return tt)).0 ≡ ok tt
caught_quiet (ok u, s) = refl
caught_quiet (err e, s) = refl

pub caught_state : {S : Type 0} (r : Result (Unit {0}) × S) → (caught r (λ e. return tt)).1 ≡ r.1
caught_state (ok u, s) = refl
caught_state (err e, s) = refl
