-- ===== src/Prelude/Action.antt =====
-- Calls that may fail and that change a state: Go's `(value, error)` results beside the state that
-- the callees keep. A failed call keeps what it did to the state before it failed.

use mathlib.Core.Path.{◌≡◌, refl, ap}
use mathlib.Core.Logic.{◌⊎◌, inl, inr}
use Prim.Native.String.{String, ◌++◌ as ◌<>◌}

pub data Result (A : Type 0) : Type 0 where
  ok : A → Result A
  failed : String → Result A

abbrev pub Action : Type 0 → Type 0 → Type 0
Action σ A = σ → Result A × σ

module _ {σ : Type 0} where
  abbrev pub return : {A : Type 0} → A → Action σ A
  return a s = (ok a, s)

  abbrev pub fail : {A : Type 0} → String → Action σ A
  fail message s = (failed message, s)

  abbrev pub then_with : {A B : Type 0} → Result A × σ → (A → Action σ B) → Result B × σ
  then_with (ok a, s) f = f a s
  then_with (failed message, s) f = (failed message, s)

  infixl 5 ◌>>=◌
  abbrev pub ◌>>=◌ : {A B : Type 0} → Action σ A → (A → Action σ B) → Action σ B
  (m >>= f) s = then_with (m s) f

  infixl 5 ◌>>◌
  abbrev pub ◌>>◌ : {A B : Type 0} → Action σ A → Action σ B → Action σ B
  (m >> n) s = then_with (m s) (λ _. n)

  -- `if err != nil { return errors.New(message) }`
  abbrev pub replace : {A : Type 0} → String → Result A × σ → Result A × σ
  replace message (ok a, s) = (ok a, s)
  replace message (failed _, s) = (failed message, s)

  abbrev pub or_error : {A : Type 0} → String → Action σ A → Action σ A
  or_error message m s = replace message (m s)

  -- `if err != nil { return fmt.Errorf(message + ": %v", err) }`
  abbrev pub extend : {A : Type 0} → String → Result A × σ → Result A × σ
  extend message (ok a, s) = (ok a, s)
  extend message (failed why, s) = (failed (message <> (": " <> why)), s)

  abbrev pub or_errorf : {A : Type 0} → String → Action σ A → Action σ A
  or_errorf message m s = extend message (m s)

  -- `_, _ = call()`: a failure is passed over.
  abbrev pub ignore : {A : Type 0} → Action σ A → σ → Result Unit × σ
  ignore m s = (ok tt, (m s).1)

  -- A result that depends on no state.
  abbrev pub lift : {A : Type 0} → Result A → Action σ A
  lift r s = (r, s)

pub Result-cases :
    {A : Type 0} (r : Result A) → ((a : A) × (r ≡ ok a)) ⊎ ((e : String) × (r ≡ failed e))
Result-cases (ok a) = inl (a, refl)
Result-cases (failed e) = inr (e, refl)

pub Call-cases :
    {σ A : Type 0} (r : Result A × σ)
    → ((a : A) × (t : σ) × (r ≡ (ok a, t))) ⊎ ((why : String) × (t : σ) × (r ≡ (failed why, t)))
Call-cases (ok a, t) = inl (a, t, refl)
Call-cases (failed why, t) = inr (why, t, refl)

pub ok-injective : {A : Type 0} (a b : A) → ok a ≡ ok b → a ≡ b
ok-injective a b e = cc e

pub answer-injective :
    {σ A : Type 0} (a b : A) (s t : σ)
    → ◌≡◌ {A = Result A × σ} (ok a, s) (ok b, t)
    → (a ≡ b) × (s ≡ t)
answer-injective {σ} {A} a b s t e =
    (ok-injective a b (ap (λ (r : Result A × σ). r.0) e), ap (λ (r : Result A × σ). r.1) e)

module _ {σ A : Type 0} where
  pub replace-ok :
      (message : String) (r : Result A × σ) (a : A) (s : σ)
      → replace message r ≡ (ok a, s)
      → r ≡ (ok a, s)
  replace-ok message (ok b, t) a s e = e
  replace-ok message (failed w, t) a s e = cc e

  pub extend-ok :
      (message : String) (r : Result A × σ) (a : A) (s : σ)
      → extend message r ≡ (ok a, s)
      → r ≡ (ok a, s)
  extend-ok message (ok b, t) a s e = e
  extend-ok message (failed w, t) a s e = cc e

  -- The words of an error change no state.
  pub extend-state : (message : String) (r : Result A × σ) → (extend message r).1 ≡ r.1
  extend-state message (ok a, t) = refl
  extend-state message (failed w, t) = refl
