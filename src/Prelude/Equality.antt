-- ===== src/Prelude/Equality.antt =====
-- Go's `==` on comparable types, as an interface; strings and numbers (UUIDs, addresses) are
-- its first instances.
use Prim.Native.Nat.{ℕ, compare, Ordering}
use Prim.Native.String.{String}
use mathlib.Core.HLevel.{hedberg}
use mathlib.Core.Path.{◌≡◌, refl, sym, ◌∙◌}
use mathlib.Core.Logic.{◌↔◌}
use mathlib.Core.Bool.{Bool, true, false, false≢true}
use native.Mathlib.Omega.{arith}
use text.Mathlib.Text.{◌==◌ as str_eq}
use text.Mathlib.TextEquality.{eq_iff}

-- A test that is true of equal values alone.
pub record Comparable {ℓ} (K : Type ℓ) : Type ℓ where
  pub test : K → K → Bool
  pub test_iff : (x y : K) → (test x y ≡ true) ↔ (x ≡ y)

instance abbrev pub string_comparable : Comparable String
string_comparable = record { test = str_eq; test_iff = eq_iff }

abbrev nat_beq : ℕ → ℕ → Bool
nat_beq a b = elim (compare a b) [ Ordering.eq ↦ true | _ ↦ false ]

pub nat_beq_iff : (a b : ℕ) → (nat_beq a b ≡ true) ↔ (a ≡ b)
nat_beq_iff a b = ground arith

instance abbrev pub nat_comparable : Comparable ℕ
nat_comparable = record { test = nat_beq; test_iff = nat_beq_iff }

infix 50 ◌==◌
abbrev pub ◌==◌ {ℓ} : {K : Type ℓ} ⦃c : Comparable K⦄ → K → K → Bool
◌==◌ ⦃c⦄ x y = c.test x y

module _ {ℓ} {A : Type ℓ} ⦃e : Comparable A⦄ where
  pub beq_refl : (a : A) → (a == a) ≡ true
  beq_refl a = (e.test_iff a a).1 refl

  pub beq→eq : (a b : A) → (a == b) ≡ true → a ≡ b
  beq→eq a b = (e.test_iff a b).0

  decide_eq : (a b : A) (t : Bool) → (a == b) ≡ t → Dec (a ≡ b)
  decide_eq a b true h = yes (beq→eq a b h)
  decide_eq a b false h = no (λ p. false≢true (sym h ∙ (e.test_iff a b).1 p))

  -- A type with such a test is a set.
  pub Comparable-set : IsSet A
  Comparable-set = hedberg (λ a b. decide_eq a b (a == b) refl)

pub String_set : IsSet String
String_set = Comparable-set
