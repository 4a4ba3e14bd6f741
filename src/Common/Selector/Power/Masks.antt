-- ===== src/Common/Selector/Power/Masks.antt =====
-- The counter of `powerSet` as a mask: the selectors that its binary digits enable.
use mathlib.Core.List.{append_assoc}
use native.Mathlib.Nat.{pow-suc}
use spiffe_spire.Prelude.{
  ℕ, zero, suc, ◌+◌, ◌/◌, ◌%◌, ◌^◌, ◌≤◌, ◌<◌, ◌≡◌, refl, sym, ◌∙◌, List, [], ◌∷◌, ◌++◌, ◌==◌,
  nat_comparable, if◌then◌else◌, ltb, Bool-cases, inl, inr, arith,
}
use spiffe_spire.Common.Selector.Power.{format_bits}

-- The elements of a list at the bits of `i` that are 1, the lowest bit first.
abbrev pub subset_of {ℓ} : {A : Type ℓ} → List A → ℕ → List A
subset_of [] i = []
subset_of (x ∷ xs) i = let rest = subset_of xs (i / 2) in if i % 2 == 1 then x ∷ rest else rest

pub subset_of-zero {ℓ} : {A : Type ℓ} (xs : List A) → subset_of xs 0 ≡ []
subset_of-zero [] = refl
subset_of-zero (x ∷ xs) = subset_of-zero xs

pub format_bits_acc :
    (fuel n : ℕ) (acc : List ℕ) → format_bits fuel n acc ≡ format_bits fuel n [] ++ acc
unfolding format_bits
format_bits_acc zero n acc = refl
format_bits_acc (suc fuel) n acc = elim (Bool-cases (ltb n 2)) [
  | inl small ↦ rw small refl
  | inr large ↦ rw large (
      format_bits_acc fuel (n / 2) ((b'0' + n % 2) ∷ acc)
      ∙ sym (
          rw (format_bits_acc fuel (n / 2) ((b'0' + n % 2) ∷ []))
            (append_assoc (format_bits fuel (n / 2) []) ((b'0' + n % 2) ∷ []) acc)))
]

-- From 2 on, the text ends in the lowest digit.
pub format_bits_last :
    (fuel n : ℕ)
    → 2 ≤ n
    → format_bits (suc fuel) n [] ≡ format_bits fuel (n / 2) [] ++ (b'0' + n % 2) ∷ []
unfolding format_bits
format_bits_last fuel n h = ground (arith, format_bits_acc fuel (n / 2) ((b'0' + n % 2) ∷ []))

pub half-lt-pow : (n k : ℕ) → n < 2 ^ suc k → n / 2 < 2 ^ k
half-lt-pow n k h = omega (arith, pow-suc 2 k)
