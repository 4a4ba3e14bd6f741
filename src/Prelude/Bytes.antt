-- ===== src/Prelude/Bytes.antt =====
-- Byte sequences.
use Prim.Native.Nat.{ℕ}
use mathlib.Core.Bool.{Bool, true, false}
use mathlib.Core.List.{List, [], ◌∷◌}
use mathlib.Core.Logic.{inl, inr}
use mathlib.Core.Path.{◌≡◌, refl}
use spiffe_spire.Prelude.Tests.{if◌then◌else◌, Bool-cases}
use spiffe_spire.Prelude.Equality.{◌==◌, nat_comparable, beq→eq, beq_refl}

-- `bytes.Compare(a, b) == 0`
unfoldable pub same_bytes : List ℕ → List ℕ → Bool
same_bytes [] [] = true
same_bytes [] (y ∷ ys) = false
same_bytes (x ∷ xs) [] = false
same_bytes (x ∷ xs) (y ∷ ys) = let rest = same_bytes xs ys in if x == y then rest else false

pub same_bytes-eq : (a b : List ℕ) → same_bytes a b ≡ true → a ≡ b
unfolding same_bytes
same_bytes-eq [] [] h = refl
same_bytes-eq [] (y ∷ ys) h = cc h
same_bytes-eq (x ∷ xs) [] h = cc h
same_bytes-eq (x ∷ xs) (y ∷ ys) h = elim (Bool-cases (x == y)) [
  | inl same ↦ rw (beq→eq x y same, same_bytes-eq xs ys (rw same at h)) refl
  | inr other ↦ cc (rw other at h)
]

pub same_bytes_refl : (a : List ℕ) → same_bytes a a ≡ true
unfolding same_bytes
same_bytes_refl [] = refl
same_bytes_refl (x ∷ xs) = rw (beq_refl x) (same_bytes_refl xs)
