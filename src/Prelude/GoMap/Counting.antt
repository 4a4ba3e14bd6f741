-- ===== src/Prelude/GoMap/Counting.antt =====
-- Counting keys: a map with fewer entries cannot hold all the keys of a larger one.
use mathlib.Core.List.Memᴰ
use mathlib.Core.Bool.{true}
use mathlib.Core.List.{[], ◌∷◌, Memᴰ}
use mathlib.Core.Logic.{inl, inr}
use mathlib.Core.Path.{◌≡◌, refl}
use Prim.Native.Nat.{◌≤◌}
use native.Mathlib.Omega.{arith}
use spiffe_spire.Prelude.Tests.{Bool-cases}
use spiffe_spire.Prelude.Equality.{Comparable, ◌==◌, beq→eq}
use spiffe_spire.Prelude.Lists.{length, IsNodup}
use spiffe_spire.Prelude.GoMap.{GoMap, keys, has, lookup, delete, lookup-delete, length-delete-has}

module _ {ℓ} {K V W : Type ℓ} ⦃e : Comparable K⦄ where
  -- Every key of the second map is one of the first.
  abbrev pub Covers : GoMap K V → GoMap K W → Type ℓ
  Covers s t = (k : K) → Memᴰ k (keys t) → has k s ≡ true

  Covers-delete :
      (s : GoMap K V) (t : GoMap K W) (j : K)
      → ¬ Memᴰ j (keys t)
      → Covers s t
      → Covers (delete j s) t
  Covers-delete s t j fresh h k m = elim (Bool-cases (j == k)) [
    | inl same ↦ absurd (fresh (Memᴰ.cast (beq→eq j k same) m))
    | inr other ↦ rw (lookup-delete j k s, other) (h k m)
  ]

  pub Covers-length :
      (s : GoMap K V) (t : GoMap K W) → IsNodup (keys t) → Covers s t → length t ≤ length s
  Covers-length s [] d h = omega arith
  Covers-length s ((j, w) ∷ t) d h =
      let shorter =
        Covers-length (delete j s) t d.1 (Covers-delete s t j d.0 (λ k m. h k (Memᴰ.tail m))) in
      omega (arith, shorter, length-delete-has j s (h j (Memᴰ.head refl)))

module _ {ℓ} {K V W : Type ℓ} ⦃e : Comparable K⦄ where
  -- Of two maps of one size, if the first covers the second, the second covers the first.
  pub Covers-sym :
      (s : GoMap K V) (t : GoMap K W)
      → IsNodup (keys t)
      → length s ≤ length t
      → Covers s t
      → (k : K) → has k s ≡ true
      → Memᴰ k (keys t)
  unfolding lookup
  Covers-sym [] [] d le h k hk = cc
  Covers-sym (x ∷ s) [] d le h k hk = absurd (omega arith)
  Covers-sym s ((j, w) ∷ t) d le h k hk = elim (Bool-cases (j == k)) [
    | inl same ↦ Memᴰ.head (ground (arith, e.test_iff j k))
    | inr other ↦ Memᴰ.tail (
        Covers-sym (delete j s) t d.1 (omega (arith, length-delete-has j s (h j (Memᴰ.head refl))))
          (Covers-delete s t j d.0 (λ i m. h i (Memᴰ.tail m))) k
          (rw (lookup-delete j k s, other) hk))
  ]
