-- ===== src/Common/Selector/Inclusion.antt =====
-- Inclusion and equality of selector sets (pkg/common/selector/set.go, set_utils.go).
use mathlib.Core.List.Memᴰ
use spiffe_spire.Prelude.{
  ◌≤◌, ◌≡◌, refl, ◌↔◌, inl, inr, true, some, [], ◌∷◌, Memᴰ, arith, ◌==◌, beq→eq, beq_refl, ltb,
  length, All, Bool-cases, Option-cases, ltb→lt,
}
use spiffe_spire.Prelude.GoMap.{lookup, has, mem-keys_has, has_mem-keys}
use spiffe_spire.Prelude.GoMap.Counting.{Covers, Covers-length, Covers-sym}
use spiffe_spire.Common.Selector.Members.{Keyed}
use spiffe_spire.Common.Selector.{
  Selector, SelectorPtr, Set, selector_comparable, includes_all, includes_set, equal_set,
  IsWellFormed,
}

Keyed-lookup :
    (k : Selector) (s : Set) {p : SelectorPtr} → All Keyed s → lookup k s ≡ some p → p.target ≡ k
unfolding lookup
Keyed-lookup k [] h e = cc
Keyed-lookup k ((j, w) ∷ s) h e = elim (Bool-cases (j == k)) [
  | inl hit ↦ ground (arith, beq→eq j k hit)
  | inr miss ↦ Keyed-lookup k s h.1 (rw miss at e)
]

includes_all-Covers : (s1 s2 : Set) → includes_all s1 s2 ≡ true → Covers s1 s2
unfolding includes_all
includes_all-Covers s1 [] h k m = absurd (Memᴰ.not-nil m)
includes_all-Covers s1 ((key2, sel2) ∷ s2) h k (Memᴰ.head p) = rw p (ground arith)
includes_all-Covers s1 ((key2, sel2) ∷ s2) h k (Memᴰ.tail m) =
    includes_all-Covers s1 s2 (ground arith) k m

Covers-includes_all :
    (s1 s2 : Set) → All Keyed s1 → All Keyed s2 → Covers s1 s2 → includes_all s1 s2 ≡ true
unfolding includes_all
Covers-includes_all s1 [] k1 k2 h = refl
Covers-includes_all s1 ((key2, sel2) ∷ s2) k1 k2 h = elim (Option-cases (lookup key2 s1)) [
  | inl missing ↦ ground (arith, h key2 (Memᴰ.head refl))
  | inr (sel1, found) ↦
      rw (found, includes_all)
        (rw (k2.0, Keyed-lookup key2 s1 k1 found, beq_refl key2)
          (Covers-includes_all s1 s2 k1 k2.1 (λ k m. h k (Memᴰ.tail m))))
]

Covers-includes_set :
    (s1 s2 : Set) → IsWellFormed s1 → IsWellFormed s2 → Covers s1 s2 → includes_set s1 s2 ≡ true
unfolding includes_set
Covers-includes_set s1 s2 w1 w2 h = elim (Bool-cases (ltb (length s1) (length s2))) [
  | inl larger ↦ absurd (omega (arith, ltb→lt _ _ larger, Covers-length s1 s2 w2.nodup h))
  | inr fits ↦ rw fits (Covers-includes_all s1 s2 w1.keyed w2.keyed h)
]

includes_set-Covers : (s1 s2 : Set) → includes_set s1 s2 ≡ true → Covers s1 s2
unfolding includes_set
includes_set-Covers s1 s2 h = includes_all-Covers s1 s2 (ground arith)

abbrev pub Includes : Set → Set → Type 0
Includes s1 s2 = (k : Selector) → has k s2 ≡ true → has k s1 ≡ true

-- On well-formed sets `IncludesSet` answers true exactly when the first holds every selector of
-- the second; its early answer on sizes loses nothing.
pub includes_set_iff :
    (s1 s2 : Set) → IsWellFormed s1 → IsWellFormed s2 → (includes_set s1 s2 ≡ true) ↔ Includes s1 s2
includes_set_iff s1 s2 w1 w2 = (
  λ h k m. includes_set-Covers s1 s2 h k (mem-keys_has k s2 m),
  λ h. Covers-includes_set s1 s2 w1 w2 (λ k m. h k (has_mem-keys s2 m)),
)

Includes-Covers : (s1 s2 : Set) → Includes s1 s2 → Covers s1 s2
Includes-Covers s1 s2 h k m = h k (has_mem-keys s2 m)

equal_set-Includes :
    (s1 s2 : Set) → IsWellFormed s2 → equal_set s1 s2 ≡ true → Includes s1 s2 × Includes s2 s1
unfolding equal_set
equal_set-Includes s1 s2 w2 h = (
  λ k m. covers k (mem-keys_has k s2 m),
  λ k m. has_mem-keys s2 (Covers-sym s1 s2 w2.nodup same_size covers k m),
)
  where
    covers : Covers s1 s2
    covers = includes_set-Covers s1 s2 (ground arith)

    same_size : length s1 ≤ length s2
    same_size = ground arith

Includes-equal_set :
    (s1 s2 : Set)
    → IsWellFormed s1
    → IsWellFormed s2
    → Includes s1 s2
    → Includes s2 s1
    → equal_set s1 s2 ≡ true
unfolding equal_set
Includes-equal_set s1 s2 w1 w2 h g =
    let smaller = Covers-length s1 s2 w2.nodup (Includes-Covers s1 s2 h) in
    let larger = Covers-length s2 s1 w1.nodup (Includes-Covers s2 s1 g) in
    ground (arith, smaller, larger, Covers-includes_set s1 s2 w1 w2 (Includes-Covers s1 s2 h))

-- On well-formed sets `EqualSet` answers true exactly when the two hold the same selectors.
pub equal_set_iff :
    (s1 s2 : Set)
    → IsWellFormed s1
    → IsWellFormed s2
    → (equal_set s1 s2 ≡ true) ↔ (Includes s1 s2 × Includes s2 s1)
equal_set_iff s1 s2 w1 w2 =
    (equal_set-Includes s1 s2 w2, λ h. Includes-equal_set s1 s2 w1 w2 h.0 h.1)
