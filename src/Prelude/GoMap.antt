-- ===== src/Prelude/GoMap.antt =====
-- Go's built-in `map[K]V`: an association list whose order is the order of one iteration over the
-- map. Go leaves that order open, so every theorem about a map ranges over all of them.
pub mod Counting
use mathlib.Core.List.Memᴰ
use mathlib.Core.Bool.{Bool, true}
use mathlib.Core.List.{List, [], ◌∷◌, map, Memᴰ}
use mathlib.Core.Logic.{◌⊎◌, inl, inr}
use mathlib.Core.Option.{Option, none, some}
use mathlib.Core.Path.{◌≡◌, refl, sym}
use Prim.Native.Nat.{◌+◌, ◌≤◌}
use native.Mathlib.Omega.{arith}
use spiffe_spire.Prelude.Tests.{if◌then◌else◌, is_some, Bool-cases, Option-cases}
use spiffe_spire.Prelude.Equality.{Comparable, ◌==◌, beq→eq, beq_refl}
use spiffe_spire.Prelude.Lists.{length, IsNodup}

abbrev pub GoMap {ℓ} : Type ℓ → Type ℓ → Type ℓ
GoMap K V = List (K × V)

module _ {ℓ} {K V : Type ℓ} where
  abbrev pub keys : GoMap K V → List K
  keys = map λ e. e.0

  abbrev pub values : GoMap K V → List V
  values = map λ e. e.1

module _ {ℓ} {K V : Type ℓ} ⦃e : Comparable K⦄ where
  -- `m[k] = v` writes over the entry of `k`, or adds one.
  unfoldable pub insert : K → V → GoMap K V → GoMap K V
  insert k v [] = (k, v) ∷ []
  insert k v (entry ∷ rest) =
      let behind = insert k v rest in if entry.0 == k then (k, v) ∷ rest else entry ∷ behind

  -- `delete(m, k)`
  unfoldable pub delete : K → GoMap K V → GoMap K V
  delete k [] = []
  delete k ((j, v) ∷ m) = let rest = delete k m in if j == k then rest else (j, v) ∷ rest

  -- `v, found := m[k]`
  unfoldable pub lookup : K → GoMap K V → Option V
  lookup k [] = none
  lookup k (entry ∷ rest) =
      let behind = lookup k rest in if entry.0 == k then some entry.1 else behind

  abbrev pub has : K → GoMap K V → Bool
  has k m = is_some (lookup k m)

  pub lookup-delete :
      (k j : K) (m : GoMap K V) → lookup j (delete k m) ≡ (if k == j then none else lookup j m)
  unfolding lookup delete
  lookup-delete k j [] = ground arith
  lookup-delete k j (entry ∷ rest) =
      ground
        (arith, lookup-delete k j rest, e.test_iff k j, e.test_iff entry.0 k, e.test_iff entry.0 j)

  pub lookup-insert :
      (k j : K) (v : V) (m : GoMap K V)
      → lookup j (insert k v m) ≡ (if k == j then some v else lookup j m)
  unfolding lookup insert
  lookup-insert k j v [] = refl
  lookup-insert k j v (entry ∷ rest) =
      ground (
        arith,
        lookup-insert k j v rest,
        e.test_iff k j,
        e.test_iff entry.0 k,
        e.test_iff entry.0 j,
      )

  pub length-delete-le : (k : K) (m : GoMap K V) → length (delete k m) ≤ length m
  unfolding delete
  length-delete-le k [] = omega arith
  length-delete-le k ((j, v) ∷ m) = ground (arith, length-delete-le k m)

  -- Deleting a key that is there makes the map smaller.
  pub length-delete-has :
      (k : K) (m : GoMap K V) → has k m ≡ true → length (delete k m) + 1 ≤ length m
  unfolding lookup delete
  length-delete-has k [] h = cc
  length-delete-has k ((j, v) ∷ m) h = ground (arith, length-delete-le k m, length-delete-has k m)

  -- What a map holds it holds under one of its keys.
  pub lookup-keys :
      (k : K) (m : GoMap K V) {v : V} → lookup k m ≡ some v → Memᴰ k (keys m) × Memᴰ v (values m)
  unfolding lookup
  lookup-keys k [] h = cc
  lookup-keys k ((j, w) ∷ m) h = elim (Bool-cases (j == k)) [
    | inl hit ↦ (Memᴰ.head (sym (beq→eq j k hit)), Memᴰ.head (ground (arith, hit)))
    | inr miss ↦ let r = lookup-keys k m (rw miss at h) in (Memᴰ.tail r.0, Memᴰ.tail r.1)
  ]

  pub has_mem-keys : {k : K} (m : GoMap K V) → Memᴰ k (keys m) → has k m ≡ true
  unfolding lookup
  has_mem-keys [] h = absurd (Memᴰ.not-nil h)
  has_mem-keys {k} ((j, w) ∷ m) (Memᴰ.head p) = ground (arith, e.test_iff j k)
  has_mem-keys {k} ((j, w) ∷ m) (Memᴰ.tail p) = ground (arith, has_mem-keys m p)

  pub keys-insert-mem :
      (k j : K) (v : V) (m : GoMap K V) → Memᴰ j (keys (insert k v m)) → (j ≡ k) ⊎ Memᴰ j (keys m)
  unfolding insert
  keys-insert-mem k j v [] (Memᴰ.head p) = inl p
  keys-insert-mem k j v [] (Memᴰ.tail p) = absurd (Memᴰ.not-nil p)
  keys-insert-mem k j v ((i, w) ∷ m) h = elim (Bool-cases (i == k)) [
    | inl hit ↦ elim (Memᴰ.cases_cons (rw hit at h)) [ inl p ↦ inl p | inr p ↦ inr (Memᴰ.tail p) ]
    | inr miss ↦ elim (Memᴰ.cases_cons (rw miss at h)) [
      | inl p ↦ inr (Memᴰ.head p)
      | inr p ↦ elim (keys-insert-mem k j v m p) [ inl q ↦ inl q | inr q ↦ inr (Memᴰ.tail q) ]
    ]
  ]

  pub keys-insert-IsNodup :
      (k : K) (v : V) (m : GoMap K V) → IsNodup (keys m) → IsNodup (keys (insert k v m))
  unfolding insert
  keys-insert-IsNodup k v [] h = (Memᴰ.not-nil, tt)
  keys-insert-IsNodup k v ((i, w) ∷ m) h = elim (Bool-cases (i == k)) [
    | inl hit ↦ rw hit (rw (sym (beq→eq i k hit)) h)
    | inr miss ↦ rw miss (
      (λ p. elim (keys-insert-mem k i v m p) [
        | inl q ↦ ground (arith, e.test_iff i k)
        | inr q ↦ h.0 q
      ]),
      keys-insert-IsNodup k v m h.1,
    )
  ]

  pub length-insert-le : (k : K) (v : V) (m : GoMap K V) → length (insert k v m) ≤ length m + 1
  unfolding insert
  length-insert-le k v [] = omega arith
  length-insert-le k v ((j, w) ∷ m) = ground (arith, length-insert-le k v m)

  pub mem-keys_has : (k : K) (m : GoMap K V) → has k m ≡ true → Memᴰ k (keys m)
  mem-keys_has k m h = elim (Option-cases (lookup k m)) [
    | inl e ↦ cc
    | inr (v, e) ↦ (lookup-keys k m e).0
  ]

  keys-delete-mem : (k j : K) (m : GoMap K V) → Memᴰ j (keys (delete k m)) → Memᴰ j (keys m)
  unfolding delete
  keys-delete-mem k j [] h = h
  keys-delete-mem k j ((i, w) ∷ m) h = elim (Bool-cases (i == k)) [
    | inl hit ↦ Memᴰ.tail (keys-delete-mem k j m (rw hit at h))
    | inr miss ↦ elim (Memᴰ.cases_cons (rw miss at h)) [
      | inl p ↦ Memᴰ.head p
      | inr q ↦ Memᴰ.tail (keys-delete-mem k j m q)
    ]
  ]

  pub keys-delete-IsNodup : (k : K) (m : GoMap K V) → IsNodup (keys m) → IsNodup (keys (delete k m))
  unfolding delete
  keys-delete-IsNodup k [] h = tt
  keys-delete-IsNodup k ((i, w) ∷ m) h = elim (Bool-cases (i == k)) [
    | inl hit ↦ rw hit (keys-delete-IsNodup k m h.1)
    | inr miss ↦ rw miss ((λ p. h.0 (keys-delete-mem k i m p)), keys-delete-IsNodup k m h.1)
  ]

  -- Where the keys are distinct, every pair of the map is found under its key.
  pub mem-lookup :
      (m : GoMap K V) {p : K × V} → IsNodup (keys m) → Memᴰ p m → lookup p.0 m ≡ some p.1
  unfolding lookup
  mem-lookup [] d h = absurd (Memᴰ.not-nil h)
  mem-lookup ((i, w) ∷ m) {p} d (Memᴰ.head q) = rw (q, beq_refl i) refl
  mem-lookup ((i, w) ∷ m) {p} d (Memᴰ.tail q) = elim (Bool-cases (i == p.0)) [
    | inl hit ↦ absurd (d.0 (Memᴰ.cast (beq→eq i p.0 hit) (Memᴰ.map (λ (e : K × V). e.0) q)))
    | inr miss ↦ rw miss (mem-lookup m d.1 q)
  ]
