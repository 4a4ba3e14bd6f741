-- ===== src/Common/Selector/Power/Subsets.antt =====
-- The masks of a list and the subsets that they select determine one another.
use mathlib.Core.List.Memᴰ
use native.Mathlib.Nat.{pow-suc}
use spiffe_spire.Prelude.{
  ℕ, ◌+◌, ◌*◌, ◌/◌, ◌%◌, ◌^◌, ◌<◌, ◌≡◌, refl, sym, ◌↔◌, List, [], ◌∷◌, Memᴰ, ◌==◌, nat_comparable,
  if◌then◌else◌, length, Bool, Bool-cases, inl, inr, arith, true, false, IsNodup,
}
use spiffe_spire.Common.Selector.{Selector, SelectorPtr, targets}
use spiffe_spire.Common.Selector.Power.Masks.{subset_of, half-lt-pow}

abbrev pub mask : List SelectorPtr → (Selector → Bool) → ℕ
mask [] f = 0
mask (x ∷ xs) f = (if f x.target then 1 else 0) + 2 * mask xs f

pub mask-lt-pow : (xs : List SelectorPtr) (f : Selector → Bool) → mask xs f < 2 ^ length xs
mask-lt-pow [] f = omega arith
mask-lt-pow (x ∷ xs) f = ground (arith, mask-lt-pow xs f, pow-suc 2 (length xs))

subset_of-mask_cons :
    (x : SelectorPtr) (xs : List SelectorPtr) (b : Bool) (m : ℕ)
    → subset_of (x ∷ xs) ((if b then 1 else 0) + 2 * m)
      ≡ (if b then x ∷ subset_of xs m else subset_of xs m)
subset_of-mask_cons x xs true m = rw (odd, half) refl
  where
    odd : (1 + 2 * m) % 2 ≡ 1
    odd = omega arith

    half : (1 + 2 * m) / 2 ≡ m
    half = omega arith
subset_of-mask_cons x xs false m = rw (even, half) refl
  where
    even : (0 + 2 * m) % 2 ≡ 0
    even = omega arith

    half : (0 + 2 * m) / 2 ≡ m
    half = omega arith

-- The mask of a test selects what passes it.
pub mem-subset_of_mask :
    (xs : List SelectorPtr) (f : Selector → Bool) (k : Selector)
    → Memᴰ k (targets xs)
    → f k ≡ true
    → Memᴰ k (targets (subset_of xs (mask xs f)))
mem-subset_of_mask [] f k m h = absurd (Memᴰ.not-nil m)
mem-subset_of_mask (x ∷ xs) f k (Memᴰ.head p) h =
    rw (subset_of-mask_cons x xs (f x.target) (mask xs f), ← p, h) (Memᴰ.head refl)
mem-subset_of_mask (x ∷ xs) f k (Memᴰ.tail m) h =
    rw (subset_of-mask_cons x xs (f x.target) (mask xs f)) (elim (Bool-cases (f x.target)) [
      | inl on ↦ rw on (Memᴰ.tail (mem-subset_of_mask xs f k m h))
      | inr off ↦ rw off (mem-subset_of_mask xs f k m h)
    ])

pub subset_of-mask-passes :
    (xs : List SelectorPtr) (f : Selector → Bool) (k : Selector)
    → Memᴰ k (targets (subset_of xs (mask xs f)))
    → f k ≡ true
subset_of-mask-passes [] f k m = absurd (Memᴰ.not-nil m)
subset_of-mask-passes (x ∷ xs) f k m = elim (Bool-cases (f x.target)) [
  | inl on ↦
      elim (Memᴰ.cases_cons (rw (subset_of-mask_cons x xs (f x.target) (mask xs f), on) at m)) [
        | inl p ↦ rw p on
        | inr m' ↦ subset_of-mask-passes xs f k m'
      ]
  | inr off ↦
      subset_of-mask-passes xs f k
        (rw (subset_of-mask_cons x xs (f x.target) (mask xs f), off) at m)
]

pub mask-pos :
    (xs : List SelectorPtr) (f : Selector → Bool) (k : Selector)
    → Memᴰ k (targets xs)
    → f k ≡ true
    → 0 < mask xs f
mask-pos [] f k m h = absurd (Memᴰ.not-nil m)
mask-pos (x ∷ xs) f k (Memᴰ.head p) h = rw (← p, h) (omega arith)
mask-pos (x ∷ xs) f k (Memᴰ.tail m) h = omega (arith, mask-pos xs f k m h)

pub subset_of-mem :
    (xs : List SelectorPtr) (i : ℕ) (k : Selector)
    → Memᴰ k (targets (subset_of xs i))
    → Memᴰ k (targets xs)
subset_of-mem [] i k m = m
subset_of-mem (x ∷ xs) i k m = elim (Bool-cases (i % 2 == 1)) [
  | inl odd ↦ elim (Memᴰ.cases_cons (rw odd at m)) [
    | inl p ↦ Memᴰ.head p
    | inr m' ↦ Memᴰ.tail (subset_of-mem xs (i / 2) k m')
  ]
  | inr even ↦ Memᴰ.tail (subset_of-mem xs (i / 2) k (rw even at m))
]

-- A positive mask within range selects something.
pub subset_of-ne_nil :
    (xs : List SelectorPtr) (i : ℕ)
    → 0 < i
    → i < 2 ^ length xs
    → (k : Selector) × Memᴰ k (targets (subset_of xs i))
subset_of-ne_nil [] i pos lt = absurd (omega arith)
subset_of-ne_nil (x ∷ xs) i pos lt = elim (Bool-cases (i % 2 == 1)) [
  | inl odd ↦ (x.target, rw odd (Memᴰ.head refl))
  | inr even ↦
      let r = subset_of-ne_nil xs (i / 2) (ground arith) (half-lt-pow i (length xs) lt) in
      (r.0, rw even r.1)
]

abbrev pub Selects : List SelectorPtr → ℕ → (Selector → Bool) → Type 0
Selects xs i f =
    (k : Selector) → Memᴰ k (targets xs) → (f k ≡ true) ↔ Memᴰ k (targets (subset_of xs i))

Selects-odd :
    (x : SelectorPtr) (xs : List SelectorPtr) (i : ℕ) (f : Selector → Bool)
    → ¬ Memᴰ x.target (targets xs)
    → (i % 2 == 1) ≡ true
    → Selects (x ∷ xs) i f
    → (f x.target ≡ true) × Selects xs (i / 2) f
Selects-odd x xs i f fresh odd h = (
  (h x.target (Memᴰ.head refl)).1 (rw odd (Memᴰ.head refl)),
  λ k m. (
    λ on. elim (Memᴰ.cases_cons (rw odd at ((h k (Memᴰ.tail m)).0 on))) [
      | inl p ↦ absurd (fresh (Memᴰ.cast (sym p) m))
      | inr q ↦ q
    ],
    λ q. (h k (Memᴰ.tail m)).1 (rw odd (Memᴰ.tail q)),
  ),
)

Selects-even :
    (x : SelectorPtr) (xs : List SelectorPtr) (i : ℕ) (f : Selector → Bool)
    → ¬ Memᴰ x.target (targets xs)
    → (i % 2 == 1) ≡ false
    → Selects (x ∷ xs) i f
    → (f x.target ≡ false) × Selects xs (i / 2) f
Selects-even x xs i f fresh even h = (
  elim (Bool-cases (f x.target)) [
    | inl on ↦ absurd (
        fresh (subset_of-mem xs (i / 2) x.target (rw even at ((h x.target (Memᴰ.head refl)).0 on))))
    | inr off ↦ off
  ],
  λ k m. (λ on. rw even at ((h k (Memᴰ.tail m)).0 on), λ q. (h k (Memᴰ.tail m)).1 (rw even q)),
)

-- A mask is determined by what it selects, if the selectors are distinct.
pub mask-subset_of :
    (xs : List SelectorPtr) (i : ℕ) (f : Selector → Bool)
    → IsNodup (targets xs)
    → i < 2 ^ length xs
    → Selects xs i f
    → mask xs f ≡ i
mask-subset_of [] i f d lt h = omega arith
mask-subset_of (x ∷ xs) i f d lt h = elim (Bool-cases (i % 2 == 1)) [
  | inl odd ↦
      let (on, rest) = Selects-odd x xs i f d.0 odd h in
      rw on (ground (arith, mask-subset_of xs (i / 2) f d.1 (half-lt-pow i (length xs) lt) rest))
  | inr even ↦
      let (off, rest) = Selects-even x xs i f d.0 even h in
      rw off (ground (arith, mask-subset_of xs (i / 2) f d.1 (half-lt-pow i (length xs) lt) rest))
]
