-- ===== src/Common/Selector/Power/Enumeration.antt =====
-- What `powerSet` puts on its channel, for a set of fewer than 63 selectors.
use mathlib.Core.List.Memᴰ
use mathlib.Core.Option.{some-injective}
use native.Mathlib.Nat.{pow-suc}
use native.Mathlib.Decide.{ℕ_discrete}
use spiffe_spire.Prelude.{
  ℕ, zero, suc, ◌+◌, ◌-◌, ◌^◌, ◌≤◌, ◌<◌, ◌≡◌, refl, sym, ap, ◌∙◌, List, [], ◌∷◌, map, Memᴰ, some,
  get_elem?, ltb, nat_comparable, length, arith, true, All,
}
use spiffe_spire.Prelude.GoMap.{keys, values, has, has_mem-keys, mem-keys_has}
use spiffe_spire.Common.Selector.{
  Selector, SelectorPtr, Set, selector_comparable, targets, array, size, new_set, equal_set,
  IsWellFormed,
}
use spiffe_spire.Common.Selector.Members.{Keyed, has-new_set, new_set-IsWellFormed}
use spiffe_spire.Common.Selector.Inclusion.{Includes, equal_set_iff}
use spiffe_spire.Common.Selector.Power.{combinations, power_set}
use spiffe_spire.Common.Selector.Power.Masks.{subset_of}
use spiffe_spire.Common.Selector.Power.Round.{combination-subset_of}
use spiffe_spire.Common.Selector.Power.Subsets.{
  mask, mask-lt-pow, mask-pos, mem-subset_of_mask, subset_of-mask-passes, subset_of-mem,
  subset_of-ne_nil, mask-subset_of, Selects,
}

-- The counters `i`, `i + 1`, …
abbrev pub counters : ℕ → ℕ → List ℕ
counters i zero = []
counters i (suc n) = i ∷ counters (i + 1) n

abbrev pub at : List SelectorPtr → ℕ → Set
at sarr i = new_set (subset_of sarr i)

combinations_lem :
    (sarr : List SelectorPtr) (left i : ℕ)
    → 0 < i
    → i + left ≤ 2 ^ length sarr
    → combinations sarr left i ≡ some (map (at sarr) (counters i left))
unfolding combinations
combinations_lem sarr zero i pos le = refl
combinations_lem sarr (suc left) i pos le =
    rw (combination-subset_of sarr i pos (omega arith), combinations)
      (rw (combinations_lem sarr left (i + 1) (omega arith) (omega arith)) refl)

length-values : (s : Set) → length (values s) ≡ length s
length-values [] = refl
length-values (e ∷ s) = ap suc (length-values s)

length-array : (s : Set) → length (array s) ≡ size s
unfolding array size
length-array s = length-values s

pow_pos : (k : ℕ) → 0 < 2 ^ k
pow_pos zero = omega arith
pow_pos (suc k) = omega (arith, pow_pos k, pow-suc 2 k)

-- The channel yields the sets of the masks 1, …, 2^n - 1, in this order.
pub power_set_lem :
    (s : Set) → size s < 63 → power_set s ≡ some (map (at (array s)) (counters 1 (2 ^ size s - 1)))
unfolding power_set array size
power_set_lem s small = rw small_test (
    combinations_lem (values s) (2 ^ length s - 1) 1 (omega arith)
      (rw (length-values s) (omega (arith, pow_pos (length s)))))
  where
    small_test : ltb (length s) 63 ≡ true
    small_test = ground arith

pub targets-array : (s : Set) → All Keyed s → targets (array s) ≡ keys s
unfolding array
targets-array [] h = refl
targets-array ((k, p) ∷ s) h = rw (h.0, targets-array s h.1) refl

mem-counters : (j i n : ℕ) → i ≤ j → j < i + n → Memᴰ j (counters i n)
mem-counters j i zero le lt = absurd (omega arith)
mem-counters j i (suc n) le lt = elim (ℕ_discrete j i) [
  | yes same ↦ Memᴰ.head same
  | no other ↦ Memᴰ.tail (mem-counters j (i + 1) n (omega arith) (omega arith))
]

counters_bounds : (j i n : ℕ) → Memᴰ j (counters i n) → (i ≤ j) × (j < i + n)
counters_bounds j i zero m = absurd (Memᴰ.not-nil m)
counters_bounds j i (suc n) (Memᴰ.head p) = omega arith
counters_bounds j i (suc n) (Memᴰ.tail m) = omega (arith, counters_bounds j (i + 1) n m)

get_elem?-counters :
    (f : ℕ → Set) (p i n : ℕ) {t : Set}
    → get_elem? (map f (counters i n)) p ≡ some t
    → (t ≡ f (i + p)) × (p < n)
get_elem?-counters f p i zero h = cc
get_elem?-counters f zero i (suc n) h =
    (sym (some-injective _ _ h) ∙ ap f (omega arith), omega arith)
get_elem?-counters f (suc p) i (suc n) h =
    let r = get_elem?-counters f p (i + 1) n h in (r.0 ∙ ap f (omega arith), omega (arith, r.1))

module _ (s : Set) (w : IsWellFormed s) (small : size s < 63) where
  in_range : (i : ℕ) → i < 1 + (2 ^ size s - 1) → i < 2 ^ length (array s)
  in_range i h = rw (length-array s) (omega (arith, pow_pos (size s)))

  -- Each set on the channel is well formed, holds some selector, and holds selectors of `s` alone.
  pub power_set_sound :
      (sets : List Set)
      → power_set s ≡ some sets
      → (t : Set) → Memᴰ t sets
      → IsWellFormed t × Includes s t × ((k : Selector) × (has k t ≡ true))
  power_set_sound sets e t m = rw (← r.2) (
    new_set-IsWellFormed (subset_of (array s) r.0),
    λ k h. has_mem-keys s (
        rw (targets-array s w.keyed) at
          (subset_of-mem (array s) r.0 k ((has-new_set (subset_of (array s) r.0) k).0 h))),
    (selected.0, (has-new_set (subset_of (array s) r.0) selected.0).1 selected.1),
  )
    where
      here : Memᴰ t (map (at (array s)) (counters 1 (2 ^ size s - 1)))
      here = rw (some-injective _ _ (sym e ∙ power_set_lem s small)) at m

      r : (i : ℕ) × Memᴰ i (counters 1 (2 ^ size s - 1)) × (at (array s) i ≡ t)
      r = Memᴰ.of_map (at (array s)) _ here

      bounds : (1 ≤ r.0) × (r.0 < 1 + (2 ^ size s - 1))
      bounds = counters_bounds r.0 1 (2 ^ size s - 1) r.1

      selected : (k : Selector) × Memᴰ k (targets (subset_of (array s) r.0))
      selected = subset_of-ne_nil (array s) r.0 bounds.0 (in_range r.0 bounds.1)

  -- Where `s` is a well-formed set of fewer than 63 selectors, `power_set` returns, and each
  -- well-formed set of selectors of `s` that holds some selector equals one of the sets on the
  -- channel.
  pub power_set_complete :
      (t : Set) (k : Selector)
      → IsWellFormed t
      → Includes s t
      → has k t ≡ true
      → (sets : List Set) × (u : Set) × (power_set s ≡ some sets)
        × Memᴰ u sets
        × (equal_set u t ≡ true)
  power_set_complete t k wt inside hk = (
    _,
    at (array s) i,
    power_set_lem s small,
    Memᴰ.map (at (array s)) (mem-counters i 1 (2 ^ size s - 1) pos below),
    (equal_set_iff (at (array s) i) t (new_set-IsWellFormed _) wt).1 (back, forth),
  )
    where
      i : ℕ
      i = mask (array s) (λ j. has j t)

      in_array : (j : Selector) → has j t ≡ true → Memᴰ j (targets (array s))
      in_array j h = rw (targets-array s w.keyed) (mem-keys_has j s (inside j h))

      pos : 1 ≤ i
      pos = mask-pos (array s) (λ j. has j t) k (in_array k hk) hk

      below : i < 1 + (2 ^ size s - 1)
      below = omega (
        arith,
        mask-lt-pow (array s) (λ (j : Selector). has j t),
        ap (λ (n : ℕ). 2 ^ n) (length-array s),
      )

      back : Includes (at (array s) i) t
      back j h =
          (has-new_set _ j).1 (mem-subset_of_mask (array s) (λ l. has l t) j (in_array j h) h)

      forth : Includes t (at (array s) i)
      forth j h = subset_of-mask-passes (array s) (λ l. has l t) j ((has-new_set _ j).0 h)

  Selects-at :
      (p : ℕ) (t : Set)
      → Includes (at (array s) p) t
      → Includes t (at (array s) p)
      → Selects (array s) p (λ k. has k t)
  Selects-at p t h g k m = (
    λ on. (has-new_set (subset_of (array s) p) k).0 (h k on),
    λ q. g k ((has-new_set (subset_of (array s) p) k).1 q),
  )

  -- No set comes twice: equal sets on the channel stand at one position.
  pub power_set-distinct :
      (sets : List Set)
      → power_set s ≡ some sets
      → (p q : ℕ) (t u : Set) → get_elem? sets p ≡ some t
      → get_elem? sets q ≡ some u
      → equal_set t u ≡ true
      → p ≡ q
  power_set-distinct sets e p q t u hp hq same =
      omega (arith, mask_of p t hp (λ k h. h) (λ k h. h), mask_of q u hq both.0 both.1)
    where
      place :
          (r : ℕ) (v : Set)
          → get_elem? sets r ≡ some v
          → (v ≡ at (array s) (1 + r)) × (r < 2 ^ size s - 1)
      place r v h =
          get_elem?-counters (at (array s)) r 1 (2 ^ size s - 1)
            (rw (some-injective _ _ (sym e ∙ power_set_lem s small)) at h)

      well_formed : (r : ℕ) (v : Set) → get_elem? sets r ≡ some v → IsWellFormed v
      well_formed r v h = rw (place r v h).0 (new_set-IsWellFormed _)

      both : Includes t u × Includes u t
      both = (equal_set_iff t u (well_formed p t hp) (well_formed q u hq)).0 same

      mask_of :
          (r : ℕ) (v : Set)
          → get_elem? sets r ≡ some v
          → Includes t v
          → Includes v t
          → mask (array s) (λ k. has k t) ≡ 1 + r
      mask_of r v h into back =
          mask-subset_of (array s) (1 + r) (λ k. has k t) (rw (targets-array s w.keyed) w.nodup)
            (in_range (1 + r) (omega (arith, (place r v h).1)))
            (Selects-at (1 + r) t (rw (← (place r v h).0) back) (rw (← (place r v h).0) into))
