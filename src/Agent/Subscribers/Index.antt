-- ===== src/Agent/Subscribers/Index.antt =====
-- The index of the subscribers finds everyone who shares a selector, whatever the order in which
-- the maps are iterated over: a single selector has one text only.
use mathlib.Core.List.Memᴰ
use mathlib.Core.List.Perm
use mathlib.Core.List.{Perm, mem-singleton, mem-cons_self}
use spiffe_spire.Prelude.{
  ℕ, ◌<◌, ◌≡◌, refl, ap, ◌∙◌, String, true, some, List, [], ◌∷◌, Memᴰ, arith, nat_comparable,
  string_comparable, String_set, length,
}
use spiffe_spire.Prelude.GoMap.{has, insert, has_mem-keys}
use spiffe_spire.Common.Selector.{
  Selector, SelectorPtr, Set, selector_comparable, array, new_set, new_set_from_raw, size,
  equal_set, IsWellFormed,
}
use spiffe_spire.Common.Selector.Members.{
  has-new_set, has-new_set_from_raw, new_set-IsWellFormed, new_set_from_raw-IsWellFormed,
  size-new_set_from_raw-le,
}
use spiffe_spire.Common.Selector.Inclusion.{equal_set_iff}
use spiffe_spire.Common.Selector.Text.{to_string}
use spiffe_spire.Common.Selector.Power.{power_set}
use spiffe_spire.Common.Selector.Power.Enumeration.{power_set_complete, power_set_sound}
use spiffe_spire.Agent.Subscribers.{Iteration}

-- Go's promise on `range` over a map: each element once, in some order.
abbrev pub IsIteration : Iteration → Type 0
IsIteration iter = (i : ℕ) (l : List SelectorPtr) → Perm (iter i l) l

-- The text of a set that holds `k` alone.
abbrev pub single_text : Selector → String
single_text k = to_string (record { addr = 0; target = k } ∷ [])

to_string_single : (p : SelectorPtr) → to_string (p ∷ []) ≡ single_text p.target
unfolding to_string
to_string_single p = refl

SelectorPtr-set : IsSet SelectorPtr
SelectorPtr-set = hlevel String_set

perm_single : (l : List SelectorPtr) (p : SelectorPtr) → Perm l (p ∷ []) → l ≡ p ∷ []
perm_single [] p h = cc (Perm.length-eq h)
perm_single (x ∷ []) p h =
    ap (λ (y : SelectorPtr). y ∷ [])
      ((mem-singleton SelectorPtr-set).0 (Perm.subset h x mem-cons_self))
perm_single (x ∷ y ∷ l) p h = cc (Perm.length-eq h)

pub to_string-iter_single :
    (iter : Iteration)
    → IsIteration iter
    → (i : ℕ) (p : SelectorPtr) → to_string (iter i (p ∷ [])) ≡ single_text p.target
to_string-iter_single iter h i p = rw (perm_single _ p (h i (p ∷ []))) (to_string_single p)

single-array :
    (u : Set) (k : Selector)
    → IsWellFormed u
    → length u ≡ 1
    → ((j : Selector) → has j u ≡ true → j ≡ k)
    → (p : SelectorPtr) × (array u ≡ p ∷ []) × (p.target ≡ k)
unfolding array
single-array [] k w e h = absurd (omega arith)
single-array ((j, p) ∷ []) k w e h =
    (p, refl, w.keyed.0 ∙ h j (has_mem-keys ((j, p) ∷ []) (Memᴰ.head refl)))
single-array (a ∷ b ∷ u) k w e h = absurd (omega arith)

module _ (c : List Selector) (k : Selector) (small : length c < 63) (m : Memᴰ k c) where
  abbrev wanted : Set
  wanted = new_set (record { addr = 0; target = k } ∷ [])

  only_k : (j : Selector) → has j wanted ≡ true → j ≡ k
  only_k j h = Memᴰ.eq_of_singleton ((has-new_set (record { addr = 0; target = k } ∷ []) j).0 h)

  size-wanted : (u : Set) → equal_set u wanted ≡ true → length u ≡ 1
  unfolding equal_set size new_set insert
  size-wanted u h = ground (arith, h)

  -- Among the combinations of selectors that hold `k` is the one that holds nothing else.
  pub power_set-single :
      (sets : List Set) × (u : Set) × (p : SelectorPtr) × (power_set (new_set_from_raw 0 c)
        ≡ some sets)
      × Memᴰ u sets
      × (array u ≡ p ∷ [])
      × (p.target ≡ k)
  power_set-single = (found.0, found.1, shape.0, found.2, found.3, shape.1, shape.2)
    where
      fits : size (new_set_from_raw 0 c) < 63
      fits = omega (arith, size-new_set_from_raw-le 0 c)

      inside : (j : Selector) → has j wanted ≡ true → has j (new_set_from_raw 0 c) ≡ true
      inside j h = (has-new_set_from_raw 0 c j).1 (Memᴰ.cast (only_k j h) m)

      found :
          (sets : List Set) × (u : Set) × (power_set (new_set_from_raw 0 c) ≡ some sets)
          × Memᴰ u sets
          × (equal_set u wanted ≡ true)
      found =
          power_set_complete (new_set_from_raw 0 c) (new_set_from_raw-IsWellFormed 0 c) fits wanted
            k (new_set-IsWellFormed _) inside ((has-new_set _ k).1 (Memᴰ.head refl))

      well_formed : IsWellFormed found.1
      well_formed =
          (power_set_sound (new_set_from_raw 0 c) (new_set_from_raw-IsWellFormed 0 c) fits found.0
            found.2 found.1 found.3).0

      shape : (p : SelectorPtr) × (array found.1 ≡ p ∷ []) × (p.target ≡ k)
      shape = single-array found.1 k well_formed (size-wanted found.1 found.4) (λ j h.
          only_k j
            (((equal_set_iff found.1 wanted well_formed (new_set-IsWellFormed _)).0 found.4).1 j h))
