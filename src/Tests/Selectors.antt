-- ===== src/Tests/Selectors.antt =====
-- Witnesses and tests on sets of selectors.
use spiffe_spire.Prelude.{ℕ, ◌<◌, ◌≡◌, refl, true, some, List, [], ◌∷◌, Memᴰ, arith}
use spiffe_spire.Prelude.GoMap.{has, insert}
use spiffe_spire.Common.Selector.{
  Selector, selector_comparable, SelectorPtr, Set, IsWellFormed, new_set_from_raw, equal_set, size,
  array,
}
use spiffe_spire.Common.Selector.Members.{has-new_set_from_raw, new_set_from_raw-IsWellFormed}
use spiffe_spire.Common.Selector.Inclusion.{Includes, equal_set_iff}
use spiffe_spire.Common.Selector.Power.{
  power_set, combinations, combination, walk, format_uint, round, enable,
}
use spiffe_spire.Common.Selector.Power.Enumeration.{
  power_set_sound, power_set_complete, power_set-distinct,
}
use spiffe_spire.Tests.{uid, namespace, both}

abbrev pair : Set
pair = new_set_from_raw 0 both

abbrev single : Set
single = new_set_from_raw 7 (uid ∷ [])

abbrev pair_wf : IsWellFormed pair
pair_wf = new_set_from_raw-IsWellFormed 0 both

abbrev single_wf : IsWellFormed single
single_wf = new_set_from_raw-IsWellFormed 7 (uid ∷ [])

pair_small : size pair < 63
unfolding size new_set_from_raw insert
pair_small = omega arith

abbrev with_uid : Set
with_uid = new_set_from_raw 0 (uid ∷ [])

abbrev with_namespace : Set
with_namespace = new_set_from_raw 1 (namespace ∷ [])

abbrev pair_power : List Set
pair_power = with_uid ∷ with_namespace ∷ pair ∷ []

power_set-pair : power_set pair ≡ some pair_power
unfolding power_set new_set_from_raw size insert combinations combination walk format_uint round
    enable array
power_set-pair = refl

with_namespace_wf : IsWellFormed with_namespace
with_namespace_wf = new_set_from_raw-IsWellFormed 1 (namespace ∷ [])

with_namespace_inside : Includes pair with_namespace
with_namespace_inside k h =
    (has-new_set_from_raw 0 both k).1 (Memᴰ.tail ((has-new_set_from_raw 1 (namespace ∷ []) k).0 h))

has-namespace : has namespace with_namespace ≡ true
has-namespace = (has-new_set_from_raw 1 (namespace ∷ []) namespace).1 (Memᴰ.head refl)

power_set_sound_example :
    IsWellFormed pair × Includes pair pair × ((k : Selector) × (has k pair ≡ true))
power_set_sound_example =
    power_set_sound pair pair_wf pair_small pair_power power_set-pair pair
      (Memᴰ.tail (Memᴰ.tail (Memᴰ.head refl)))

power_set_complete_example :
    (sets : List Set) × (u : Set) × (power_set pair ≡ some sets)
    × Memᴰ u sets
    × (equal_set u with_namespace ≡ true)
power_set_complete_example =
    power_set_complete pair pair_wf pair_small with_namespace namespace with_namespace_wf
      with_namespace_inside has-namespace

equal_self : equal_set with_namespace with_namespace ≡ true
equal_self =
    (equal_set_iff with_namespace with_namespace with_namespace_wf with_namespace_wf).1
      ((λ k h. h), λ k h. h)

power_set-distinct_example : ◌≡◌ {A = ℕ} 1 1
power_set-distinct_example =
    power_set-distinct pair pair_wf pair_small pair_power power_set-pair 1 1 with_namespace
      with_namespace refl refl equal_self

-- A selector that was allocated apart from the set, equal to one of its selectors.
abbrev elsewhere : SelectorPtr
elsewhere = record { addr = 3; target = uid }

elsewhere_old : elsewhere.addr < 7
elsewhere_old = omega arith
