-- ===== src/Tests/Subscribers.antt =====
-- Witnesses and tests on the index of the subscribers.
use mathlib.Core.List.Memᴰ
use spiffe_spire.Prelude.{
  ℕ, ◌<◌, ◌≡◌, ◌≢◌, refl, sym, false, Option, some, List, [], ◌∷◌, Memᴰ, arith, nat_comparable,
  string_comparable, length, IsNodup,
}
use spiffe_spire.Prelude.GoMap.{has, lookup, insert}
use spiffe_spire.Common.Selector.{Selector, Set, new_set_from_raw, size, array}
use spiffe_spire.Common.Selector.Text.{to_string}
use spiffe_spire.Common.Selector.Power.{
  power_set, combinations, combination, walk, format_uint, round, enable,
}
use spiffe_spire.Agent.Subscribers
use spiffe_spire.Agent.Subscribers.{
  Subscribers, new_subscribers, sids_at, get_sub_ids, get, remove, remove_uid,
}
use spiffe_spire.Agent.Subscribers.Index.{single_text}
use spiffe_spire.Agent.Subscribers.Matching.{IsIndexed, get-finds, add-IsIndexed}
use spiffe_spire.Agent.Subscribers.Removal.{without, remove_uid-without}
use spiffe_spire.Agent.Subscribers.Consistency.{
  IsConsistent, texts, add-IsConsistent, remove-IsConsistent,
}
use spiffe_spire.Tests.{uid, both, in_order, in_order-IsIteration}

abbrev only_uid : List Selector
only_uid = uid ∷ []

abbrev sets : List Set
sets = new_set_from_raw 0 only_uid ∷ []

abbrev one : Subscribers
one = record { sel_map = (single_text uid, 5 ∷ []) ∷ []; sid_map = (5, 11) ∷ [] }

abbrev two : Subscribers
two = record { sel_map = (single_text uid, 5 ∷ 6 ∷ []) ∷ []; sid_map = (5, 11) ∷ (6, 12) ∷ [] }

empty_wf : IsConsistent new_subscribers
unfolding lookup
empty_wf = record { once = λ text. tt; known = λ text x m. absurd (Memᴰ.not-nil m) }

power : power_set (new_set_from_raw 0 only_uid) ≡ some sets
unfolding power_set new_set_from_raw size insert combinations combination walk format_uint round
    enable array
power = refl

distinct : IsNodup (texts in_order 0 sets)
unfolding texts
distinct = (Memᴰ.not-nil, tt)

unknown : has 5 new_subscribers.sid_map ≡ false
unfolding lookup
unknown = refl

adding : Subscribers.add in_order 11 5 only_uid new_subscribers ≡ some one
unfolding Subscribers.add power_set new_set_from_raw size insert combinations combination walk
    format_uint round enable array lookup
adding = refl

adding_two : Subscribers.add in_order 12 6 only_uid one ≡ some two
unfolding Subscribers.add power_set new_set_from_raw size insert combinations combination walk
    format_uint round enable array lookup to_string
adding_two = refl

one_wf : IsConsistent one
one_wf =
    add-IsConsistent in_order 11 5 only_uid new_subscribers one sets power distinct unknown empty_wf
      adding

known_five : has 6 one.sid_map ≡ false
unfolding lookup
known_five = refl

two_wf : IsConsistent two
two_wf =
    add-IsConsistent in_order 12 6 only_uid one two sets power distinct known_five one_wf adding_two

small : length only_uid < 63
small = omega arith

small_both : length both < 63
small_both = omega arith

five_filed : IsIndexed 5 only_uid one
five_filed =
    add-IsIndexed in_order in_order-IsIteration 11 5 only_uid new_subscribers one small adding

six_filed : IsIndexed 6 only_uid two
six_filed = add-IsIndexed in_order in_order-IsIteration 12 6 only_uid one two small adding_two

six_there : lookup 6 two.sid_map ≡ some 12
unfolding lookup
six_there = refl

other : ◌≢◌ {A = ℕ} 6 5
other e = omega (arith, e)

once : IsNodup {A = ℕ} (5 ∷ 6 ∷ [])
once = (λ m. other (sym (Memᴰ.eq_of_singleton m)), (Memᴰ.not-nil, tt))

add-IsConsistent_example : IsConsistent one
add-IsConsistent_example =
    add-IsConsistent in_order 11 5 only_uid new_subscribers one sets power distinct unknown empty_wf
      adding

remove-IsConsistent_example : IsConsistent (remove 5 two)
remove-IsConsistent_example = remove-IsConsistent 5 two two_wf

remove_uid-without_example : remove_uid 5 2 0 (5 ∷ 6 ∷ []) (5 ∷ 6 ∷ []) ≡ without 5 (5 ∷ 6 ∷ [])
remove_uid-without_example = remove_uid-without 5 (5 ∷ 6 ∷ []) once

get-finds_example :
    (subs : List (Option ℕ)) × (get in_order both two ≡ some subs) × Memᴰ (some 12) subs
get-finds_example =
    get-finds in_order in_order-IsIteration both only_uid 6 12 two uid small_both six_filed
      six_there (Memᴰ.head refl) (Memᴰ.head refl)
