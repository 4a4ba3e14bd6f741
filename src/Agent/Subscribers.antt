-- ===== src/Agent/Subscribers.antt =====
-- pkg/agent/manager/cache/subscriber.go: the subscribers of the cache, indexed by the texts of all
-- the combinations of their selectors.
-- A `*subscriber` is an address. `iter` gives, for the i-th call of `String` that an operation makes,
-- the order in which that call iterates over its set; Go leaves the order open, so each
-- operation has an `iter` of its own. The UUIDs are numbers. `none` stands for a call that does not
-- return: a panic, or a set of 63 selectors or more (`power_set`).
-- Each operation runs under the mutex of `subscribers`, so it is one step.
pub mod Index
pub mod Dedupe
pub mod Matching
pub mod Removal
pub mod Consistency
pub mod Pointers
use spiffe_spire.Prelude.{
  ℕ, zero, suc, ◌+◌, ◌-◌, ◌≡◌, refl, String, Bool, true, false, Option, none, some, List, [], ◌∷◌,
  ◌++◌, map, ◌==◌, nat_comparable, string_comparable, if◌then◌else◌, length, get_elem?, take, ◌>>=◌,
}
use spiffe_spire.Prelude.GoMap.{GoMap, keys, lookup, insert, delete}
use spiffe_spire.Common.Selector.{Selector, SelectorPtr, Set, array, new_set_from_raw}
use spiffe_spire.Common.Selector.Text.{to_string}
use spiffe_spire.Common.Selector.Power.{power_set}

abbrev pub Iteration : Type 0
Iteration = ℕ → List SelectorPtr → List SelectorPtr

pub record Subscribers : Type 0 where
  pub sel_map : GoMap String (List ℕ)
  pub sid_map : GoMap ℕ ℕ

abbrev pub new_subscribers : Subscribers
new_subscribers = record { sel_map = []; sid_map = [] }

-- `m[k]` of a map of slices: a missing key gives the nil slice.
abbrev or_nil : Option (List ℕ) → List ℕ
or_nil none = []
or_nil (some sids) = sids

abbrev pub sids_at : String → GoMap String (List ℕ) → List ℕ
sids_at sel m = or_nil (lookup sel m)

-- The loop of `add` over the combinations; `i` counts its rounds.
unfoldable pub index_sets :
    Iteration → ℕ → List Set → ℕ → GoMap String (List ℕ) → GoMap String (List ℕ)
index_sets iter i [] sid m = m
index_sets iter i (sel ∷ rest) sid m =
    let sel_str = to_string (iter i (array sel)) in
    index_sets iter (i + 1) rest sid (insert sel_str (sids_at sel_str m ++ sid ∷ []) m)

-- `add` of the subscriber with id `sid` and selectors `sel` at address `sub`.
unfoldable pub add : Iteration → ℕ → ℕ → List Selector → Subscribers → Option Subscribers
unfolding index_sets
add iter sub sid sel s = do
  sel_p_set ← power_set (new_set_from_raw 0 sel)
  some (record {
    sel_map = index_sets iter 0 sel_p_set sid s.sel_map;
    sid_map = insert sid sub s.sid_map;
  })

-- `uniqueMap[ids[i]] = true` for every i.
mark_all : List ℕ → GoMap ℕ Bool → GoMap ℕ Bool
mark_all [] m = m
mark_all (id ∷ ids) m = mark_all ids (insert id true m)

unfoldable pub dedupe : List ℕ → List ℕ
unfolding mark_all
dedupe ids = keys (mark_all ids [])

-- The loop of `getSubIds` over the combinations.
unfoldable pub collect : Iteration → ℕ → List Set → GoMap String (List ℕ) → List ℕ
collect iter i [] m = []
collect iter i (sel ∷ rest) m =
    sids_at (to_string (iter i (array sel))) m ++ collect iter (i + 1) rest m

unfoldable pub get_sub_ids : Iteration → List Selector → Subscribers → Option (List ℕ)
unfolding collect dedupe
get_sub_ids iter sels s = do
  sel_p_set ← power_set (new_set_from_raw 0 sels)
  some (dedupe (collect iter 0 sel_p_set s.sel_map))

-- `s.sidMap[id]` is nil, here `none`, for an id that is not registered.
unfoldable pub get : Iteration → List Selector → Subscribers → Option (List (Option ℕ))
unfolding get_sub_ids
get iter sels s = do sids ← get_sub_ids iter sels s; some (map (λ id. lookup id s.sid_map) sids)

unfoldable pub get_all : Subscribers → List (Option ℕ)
get_all s = map (λ e. some e.1) s.sid_map

-- The backing array after `append(sids[:i], sids[i+1:]...)`: what stands behind i moves one place
-- down, and the last place keeps its value.
unfoldable pub copy_down : ℕ → List ℕ → List ℕ
copy_down i [] = []
copy_down zero (x ∷ []) = x ∷ []
copy_down zero (x ∷ y ∷ ys) = y ∷ copy_down zero (y ∷ ys)
copy_down (suc i) (x ∷ xs) = x ∷ copy_down i xs

-- The inner loop of `remove`: `range sids` goes over the backing array, which the appends change
-- under it; `kept` is the slice in the map. The rounds that are left recur.
unfoldable pub remove_uid : ℕ → ℕ → ℕ → List ℕ → List ℕ → List ℕ
unfolding copy_down
remove_uid sid zero i sids kept = kept
remove_uid sid (suc left) i sids kept = elim (get_elem? sids i) [
  | none ↦ kept
  | some uid ↦
      let hit = uid == sid in
      let moved = copy_down i sids in
      remove_uid sid left (i + 1) (if hit then moved else sids)
        (if hit then take (length sids - 1) moved else kept)
]

-- The outer loop of `remove`.
unfoldable pub remove_from : ℕ → GoMap String (List ℕ) → GoMap String (List ℕ)
unfolding remove_uid
remove_from sid [] = []
remove_from sid ((sel, sids) ∷ m) =
    (sel, remove_uid sid (length sids) 0 sids sids) ∷ remove_from sid m

unfoldable pub remove : ℕ → Subscribers → Subscribers
unfolding remove_from
remove sid s = record { sel_map = remove_from sid s.sel_map; sid_map = delete sid s.sid_map }

-- A slice that holds an id twice keeps it.
remove_twice : remove_uid 7 2 0 (7 ∷ 7 ∷ []) (7 ∷ 7 ∷ []) ≡ 7 ∷ []
unfolding remove_uid
remove_twice = refl
