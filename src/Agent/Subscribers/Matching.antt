-- ===== src/Agent/Subscribers/Matching.antt =====
-- Who is found for a list of selectors: `add` and `getSubIds` agree on the text of each single
-- selector, so whoever shares one is found.
use mathlib.Core.List.Memᴰ
use spiffe_spire.Prelude.{
  ℕ, ◌+◌, ◌<◌, ◌≡◌, refl, sym, inl, inr, String, Option, some, List, [], ◌∷◌, ◌++◌, map, Memᴰ,
  arith, ◌==◌, nat_comparable, string_comparable, if◌then◌else◌, beq→eq, beq_refl, length,
  Bool-cases, Option-cases,
}
use spiffe_spire.Prelude.GoMap.{GoMap, lookup, insert, lookup-insert}
use spiffe_spire.Common.Selector.{Selector, SelectorPtr, Set, array, new_set_from_raw}
use spiffe_spire.Common.Selector.Text.{to_string}
use spiffe_spire.Common.Selector.Power.{power_set}
use spiffe_spire.Agent.Subscribers.Dedupe.{mem-dedupe}
use spiffe_spire.Agent.Subscribers.{
  Subscribers, Iteration, sids_at, index_sets, collect, dedupe, get_sub_ids, get, add,
}
use spiffe_spire.Agent.Subscribers.Index.{
  IsIteration, single_text, to_string-iter_single, power_set-single,
}

pub sids_at-insert :
    (k j : String) (v : List ℕ) (m : GoMap String (List ℕ))
    → sids_at j (insert k v m) ≡ (if k == j then v else sids_at j m)
sids_at-insert k j v m = rw (lookup-insert k j v m) (ground arith)

-- An id at a text of the index stays there when another subscriber is indexed.
index_sets-keeps :
    (iter : Iteration) (i : ℕ) (sets : List Set) (sid : ℕ) (m : GoMap String (List ℕ))
    (key : String) (x : ℕ)
    → Memᴰ x (sids_at key m)
    → Memᴰ x (sids_at key (index_sets iter i sets sid m))
unfolding index_sets
index_sets-keeps iter i [] sid m key x h = h
index_sets-keeps iter i (sel ∷ rest) sid m key x h =
    index_sets-keeps iter (i + 1) rest sid
      (insert (to_string (iter i (array sel)))
        (sids_at (to_string (iter i (array sel))) m ++ sid ∷ []) m)
      key x (kept (to_string (iter i (array sel))))
  where
    kept : (text : String) → Memᴰ x (sids_at key (insert text (sids_at text m ++ sid ∷ []) m))
    kept text =
        rw (sids_at-insert text key (sids_at text m ++ sid ∷ []) m)
          (elim (Bool-cases (text == key)) [
            | inl same ↦ rw same (Memᴰ.append_left (sid ∷ []) (rw (beq→eq text key same) h))
            | inr other ↦ rw other h
          ])

index_sets-adds :
    (iter : Iteration)
    → IsIteration iter
    → (i : ℕ) (sets : List Set) (sid : ℕ) (m : GoMap String (List ℕ)) (u : Set) (p : SelectorPtr)
    → Memᴰ u sets
    → array u ≡ p ∷ []
    → Memᴰ sid (sids_at (single_text p.target) (index_sets iter i sets sid m))
unfolding index_sets
index_sets-adds iter h i [] sid m u p mem shape = absurd (Memᴰ.not-nil mem)
index_sets-adds iter h i (sel ∷ rest) sid m u p (Memᴰ.head here) shape =
    index_sets-keeps iter (i + 1) rest sid _ (single_text p.target) sid (
      rw
        (
          text,
          sids_at-insert (single_text p.target) (single_text p.target)
              (sids_at (single_text p.target) m ++ sid ∷ []) m,
          beq_refl (single_text p.target),
        )
        (Memᴰ.append_right _ (Memᴰ.head refl)))
  where
    text : to_string (iter i (array sel)) ≡ single_text p.target
    text = rw (← here, shape) (to_string-iter_single iter h i p)
index_sets-adds iter h i (sel ∷ rest) sid m u p (Memᴰ.tail later) shape =
    index_sets-adds iter h (i + 1) rest sid _ u p later shape

collect-finds :
    (iter : Iteration)
    → IsIteration iter
    → (i : ℕ) (sets : List Set) (m : GoMap String (List ℕ)) (u : Set) (p : SelectorPtr) (x : ℕ)
    → Memᴰ u sets
    → array u ≡ p ∷ []
    → Memᴰ x (sids_at (single_text p.target) m)
    → Memᴰ x (collect iter i sets m)
unfolding collect
collect-finds iter h i [] m u p x mem shape found = absurd (Memᴰ.not-nil mem)
collect-finds iter h i (sel ∷ rest) m u p x (Memᴰ.head here) shape found =
    Memᴰ.append_left (collect iter (i + 1) rest m) found_here
  where
    text : to_string (iter i (array sel)) ≡ single_text p.target
    text = rw (← here, shape) (to_string-iter_single iter h i p)

    found_here : Memᴰ x (sids_at (to_string (iter i (array sel))) m)
    found_here = rw text found
collect-finds iter h i (sel ∷ rest) m u p x (Memᴰ.tail later) shape found =
    Memᴰ.append_right _ (collect-finds iter h (i + 1) rest m u p x later shape found)

-- `sid` stands under the text of each of the selectors alone.
abbrev pub IsIndexed : ℕ → List Selector → Subscribers → Type 0
IsIndexed sid sel s = (k : Selector) → Memᴰ k sel → Memᴰ sid (sids_at (single_text k) s.sel_map)

pub add_sets :
    (iter : Iteration) (sub sid : ℕ) (sel : List Selector) (s s' : Subscribers) (sets : List Set)
    → power_set (new_set_from_raw 0 sel) ≡ some sets
    → add iter sub sid sel s ≡ some s'
    → (s'.sel_map ≡ index_sets iter 0 sets sid s.sel_map) × (s'.sid_map ≡ insert sid sub s.sid_map)
unfolding add
add_sets iter sub sid sel s s' sets p e = ground arith

-- A call that returns has the combinations of the selectors.
pub add-power_set :
    (iter : Iteration) (sub sid : ℕ) (sel : List Selector) (s s' : Subscribers)
    → add iter sub sid sel s ≡ some s'
    → (sets : List Set) × (power_set (new_set_from_raw 0 sel) ≡ some sets)
unfolding add
add-power_set iter sub sid sel s s' e = elim (Option-cases (power_set (new_set_from_raw 0 sel))) [
  | inl fails ↦ ground arith
  | inr r ↦ r
]

-- `add` indexes the subscriber under each of its selectors.
pub add-IsIndexed :
    (iter : Iteration)
    → IsIteration iter
    → (sub sid : ℕ) (sel : List Selector) (s s' : Subscribers) → length sel < 63
    → add iter sub sid sel s ≡ some s'
    → IsIndexed sid sel s'
add-IsIndexed iter h sub sid sel s s' small e k m =
    let (sets, u, p, power, mem, shape, target) = power_set-single sel k small m in
    rw (add_sets iter sub sid sel s s' sets power e).0
      (rw target at (index_sets-adds iter h 0 sets sid s.sel_map u p mem shape))

-- `add` of another subscriber takes nobody out of the index.
pub add-keeps_IsIndexed :
    (iter : Iteration) (sub sid : ℕ) (sel : List Selector) (s s' : Subscribers) (other : ℕ)
    (its : List Selector)
    → add iter sub sid sel s ≡ some s'
    → IsIndexed other its s
    → IsIndexed other its s'
add-keeps_IsIndexed iter sub sid sel s s' other its e h k m =
    let (sets, power) = add-power_set iter sub sid sel s s' e in
    rw (add_sets iter sub sid sel s s' sets power e).0
      (index_sets-keeps iter 0 sets sid s.sel_map (single_text k) other (h k m))

-- `getSubIds` finds whoever is indexed under one of the selectors asked for.
pub get_sub_ids-finds :
    (iter : Iteration)
    → IsIteration iter
    → (sels sel : List Selector) (sid : ℕ) (s : Subscribers) (k : Selector) → length sels < 63
    → IsIndexed sid sel s
    → Memᴰ k sel
    → Memᴰ k sels
    → (ids : List ℕ) × (get_sub_ids iter sels s ≡ some ids) × Memᴰ sid ids
unfolding get_sub_ids
get_sub_ids-finds iter h sels sel sid s k small indexed mine theirs =
    let (sets, u, p, power, mem, shape, target) = power_set-single sels k small theirs in
    (
      dedupe (collect iter 0 sets s.sel_map),
      rw power refl,
      mem-dedupe _ sid
          (collect-finds iter h 0 sets s.sel_map u p sid mem shape (rw target (indexed k mine))),
    )

-- For fewer than 63 selectors `get` returns, and finds the address of a subscriber that is
-- registered, whose id stands in the index under each of its own selectors, and that shares a
-- selector with those asked for.
pub get-finds :
    (iter : Iteration)
    → IsIteration iter
    → (sels sel : List Selector) (sid sub : ℕ) (s : Subscribers) (k : Selector) → length sels < 63
    → IsIndexed sid sel s
    → lookup sid s.sid_map ≡ some sub
    → Memᴰ k sel
    → Memᴰ k sels
    → (subs : List (Option ℕ)) × (get iter sels s ≡ some subs) × Memᴰ (some sub) subs
unfolding get
get-finds iter h sels sel sid sub s k small indexed registered mine theirs =
    let (ids, e, mem) = get_sub_ids-finds iter h sels sel sid s k small indexed mine theirs in
    (
      map (λ id. lookup id s.sid_map) ids,
      rw e refl,
      Memᴰ.cast (sym registered) (Memᴰ.map (λ id. lookup id s.sid_map) mem),
    )
