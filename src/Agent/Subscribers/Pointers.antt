-- ===== src/Agent/Subscribers/Pointers.antt =====
-- The pointers that `get` and `getAll` return: each is that of a registered subscriber.
use mathlib.Core.List.Memᴰ
use spiffe_spire.Prelude.{
  ℕ, ◌+◌, ◌<◌, ◌≡◌, refl, sym, ◌∙◌, inl, inr, true, Option, some, List, [], ◌∷◌, map, Memᴰ, arith,
  nat_comparable, string_comparable, length, Option-cases,
}
use spiffe_spire.Prelude.GoMap.{has, lookup}
use spiffe_spire.Common.Selector.{Selector, Set, array, new_set_from_raw}
use spiffe_spire.Common.Selector.Members.{size-new_set_from_raw-le}
use spiffe_spire.Common.Selector.Text.{to_string}
use spiffe_spire.Common.Selector.Power.{power_set}
use spiffe_spire.Common.Selector.Power.Enumeration.{power_set_lem}
use spiffe_spire.Agent.Subscribers.{
  Subscribers, Iteration, sids_at, collect, dedupe, get_sub_ids, get,
}
use spiffe_spire.Agent.Subscribers.Dedupe.{dedupe-mem}
use spiffe_spire.Agent.Subscribers.Consistency.{IsConsistent}

collect-known :
    (iter : Iteration) (i : ℕ) (sets : List Set) (s : Subscribers) (x : ℕ)
    → IsConsistent s
    → Memᴰ x (collect iter i sets s.sel_map)
    → has x s.sid_map ≡ true
unfolding collect
collect-known iter i [] s x w m = absurd (Memᴰ.not-nil m)
collect-known iter i (sel ∷ rest) s x w m =
    elim (Memᴰ.append_cases (sids_at (to_string (iter i (array sel))) s.sel_map) m) [
      | inl here ↦ w.known (to_string (iter i (array sel))) x here
      | inr later ↦ collect-known iter (i + 1) rest s x w later
    ]

present :
    (x : ℕ) (s : Subscribers) → has x s.sid_map ≡ true → (a : ℕ) × (lookup x s.sid_map ≡ some a)
present x s h = elim (Option-cases (lookup x s.sid_map)) [ inl e ↦ cc | inr r ↦ r ]

pub combinations_total :
    (sels : List Selector)
    → length sels < 63
    → (sets : List Set) × (power_set (new_set_from_raw 0 sels) ≡ some sets)
combinations_total sels small =
    (_, power_set_lem (new_set_from_raw 0 sels) (omega (arith, size-new_set_from_raw-le 0 sels)))

-- For fewer than 63 selectors `get` returns, and while index and registry agree no pointer that it
-- returns is nil: each is the address of a registered subscriber.
pub get-registered :
    (iter : Iteration) (sels : List Selector) (s : Subscribers)
    → length sels < 63
    → IsConsistent s
    → (subs : List (Option ℕ)) × (get iter sels s ≡ some subs)
      × ((o : Option ℕ)
          → Memᴰ o subs
          → (a sid : ℕ) × (o ≡ some a) × (lookup sid s.sid_map ≡ some a))
unfolding get get_sub_ids
get-registered iter sels s small w =
    let (sets, power) = combinations_total sels small in
    let ids = dedupe (collect iter 0 sets s.sel_map) in
    (
      map (λ id. lookup id s.sid_map) ids,
      rw power refl,
      λ o m.
          let (sid, among, e) = Memᴰ.of_map (λ (id : ℕ). lookup id s.sid_map) ids m in
          let (a, found) =
            present sid s (collect-known iter 0 sets s sid w (dedupe-mem _ sid among)) in
          (a, sid, sym e ∙ found, found),
    )
