-- ===== src/Common/Selector/Members.antt =====
-- What the sets of pkg/common/selector/set.go hold.
use mathlib.Core.List.Memᴰ
use spiffe_spire.Prelude.{
  ℕ, ◌≤◌, length, ◌+◌, ◌≡◌, refl, sym, ap, ◌↔◌, ◌⊎◌, inl, inr, true, List, [], ◌∷◌, Memᴰ, arith,
  ◌==◌, beq→eq, beq_refl, if◌then◌else◌, All, Bool-cases,
}
use spiffe_spire.Prelude.GoMap.{
  lookup, insert, has, lookup-insert, length-insert-le, keys-insert-IsNodup,
}
use spiffe_spire.Common.Selector.{
  Selector, SelectorPtr, Set, selector_comparable, add, add_all, add_raw, new_set, new_set_from_raw,
  size, targets, IsWellFormed,
}

abbrev pub Keyed : Selector × SelectorPtr → Type 0
Keyed e = e.1.target ≡ e.0

insert-Keyed : (p : SelectorPtr) (s : Set) → All Keyed s → All Keyed (insert p.target p s)
unfolding insert
insert-Keyed p [] h = (refl, tt)
insert-Keyed p ((j, w) ∷ s) h = elim (Bool-cases (j == p.target)) [
  | inl hit ↦ rw hit (refl, h.1)
  | inr miss ↦ rw miss (h.0, insert-Keyed p s h.1)
]

pub add-IsWellFormed : (p : SelectorPtr) (s : Set) → IsWellFormed s → IsWellFormed (add p s)
unfolding add
add-IsWellFormed p s w = record {
  nodup = keys-insert-IsNodup p.target p s w.nodup;
  keyed = insert-Keyed p s w.keyed;
}

pub add_all-IsWellFormed :
    (s : Set) (selectors : List SelectorPtr) → IsWellFormed s → IsWellFormed (add_all s selectors)
unfolding add_all
add_all-IsWellFormed s [] w = w
add_all-IsWellFormed s (cs ∷ rest) w =
    add_all-IsWellFormed (add cs s) rest (add-IsWellFormed cs s w)

pub empty-IsWellFormed : IsWellFormed []
empty-IsWellFormed = record { nodup = tt; keyed = tt }

has-add :
    (k : Selector) (p : SelectorPtr) (s : Set)
    → has k (add p s) ≡ (if p.target == k then true else has k s)
unfolding add
has-add k p s = rw (lookup-insert p.target k p s) (ground arith)

has-add_all_old :
    (s : Set) (selectors : List SelectorPtr) (k : Selector)
    → has k s ≡ true
    → has k (add_all s selectors) ≡ true
unfolding add_all
has-add_all_old s [] k h = h
has-add_all_old s (cs ∷ rest) k h =
    has-add_all_old (add cs s) rest k (rw (has-add k cs s) (ground arith))

has-add_all_new :
    (s : Set) (selectors : List SelectorPtr) (k : Selector)
    → Memᴰ k (targets selectors)
    → has k (add_all s selectors) ≡ true
unfolding add_all
has-add_all_new s [] k m = absurd (Memᴰ.not-nil m)
has-add_all_new s (cs ∷ rest) k (Memᴰ.head p) =
    has-add_all_old (add cs s) rest k (rw (has-add k cs s, p, beq_refl cs.target) refl)
has-add_all_new s (cs ∷ rest) k (Memᴰ.tail m) = has-add_all_new (add cs s) rest k m

has-add_all_only :
    (s : Set) (selectors : List SelectorPtr) (k : Selector)
    → has k (add_all s selectors) ≡ true
    → (has k s ≡ true) ⊎ Memᴰ k (targets selectors)
unfolding add_all
has-add_all_only s [] k h = inl h
has-add_all_only s (cs ∷ rest) k h = elim (has-add_all_only (add cs s) rest k h) [
  | inr m ↦ inr (Memᴰ.tail m)
  | inl old ↦ elim (Bool-cases (cs.target == k)) [
    | inl same ↦ inr (Memᴰ.head (sym (beq→eq cs.target k same)))
    | inr other ↦ inl (ground (arith, has-add k cs s))
  ]
]

-- The set that `NewSet` builds holds exactly the selectors that it was given.
pub has-new_set :
    (selectors : List SelectorPtr) (k : Selector)
    → (has k (new_set selectors) ≡ true) ↔ Memᴰ k (targets selectors)
unfolding new_set lookup
has-new_set selectors k = (
  λ h. elim (has-add_all_only [] selectors k h) [ inl none_yet ↦ cc | inr m ↦ m ],
  has-add_all_new [] selectors k,
)

-- The pointers that `NewSetFromRaw` allocates.
allocate : ℕ → List Selector → List SelectorPtr
allocate next [] = []
allocate next (cs ∷ c) = record { addr = next; target = cs } ∷ allocate (next + 1) c

targets-allocate : (next : ℕ) (c : List Selector) → targets (allocate next c) ≡ c
unfolding allocate
targets-allocate next [] = refl
targets-allocate next (cs ∷ c) = ap (◌∷◌ cs) (targets-allocate (next + 1) c)

add_raw-add_all :
    (next : ℕ) (s : Set) (c : List Selector) → add_raw next s c ≡ add_all s (allocate next c)
unfolding add_raw add_all allocate
add_raw-add_all next s [] = refl
add_raw-add_all next s (cs ∷ c) = add_raw-add_all (next + 1) _ c

new_set_from_raw-new_set :
    (next : ℕ) (c : List Selector) → new_set_from_raw next c ≡ new_set (allocate next c)
unfolding new_set_from_raw new_set
new_set_from_raw-new_set next c = add_raw-add_all next [] c

pub new_set-IsWellFormed : (selectors : List SelectorPtr) → IsWellFormed (new_set selectors)
unfolding new_set
new_set-IsWellFormed selectors = add_all-IsWellFormed [] selectors empty-IsWellFormed

pub new_set_from_raw-IsWellFormed :
    (next : ℕ) (c : List Selector) → IsWellFormed (new_set_from_raw next c)
new_set_from_raw-IsWellFormed next c =
    rw (new_set_from_raw-new_set next c) (new_set-IsWellFormed (allocate next c))

-- The set that `NewSetFromRaw` builds holds exactly the selectors of the list.
pub has-new_set_from_raw :
    (next : ℕ) (c : List Selector) (k : Selector)
    → (has k (new_set_from_raw next c) ≡ true) ↔ Memᴰ k c
has-new_set_from_raw next c k =
    rw (new_set_from_raw-new_set next c)
      (rw (targets-allocate next c) at (has-new_set (allocate next c) k))

length-add_raw-le :
    (next : ℕ) (s : Set) (c : List Selector) → length (add_raw next s c) ≤ length s + length c
unfolding add_raw add
length-add_raw-le next s [] = omega arith
length-add_raw-le next s (cs ∷ c) = omega (
  arith,
  length-add_raw-le (next + 1) (add (record { addr = next; target = cs }) s) c,
  length-insert-le cs (record { addr = next; target = cs }) s,
)

pub size-new_set_from_raw-le :
    (next : ℕ) (c : List Selector) → size (new_set_from_raw next c) ≤ length c
unfolding new_set_from_raw size
size-new_set_from_raw-le next c = omega (arith, length-add_raw-le next [] c)
