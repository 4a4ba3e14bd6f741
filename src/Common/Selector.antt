-- ===== src/Common/Selector.antt =====
-- pkg/common/selector: selectors and sets of selectors.
-- A `*Selector` is a pointer: its address and what it points at. The program never writes through
-- one, so the target stands beside the address. `common.Selector`, the message that the parsers
-- of the API return, has the same two fields and is the same type here; a nil pointer in a list of
-- messages, on which the source panics, is not modelled.
pub mod Members
pub mod Inclusion
pub mod Text
pub mod Power
pub mod Pointers
use spiffe_spire.Prelude.{
  ℕ, ◌+◌, ◌≡◌, ◌↔◌, Bool, true, false, ◌&&◌, Option, none, some, List, [], ◌∷◌, map, arith,
  Comparable, String, nat_comparable, string_comparable, ◌==◌, beq→eq, beq_refl, if◌then◌else◌, ltb,
  length, All, IsNodup,
}
use spiffe_spire.Prelude.GoMap.{GoMap, keys, values, lookup, insert, delete}

pub record Selector : Type 0 where
  pub type : String
  pub value : String

abbrev pub selector_beq : Selector → Selector → Bool
selector_beq a b = a.type == b.type && a.value == b.value

selector_beq_self : (a : Selector) → selector_beq a a ≡ true
selector_beq_self a = rw (beq_refl a.type, beq_refl a.value)

pub selector_test_iff : (a b : Selector) → (selector_beq a b ≡ true) ↔ (a ≡ b)
selector_test_iff a b = (
  λ h. ground (arith, beq→eq a.type b.type, beq→eq a.value b.value),
  λ h. rw h (selector_beq_self b),
)

instance abbrev pub selector_comparable : Comparable Selector
selector_comparable = record { test = selector_beq; test_iff = selector_test_iff }

pub record SelectorPtr : Type 0 where
  pub addr : ℕ
  pub target : Selector

abbrev pub Set : Type 0
Set = GoMap Selector SelectorPtr

unfoldable pub add : SelectorPtr → Set → Set
add selector s = insert selector.target selector s

-- The loop of `NewSet`.
unfoldable pub add_all : Set → List SelectorPtr → Set
unfolding add
add_all s [] = s
add_all s (cs ∷ selectors) = add_all (add cs s) selectors

unfoldable pub new_set : List SelectorPtr → Set
unfolding add_all
new_set selectors = add_all [] selectors

-- The loop of `NewSetFromRaw`: each round allocates a selector, from address `next` on.
unfoldable pub add_raw : ℕ → Set → List Selector → Set
unfolding add
add_raw next s [] = s
add_raw next s (cs ∷ c) = add_raw (next + 1) (add (record { addr = next; target = cs }) s) c

unfoldable pub new_set_from_raw : ℕ → List Selector → Set
unfolding add_raw
new_set_from_raw next c = add_raw next [] c

unfoldable pub array : Set → List SelectorPtr
array s = values s

unfoldable pub raw : Set → List Selector
raw s = map (λ selector. selector.target) (values s)

unfoldable pub size : Set → ℕ
size s = length s

-- `Remove` returns the pointer that it took out, nil if there was none.
unfoldable pub remove : SelectorPtr → Set → Option SelectorPtr × Set
remove selector s = elim (lookup selector.target s) [
  | none ↦ (none, s)
  | some removed ↦ (some removed, delete selector.target s)
]

-- `(*set)[*item] == item` compares the pointers; a missing key gives nil.
unfoldable pub includes : Set → SelectorPtr → Bool
includes s item = elim (lookup item.target s) [
  | none ↦ false
  | some found ↦ found.addr == item.addr
]

-- The loop of `IncludesSet` over `s2`.
includes_all : Set → Set → Bool
includes_all s1 [] = true
includes_all s1 ((key2, sel2) ∷ s2) =
    let rest = includes_all s1 s2 in
    elim (lookup key2 s1) [
      | none ↦ false
      | some sel1 ↦ if sel2.target == sel1.target then rest else false
    ]

unfoldable pub includes_set : Set → Set → Bool
unfolding includes_all
includes_set s1 s2 = if ltb (length s1) (length s2) then false else includes_all s1 s2

unfoldable pub equal_set : Set → Set → Bool
unfolding size
equal_set a b = if size a == size b then includes_set a b else false

abbrev pub targets : List SelectorPtr → List Selector
targets = map λ selector. selector.target

-- What the operations keep: keys are distinct, and each key is the selector pointed at.
pub record IsWellFormed (s : Set) : Type 0 where
  pub nodup : IsNodup (keys s)
  pub keyed : All (λ e. e.1.target ≡ e.0) s
