-- ===== src/Common/Selector/Pointers.antt =====
-- The operations of pkg/common/selector that hand out or compare pointers: `Remove` and `Includes`.
use mathlib.Core.Option.{some-injective}
use spiffe_spire.Prelude.{
  ℕ, ◌+◌, ◌<◌, ◌≤◌, ◌≡◌, refl, sym, subst, ◌∙◌, inl, inr, false, none, some, List, [], ◌∷◌, arith,
  nat_comparable, ◌==◌, beq→eq, Bool-cases, Option-cases, if◌then◌else◌,
}
use spiffe_spire.Prelude.GoMap.{lookup, lookup-insert, lookup-delete}
use spiffe_spire.Common.Selector.{
  Selector, selector_comparable, SelectorPtr, Set, add, add_raw, new_set_from_raw, remove, includes,
}

-- Every pointer of the set is at `next` or above.
abbrev Above : ℕ → Set → Type 0
Above next s = (k : Selector) (p : SelectorPtr) → lookup k s ≡ some p → next ≤ p.addr

empty-Above : (next : ℕ) → Above next []
unfolding lookup
empty-Above next k p e = cc

add-Above :
    (next : ℕ) (p : SelectorPtr) (s : Set) → next ≤ p.addr → Above next s → Above next (add p s)
unfolding add
add-Above next p s le above k q found =
    let eq = lookup-insert p.target k p s in
    elim (Bool-cases (p.target == k)) [
      | inl hit ↦ subst (λ r. next ≤ r.addr) (some-injective _ _ (sym (rw hit at eq) ∙ found)) le
      | inr miss ↦ above k q (sym (rw miss at eq) ∙ found)
    ]

add_raw-Above :
    (low next : ℕ) (s : Set) (c : List Selector)
    → low ≤ next
    → Above low s
    → Above low (add_raw next s c)
unfolding add_raw
add_raw-Above low next s [] le above = above
add_raw-Above low next s (cs ∷ c) le above =
    add_raw-Above low (next + 1) (add (record { addr = next; target = cs }) s) c (omega (arith, le))
      (add-Above low (record { addr = next; target = cs }) s le above)

-- `Includes` answers false for every selector that was allocated before the set was built by
-- `NewSetFromRaw`, whether or not an equal selector is in the set.
pub includes-new_set_from_raw :
    (next : ℕ) (c : List Selector) (item : SelectorPtr)
    → item.addr < next
    → includes (new_set_from_raw next c) item ≡ false
unfolding includes new_set_from_raw
includes-new_set_from_raw next c item old =
    elim (Option-cases (lookup item.target (add_raw next [] c))) [
      | inl e ↦ rw (e, includes) refl
      | inr (p, e) ↦
          rw (e, includes)
            (elim (Bool-cases (p.addr == item.addr)) [
              | inl same ↦ absurd (
                  omega (
                    arith,
                    old,
                    beq→eq p.addr item.addr same,
                    add_raw-Above next next [] c (omega arith) (empty-Above next) item.target p e,
                  ))
              | inr differ ↦ differ
            ])
    ]

-- `Remove` returns the pointer under the selector, nil if there is none; after it that selector is
-- gone, and every other is under its pointer still.
pub remove_lem :
    (selector : SelectorPtr) (s : Set) (k : Selector)
    → ((remove selector s).0 ≡ lookup selector.target s)
      × (lookup k (remove selector s).1 ≡ (if selector.target == k then none else lookup k s))
unfolding remove
remove_lem selector s k = elim (Option-cases (lookup selector.target s)) [
  | inl e ↦ (
    rw (e, remove) refl,
    rw (e, remove)
        (elim (Bool-cases (selector.target == k)) [
          | inl hit ↦ rw hit (rw (← beq→eq selector.target k hit) e)
          | inr miss ↦ rw miss refl
        ]),
  )
  | inr (p, e) ↦ (rw (e, remove) refl, rw (e, remove) (lookup-delete selector.target k s))
]
