-- ===== src/Server/Registration/Uniqueness.antt =====
-- When two registration entries count as the same.
use mathlib.Core.List.Memᴰ
use spiffe_spire.Prelude.{
  ◌≡◌, ◌↔◌, refl, subst, inl, inr, Bool, true, false, List, [], ◌∷◌, Memᴰ, arith, ◌==◌,
  string_comparable, beq→eq, beq_refl, Bool-cases,
}
use spiffe_spire.Prelude.GoMap.{has}
use spiffe_spire.Common.Selector.{Selector, selector_comparable, new_set_from_raw, equal_set}
use spiffe_spire.Common.Selector.Members.{has-new_set_from_raw, new_set_from_raw-IsWellFormed}
use spiffe_spire.Common.Selector.Inclusion.{Includes, equal_set_iff}
use spiffe_spire.Common.Messages.{RegistrationEntry}
use spiffe_spire.Server.Registration.{none_equal}

-- Each list holds every selector of the other.
abbrev pub SameSelectors : List Selector → List Selector → Type 0
SameSelectors a b = (k : Selector) → Memᴰ k a ↔ Memᴰ k b

equal_set-SameSelectors :
    (a b : List Selector)
    → (equal_set (new_set_from_raw 0 a) (new_set_from_raw 0 b) ≡ true) ↔ SameSelectors a b
equal_set-SameSelectors a b = (
  λ e k. (
    λ m. (in_b k).0 ((sets.0 e).1 k ((in_a k).1 m)),
    λ m. (in_a k).0 ((sets.0 e).0 k ((in_b k).1 m)),
  ),
  λ same. sets.1 (
    λ k h. (in_a k).1 ((same k).1 ((in_b k).0 h)),
    λ k h. (in_b k).1 ((same k).0 ((in_a k).0 h)),
  ),
)
  where
    in_a : (k : Selector) → (has k (new_set_from_raw 0 a) ≡ true) ↔ Memᴰ k a
    in_a = has-new_set_from_raw 0 a

    in_b : (k : Selector) → (has k (new_set_from_raw 0 b) ≡ true) ↔ Memᴰ k b
    in_b = has-new_set_from_raw 0 b

    sets : (equal_set (new_set_from_raw 0 a) (new_set_from_raw 0 b) ≡ true) ↔ (
        Includes (new_set_from_raw 0 a) (new_set_from_raw 0 b)
        × Includes (new_set_from_raw 0 b) (new_set_from_raw 0 a))
    sets =
        equal_set_iff (new_set_from_raw 0 a) (new_set_from_raw 0 b)
          (new_set_from_raw-IsWellFormed 0 a) (new_set_from_raw-IsWellFormed 0 b)

-- The same parent and the same selectors, in whatever order and however often.
pub record Clashes (re entry : RegistrationEntry) : Type 0 where
  pub parent : re.parent_id ≡ entry.parent_id
  pub selectors : SameSelectors re.selectors entry.selectors

abbrev pub SomeClash : List RegistrationEntry → RegistrationEntry → Type 0
SomeClash es entry = (re : RegistrationEntry) × Memᴰ re es × Clashes re entry

clash_later :
    (re : RegistrationEntry) (es : List RegistrationEntry) (entry : RegistrationEntry)
    → SomeClash es entry
    → SomeClash (re ∷ es) entry
clash_later re es entry (other, m, c) = (other, Memᴰ.tail m, c)

module _ (re : RegistrationEntry) (es : List RegistrationEntry) (entry : RegistrationEntry) where
  abbrev same_sets : Bool
  same_sets = equal_set (new_set_from_raw 0 re.selectors) (new_set_from_raw 0 entry.selectors)

  finds :
      (none_equal es entry ≡ false → SomeClash es entry)
      → none_equal (re ∷ es) entry ≡ false
      → SomeClash (re ∷ es) entry
  unfolding none_equal
  finds later e = elim (Bool-cases (re.parent_id == entry.parent_id)) [
    | inl p ↦ elim (Bool-cases same_sets) [
      | inl q ↦ (
        re,
        Memᴰ.head refl,
        record {
          parent = beq→eq re.parent_id entry.parent_id p;
          selectors = (equal_set-SameSelectors re.selectors entry.selectors).0 q;
        },
      )
      | inr q ↦ clash_later re es entry (later (rw (p, q) at e))
    ]
    | inr p ↦ clash_later re es entry (later (rw p at e))
  ]

  found_here : Clashes re entry → none_equal (re ∷ es) entry ≡ false
  unfolding none_equal
  found_here c =
      let p : (re.parent_id == entry.parent_id) ≡ true =
        rw (c.parent, beq_refl entry.parent_id) refl in
      let q : same_sets ≡ true =
        (equal_set-SameSelectors re.selectors entry.selectors).1 c.selectors in
      rw (p, q) refl

  found_later : none_equal es entry ≡ false → none_equal (re ∷ es) entry ≡ false
  unfolding none_equal
  found_later e = ground (arith, e)

-- The loop of `isEntryUnique` answers false exactly when some entry of the list has the parent and
-- the selectors of the new one.
pub none_equal_iff :
    (es : List RegistrationEntry) (entry : RegistrationEntry)
    → (none_equal es entry ≡ false) ↔ SomeClash es entry
unfolding none_equal
none_equal_iff [] entry = ((λ e. cc e), λ c. absurd (Memᴰ.not-nil c.1))
none_equal_iff (re ∷ es) entry =
    let later = none_equal_iff es entry in
    (
      finds re es entry later.0,
      λ (other, m, c). elim m [
        | Memᴰ.head same ↦ found_here re es entry (subst (λ x. Clashes x entry) same c)
        | Memᴰ.tail m' ↦ found_later re es entry (later.1 (other, m', c))
      ],
    )
