-- ===== src/Agent/Subscribers/Consistency.antt =====
-- The index and the registry agree: the index lists an id once under a text, and only ids that
-- `sidMap` knows, so `get` gives no nil pointer.
use mathlib.Core.List.Memᴰ
use spiffe_spire.Prelude.{
  ℕ, ◌+◌, ◌≡◌, ◌≢◌, refl, sym, ap, ◌∙◌, ◌⊎◌, inl, inr, String, true, false, none, some, List, [],
  ◌∷◌, ◌++◌, Memᴰ, arith, ◌==◌, nat_comparable, string_comparable, beq→eq, IsNodup, Bool-cases,
}
use spiffe_spire.Prelude.GoMap.{GoMap, has, lookup, insert, delete, lookup-insert, lookup-delete}
use spiffe_spire.Common.Selector.{Selector, Set, array, new_set_from_raw}
use spiffe_spire.Common.Selector.Text.{to_string}
use spiffe_spire.Common.Selector.Power.{power_set}
use spiffe_spire.Agent.Subscribers.{
  Subscribers, Iteration, sids_at, remove_from, remove, index_sets, add,
}
use spiffe_spire.Agent.Subscribers.Removal.{
  without, without-nil, without-mem, mem-without, not-mem-without, without-IsNodup,
  remove_uid-without,
}
use spiffe_spire.Agent.Subscribers.Matching.{IsIndexed, sids_at-insert, add_sets}
use spiffe_spire.Agent.Subscribers.Index.{single_text}

pub record IsConsistent (s : Subscribers) : Type 0 where
  pub once : (text : String) → IsNodup (sids_at text s.sel_map)
  pub known : (text : String) (x : ℕ) → Memᴰ x (sids_at text s.sel_map) → has x s.sid_map ≡ true

pub sids_at-remove_from :
    (sid : ℕ) (m : GoMap String (List ℕ)) (text : String)
    → IsNodup (sids_at text m)
    → sids_at text (remove_from sid m) ≡ without sid (sids_at text m)
unfolding lookup remove_from
sids_at-remove_from sid [] text d = sym (without-nil sid)
sids_at-remove_from sid ((sel, sids) ∷ m) text d = elim (Bool-cases (sel == text)) [
  | inl here ↦ rw here (remove_uid-without sid sids (rw here at d))
  | inr later ↦ rw later (sids_at-remove_from sid m text (rw later at d))
]

-- `remove` keeps the index and the registry in agreement.
pub remove-IsConsistent : (sid : ℕ) (s : Subscribers) → IsConsistent s → IsConsistent (remove sid s)
unfolding remove
remove-IsConsistent sid s w = record {
  once = λ text.
      rw (sids_at-remove_from sid s.sel_map text (w.once text))
        (without-IsNodup sid _ (w.once text));
  known = λ text x m. still text x (rw (sids_at-remove_from sid s.sel_map text (w.once text)) at m);
}
  where
    still :
        (text : String) (x : ℕ)
        → Memᴰ x (without sid (sids_at text s.sel_map))
        → has x (delete sid s.sid_map) ≡ true
    still text x m = rw (lookup-delete sid x s.sid_map) (elim (Bool-cases (sid == x)) [
      | inl same ↦ absurd (not-mem-without sid _ (rw (← beq→eq sid x same) at m))
      | inr other ↦ rw other (w.known text x (without-mem sid _ x m))
    ])

-- After `remove` of an id from a consistent index, the id stands under no text and has no address.
pub remove-forgets :
    (sid : ℕ) (s : Subscribers) (text : String)
    → IsConsistent s
    → (¬ Memᴰ sid (sids_at text (remove sid s).sel_map))
      × (lookup sid (remove sid s).sid_map ≡ none)
unfolding remove
remove-forgets sid s text w = (
  λ m. not-mem-without sid _ (rw (sids_at-remove_from sid s.sel_map text (w.once text)) at m),
  ground (arith, lookup-delete sid sid s.sid_map, nat_comparable.test_iff sid sid),
)

-- `remove` of an id from a consistent index leaves every other subscriber indexed under its
-- selectors and at its address.
pub remove-keeps :
    (sid : ℕ) (s : Subscribers) (other : ℕ) (its : List Selector)
    → IsConsistent s
    → other ≢ sid
    → IsIndexed other its s
    → IsIndexed other its (remove sid s)
      × (lookup other (remove sid s).sid_map ≡ lookup other s.sid_map)
unfolding remove
remove-keeps sid s other its w ne indexed = (
  λ k m.
      rw (sids_at-remove_from sid s.sel_map (single_text k) (w.once (single_text k)))
        (mem-without sid _ other ne (indexed k m)),
  ground (arith, lookup-delete sid other s.sid_map, nat_comparable.test_iff sid other),
)

-- The texts under which `add` files the id.
unfoldable pub texts : Iteration → ℕ → List Set → List String
texts iter i [] = []
texts iter i (sel ∷ rest) = to_string (iter i (array sel)) ∷ texts iter (i + 1) rest

index_sets-elsewhere :
    (iter : Iteration) (i : ℕ) (sets : List Set) (sid : ℕ) (m : GoMap String (List ℕ))
    (text : String)
    → ¬ Memᴰ text (texts iter i sets)
    → sids_at text (index_sets iter i sets sid m) ≡ sids_at text m
unfolding index_sets texts
index_sets-elsewhere iter i [] sid m text h = refl
index_sets-elsewhere iter i (sel ∷ rest) sid m text h =
    index_sets-elsewhere iter (i + 1) rest sid _ text (λ n. h (Memᴰ.tail n))
    ∙ sids_at-insert (to_string (iter i (array sel))) text _ m
    ∙ elim (Bool-cases (to_string (iter i (array sel)) == text)) [
      | inl same ↦ absurd (h (Memᴰ.head (sym (beq→eq _ text same))))
      | inr other ↦ rw other refl
    ]

stored_elsewhere :
    (text other : String) (sids : List ℕ) (m : GoMap String (List ℕ))
    → (text == other) ≡ false
    → sids_at other (insert text sids m) ≡ sids_at other m
stored_elsewhere text other sids m h = sids_at-insert text other sids m ∙ rw h refl

stored_here :
    (text other : String) (sid : ℕ) (m : GoMap String (List ℕ))
    → (text == other) ≡ true
    → sids_at other (insert text (sids_at text m ++ sid ∷ []) m) ≡ sids_at other m ++ sid ∷ []
stored_here text other sid m h =
    sids_at-insert text other _ m ∙ rw h (rw (beq→eq text other h) refl)

-- Under each of the texts, the id is appended to what was there.
index_sets-there :
    (iter : Iteration) (i : ℕ) (sets : List Set) (sid : ℕ) (m : GoMap String (List ℕ))
    (text : String)
    → IsNodup (texts iter i sets)
    → (sids_at text (index_sets iter i sets sid m) ≡ sids_at text m)
      ⊎ (sids_at text (index_sets iter i sets sid m) ≡ sids_at text m ++ sid ∷ [])
unfolding index_sets texts
index_sets-there iter i [] sid m text d = inl refl
index_sets-there iter i (sel ∷ rest) sid m text d =
    elim (Bool-cases (to_string (iter i (array sel)) == text)) [
      | inl same ↦ inr (
          index_sets-elsewhere iter (i + 1) rest sid _ text
            (rw (beq→eq (to_string (iter i (array sel))) text same) at d.0)
          ∙ stored_here (to_string (iter i (array sel))) text sid m same)
      | inr other ↦
          let q =
            stored_elsewhere (to_string (iter i (array sel))) text
              (sids_at (to_string (iter i (array sel))) m ++ sid ∷ []) m other in
          elim (index_sets-there iter (i + 1) rest sid
            (insert (to_string (iter i (array sel)))
              (sids_at (to_string (iter i (array sel))) m ++ sid ∷ []) m)
            text d.1) [
              | inl e ↦ inl (e ∙ q)
              | inr e ↦ inr (e ∙ ap (λ (l : List ℕ). l ++ sid ∷ []) q)
            ]
    ]

IsNodup-append_one : (xs : List ℕ) (x : ℕ) → IsNodup xs → ¬ Memᴰ x xs → IsNodup (xs ++ x ∷ [])
IsNodup-append_one [] x d h = (Memᴰ.not-nil, tt)
IsNodup-append_one (y ∷ xs) x d h = (
  λ m. elim (Memᴰ.append_cases xs m) [
    | inl m' ↦ d.0 m'
    | inr m' ↦ h (Memᴰ.head (sym (Memᴰ.eq_of_singleton m')))
  ],
  IsNodup-append_one xs x d.1 (λ m. h (Memᴰ.tail m)),
)

-- `add` of a new id keeps the agreement, if the combinations of its selectors have different texts.
pub add-IsConsistent :
    (iter : Iteration) (sub sid : ℕ) (sel : List Selector) (s s' : Subscribers) (sets : List Set)
    → power_set (new_set_from_raw 0 sel) ≡ some sets
    → IsNodup (texts iter 0 sets)
    → has sid s.sid_map ≡ false
    → IsConsistent s
    → add iter sub sid sel s ≡ some s'
    → IsConsistent s'
add-IsConsistent iter sub sid sel s s' sets power d fresh w e = record {
  once = λ text. rw r.0 (elim (index_sets-there iter 0 sets sid s.sel_map text d) [
    | inl same ↦ rw same (w.once text)
    | inr more ↦ rw more (IsNodup-append_one _ sid (w.once text) (absent text))
  ]);
  known = λ text x m. rw r.1 (elim (index_sets-there iter 0 sets sid s.sel_map text d) [
    | inl same ↦ registered x (w.known text x (rw (r.0, same) at m))
    | inr more ↦ elim (Memᴰ.append_cases (sids_at text s.sel_map) (rw (r.0, more) at m)) [
      | inl old ↦ registered x (w.known text x old)
      | inr new ↦
          rw (Memᴰ.eq_of_singleton new)
            (ground (arith, lookup-insert sid sid sub s.sid_map, nat_comparable.test_iff sid sid))
    ]
  ]);
}
  where
    r :
        (s'.sel_map ≡ index_sets iter 0 sets sid s.sel_map)
        × (s'.sid_map ≡ insert sid sub s.sid_map)
    r = add_sets iter sub sid sel s s' sets power e

    absent : (text : String) → ¬ Memᴰ sid (sids_at text s.sel_map)
    absent text m = ground (arith, w.known text sid m)

    registered : (x : ℕ) → has x s.sid_map ≡ true → has x (insert sid sub s.sid_map) ≡ true
    registered x h = ground (arith, lookup-insert sid x sub s.sid_map)
