-- ===== src/Server/Node/Updates/Joining.antt =====
-- How the node API joins the entries of a node's selectors with those whose parent the node is.
use mathlib.Core.List.Memᴰ
use spiffe_spire.Prelude.{
  ◌≡◌, ◌⊎◌, refl, sym, ap, inl, inr, Bool, List, [], ◌∷◌, ◌++◌, map, Memᴰ, Bool-cases,
}
use spiffe_spire.Common.Selector.{Selector}
use spiffe_spire.Common.Messages.{RegistrationEntry}
use spiffe_spire.Server.Node.Updates.{exists_equal, sort_entry, append_parents, join_parents}
use spiffe_spire.Server.Node.Updates.Comparison.{exists_equal-mem}

-- A parent's child is added, with its selectors sorted, unless an equal entry is there.
append_parents_sound :
    (slice_sort : (Selector → Selector → Bool) → List Selector → List Selector)
    (old entries parents : List RegistrationEntry) (e : RegistrationEntry)
    → Memᴰ e (append_parents slice_sort old entries parents)
    → Memᴰ e entries ⊎ Memᴰ e (map (sort_entry slice_sort) parents)
unfolding append_parents
append_parents_sound slice_sort old entries [] e m = inl m
append_parents_sound slice_sort old entries (p ∷ rest) e m =
    elim (Bool-cases (exists_equal (sort_entry slice_sort p) old)) [
      | inl there ↦ elim (append_parents_sound slice_sort old entries rest e (rw there at m)) [
        | inl here ↦ inl here
        | inr later ↦ inr (Memᴰ.tail later)
      ]
      | inr fresh ↦
          elim (append_parents_sound slice_sort old (entries ++ sort_entry slice_sort p ∷ []) rest e
            (rw fresh at m)) [
              | inl here ↦ elim (Memᴰ.append_cases entries here) [
                | inl before ↦ inl before
                | inr new ↦ inr (Memᴰ.head (Memᴰ.eq_of_singleton new))
              ]
              | inr later ↦ inr (Memᴰ.tail later)
            ]
    ]

append_parents_keeps :
    (slice_sort : (Selector → Selector → Bool) → List Selector → List Selector)
    (old entries parents : List RegistrationEntry) (e : RegistrationEntry)
    → Memᴰ e entries
    → Memᴰ e (append_parents slice_sort old entries parents)
unfolding append_parents
append_parents_keeps slice_sort old entries [] e m = m
append_parents_keeps slice_sort old entries (p ∷ rest) e m =
    elim (Bool-cases (exists_equal (sort_entry slice_sort p) old)) [
      | inl there ↦ rw there (append_parents_keeps slice_sort old entries rest e m)
      | inr fresh ↦ rw fresh (
          append_parents_keeps slice_sort old (entries ++ sort_entry slice_sort p ∷ []) rest e
            (Memᴰ.append_left (sort_entry slice_sort p ∷ []) m))
    ]

append_parents_complete :
    (slice_sort : (Selector → Selector → Bool) → List Selector → List Selector)
    (old entries parents : List RegistrationEntry) (p : RegistrationEntry)
    → ((o : RegistrationEntry) → Memᴰ o old → Memᴰ o entries)
    → Memᴰ p parents
    → Memᴰ (sort_entry slice_sort p) (append_parents slice_sort old entries parents)
unfolding append_parents
append_parents_complete slice_sort old entries [] p h m = absurd (Memᴰ.not-nil m)
append_parents_complete slice_sort old entries (q ∷ rest) p h m =
    elim (Bool-cases (exists_equal (sort_entry slice_sort q) old)) [
      | inl there ↦ rw there (elim (Memᴰ.cases_cons m) [
        | inl same ↦ append_parents_keeps slice_sort old entries rest (sort_entry slice_sort p) (
            h (sort_entry slice_sort p) (
              Memᴰ.cast (ap (sort_entry slice_sort) same)
                (exists_equal-mem (sort_entry slice_sort q) old there)))
        | inr later ↦ append_parents_complete slice_sort old entries rest p h later
      ])
      | inr fresh ↦ rw fresh (elim (Memᴰ.cases_cons m) [
        | inl same ↦
            append_parents_keeps slice_sort old (entries ++ sort_entry slice_sort q ∷ []) rest
              (sort_entry slice_sort p)
              (Memᴰ.append_right entries (Memᴰ.head (ap (sort_entry slice_sort) same)))
        | inr later ↦
            append_parents_complete slice_sort old (entries ++ sort_entry slice_sort q ∷ []) rest p
              (λ o inside. Memᴰ.append_left (sort_entry slice_sort q ∷ []) (h o inside)) later
      ])
    ]

-- What the join has of the entries found by selectors and of the children of the node: each of its
-- entries is one of these, as it is or with its selectors sorted, and each of these is among them.
pub record Joined (sorted : RegistrationEntry → RegistrationEntry)
    (found parents all : List RegistrationEntry) : Type 0 where
  pub sound :
      (e : RegistrationEntry)
      → Memᴰ e all
      → (e' : RegistrationEntry) × (Memᴰ e' found ⊎ Memᴰ e' parents) × ((e ≡ e') ⊎ (e ≡ sorted e'))
  pub complete :
      (e : RegistrationEntry) → Memᴰ e found ⊎ Memᴰ e parents → Memᴰ e all ⊎ Memᴰ (sorted e) all

pub join_parents-Joined :
    (slice_sort : (Selector → Selector → Bool) → List Selector → List Selector)
    (found parents : List RegistrationEntry)
    → Joined (sort_entry slice_sort) found parents (join_parents slice_sort found parents)
unfolding join_parents
join_parents-Joined slice_sort found [] = record {
  sound = λ e m. (e, inl m, inl refl);
  complete = λ e o. elim o [ inl m ↦ inl m | inr m ↦ absurd (Memᴰ.not-nil m) ];
}
join_parents-Joined slice_sort found (p ∷ rest) =
    let sorted = map (sort_entry slice_sort) found in
    record {
      sound = λ e m. elim (append_parents_sound slice_sort sorted sorted (p ∷ rest) e m) [
        | inl here ↦
            let (e', inside, same) = Memᴰ.of_map (sort_entry slice_sort) found here in
            (e', inl inside, inr (sym same))
        | inr here ↦
            let (e', inside, same) = Memᴰ.of_map (sort_entry slice_sort) (p ∷ rest) here in
            (e', inr inside, inr (sym same))
      ];
      complete = λ e o. elim o [
        | inl m ↦ inr (
            append_parents_keeps slice_sort sorted sorted (p ∷ rest) (sort_entry slice_sort e)
              (Memᴰ.map (sort_entry slice_sort) m))
        | inr m ↦
            inr
              (append_parents_complete slice_sort sorted sorted (p ∷ rest) e (λ o inside. inside) m)
      ];
    }
