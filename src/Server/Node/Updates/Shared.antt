-- ===== src/Server/Node/Updates/Shared.antt =====
-- Which registration entries the node API finds for a node.
use mathlib.Core.List.Memᴰ
use mathlib.Core.Option.{some-injective}
use spiffe_spire.Prelude.{
  ◌<◌, ◌≡◌, ◌↔◌, ◌⊎◌, refl, sym, subst, inl, inr, ◌∙◌, String, Bool, true, false, nat_comparable,
  string_comparable, some, List, [], ◌∷◌, ◌++◌, Memᴰ, All, arith, length, ltb,
}
use spiffe_spire.Prelude.Action.{ok}
use spiffe_spire.Prelude.GoMap.{has, has_mem-keys, mem-keys_has}
use spiffe_spire.Common.Selector.{
  Selector, Set, IsWellFormed, selector_comparable, raw, array, size, new_set_from_raw,
}
use spiffe_spire.Common.Selector.Inclusion.{equal_set_iff}
use spiffe_spire.Common.Selector.Members.{
  has-new_set_from_raw, new_set_from_raw-IsWellFormed, size-new_set_from_raw-le,
}
use spiffe_spire.Common.Selector.Power.{power_set}
use spiffe_spire.Common.Selector.Power.Enumeration.{
  targets-array, power_set_sound, power_set_complete, power_set_lem,
}
use spiffe_spire.Common.Messages.{RegistrationEntry}
use spiffe_spire.Server.Node.{Handler}
use spiffe_spire.Server.Node.Updates.Joining.{join_parents-Joined}
use spiffe_spire.Server.Node.Updates.{sort_entry, join_parents, list_combinations, fetch_entries}

mem-raw : (s : Set) (k : Selector) → IsWellFormed s → Memᴰ k (raw s) ↔ (has k s ≡ true)
unfolding raw array
mem-raw s k w = rw (targets-array s w.keyed) ((λ m. has_mem-keys s m), λ h. mem-keys_has k s h)

All-of_mem :
    (P : Selector → Type 0) (xs : List Selector) → ((x : Selector) → Memᴰ x xs → P x) → All P xs
All-of_mem P [] h = tt
All-of_mem P (x ∷ xs) h = (h x (Memᴰ.head refl), All-of_mem P xs (λ y m. h y (Memᴰ.tail m)))

All-at : (P : Selector → Type 0) (xs : List Selector) (x : Selector) → All P xs → Memᴰ x xs → P x
All-at P [] x h m = absurd (Memᴰ.not-nil m)
All-at P (y ∷ ys) x h (Memᴰ.head same) = subst P (sym same) h.0
All-at P (y ∷ ys) x h (Memᴰ.tail m) = All-at P ys x h.1 m

some_asked : (xs : List Selector) (x : Selector) → Memᴰ x xs → ltb (length xs) 1 ≡ false
some_asked [] x m = absurd (Memᴰ.not-nil m)
some_asked (y ∷ ys) x m = ground arith

some_sets : (set : Set) → size set < 63 → (sets : List Set) × (power_set set ≡ some sets)
some_sets set small = (_, power_set_lem set small)

-- What a store answers that keeps the entries `stored`: to a query for matching entries those that
-- have every selector of it, to a query by parent those with this parent.
pub record Answers {σ : Type 0} (h : Handler σ) (stored : σ → List RegistrationEntry) (s : σ)
    : Type 0 where
  pub matching :
      (asked : List Selector)
      → ltb (length asked) 1 ≡ false
      → (es : List RegistrationEntry) × (h.ds.list_matching_entries asked s ≡ (ok es, s))
        × ((e : RegistrationEntry)
            → Memᴰ e es ↔ (Memᴰ e (stored s) × All (λ x. Memᴰ x e.selectors) asked))
  pub parents :
      (id : String)
      → (es : List RegistrationEntry) × (h.ds.list_parent_id_entries id s ≡ (ok es, s))
        × ((e : RegistrationEntry) → Memᴰ e es ↔ (Memᴰ e (stored s) × (e.parent_id ≡ id)))

single : {l : List Selector} (k x : Selector) → Memᴰ k l → Memᴰ x (k ∷ []) → Memᴰ x l
single k x m h = Memᴰ.cast (Memᴰ.eq_of_singleton h) m

-- A selector of the list is one of the entry's.
abbrev pub Shares : List Selector → RegistrationEntry → Type 0
Shares selectors e = (k : Selector) × Memᴰ k selectors × Memᴰ k e.selectors

module _ {σ : Type 0} (h : Handler σ) (stored : σ → List RegistrationEntry) where
  -- The entries that the combinations find.
  list_combinations_lem :
      (slice_sort : (Selector → Selector → Bool) → List Selector → List Selector) (s : σ)
      (sets : List Set)
      → Answers h stored s
      → ((t : Set) → Memᴰ t sets → IsWellFormed t × ((k : Selector) × (has k t ≡ true)))
      → (es : List RegistrationEntry) × (list_combinations slice_sort h sets s ≡ (ok es, s))
        × ((e : RegistrationEntry)
            → Memᴰ e es ↔ (
                (t : Set) × Memᴰ t sets
                × Memᴰ e (stored s)
                × All (λ x. Memᴰ x e.selectors) (raw t)))
  unfolding list_combinations
  list_combinations_lem slice_sort s [] answers fine =
      ([], refl, λ e. ((λ m. absurd (Memᴰ.not-nil m)), λ (t, m, _, _). absurd (Memᴰ.not-nil m)))
  list_combinations_lem slice_sort s (set ∷ rest) answers fine =
      let (w, (k, held)) = fine set (Memᴰ.head refl) in
      let (es, found, mem) =
        answers.matching (raw set) (some_asked (raw set) k ((mem-raw set k w).1 held)) in
      let (later, done, all) =
        list_combinations_lem slice_sort s rest answers (λ t m. fine t (Memᴰ.tail m)) in
      (
        es ++ later,
        rw (found, done) refl,
        λ e. (
          (λ m. elim (Memᴰ.append_cases es m) [
            | inl here ↦ let (there, has) = (mem e).0 here in (set, Memᴰ.head refl, there, has)
            | inr there ↦
                let (t, inside, is_stored, has) = (all e).0 there in
                (t, Memᴰ.tail inside, is_stored, has)
          ]),
          λ (t, inside, is_stored, has). elim (Memᴰ.cases_cons inside) [
            | inl same ↦
                Memᴰ.append_left later (
                  (mem e).1
                    (is_stored, subst (λ u. All (λ x. Memᴰ x e.selectors) (raw u)) same has))
            | inr further ↦ Memᴰ.append_right es ((all e).1 (t, further, is_stored, has))
          ],
        ),
      )

  -- Some combination of the selectors finds just the entries that share a selector with them.
  combined :
      (s : σ) (selectors : List Selector) (sets : List Set) (e : RegistrationEntry)
      → size (new_set_from_raw 0 selectors) < 63
      → power_set (new_set_from_raw 0 selectors) ≡ some sets
      → ((t : Set) × Memᴰ t sets × Memᴰ e (stored s) × All (λ x. Memᴰ x e.selectors) (raw t))
        ↔ (Memᴰ e (stored s) × Shares selectors e)
  combined s selectors sets e small made =
      let set = new_set_from_raw 0 selectors in
      let wf = new_set_from_raw-IsWellFormed 0 selectors in
      (
        (λ (t, m, is_stored, has).
            let (w, inside, (k, held)) = power_set_sound set wf small sets made t m in
            (
              is_stored,
              (
                k,
                (has-new_set_from_raw 0 selectors k).0 (inside k held),
                All-at (λ x. Memᴰ x e.selectors) (raw t) k has ((mem-raw t k w).1 held),
              ),
            )),
        λ (is_stored, (k, asked, shared)).
            let one = new_set_from_raw 0 (k ∷ []) in
            let one_wf = new_set_from_raw-IsWellFormed 0 (k ∷ []) in
            let (sets', u, made', m, same) =
              power_set_complete set wf small one k one_wf
                (λ x h.
                  (has-new_set_from_raw 0 selectors x).1
                    (single k x asked ((has-new_set_from_raw 0 (k ∷ []) x).0 h)))
                ((has-new_set_from_raw 0 (k ∷ []) k).1 (Memᴰ.head refl)) in
            let here : Memᴰ u sets =
              subst (λ l. Memᴰ u l) (some-injective _ _ (sym made' ∙ made)) m in
            let (u_wf, _, _) = power_set_sound set wf small sets made u here in
            (
              u,
              here,
              is_stored,
              All-of_mem (λ x. Memᴰ x e.selectors) (raw u)
                  λ x inside. single k x shared (
                    (has-new_set_from_raw 0 (k ∷ []) x).0 (
                      ((equal_set_iff u one u_wf one_wf).0 same).1 x
                        ((mem-raw u x u_wf).0 inside))),
            ),
      )

  -- The registration entries of a node, while the store answers and the node has fewer than 63
  -- selectors: each of them is a stored entry that shares a selector with the node or has the node
  -- as its parent, perhaps with its selectors sorted, and each such entry is among them. An entry need
  -- not have its selectors all among the node's.
  pub fetch_entries_lem :
      (slice_sort : (Selector → Selector → Bool) → List Selector → List Selector) (s : σ)
      (selectors : List Selector) (id : String)
      → Answers h stored s
      → length selectors < 63
      → (es : List RegistrationEntry) × (fetch_entries slice_sort h selectors id s ≡ (ok es, s))
        × ((e : RegistrationEntry)
            → Memᴰ e es
            → (e' : RegistrationEntry) × Memᴰ e' (stored s)
              × (Shares selectors e' ⊎ (e'.parent_id ≡ id))
              × ((e ≡ e') ⊎ (e ≡ sort_entry slice_sort e')))
        × ((e : RegistrationEntry)
            → Memᴰ e (stored s)
            → Shares selectors e ⊎ (e.parent_id ≡ id)
            → Memᴰ e es ⊎ Memᴰ (sort_entry slice_sort e) es)
  unfolding fetch_entries
  fetch_entries_lem slice_sort s selectors id answers few =
      let set = new_set_from_raw 0 selectors in
      let small : size set < 63 = omega (arith, size-new_set_from_raw-le 0 selectors) in
      let (sets, made) = some_sets set small in
      let wf = new_set_from_raw-IsWellFormed 0 selectors in
      let (found, listed, mem) =
        list_combinations_lem slice_sort s sets answers
          λ t m. let r = power_set_sound set wf small sets made t m in (r.0, r.2) in
      let (parents, asked, children) = answers.parents id in
      let joined = join_parents-Joined slice_sort found parents in
      (
        join_parents slice_sort found parents,
        rw (made, listed, asked) refl,
        λ e m.
            let (e', origin, form) = joined.sound e m in
            elim origin [
              | inl inside ↦
                  let (is_stored, shares) =
                    (combined s selectors sets e' small made).0 ((mem e').0 inside) in
                  (e', is_stored, inl shares, form)
              | inr inside ↦
                  let (is_stored, child) = (children e').0 inside in
                  (e', is_stored, inr child, form)
            ],
        λ e is_stored o. joined.complete e (elim o [
          | inl shares ↦
              inl ((mem e).1 ((combined s selectors sets e small made).1 (is_stored, shares)))
          | inr child ↦ inr ((children e).1 (is_stored, child))
        ]),
      )
