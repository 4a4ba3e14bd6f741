-- ===== src/Server/SqlStore/Entries/Matching.antt =====
-- `ListMatchingEntries` of the SQL data store against what it promises.
use mathlib.Core.List.Memᴰ
use spiffe_spire.Prelude.{
  ℕ, ◌<◌, ◌≡◌, ◌↔◌, refl, sym, ap, inl, inr, subst, ◌∙◌, false, false≢true, Option, none, some,
  List, [], ◌∷◌, map, Memᴰ, All, IsNodup, arith, ◌==◌, nat_comparable, beq→eq, beq_refl, Bool-cases,
  Option-cases, length, ltb,
}
use spiffe_spire.Prelude.Action.{ok}
use spiffe_spire.Prelude.GoMap.{GoMap, keys, lookup, mem-lookup}
use spiffe_spire.Common.Messages.{RegistrationEntry}
use spiffe_spire.Common.Selector.{Selector}
use spiffe_spire.Server.Gorm.{RegisteredEntry, SelectorRow}
use spiffe_spire.Server.Gorm.Laws.{Reads, select, mem-select, select-mem, same_key}
use spiffe_spire.Server.SqlStore.{Plugin}
use spiffe_spire.Server.SqlStore.Entries.{
  of_entry, has_key, selector_of, message_of, less, weed, convert_each, convert_entries, fetch_ids,
  matching_entries, list_matching_entries,
}
use spiffe_spire.Server.SqlStore.Entries.Counting.{
  HasSelector, index_of, amount, total, total_iff, count_refs_lem,
}

weed-mem : (n : ℕ) (m : GoMap ℕ ℕ) {id : ℕ} → Memᴰ id (weed n m) → Memᴰ (id, n) m
unfolding weed
weed-mem n [] h = absurd (Memᴰ.not-nil h)
weed-mem n ((k, count) ∷ rest) {id} h = elim (Bool-cases (count == n)) [
  | inr short ↦ Memᴰ.tail (weed-mem n rest (rw short at h))
  | inl full ↦ elim (Memᴰ.cases_cons (rw full at h)) [
    | inl same ↦ Memᴰ.head (cc (same, beq→eq count n full))
    | inr later ↦ Memᴰ.tail (weed-mem n rest later)
  ]
]

pub mem-weed : (n : ℕ) (m : GoMap ℕ ℕ) {id : ℕ} → Memᴰ (id, n) m → Memᴰ id (weed n m)
unfolding weed
mem-weed n [] h = absurd (Memᴰ.not-nil h)
mem-weed n ((k, count) ∷ rest) {id} (Memᴰ.head same) =
    rw (sym (ap (λ (p : ℕ × ℕ). p.1) same), beq_refl n) (Memᴰ.head (ap (λ (p : ℕ × ℕ). p.0) same))
mem-weed n ((k, count) ∷ rest) {id} (Memᴰ.tail later) = elim (Bool-cases (count == n)) [
  | inr short ↦ rw short (mem-weed n rest later)
  | inl full ↦ rw full (Memᴰ.tail (mem-weed n rest later))
]

found : (k id v n : ℕ) → k ≡ id → some v ≡ some n → ◌≡◌ {A = ℕ × ℕ} (id, n) (k, v)
found k id v n p q = cc (p, q)

pair-lookup : (m : GoMap ℕ ℕ) (id n : ℕ) → lookup id m ≡ some n → Memᴰ (id, n) m
unfolding lookup
pair-lookup [] id n h = cc h
pair-lookup ((k, v) ∷ m) id n h = elim (Bool-cases (k == id)) [
  | inl same ↦ Memᴰ.head (found k id v n (beq→eq k id same) (rw same at h))
  | inr other ↦ Memᴰ.tail (pair-lookup m id n (rw other at h))
]

amount-lookup : (n : ℕ) (o : Option ℕ) → 0 < n → amount o ≡ n → o ≡ some n
amount-lookup n none h e = absurd (omega arith)
amount-lookup n (some k) h e = ap some e

-- Where the keys are distinct, `weed` finds the entries whose count is `n`.
pub weed_iff :
    (n : ℕ) (m : GoMap ℕ ℕ) (id : ℕ)
    → IsNodup (keys m)
    → 0 < n
    → Memᴰ (id, n) m ↔ (amount (lookup id m) ≡ n)
weed_iff n m id d h =
    (λ p. ap amount (mem-lookup m d p), λ e. pair-lookup m id n (amount-lookup n (lookup id m) h e))

-- The entry of a row, with the selectors that are stored for it.
abbrev pub entry_at : List SelectorRow → RegisteredEntry → RegistrationEntry
entry_at selectors row = message_of row (select (of_entry row.id) selectors)

-- The entry of a row has a selector just where one of its rows has.
entry_at-HasSelector :
    (rows : List SelectorRow) (row : RegisteredEntry) (x : Selector)
    → HasSelector row.id rows x ↔ Memᴰ x (entry_at rows row).selectors
entry_at-HasSelector rows row x = (
  (λ (r, m, owner, has). Memᴰ.cast (sym has) (
      Memᴰ.map selector_of (
        select-mem (of_entry row.id) rows m
          ((nat_comparable.test_iff r.registered_entry_id row.id).1 owner)))),
  λ m.
      let (r, here, has) = Memᴰ.of_map selector_of (select (of_entry row.id) rows) m in
      let (there, owner) = mem-select (of_entry row.id) rows here in
      (r, there, beq→eq r.registered_entry_id row.id owner, has),
)

-- The requested selectors are all the entry's.
abbrev pub Has : RegistrationEntry → List Selector → Type 0
Has e selectors = All (λ x. Memᴰ x e.selectors) selectors

pub entry_at-Has :
    (rows : List SelectorRow) (row : RegisteredEntry) (selectors : List Selector)
    → All (HasSelector row.id rows) selectors ↔ Has (entry_at rows row) selectors
entry_at-Has rows row [] = (λ h. tt, λ h. tt)
entry_at-Has rows row (x ∷ rest) = (
  λ h. ((entry_at-HasSelector rows row x).0 h.0, (entry_at-Has rows row rest).0 h.1),
  λ h. ((entry_at-HasSelector rows row x).1 h.0, (entry_at-Has rows row rest).1 h.1),
)

abbrev pub key_of : RegisteredEntry → ℕ
key_of row = row.id

module _ {σ : Type 0} (ds : Plugin σ) (entries : σ → List RegisteredEntry)
    (selectors : σ → List SelectorRow) (reads_entries : Reads ds.db.registered_entries entries)
    (reads_selectors : Reads ds.db.selectors selectors) where
  pub convert_each_lem :
      (rows : List RegisteredEntry) (s : σ)
      → convert_each ds rows s ≡ (ok (map (entry_at (selectors s)) rows), s)
  unfolding convert_each
  convert_each_lem [] s = refl
  convert_each_lem (row ∷ rest) s =
      rw (reads_selectors.find_lem (of_entry row.id) s, convert_each_lem rest s) refl

  -- The ids of entries that are stored bring their rows, and those alone.
  fetch_ids_lem :
      (ids : List ℕ) (s : σ)
      → IsNodup (map key_of (entries s))
      → ((id : ℕ) → Memᴰ id ids → Memᴰ id (map key_of (entries s)))
      → (rows : List RegisteredEntry) × (fetch_ids ds ids s ≡ (ok rows, s))
        × ((r : RegisteredEntry) → Memᴰ r rows ↔ (Memᴰ r (entries s) × Memᴰ r.id ids))
  unfolding fetch_ids
  fetch_ids_lem [] s d h =
      ([], refl, λ r. ((λ m. absurd (Memᴰ.not-nil m)), λ p. absurd (Memᴰ.not-nil p.1)))
  fetch_ids_lem (id ∷ rest) s d h =
      let (rows, done, all) = fetch_ids_lem rest s d (λ i m. h i (Memᴰ.tail m)) in
      elim (Option-cases (reads_entries.pick (has_key id) s)) [
        | inl e ↦
            let (r, m, same) = Memᴰ.of_map key_of (entries s) (h id (Memᴰ.head refl)) in
            absurd (
              false≢true (
                sym (reads_entries.pick_none (has_key id) s r e m)
                ∙ (nat_comparable.test_iff r.id id).1 same))
        | inr (row, e) ↦
            let (here, same) = reads_entries.pick_some (has_key id) s row e in
            let key = beq→eq row.id id same in
            (
              row ∷ rows,
              rw (reads_entries.find_one_lem (has_key id) s, e, done) refl,
              λ r. (
                (λ m. elim (Memᴰ.cases_cons m) [
                  | inl p ↦ (Memᴰ.cast p here, Memᴰ.head (ap key_of p ∙ key))
                  | inr q ↦ (((all r).0 q).0, Memᴰ.tail ((all r).0 q).1)
                ]),
                λ (there, m). elim (Memᴰ.cases_cons m) [
                  | inl p ↦ Memᴰ.head (same_key key_of (entries s) r row d there here (p ∙ sym key))
                  | inr q ↦ Memᴰ.tail ((all r).1 (there, q))
                ],
              ),
            )
      ]

-- What a consistent database has: entries with distinct keys, selectors that are distinct for each
-- entry, as the unique index of their table demands, and no selector of an entry that is not there.
pub record IsSound (entries : List RegisteredEntry) (selectors : List SelectorRow) : Type 0 where
  pub distinct : IsNodup (map key_of entries)
  pub unique : IsNodup (map index_of selectors)
  pub owned : (r : SelectorRow) → Memᴰ r selectors → Memᴰ r.registered_entry_id (map key_of entries)

pub at_least : (asked : List Selector) → ltb (length asked) 1 ≡ false → 0 < length asked
at_least asked h = ground arith

module _ {σ : Type 0} (ds : Plugin σ) (entries : σ → List RegisteredEntry)
    (selectors : σ → List SelectorRow) (reads_entries : Reads ds.db.registered_entries entries)
    (reads_selectors : Reads ds.db.selectors selectors)
    (range_iff : (m : GoMap ℕ ℕ) (p : ℕ × ℕ) → Memᴰ p (ds.range m) ↔ Memᴰ p m)
    (sort_iff : (es : List RegistrationEntry) (e : RegistrationEntry)
      → Memᴰ e (ds.sort less es) ↔ Memᴰ e es) where
  -- The ids that `weed` keeps of the counts are those of the entries that have every selector.
  pub weed-total :
      (asked : List Selector) (counts : GoMap ℕ ℕ) (s : σ)
      → IsSound (entries s) (selectors s)
      → IsNodup (keys counts)
      → ((id : ℕ) → amount (lookup id counts) ≡ total id (selectors s) asked)
      → 0 < length asked
      → (id : ℕ)
      → Memᴰ id (weed (length asked) (ds.range counts)) ↔ All (HasSelector id (selectors s)) asked
  weed-total asked counts s sound d count some_asked id =
      let n = length asked in
      let counted = weed_iff n counts id d some_asked in
      let all = total_iff id (selectors s) asked sound.unique in
      (
        (λ m. all.0 (
            sym (count id)
            ∙ counted.0 ((range_iff counts (id, n)).0 (weed-mem n (ds.range counts) m)))),
        λ h.
            mem-weed n (ds.range counts)
              ((range_iff counts (id, n)).1 (counted.1 (count id ∙ all.1 h))),
      )

  owner :
      (asked : List Selector) (id : ℕ) (s : σ)
      → IsSound (entries s) (selectors s)
      → 0 < length asked
      → All (HasSelector id (selectors s)) asked
      → Memᴰ id (map key_of (entries s))
  owner [] id s sound some_asked h = absurd (omega arith)
  owner (x ∷ rest) id s sound some_asked h =
      let (r, m, mine, has) = h.0 in Memᴰ.cast (sym mine) (sound.owned r m)

  -- While the database answers and is consistent, `ListMatchingEntries` of at least one selector
  -- answers the stored entries that have every one of the selectors, and no others.
  pub list_matching_entries_iff :
      (asked : List Selector) (s : σ)
      → IsSound (entries s) (selectors s)
      → ltb (length asked) 1 ≡ false
      → (es : List RegistrationEntry) × (list_matching_entries ds asked s ≡ (ok es, s))
        × ((e : RegistrationEntry)
            → Memᴰ e es ↔ (Memᴰ e (map (entry_at (selectors s)) (entries s)) × Has e asked))
  unfolding list_matching_entries matching_entries convert_entries lookup
  list_matching_entries_iff asked s sound some_asked =
      let (counts, counted, d, count) = count_refs_lem ds selectors reads_selectors [] asked s tt in
      let weeded =
        weed-total asked counts s sound d (λ id. omega (arith, count id))
          (at_least asked some_asked) in
      let (rows, fetched, found) =
        fetch_ids_lem ds entries selectors reads_entries reads_selectors
          (weed (length asked) (ds.range counts)) s sound.distinct
          (λ id m. owner asked id s sound (at_least asked some_asked) ((weeded id).0 m)) in
      (
        ds.sort less (map (entry_at (selectors s)) rows),
        rw
            (
              some_asked,
              counted,
              fetched,
              convert_each_lem ds entries selectors reads_entries reads_selectors rows s,
            )
            refl,
        λ e. (
          (λ m.
              let (row, here, same) =
                Memᴰ.of_map (entry_at (selectors s)) rows ((sort_iff _ e).0 m) in
              let (there, id) = (found row).0 here in
              (
                Memᴰ.cast (sym same) (Memᴰ.map (entry_at (selectors s)) there),
                subst (λ x. Has x asked) same
                    ((entry_at-Has (selectors s) row asked).0 ((weeded row.id).0 id)),
              )),
          λ (m, has).
              let (row, there, same) = Memᴰ.of_map (entry_at (selectors s)) (entries s) m in
              let all =
                (entry_at-Has (selectors s) row asked).1
                  (subst (λ x. Has x asked) (sym same) has) in
              (sort_iff _ e).1 (
                Memᴰ.cast (sym same) (
                  Memᴰ.map (entry_at (selectors s))
                    ((found row).1 (there, (weeded row.id).1 all)))),
        ),
      )
