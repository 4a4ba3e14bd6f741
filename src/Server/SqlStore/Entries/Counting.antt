-- ===== src/Server/SqlStore/Entries/Counting.antt =====
-- The reference counts of `listMatchingEntries`: how many of the requested selectors an entry has.
use mathlib.Core.List.Memᴰ
use spiffe_spire.Prelude.{
  ℕ, ◌+◌, ◌≤◌, ◌≡◌, ◌↔◌, refl, sym, ap, inl, inr, Bool, true, ◌&&◌, Option, none, some, List, [],
  ◌∷◌, map, Memᴰ, All, IsNodup, arith, ◌==◌, nat_comparable, beq→eq, Bool-cases, Option-cases,
  length, if◌then◌else◌,
}
use spiffe_spire.Prelude.Action.{ok}
use spiffe_spire.Prelude.GoMap.{GoMap, keys, lookup, lookup-insert, keys-insert-IsNodup}
use spiffe_spire.Common.Selector.{Selector, selector_test_iff}
use spiffe_spire.Server.Gorm.{SelectorRow}
use spiffe_spire.Server.Gorm.Laws.{Reads, select}
use spiffe_spire.Server.SqlStore.{Plugin}
use spiffe_spire.Server.SqlStore.Entries.{
  is_selector, of_entry, selector_of, counted, count_rows, count_refs,
}

abbrev pub amount : Option ℕ → ℕ
amount none = 0
amount (some n) = n

-- The number of rows of the entry.
abbrev pub rows_of : ℕ → List SelectorRow → ℕ
rows_of id [] = 0
rows_of id (r ∷ rest) = let behind = rows_of id rest in if of_entry id r then behind + 1 else behind

lookup-counted :
    (k id : ℕ) (m : GoMap ℕ ℕ)
    → amount (lookup id (counted (lookup k m) k m))
      ≡ amount (lookup id m) + (if k == id then 1 else 0)
lookup-counted k id m = elim (Bool-cases (k == id)) [
  | inl same ↦ elim (Option-cases (lookup k m)) [
    | inl e ↦ rw (e, lookup-insert k id 1 m, same, sym (beq→eq k id same), e) refl
    | inr (n, e) ↦ rw (e, lookup-insert k id (n + 1) m, same, sym (beq→eq k id same), e) refl
  ]
  | inr other ↦ elim (Option-cases (lookup k m)) [
    | inl e ↦ rw (e, lookup-insert k id 1 m, other) (omega arith)
    | inr (n, e) ↦ rw (e, lookup-insert k id (n + 1) m, other) (omega arith)
  ]
]

counted-IsNodup :
    (k : ℕ) (m : GoMap ℕ ℕ) → IsNodup (keys m) → IsNodup (keys (counted (lookup k m) k m))
counted-IsNodup k m d = elim (Option-cases (lookup k m)) [
  | inl e ↦ rw e (keys-insert-IsNodup k 1 m d)
  | inr (n, e) ↦ rw e (keys-insert-IsNodup k (n + 1) m d)
]

lookup-count_rows :
    (id : ℕ) (m : GoMap ℕ ℕ) (rows : List SelectorRow)
    → amount (lookup id (count_rows m rows)) ≡ amount (lookup id m) + rows_of id rows
unfolding count_rows
lookup-count_rows id m [] = omega arith
lookup-count_rows id m (r ∷ rest) =
    let k = r.registered_entry_id in
    ground (arith, lookup-count_rows id (counted (lookup k m) k m) rest, lookup-counted k id m)

count_rows-IsNodup :
    (m : GoMap ℕ ℕ) (rows : List SelectorRow)
    → IsNodup (keys m)
    → IsNodup (keys (count_rows m rows))
unfolding count_rows
count_rows-IsNodup m [] d = d
count_rows-IsNodup m (r ∷ rest) d =
    count_rows-IsNodup (counted (lookup r.registered_entry_id m) r.registered_entry_id m) rest
      (counted-IsNodup r.registered_entry_id m d)

-- The number of rows of the entry that have one of the selectors, over all of them.
abbrev pub total : ℕ → List SelectorRow → List Selector → ℕ
total id rows [] = 0
total id rows (s ∷ rest) = rows_of id (select (is_selector s) rows) + total id rows rest

module _ {σ : Type 0} (ds : Plugin σ) (live : σ → List SelectorRow) where
  -- While the database answers, the loop over the selectors counts each entry's rows.
  pub count_refs_lem :
      (reads : Reads ds.db.selectors live) (m : GoMap ℕ ℕ) (selectors : List Selector) (s : σ)
      → IsNodup (keys m)
      → (counts : GoMap ℕ ℕ) × (count_refs ds m selectors s ≡ (ok counts, s))
        × IsNodup (keys counts)
        × ((id : ℕ)
            → amount (lookup id counts) ≡ amount (lookup id m) + total id (live s) selectors)
  unfolding count_refs
  count_refs_lem reads m [] s d = (m, refl, d, λ id. omega arith)
  count_refs_lem reads m (x ∷ rest) s d =
      let found = select (is_selector x) (live s) in
      let (counts, done, d', h) =
        count_refs_lem reads (count_rows m found) rest s (count_rows-IsNodup m found d) in
      (
        counts,
        rw (reads.find_lem (is_selector x) s) done,
        d',
        λ id. omega (arith, h id, lookup-count_rows id m found),
      )

and_true : (a b : Bool) → (a && b) ≡ true → (a ≡ true) × (b ≡ true)
and_true a b h = ground arith

more : (b : Bool) (n : ℕ) → 1 ≤ n → 1 ≤ (if b then 1 + n else n)
more b n h = ground arith

at_most_one : (n : ℕ) → ¬ (1 ≤ n) → 1 + n ≤ 1
at_most_one n h = omega arith

pair_eq : {A B : Type 0} {a c : A} {b d : B} → a ≡ c → b ≡ d → ◌≡◌ {A = A × B} (a, b) (c, d)
pair_eq p q = cc (p, q)

-- The entry has a row with the selector.
abbrev pub HasSelector : ℕ → List SelectorRow → Selector → Type 0
HasSelector id rows s =
    (r : SelectorRow) × Memᴰ r rows × (r.registered_entry_id ≡ id) × (selector_of r ≡ s)

-- The columns of the unique index of the table.
abbrev pub index_of : SelectorRow → ℕ × Selector
index_of r = (r.registered_entry_id, selector_of r)

-- Whether a row is the entry's and has the selector.
abbrev fits : ℕ → Selector → SelectorRow → Bool
fits id s r = of_entry id r && is_selector s r

rows_of-cons :
    (id : ℕ) (s : Selector) (r : SelectorRow) (rest : List SelectorRow)
    → rows_of id (select (is_selector s) (r ∷ rest)) ≡ (
        if fits id s r
        then 1 + rows_of id (select (is_selector s) rest)
        else rows_of id (select (is_selector s) rest))
rows_of-cons id s r rest = ground arith

fits_iff :
    (id : ℕ) (s : Selector) (r : SelectorRow)
    → (fits id s r ≡ true) ↔ ((r.registered_entry_id ≡ id) × (selector_of r ≡ s))
fits_iff id s r = (
  λ h.
      let both = and_true (of_entry id r) (is_selector s r) h in
      (beq→eq r.registered_entry_id id both.0, (selector_test_iff (selector_of r) s).0 both.1),
  λ h.
      rw
        (
          (nat_comparable.test_iff r.registered_entry_id id).1 h.0,
          (selector_test_iff (selector_of r) s).1 h.1,
        )
        refl,
)

rows_of-HasSelector :
    (id : ℕ) (s : Selector) (rows : List SelectorRow)
    → 1 ≤ rows_of id (select (is_selector s) rows)
    → HasSelector id rows s
rows_of-HasSelector id s [] h = absurd (omega arith)
rows_of-HasSelector id s (r ∷ rest) h = elim (Bool-cases (fits id s r)) [
  | inl here ↦ let (owner, has) = (fits_iff id s r).0 here in (r, Memᴰ.head refl, owner, has)
  | inr not_here ↦
      let (t, m, owner, has) =
        rows_of-HasSelector id s rest (rw (rows_of-cons id s r rest, not_here) at h) in
      (t, Memᴰ.tail m, owner, has)
]

rows_of_pos :
    (id : ℕ) (s : Selector) (r : SelectorRow) (rows : List SelectorRow)
    → Memᴰ r rows
    → fits id s r ≡ true
    → 1 ≤ rows_of id (select (is_selector s) rows)
rows_of_pos id s r [] m h = absurd (Memᴰ.not-nil m)
rows_of_pos id s r (t ∷ rest) (Memᴰ.head same) h =
    rw (rows_of-cons id s t rest, ap (fits id s) (sym same), h) (omega arith)
rows_of_pos id s r (t ∷ rest) (Memᴰ.tail later) h = rw (rows_of-cons id s t rest) (
    more (fits id s t) (rows_of id (select (is_selector s) rest)) (rows_of_pos id s r rest later h))

rows_of_le :
    (id : ℕ) (s : Selector) (rows : List SelectorRow)
    → IsNodup (map index_of rows)
    → rows_of id (select (is_selector s) rows) ≤ 1
rows_of_le id s [] d = omega arith
rows_of_le id s (r ∷ rest) d = rw (rows_of-cons id s r rest) (elim (Bool-cases (fits id s r)) [
  | inr not_here ↦ rw not_here (rows_of_le id s rest d.1)
  | inl here ↦ rw here (
      at_most_one _ λ more.
        let (t, m, owner', has') = rows_of-HasSelector id s rest more in
        let (owner, has) = (fits_iff id s r).0 here in
        d.0 (Memᴰ.cast (pair_eq (cc (owner, owner')) (cc (has, has'))) (Memᴰ.map index_of m)))
])

total_le :
    (id : ℕ) (rows : List SelectorRow) (selectors : List Selector)
    → IsNodup (map index_of rows)
    → total id rows selectors ≤ length selectors
total_le id rows [] d = omega arith
total_le id rows (s ∷ rest) d = omega (arith, rows_of_le id s rows d, total_le id rows rest d)

-- The count reaches the number of selectors just where the entry has each of them.
pub total_iff :
    (id : ℕ) (rows : List SelectorRow) (selectors : List Selector)
    → IsNodup (map index_of rows)
    → (total id rows selectors ≡ length selectors) ↔ All (HasSelector id rows) selectors
total_iff id rows [] d = (λ e. tt, λ h. refl)
total_iff id rows (s ∷ rest) d =
    let later = total_iff id rows rest d in
    (
      (λ e. (
        rows_of-HasSelector id s rows (omega (arith, total_le id rows rest d)),
        later.0 (omega (arith, rows_of_le id s rows d, total_le id rows rest d)),
      )),
      λ h.
          let (r, m, owner, has) = h.0 in
          omega (
            arith,
            later.1 h.1,
            rows_of_le id s rows d,
            rows_of_pos id s r rows m ((fits_iff id s r).1 (owner, has)),
          ),
    )
