-- ===== src/Tests/Databases.antt =====
-- A database in memory, which keeps every row that is not deleted softly, to run the theorems about
-- the SQL data store on.
use mathlib.Core.List.Memᴰ
use spiffe_spire.Prelude.{
  ℕ, ◌+◌, ◌≡◌, refl, sym, ap, inl, inr, ◌∙◌, Bool, false, false≢true, not, Option, none, some, List,
  [], ◌∷◌, ◌++◌, map, Memᴰ, ◌==◌, nat_comparable, string_comparable, beq→eq, beq_refl, Bool-cases,
  if◌then◌else◌,
}
use spiffe_spire.Prelude.Action.{Result, ok, failed, return}
use spiffe_spire.Server.Gorm.{Gorm, Table, TokenRow, RegisteredEntry, SelectorRow}
use spiffe_spire.Server.Gorm.Laws.{Reads, Deletes, Creates, select, mem-select, select-mem}

pub record Db : Type 0 where
  pub next : ℕ
  pub tokens : List TokenRow
  pub entries : List RegisteredEntry
  pub selectors : List SelectorRow

abbrev first : {Row : Type 0} → List Row → Option Row
first [] = none
first (r ∷ rest) = some r

-- A table of the database, read and written by two functions.
module _ {Row : Type 0} (rows : Db → List Row) (write : List Row → Db → Db) (key : Row → ℕ) where
  abbrev pub drop_key : ℕ → List Row → List Row
  drop_key n all = if n == 0 then [] else select (λ r. not (key r == n)) all

  abbrev pub inserted : (ℕ → Row → Row) → Row → Db → List Row → Result Row × Db
  inserted numbered r s [] = (
    ok (numbered s.next r),
    record (write (rows s ++ numbered s.next r ∷ []) s) { next = s.next + 1 },
  )
  inserted numbered r s (x ∷ more) = (failed "UNIQUE constraint failed", s)

  abbrev pub table : (ℕ → Row → Row) → (Row → Row → Bool) → Table Db Row
  table numbered clash = record {
    create = λ r s. inserted numbered r s (select (clash r) (rows s));
    find = λ p s. (ok (select p (rows s)), s);
    find_one = λ p s. (ok (first (select p (rows s))), s);
    save = λ r s. (ok tt, s);
    delete = λ n s. (ok tt, write (drop_key n (rows s)) s);
    delete_where = λ p s. (ok tt, write (select (λ r. not (p r)) (rows s)) s);
    exec_delete = λ p s. (ok tt, write (select (λ r. not (p r)) (rows s)) s);
  }

abbrev empty_table : {Row : Type 0} → Table Db Row
empty_table = record {
  create = λ r. return r;
  find = λ p. return [];
  find_one = λ p. return none;
  save = λ r. return tt;
  delete = λ n. return tt;
  delete_where = λ p. return tt;
  exec_delete = λ p. return tt;
}

-- A table that is read alone, with rows that stay.
abbrev pub fixed : {Row : Type 0} → List Row → Table Db Row
fixed rows = record empty_table {
  find = λ p s. (ok (select p rows), s);
  find_one = λ p s. (ok (first (select p rows)), s);
}

abbrev pub tokens_of : Db → List TokenRow
tokens_of s = s.tokens

abbrev pub entries_of : Db → List RegisteredEntry
entries_of s = s.entries

abbrev pub selectors_of : Db → List SelectorRow
selectors_of s = s.selectors

abbrev pub token_table : Table Db TokenRow
token_table =
    table tokens_of (λ rows s. record s { tokens = rows }) (λ r. r.id) (λ n r. record r { id = n })
      (λ r x. x.token == r.token)

abbrev pub entry_table : Table Db RegisteredEntry
entry_table =
    table entries_of (λ rows s. record s { entries = rows }) (λ r. r.id)
      (λ n r. record r { id = n }) (λ r x. x.entry_id == r.entry_id)

abbrev pub selector_table : Table Db SelectorRow
selector_table =
    table selectors_of (λ rows s. record s { selectors = rows }) (λ r. r.id)
      (λ n r. record r { id = n }) (λ r x. false)

abbrev pub gorm : Gorm Db
gorm = record {
  bundles = empty_table;
  ca_certs = empty_table;
  attested_nodes = empty_table;
  resolver_entries = empty_table;
  registered_entries = entry_table;
  selectors = selector_table;
  join_tokens = token_table;
  commit = return tt;
  rollback = λ begun s. begun;
}

module _ {Row : Type 0} where
  abbrev first_of : (Row → Bool) → List Row → Option Row
  first_of p rows = first (select p rows)

  some_inj : {a b : Row} → some a ≡ some b → a ≡ b
  some_inj e = cc e

  first-mem : (rows : List Row) (r : Row) → first rows ≡ some r → Memᴰ r rows
  first-mem [] r e = cc e
  first-mem (x ∷ rest) r e = Memᴰ.head (sym (some_inj e))

  first-none : (rows : List Row) (r : Row) → first rows ≡ none → ¬ Memᴰ r rows
  first-none [] r e = Memᴰ.not-nil
  first-none (x ∷ rest) r e = cc e

  first_of-none :
      (p : Row → Bool) (rows : List Row) (r : Row)
      → first_of p rows ≡ none
      → Memᴰ r rows
      → p r ≡ false
  first_of-none p rows r e m = elim (Bool-cases (p r)) [
    | inr no_match ↦ no_match
    | inl fits ↦ absurd (first-none (select p rows) r e (select-mem p rows m fits))
  ]

-- The tables keep the laws of gorm.
pub token_reads : Reads token_table tokens_of
token_reads = record {
  pick = λ p s. first_of p (tokens_of s);
  find_lem = λ p s. refl;
  find_one_lem = λ p s. refl;
  pick_some = λ p s r e. mem-select p (tokens_of s) (first-mem (select p (tokens_of s)) r e);
  pick_none = λ p s r e m. first_of-none p (tokens_of s) r e m;
}

pub entry_reads : Reads entry_table entries_of
entry_reads = record {
  pick = λ p s. first_of p (entries_of s);
  find_lem = λ p s. refl;
  find_one_lem = λ p s. refl;
  pick_some = λ p s r e. mem-select p (entries_of s) (first-mem (select p (entries_of s)) r e);
  pick_none = λ p s r e m. first_of-none p (entries_of s) r e m;
}

pub selector_reads : Reads selector_table selectors_of
selector_reads = record {
  pick = λ p s. first_of p (selectors_of s);
  find_lem = λ p s. refl;
  find_one_lem = λ p s. refl;
  pick_some = λ p s r e. mem-select p (selectors_of s) (first-mem (select p (selectors_of s)) r e);
  pick_none = λ p s r e m. first_of-none p (selectors_of s) r e m;
}

pub fixed-Reads : {Row : Type 0} (rows : List Row) → Reads (fixed rows) (λ s. rows)
fixed-Reads rows = record {
  pick = λ p s. first_of p rows;
  find_lem = λ p s. refl;
  find_one_lem = λ p s. refl;
  pick_some = λ p s r e. mem-select p rows (first-mem (select p rows) r e);
  pick_none = λ p s r e m. first_of-none p rows r e m;
}

pub token_table-Deletes : Deletes token_table tokens_of (λ r. r.id)
token_table-Deletes = record {
  delete_lem = λ n s. (
    record s {
      tokens = drop_key tokens_of (λ rows u. record u { tokens = rows }) (λ r. r.id) n s.tokens;
    },
    refl,
    refl,
  );
}

pub entry_table-Deletes : Deletes entry_table entries_of (λ r. r.id)
entry_table-Deletes = record {
  delete_lem = λ n s. (
    record s {
      entries = drop_key entries_of (λ rows u. record u { entries = rows }) (λ r. r.id) n s.entries;
    },
    refl,
    refl,
  );
}

clash_free :
    (r : TokenRow) (rows : List TokenRow)
    → ¬ Memᴰ r.token (map (λ (x : TokenRow). x.token) rows)
    → select (λ x. x.token == r.token) rows ≡ []
clash_free r [] h = refl
clash_free r (x ∷ rest) h = elim (Bool-cases (x.token == r.token)) [
  | inl clash ↦ absurd (h (Memᴰ.head (sym (beq→eq x.token r.token clash))))
  | inr other ↦ rw other (clash_free r rest (λ m. h (Memᴰ.tail m)))
]

clashing :
    (r : TokenRow) (rows : List TokenRow)
    → Memᴰ r.token (map (λ (x : TokenRow). x.token) rows)
    → (x : TokenRow) × (more : List TokenRow) × (select (λ x. x.token == r.token) rows ≡ x ∷ more)
clashing r [] m = absurd (Memᴰ.not-nil m)
clashing r (x ∷ rest) m = elim (Bool-cases (x.token == r.token)) [
  | inl clash ↦ (x, select (λ x. x.token == r.token) rest, rw clash refl)
  | inr other ↦ elim (Memᴰ.cases_cons m) [
    | inl same ↦ absurd (false≢true (sym other ∙ rw same (beq_refl x.token)))
    | inr later ↦ let (y, more, e) = clashing r rest later in (y, more, rw other e)
  ]
]

abbrev insert_token : TokenRow → Db → List TokenRow → Result TokenRow × Db
insert_token =
    inserted tokens_of (λ rows u. record u { tokens = rows }) (λ r. r.id)
      (λ n r. record r { id = n })

pub token_table-Creates :
    Creates token_table tokens_of tokens_of (λ n r. record r { id = n }) (λ r. r.token)
token_table-Creates = record {
  create_lem = λ r s fresh. (
    s.next,
    record s { tokens = s.tokens ++ record r { id = s.next } ∷ []; next = s.next + 1 },
    ap (insert_token r s) (clash_free r s.tokens fresh),
    refl,
  );
  clash_lem = λ r s m.
      let (x, more, e) = clashing r s.tokens m in
      ("UNIQUE constraint failed", ap (insert_token r s) e);
  live_kept = λ s k m. m;
}
