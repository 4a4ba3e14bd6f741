-- ===== src/Server/SqlStore/Entries/Orphans.antt =====
-- `DeleteRegistrationEntry` of the SQL data store leaves the rows of the entry's selectors behind.
use mathlib.Core.List.Memᴰ
use spiffe_spire.Prelude.{
  ℕ, ◌≡◌, ◌↔◌, refl, sym, ap, inl, inr, ◌∙◌, false, not, List, [], ◌∷◌, map, Memᴰ, All, IsNodup,
  arith, ◌==◌, nat_comparable, string_comparable, beq→eq, beq_refl, Option-cases, length, ltb,
}
use spiffe_spire.Prelude.Action.{ok, failed}
use spiffe_spire.Prelude.GoMap.{GoMap, lookup}
use spiffe_spire.Common.Messages.{RegistrationEntry}
use spiffe_spire.Common.Selector.{Selector}
use spiffe_spire.Server.Gorm.{RegisteredEntry, SelectorRow}
use spiffe_spire.Server.Gorm.Laws.{Reads, Deletes, pick_only, select, mem-select, same_key}
use spiffe_spire.Server.SqlStore.{Plugin}
use spiffe_spire.Server.SqlStore.Entries.{
  has_key, has_entry_id, less, weed, fetch_ids, convert_entries, first_entry, matching_entries,
  list_matching_entries, delete_registration_entry,
}
use spiffe_spire.Server.SqlStore.Entries.Counting.{
  HasSelector, index_of, amount, total_iff, count_refs_lem,
}
use spiffe_spire.Server.SqlStore.Entries.Matching.{
  IsSound, Has, entry_at-Has, entry_at, key_of, at_least, mem-weed, weed_iff, convert_each_lem,
}

module _ {σ : Type 0} (ds : Plugin σ) (entries : σ → List RegisteredEntry)
    (selectors : σ → List SelectorRow) (reads_entries : Reads ds.db.registered_entries entries)
    (reads_selectors : Reads ds.db.selectors selectors)
    (range_iff : (m : GoMap ℕ ℕ) (p : ℕ × ℕ) → Memᴰ p (ds.range m) ↔ Memᴰ p m)
    (sort_iff : (es : List RegistrationEntry) (e : RegistrationEntry)
      → Memᴰ e (ds.sort less es) ↔ Memᴰ e es) where
  fetch_ids-missing :
      (id : ℕ) (ids : List ℕ) (s : σ)
      → Memᴰ id ids
      → ¬ Memᴰ id (map key_of (entries s))
      → fetch_ids ds ids s ≡ (failed "record not found", s)
  unfolding fetch_ids
  fetch_ids-missing id [] s m gone = absurd (Memᴰ.not-nil m)
  fetch_ids-missing id (i ∷ rest) s m gone =
      elim (Option-cases (reads_entries.pick (has_key i) s)) [
        | inl e ↦ rw (reads_entries.find_one_lem (has_key i) s, e) refl
        | inr (row, e) ↦
            let (here, key) = reads_entries.pick_some (has_key i) s row e in
            rw (reads_entries.find_one_lem (has_key i) s, e)
              (elim (Memᴰ.cases_cons m) [
                | inl same ↦
                    absurd
                      (gone (Memᴰ.cast (same ∙ sym (beq→eq row.id i key)) (Memᴰ.map key_of here)))
                | inr later ↦ rw (fetch_ids-missing id rest s later gone) refl
              ])
      ]

  -- When all of the requested selectors stand in rows of an entry that is not there, then
  -- `ListMatchingEntries` fails, whichever entries match beside it.
  pub list_matching_entries-orphan :
      (asked : List Selector) (id : ℕ) (s : σ)
      → IsNodup (map index_of (selectors s))
      → ltb (length asked) 1 ≡ false
      → All (HasSelector id (selectors s)) asked
      → ¬ Memᴰ id (map key_of (entries s))
      → list_matching_entries ds asked s ≡ (failed "record not found", s)
  unfolding list_matching_entries matching_entries lookup
  list_matching_entries-orphan asked id s unique some_asked has gone =
      let (counts, counted, d, count) = count_refs_lem ds selectors reads_selectors [] asked s tt in
      let n = length asked in
      let full : amount (lookup id counts) ≡ n =
        omega (arith, count id, (total_iff id (selectors s) asked unique).1 has) in
      let listed : Memᴰ id (weed n (ds.range counts)) = mem-weed n (ds.range counts) (
        (range_iff counts (id, n)).1
          ((weed_iff n counts id d (at_least asked some_asked)).1 full)) in
      rw (some_asked, counted, fetch_ids-missing id (weed n (ds.range counts)) s listed gone) refl

  -- An answer, when there is at least one entry.
  some_entry :
      (es : List RegistrationEntry) (e : RegistrationEntry) (t : σ)
      → Memᴰ e es
      → (e' : RegistrationEntry) × (first_entry ds es t ≡ (ok e', t))
  some_entry [] e t m = absurd (Memᴰ.not-nil m)
  some_entry (e' ∷ rest) e t m = (e', refl)

  gone-select :
      (id : ℕ) (rows : List RegisteredEntry)
      → ¬ Memᴰ id (map key_of (select (λ r. not (key_of r == id)) rows))
  gone-select id rows m =
      let (r, here, same) = Memᴰ.of_map key_of (select (λ r. not (key_of r == id)) rows) m in
      cc (
        (mem-select (λ r. not (key_of r == id)) rows here).1,
        ap not ((nat_comparable.test_iff r.id id).1 same),
      )

  -- After `DeleteRegistrationEntry` of an entry, `ListMatchingEntries` fails for every list of its
  -- selectors, since their rows stay.
  pub delete_registration_entry-orphans :
      (deletes : Deletes ds.db.registered_entries entries key_of)
      (keeps : (n : ℕ) (s t : σ)
        → ds.db.registered_entries.delete n s ≡ (ok tt, t)
        → selectors t ≡ selectors s)
      (row : RegisteredEntry) (asked : List Selector) (s : σ)
      → IsSound (entries s) (selectors s)
      → Memᴰ row (entries s)
      → (row.id == 0) ≡ false
      → IsNodup (map (λ r. r.entry_id) (entries s))
      → ltb (length asked) 1 ≡ false
      → Has (entry_at (selectors s) row) asked
      → (e : RegistrationEntry) × (t : σ) × (delete_registration_entry ds row.entry_id s
          ≡ (ok e, t))
        × (list_matching_entries ds asked t ≡ (failed "record not found", t))
  unfolding delete_registration_entry convert_entries
  delete_registration_entry-orphans deletes keeps row asked s sound m keyed named some_asked has =
      let found =
        pick_only ds.db.registered_entries entries reads_entries (has_entry_id row.entry_id) s row m
          (beq_refl row.entry_id)
          (λ r here fits.
            same_key (λ (x : RegisteredEntry). x.entry_id) (entries s) r row named here m
              (beq→eq r.entry_id row.entry_id fits)) in
      let (t, deleted, left) = deletes.delete_lem row.id s in
      let same : selectors t ≡ selectors s = keeps row.id s t deleted in
      let listed =
        convert_each_lem ds entries selectors reads_entries reads_selectors (row ∷ []) t in
      let (e, first) =
        some_entry (ds.sort less (map (entry_at (selectors t)) (row ∷ [])))
          (entry_at (selectors t) row) t ((sort_iff _ _).1 (Memᴰ.head refl)) in
      (
        e,
        t,
        rw (reads_entries.find_one_lem (has_entry_id row.entry_id) s, found, deleted, listed) first,
        list_matching_entries-orphan asked row.id t (rw same sound.unique) some_asked
            (rw same ((entry_at-Has (selectors s) row asked).1 has))
            (rw (left, keyed) (gone-select row.id (entries s))),
      )
