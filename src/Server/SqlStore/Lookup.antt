-- ===== src/Server/SqlStore/Lookup.antt =====
-- The SQL data store answers the lookups of the node API as that expects.
use mathlib.Core.List.Memᴰ
use spiffe_spire.Prelude.{
  ℕ, ◌≡◌, ◌↔◌, refl, sym, ap, ◌∙◌, String, Bool, List, map, Memᴰ, ◌==◌, string_comparable, beq→eq,
}
use spiffe_spire.Prelude.Action.{ok}
use spiffe_spire.Prelude.GoMap.{GoMap}
use spiffe_spire.Common.Messages.{RegistrationEntry}
use spiffe_spire.Server.Gorm.{RegisteredEntry, SelectorRow}
use spiffe_spire.Server.Gorm.Laws.{Reads, select, mem-select, select-mem}
use spiffe_spire.Server.Node.{Handler}
use spiffe_spire.Server.Node.Updates.Shared.{Answers}
use spiffe_spire.Server.SqlStore.{Plugin}
use spiffe_spire.Server.SqlStore.Service.{sql_data_store}
use spiffe_spire.Server.SqlStore.Entries.{less, convert_entries, list_parent_id_entries}
use spiffe_spire.Server.SqlStore.Entries.Matching.{
  IsSound, entry_at, convert_each_lem, list_matching_entries_iff,
}

module _ {σ : Type 0} (ds : Plugin σ) (entries : σ → List RegisteredEntry)
    (selectors : σ → List SelectorRow) (reads_entries : Reads ds.db.registered_entries entries)
    (reads_selectors : Reads ds.db.selectors selectors)
    (range_iff : (m : GoMap ℕ ℕ) (p : ℕ × ℕ) → Memᴰ p (ds.range m) ↔ Memᴰ p m)
    (sort_iff : (es : List RegistrationEntry) (e : RegistrationEntry)
      → Memᴰ e (ds.sort less es) ↔ Memᴰ e es) where
  -- The entries that the store keeps.
  abbrev pub stored : σ → List RegistrationEntry
  stored s = map (entry_at (selectors s)) (entries s)

  list_parent_id_entries_iff :
      (id : String) (s : σ)
      → (es : List RegistrationEntry) × (list_parent_id_entries ds id s ≡ (ok es, s))
        × ((e : RegistrationEntry) → Memᴰ e es ↔ (Memᴰ e (stored s) × (e.parent_id ≡ id)))
  unfolding list_parent_id_entries convert_entries
  list_parent_id_entries_iff id s =
      let child : RegisteredEntry → Bool = λ r. r.parent_id == id in
      let rows = select child (entries s) in
      (
        ds.sort less (map (entry_at (selectors s)) rows),
        rw
            (
              reads_entries.find_lem child s,
              convert_each_lem ds entries selectors reads_entries reads_selectors rows s,
            )
            refl,
        λ e. (
          (λ m.
              let (row, here, same) =
                Memᴰ.of_map (entry_at (selectors s)) rows ((sort_iff _ e).0 m) in
              let (there, parent) = mem-select child (entries s) here in
              (
                Memᴰ.cast (sym same) (Memᴰ.map (entry_at (selectors s)) there),
                sym (ap (λ (x : RegistrationEntry). x.parent_id) same)
                    ∙ beq→eq row.parent_id id parent,
              )),
          λ (m, parent).
              let (row, there, same) = Memᴰ.of_map (entry_at (selectors s)) (entries s) m in
              (sort_iff _ e).1 (
                Memᴰ.cast (sym same) (
                  Memᴰ.map (entry_at (selectors s)) (
                    select-mem child (entries s) there (
                      (string_comparable.test_iff row.parent_id id).1
                        (ap (λ (x : RegistrationEntry). x.parent_id) same ∙ parent))))),
        ),
      )

  -- On a consistent database that answers, the SQL data store finds the registration entries as the
  -- node API expects of a store.
  pub sql_data_store-Answers :
      (h : Handler σ) (s : σ)
      → IsSound (entries s) (selectors s)
      → Answers (record h { ds = sql_data_store ds }) stored s
  sql_data_store-Answers h s sound = record {
    matching = λ asked some_asked.
        list_matching_entries_iff ds entries selectors reads_entries reads_selectors range_iff
          sort_iff asked s sound some_asked;
    parents = λ id. list_parent_id_entries_iff id s;
  }
