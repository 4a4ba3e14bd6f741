-- ===== src/Tests/Updates.antt =====
-- Witnesses and tests on the updates that the node API sends, on the SQL data store.
use spiffe_spire.Prelude.{Bool, ◌≡◌, ◌⊎◌, List, [], ◌∷◌, Memᴰ, arith}
use spiffe_spire.Prelude.Action.{ok}
use spiffe_spire.Common.Messages.{RegistrationEntry}
use spiffe_spire.Common.Selector.{Selector}
use spiffe_spire.Server.Node.Updates.{fetch_entries, sort_entry}
use spiffe_spire.Server.Node.Updates.Shared.{Answers, Shares, fetch_entries_lem}
use spiffe_spire.Server.SqlStore.Lookup.{stored, sql_data_store-Answers}
use spiffe_spire.Tests.{uid}
use spiffe_spire.Tests.Databases.{Db, entries_of, selectors_of, entry_reads, selector_reads}
use spiffe_spire.Tests.Sql.{plugin, handler, database, database-IsSound}

abbrev as_is : (Selector → Selector → Bool) → List Selector → List Selector
as_is test l = l

abbrev kept_entries : Db → List RegistrationEntry
kept_entries =
    stored plugin entries_of selectors_of entry_reads selector_reads (λ m p. ((λ x. x), λ x. x))
      (λ es e. ((λ x. x), λ x. x))

sql_data_store-Answers_example : Answers handler kept_entries database
sql_data_store-Answers_example =
    sql_data_store-Answers plugin entries_of selectors_of entry_reads selector_reads
      (λ m p. ((λ x. x), λ x. x)) (λ es e. ((λ x. x), λ x. x)) handler database database-IsSound

-- The node has the first of the two selectors of the web service, and gets its entry.
answers : Answers handler kept_entries database
answers =
    sql_data_store-Answers plugin entries_of selectors_of entry_reads selector_reads
      (λ m p. ((λ x. x), λ x. x)) (λ es e. ((λ x. x), λ x. x)) handler database database-IsSound

fetch_entries_lem_example :
    (es : List RegistrationEntry) × (fetch_entries as_is handler
        (uid ∷ [])
        "spiffe://example.org/agent"
        database
      ≡ (ok es, database))
    × ((e : RegistrationEntry)
        → Memᴰ e es
        → (e' : RegistrationEntry) × Memᴰ e' (kept_entries database)
          × (Shares (uid ∷ []) e' ⊎ (e'.parent_id ≡ "spiffe://example.org/agent"))
          × ((e ≡ e') ⊎ (e ≡ sort_entry as_is e')))
    × ((e : RegistrationEntry)
        → Memᴰ e (kept_entries database)
        → Shares (uid ∷ []) e ⊎ (e.parent_id ≡ "spiffe://example.org/agent")
        → Memᴰ e es ⊎ Memᴰ (sort_entry as_is e) es)
fetch_entries_lem_example =
    fetch_entries_lem handler kept_entries as_is database (uid ∷ []) "spiffe://example.org/agent"
      answers (omega arith)
