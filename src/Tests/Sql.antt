-- ===== src/Tests/Sql.antt =====
-- Witnesses and tests on the SQL data store.
use mathlib.Core.List.Memᴰ
use spiffe_spire.Prelude.{
  ℕ, ◌≡◌, ◌≢◌, ◌↔◌, ◌⊎◌, inl, inr, none, refl, sym, ap, String, ◌<>◌, true, false, false≢true, not,
  Comparable, ◌∙◌, List, [], ◌∷◌, map, Memᴰ, IsNodup, arith, ◌==◌, nat_comparable,
  string_comparable, leb,
}
use spiffe_spire.Prelude.Action.{ok, failed, return, answer-injective}
use spiffe_spire.Prelude.Int.{pos}
use spiffe_spire.Common.Messages.{RegistrationEntry}
use spiffe_spire.Common.Selector.{Selector}
use spiffe_spire.Server.DataStore.{JoinToken, Bundle}
use spiffe_spire.Server.Gorm.{RegisteredEntry, SelectorRow, TokenRow, CaCert, BundleRow}
use spiffe_spire.Server.Gorm.Laws.{select}
use spiffe_spire.Server.Node.{Handler, AttestResponse, attest_token}
use spiffe_spire.Server.Registration.{Url, UrlPackage, create_join_token, positive, chosen_token}
use spiffe_spire.Server.SqlStore.{Plugin}
use spiffe_spire.Server.SqlStore.Attestation.{create_join_token-attested, attest_token-refuses}
use spiffe_spire.Server.SqlStore.Bundles.{
  of_bundle, model_of, check_domain, validate_trust_domain, bundle_to_model, create_bundle,
  append_bundle,
}
use spiffe_spire.Server.SqlStore.Bundles.Appended.{bytes_of, Extended, append_bundle-Extended}
use spiffe_spire.Server.SqlStore.Entries.{list_matching_entries, delete_registration_entry}
use spiffe_spire.Server.SqlStore.Entries.Counting.{index_of}
use spiffe_spire.Server.SqlStore.Entries.Matching.{
  IsSound, Has, entry_at, list_matching_entries_iff,
}
use spiffe_spire.Server.SqlStore.Entries.Orphans.{delete_registration_entry-orphans}
use spiffe_spire.Server.SqlStore.Service.{sql_data_store}
use spiffe_spire.Server.SqlStore.Tokens.{register_token, fetch_token, delete_token, prune_tokens}
use spiffe_spire.Server.SqlStore.Tokens.Deletion.{prune_tokens_lem}
use spiffe_spire.Server.SqlStore.Tokens.Stored.{after_all, register_token-fetch}
use spiffe_spire.Tests.{uid, namespace, both}
use spiffe_spire.Tests.Databases.{
  Db, fixed, fixed-Reads, entry_table, gorm, tokens_of, entries_of, selectors_of, token_reads,
  entry_reads, selector_reads, token_table-Deletes, entry_table-Deletes, token_table-Creates,
}

abbrev url_package : UrlPackage
url_package = record { parse = λ text. failed "not used"; to_text = λ u. "" }

abbrev pub plugin : Plugin Db
plugin = record {
  db = gorm;
  url = url_package;
  parse_certificates = λ bytes. ok [];
  new_uuid = return "e9";
  range = λ m. m;
  sort = λ less es. es;
}

abbrev token_row : TokenRow
token_row = record { id = 1; token = "abc"; expiry = 160 }

abbrev late_row : TokenRow
late_row = record { id = 2; token = "def"; expiry = 900 }

abbrev entry_row : RegisteredEntry
entry_row = record {
  id = 1;
  entry_id = "e1";
  spiffe_id = "spiffe://example.org/web";
  parent_id = "spiffe://example.org/agent";
  ttl = pos 3600;
  selectors = [];
}

abbrev db_row : RegisteredEntry
db_row = record entry_row { id = 2; entry_id = "e2"; spiffe_id = "spiffe://example.org/db" }

abbrev row : ℕ → ℕ → Selector → SelectorRow
row id owner s = record { id = id; registered_entry_id = owner; type = s.type; value = s.value }

-- The web service has both selectors, the database the first alone.
abbrev pub database : Db
database = record {
  next = 9;
  tokens = token_row ∷ late_row ∷ [];
  entries = entry_row ∷ db_row ∷ [];
  selectors = row 1 1 uid ∷ row 2 1 namespace ∷ row 3 2 uid ∷ [];
}

abbrev req : JoinToken
req = record { token = "new"; expiry = 500 }

apart : {K : Type 0} ⦃c : Comparable K⦄ (a b : K) → (a == b) ≡ false → a ≢ b
apart ⦃c⦄ a b e p = false≢true (sym e ∙ (c.test_iff a b).1 p)

fresh : ¬ Memᴰ "new" (map (λ (x : TokenRow). x.token) (tokens_of database))
fresh (Memᴰ.head p) = apart "new" "abc" refl p
fresh (Memᴰ.tail (Memᴰ.head p)) = apart "new" "def" refl p
fresh (Memᴰ.tail (Memᴰ.tail m)) = Memᴰ.not-nil m

-- Registrations that follow: of another token, and of a token that is there.
abbrev others : List JoinToken
others = record { token = "xyz"; expiry = 500 } ∷ record { token = "new"; expiry = 7 } ∷ []

register_token-fetch_example :
    (t : Db) × (register_token gorm req database ≡ (ok tt, t))
    × (fetch_token gorm "new" (after_all gorm others t) ≡ (ok req, after_all gorm others t))
register_token-fetch_example =
    register_token-fetch gorm tokens_of tokens_of token_table-Creates token_reads req database
      others refl refl fresh

one_is_new : ¬ Memᴰ {A = ℕ} 1 (2 ∷ [])
one_is_new (Memᴰ.head p) = omega arith
one_is_new (Memᴰ.tail m) = Memᴰ.not-nil m

prune_tokens_lem_example :
    (t : Db) × (prune_tokens gorm 200 database ≡ (ok tt, t))
    × (tokens_of t ≡ select (λ r. not (leb r.expiry 200)) (tokens_of database))
prune_tokens_lem_example =
    prune_tokens_lem gorm tokens_of token_reads token_table-Deletes 200 database
      (one_is_new, (Memᴰ.not-nil, tt)) (refl, (refl, tt))

abbrev key : ℕ → Selector → ℕ × Selector
key id s = (id, s)

first_distinct : ¬ Memᴰ (key 1 uid) (key 1 namespace ∷ key 2 uid ∷ [])
first_distinct (Memᴰ.head p) = apart "unix" "k8s" refl (ap (λ (k : ℕ × Selector). k.1.type) p)
first_distinct (Memᴰ.tail (Memᴰ.head p)) = absurd (omega (arith, ap (λ (k : ℕ × Selector). k.0) p))
first_distinct (Memᴰ.tail (Memᴰ.tail m)) = Memᴰ.not-nil m

second_distinct : ¬ Memᴰ (key 1 namespace) (key 2 uid ∷ [])
second_distinct (Memᴰ.head p) = absurd (omega (arith, ap (λ (k : ℕ × Selector). k.0) p))
second_distinct (Memᴰ.tail m) = Memᴰ.not-nil m

selectors_distinct : IsNodup (map index_of (selectors_of database))
selectors_distinct = (first_distinct, (second_distinct, (Memᴰ.not-nil, tt)))

owned : (r : SelectorRow) → Memᴰ r (selectors_of database) → Memᴰ r.registered_entry_id (1 ∷ 2 ∷ [])
owned r (Memᴰ.head p) = Memᴰ.head (ap (λ (x : SelectorRow). x.registered_entry_id) p)
owned r (Memᴰ.tail (Memᴰ.head p)) = Memᴰ.head (ap (λ (x : SelectorRow). x.registered_entry_id) p)
owned r (Memᴰ.tail (Memᴰ.tail (Memᴰ.head p))) =
    Memᴰ.tail (Memᴰ.head (ap (λ (x : SelectorRow). x.registered_entry_id) p))
owned r (Memᴰ.tail (Memᴰ.tail (Memᴰ.tail m))) = absurd (Memᴰ.not-nil m)

pub database-IsSound : IsSound (entries_of database) (selectors_of database)
database-IsSound = record {
  distinct = (one_is_new, (Memᴰ.not-nil, tt));
  unique = selectors_distinct;
  owned = owned;
}

list_matching_entries_iff_example :
    (es : List RegistrationEntry) × (list_matching_entries plugin both database ≡ (ok es, database))
    × ((e : RegistrationEntry)
        → Memᴰ e es
          ↔ (Memᴰ e (map (entry_at (selectors_of database)) (entries_of database)) × Has e both))
list_matching_entries_iff_example =
    list_matching_entries_iff plugin entries_of selectors_of entry_reads selector_reads
      (λ m p. ((λ x. x), λ x. x)) (λ es e. ((λ x. x), λ x. x)) both database database-IsSound refl

other_entry : ¬ Memᴰ {A = String} "e1" ("e2" ∷ [])
other_entry (Memᴰ.head p) = apart "e1" "e2" refl p
other_entry (Memᴰ.tail m) = Memᴰ.not-nil m

keeps : (n : ℕ) (s t : Db) → entry_table.delete n s ≡ (ok tt, t) → selectors_of t ≡ selectors_of s
keeps n s t e = sym (ap selectors_of (answer-injective tt tt _ t e).1)

delete_registration_entry-orphans_example :
    (e : RegistrationEntry) × (t : Db) × (delete_registration_entry plugin "e1" database
      ≡ (ok e, t))
    × (list_matching_entries plugin (uid ∷ []) t ≡ (failed "record not found", t))
delete_registration_entry-orphans_example =
    delete_registration_entry-orphans plugin entries_of selectors_of entry_reads selector_reads
      (λ m p. ((λ x. x), λ x. x)) (λ es e. ((λ x. x), λ x. x)) entry_table-Deletes keeps entry_row
      (uid ∷ []) database database-IsSound (Memᴰ.head refl) refl (other_entry, (Memᴰ.not-nil, tt))
      refl (Memᴰ.head refl, tt)

abbrev old_cert : CaCert
old_cert = record { id = 1; cert = 1 ∷ []; expiry = 9; bundle_id = 1 }

abbrev new_cert : CaCert
new_cert = record { id = 0; cert = 2 ∷ []; expiry = 9; bundle_id = 0 }

abbrev stored_bundle : BundleRow
stored_bundle = record { id = 1; trust_domain = "spiffe://example.org"; ca_certs = [] }

abbrev domain_url : Url
domain_url = record {
  scheme = "spiffe";
  user = none;
  host = "example.org";
  port = "";
  path = "";
  raw_query = "";
  fragment = "";
}

-- A store with one bundle of one certificate; each request has a new one and that one.
abbrev bundle_plugin : Plugin Db
bundle_plugin = record plugin {
  db = record gorm { bundles = fixed (stored_bundle ∷ []); ca_certs = fixed (old_cert ∷ []) };
  url = record { parse = λ text. ok domain_url; to_text = λ u. "spiffe://example.org" };
  parse_certificates = λ bytes. ok (
      record { raw = 2 ∷ []; not_before = 0; not_after = 9 }
      ∷ record { raw = 1 ∷ []; not_before = 0; not_after = 9 }
      ∷ []);
}

abbrev append_req : Bundle
append_req = record { trust_domain = "spiffe://example.org"; ca_certs = 2 ∷ 1 ∷ [] }

abbrev append_row : BundleRow
append_row = record {
  id = 0;
  trust_domain = "spiffe://example.org";
  ca_certs = new_cert ∷ record new_cert { cert = 1 ∷ [] } ∷ [];
}

append_parsed : bundle_to_model bundle_plugin append_req database ≡ (ok append_row, database)
unfolding bundle_to_model validate_trust_domain check_domain model_of
append_parsed = refl

stored_distinct :
    (model : BundleRow)
    → Memᴰ model (stored_bundle ∷ [])
    → IsNodup (map bytes_of (select (of_bundle model.id) (old_cert ∷ [])))
stored_distinct model m = elim (Memᴰ.cases_cons m) [
  | inl same ↦ rw same (Memᴰ.not-nil, tt)
  | inr later ↦ absurd (Memᴰ.not-nil later)
]

append_bundle-Extended_example :
    (((model : BundleRow)
        → Memᴰ model (stored_bundle ∷ [])
        → (model.trust_domain == append_row.trust_domain) ≡ false)
      × (append_bundle bundle_plugin append_req database
          ≡ create_bundle bundle_plugin append_req database))
    ⊎ Extended bundle_plugin
        (λ s. stored_bundle ∷ [])
        (λ s. old_cert ∷ [])
        (fixed-Reads (stored_bundle ∷ []))
        (fixed-Reads (old_cert ∷ []))
        append_row
        database
        (append_bundle bundle_plugin append_req database)
append_bundle-Extended_example =
    append_bundle-Extended bundle_plugin (λ s. stored_bundle ∷ []) (λ s. old_cert ∷ [])
      (fixed-Reads (stored_bundle ∷ [])) (fixed-Reads (old_cert ∷ [])) append_req append_row
      database append_parsed stored_distinct

abbrev pub handler : Handler Db
handler = record {
  ds = sql_data_store plugin;
  sign_csr = λ csr ttl s. (ok csr, s);
  parse_certificate = λ bytes. failed "not used";
  serial_number = λ cert. "42";
  remaining = λ cert. pos 5;
  csr_uris = λ csr. failed "not used";
  trust_domain = "spiffe://example.org";
}

abbrev token_id : String → String
token_id t = "spiffe://example.org/spire/agent/join_token/" <> t

create_join_token-attested_example :
    (t : Db) × (create_join_token
        (sql_data_store plugin)
        100
        (failed "not used")
        "new"
        (pos 60)
        database
      ≡ (ok (record { token = "new"; expiry = 160 }), t))
    × ((attest_token handler token_id 130 "new" false (after_all gorm others t)).0
        ≡ ok (record { valid = true; base_spiffe_id = token_id "new" }))
unfolding positive chosen_token
create_join_token-attested_example =
    create_join_token-attested plugin tokens_of token_reads handler token_id tokens_of
      token_table-Creates 100 130 60 (failed "not used") "new" "new" (pos 60) database others refl
      refl refl fresh (omega arith)

abbrev after : Db
after = record database { tokens = [] }

abbrev response : AttestResponse
response = record { valid = true; base_spiffe_id = token_id "abc" }

attested : attest_token handler token_id 130 "abc" false database ≡ (ok response, after)
unfolding attest_token fetch_token delete_token
attested = refl

attest_token-refuses_example :
    attest_token handler token_id 131 "def" false after ≡ (failed "invalid join token", after)
attest_token-refuses_example =
    attest_token-refuses plugin tokens_of token_reads handler token_id token_table-Deletes 130 "abc"
      database after response attested 131 "def"
