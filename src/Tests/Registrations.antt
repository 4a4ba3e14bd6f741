-- ===== src/Tests/Registrations.antt =====
-- Witnesses and tests on the registration API and the join tokens.
use spiffe_spire.Prelude.{
  ℕ, ◌-◌, ◌*◌, ◌≤◌, ◌≡◌, ◌≢◌, ◌↔◌, refl, String, ◌<>◌, true, false, none, some, List, [], ◌∷◌, All,
  string_comparable,
}
use spiffe_spire.Prelude.Action.{ok, failed}
use spiffe_spire.Prelude.Int.{pos}
use spiffe_spire.Prelude.GoMap.{lookup, insert}
use spiffe_spire.Common.Messages.{RegistrationEntry}
use spiffe_spire.Common.Selector.{equal_set, size, new_set_from_raw, includes_set}
use spiffe_spire.Server.DataStore.{JoinToken}
use spiffe_spire.Server.Registration.{
  Url, UrlPackage, validate_spiffe_id, validate_url, none_equal, is_entry_unique, create_entry,
  positive, chosen_token, create_join_token,
}
use spiffe_spire.Server.Registration.Validation.{IsWorkloadUrl, validate_spiffe_id_iff}
use spiffe_spire.Server.Registration.Uniqueness.{SomeClash, none_equal_iff}
use spiffe_spire.Server.Registration.Guarded.{create_entry-returned, create_entry-clash}
use spiffe_spire.Server.JoinTokenPlugin.{Plugin, attest, second}
use spiffe_spire.Server.JoinTokenPlugin.Once.{
  Call, attest_call, configure_call, Lacks, after, attest_iff, attest-once,
}
use spiffe_spire.Tests.Stores.{Memory, memory, blank, web, turned}

abbrev web_url : Url
web_url = record {
  scheme = "spiffe";
  user = none;
  host = "example.org";
  port = "";
  path = "/web";
  raw_query = "";
  fragment = "";
}

-- A package that reads one text.
abbrev url_package : UrlPackage
url_package = record { parse = λ text. ok web_url; to_text = λ url. "spiffe://example.org/web" }

abbrev domain : String
domain = "example.org"

validate_spiffe_id_iff_example :
    (validate_spiffe_id url_package "spiffe://example.org/web" domain ≡ ok tt) ↔ (
      (domain ≢ "")
      × ((◌≢◌ {A = String} "spiffe://example.org/web" "")
          × ((id : Url) × (url_package.parse "spiffe://example.org/web" ≡ ok id)
              × IsWorkloadUrl id domain)))
validate_spiffe_id_iff_example =
    validate_spiffe_id_iff url_package "spiffe://example.org/web" domain

web_valid : validate_spiffe_id url_package web.spiffe_id domain ≡ ok tt
unfolding validate_spiffe_id validate_url
web_valid = refl

none_equal_iff_example : (none_equal (web ∷ []) turned ≡ false) ↔ SomeClash (web ∷ []) turned
none_equal_iff_example = none_equal_iff (web ∷ []) turned

clashing : none_equal (web ∷ []) turned ≡ false
unfolding none_equal equal_set size new_set_from_raw includes_set lookup insert
clashing = refl

abbrev one_entry : Memory
one_entry = record blank { entries = web ∷ [] }

created : create_entry memory url_package domain web blank ≡ (ok "e1", one_entry)
unfolding create_entry is_entry_unique validate_spiffe_id validate_url none_equal
created = refl

create_entry-returned_example :
    (es : List RegistrationEntry) × (t : Memory) × (validate_spiffe_id url_package web.spiffe_id
        domain
      ≡ ok tt)
    × (memory.list_spiffe_entries web.spiffe_id blank ≡ (ok es, t))
    × (¬ SomeClash es web)
    × (memory.create_registration_entry web t ≡ (ok "e1", one_entry))
create_entry-returned_example =
    create_entry-returned memory url_package domain web blank one_entry "e1" created

create_entry-clash_example :
    create_entry memory url_package domain turned one_entry
    ≡ (failed "Entry already exists", one_entry)
create_entry-clash_example =
    create_entry-clash memory url_package domain turned one_entry one_entry (web ∷ []) web_valid
      refl ((none_equal_iff (web ∷ []) turned).0 clashing)

abbrev token : JoinToken
token = record { token = "abc"; expiry = 160 }

abbrev one_token : Memory
one_token = record blank { tokens = token ∷ [] }

token_made : create_join_token memory 100 (ok "new") "abc" (pos 60) blank ≡ (ok token, one_token)
unfolding create_join_token positive chosen_token
token_made = refl

abbrev plugin : Plugin
plugin = record { config_time = 5; join_tokens = ("abc", 60) ∷ []; trust_domain = "example.org" }

abbrev node_id : String → String → String
node_id domain token = "spiffe://" <> (domain <> ("/spiffe/node-id/" <> token))

attest_iff_example : ((attest node_id 7 "abc" false plugin).0.valid ≡ true) ↔ (
    (false ≡ false)
    × ((ttl : ℕ) × (lookup "abc" plugin.join_tokens ≡ some ttl) × (7 - 5 ≤ ttl * second)))
attest_iff_example = attest_iff node_id 7 "abc" false plugin

accepted : (attest node_id 7 "abc" false plugin).0.valid ≡ true
unfolding attest lookup
accepted = refl

-- A call with another token, and a configuration that has another token.
abbrev between : List Call
between =
    attest_call (record { now = 8; join_token = "xyz"; attested_before = false })
    ∷ configure_call 8
        (ok (record { join_tokens = ("xyz", 60) ∷ []; trust_domain = "example.org" }))
    ∷ []

between-Lacks : All (Lacks "abc") between
unfolding lookup
between-Lacks = (tt, (refl, tt))

attest-once_example :
    (attest node_id 9 "abc" false
      (after node_id between (attest node_id 7 "abc" false plugin).1)).0.valid
    ≡ false
attest-once_example =
    attest-once node_id 7 "abc" false plugin between 9 false between-Lacks accepted
