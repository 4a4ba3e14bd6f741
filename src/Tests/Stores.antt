-- ===== src/Tests/Stores.antt =====
-- A data store in memory, to run the theorems about its clients on.
use spiffe_spire.Prelude.{
  ℕ, String, Option, none, some, List, [], ◌∷◌, ◌==◌, string_comparable, if◌then◌else◌,
}
use spiffe_spire.Prelude.Action.{ok, failed}
use spiffe_spire.Prelude.Int.{pos}
use spiffe_spire.Common.Messages.{RegistrationEntry}
use spiffe_spire.Server.DataStore.{DataStore, AttestedNode, JoinToken}
use spiffe_spire.Tests.{uid, namespace}

pub record Memory : Type 0 where
  pub entries : List RegistrationEntry
  pub tokens : List JoinToken
  pub nodes : List AttestedNode
  pub bundle : List ℕ

abbrev pub web : RegistrationEntry
web = record {
  selectors = uid ∷ namespace ∷ [];
  parent_id = "spiffe://example.org/agent";
  spiffe_id = "spiffe://example.org/web";
  ttl = pos 3600;
  fb_spiffe_ids = [];
  entry_id = "e1";
}

-- The same registration with its selectors the other way round.
abbrev pub turned : RegistrationEntry
turned = record web { selectors = namespace ∷ uid ∷ [] }

abbrev with_spiffe_id : String → List RegistrationEntry → List RegistrationEntry
with_spiffe_id id [] = []
with_spiffe_id id (e ∷ es) =
    let rest = with_spiffe_id id es in if e.spiffe_id == id then e ∷ rest else rest

abbrev find_token : String → List JoinToken → JoinToken
find_token t [] = record { token = ""; expiry = 0 }
find_token t (j ∷ js) = let rest = find_token t js in if j.token == t then j else rest

abbrev drop_token : String → List JoinToken → List JoinToken
drop_token t [] = []
drop_token t (j ∷ js) = let rest = drop_token t js in if j.token == t then rest else j ∷ rest

abbrev find_node : String → List AttestedNode → Option AttestedNode
find_node id [] = none
find_node id (n ∷ ns) =
    let rest = find_node id ns in if n.base_spiffe_id == id then some n else rest

abbrev pub memory : DataStore Memory
memory = record {
  create_registration_entry = λ e s. (ok e.entry_id, record s { entries = e ∷ s.entries });
  delete_registration_entry = λ id s. (failed "not used", s);
  fetch_registration_entry = λ id s. (ok none, s);
  fetch_registration_entries = λ s. (ok s.entries, s);
  list_selector_entries = λ selectors s. (ok [], s);
  fetch_node_resolver_map_entry = λ id s. (ok [], s);
  list_spiffe_entries = λ id s. (ok (with_spiffe_id id s.entries), s);
  list_parent_id_entries = λ id s. (ok [], s);
  list_matching_entries = λ selectors s. (ok [], s);
  fetch_attested_node_entry = λ id s. (ok (find_node id s.nodes), s);
  create_attested_node_entry = λ n s. (ok tt, record s { nodes = n ∷ s.nodes });
  update_attested_node_entry = λ id expiry serial s. (ok tt, s);
  register_token = λ t s. (ok tt, record s { tokens = t ∷ s.tokens });
  fetch_token = λ t s. (ok (find_token t s.tokens), s);
  delete_token = λ t s. (ok tt, record s { tokens = drop_token t s.tokens });
  fetch_bundle = λ domain s. (ok (record { trust_domain = domain; ca_certs = s.bundle }), s);
  append_bundle = λ b s. (ok tt, s);
  update_bundle = λ b s. (ok tt, record s { bundle = b.ca_certs });
}

abbrev pub blank : Memory
blank = record { entries = []; tokens = []; nodes = []; bundle = [] }
