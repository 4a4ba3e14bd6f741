-- ===== src/Server/SqlStore/Service.antt =====
-- The SQL data store as the service that the endpoints of the server call.
use spiffe_spire.Prelude.{none, some, List, [], ◌∷◌}
use spiffe_spire.Prelude.Action.{return, ◌>>=◌, ◌>>◌}
use spiffe_spire.Common.Selector.{Selector}
use spiffe_spire.Server.DataStore.{DataStore}
use spiffe_spire.Server.SqlStore.{Plugin}
use spiffe_spire.Server.SqlStore.Bundles.{append_bundle, update_bundle, fetch_bundle}
use spiffe_spire.Server.SqlStore.Entries.{
  create_registration_entry, delete_registration_entry, fetch_registration_entry,
  fetch_registration_entries, list_selector_entries, list_spiffe_entries, list_parent_id_entries,
  list_matching_entries,
}
use spiffe_spire.Server.SqlStore.Nodes.{
  ResolverEntry, create_attested_node_entry, fetch_attested_node_entry, update_attested_node_entry,
  fetch_node_resolver_map_entry,
}
use spiffe_spire.Server.SqlStore.Tokens.{register_token, fetch_token, delete_token}

-- The selectors of the answer to `FetchNodeResolverMapEntry`, each of which has one.
abbrev pub selectors_of : List ResolverEntry → List Selector
selectors_of [] = []
selectors_of (e ∷ rest) =
    let later = selectors_of rest in elim e.selector [ some s ↦ s ∷ later | none ↦ later ]

abbrev pub sql_data_store : {σ : Type 0} → Plugin σ → DataStore σ
sql_data_store ds = record {
  create_registration_entry = λ entry. create_registration_entry ds (some entry);
  delete_registration_entry = delete_registration_entry ds;
  fetch_registration_entry = fetch_registration_entry ds;
  fetch_registration_entries = fetch_registration_entries ds;
  list_selector_entries = list_selector_entries ds;
  list_spiffe_entries = list_spiffe_entries ds;
  list_parent_id_entries = list_parent_id_entries ds;
  list_matching_entries = list_matching_entries ds;
  fetch_node_resolver_map_entry =
      λ id. fetch_node_resolver_map_entry ds.db id >>= λ es. return (selectors_of es);
  fetch_attested_node_entry = fetch_attested_node_entry ds.db;
  create_attested_node_entry = λ node. create_attested_node_entry ds.db (some node) >> return tt;
  update_attested_node_entry =
      λ id expiry serial. update_attested_node_entry ds.db id expiry serial >> return tt;
  register_token = register_token ds.db;
  fetch_token = fetch_token ds.db;
  delete_token = delete_token ds.db;
  fetch_bundle =
      λ trust_domain. fetch_bundle ds (record { trust_domain = trust_domain; ca_certs = [] });
  append_bundle = λ bundle. append_bundle ds bundle >> return tt;
  update_bundle = λ bundle. update_bundle ds bundle >> return tt;
}
