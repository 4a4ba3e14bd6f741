-- ===== src/Server/SqlStore/Nodes.antt =====
-- The attested nodes and the selectors of nodes in the SQL data store.
use spiffe_spire.Prelude.{
  ℕ, String, Bool, ◌&&◌, Option, none, some, List, map, ◌==◌, nat_comparable, string_comparable,
  if◌then◌else◌, ltb,
}
use spiffe_spire.Prelude.Action.{Action, return, fail, ◌>>=◌, ◌>>◌}
use spiffe_spire.Common.Selector.{Selector}
use spiffe_spire.Server.DataStore.{AttestedNode}
use spiffe_spire.Server.Gorm.{Gorm, AttestedNodeRow, ResolverRow}
use spiffe_spire.Server.SqlStore.{must, transaction}

-- The message that a row is answered with.
abbrev pub node_of : AttestedNodeRow → AttestedNode
node_of model = record {
  attested_data_type = model.data_type;
  base_spiffe_id = model.spiffe_id;
  cert_expiration_date = model.expires_at;
  cert_serial_number = model.serial_number;
}

abbrev pub maybe_node : Option AttestedNodeRow → Option AttestedNode
maybe_node none = none
maybe_node (some model) = some (node_of model)

abbrev pub has_id : String → AttestedNodeRow → Bool
has_id spiffe_id model = model.spiffe_id == spiffe_id

pub record ResolverEntry : Type 0 where
  pub base_spiffe_id : String
  pub selector : Option Selector

-- The message that a row of the resolver map is answered with.
abbrev pub entry_of : ResolverRow → ResolverEntry
entry_of model = record {
  base_spiffe_id = model.spiffe_id;
  selector = some (record { type = model.type; value = model.value });
}

abbrev pub for_node : String → ResolverRow → Bool
for_node spiffe_id model = model.spiffe_id == spiffe_id

-- The scope of `DeleteNodeResolverMapEntry`: with no selector, all entries of the node.
abbrev pub in_scope : String → Option Selector → ResolverRow → Bool
in_scope spiffe_id none model = model.spiffe_id == spiffe_id
in_scope spiffe_id (some selector) model =
    model.spiffe_id == spiffe_id && (model.type == selector.type && model.value == selector.value)

module _ {σ : Type 0} (db : Gorm σ) where
  abbrev pub create_node : Option AttestedNode → Action σ AttestedNode
  create_node none = fail "invalid request: missing attested node"
  create_node (some entry) = do
    model ← db.attested_nodes.create (record {
      id = 0;
      spiffe_id = entry.base_spiffe_id;
      data_type = entry.attested_data_type;
      serial_number = entry.cert_serial_number;
      expires_at = entry.cert_expiration_date;
    })
    return (record (node_of model) { cert_expiration_date = entry.cert_expiration_date })

  unfoldable pub create_attested_node_entry : Option AttestedNode → Action σ AttestedNode
  create_attested_node_entry entry = create_node entry

  unfoldable pub fetch_attested_node_entry : String → Action σ (Option AttestedNode)
  fetch_attested_node_entry base_spiffe_id = do
    model ← db.attested_nodes.find_one (has_id base_spiffe_id)
    return (maybe_node model)

  -- `FetchStaleNodeEntries` at time `now`.
  unfoldable pub fetch_stale_node_entries : ℕ → Action σ (List AttestedNode)
  fetch_stale_node_entries now = do
    models ← db.attested_nodes.find (λ m. ltb m.expires_at now)
    return (map node_of models)

  -- `Updates` writes the fields that are not zero, of the row and of the model in memory.
  unfoldable pub update_node : String → ℕ → String → Action σ AttestedNode
  update_node base_spiffe_id expires_at serial_number = do
    found ← db.attested_nodes.find_one (has_id base_spiffe_id)
    model ← must found
    let model' : AttestedNodeRow = record model {
      serial_number = if serial_number == "" then model.serial_number else serial_number;
      expires_at = expires_at;
    }
    db.attested_nodes.save model'
    return (node_of model')

  unfoldable pub update_attested_node_entry : String → ℕ → String → Action σ AttestedNode
  update_attested_node_entry base_spiffe_id expires_at serial_number =
      transaction db (update_node base_spiffe_id expires_at serial_number)

  unfoldable pub delete_node : String → Action σ AttestedNode
  delete_node base_spiffe_id = do
    found ← db.attested_nodes.find_one (has_id base_spiffe_id)
    model ← must found
    db.attested_nodes.delete model.id
    return (node_of model)

  unfoldable pub delete_attested_node_entry : String → Action σ AttestedNode
  delete_attested_node_entry base_spiffe_id = transaction db (delete_node base_spiffe_id)

  abbrev pub create_for : String → Option Selector → Action σ ResolverEntry
  create_for base_spiffe_id none = fail "Invalid Request: no selector"
  create_for base_spiffe_id (some selector) = do
    model ← db.resolver_entries.create (record {
      id = 0;
      spiffe_id = base_spiffe_id;
      type = selector.type;
      value = selector.value;
    })
    return (entry_of model)

  abbrev pub create_resolver_entry : Option ResolverEntry → Action σ ResolverEntry
  create_resolver_entry none = fail "Invalid Request: no map entry"
  create_resolver_entry (some entry) = create_for entry.base_spiffe_id entry.selector

  unfoldable pub create_node_resolver_map_entry : Option ResolverEntry → Action σ ResolverEntry
  create_node_resolver_map_entry entry = create_resolver_entry entry

  unfoldable pub fetch_node_resolver_map_entry : String → Action σ (List ResolverEntry)
  fetch_node_resolver_map_entry base_spiffe_id = do
    models ← db.resolver_entries.find (for_node base_spiffe_id)
    return (map entry_of models)

  unfoldable pub delete_resolver_entries : ResolverEntry → Action σ (List ResolverEntry)
  delete_resolver_entries entry = do
    models ← db.resolver_entries.find (in_scope entry.base_spiffe_id entry.selector)
    db.resolver_entries.delete_where (in_scope entry.base_spiffe_id entry.selector)
    return (map entry_of models)

  abbrev pub delete_resolver_entry : Option ResolverEntry → Action σ (List ResolverEntry)
  delete_resolver_entry none = fail "Invalid Request: no map entry"
  delete_resolver_entry (some entry) = transaction db (delete_resolver_entries entry)

  unfoldable pub delete_node_resolver_map_entry :
      Option ResolverEntry → Action σ (List ResolverEntry)
  delete_node_resolver_map_entry entry = delete_resolver_entry entry
