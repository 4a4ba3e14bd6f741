-- ===== src/Server/BaseSvid.antt =====
-- `FetchBaseSVID` of pkg/server/endpoints/node/handler.go: the attestation of a node. The certificate
-- and the selectors that go into the response are the result here; the child Response composes it.
-- The plugins are parameters.
pub mod Attested
pub mod Response
use spiffe_spire.Prelude.{
  ℕ, String, ◌<>◌, Bool, true, false, Option, none, some, List, [], ◌∷◌, ◌==◌, string_comparable,
  if◌then◌else◌,
}
use spiffe_spire.Prelude.Action.{Action, Result, return, fail, lift, ◌>>=◌, ◌>>◌, or_error}
use spiffe_spire.Prelude.Int.{ℤ, pos}
use spiffe_spire.Common.Selector.{Selector}
use spiffe_spire.Common.Messages.{Certificate}
use spiffe_spire.Server.DataStore.{DataStore, AttestedNode}
use spiffe_spire.Server.Node.{
  Handler, AttestResponse, get_spiffe_id_from_csr, attest_token, validate_attestation,
  update_attestation_entry,
}

-- `payload` is the field data as a text.
pub record AttestedData : Type 0 where
  pub type : String
  pub payload : String

pub record NodeAttestor (σ : Type 0) : Type 0 where
  pub plugin_name : String
  pub attest : AttestedData → Bool → Action σ AttestResponse

pub record Plugins (σ : Type 0) : Type 0 where
  pub node_attestors : List (NodeAttestor σ)
  pub resolve : String → Action σ (Option (List Selector))
  pub create_node_resolver_map_entry : String → Selector → Action σ Unit

pub record BaseSvid : Type 0 where
  pub base_spiffe_id : String
  pub signed_certificate : List ℕ
  pub selectors : List Selector

-- The loop of `attest`: the first plugin of the name.
unfoldable pub find_attestor :
    {σ : Type 0} → String → List (NodeAttestor σ) → Option (NodeAttestor σ)
find_attestor name [] = none
find_attestor name (a ∷ rest) =
    let later = find_attestor name rest in if a.plugin_name == name then some a else later

-- Whether the answer of the store is the entry of this node.
abbrev pub is_entry_of : String → Option AttestedNode → Bool
is_entry_of base_spiffe_id none = false
is_entry_of base_spiffe_id (some entry) = entry.base_spiffe_id == base_spiffe_id

module _ {σ : Type 0} (h : Handler σ) (plugins : Plugins σ) (token_id : String → String) where
  unfoldable pub is_attested : String → Action σ Bool
  is_attested base_spiffe_id = do
    entry ← h.ds.fetch_attested_node_entry base_spiffe_id
    return (is_entry_of base_spiffe_id entry)

  abbrev pub attest_by : Option (NodeAttestor σ) → AttestedData → Bool → Action σ AttestResponse
  attest_by none attested_data before =
      fail ("could not find node attestor type " <> attested_data.type)
  attest_by (some a) attested_data before = a.attest attested_data before

  -- `attestToken` for a join token, `attest` otherwise.
  unfoldable pub attest_node : ℕ → AttestedData → Bool → Action σ AttestResponse
  attest_node now attested_data before =
      if attested_data.type == "join_token"
      then attest_token h token_id now attested_data.payload before
      else attest_by (find_attestor attested_data.type plugins.node_attestors) attested_data before

  unfoldable pub create_attestation_entry : List ℕ → String → String → Action σ Unit
  create_attestation_entry certificate base_spiffe_id attestation_type = do
    cert ← lift (h.parse_certificate certificate)
    h.ds.create_attested_node_entry (record {
      attested_data_type = attestation_type;
      base_spiffe_id = base_spiffe_id;
      cert_expiration_date = cert.not_after;
      cert_serial_number = h.serial_number cert;
    })

  abbrev pub store_selectors : String → List Selector → Action σ Unit
  store_selectors base_spiffe_id [] = return tt
  store_selectors base_spiffe_id (selector ∷ rest) = do
    plugins.create_node_resolver_map_entry base_spiffe_id selector
    store_selectors base_spiffe_id rest

  -- `resolveSelectors`, given what the resolver found.
  abbrev pub keep_selectors : String → Option (List Selector) → Action σ (List Selector)
  keep_selectors base_spiffe_id none = return []
  keep_selectors base_spiffe_id (some selectors) = do
    store_selectors base_spiffe_id selectors
    return selectors

  unfoldable pub resolve_selectors : String → Action σ (List Selector)
  resolve_selectors base_spiffe_id = do
    found ← plugins.resolve base_spiffe_id
    keep_selectors base_spiffe_id found

  unfoldable pub record_attestation : Bool → List ℕ → String → String → Action σ Unit
  record_attestation before certificate base_spiffe_id attestation_type =
      if before
      then or_error "Error trying to update attestation entry"
          (update_attestation_entry h certificate base_spiffe_id)
      else or_error "Error trying to create attestation entry"
          (create_attestation_entry certificate base_spiffe_id attestation_type)

  unfoldable pub fetch_base_svid : ℕ → List ℕ → AttestedData → Action σ BaseSvid
  fetch_base_svid now csr attested_data = do
    id ← or_error "Error trying to get SpiffeId from CSR" (lift (get_spiffe_id_from_csr h csr))
    before ← or_error "Error trying to check if attested" (is_attested id)
    response ← or_error "Error trying to attest" (attest_node now attested_data before)
    or_error "Error trying to validate attestation" (lift (validate_attestation id response))
    signed ← or_error "Error trying to sign CSR" (h.sign_csr csr (pos 0))
    record_attestation before signed id attested_data.type
    selectors ← or_error "Error trying to get selectors for baseSpiffeID" (resolve_selectors id)
    return (record { base_spiffe_id = id; signed_certificate = signed; selectors = selectors })
