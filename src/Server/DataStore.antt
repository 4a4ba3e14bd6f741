-- ===== src/Server/DataStore.antt =====
-- The data store as its clients see it: proto/server/datastore. Its calls change a state `σ` of the
-- store's own and may fail.
-- Texts of times are the numbers that they denote; a bundle is the certificates that its bytes
-- encode, with `none` for bytes that do not parse.
use spiffe_spire.Prelude.{ℕ, String, Option, List}
use spiffe_spire.Prelude.Action.{Action}
use spiffe_spire.Common.Selector.{Selector}
use spiffe_spire.Common.Messages.{RegistrationEntry}

pub record AttestedNode : Type 0 where
  pub attested_data_type : String
  pub base_spiffe_id : String
  pub cert_expiration_date : ℕ
  pub cert_serial_number : String

-- `expiry` is in seconds of Unix time; a missing token comes back with the empty text.
pub record JoinToken : Type 0 where
  pub token : String
  pub expiry : ℕ

pub record Bundle : Type 0 where
  pub trust_domain : String
  pub ca_certs : List ℕ

pub record DataStore (σ : Type 0) : Type 0 where
  pub create_registration_entry : RegistrationEntry → Action σ String
  pub delete_registration_entry : String → Action σ RegistrationEntry
  pub fetch_registration_entry : String → Action σ (Option RegistrationEntry)
  pub fetch_registration_entries : Action σ (List RegistrationEntry)
  pub list_selector_entries : List Selector → Action σ (List RegistrationEntry)
  pub list_spiffe_entries : String → Action σ (List RegistrationEntry)
  pub list_parent_id_entries : String → Action σ (List RegistrationEntry)
  pub list_matching_entries : List Selector → Action σ (List RegistrationEntry)
  pub fetch_node_resolver_map_entry : String → Action σ (List Selector)
  pub fetch_attested_node_entry : String → Action σ (Option AttestedNode)
  pub create_attested_node_entry : AttestedNode → Action σ Unit
  pub update_attested_node_entry : String → ℕ → String → Action σ Unit
  pub register_token : JoinToken → Action σ Unit
  pub fetch_token : String → Action σ JoinToken
  pub delete_token : String → Action σ Unit
  pub fetch_bundle : String → Action σ Bundle
  pub append_bundle : Bundle → Action σ Unit
  pub update_bundle : Bundle → Action σ Unit
