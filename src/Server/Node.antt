-- ===== src/Server/Node.antt =====
-- pkg/server/endpoints/node/handler.go: how the node API attests a join token and which CSRs it
-- signs.
-- The store, the CA plugin and crypto/x509 are parameters. `csr_uris` is ParseCertificateRequest
-- with the URI names of the extensions. A nil entry from the store, on which the source panics, is a
-- failure here. Times are nanoseconds of Unix time, expiries of tokens seconds; `remaining`
-- is the time until a certificate ends, in seconds, as an int32.
pub mod Updates
pub mod Entitlement
pub mod Tokens
use text.Mathlib.Text.{starts_with}
use spiffe_spire.Prelude.{
  ℕ, ◌*◌, String, ◌<>◌, Bool, true, false, ◌&&◌, Option, none, some, List, [], ◌∷◌, ◌==◌,
  nat_comparable, string_comparable, if◌then◌else◌, ltb,
}
use spiffe_spire.Prelude.Action.{
  Action, Result, ok, failed, return, fail, lift, ignore, or_errorf, ◌>>=◌, ◌>>◌,
}
use spiffe_spire.Prelude.Int.{ℤ, pos}
use spiffe_spire.Prelude.GoMap.{GoMap, lookup, insert}
use spiffe_spire.Common.Selector.{Selector}
use spiffe_spire.Common.Messages.{RegistrationEntry, Certificate}
use spiffe_spire.Server.DataStore.{DataStore, AttestedNode, JoinToken}

pub record Svid : Type 0 where
  pub svid_cert : List ℕ
  pub ttl : ℤ

pub record Handler (σ : Type 0) : Type 0 where
  pub ds : DataStore σ
  pub sign_csr : List ℕ → ℤ → Action σ (List ℕ)
  pub parse_certificate : List ℕ → Result Certificate
  pub serial_number : Certificate → String
  pub remaining : Certificate → ℤ
  pub csr_uris : List ℕ → Result (List String)
  pub trust_domain : String

-- The client's certificate: its first URI name and the decimal text of its serial number.
pub record Peer : Type 0 where
  pub caller_id : String
  pub serial_number : String

pub record AttestResponse : Type 0 where
  pub valid : Bool
  pub base_spiffe_id : String

abbrev pub only_one : List String → Result String
only_one (id ∷ []) = ok id
only_one ids = failed "The CSR must have exactly one URI SAN"

abbrev pub only_id : Result (List String) → Result String
only_id (ok ids) = only_one ids
only_id (failed why) = failed why

-- `validateAttestation`
unfoldable pub validate_attestation : String → AttestResponse → Result Unit
validate_attestation csr_base_spiffe_id response =
    if response.valid
    then (if response.base_spiffe_id == csr_base_spiffe_id
        then ok tt
        else failed "BaseSPIFFEID Mismatch")
    else failed "Invalid"

-- The map from SPIFFE ID to entry of `signCSRs`.
unfoldable pub entries_map :
    List RegistrationEntry → GoMap String RegistrationEntry → GoMap String RegistrationEntry
entries_map [] m = m
entries_map (e ∷ es) m = entries_map es (insert e.spiffe_id e m)

module _ {σ : Type 0} (h : Handler σ) where
  -- `getSpiffeIDFromCSR`
  unfoldable pub get_spiffe_id_from_csr : List ℕ → Result String
  get_spiffe_id_from_csr csr = only_id (h.csr_uris csr)

  -- `attestToken` of the token `token_text`; `token_id` is the SPIFFE ID that net/url and path make of a
  -- token.
  unfoldable pub attest_token : (String → String) → ℕ → String → Bool → Action σ AttestResponse
  attest_token token_id now token_text attested_before =
      if attested_before then fail "join token has already been used" else do
        t ← h.ds.fetch_token token_text
        if t.token == ""
            then fail "invalid join token"
            else if ltb (t.expiry * 1000000000) now
            then ignore (h.ds.delete_token token_text) >> fail "join token expired"
            else ignore (h.ds.delete_token token_text)
              >> return (record { valid = true; base_spiffe_id = token_id t.token })

  unfoldable pub update_attestation_entry : List ℕ → String → Action σ Unit
  update_attestation_entry certificate base_spiffe_id = do
    cert ← lift (h.parse_certificate certificate)
    h.ds.update_attested_node_entry base_spiffe_id cert.not_after (h.serial_number cert)

  -- `buildSVID`, given what the map holds for the SPIFFE ID.
  abbrev pub build_svid : Option RegistrationEntry → List ℕ → Action σ Svid
  build_svid none csr = fail "Not entitled to sign CSR"
  build_svid (some entry) csr = do
    signed ← h.sign_csr csr entry.ttl
    return (record { svid_cert = signed; ttl = entry.ttl })

  unfoldable pub build_base_svid : List ℕ → Action σ Svid
  build_base_svid csr = do
    signed ← h.sign_csr csr (pos 0)
    cert ← lift (h.parse_certificate signed)
    return (record { svid_cert = signed; ttl = h.remaining cert })

  -- The check of the serial number in `signCSRs`.
  abbrev pub check_serial : Option AttestedNode → String → Result Unit
  check_serial none serial = failed "nil attested node entry"
  check_serial (some node) serial =
      if node.cert_serial_number == serial
      then ok tt
      else failed "SVID serial number does not match"

  -- Renewal of the agent's own SVID.
  unfoldable pub sign_own : Peer → String → List ℕ → Action σ Svid
  sign_own peer spiffe_id csr = do
    res ← h.ds.fetch_attested_node_entry spiffe_id
    lift (check_serial res peer.serial_number)
    svid ← build_base_svid csr
    ignore (update_attestation_entry svid.svid_cert spiffe_id)
    return svid

  -- Whether `signCSRs` takes a CSR for the renewal of the agent's own SVID.
  unfoldable pub is_own : Peer → String → Bool
  is_own peer spiffe_id =
      spiffe_id == peer.caller_id && starts_with peer.caller_id (h.trust_domain <> "/spire/agent")

  unfoldable pub sign_for : Peer → GoMap String RegistrationEntry → String → List ℕ → Action σ Svid
  sign_for peer entries spiffe_id csr =
      if is_own peer spiffe_id
      then sign_own peer spiffe_id csr
      else build_svid (lookup spiffe_id entries) csr

  -- The loop of `signCSRs`.
  unfoldable pub sign_all :
      Peer
      → GoMap String RegistrationEntry
      → List (List ℕ)
      → GoMap String Svid
      → Action σ (GoMap String Svid)
  sign_all peer entries [] svids = return svids
  sign_all peer entries (csr ∷ csrs) svids = do
    spiffe_id ← lift (get_spiffe_id_from_csr csr)
    svid ← sign_for peer entries spiffe_id csr
    sign_all peer entries csrs (insert spiffe_id svid svids)

  unfoldable pub sign_csrs :
      Peer → List (List ℕ) → List RegistrationEntry → Action σ (GoMap String Svid)
  sign_csrs peer csrs reg_entries = sign_all peer (entries_map reg_entries []) csrs []

  -- `getStoredSelectors`
  unfoldable pub get_stored_selectors : String → Action σ (List Selector)
  get_stored_selectors base_spiffe_id = h.ds.fetch_node_resolver_map_entry base_spiffe_id

  -- `getBundle`
  unfoldable pub get_bundle : Action σ (List ℕ)
  get_bundle = do
    b ← or_errorf "get bundle from datastore" (h.ds.fetch_bundle h.trust_domain)
    return b.ca_certs
