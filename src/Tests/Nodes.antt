-- ===== src/Tests/Nodes.antt =====
-- Witnesses and tests on the node API.
use spiffe_spire.Prelude.{
  none, ℕ, ◌≡◌, refl, String, ◌<>◌, true, false, List, [], ◌∷◌, string_comparable, nat_comparable,
  ◌==◌, if◌then◌else◌,
}
use spiffe_spire.Prelude.Action.{Result, ok, failed}
use spiffe_spire.Prelude.Int.{pos}
use spiffe_spire.Prelude.GoMap.{GoMap, has, insert, lookup}
use spiffe_spire.Common.Messages.{Certificate}
use spiffe_spire.Server.DataStore.{AttestedNode, JoinToken}
use spiffe_spire.Server.Node.{
  Handler, Peer, Svid, AttestResponse, entries_map, get_spiffe_id_from_csr, build_base_svid,
  update_attestation_entry, sign_own, is_own, sign_for, sign_all, sign_csrs, attest_token,
  validate_attestation,
}
use spiffe_spire.Server.BaseSvid.{
  AttestedData, Plugins, BaseSvid, fetch_base_svid, is_attested, attest_node, record_attestation,
  create_attestation_entry, resolve_selectors,
}
use spiffe_spire.Server.BaseSvid.Attested.{IsAttested, fetch_base_svid-IsAttested}
use spiffe_spire.Server.Node.Entitlement.{Entitled, sign_csrs-Entitled}
use spiffe_spire.Server.Node.Tokens.{Accepted, attest_token-Accepted}
use spiffe_spire.Tests.Stores.{Memory, memory, blank, web}

abbrev agent_id : String
agent_id = "spiffe://example.org/spire/agent/join_token/abc"

abbrev certificate : Certificate
certificate = record { raw = 7 ∷ []; not_before = 0; not_after = 9 }

-- The CSR 1 asks for the agent, every other one for the web service.
abbrev uris : List ℕ → Result (List String)
uris [] = failed "no CSR"
uris (first ∷ rest) =
    if first == 1 then ok (agent_id ∷ []) else ok ("spiffe://example.org/web" ∷ [])

abbrev handler : Handler Memory
handler = record {
  ds = memory;
  sign_csr = λ csr ttl s. (ok csr, s);
  parse_certificate = λ bytes. ok certificate;
  serial_number = λ cert. "42";
  remaining = λ cert. pos 5;
  csr_uris = uris;
  trust_domain = "spiffe://example.org";
}

abbrev agent : AttestedNode
agent = record {
  attested_data_type = "join_token";
  base_spiffe_id = agent_id;
  cert_expiration_date = 9;
  cert_serial_number = "42";
}

abbrev with_agent : Memory
with_agent = record blank { nodes = agent ∷ [] }

abbrev peer : Peer
peer = record { caller_id = agent_id; serial_number = "42" }

abbrev both_svids : GoMap String Svid
both_svids =
    (agent_id, record { svid_cert = 1 ∷ []; ttl = pos 5 })
    ∷ ("spiffe://example.org/web", record { svid_cert = 2 ∷ []; ttl = pos 3600 })
    ∷ []

signed :
    sign_csrs handler peer ((1 ∷ []) ∷ (2 ∷ []) ∷ []) (web ∷ []) with_agent
    ≡ (ok both_svids, with_agent)
unfolding sign_csrs sign_all sign_for sign_own is_own build_base_svid update_attestation_entry
    get_spiffe_id_from_csr entries_map insert lookup
signed = refl

agent_signed : has agent_id both_svids ≡ true
unfolding lookup
agent_signed = refl

sign_csrs-Entitled_example : Entitled handler peer (web ∷ []) agent_id
sign_csrs-Entitled_example =
    sign_csrs-Entitled handler peer (web ∷ []) ((1 ∷ []) ∷ (2 ∷ []) ∷ []) with_agent with_agent
      both_svids agent_id signed agent_signed

abbrev token : JoinToken
token = record { token = "abc"; expiry = 160 }

abbrev token_id : String → String
token_id t = "spiffe://example.org/spire/agent/join_token/" <> t

abbrev with_token : Memory
with_token = record blank { tokens = token ∷ [] }

abbrev response : AttestResponse
response = record { valid = true; base_spiffe_id = agent_id }

attested : attest_token handler token_id 100 "abc" false with_token ≡ (ok response, blank)
unfolding attest_token
attested = refl

attest_token-Accepted_example :
    (false ≡ false)
    × (response.valid ≡ true)
    × Accepted handler token_id 100 "abc" with_token blank response.base_spiffe_id
attest_token-Accepted_example =
    attest_token-Accepted handler token_id 100 "abc" false with_token blank response attested

abbrev plugins : Plugins Memory
plugins = record {
  node_attestors = [];
  resolve = λ id s. (ok none, s);
  create_node_resolver_map_entry = λ id selector s. (ok tt, s);
}

abbrev joining : AttestedData
joining = record { type = "join_token"; payload = "abc" }

abbrev base_svid : BaseSvid
base_svid = record { base_spiffe_id = agent_id; signed_certificate = 1 ∷ []; selectors = [] }

fetched :
    fetch_base_svid handler plugins token_id 100 (1 ∷ []) joining with_token
    ≡ (ok base_svid, with_agent)
unfolding fetch_base_svid is_attested attest_node attest_token validate_attestation
    record_attestation create_attestation_entry resolve_selectors get_spiffe_id_from_csr
fetched = refl

fetch_base_svid-IsAttested_example :
    IsAttested handler plugins token_id 100 (1 ∷ []) joining with_token base_svid
fetch_base_svid-IsAttested_example =
    fetch_base_svid-IsAttested handler plugins token_id 100 (1 ∷ []) joining with_token with_agent
      base_svid fetched
