-- ===== src/Tests/Workloads.antt =====
-- Witnesses and tests on the Workload API of the agent.
use spiffe_spire.Prelude.{ℕ, ◌≡◌, refl, false, List, [], ◌∷◌, ◌==◌, nat_comparable, length}
use spiffe_spire.Prelude.Action.{Result, ok, failed}
use spiffe_spire.Agent.Cache.{WorkloadUpdate}
use spiffe_spire.Agent.Workload.{
  X509Svid, bundle_bytes, compose, compose_response, send_response, collect_selectors,
}
use spiffe_spire.Agent.Workload.Responses.{Sent, send_response-Sent}
use spiffe_spire.Tests.{uid, namespace}
use spiffe_spire.Tests.Managers.{web_entry, certificate}

abbrev marshal_key : ℕ → Result (List ℕ)
marshal_key key = ok (key ∷ [])

abbrev update : WorkloadUpdate
update = record { entries = web_entry ∷ []; bundle = certificate (3 ∷ []) ∷ [] }

abbrev web_svid : X509Svid
web_svid = record {
  spiffe_id = "spiffe://example.org/web";
  x509_svid = 7 ∷ [];
  x509_svid_key = 1 ∷ [];
  bundle = 3 ∷ [];
}

sent : send_response marshal_key update ≡ ok (web_svid ∷ [])
unfolding send_response compose_response compose bundle_bytes
sent = refl

send_response-Sent_example :
    ((length update.entries == 0) ≡ false)
    × Sent marshal_key (bundle_bytes update.bundle) update.entries (web_svid ∷ [])
send_response-Sent_example = send_response-Sent marshal_key update (web_svid ∷ []) sent

-- A plugin that fails takes no selector of the others away.
collected :
    collect_selectors (failed "no docker" ∷ ok (uid ∷ []) ∷ ok (namespace ∷ []) ∷ [])
    ≡ uid ∷ namespace ∷ []
unfolding collect_selectors
collected = refl
