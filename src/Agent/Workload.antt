-- ===== src/Agent/Workload.antt =====
-- The Workload API of the agent: pkg/agent/attestor/workload/workload.go, which collects the selectors
-- of a workload, and pkg/agent/endpoints/workload/handler.go, which sends it its SVIDs.
-- The plugins, the encoding of keys and the credentials of the caller are parameters. The answers of
-- the plugins come in the order of a list, which Go leaves open. A nil SVID is a failure here.
pub mod Responses
use spiffe_spire.Prelude.{
  ℕ, String, ◌<>◌, Bool, true, false, not, Option, none, some, List, [], ◌∷◌, ◌++◌, ◌==◌,
  nat_comparable, string_comparable, if◌then◌else◌, length,
}
use spiffe_spire.Prelude.Action.{Result, ok, failed}
use spiffe_spire.Common.Messages.{Certificate}
use spiffe_spire.Common.Selector.{Selector}
use spiffe_spire.Agent.Cache.{Entry, WorkloadUpdate}

-- The loop of `Attest`: an error is logged and passed over.
unfoldable pub collect_selectors : List (Result (List Selector)) → List Selector
collect_selectors [] = []
collect_selectors (ok s ∷ rest) = s ++ collect_selectors rest
collect_selectors (failed why ∷ rest) = collect_selectors rest

-- `auth.CallerInfo`
pub record CallerInfo : Type 0 where
  pub pid : ℕ
  pub err : Option String

abbrev pub pid_of : CallerInfo → Option String → Result ℕ
pid_of info (some why) = failed ("Unable to resolve caller PID: " <> why)
pid_of info none = if info.pid == 0 then failed "Unable to resolve caller PID" else ok info.pid

unfoldable pub caller_pid : Option CallerInfo → Result ℕ
caller_pid none = failed "Unable to fetch credentials from context"
caller_pid (some info) = pid_of info info.err

-- The check of the header of a request, given its values.
unfoldable pub check_header : List String → Result Unit
check_header (value ∷ []) =
    if value == "true" then ok tt else failed "Security header missing from request"
check_header [] = failed "Security header missing from request"
check_header (first ∷ second ∷ rest) = failed "Security header missing from request"

pub record X509Svid : Type 0 where
  pub spiffe_id : String
  pub x509_svid : List ℕ
  pub x509_svid_key : List ℕ
  pub bundle : List ℕ

unfoldable pub bundle_bytes : List Certificate → List ℕ
bundle_bytes [] = []
bundle_bytes (c ∷ rest) = c.raw ++ bundle_bytes rest

module _ (marshal_key : ℕ → Result (List ℕ)) where
  abbrev pub svid_of : List ℕ → Entry → Result (List ℕ) → Option Certificate → Result X509Svid
  svid_of bundle e (failed why) svid = failed ("marshal key: " <> why)
  svid_of bundle e (ok key) none = failed "nil SVID"
  svid_of bundle e (ok key) (some svid) = ok (record {
    spiffe_id = e.registration_entry.spiffe_id;
    x509_svid = svid.raw;
    x509_svid_key = key;
    bundle = bundle;
  })

  abbrev pub cons_svid : Result X509Svid → Result (List X509Svid) → Result (List X509Svid)
  cons_svid (failed why) rest = failed why
  cons_svid (ok svid) (failed why) = failed why
  cons_svid (ok svid) (ok svids) = ok (svid ∷ svids)

  -- The loop of `composeResponse`.
  unfoldable pub compose : List ℕ → List Entry → Result (List X509Svid)
  compose bundle [] = ok []
  compose bundle (e ∷ rest) =
      cons_svid (svid_of bundle e (marshal_key e.private_key) e.svid) (compose bundle rest)

  unfoldable pub compose_response : WorkloadUpdate → Result (List X509Svid)
  compose_response update = compose (bundle_bytes update.bundle) update.entries

  abbrev pub composed : Result (List X509Svid) → Result (List X509Svid)
  composed (ok svids) = ok svids
  composed (failed why) = failed ("Could not serialize response: " <> why)

  -- `sendResponse`: what it sends.
  unfoldable pub send_response : WorkloadUpdate → Result (List X509Svid)
  send_response update =
      if length update.entries == 0
      then failed "no identity issued"
      else composed (compose_response update)
