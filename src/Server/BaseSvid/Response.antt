-- ===== src/Server/BaseSvid/Response.antt =====
-- `FetchBaseSVID` of pkg/server/endpoints/node/handler.go with the response that it composes.
use spiffe_spire.Prelude.{ℕ, String, List, Bool}
use spiffe_spire.Prelude.Action.{Action, or_error, ◌>>=◌}
use spiffe_spire.Common.Selector.{Selector}
use spiffe_spire.Server.BaseSvid.{AttestedData, Plugins, fetch_base_svid}
use spiffe_spire.Server.Node.{Handler}
use spiffe_spire.Server.Node.Updates.{SvidUpdate, get_fetch_base_svid_response}

unfoldable pub answer_base_svid :
    {σ : Type 0}
    → ((Selector → Selector → Bool) → List Selector → List Selector)
    → Handler σ
    → Plugins σ
    → (String → String)
    → ℕ
    → List ℕ
    → AttestedData
    → Action σ SvidUpdate
answer_base_svid slice_sort h plugins token_id now csr attested_data = do
  base ← fetch_base_svid h plugins token_id now csr attested_data
  or_error "Error trying to compose response" (
      get_fetch_base_svid_response slice_sort h base.base_spiffe_id base.signed_certificate
        base.selectors)
