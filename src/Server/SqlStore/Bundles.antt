-- ===== src/Server/SqlStore/Bundles.antt =====
-- The CA bundles of the SQL data store.
pub mod Appended
use spiffe_spire.Prelude.{
  ℕ, String, ◌<>◌, Bool, true, false, ◌||◌, ◌&&◌, not, Option, none, some, List, [], ◌∷◌, ◌++◌, map,
  ◌==◌, nat_comparable, string_comparable, if◌then◌else◌,
}
use spiffe_spire.Prelude.Action.{Action, Result, ok, failed, return, fail, lift, ◌>>=◌, ◌>>◌}
use spiffe_spire.Prelude.Bytes.{same_bytes}
use spiffe_spire.Prelude.GoMap.{GoMap, lookup, insert}
use spiffe_spire.Common.Messages.{Certificate}
use spiffe_spire.Server.DataStore.{Bundle}
use spiffe_spire.Server.Gorm.{Gorm, Table, BundleRow, CaCert}
use spiffe_spire.Server.Registration.{Url, UrlPackage}
use spiffe_spire.Server.SqlStore.{Plugin, must, finish, transaction}

-- `Contains` of model_utils.go, on the certificates of the bundle.
unfoldable pub contains : List CaCert → CaCert → Bool
contains [] cert = false
contains (c ∷ rest) cert =
    let later = contains rest cert in if same_bytes c.cert cert.cert then true else later

-- The loop of `AppendBundle` over the new certificates, with `Append` of model_utils.go.
unfoldable pub append_new : List CaCert → List CaCert → List CaCert
append_new certs [] = certs
append_new certs (c ∷ rest) = append_new (if contains certs c then certs else certs ++ c ∷ []) rest

unfoldable pub model_of : Certificate → CaCert
model_of c = record { id = 0; cert = c.raw; expiry = c.not_after; bundle_id = 0 }

-- The loop of `modelToBundle`.
unfoldable pub all_bytes : List CaCert → List ℕ
all_bytes [] = []
all_bytes (c ∷ rest) = c.cert ++ all_bytes rest

-- The index of `ListBundles`, by bundle.
unfoldable pub index_certs : GoMap ℕ (List CaCert) → List CaCert → GoMap ℕ (List CaCert)
index_certs m [] = m
index_certs m (cert ∷ rest) =
    index_certs
      (elim (lookup cert.bundle_id m) [
        | some certs ↦ insert cert.bundle_id (certs ++ cert ∷ []) m
        | none ↦ insert cert.bundle_id (cert ∷ []) m
      ])
      rest

abbrev pub certs_or_none : Option (List CaCert) → List CaCert
certs_or_none none = []
certs_or_none (some certs) = certs

abbrev pub of_bundle : ℕ → CaCert → Bool
of_bundle id c = c.bundle_id == id

abbrev pub of_domain : String → BundleRow → Bool
of_domain trust_domain b = b.trust_domain == trust_domain

module _ {σ : Type 0} (ds : Plugin σ) where
  -- The checks of `validateTrustDomain` on the URL.
  unfoldable pub check_domain : Url → Result Url
  check_domain id =
      if not (id.scheme == "spiffe")
        || (id.host == "" || (not (id.path == "") && not (id.path == "/")))
      then failed (ds.url.to_text id <> " is not a valid SPIFFE trust domain")
      else ok id

  abbrev pub check_parsed : String → Result Url → Result Url
  check_parsed text (failed why) =
      failed ("could not parse trust domain " <> (text <> (": " <> why)))
  check_parsed text (ok id) = check_domain id

  unfoldable pub validate_trust_domain : String → Result Url
  validate_trust_domain text =
      if text == ""
      then failed "trust domain is required"
      else check_parsed text (ds.url.parse text)

  abbrev pub parsed_certificates : Result (List Certificate) → Result (List Certificate)
  parsed_certificates (ok certs) = ok certs
  parsed_certificates (failed why) = failed "could not parse CA certificates"

  unfoldable pub bundle_to_model : Bundle → Action σ BundleRow
  bundle_to_model pb = do
    id ← lift (validate_trust_domain pb.trust_domain)
    certs ← lift (parsed_certificates (ds.parse_certificates pb.ca_certs))
    return (record { id = 0; trust_domain = ds.url.to_text id; ca_certs = map model_of certs })

  unfoldable pub model_to_bundle : BundleRow → Action σ Bundle
  model_to_bundle model = do
    id ← lift (validate_trust_domain model.trust_domain)
    return (record { trust_domain = ds.url.to_text id; ca_certs = all_bytes model.ca_certs })

  unfoldable pub create_bundle : Bundle → Action σ Bundle
  create_bundle req = do model ← bundle_to_model req; ds.db.bundles.create model; return req

  unfoldable pub update_in : BundleRow → Action σ Unit
  update_in new_model = do
    found ← ds.db.bundles.find_one (of_domain new_model.trust_domain)
    model ← must found
    ds.db.ca_certs.delete_where (of_bundle model.id)
    ds.db.bundles.save (record model { ca_certs = new_model.ca_certs })

  unfoldable pub update_bundle : Bundle → Action σ Bundle
  update_bundle req = do
    new_model ← bundle_to_model req
    transaction ds.db (update_in new_model)
    return req

  unfoldable pub append_to : BundleRow → BundleRow → Action σ Bundle
  append_to new_model model = do
    ca_certs ← ds.db.ca_certs.find (of_bundle model.id)
    let model' : BundleRow = record model { ca_certs = append_new ca_certs new_model.ca_certs }
    ds.db.bundles.save model'
    model_to_bundle model'

  -- The rest of `AppendBundle`, given the model that it found; without one the transaction is rolled
  -- back before the bundle is created.
  abbrev pub append_found : Bundle → BundleRow → σ → Option BundleRow → Action σ Bundle
  append_found req new_model begun none t = create_bundle req (ds.db.rollback begun t)
  append_found req new_model begun (some model) t = finish ds.db begun (append_to new_model model t)

  abbrev pub append_answered :
      Bundle → BundleRow → σ → Result (Option BundleRow) × σ → Result Bundle × σ
  append_answered req new_model begun (failed why, t) = (failed why, ds.db.rollback begun t)
  append_answered req new_model begun (ok found, t) = append_found req new_model begun found t

  unfoldable pub append_model : Bundle → BundleRow → Action σ Bundle
  append_model req new_model s =
      append_answered req new_model s (ds.db.bundles.find_one (of_domain new_model.trust_domain) s)

  unfoldable pub append_bundle : Bundle → Action σ Bundle
  append_bundle req = do new_model ← bundle_to_model req; append_model req new_model

  unfoldable pub delete_in : BundleRow → Action σ Bundle
  delete_in asked = do
    found ← ds.db.bundles.find_one (of_domain asked.trust_domain)
    model ← must found
    ca_certs ← ds.db.ca_certs.find (of_bundle model.id)
    ds.db.ca_certs.delete_where (of_bundle model.id)
    ds.db.bundles.delete model.id
    model_to_bundle (record model { ca_certs = ca_certs })

  unfoldable pub delete_bundle : Bundle → Action σ Bundle
  delete_bundle req = do
    asked ← bundle_to_model (record req { ca_certs = [] })
    transaction ds.db (delete_in asked)

  unfoldable pub fetch_bundle : Bundle → Action σ Bundle
  fetch_bundle req = do
    asked ← bundle_to_model req
    found ← ds.db.bundles.find_one (of_domain asked.trust_domain)
    model ← must found
    ca_certs ← ds.db.ca_certs.find (of_bundle model.id)
    model_to_bundle (record model { ca_certs = ca_certs })

  -- The last loop of `ListBundles`.
  unfoldable pub bundles_of : GoMap ℕ (List CaCert) → List BundleRow → Action σ (List Bundle)
  bundles_of ca_map [] = return []
  bundles_of ca_map (model ∷ rest) = do
    bundle ← model_to_bundle (record model { ca_certs = certs_or_none (lookup model.id ca_map) })
    later ← bundles_of ca_map rest
    return (bundle ∷ later)

  unfoldable pub list_in : Action σ (List Bundle)
  list_in = do
    bundles ← ds.db.bundles.find (λ b. true)
    ca_certs ← ds.db.ca_certs.find (λ c. true)
    bundles_of (index_certs [] ca_certs) bundles

  -- `ListBundles` rolls its transaction back in any case.
  unfoldable pub list_bundles : Action σ (List Bundle)
  list_bundles s = let r = list_in s in (r.0, ds.db.rollback s r.1)
