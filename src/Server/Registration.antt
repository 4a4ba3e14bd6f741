-- ===== src/Server/Registration.antt =====
-- pkg/server/endpoints/registration: the handler of the registration API, over any data store, and
-- ValidateSpiffeID.
-- `net/url` is a parameter: `parse` is url.Parse and `to_text` the method String. A request that
-- the handler writes to is returned with what was written. `now` is time.Now().Unix(), and
-- `new_token` what uuid.NewV4 yields.
pub mod Validation
pub mod Uniqueness
pub mod Guarded
use text.Mathlib.Text.{starts_with}
use spiffe_spire.Prelude.{
  ℕ, ◌+◌, ◌<◌, ◌≡◌, String, ◌<>◌, Bool, true, false, not, ◌&&◌, Option, none, some, List, [], ◌∷◌,
  ◌==◌, nat_comparable, string_comparable, if◌then◌else◌, is_some,
}
use spiffe_spire.Prelude.Action.{
  Action, Result, ok, failed, return, fail, lift, ◌>>=◌, ◌>>◌, or_error, or_errorf,
}
use spiffe_spire.Prelude.Int.{ℤ, pos, negsuc}
use spiffe_spire.Common.Selector.{Selector, new_set_from_raw, equal_set}
use spiffe_spire.Common.Messages.{RegistrationEntry}
use spiffe_spire.Server.DataStore.{DataStore, JoinToken, Bundle}

-- url.URL, with `port` for the method Port().
pub record Url : Type 0 where
  pub scheme : String
  pub user : Option String
  pub host : String
  pub port : String
  pub path : String
  pub raw_query : String
  pub fragment : String

-- net/url.
pub record UrlPackage : Type 0 where
  pub parse : String → Result Url
  pub to_text : Url → String

abbrev pub quoted : String → String
quoted s = "\"" <> (s <> "\"")

-- `formatSpiffeIDValidationError`
abbrev pub format_spiffe_id_validation_error : String → String → String
format_spiffe_id_validation_error spiffe_id err =
    quoted spiffe_id <> (" is not a valid SPIFFE ID: " <> err)

-- The checks of `ValidateSpiffeID` on the URL, in their order.
unfoldable pub validate_url : UrlPackage → Url → String → Result Unit
validate_url url id trust_host =
    let invalid : String → Result Unit =
      λ err. failed (format_spiffe_id_validation_error (url.to_text id) err) in
    if not (id.fragment == "")
    then invalid "fragment is not allowed"
    else if not (id.raw_query == "")
    then invalid "query is not allowed"
    else if not (id.port == "")
    then invalid "port is not allowed"
    else if is_some id.user
    then invalid "user info is not allowed"
    else if not (id.scheme == "spiffe")
    then invalid "spiffe id must start with \"spiffe://\""
    else if id.host == ""
    then invalid "trust domain can not be empty"
    else if id.path == ""
    then invalid "path can not be empty"
    else if starts_with id.path "/spire"
    then invalid "invalid path, \"/spire*\" namespace is restricted"
    else if not (id.host == trust_host)
    then failed (
        quoted (url.to_text id)
        <> (" does not belong to configured trust domain " <> quoted trust_host))
    else ok tt

validate_parsed : UrlPackage → Result Url → String → Result Unit
validate_parsed url (ok id) trust_host = validate_url url id trust_host
validate_parsed url (failed err) trust_host = failed ("could not parse SPIFFE ID: " <> err)

-- `ValidateSpiffeID`; `trust_host` is the host of the configured trust domain.
unfoldable pub validate_spiffe_id : UrlPackage → String → String → Result Unit
unfolding validate_parsed
validate_spiffe_id url spiffe_id trust_host =
    if trust_host == ""
    then failed "configured trust domain is empty"
    else if spiffe_id == ""
    then failed "a SPIFFE ID is required"
    else validate_parsed url (url.parse spiffe_id) trust_host

-- The loop of `isEntryUnique`.
unfoldable pub none_equal : List RegistrationEntry → RegistrationEntry → Bool
none_equal [] entry = true
none_equal (re ∷ rest) entry =
    let later = none_equal rest entry in
    if re.parent_id == entry.parent_id
    then if equal_set (new_set_from_raw 0 re.selectors) (new_set_from_raw 0 entry.selectors)
      then false
      else later
    else later

-- The seconds of a time to live that is at least 1, and `none` below.
unfoldable pub positive : ℤ → Option ℕ
positive (pos n) = if n == 0 then none else some n
positive (negsuc n) = none

-- The token that `CreateJoinToken` registers.
unfoldable pub chosen_token : String → Result String → Result String
chosen_token token new_token = if token == "" then new_token else ok token

module _ {σ : Type 0} (ds : DataStore σ) where
  unfoldable pub is_entry_unique : RegistrationEntry → Action σ Bool
  is_entry_unique entry = do
    res ← ds.list_spiffe_entries entry.spiffe_id
    return (none_equal res entry)

  -- `CreateEntry`; `trust_host` is the host of the handler's trust domain.
  unfoldable pub create_entry : UrlPackage → String → RegistrationEntry → Action σ String
  create_entry url trust_host request = do
    or_error "Error while validating provided Spiffe ID"
        (lift (validate_spiffe_id url request.spiffe_id trust_host))
    unique ← or_error "Error trying to create entry" (is_entry_unique request)
    if not unique
        then fail "Entry already exists"
        else or_error "Error trying to create entry" (ds.create_registration_entry request)

  unfoldable pub delete_entry : String → Action σ RegistrationEntry
  delete_entry id = ds.delete_registration_entry id

  -- `FetchEntry`; nil, here `none`, for an id that the store does not know.
  unfoldable pub fetch_entry : String → Action σ (Option RegistrationEntry)
  fetch_entry id = or_error "Error trying to fetch entry" (ds.fetch_registration_entry id)

  unfoldable pub fetch_entries : Action σ (List RegistrationEntry)
  fetch_entries = or_error "Error trying to fetch entries" ds.fetch_registration_entries

  unfoldable pub list_by_selector : Selector → Action σ (List RegistrationEntry)
  list_by_selector selector = ds.list_selector_entries (selector ∷ [])

  unfoldable pub list_by_parent_id : String → Action σ (List RegistrationEntry)
  list_by_parent_id id =
      or_error "Error trying to list entries by parent ID" (ds.list_parent_id_entries id)

  unfoldable pub list_by_spiffe_id : String → Action σ (List RegistrationEntry)
  list_by_spiffe_id id = ds.list_spiffe_entries id

  -- `CreateJoinToken` of a request with this token and ttl.
  unfoldable pub create_join_token : ℕ → Result String → String → ℤ → Action σ JoinToken
  create_join_token now new_token token ttl = elim (positive ttl) [
    | none ↦ fail "Ttl is required, you must provide one"
    | some seconds ↦ do
      chosen ← or_errorf "unable to generate new token" (lift (chosen_token token new_token))
      let req : JoinToken = record { token = chosen; expiry = now + seconds }
      or_error "Error trying to register your token" (ds.register_token req)
      return req
  ]

  -- `FetchBundle`
  unfoldable pub fetch_bundle : String → Action σ (List ℕ)
  fetch_bundle trust_domain = do
    b ← or_errorf "get bundle from datastore" (ds.fetch_bundle trust_domain)
    return b.ca_certs
