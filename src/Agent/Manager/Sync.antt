-- ===== src/Agent/Manager/Sync.antt =====
-- pkg/agent/manager/sync.go, and the calls of the node API in comm.go: how the manager brings its
-- cache up to date with the server.
-- `now` is the time of the whole operation. A certificate does not end before it begins. The
-- recursions over agent aliases, which the source does not bound, run on fuel.
pub mod Fuel
pub mod Requests
pub mod Rotation
use spiffe_spire.Prelude.{
  ℕ, zero, suc, ◌+◌, ◌-◌, ◌/◌, String, Bool, true, false, not, Option, none, some, List, [], ◌∷◌,
  ◌++◌, ◌==◌, nat_comparable, string_comparable, if◌then◌else◌, length, ltb,
}
use spiffe_spire.Prelude.Action.{
  Action, Result, ok, failed, return, fail, lift, ignore, ◌>>=◌, ◌>>◌,
}
use spiffe_spire.Prelude.GoMap.{GoMap, values, lookup, insert}
use spiffe_spire.Common.Messages.{RegistrationEntry, Certificate}
use spiffe_spire.Agent.Cache.{Entry, entries}
use spiffe_spire.Agent.Cache
use spiffe_spire.Agent.Manager.{
  Client, SvidUpdate, Exchange, no_stream, not_sent, received, Update, Manager, State, Config,
  nothing, has_some, collect, bundle_already_cached, on_world, set_manager, returned, store_svid,
  set_bundle, is_already_cached, is_agent_alias, close_client, add_client, new_client,
  new_sync_client,
}

pub record EntryRequest : Type 0 where
  pub csr : List ℕ
  pub entry : Entry

-- By the parent's SPIFFE ID, then by the id of the entry.
abbrev pub EntryRequests : Type 0
EntryRequests = GoMap String (GoMap String EntryRequest)

abbrev pub map_or_empty : Option (GoMap String EntryRequest) → GoMap String EntryRequest
map_or_empty none = []
map_or_empty (some m) = m

unfoldable pub add_request : EntryRequest → EntryRequests → EntryRequests
add_request e er =
    let re = e.entry.registration_entry in
    insert re.parent_id (insert re.entry_id e (map_or_empty (lookup re.parent_id er))) er

-- An entry that is built ahead of its SVID.
abbrev pub pending : RegistrationEntry → ℕ → Entry
pending re key = record { registration_entry = re; svid = none; private_key = key; bundles = [] }

unfoldable pub csrs_of : List EntryRequest → List (List ℕ)
csrs_of [] = []
csrs_of (r ∷ rest) = r.csr ∷ csrs_of rest

-- Less than half of the lifetime is left.
unfoldable pub is_expiring : ℕ → Certificate → Bool
is_expiring now svid = ltb svid.not_after (now + (svid.not_after - svid.not_before) / 2)

abbrev pub rotator_tag : String
rotator_tag = "_rotator_"

module _ {W : Type 0} (config : Config W) where
  -- `fetchUpdates` of the client, after the exchange.
  abbrev pub exchanged : ℕ → Exchange → Action (State W) Update
  exchanged address no_stream = do close_client config address; fail "unable to get a stream"
  exchanged address (not_sent why) = fail why
  exchanged address (received updates none) = return (collect updates nothing)
  exchanged address (received updates (some why)) =
      if has_some (collect updates nothing) then fail "partial response received" else fail why

  abbrev pub client_updates : Option Client → ℕ → List (List ℕ) → Action (State W) Update
  client_updates none address csrs s = (failed "nil client", s)
  client_updates (some c) address csrs s =
      let r = config.exchange c csrs s.world in exchanged address r.0 (record s { world = r.1 })

  unfoldable pub client_fetch_updates : ℕ → List (List ℕ) → Action (State W) Update
  client_fetch_updates address csrs s =
      client_updates (lookup address s.manager.heap) address csrs s

  -- A client whose connection is closed is replaced by a new one for the SPIFFE ID.
  abbrev pub ensured : String → ℕ → Option Client → Certificate → ℕ → Action (State W) ℕ
  ensured spiffe_id address none svid key = fail "nil client"
  ensured spiffe_id address (some c) svid key =
      if c.connected
      then return address
      else do new ← new_client config svid key; add_client config spiffe_id new; return new

  abbrev pub sync_client : String → Option ℕ → Action (State W) ℕ
  sync_client spiffe_id none s = (failed "no client found", s)
  sync_client spiffe_id (some address) s = elim (lookup address s.manager.heap) [
    | none ↦ (failed "nil client", s)
    | some c ↦ ensured spiffe_id address (some c) c.svid c.key s
  ]

  unfoldable pub ensure_sync_client : String → Action (State W) ℕ
  ensure_sync_client spiffe_id s = sync_client spiffe_id (lookup spiffe_id s.manager.clients) s

  abbrev pub rotation_client : Option ℕ → Action (State W) ℕ
  rotation_client none s = (failed "no client found for rotator", s)
  rotation_client (some address) s =
      ensured rotator_tag address (lookup address s.manager.heap) s.manager.svid s.manager.svid_key
        s

  unfoldable pub ensure_rotation_client : Action (State W) ℕ
  ensure_rotation_client s = rotation_client (lookup rotator_tag s.manager.clients) s

  abbrev pub new_bundle : List Certificate → Action (State W) Unit
  new_bundle bundle s =
      if bundle_already_cached s.manager.cache.bundle bundle
      then (ok tt, s)
      else set_bundle config bundle s

  unfoldable pub keep_bundle : List ℕ → Action (State W) Unit
  keep_bundle last_bundle =
      if ltb 0 (length last_bundle)
      then (do bundle ← lift (config.parse_certificates last_bundle); new_bundle bundle)
      else return tt

  unfoldable pub fetch_updates : String → List (List ℕ) → Action (State W) Update
  fetch_updates spiffe_id csrs = do
    client ← ensure_sync_client spiffe_id
    update ← client_fetch_updates client csrs
    keep_bundle update.last_bundle
    return update

  -- The request for a new SVID of an entry.
  abbrev pub request : RegistrationEntry → EntryRequests → Action (State W) EntryRequests
  request re er = do
    made ← on_world config (config.new_csr re.spiffe_id)
    return (add_request (record { csr = made.1; entry = pending re made.0 }) er)

  abbrev pub expiring : ℕ → Option Certificate → Result Bool
  expiring now none = failed "nil SVID"
  expiring now (some svid) = ok (is_expiring now svid)

  unfoldable pub check_expired : ℕ → List Entry → EntryRequests → Action (State W) EntryRequests
  check_expired now [] er = return er
  check_expired now (e ∷ rest) er = do
    soon ← lift (expiring now e.svid)
    er' ← if soon then request e.registration_entry er else return er
    check_expired now rest er'

  -- `checkForNewCacheEntries`, `deep` what it does on the entries of an alias that is cached.
  unfoldable pub check_new :
      (List RegistrationEntry → EntryRequests → Action (State W) EntryRequests)
      → List RegistrationEntry
      → EntryRequests
      → Action (State W) EntryRequests
  check_new deep [] er s = (ok er, s)
  check_new deep (re ∷ rest) er s =
      (do
        er' ←
            if not (is_already_cached config re s.manager)
            then request re er
            else if is_agent_alias config re
            then (do update ← fetch_updates re.spiffe_id []; deep (values update.reg_entries) er)
            else return er
        check_new deep rest er')
        s

  unfoldable pub check_for_new :
      ℕ → List RegistrationEntry → EntryRequests → Action (State W) EntryRequests
  check_for_new zero es er = fail "out of fuel"
  check_for_new (suc fuel) es er = check_new (check_for_new fuel) es er

  -- The loop of `updateEntriesSVIDs`, with the aliases that it found.
  unfoldable pub update_svids :
      List EntryRequest → GoMap String (List ℕ) → List Entry → Action (State W) (List Entry)
  update_svids [] svids aliases = return aliases
  update_svids (r ∷ rest) svids aliases = elim (lookup r.entry.registration_entry.spiffe_id svids) [
    | none ↦ update_svids rest svids aliases
    | some svid ↦ do
      cert ← lift (config.parse_certificate svid)
      let ce : Entry = record r.entry { svid = some cert }
      λ s. returned config (Cache.set_entry config.iter ce s.manager.cache) s
      update_svids rest svids
          (if is_agent_alias config ce.registration_entry then aliases ++ ce ∷ [] else aliases)
  ]

  -- The first loop of `processEntryRequests`.
  unfoldable pub process_requests : EntryRequests → List Entry → Action (State W) (List Entry)
  process_requests [] aliases = return aliases
  process_requests ((parent_id, requests) ∷ rest) aliases = do
    update ← fetch_updates parent_id (csrs_of (values requests))
    aliases' ← update_svids (values requests) update.svids aliases
    process_requests rest aliases'

  -- The loop over the aliases, `sync` the synchronization on behalf of one.
  unfoldable pub process_aliases :
      (String → Action (State W) Unit) → List Entry → Action (State W) Unit
  process_aliases sync [] = return tt
  process_aliases sync (alias ∷ rest) = do
    svid ← lift (elim alias.svid [ none ↦ failed "nil SVID" | some svid ↦ ok svid ])
    new_sync_client config (alias.registration_entry.spiffe_id ∷ []) svid alias.private_key
    sync alias.registration_entry.spiffe_id
    process_aliases sync rest

  unfoldable pub process_entry_requests :
      (String → Action (State W) Unit) → EntryRequests → Action (State W) Unit
  process_entry_requests sync er =
      if length er == 0
      then return tt
      else (do aliases ← process_requests er []; process_aliases sync aliases)

  -- `depth` is the fuel of `check_for_new` in each round.
  unfoldable pub synchronize : ℕ → ℕ → ℕ → String → Action (State W) Unit
  synchronize zero depth now spiffe_id = fail "out of fuel"
  synchronize (suc fuel) depth now spiffe_id = do
    update ← fetch_updates spiffe_id []
    expired ← λ s. check_expired now (entries s.manager.cache) [] s
    er ← check_for_new depth (values update.reg_entries) expired
    process_entry_requests (synchronize fuel depth now) er

  abbrev pub own_svid : Option (List ℕ) → Result Certificate
  own_svid none = failed "it was not possible to get base SVID from FetchSVID response"
  own_svid (some svid) = config.parse_certificate svid

  -- The SVID of the agent in an update.
  abbrev pub received_svid : GoMap String (List ℕ) → Result Certificate
  received_svid svids =
      if length svids == 0
      then failed "no SVID received when rotating BaseSVID"
      else own_svid (lookup config.spiffe_id svids)

  unfoldable pub renew_svid : Action (State W) Unit
  renew_svid = do
    made ← on_world config (config.new_csr config.spiffe_id)
    client ← ensure_rotation_client
    update ← client_fetch_updates client (made.1 ∷ [])
    cert ← lift (received_svid update.svids)
    λ s. set_manager config (record s.manager { svid = cert; svid_key = made.0 }) s
    close_client config client
    store_svid config

  unfoldable pub rotate_svid : ℕ → Action (State W) Unit
  rotate_svid now s = if is_expiring now s.manager.svid then renew_svid s else (ok tt, s)
