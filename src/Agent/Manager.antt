-- ===== src/Agent/Manager.antt =====
-- pkg/agent/manager: manager.go, comm.go and storage.go, the state of the agent's manager, its
-- clients of the node API and its bundle.
-- The connection, the key generator, the parsers of crypto/x509 and the file system are parameters,
-- on a state `W` of the world. A client is an address in `heap`, since two SPIFFE IDs may share one.
-- A call of the cache that does not return, a panic or a send that blocks, is a failure here, and so
-- is a nil pointer. An empty bundle in an update is nil. Maps are iterated over in the order of their
-- lists, and an operation is one step.
pub mod Sync
pub mod Matching
pub mod Bundle
use spiffe_spire.Prelude.{
  ℕ, ◌+◌, String, Bool, true, false, not, ◌||◌, ◌&&◌, Option, none, some, List, [], ◌∷◌, ◌++◌, map,
  ◌==◌, nat_comparable, string_comparable, if◌then◌else◌, length, ltb,
}
use spiffe_spire.Prelude.Action.{Action, Result, ok, failed, return, fail, ignore, ◌>>=◌, ◌>>◌}
use spiffe_spire.Prelude.Bytes.{same_bytes}
use spiffe_spire.Prelude.GoMap.{GoMap, values, lookup, insert}
use spiffe_spire.Common.Selector.{Selector, new_set_from_raw, includes_set}
use spiffe_spire.Common.Messages.{RegistrationEntry, Certificate}
use spiffe_spire.Agent.Cache.{Cache, Entry, entries, entry}
use spiffe_spire.Agent.Cache
use spiffe_spire.Agent.Subscribers.{Iteration}

pub record Client : Type 0 where
  pub connected : Bool
  pub svid : Certificate
  pub key : ℕ

-- `node.SvidUpdate`; the SVIDs are the bytes of certificates.
pub record SvidUpdate : Type 0 where
  pub svids : GoMap String (List ℕ)
  pub bundle : List ℕ
  pub registration_entries : List RegistrationEntry

-- What a call of FetchSVID comes to: no stream, a failure to send, or the answers up to the end of the
-- stream or an error.
pub data Exchange : Type 0 where
  no_stream : Exchange
  not_sent : String → Exchange
  received : List SvidUpdate → Option String → Exchange

pub record Update : Type 0 where
  pub reg_entries : GoMap String RegistrationEntry
  pub svids : GoMap String (List ℕ)
  pub last_bundle : List ℕ

pub record Manager : Type 0 where
  pub cache : Cache
  pub svid : Certificate
  pub svid_key : ℕ
  pub clients : GoMap String ℕ
  pub heap : GoMap ℕ Client
  pub next : ℕ

pub record State (W : Type 0) : Type 0 where
  pub manager : Manager
  pub world : W

pub record Config (W : Type 0) : Type 0 where
  pub spiffe_id : String
  pub server_spiffe_id : String
  pub svid_cache_path : String
  pub bundle_cache_path : String
  pub iter : Iteration
  -- `newGRPCConn`, given the bundle, the SVID and its key.
  pub dial : List Certificate → Certificate → ℕ → Action W Unit
  pub exchange : Client → List (List ℕ) → W → Exchange × W
  pub new_csr : String → Action W (ℕ × List ℕ)
  pub parse_certificate : List ℕ → Result Certificate
  pub parse_certificates : List ℕ → Result (List Certificate)
  pub write_file : String → List ℕ → Action W Unit

unfoldable pub matching_entries : List Selector → List Entry → List Entry
matching_entries selectors [] = []
matching_entries selectors (e ∷ rest) =
    let later = matching_entries selectors rest in
    if includes_set (new_set_from_raw 0 selectors)
      (new_set_from_raw 0 e.registration_entry.selectors)
    then e ∷ later
    else later

-- The loop of `bundleAlreadyCached`, on bundles of one length; `Equal` compares the bytes.
unfoldable pub all_equal : List Certificate → List Certificate → Bool
all_equal [] bundle = true
all_equal (cert ∷ rest) [] = false
all_equal (cert ∷ rest) (c ∷ bundle) =
    if not (same_bytes cert.raw c.raw) then false else all_equal rest bundle

unfoldable pub bundle_already_cached : List Certificate → List Certificate → Bool
bundle_already_cached current bundle =
    if not (length bundle == length current) then false else all_equal current bundle

-- The loop of `storeBundle`.
unfoldable pub bytes_of : List Certificate → List ℕ
bytes_of [] = []
bytes_of (cert ∷ rest) = cert.raw ++ bytes_of rest

-- The loops of `fetchUpdates` of a client over one answer.
unfoldable pub add_entries :
    List RegistrationEntry → GoMap String RegistrationEntry → GoMap String RegistrationEntry
add_entries [] m = m
add_entries (re ∷ rest) m = add_entries rest (insert re.entry_id re m)

unfoldable pub add_svids : GoMap String (List ℕ) → GoMap String (List ℕ) → GoMap String (List ℕ)
add_svids [] m = m
add_svids ((spiffe_id, svid) ∷ rest) m = add_svids rest (insert spiffe_id svid m)

unfoldable pub collect : List SvidUpdate → Update → Update
collect [] u = u
collect (resp ∷ rest) u = collect rest (record {
  reg_entries = add_entries resp.registration_entries u.reg_entries;
  svids = add_svids resp.svids u.svids;
  last_bundle = resp.bundle;
})

abbrev pub nothing : Update
nothing = record { reg_entries = []; svids = []; last_bundle = [] }

-- Whether some of a partial answer is there.
abbrev pub has_some : Update → Bool
has_some u =
    ltb 0 (length u.reg_entries) || (ltb 0 (length u.svids) || ltb 0 (length u.last_bundle))

module _ {W : Type 0} (config : Config W) where
  abbrev pub on_world : {A : Type 0} → Action W A → Action (State W) A
  on_world m s = let r = m s.world in (r.0, record s { world = r.1 })

  abbrev pub set_manager : Manager → Action (State W) Unit
  set_manager m s = (ok tt, record s { manager = m })

  -- An operation on the cache.
  abbrev pub returned : Option Cache → Action (State W) Unit
  returned none s = (failed "the call of the cache does not return", s)
  returned (some c) s = (ok tt, record s { manager = record s.manager { cache = c } })

  unfoldable pub store_bundle : Action (State W) Unit
  store_bundle s =
      on_world (config.write_file config.bundle_cache_path (bytes_of s.manager.cache.bundle)) s

  unfoldable pub store_svid : Action (State W) Unit
  store_svid s = on_world (config.write_file config.svid_cache_path s.manager.svid.raw) s

  -- The bundle of the cache is stored before it is replaced; a failure to store is logged.
  unfoldable pub set_bundle : List Certificate → Action (State W) Unit
  set_bundle bundle = do
    ignore store_bundle
    λ s. returned (Cache.set_bundle bundle s.manager.cache) s

  unfoldable pub is_already_cached : RegistrationEntry → Manager → Bool
  is_already_cached reg_entry m = elim (entry reg_entry m.cache) [ none ↦ false | some e ↦ true ]

  -- The loop of `isAgentAlias`.
  unfoldable pub has_alias_selector : List Selector → Bool
  has_alias_selector [] = false
  has_alias_selector (s ∷ rest) =
      if s.type == "spiffe_id" && s.value == config.spiffe_id then true else has_alias_selector rest

  unfoldable pub is_agent_alias : RegistrationEntry → Bool
  is_agent_alias re =
      if re.parent_id == config.server_spiffe_id then true else has_alias_selector re.selectors

  abbrev pub closed : Option Client → ℕ → GoMap ℕ Client → GoMap ℕ Client
  closed none address heap = heap
  closed (some c) address heap = insert address (record c { connected = false }) heap

  -- `close` of a client
  unfoldable pub close_client : ℕ → Action (State W) Unit
  close_client address s =
      let m = s.manager in
      set_manager (record m { heap = closed (lookup address m.heap) address m.heap }) s

  -- `add` of the pool: a client that is there is closed first.
  abbrev pub replaced : Option ℕ → Action (State W) Unit
  replaced none = return tt
  replaced (some address) = close_client address

  unfoldable pub add_client : String → ℕ → Action (State W) Unit
  add_client spiffe_id address = do
    λ s. replaced (lookup spiffe_id s.manager.clients) s
    λ s. set_manager (record s.manager { clients = insert spiffe_id address s.manager.clients }) s

  unfoldable pub new_client : Certificate → ℕ → Action (State W) ℕ
  new_client svid key = do
    λ s. on_world (config.dial s.manager.cache.bundle svid key) s
    λ s.
        let m = s.manager in
        (do
          set_manager (record m {
            heap = insert m.next (record { connected = true; svid = svid; key = key }) m.heap;
            next = m.next + 1;
          })
          return m.next)
          s

  unfoldable pub add_clients : List String → ℕ → Action (State W) Unit
  add_clients [] address = return tt
  add_clients (id ∷ rest) address = do add_client id address; add_clients rest address

  unfoldable pub new_sync_client : List String → Certificate → ℕ → Action (State W) Unit
  new_sync_client spiffe_ids svid key = do
    address ← new_client svid key
    add_clients spiffe_ids address
