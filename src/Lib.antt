-- ===== src/Lib.antt =====
-- SPIRE issues identities (SVIDs) to workloads. A server (pkg/server) keeps registration
-- entries, which say what selectors a workload must show to get a SPIFFE ID, and signs
-- certificates; an agent (pkg/agent) on each node keeps the entries and the SVIDs of its
-- workloads in a cache and sends each workload that asks the entries that match its selectors.
-- This library models the selectors and their sets, the agent's cache with its subscribers, the
-- server's registration API with the check of SPIFFE IDs, the join token attestor, the rotation
-- and pruning of CA certificates, the node API, the SQL data store, the agent's manager with its
-- synchronization, the Kubernetes workload attestor and the Workload API's handler, as functions
-- on explicit states.
--
-- The parts:
-- - Common/Selector.antt and its children: pkg/common/selector/selector.go and set.go. A set is
--   Go's map from a selector to a pointer; `add`, `new_set`, `new_set_from_raw`, `array`, `raw`,
--   `size`, `remove`, `includes`, `includes_set`, `equal_set` and `to_string` are Add, NewSet,
--   NewSetFromRaw, Array, Raw, Size, Remove, Includes, IncludesSet, Equal and String.
--   Common/Selector/Power.antt is powerSet of set_utils.go: the counter, its binary text and the
--   walk over the digits. Common/Messages.antt has the messages that the parts exchange.
-- - Agent/Subscribers.antt and its children: pkg/agent/manager/cache/subscriber.go. The
--   subscribers are indexed by the text of every combination of their selectors; `add`, `get`,
--   `get_all`, `get_sub_ids`, `dedupe` and `remove` are the functions of these names,
--   `remove_uid` the inner loop of remove with the slice that it shifts while it ranges over it.
-- - Agent/Cache.antt and its children: pkg/agent/manager/cache/cache.go. `Cache` is cacheImpl
--   with a heap of subscribers; `set_entry`, `delete_entry`, `set_bundle`, `subscribe`,
--   `notify_subscribers` and `subscriber_entries` are SetEntry, DeleteEntry, SetBundle,
--   Subscribe, notifySubscribers and subscriberEntries; `allocate` and `finish` are
--   NewSubscriber and Finish.
-- - Agent/Manager.antt and its children: pkg/agent/manager, manager.go, comm.go, storage.go and
--   sync.go. `fetch_updates` is fetchUpdates of the manager and `client_fetch_updates` that of a
--   client; `check_expired`, `check_for_new`, `process_entry_requests`, `synchronize` and
--   `rotate_svid` are checkExpiredCacheEntries, checkForNewCacheEntries, processEntryRequests,
--   synchronize and rotateSVID.
-- - Agent/K8sPlugin.antt and its children: pkg/agent/plugin/workloadattestor/k8s, `attest` for
--   Attest, `poll` for its loop, `look_up_container_in_pod` for lookUpContainerInPod.
-- - Agent/Workload.antt and its child: pkg/agent/endpoints/workload/handler.go, `send_response`
--   for sendResponse and `compose_response` for composeResponse, and the loop of Attest of
--   pkg/agent/attestor/workload.
-- - Server/DataStore.antt: the data store as an interface (proto/server/datastore), whose state
--   is a parameter. Server/Registration.antt and its children:
--   pkg/server/endpoints/registration, `create_entry` for CreateEntry, `is_entry_unique` for
--   isEntryUnique, `create_join_token` for CreateJoinToken, `validate_spiffe_id` for
--   ValidateSpiffeID.
-- - Server/JoinTokenPlugin.antt: pkg/server/plugin/nodeattestor/jointoken.
-- - Server/CaManager.antt and its children: pkg/server/ca/manager.go, `ca_rotate` for caRotate,
--   `prepare_next_ca` for prepareNextCA, `activate_next_ca` for activateNextCA, `prune` for
--   prune.
-- - Server/Node.antt and its children: of pkg/server/endpoints/node/handler.go, `attest_token`
--   for attestToken, `validate_attestation` for validateAttestation, `sign_csrs` for signCSRs
--   with `sign_own`, `build_svid` and `build_base_svid` for what it does with one CSR.
-- - Server/Node/Updates.antt and its children: of the same file, `fetch_entries` for
--   fetchRegistrationEntries, `fetch_svid` for a round of FetchSVID.
-- - Server/BaseSvid.antt and its children: FetchBaseSVID of the same file, `fetch_base_svid` up
--   to the composition of the response, `answer_base_svid` with it; `is_attested`, `attest_node`
--   and `resolve_selectors` are isAttested, attest or attestToken, and resolveSelectors.
-- - Server/SqlStore.antt and its children: pkg/server/plugin/datastore/sql. Server/Gorm.antt is
--   the interface to gorm with the rows of models.go, and Server/Gorm/Laws.antt what gorm
--   documents of it. Bundles, Nodes, Entries and Tokens have one function for each operation of
--   sqlPlugin under its name, with `matching_entries` for listMatchingEntries, `convert_entries`
--   for convertEntries, `bundle_to_model` and `model_to_bundle` for bundleToModel and
--   modelToBundle; Service is the store as an implementation of the interface, and Attestation
--   runs the two APIs on it.
-- - Prelude.antt and its children: Boolean tests and lists on native numbers, Go's maps, calls
--   that may fail. Tests.antt and its children: the theorems at concrete inputs.
--
-- How the parts interact: the cache asks the subscribers whom an entry concerns, and the
-- subscribers use the combinations and texts of selector sets; the cache and the registration
-- API compare entries by selector sets; the registration API calls the data store, as do the CA
-- manager and the node API; the SQL data store implements it.
--
-- Choices. A Go map is an association list in the order of one iteration; theorems range over
-- all such lists, and for texts of sets over an iteration order for each call. Pointers are
-- addresses. `none` stands for a call that does not return: a panic, a send that blocks, or the
-- power set of 63 selectors or more, where Go leaves the conversion of a float64 to an int open.
-- Loops recur on their lists; the counter loops recur on the number of rounds that are left,
-- which the source's bounds give: 2^n - 1 rounds over the masks, as many rounds over a binary
-- text as it has digits, and i halvings for the digits of i. The recursion of the agent's
-- manager over aliases has no bound in the source: it runs on fuel, and where the aliases are
-- ranked, all amounts of fuel above a bound that their ranks lie below give the same. An
-- operation is one step, as under its mutexes; interleavings of parts of two operations are not
-- modelled. Time is a number that the caller hands in. Ttls of join tokens that are negative, or
-- so large that they overflow a time.Duration, are not modelled.
--
-- Not modelled: the configuration and the connections of the SQL data store, the tickers of the
-- CA manager and of the agent's manager and the start of that, the SVID rotator
-- (pkg/server/svid), the other attestors, key managers and catalogs of plugins, the command line
-- and the generated code under proto.
pub mod Prelude
pub mod Common
pub mod Agent
pub mod Server
pub mod Tests
