-- ===== src/Tests/Managers.antt =====
-- Witnesses and tests on the agent's manager.
use spiffe_spire.Prelude.{
  ℕ, ◌≡◌, ◌⊎◌, refl, String, true, false, none, some, List, [], ◌∷◌, All, nat_comparable,
  string_comparable,
}
use spiffe_spire.Prelude.Action.{ok, failed}
use spiffe_spire.Prelude.Int.{pos}
use spiffe_spire.Prelude.GoMap.{lookup, insert}
use spiffe_spire.Common.Messages.{RegistrationEntry, Certificate}
use spiffe_spire.Agent.Cache.{Entry, new, entry}
use spiffe_spire.Agent.Cache.Invariant.{IsWellFormed}
use spiffe_spire.Agent.Cache.Joining.{new-IsWellFormed}
use spiffe_spire.Agent.Manager.{
  SvidUpdate, received, Update, State, Config, nothing, collect, add_entries, add_svids, bytes_of,
  close_client, store_svid, set_bundle, is_agent_alias, is_already_cached, has_alias_selector,
}
use spiffe_spire.Agent.Manager.Bundle.{raws, set_bundle-stores_old, keep_bundle_lem}
use spiffe_spire.Agent.Manager.Sync.{
  EntryRequests, add_request, check_new, keep_bundle, is_expiring, check_expired, check_for_new,
  fetch_updates, client_fetch_updates, ensure_sync_client, rotate_svid, renew_svid,
  ensure_rotation_client, rotator_tag,
}
use spiffe_spire.Agent.Manager.Sync.Requests.{Requested, check_expired_lem}
use spiffe_spire.Agent.Manager.Sync.Rotation.{Renewed, rotate_svid_lem}
use spiffe_spire.Tests.{uid, in_order}

-- The files that were written, the last one first.
abbrev World : Type 0
World = List (String × List ℕ)

abbrev pub agent_id : String
agent_id = "spiffe://example.org/spire/agent/1"

abbrev server_id : String
server_id = "spiffe://example.org/spire/server"

abbrev pub certificate : List ℕ → Certificate
certificate bytes = record { raw = bytes; not_before = 0; not_after = 100 }

abbrev pub web : RegistrationEntry
web = record {
  selectors = uid ∷ [];
  parent_id = agent_id;
  spiffe_id = "spiffe://example.org/web";
  ttl = pos 3600;
  fb_spiffe_ids = [];
  entry_id = "e1";
}

abbrev alias : RegistrationEntry
alias = record web {
  parent_id = server_id;
  spiffe_id = "spiffe://example.org/alias";
  entry_id = "e2";
}

-- The server answers every request with one entry and a new SVID of the agent.
abbrev answer : SvidUpdate
answer = record { svids = (agent_id, 9 ∷ []) ∷ []; bundle = []; registration_entries = web ∷ [] }

abbrev config : Config World
config = record {
  spiffe_id = agent_id;
  server_spiffe_id = server_id;
  svid_cache_path = "svid";
  bundle_cache_path = "bundle";
  iter = in_order;
  dial = λ bundle svid key w. (ok tt, w);
  exchange = λ client csrs w. (received (answer ∷ []) none, w);
  new_csr = λ id w. (ok (5, 1 ∷ []), w);
  parse_certificate = λ bytes. ok (certificate bytes);
  parse_certificates = λ bytes. ok (certificate bytes ∷ []);
  write_file = λ path bytes w. (ok tt, (path, bytes) ∷ w);
}

abbrev pub web_entry : Entry
web_entry = record {
  registration_entry = web;
  svid = some (certificate (7 ∷ []));
  private_key = 1;
  bundles = [];
}

abbrev state : State World
state = record {
  manager = record {
    cache = new (certificate (3 ∷ []) ∷ []);
    svid = certificate (4 ∷ []);
    svid_key = 2;
    clients = (agent_id, 0) ∷ (rotator_tag, 1) ∷ [];
    heap =
        (0, record { connected = true; svid = certificate (4 ∷ []); key = 2 })
        ∷ (1, record { connected = true; svid = certificate (4 ∷ []); key = 2 })
        ∷ [];
    next = 2;
  };
  world = [];
}

abbrev state_wf : IsWellFormed state.manager.cache
state_wf = new-IsWellFormed (certificate (3 ∷ []) ∷ [])

set_bundle-stores_old_example :
    (t : State World) × (set_bundle config (certificate (8 ∷ []) ∷ []) state ≡ (ok tt, t))
    × IsWellFormed t.manager.cache
    × (t.manager.cache.cache ≡ state.manager.cache.cache)
    × (t.manager.cache.bundle ≡ certificate (8 ∷ []) ∷ [])
    × (t.world
        ≡ (config.write_file config.bundle_cache_path
            (bytes_of state.manager.cache.bundle)
            state.world).1)
set_bundle-stores_old_example =
    set_bundle-stores_old config state state_wf (certificate (8 ∷ []) ∷ [])

keep_bundle_lem_example :
    (t : State World) × (keep_bundle config (8 ∷ []) state ≡ (ok tt, t))
    × IsWellFormed t.manager.cache
    × (t.manager.cache.cache ≡ state.manager.cache.cache)
    × (raws t.manager.cache.bundle ≡ raws (certificate (8 ∷ []) ∷ []))
keep_bundle_lem_example =
    keep_bundle_lem config state state_wf (8 ∷ []) (certificate (8 ∷ []) ∷ []) refl refl

-- The SVID lives from 0 to 100.
abbrev renewed : State World
renewed = (rotate_svid config 60 state).1

rotated : rotate_svid config 60 state ≡ (ok tt, renewed)
unfolding rotate_svid renew_svid is_expiring ensure_rotation_client client_fetch_updates
    close_client store_svid collect add_entries add_svids lookup insert
rotated = refl

rotate_svid_lem_example :
    ((is_expiring 60 state.manager.svid ≡ false) × (renewed ≡ state))
    ⊎ ((is_expiring 60 state.manager.svid ≡ true) × Renewed config state renewed)
rotate_svid_lem_example = rotate_svid_lem config 60 state renewed rotated

abbrev made : EntryRequests
made =
    (
      agent_id,
      ("e1", record { csr = 1 ∷ []; entry = record web_entry { svid = none; private_key = 5 } })
          ∷ [],
    )
    ∷ []

expired : check_expired config 60 (web_entry ∷ []) [] state ≡ (ok made, state)
unfolding check_expired is_expiring add_request lookup insert
expired = refl

check_expired_lem_example :
    ((parent_id entry_id : String)
      → Requested parent_id entry_id []
      → Requested parent_id entry_id made)
    × All
        (λ e.
          (svid : Certificate) × (e.svid ≡ some svid)
          × (is_expiring 60 svid ≡ true
              → Requested e.registration_entry.parent_id e.registration_entry.entry_id made))
        (web_entry ∷ [])
check_expired_lem_example = check_expired_lem config 60 (web_entry ∷ []) [] made state state expired

abbrev answered : Update
answered = collect (answer ∷ []) nothing

abbrev rank : String → ℕ
rank id = 0

-- The alias is cached, and the agent has a client for it.
abbrev aliased : State World
aliased = record state {
  manager = record state.manager {
    cache = record state.manager.cache {
      cache = ("e2", record web_entry { registration_entry = alias }) ∷ [];
    };
    clients = (alias.spiffe_id, 0) ∷ state.manager.clients;
  };
}

-- With too little fuel the recursion runs out; with enough it asks for the entry of the alias.
too_little : (check_for_new config 1 (alias ∷ []) [] aliased).0 ≡ failed "out of fuel"
unfolding check_for_new check_new is_already_cached is_agent_alias fetch_updates ensure_sync_client
    client_fetch_updates keep_bundle collect add_entries add_svids lookup insert entry
too_little = refl

enough : (check_for_new config 2 (alias ∷ []) [] aliased).0 ≡ ok made
unfolding check_for_new check_new is_already_cached is_agent_alias has_alias_selector fetch_updates
    ensure_sync_client client_fetch_updates keep_bundle collect add_entries add_svids lookup insert
    entry add_request
enough = refl
