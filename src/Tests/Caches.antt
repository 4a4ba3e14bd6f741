-- ===== src/Tests/Caches.antt =====
-- Witnesses and tests on the cache and its subscribers.
use mathlib.Core.List.Memᴰ
use spiffe_spire.Prelude.{
  ◌<◌, ◌≡◌, ◌↔◌, refl, true, false, none, some, List, [], ◌∷◌, Memᴰ, arith, nat_comparable,
  string_comparable, length, IsNodup,
}
use spiffe_spire.Prelude.Int.{pos}
use spiffe_spire.Prelude.GoMap.{values, has, lookup, insert, delete}
use spiffe_spire.Common.Selector.{Selector, selector_comparable, Set, new_set_from_raw, size, array}
use spiffe_spire.Common.Selector.Power.{
  power_set, combinations, combination, walk, format_uint, round, enable,
}
use spiffe_spire.Common.Messages.{Certificate}
use spiffe_spire.Agent.Subscribers.Consistency.{texts}
use spiffe_spire.Agent.Cache.{
  Entry, Subscriber, Cache, new_subscriber, new, allocate, entries, subscribe, set_entry,
  delete_entry, set_bundle, subscriber_entries,
}
use spiffe_spire.Agent.Cache.Matching.{Wants, subscriber_entries_iff}
use spiffe_spire.Agent.Cache.Notify.{delivered}
use spiffe_spire.Agent.Cache.Invariant.{IsWellFormed}
use spiffe_spire.Agent.Cache.Lifetime.{allocate-IsWellFormed}
use spiffe_spire.Agent.Cache.Joining.{new-IsWellFormed, subscribe-delivers}
use spiffe_spire.Agent.Cache.Delivery.{
  set_entry-delivers, delete_entry-delivers, set_bundle-delivers,
}
use spiffe_spire.Tests.{uid, in_order, in_order-IsIteration}

abbrev only_uid : List Selector
only_uid = uid ∷ []

abbrev alice : Subscriber
alice = new_subscriber 5 only_uid

abbrev started : Cache
started = allocate 11 5 only_uid (new [])

abbrev web : Entry
web = record {
  registration_entry = record {
    selectors = only_uid;
    parent_id = "spiffe://example.org/agent";
    spiffe_id = "spiffe://example.org/web";
    ttl = pos 3600;
    fb_spiffe_ids = [];
    entry_id = "e1";
  };
  svid = none;
  private_key = 1;
  bundles = [];
}

abbrev root : Certificate
root = record { raw = 1 ∷ []; not_before = 0; not_after = 9 }

free : lookup 11 (new []).heap ≡ none
unfolding new lookup
free = refl

abbrev started_wf : IsWellFormed started
started_wf = allocate-IsWellFormed 11 5 only_uid (new []) (new-IsWellFormed []) free

alice_there : lookup 11 started.heap ≡ some alice
unfolding allocate new lookup insert
alice_there = refl

unknown : has 5 started.subscribers.sid_map ≡ false
unfolding allocate new lookup
unknown = refl

small : length only_uid < 63
small = omega arith

abbrev one_set : List Set
one_set = new_set_from_raw 0 only_uid ∷ []

alice_sets : power_set (new_set_from_raw 0 alice.sel) ≡ some one_set
unfolding new_subscriber power_set new_set_from_raw size insert combinations combination walk
    format_uint round enable array
alice_sets = refl

distinct : IsNodup (texts in_order 0 one_set)
unfolding texts
distinct = (Memᴰ.not-nil, tt)

alice_small : length alice.sel < 63
unfolding new_subscriber
alice_small = omega arith

alice_unknown : has alice.sid started.subscribers.sid_map ≡ false
unfolding new_subscriber
alice_unknown = unknown

alice_active : alice.active ≡ true
unfolding new_subscriber
alice_active = refl

joining :
    (c' : Cache) × (subscribe in_order 11 started ≡ some c')
    × IsWellFormed c'
    × (c'.cache ≡ started.cache)
    × (lookup alice.sid c'.subscribers.sid_map ≡ some 11)
    × (lookup 11 c'.heap ≡ some (delivered (entries started) started.bundle alice))
joining =
    subscribe-delivers in_order in_order-IsIteration started started_wf 11 alice alice_there
      alice_small alice_unknown one_set alice_sets distinct alice_active

subscribe-delivers_example :
    (c' : Cache) × (subscribe in_order 11 started ≡ some c')
    × IsWellFormed c'
    × (c'.cache ≡ started.cache)
    × (lookup alice.sid c'.subscribers.sid_map ≡ some 11)
    × (lookup 11 c'.heap ≡ some (delivered (entries started) started.bundle alice))
subscribe-delivers_example =
    subscribe-delivers in_order in_order-IsIteration started started_wf 11 alice alice_there
      alice_small alice_unknown one_set alice_sets distinct alice_active

-- Alice has joined.
abbrev joined : Cache
joined = joining.0

abbrev joined_wf : IsWellFormed joined
joined_wf = joining.2

abbrev waiting : Subscriber
waiting = delivered (entries started) started.bundle alice

waiting_active : waiting.active ≡ true
unfolding new_subscriber
waiting_active = refl

waiting_uid : Memᴰ uid waiting.sel
unfolding new_subscriber
waiting_uid = Memᴰ.head refl

web_small : length web.registration_entry.selectors < 63
web_small = omega arith

web_uid : Memᴰ uid web.registration_entry.selectors
web_uid = Memᴰ.head refl

set_entry-delivers_example :
    (c' : Cache) × (set_entry in_order web joined ≡ some c')
    × (lookup 11 c'.heap
        ≡ some (delivered (values (insert "e1" web joined.cache)) joined.bundle waiting))
set_entry-delivers_example =
    set_entry-delivers in_order in_order-IsIteration joined joined_wf alice.sid 11 waiting uid
      joining.4 joining.5 waiting_active waiting_uid web web_small web_uid

set_bundle-delivers_example :
    (c' : Cache) × (set_bundle (root ∷ []) joined ≡ some c')
    × IsWellFormed c'
    × (c'.cache ≡ joined.cache)
    × (c'.bundle ≡ root ∷ [])
    × (lookup 11 c'.heap ≡ some (delivered (values joined.cache) (root ∷ []) waiting))
set_bundle-delivers_example =
    set_bundle-delivers (root ∷ []) joined joined_wf alice.sid 11 waiting joining.4 joining.5
      waiting_active

subscriber_entries_iff_example :
    Memᴰ web (subscriber_entries only_uid (web ∷ [])) ↔ (Memᴰ web (web ∷ []) × Wants only_uid web)
subscriber_entries_iff_example = subscriber_entries_iff only_uid (web ∷ []) web

-- A cache that holds an entry: the entries stand apart from the invariant.
abbrev holding : Cache
holding = record joined { cache = ("e1", web) ∷ [] }

holding_wf : IsWellFormed holding
holding_wf = record {
  live = joined_wf.live;
  consistent = joined_wf.consistent;
  once = joined_wf.once;
  registered = joined_wf.registered;
}

web_there : lookup "e1" holding.cache ≡ some web
unfolding lookup
web_there = refl

delete_entry-delivers_example :
    (c' : Cache) × (delete_entry in_order web.registration_entry holding ≡ some (true, c'))
    × (lookup 11 c'.heap
        ≡ some (delivered (values (delete "e1" holding.cache)) holding.bundle waiting))
delete_entry-delivers_example =
    delete_entry-delivers in_order in_order-IsIteration holding holding_wf alice.sid 11 waiting uid
      joining.4 joining.5 waiting_active waiting_uid web.registration_entry web web_there web_small
      web_uid
