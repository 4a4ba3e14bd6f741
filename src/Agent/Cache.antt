-- ===== src/Agent/Cache.antt =====
-- pkg/agent/manager/cache/cache.go: the entries by EntryId, the bundle, and the subscribers with
-- their channels.
-- `heap` holds the subscribers that exist, by address; `subscribers` holds addresses.
-- An operation is one step: the mutexes make its parts atomic, and the interleavings of the parts
-- of two operations are not modelled. `none` stands for a call that does not return: a panic, or a
-- send that blocks. Maps are iterated over in the order of their lists, and `iter` is the order for
-- the texts of selector sets.
pub mod Matching
pub mod Notify
pub mod Loop
pub mod Invariant
pub mod Delivery
pub mod Joining
pub mod Lifetime
use spiffe_spire.Prelude.{
  ℕ, String, Bool, true, false, not, Option, none, some, List, [], ◌∷◌, ◌++◌, ◌==◌, nat_comparable,
  string_comparable, if◌then◌else◌, length, ltb, ◌>>=◌,
}
use spiffe_spire.Prelude.GoMap.{GoMap, values, lookup, insert, delete}
use spiffe_spire.Common.Selector.{Selector, new_set_from_raw, includes_set}
use spiffe_spire.Common.Messages.{RegistrationEntry, Certificate}
use spiffe_spire.Agent.Subscribers
use spiffe_spire.Agent.Subscribers.{Subscribers, Iteration}

-- `svid` is nil in an entry that is built ahead of its SVID. A private key is a number.
pub record Entry : Type 0 where
  pub registration_entry : RegistrationEntry
  pub svid : Option Certificate
  pub private_key : ℕ
  pub bundles : GoMap String (List ℕ)

pub record WorkloadUpdate : Type 0 where
  pub entries : List Entry
  pub bundle : List Certificate

-- A channel of capacity 1.
pub record Channel : Type 0 where
  pub buffer : List WorkloadUpdate
  pub closed : Bool

abbrev pub make_channel : Channel
make_channel = record { buffer = []; closed = false }

-- A close of a closed channel panics.
unfoldable pub close : Channel → Option Channel
close ch = if ch.closed then none else some (record ch { closed = true })

-- A send panics on a closed channel and blocks on a full one.
unfoldable pub send : WorkloadUpdate → Channel → Option Channel
send update ch =
    if ch.closed
    then none
    else if ltb (length ch.buffer) 1
    then some (record ch { buffer = ch.buffer ++ update ∷ [] })
    else none

pub record Subscriber : Type 0 where
  pub c : Channel
  pub sel : List Selector
  pub sid : ℕ
  pub active : Bool

-- `NewSubscriber`, given the id that the UUID generator made.
unfoldable pub new_subscriber : ℕ → List Selector → Subscriber
new_subscriber id selectors = record { c = make_channel; sel = selectors; sid = id; active = true }

pub record Cache : Type 0 where
  pub cache : GoMap String Entry
  pub bundle : List Certificate
  pub subscribers : Subscribers
  pub heap : GoMap ℕ Subscriber

unfoldable pub new : List Certificate → Cache
new bundle = record {
  cache = [];
  bundle = bundle;
  subscribers = Subscribers.new_subscribers;
  heap = [];
}

-- A new subscriber that `NewSubscriber` allocates at `address`.
unfoldable pub allocate : ℕ → ℕ → List Selector → Cache → Cache
unfolding new_subscriber
allocate address id selectors c = record c {
  heap = insert address (new_subscriber id selectors) c.heap;
}

unfoldable pub entries : Cache → List Entry
entries c = values c.cache

unfoldable pub entry : RegistrationEntry → Cache → Option Entry
entry reg_entry c = lookup reg_entry.entry_id c.cache

pub is_empty : Cache → Bool
is_empty c = length c.cache == 0

-- The test of `subscriberEntries` and of `MatchingEntries`.
unfoldable pub matches : List Selector → Entry → Bool
matches sel e =
    includes_set (new_set_from_raw 0 sel) (new_set_from_raw 0 e.registration_entry.selectors)

unfoldable pub subscriber_entries : List Selector → List Entry → List Entry
subscriber_entries sel [] = []
subscriber_entries sel (e ∷ es) =
    let rest = subscriber_entries sel es in if matches sel e then e ∷ rest else rest

-- The channel that an update is sent on: an unread update is given up with its channel.
unfoldable pub fresh_channel : Channel → Option Channel
unfolding close
fresh_channel ch =
    if ltb 0 (length ch.buffer) then (do closed ← close ch; some make_channel) else some ch

-- One round of `notifySubscribers`, at the subscriber `sub` of address `address`.
unfoldable pub notify_subscriber :
    ℕ → Subscriber → List Entry → List Certificate → Cache → Option Cache
unfolding fresh_channel send
notify_subscriber address sub es bundle c =
    if not sub.active
    then some (record c { subscribers = Subscribers.remove sub.sid c.subscribers })
    else do
      ch ← fresh_channel sub.c
      ch' ← send (record { entries = subscriber_entries sub.sel es; bundle = bundle }) ch
      some (record c { heap = insert address (record sub { c = ch' }) c.heap })

-- The loop of `notifySubscribers`; a nil pointer in the list is a panic.
unfoldable pub notify_all : List (Option ℕ) → List Entry → List Certificate → Cache → Option Cache
unfolding notify_subscriber
notify_all [] es bundle c = some c
notify_all (none ∷ subs) es bundle c = none
notify_all (some address ∷ subs) es bundle c = do
  sub ← lookup address c.heap
  c' ← notify_subscriber address sub es bundle c
  notify_all subs es bundle c'

unfoldable pub notify_subscribers : List (Option ℕ) → Cache → Option Cache
notify_subscribers subs c = notify_all subs (entries c) c.bundle c

unfoldable pub set_bundle : List Certificate → Cache → Option Cache
set_bundle bundle c =
    notify_subscribers (Subscribers.get_all c.subscribers) (record c { bundle = bundle })

-- `Subscribe` of the subscriber at `address`.
unfoldable pub subscribe : Iteration → ℕ → Cache → Option Cache
subscribe iter address c = do
  sub ← lookup address c.heap
  subscribers ← Subscribers.add iter address sub.sid sub.sel c.subscribers
  notify_subscribers (some address ∷ []) (record c { subscribers = subscribers })

unfoldable pub set_entry : Iteration → Entry → Cache → Option Cache
set_entry iter e c = do
  let c' = record c { cache = insert e.registration_entry.entry_id e c.cache }
  subs ← Subscribers.get iter e.registration_entry.selectors c.subscribers
  notify_subscribers subs c'

-- `DeleteEntry` tells whether there was an entry.
unfoldable pub delete_entry : Iteration → RegistrationEntry → Cache → Option (Bool × Cache)
delete_entry iter reg_entry c = elim (lookup reg_entry.entry_id c.cache) [
  | none ↦ some (false, c)
  | some found ↦ do
    subs ← Subscribers.get iter found.registration_entry.selectors c.subscribers
    c' ← notify_subscribers subs (record c { cache = delete reg_entry.entry_id c.cache })
    some (true, c')
]

-- `sub.Finish()` of the subscriber at `address`.
unfoldable pub finish : ℕ → Cache → Option Cache
unfolding close
finish address c = do
  sub ← lookup address c.heap
  ch ← close sub.c
  some (record c { heap = insert address (record sub { active = false; c = ch }) c.heap })
