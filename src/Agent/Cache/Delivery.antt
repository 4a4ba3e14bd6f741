-- ===== src/Agent/Cache/Delivery.antt =====
-- What the operations of the cache do for its subscribers.
use mathlib.Core.List.Memᴰ
use mathlib.Core.Option.{some-injective}
use spiffe_spire.Prelude.{
  ℕ, String, ◌<◌, ◌≡◌, refl, sym, subst, ◌∙◌, inl, inr, true, Option, some, List, [], ◌∷◌, map,
  Memᴰ, nat_comparable, string_comparable, length, ◌>>=◌, ◌==◌, Bool-cases,
}
use spiffe_spire.Prelude.GoMap.{GoMap, values, lookup, insert, delete, mem-lookup}
use spiffe_spire.Common.Selector.{Selector}
use spiffe_spire.Common.Messages.{RegistrationEntry, Certificate}
use spiffe_spire.Agent.Subscribers
use spiffe_spire.Agent.Subscribers.{Subscribers, Iteration, get_all}
use spiffe_spire.Agent.Subscribers.Index.{IsIteration}
use spiffe_spire.Agent.Subscribers.Matching.{get-finds}
use spiffe_spire.Agent.Subscribers.Pointers.{get-registered}
use spiffe_spire.Agent.Cache.{
  Entry, Subscriber, Cache, entries, notify_subscribers, set_bundle, set_entry, delete_entry,
}
use spiffe_spire.Agent.Cache.Notify.{delivered, Known, AllDelivered}
use spiffe_spire.Agent.Cache.Loop.{notify_all-delivers}
use spiffe_spire.Agent.Cache.Invariant.{IsWellFormed, notify_all-IsWellFormed}

-- Every pointer on the list is the address of a registered subscriber.
abbrev AreRegistered : List (Option ℕ) → Cache → Type 0
AreRegistered subs c =
    (o : Option ℕ)
    → Memᴰ o subs
    → (a sid : ℕ) × (o ≡ some a) × (lookup sid c.subscribers.sid_map ≡ some a)

AreRegistered-Known :
    (subs : List (Option ℕ)) (c : Cache) → IsWellFormed c → AreRegistered subs c → Known subs c
AreRegistered-Known subs c w h o m =
    let (a, sid, e, found) = h o m in
    let (sub, at_a, _, _) = w.registered sid a found in (a, sub, e, at_a)

-- A call of `notifySubscribers` on registered subscribers: it returns, keeps the invariant, the
-- entries and the bundle, and leaves to each active subscriber on the list one pending update, of
-- the entries that match and the bundle.
abbrev pub Notified : List (Option ℕ) → Cache → Cache → Type 0
Notified subs c c' =
    IsWellFormed c'
    × (c'.cache ≡ c.cache)
    × (c'.bundle ≡ c.bundle)
    × AllDelivered (entries c) c.bundle subs c c'

notify_subscribers_lem :
    (subs : List (Option ℕ)) (c : Cache)
    → IsWellFormed c
    → AreRegistered subs c
    → (c' : Cache) × (notify_subscribers subs c ≡ some c') × Notified subs c c'
unfolding notify_subscribers
notify_subscribers_lem subs c w h =
    let known = AreRegistered-Known subs c w h in
    let (c', e, p, all) = notify_all-delivers (entries c) c.bundle subs c w.live known in
    (
      c',
      e,
      (
        notify_all-IsWellFormed (entries c) c.bundle subs c c' known w e,
        p.same_cache,
        p.same_bundle,
        all,
      ),
    )

-- The entries and the bundle stand apart from the invariant.
with_cache :
    (c : Cache) (m : GoMap String Entry) → IsWellFormed c → IsWellFormed (record c { cache = m })
with_cache c m w = record {
  live = w.live;
  consistent = w.consistent;
  once = w.once;
  registered = w.registered;
}

with_bundle :
    (c : Cache) (b : List Certificate) → IsWellFormed c → IsWellFormed (record c { bundle = b })
with_bundle c b w = record {
  live = w.live;
  consistent = w.consistent;
  once = w.once;
  registered = w.registered;
}

-- After `SetEntry` of `e`, for a subscriber that shares a selector with it: its one pending update.
abbrev pub Updated : List Entry → List Certificate → List Selector → Cache → Cache → Type 0
Updated es bundle selectors c c' =
    (sid a : ℕ) (sub : Subscriber) (k : Selector)
    → lookup sid c.subscribers.sid_map ≡ some a
    → lookup a c.heap ≡ some sub
    → sub.active ≡ true
    → Memᴰ k sub.sel
    → Memᴰ k selectors
    → lookup a c'.heap ≡ some (delivered es bundle sub)

module _ (iter : Iteration) (order : IsIteration iter) (c : Cache) (w : IsWellFormed c) where
  -- Whoever shares a selector is on the list that `get` returns.
  on_list :
      (selectors : List Selector) (subs : List (Option ℕ)) (sid a : ℕ) (sub : Subscriber)
      (k : Selector)
      → length selectors < 63
      → Subscribers.get iter selectors c.subscribers ≡ some subs
      → lookup sid c.subscribers.sid_map ≡ some a
      → lookup a c.heap ≡ some sub
      → Memᴰ k sub.sel
      → Memᴰ k selectors
      → Memᴰ (some a) subs
  on_list selectors subs sid a sub k small got reg at_a mine theirs =
      let (sub', at_a', same, indexed) = w.registered sid a reg in
      let one : sub ≡ sub' = some-injective _ _ (sym at_a ∙ at_a') in
      let (subs', got', mem) =
        get-finds iter order selectors sub'.sel sid a c.subscribers k small indexed reg
          (subst (λ s. Memᴰ k s.sel) one mine) theirs in
      subst (Memᴰ (some a)) (some-injective _ _ (sym got' ∙ got)) mem

  notify_matching :
      (selectors : List Selector) (m : GoMap String Entry)
      → length selectors < 63
      → (subs : List (Option ℕ)) × (c' : Cache) × (Subscribers.get iter selectors c.subscribers
          ≡ some subs)
        × (notify_subscribers subs (record c { cache = m }) ≡ some c')
        × IsWellFormed c'
        × (c'.cache ≡ m)
        × (c'.bundle ≡ c.bundle)
        × Updated (values m) c.bundle selectors c c'
  notify_matching selectors m small =
      let (subs, got, registered) =
        get-registered iter selectors c.subscribers small w.consistent in
      let (c', e, n) =
        notify_subscribers_lem subs (record c { cache = m }) (with_cache c m w) registered in
      (
        subs,
        c',
        got,
        e,
        n.0,
        n.1,
        n.2,
        λ sid a sub k reg at_a active mine theirs.
            unfold entries in
            n.3 a sub (on_list selectors subs sid a sub k small got reg at_a mine theirs) at_a
              active,
      )

  set_entry_steps :
      (e : Entry)
      → length e.registration_entry.selectors < 63
      → (c' : Cache) × (set_entry iter e c ≡ some c')
        × IsWellFormed c'
        × (c'.cache ≡ insert e.registration_entry.entry_id e c.cache)
        × (c'.bundle ≡ c.bundle)
        × Updated
            (values (insert e.registration_entry.entry_id e c.cache))
            c.bundle
            e.registration_entry.selectors
            c
            c'
  unfolding set_entry
  set_entry_steps e small =
      let (subs, c', got, done, wf, cache, bundle, updated) =
        notify_matching e.registration_entry.selectors
          (insert e.registration_entry.entry_id e c.cache) small in
      (c', rw (got, ◌>>=◌) done, wf, cache, bundle, updated)

  delete_entry_steps :
      (reg_entry : RegistrationEntry) (found : Entry)
      → lookup reg_entry.entry_id c.cache ≡ some found
      → length found.registration_entry.selectors < 63
      → (c' : Cache) × (delete_entry iter reg_entry c ≡ some (true, c'))
        × IsWellFormed c'
        × (c'.cache ≡ delete reg_entry.entry_id c.cache)
        × (c'.bundle ≡ c.bundle)
        × Updated
            (values (delete reg_entry.entry_id c.cache))
            c.bundle
            found.registration_entry.selectors
            c
            c'
  unfolding delete_entry
  delete_entry_steps reg_entry found stored small =
      let (subs, c', got, done, wf, cache, bundle, updated) =
        notify_matching found.registration_entry.selectors (delete reg_entry.entry_id c.cache)
          small in
      (
        c',
        rw (stored, delete_entry) (rw (got, ◌>>=◌) (rw (done, ◌>>=◌) refl)),
        wf,
        cache,
        bundle,
        updated,
      )

  -- On a well-formed cache `SetEntry` of an entry with fewer than 63 selectors returns, whoever
  -- reads slowly: it stores the entry under its id, keeps the bundle and keeps the cache well
  -- formed.
  pub set_entry-keeps :
      (e : Entry)
      → length e.registration_entry.selectors < 63
      → (c' : Cache) × (set_entry iter e c ≡ some c')
        × IsWellFormed c'
        × (c'.cache ≡ insert e.registration_entry.entry_id e c.cache)
        × (c'.bundle ≡ c.bundle)
  set_entry-keeps e small =
      let (c', done, wf, cache, bundle, _) = set_entry_steps e small in
      (c', done, wf, cache, bundle)

  -- On a well-formed cache `DeleteEntry` of a stored entry with fewer than 63 selectors returns
  -- true, removes what stands under its id, keeps the bundle and keeps the cache well formed.
  pub delete_entry-keeps :
      (reg_entry : RegistrationEntry) (found : Entry)
      → lookup reg_entry.entry_id c.cache ≡ some found
      → length found.registration_entry.selectors < 63
      → (c' : Cache) × (delete_entry iter reg_entry c ≡ some (true, c'))
        × IsWellFormed c'
        × (c'.cache ≡ delete reg_entry.entry_id c.cache)
        × (c'.bundle ≡ c.bundle)
  delete_entry-keeps reg_entry found stored small =
      let (c', done, wf, cache, bundle, _) = delete_entry_steps reg_entry found stored small in
      (c', done, wf, cache, bundle)

  module _ (sid a : ℕ) (sub : Subscriber) (k : Selector)
      (reg : lookup sid c.subscribers.sid_map ≡ some a) (at_a : lookup a c.heap ≡ some sub)
      (active : sub.active ≡ true) (mine : Memᴰ k sub.sel) where
    -- On a well-formed cache, an active registered subscriber that shares a selector with the entry
    -- of a `SetEntry` (fewer than 63 selectors) has one pending update after it, on an open
    -- channel: the bundle, and of the entries, the new one among them, those that match its
    -- selectors.
    pub set_entry-delivers :
        (e : Entry)
        → length e.registration_entry.selectors < 63
        → Memᴰ k e.registration_entry.selectors
        → (c' : Cache) × (set_entry iter e c ≡ some c')
          × (lookup a c'.heap
              ≡ some (
                  delivered (values (insert e.registration_entry.entry_id e c.cache)) c.bundle sub))
    set_entry-delivers e small theirs =
        let (c', done, _, _, _, updated) = set_entry_steps e small in
        (c', done, updated sid a sub k reg at_a active mine theirs)

    -- On a well-formed cache, an active registered subscriber that shares a selector with the
    -- stored entry that a `DeleteEntry` removes (fewer than 63 selectors) has one pending update
    -- after it, on an open channel: the bundle, and of the entries that are left those that match
    -- its selectors.
    pub delete_entry-delivers :
        (reg_entry : RegistrationEntry) (found : Entry)
        → lookup reg_entry.entry_id c.cache ≡ some found
        → length found.registration_entry.selectors < 63
        → Memᴰ k found.registration_entry.selectors
        → (c' : Cache) × (delete_entry iter reg_entry c ≡ some (true, c'))
          × (lookup a c'.heap
              ≡ some (delivered (values (delete reg_entry.entry_id c.cache)) c.bundle sub))
    delete_entry-delivers reg_entry found stored small theirs =
        let (c', done, _, _, _, updated) = delete_entry_steps reg_entry found stored small in
        (c', done, updated sid a sub k reg at_a active mine theirs)

get_all-AreRegistered : (c : Cache) → IsWellFormed c → AreRegistered (get_all c.subscribers) c
unfolding get_all
get_all-AreRegistered c w o m =
    let (e, at, same) = Memᴰ.of_map (λ (e : ℕ × ℕ). some e.1) c.subscribers.sid_map m in
    (e.1, e.0, sym same, mem-lookup c.subscribers.sid_map w.once at)

lookup-get_all :
    (sid a : ℕ) (m : GoMap ℕ ℕ) → lookup sid m ≡ some a → Memᴰ (some a) (map (λ e. some e.1) m)
unfolding lookup
lookup-get_all sid a [] found = cc
lookup-get_all sid a ((j, b) ∷ m) found = elim (Bool-cases (j == sid)) [
  | inl hit ↦ Memᴰ.head (sym (rw hit at found))
  | inr miss ↦ Memᴰ.tail (lookup-get_all sid a m (rw miss at found))
]

-- `SetBundle` returns on a well-formed cache, with the new bundle and the entries as they were.
pub set_bundle-returns :
    (bundle : List Certificate) (c : Cache)
    → IsWellFormed c
    → (c' : Cache) × (set_bundle bundle c ≡ some c')
      × IsWellFormed c'
      × (c'.cache ≡ c.cache)
      × (c'.bundle ≡ bundle)
unfolding set_bundle get_all
set_bundle-returns bundle c w =
    let (c', e, (wf, cache, same, all)) =
      notify_subscribers_lem (get_all c.subscribers) (record c { bundle = bundle })
        (with_bundle c bundle w) (get_all-AreRegistered _ (with_bundle c bundle w)) in
    (c', e, wf, cache, same)

-- On a well-formed cache `SetBundle` returns, whoever reads slowly: it keeps the entries and keeps
-- the cache well formed, and an active registered subscriber has one pending update after it, on an
-- open channel: the new bundle, and the entries that match its selectors.
pub set_bundle-delivers :
    (bundle : List Certificate) (c : Cache)
    → IsWellFormed c
    → (sid a : ℕ) (sub : Subscriber) → lookup sid c.subscribers.sid_map ≡ some a
    → lookup a c.heap ≡ some sub
    → sub.active ≡ true
    → (c' : Cache) × (set_bundle bundle c ≡ some c')
      × IsWellFormed c'
      × (c'.cache ≡ c.cache)
      × (c'.bundle ≡ bundle)
      × (lookup a c'.heap ≡ some (delivered (values c.cache) bundle sub))
unfolding set_bundle get_all entries
set_bundle-delivers bundle c w sid a sub reg at_a active =
    let (c', e, (wf, cache, same, all)) =
      notify_subscribers_lem (get_all c.subscribers) (record c { bundle = bundle })
        (with_bundle c bundle w) (get_all-AreRegistered _ (with_bundle c bundle w)) in
    (c', e, wf, cache, same, all a sub (lookup-get_all sid a c.subscribers.sid_map reg) at_a active)
