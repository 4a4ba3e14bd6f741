-- ===== src/Agent/Cache/Joining.antt =====
-- `Subscribe`.
use mathlib.Core.List.Memᴰ
use mathlib.Core.Option.{some-injective}
use spiffe_spire.Prelude.{
  ℕ, ◌<◌, ◌≡◌, refl, sym, ap, ◌∙◌, inl, inr, true, false, some, List, [], ◌∷◌, nat_comparable,
  string_comparable, ◌==◌, beq→eq, beq_refl, Bool-cases, length, ◌>>=◌, IsNodup,
}
use spiffe_spire.Prelude.GoMap.{GoMap, has, lookup, insert, lookup-insert, keys-insert-IsNodup}
use spiffe_spire.Common.Selector.{Set, new_set_from_raw}
use spiffe_spire.Common.Selector.Power.{power_set}
use spiffe_spire.Common.Messages.{Certificate}
use spiffe_spire.Agent.Subscribers
use spiffe_spire.Agent.Subscribers.{Subscribers, Iteration, new_subscribers}
use spiffe_spire.Agent.Subscribers.Index.{IsIteration}
use spiffe_spire.Agent.Subscribers.Matching.{add-IsIndexed, add-keeps_IsIndexed, add_sets}
use spiffe_spire.Agent.Subscribers.Consistency.{add-IsConsistent, texts}
use spiffe_spire.Agent.Cache.{
  Subscriber, Cache, entries, new, notify_all, notify_subscribers, subscribe,
}
use spiffe_spire.Agent.Cache.Notify.{delivered, notify_subscriber_active}
use spiffe_spire.Agent.Cache.Invariant.{IsWellFormed, IsRegistered, notify_all-IsWellFormed}

-- The cache that `New` makes is well formed.
pub new-IsWellFormed : (bundle : List Certificate) → IsWellFormed (new bundle)
unfolding new lookup
new-IsWellFormed bundle = record {
  live = λ a sub e active. cc;
  consistent = record { once = λ text. tt; known = λ text x m. absurd (Memᴰ.not-nil m) };
  once = tt;
  registered = λ sid a e. cc;
}

there_after_insert : (sid a : ℕ) (m : GoMap ℕ ℕ) → lookup sid (insert sid a m) ≡ some a
there_after_insert sid a m = rw (lookup-insert sid sid a m, beq_refl sid) refl

module _ (iter : Iteration) (order : IsIteration iter) (c : Cache) (w : IsWellFormed c) (a : ℕ)
    (sub : Subscriber) (at_a : lookup a c.heap ≡ some sub) (small : length sub.sel < 63)
    (fresh : has sub.sid c.subscribers.sid_map ≡ false) where
  IsRegistered-add :
      (s' : Subscribers)
      → Subscribers.add iter a sub.sid sub.sel c.subscribers ≡ some s'
      → s'.sid_map ≡ insert sub.sid a c.subscribers.sid_map
      → (sid b : ℕ) → lookup sid s'.sid_map ≡ some b
      → IsRegistered sid s' (lookup b c.heap)
  IsRegistered-add s' added reg sid b found =
      let eq = lookup-insert sub.sid sid a c.subscribers.sid_map in
      elim (Bool-cases (sub.sid == sid)) [
        | inl hit ↦
            let same : a ≡ b =
              some-injective _ _ (sym (rw hit at eq) ∙ sym (ap (lookup sid) reg) ∙ found) in
            rw (← same, ← beq→eq sub.sid sid hit)
              (
                sub,
                at_a,
                refl,
                add-IsIndexed iter order a sub.sid sub.sel c.subscribers s' small added,
              )
        | inr miss ↦
            let (old, at_b, its, indexed) =
              w.registered sid b (sym (rw miss at eq) ∙ sym (ap (lookup sid) reg) ∙ found) in
            (
              old,
              at_b,
              its,
              add-keeps_IsIndexed iter a sub.sid sub.sel c.subscribers s' sid old.sel added indexed,
            )
      ]

  module _ (sets : List Set) (power : power_set (new_set_from_raw 0 sub.sel) ≡ some sets)
      (distinct : IsNodup (texts iter 0 sets)) where
    abbrev joined : Subscribers → Cache
    joined s' = record c { subscribers = s' }

    joined-IsWellFormed :
        (s' : Subscribers)
        → Subscribers.add iter a sub.sid sub.sel c.subscribers ≡ some s'
        → IsWellFormed (joined s')
    joined-IsWellFormed s' added =
        let r = add_sets iter a sub.sid sub.sel c.subscribers s' sets power added in
        record {
          live = w.live;
          consistent =
              add-IsConsistent iter a sub.sid sub.sel c.subscribers s' sets power distinct fresh
                w.consistent added;
          once = rw r.1 (keys-insert-IsNodup sub.sid a c.subscribers.sid_map w.once);
          registered = IsRegistered-add s' added r.1;
        }

    added : (s' : Subscribers) × (Subscribers.add iter a sub.sid sub.sel c.subscribers ≡ some s')
    unfolding Subscribers.add
    added = (
      record {
        sel_map = Subscribers.index_sets iter 0 sets sub.sid c.subscribers.sel_map;
        sid_map = insert sub.sid a c.subscribers.sid_map;
      },
      rw power refl,
    )

    notify_one :
        (s' : Subscribers)
        → sub.active ≡ true
        → (c' : Cache) × (notify_subscribers (some a ∷ []) (joined s') ≡ some c')
          × (c' ≡ record c {
            subscribers = s';
            heap = insert a (delivered (entries c) c.bundle sub) c.heap;
          })
    unfolding notify_subscribers notify_all entries
    notify_one s' active = (
      _,
      rw (at_a, ◌>>=◌)
          (rw
            (
              notify_subscriber_active a sub (entries c) c.bundle (joined s') active
                  (w.live a sub at_a active),
              ◌>>=◌,
            )
            refl),
      refl,
    )

    -- On a well-formed cache, `Subscribe` of an active subscriber that the cache does not know, with
    -- fewer than 63 selectors whose combinations have different texts, returns: it keeps the
    -- entries and keeps the cache well formed, registers the subscriber at its address, and leaves
    -- it one pending update, on an open channel: the bundle and the entries that match.
    pub subscribe-delivers :
        sub.active ≡ true
        → (c' : Cache) × (subscribe iter a c ≡ some c')
          × IsWellFormed c'
          × (c'.cache ≡ c.cache)
          × (lookup sub.sid c'.subscribers.sid_map ≡ some a)
          × (lookup a c'.heap ≡ some (delivered (entries c) c.bundle sub))
    unfolding subscribe notify_subscribers
    subscribe-delivers active =
        let (s', e) = added in
        let (c', done, shape) = notify_one s' active in
        let r = add_sets iter a sub.sid sub.sel c.subscribers s' sets power e in
        (
          c',
          rw (at_a, ◌>>=◌) (rw (e, ◌>>=◌) done),
          notify_all-IsWellFormed (entries (joined s')) c.bundle (some a ∷ []) (joined s') c'
              (λ o m. (a, sub, Memᴰ.eq_of_singleton m, at_a)) (joined-IsWellFormed s' e) done,
          rw shape refl,
          rw shape (rw r.1 (there_after_insert sub.sid a c.subscribers.sid_map)),
          rw shape
              (rw (lookup-insert a a (delivered (entries c) c.bundle sub) c.heap, beq_refl a) refl),
        )
