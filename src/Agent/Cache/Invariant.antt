-- ===== src/Agent/Cache/Invariant.antt =====
-- The invariant of the cache and its subscribers, and that the loop of `notifySubscribers` keeps it.
use mathlib.Core.Option.{some-injective}
use spiffe_spire.Prelude.{
  ℕ, ◌≡◌, ◌≢◌, refl, sym, ap, subst, ◌∙◌, ◌⊎◌, inl, inr, Option, none, some, List, [], ◌∷◌, Memᴰ,
  arith, nat_comparable, ◌>>=◌, IsNodup,
}
use spiffe_spire.Prelude.GoMap.{keys, lookup, lookup-delete, keys-delete-IsNodup}
use spiffe_spire.Common.Messages.{Certificate}
use spiffe_spire.Agent.Subscribers.{Subscribers, remove}
use spiffe_spire.Agent.Subscribers.Matching.{IsIndexed}
use spiffe_spire.Agent.Subscribers.Consistency.{
  IsConsistent, remove-IsConsistent, remove-forgets, remove-keeps,
}
use spiffe_spire.Agent.Cache.{Entry, Subscriber, Cache, notify_all}
use spiffe_spire.Agent.Cache.Notify.{
  delivered, IsLive, Progress, Moved, Known, Known-tail, IsLive-Progress, Round,
  notify_subscriber-Round,
}

-- What stands at the address of a registered subscriber.
abbrev pub IsRegistered : ℕ → Subscribers → Option Subscriber → Type 0
IsRegistered sid s o =
    (sub : Subscriber) × (o ≡ some sub) × (sub.sid ≡ sid) × IsIndexed sid sub.sel s

pub record IsWellFormed (c : Cache) : Type 0 where
  pub live : IsLive c
  pub consistent : IsConsistent c.subscribers
  pub once : IsNodup (keys c.subscribers.sid_map)
  pub registered :
      (sid a : ℕ)
      → lookup sid c.subscribers.sid_map ≡ some a
      → IsRegistered sid c.subscribers (lookup a c.heap)

module _ (es : List Entry) (bundle : List Certificate) where
  IsRegistered-Moved :
      (sid : ℕ) (s : Subscribers) (o p : Option Subscriber)
      → Moved es bundle o p
      → IsRegistered sid s o
      → IsRegistered sid s p
  IsRegistered-Moved sid s o p (inl e) (sub, f, same, indexed) = (sub, e ∙ f, same, indexed)
  IsRegistered-Moved sid s o p (inr (old, was, _, now)) (sub, f, same, indexed) =
      let one : sub ≡ old = some-injective _ _ (sym f ∙ was) in
      (
        delivered es bundle old,
        now,
        subst (λ x. x.sid ≡ sid) one same,
        subst (λ x. IsIndexed sid x.sel s) one indexed,
      )

-- The index after a round: as before, or without one id.
abbrev pub MayRemove : Subscribers → Subscribers → Type 0
MayRemove s t = (t ≡ s) ⊎ ((removed : ℕ) × (t ≡ remove removed s))

IsRegistered-remove :
    (removed sid a : ℕ) (s : Subscribers) (o : Option Subscriber)
    → IsConsistent s
    → lookup sid (remove removed s).sid_map ≡ some a
    → IsRegistered sid s o
    → IsRegistered sid (remove removed s) o
IsRegistered-remove removed sid a s o w found (sub, e, same, indexed) =
    (sub, e, same, (remove-keeps removed s sid sub.sel w other indexed).0)
  where
    other : sid ≢ removed
    other p =
        cc
          ((remove-forgets removed s "" w).1, ap (λ (x : ℕ). lookup x (remove removed s).sid_map) p)

remove-lookup :
    (removed sid a : ℕ) (s : Subscribers)
    → lookup sid (remove removed s).sid_map ≡ some a
    → lookup sid s.sid_map ≡ some a
unfolding remove
remove-lookup removed sid a s found = ground (arith, lookup-delete removed sid s.sid_map)

remove-once :
    (removed : ℕ) (s : Subscribers)
    → IsNodup (keys s.sid_map)
    → IsNodup (keys (remove removed s).sid_map)
unfolding remove
remove-once removed s d = keys-delete-IsNodup removed s.sid_map d

module _ (es : List Entry) (bundle : List Certificate) where
  -- A step that delivers to some subscribers and may remove one keeps the invariant.
  pub Progress-IsWellFormed :
      (c d : Cache)
      → Progress es bundle c d
      → MayRemove c.subscribers d.subscribers
      → IsWellFormed c
      → IsWellFormed d
  Progress-IsWellFormed c d p (inl e) w = record {
    live = IsLive-Progress es bundle c d p w.live;
    consistent = rw e w.consistent;
    once = rw e w.once;
    registered = λ sid a found.
        IsRegistered-Moved es bundle sid d.subscribers _ _ (p.moved a)
          (rw e (w.registered sid a (rw e at found)));
  }
  Progress-IsWellFormed c d p (inr (removed, e)) w = record {
    live = IsLive-Progress es bundle c d p w.live;
    consistent = rw e (remove-IsConsistent removed c.subscribers w.consistent);
    once = rw e (remove-once removed c.subscribers w.once);
    registered = λ sid a found.
        let found' = rw e at found in
        IsRegistered-Moved es bundle sid d.subscribers _ _ (p.moved a) (
          rw e (
            IsRegistered-remove removed sid a c.subscribers _ w.consistent found'
              (w.registered sid a (remove-lookup removed sid a c.subscribers found'))));
  }

  Round-MayRemove :
      (address : ℕ) (sub : Subscriber) (c d : Cache)
      → Round es bundle address sub c d
      → MayRemove c.subscribers d.subscribers
  Round-MayRemove address sub c d round = elim round.2 [ inl e ↦ inl e | inr e ↦ inr (sub.sid, e) ]

  -- The loop of `notifySubscribers` keeps the invariant.
  pub notify_all-IsWellFormed :
      (subs : List (Option ℕ)) (c c' : Cache)
      → Known subs c
      → IsWellFormed c
      → notify_all subs es bundle c ≡ some c'
      → IsWellFormed c'
  unfolding notify_all
  notify_all-IsWellFormed [] c c' known w e = subst IsWellFormed (some-injective _ _ e) w
  notify_all-IsWellFormed (none ∷ subs) c c' known w e = cc
  notify_all-IsWellFormed (some address ∷ subs) c c' known w e =
      let (a, sub, same, found_a) = known (some address) (Memᴰ.head refl) in
      let found : lookup address c.heap ≡ some sub =
        subst (λ b. lookup b c.heap ≡ some sub) (sym (some-injective _ _ same)) found_a in
      let (d, step, round) = notify_subscriber-Round es bundle address sub c w.live found in
      notify_all-IsWellFormed subs d c' (Known-tail es bundle (some address) subs c d round.0 known)
        (Progress-IsWellFormed c d round.0 (Round-MayRemove address sub c d round) w)
        (rw (step, ◌>>=◌) at (rw (found, ◌>>=◌) at e))
