-- ===== src/Agent/Cache/Lifetime.antt =====
-- What `NewSubscriber` and `Finish` do to the invariant of the cache.
use mathlib.Core.Option.{some-injective}
use spiffe_spire.Prelude.{
  ℕ, ◌≡◌, refl, sym, ap, subst, ◌∙◌, inl, inr, true, false, none, some, List, nat_comparable, ◌==◌,
  beq→eq, beq_refl, Bool-cases, ◌>>=◌,
}
use spiffe_spire.Prelude.GoMap.{lookup, insert, lookup-insert}
use spiffe_spire.Common.Selector.{Selector}
use spiffe_spire.Agent.Cache.{Subscriber, Cache, new_subscriber, allocate, finish}
use spiffe_spire.Agent.Cache.Invariant.{IsWellFormed}
use spiffe_spire.Agent.Subscribers.Matching.{IsIndexed}

-- A subscriber allocated at a free address leaves a well-formed cache well formed.
pub allocate-IsWellFormed :
    (address id : ℕ) (selectors : List Selector) (c : Cache)
    → IsWellFormed c
    → lookup address c.heap ≡ none
    → IsWellFormed (allocate address id selectors c)
unfolding allocate
allocate-IsWellFormed address id selectors c w free = record {
  live = λ a sub found active.
      let eq = lookup-insert address a (new_subscriber id selectors) c.heap in
      elim (Bool-cases (address == a)) [
        | inl hit ↦
            subst (λ s. s.c.closed ≡ false) (some-injective _ _ (sym (rw hit at eq) ∙ found)) refl
        | inr miss ↦ w.live a sub (sym (rw miss at eq) ∙ found) active
      ];
  consistent = w.consistent;
  once = w.once;
  registered = λ sid a reg.
      let eq = lookup-insert address a (new_subscriber id selectors) c.heap in
      let (sub, at_a, same, indexed) = w.registered sid a reg in
      elim (Bool-cases (address == a)) [
        | inl hit ↦ cc (sym free ∙ ap (λ b. lookup b c.heap) (beq→eq address a hit) ∙ at_a)
        | inr miss ↦ (sub, rw miss at eq ∙ at_a, same, indexed)
      ];
}

-- `Finish` of an active subscriber of a well-formed cache returns: the channel is closed, the
-- subscriber is inactive, and the cache stays well formed.
pub finish-IsWellFormed :
    (address : ℕ) (sub : Subscriber) (c : Cache)
    → IsWellFormed c
    → lookup address c.heap ≡ some sub
    → sub.active ≡ true
    → (c' : Cache) × (finish address c ≡ some c')
      × IsWellFormed c'
      × (lookup address c'.heap
          ≡ some (record sub { active = false; c = record sub.c { closed = true } }))
unfolding finish
finish-IsWellFormed address sub c w found active = (
  record c { heap = insert address finished c.heap },
  rw (found, ◌>>=◌) (rw (w.live address sub found active) refl),
  record {
    live = λ a s at_a on.
        let eq = lookup-insert address a finished c.heap in
        elim (Bool-cases (address == a)) [
          | inl hit ↦ cc (
            ap (λ (x : Subscriber). x.active) (some-injective _ _ (sym (rw hit at eq) ∙ at_a)),
            on,
          )
          | inr miss ↦ w.live a s (sym (rw miss at eq) ∙ at_a) on
        ];
    consistent = w.consistent;
    once = w.once;
    registered = λ sid a reg.
        let eq = lookup-insert address a finished c.heap in
        let (old, at_a, same, indexed) = w.registered sid a reg in
        elim (Bool-cases (address == a)) [
          | inl hit ↦
              let one : old ≡ sub =
                some-injective _ _
                  (sym at_a ∙ ap (λ b. lookup b c.heap) (sym (beq→eq address a hit)) ∙ found) in
              (
                finished,
                rw hit at eq,
                subst (λ x. x.sid ≡ sid) one same,
                subst (λ x. IsIndexed sid x.sel c.subscribers) one indexed,
              )
          | inr miss ↦ (old, rw miss at eq ∙ at_a, same, indexed)
        ];
  },
  rw (lookup-insert address address finished c.heap, beq_refl address) refl,
)
  where
    finished : Subscriber
    finished = record sub { active = false; c = record sub.c { closed = true } }
