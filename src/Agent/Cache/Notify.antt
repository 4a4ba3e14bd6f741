-- ===== src/Agent/Cache/Notify.antt =====
-- One round of `notifySubscribers` and the whole loop: nobody blocks it, and each active subscriber
-- ends with one pending update.
use spiffe_spire.Prelude.{
  ℕ, suc, ltb, length, ◌≡◌, refl, sym, subst, ◌∙◌, ◌⊎◌, inl, inr, true, false, Option, some, List,
  [], ◌∷◌, Memᴰ, arith, ◌==◌, nat_comparable, Bool-cases, beq→eq,
}
use spiffe_spire.Prelude.GoMap.{lookup, insert, lookup-insert}
use spiffe_spire.Common.Messages.{Certificate}
use spiffe_spire.Agent.Subscribers
use spiffe_spire.Agent.Cache.{
  Entry, WorkloadUpdate, Subscriber, Cache, notify_subscriber, subscriber_entries,
}

-- The subscriber with the update alone pending on an open channel.
abbrev pub delivered : List Entry → List Certificate → Subscriber → Subscriber
delivered es bundle sub = record sub {
  c = record {
    buffer = record { entries = subscriber_entries sub.sel es; bundle = bundle } ∷ [];
    closed = false;
  };
}

-- Active subscribers have open channels.
abbrev pub IsLive : Cache → Type 0
IsLive c =
    (address : ℕ) (sub : Subscriber)
    → lookup address c.heap ≡ some sub
    → sub.active ≡ true
    → sub.c.closed ≡ false

unread : (n : ℕ) → ltb 0 (suc n) ≡ true
unread n = ground arith

module _ (address : ℕ) (sub : Subscriber) (es : List Entry) (bundle : List Certificate)
    (c : Cache) where
  abbrev Delivers : Subscriber → Type 0
  Delivers sub =
      notify_subscriber address sub es bundle c
      ≡ some (record c { heap = insert address (delivered es bundle sub) c.heap })

  abbrev opened : List WorkloadUpdate → Subscriber
  opened buffer = record sub { c = record { buffer = buffer; closed = false }; active = true }

  Delivers-opened : (buffer : List WorkloadUpdate) → Delivers (opened buffer)
  unfolding notify_subscriber
  Delivers-opened [] = refl
  Delivers-opened (update ∷ buffer) = rw (unread (length buffer)) refl

  -- A subscriber that is active gets the update at once: an unread one makes way for it.
  pub notify_subscriber_active : sub.active ≡ true → sub.c.closed ≡ false → Delivers sub
  notify_subscriber_active a o = subst Delivers (sym shape) (Delivers-opened sub.c.buffer)
    where
      shape : sub ≡ opened sub.c.buffer
      shape = λ i. record sub { c = record { buffer = sub.c.buffer; closed = o i }; active = a i }

notify_subscriber_inactive :
    (address : ℕ) (sub : Subscriber) (es : List Entry) (bundle : List Certificate) (c : Cache)
    → sub.active ≡ false
    → notify_subscriber address sub es bundle c
      ≡ some (record c { subscribers = Subscribers.remove sub.sid c.subscribers })
unfolding notify_subscriber
notify_subscriber_inactive address sub es bundle c a = rw a refl

-- Every address on the list leads to a subscriber.
abbrev pub Known : List (Option ℕ) → Cache → Type 0
Known subs c =
    (o : Option ℕ)
    → Memᴰ o subs
    → (a : ℕ) × (sub : Subscriber) × (o ≡ some a) × (lookup a c.heap ≡ some sub)

module _ (es : List Entry) (bundle : List Certificate) where
  -- What a round may do to the subscriber at an address.
  abbrev pub Moved : Option Subscriber → Option Subscriber → Type 0
  Moved before after =
      (after ≡ before)
      ⊎ ((sub : Subscriber) × (before ≡ some sub)
          × (sub.active ≡ true)
          × (after ≡ some (delivered es bundle sub)))

  pub record Progress (c c' : Cache) : Type 0 where
    pub same_cache : c'.cache ≡ c.cache
    pub same_bundle : c'.bundle ≡ c.bundle
    pub moved : (address : ℕ) → Moved (lookup address c.heap) (lookup address c'.heap)

  pub Progress-refl : (c : Cache) → Progress c c
  Progress-refl c = record { same_cache = refl; same_bundle = refl; moved = λ a. inl refl }

  Moved-trans : (o p q : Option Subscriber) → Moved o p → Moved p q → Moved o q
  Moved-trans o p q (inl e) (inl f) = inl (f ∙ e)
  Moved-trans o p q (inl e) (inr (sub, f, a, g)) = inr (sub, sym e ∙ f, a, g)
  Moved-trans o p q (inr (sub, e, a, f)) (inl g) = inr (sub, e, a, g ∙ f)
  Moved-trans o p q (inr (sub, e, a, f)) (inr (sub', g, a', h)) = inr (sub, e, a, ground arith)

  pub Progress-trans : {c d e : Cache} → Progress c d → Progress d e → Progress c e
  Progress-trans p q = record {
    same_cache = q.same_cache ∙ p.same_cache;
    same_bundle = q.same_bundle ∙ p.same_bundle;
    moved = λ a. Moved-trans _ _ _ (p.moved a) (q.moved a);
  }

  Progress-delivered :
      (address : ℕ) (sub : Subscriber) (c : Cache)
      → lookup address c.heap ≡ some sub
      → sub.active ≡ true
      → Progress c (record c { heap = insert address (delivered es bundle sub) c.heap })
  Progress-delivered address sub c found active = record {
    same_cache = refl;
    same_bundle = refl;
    moved = λ a.
        rw (lookup-insert address a (delivered es bundle sub) c.heap)
          (elim (Bool-cases (address == a)) [
            | inl here ↦ rw here (inr (sub, rw (← beq→eq address a here) found, active, refl))
            | inr there ↦ rw there (inl refl)
          ]);
  }

  -- A round at a live subscriber returns. If the subscriber is active it is delivered to; if not it
  -- is removed from the index.
  abbrev pub Round : ℕ → Subscriber → Cache → Cache → Type 0
  Round address sub c c' =
      Progress c c'
      × ((sub.active ≡ true) → lookup address c'.heap ≡ some (delivered es bundle sub))
      × ((c'.subscribers ≡ c.subscribers)
          ⊎ (c'.subscribers ≡ Subscribers.remove sub.sid c.subscribers))

  pub notify_subscriber-Round :
      (address : ℕ) (sub : Subscriber) (c : Cache)
      → IsLive c
      → lookup address c.heap ≡ some sub
      → (c' : Cache) × (notify_subscriber address sub es bundle c ≡ some c')
        × Round address sub c c'
  notify_subscriber-Round address sub c live found = elim (Bool-cases sub.active) [
    | inl active ↦ (
      record c { heap = insert address (delivered es bundle sub) c.heap },
      notify_subscriber_active address sub es bundle c active (live address sub found active),
      (
        Progress-delivered address sub c found active,
        λ _. ground (
          arith,
          lookup-insert address address (delivered es bundle sub) c.heap,
          nat_comparable.test_iff address address,
        ),
        inl refl,
      ),
    )
    | inr inactive ↦ (
      record c { subscribers = Subscribers.remove sub.sid c.subscribers },
      notify_subscriber_inactive address sub es bundle c inactive,
      (
        record { same_cache = refl; same_bundle = refl; moved = λ a. inl refl },
        λ active. cc,
        inr refl,
      ),
    )
  ]

  -- What stands at an address after a delivery stays a delivery.
  pub Moved-delivered :
      (sub : Subscriber) (after : Option Subscriber)
      → Moved (some (delivered es bundle sub)) after
      → after ≡ some (delivered es bundle sub)
  Moved-delivered sub after (inl e) = e
  Moved-delivered sub after (inr (sub', e, a, f)) = ground arith

  pub IsLive-Progress : (c c' : Cache) → Progress c c' → IsLive c → IsLive c'
  IsLive-Progress c c' p live a sub e active = elim (p.moved a) [
    | inl same ↦ live a sub (sym same ∙ e) active
    | inr (old, before, was, after) ↦ ground arith
  ]

  Moved-present :
      (sub : Subscriber) (before after : Option Subscriber)
      → Moved before after
      → before ≡ some sub
      → (sub' : Subscriber) × (after ≡ some sub')
  Moved-present sub before after (inl e) h = (sub, e ∙ h)
  Moved-present sub before after (inr (old, _, _, f)) h = (delivered es bundle old, f)

  pub Known-tail :
      (o : Option ℕ) (subs : List (Option ℕ)) (c c' : Cache)
      → Progress c c'
      → Known (o ∷ subs) c
      → Known subs c'
  Known-tail o subs c c' p h q m =
      let (a, sub, e, found) = h q (Memᴰ.tail m) in
      let (sub', found') = Moved-present sub _ _ (p.moved a) found in (a, sub', e, found')

  -- The loop returns, and every active subscriber on the list has been delivered to.
  abbrev pub AllDelivered : List (Option ℕ) → Cache → Cache → Type 0
  AllDelivered subs c c' =
      (a : ℕ) (sub : Subscriber)
      → Memᴰ (some a) subs
      → lookup a c.heap ≡ some sub
      → sub.active ≡ true
      → lookup a c'.heap ≡ some (delivered es bundle sub)
