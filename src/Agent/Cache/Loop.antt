-- ===== src/Agent/Cache/Loop.antt =====
-- The loop of `notifySubscribers`: it returns, it delivers to every active subscriber on its list,
-- and all that it does to the index is to remove inactive subscribers.
use mathlib.Core.List.Memᴰ
use mathlib.Core.Option.{some-injective}
use spiffe_spire.Prelude.{
  ℕ, ◌≡◌, refl, sym, subst, ◌∙◌, inl, inr, true, Option, none, some, List, [], ◌∷◌, Memᴰ,
  nat_comparable, ◌>>=◌,
}
use spiffe_spire.Prelude.GoMap.{lookup}
use spiffe_spire.Common.Messages.{Certificate}
use spiffe_spire.Agent.Cache.{Entry, Subscriber, Cache, notify_all}
use spiffe_spire.Agent.Cache.Notify.{
  delivered, IsLive, Progress, Progress-refl, Progress-trans, Moved-delivered, Known, Known-tail,
  AllDelivered, IsLive-Progress, Round, notify_subscriber-Round,
}

module _ (es : List Entry) (bundle : List Certificate) where
  persists :
      (a : ℕ) (sub : Subscriber) (d c' : Cache)
      → Progress es bundle d c'
      → lookup a d.heap ≡ some (delivered es bundle sub)
      → lookup a c'.heap ≡ some (delivered es bundle sub)
  persists a sub d c' p e = Moved-delivered es bundle sub _ (rw e at (p.moved a))

  -- A delivery to the subscriber that an address holds is a delivery to any that it holds.
  transfer :
      (o p : Option Subscriber) (sub sub' : Subscriber)
      → o ≡ some sub
      → o ≡ some sub'
      → p ≡ some (delivered es bundle sub)
      → p ≡ some (delivered es bundle sub')
  transfer o p sub sub' e f g =
      subst (λ s. p ≡ some (delivered es bundle s)) (some-injective _ _ (sym e ∙ f)) g

  AllDelivered-cons :
      (address : ℕ) (sub : Subscriber) (subs : List (Option ℕ)) (c d c' : Cache)
      → lookup address c.heap ≡ some sub
      → Round es bundle address sub c d
      → Progress es bundle d c'
      → AllDelivered es bundle subs d c'
      → AllDelivered es bundle (some address ∷ subs) c c'
  AllDelivered-cons address sub subs c d c' found round p rest a sub' m found' active =
      elim (Memᴰ.cases_cons m) [
        | inl here ↦ at_head (some-injective _ _ here)
        | inr later ↦ elim (round.0.moved a) [
          | inl same ↦ rest a sub' later (same ∙ found') active
          | inr (old, was, _, now) ↦
              transfer (lookup a c.heap) _ old sub' was found' (persists a old d c' p now)
        ]
      ]
    where
      at_head : a ≡ address → lookup a c'.heap ≡ some (delivered es bundle sub')
      at_head same =
          transfer (lookup a c.heap) _ sub sub' found_a found'
            (rw same (persists address sub d c' p (round.1 active_sub)))
        where
          found_a : lookup a c.heap ≡ some sub
          found_a = rw same found

          active_sub : sub.active ≡ true
          active_sub =
              subst (λ s. s.active ≡ true) (some-injective _ _ (sym found' ∙ found_a)) active

  pub notify_all-delivers :
      (subs : List (Option ℕ)) (c : Cache)
      → IsLive c
      → Known subs c
      → (c' : Cache) × (notify_all subs es bundle c ≡ some c')
        × Progress es bundle c c'
        × AllDelivered es bundle subs c c'
  unfolding notify_all
  notify_all-delivers [] c live known =
      (c, refl, Progress-refl es bundle c, λ a sub m. absurd (Memᴰ.not-nil m))
  notify_all-delivers (none ∷ subs) c live known = cc (known none (Memᴰ.head refl)).2
  notify_all-delivers (some address ∷ subs) c live known =
      let (a, sub, e, found_a) = known (some address) (Memᴰ.head refl) in
      let found : lookup address c.heap ≡ some sub =
        subst (λ b. lookup b c.heap ≡ some sub) (sym (some-injective _ _ e)) found_a in
      let (d, step, round) = notify_subscriber-Round es bundle address sub c live found in
      let (c', rest, p, all) =
        notify_all-delivers subs d (IsLive-Progress es bundle c d round.0 live)
          (Known-tail es bundle (some address) subs c d round.0 known) in
      (
        c',
        rw (found, ◌>>=◌) (rw (step, ◌>>=◌) rest),
        Progress-trans es bundle round.0 p,
        AllDelivered-cons address sub subs c d c' found round p all,
      )
