-- ===== src/Agent/Subscribers/Dedupe.antt =====
-- `dedupe` of subscriber.go: the same ids, each once.
use mathlib.Core.List.Memᴰ
use spiffe_spire.Prelude.{
  ℕ, ◌≡◌, refl, ◌⊎◌, inl, inr, Bool, true, List, [], ◌∷◌, Memᴰ, arith, nat_comparable, beq_refl,
  IsNodup,
}
use spiffe_spire.Prelude.GoMap.{
  GoMap, keys, has, insert, lookup-insert, mem-keys_has, keys-insert-IsNodup, keys-insert-mem,
}
use spiffe_spire.Agent.Subscribers.{dedupe, mark_all}

mark_all-keeps :
    (ids : List ℕ) (m : GoMap ℕ Bool) (x : ℕ) → has x m ≡ true → Memᴰ x (keys (mark_all ids m))
unfolding mark_all
mark_all-keeps [] m x h = mem-keys_has x m h
mark_all-keeps (id ∷ ids) m x h =
    mark_all-keeps ids (insert id true m) x (rw (lookup-insert id x true m) (ground arith))

mark_all-adds :
    (ids : List ℕ) (m : GoMap ℕ Bool) (x : ℕ) → Memᴰ x ids → Memᴰ x (keys (mark_all ids m))
unfolding mark_all
mark_all-adds [] m x h = absurd (Memᴰ.not-nil h)
mark_all-adds (id ∷ ids) m x (Memᴰ.head e) =
    mark_all-keeps ids (insert id true m) x (rw (lookup-insert id x true m, e, beq_refl id) refl)
mark_all-adds (id ∷ ids) m x (Memᴰ.tail h) = mark_all-adds ids (insert id true m) x h

pub mem-dedupe : (ids : List ℕ) (x : ℕ) → Memᴰ x ids → Memᴰ x (dedupe ids)
unfolding dedupe
mem-dedupe ids x h = mark_all-adds ids [] x h

mark_all-only :
    (ids : List ℕ) (m : GoMap ℕ Bool) (x : ℕ)
    → Memᴰ x (keys (mark_all ids m))
    → Memᴰ x ids ⊎ Memᴰ x (keys m)
unfolding mark_all
mark_all-only [] m x h = inr h
mark_all-only (id ∷ ids) m x h = elim (mark_all-only ids (insert id true m) x h) [
  | inl later ↦ inl (Memᴰ.tail later)
  | inr old ↦ elim (keys-insert-mem id x true m old) [
    | inl here ↦ inl (Memᴰ.head here)
    | inr older ↦ inr older
  ]
]

pub dedupe-mem : (ids : List ℕ) (x : ℕ) → Memᴰ x (dedupe ids) → Memᴰ x ids
unfolding dedupe
dedupe-mem ids x h = elim (mark_all-only ids [] x h) [ inl m ↦ m | inr m ↦ absurd (Memᴰ.not-nil m) ]

mark_all-IsNodup :
    (ids : List ℕ) (m : GoMap ℕ Bool) → IsNodup (keys m) → IsNodup (keys (mark_all ids m))
unfolding mark_all
mark_all-IsNodup [] m d = d
mark_all-IsNodup (id ∷ ids) m d =
    mark_all-IsNodup ids (insert id true m) (keys-insert-IsNodup id true m d)

pub dedupe-IsNodup : (ids : List ℕ) → IsNodup (dedupe ids)
unfolding dedupe
dedupe-IsNodup ids = mark_all-IsNodup ids [] tt
