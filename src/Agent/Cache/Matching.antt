-- ===== src/Agent/Cache/Matching.antt =====
-- Which entries a list of selectors gets: those whose selectors are all among them
-- (`subscriberEntries` of cache.go, and `MatchingEntries` of pkg/agent/manager/manager.go).
use mathlib.Core.List.Memᴰ
use spiffe_spire.Prelude.{◌≡◌, ◌↔◌, inl, inr, true, List, [], ◌∷◌, Memᴰ, Bool-cases}
use spiffe_spire.Common.Selector.{Selector, new_set_from_raw, includes_set}
use spiffe_spire.Common.Selector.Members.{has-new_set_from_raw, new_set_from_raw-IsWellFormed}
use spiffe_spire.Common.Selector.Inclusion.{Includes, includes_set_iff}
use spiffe_spire.Agent.Cache.{Entry, matches, subscriber_entries}

-- Every selector of the entry is one of `sel`.
abbrev pub Wants : List Selector → Entry → Type 0
Wants sel e = (k : Selector) → Memᴰ k e.registration_entry.selectors → Memᴰ k sel

-- The test by sets decides this inclusion of lists.
pub matches_iff : (sel : List Selector) (e : Entry) → (matches sel e ≡ true) ↔ Wants sel e
unfolding matches
matches_iff sel e = (
  λ h k m.
      (has-new_set_from_raw 0 sel k).0
        (inclusion.0 h k ((has-new_set_from_raw 0 e.registration_entry.selectors k).1 m)),
  λ h. inclusion.1 λ k m.
      (has-new_set_from_raw 0 sel k).1
        (h k ((has-new_set_from_raw 0 e.registration_entry.selectors k).0 m)),
)
  where
    inclusion :
        (includes_set (new_set_from_raw 0 sel) (new_set_from_raw 0 e.registration_entry.selectors)
          ≡ true)
        ↔ Includes (new_set_from_raw 0 sel) (new_set_from_raw 0 e.registration_entry.selectors)
    inclusion =
        includes_set_iff (new_set_from_raw 0 sel)
          (new_set_from_raw 0 e.registration_entry.selectors) (new_set_from_raw-IsWellFormed 0 sel)
          (new_set_from_raw-IsWellFormed 0 e.registration_entry.selectors)

subscriber_entries-mem :
    (sel : List Selector) (es : List Entry) (e : Entry)
    → Memᴰ e (subscriber_entries sel es)
    → Memᴰ e es × Wants sel e
unfolding subscriber_entries
subscriber_entries-mem sel [] e m = absurd (Memᴰ.not-nil m)
subscriber_entries-mem sel (x ∷ es) e m = elim (Bool-cases (matches sel x)) [
  | inl hit ↦ elim (Memᴰ.cases_cons (rw hit at m)) [
    | inl p ↦ (Memᴰ.head p, rw p ((matches_iff sel x).0 hit))
    | inr m' ↦ let r = subscriber_entries-mem sel es e m' in (Memᴰ.tail r.0, r.1)
  ]
  | inr miss ↦ let r = subscriber_entries-mem sel es e (rw miss at m) in (Memᴰ.tail r.0, r.1)
]

mem-subscriber_entries :
    (sel : List Selector) (es : List Entry) (e : Entry)
    → Memᴰ e es
    → Wants sel e
    → Memᴰ e (subscriber_entries sel es)
unfolding subscriber_entries
mem-subscriber_entries sel [] e m h = m
mem-subscriber_entries sel (x ∷ es) e (Memᴰ.head p) h =
    rw ((matches_iff sel x).1 (rw p at h)) (Memᴰ.head p)
mem-subscriber_entries sel (x ∷ es) e (Memᴰ.tail m) h = elim (Bool-cases (matches sel x)) [
  | inl hit ↦ rw hit (Memᴰ.tail (mem-subscriber_entries sel es e m h))
  | inr miss ↦ rw miss (mem-subscriber_entries sel es e m h)
]

-- `subscriberEntries` returns the entries all of whose selectors are among those of the subscriber,
-- and no others.
pub subscriber_entries_iff :
    (sel : List Selector) (es : List Entry) (e : Entry)
    → Memᴰ e (subscriber_entries sel es) ↔ (Memᴰ e es × Wants sel e)
subscriber_entries_iff sel es e =
    (subscriber_entries-mem sel es e, λ h. mem-subscriber_entries sel es e h.0 h.1)
