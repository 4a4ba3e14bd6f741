-- ===== src/Agent/Manager/Matching.antt =====
-- What `MatchingEntries` of the manager answers.
use spiffe_spire.Prelude.{◌≡◌, refl, List, [], ◌∷◌}
use spiffe_spire.Common.Selector.{Selector}
use spiffe_spire.Agent.Cache.{Entry, matches, subscriber_entries}
use spiffe_spire.Agent.Manager.{matching_entries}

-- A caller of `MatchingEntries` gets, in the same order, just what a subscription with the same
-- selectors delivers.
pub matching_entries-subscriber_entries :
    (selectors : List Selector) (es : List Entry)
    → matching_entries selectors es ≡ subscriber_entries selectors es
unfolding matching_entries subscriber_entries matches
matching_entries-subscriber_entries selectors [] = refl
matching_entries-subscriber_entries selectors (e ∷ rest) =
    rw (matching_entries-subscriber_entries selectors rest) refl
