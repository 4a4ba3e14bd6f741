-- ===== src/Server/Node/Updates.antt =====
-- pkg/server/endpoints/node/handler.go: what the node API sends an agent, in FetchSVID and at the end
-- of FetchBaseSVID, with the lookup of the registration entries of a node.
-- `slice_sort` is sort.Slice. A set of 63 selectors or more, whose power set Go leaves open, is a
-- failure here. reflect.DeepEqual is the comparison of all fields; it tells a nil slice from an empty
-- one, which a message from the store has no way to.
pub mod Comparison
pub mod Joining
pub mod Shared
use Prim.Native.String.{compare as compare_text}
use Prim.Native.Nat.{Ordering}
use spiffe_spire.Prelude.{
  ℕ, String, Bool, true, false, not, ◌||◌, ◌&&◌, Option, none, some, List, [], ◌∷◌, ◌++◌, map, ◌==◌,
  nat_comparable, string_comparable, if◌then◌else◌,
}
use spiffe_spire.Prelude.Action.{
  Action, Result, ok, failed, return, fail, lift, or_error, ◌>>=◌, ◌>>◌,
}
use spiffe_spire.Prelude.Int.{ℤ, pos, negsuc}
use spiffe_spire.Prelude.GoMap.{GoMap, insert}
use spiffe_spire.Common.Selector.{Selector, Set, selector_comparable, raw, new_set_from_raw}
use spiffe_spire.Common.Selector.Power.{power_set}
use spiffe_spire.Common.Messages.{RegistrationEntry}
use spiffe_spire.Server.Node.{Handler, Peer, Svid, sign_csrs, get_stored_selectors, get_bundle}

-- `SelectorsSortFunction` of pkg/common/util/sort.go
unfoldable pub selectors_less : Selector → Selector → Bool
selectors_less a b =
    if not (a.type == b.type)
    then is_less (compare_text a.type b.type)
    else is_less (compare_text a.value b.value)
  where
    is_less : Ordering → Bool
    is_less Ordering.lt = true
    is_less Ordering.eq = false
    is_less Ordering.gt = false

abbrev pub same_int : ℤ → ℤ → Bool
same_int (pos a) (pos b) = a == b
same_int (negsuc a) (negsuc b) = a == b
same_int (pos a) (negsuc b) = false
same_int (negsuc a) (pos b) = false

unfoldable pub same_selectors : List Selector → List Selector → Bool
same_selectors [] [] = true
same_selectors [] (y ∷ ys) = false
same_selectors (x ∷ xs) [] = false
same_selectors (x ∷ xs) (y ∷ ys) = x == y && same_selectors xs ys

unfoldable pub same_texts : List String → List String → Bool
same_texts [] [] = true
same_texts [] (y ∷ ys) = false
same_texts (x ∷ xs) [] = false
same_texts (x ∷ xs) (y ∷ ys) = x == y && same_texts xs ys

-- `reflect.DeepEqual` on registration entries
unfoldable pub deep_equal : RegistrationEntry → RegistrationEntry → Bool
deep_equal a b =
    same_selectors a.selectors b.selectors
    && (a.parent_id == b.parent_id
        && (a.spiffe_id == b.spiffe_id
            && (same_int a.ttl b.ttl
                && (same_texts a.fb_spiffe_ids b.fb_spiffe_ids && a.entry_id == b.entry_id))))

-- The inner loop over the entries that were found by selectors.
unfoldable pub exists_equal : RegistrationEntry → List RegistrationEntry → Bool
exists_equal entry [] = false
exists_equal entry (old ∷ rest) = deep_equal entry old || exists_equal entry rest

pub record SvidUpdate : Type 0 where
  pub svids : GoMap String Svid
  pub bundle : List ℕ
  pub registration_entries : List RegistrationEntry

module _ (slice_sort : (Selector → Selector → Bool) → List Selector → List Selector) where
  unfoldable pub sort_entry : RegistrationEntry → RegistrationEntry
  sort_entry entry = record entry { selectors = slice_sort selectors_less entry.selectors }

  -- The loop over the entries whose parent is the node; `old` are the entries that were found by
  -- selectors, with their selectors sorted.
  unfoldable pub append_parents :
      List RegistrationEntry
      → List RegistrationEntry
      → List RegistrationEntry
      → List RegistrationEntry
  append_parents old entries [] = entries
  append_parents old entries (entry ∷ rest) =
      append_parents old
        (if exists_equal (sort_entry entry) old then entries else entries ++ sort_entry entry ∷ [])
        rest

  -- The loop sorts the selectors of the entries found before in place, so not without any round.
  unfoldable pub join_parents :
      List RegistrationEntry → List RegistrationEntry → List RegistrationEntry
  join_parents found [] = found
  join_parents found (entry ∷ rest) =
      append_parents (map sort_entry found) (map sort_entry found) (entry ∷ rest)

  module _ {σ : Type 0} (h : Handler σ) where
    -- The loop over the combinations of selectors.
    unfoldable pub list_combinations : List Set → Action σ (List RegistrationEntry)
    list_combinations [] = return []
    list_combinations (combination ∷ rest) = do
      found ← h.ds.list_matching_entries (raw combination)
      later ← list_combinations rest
      return (found ++ later)

    abbrev pub entries_for : Option (List Set) → String → Action σ (List RegistrationEntry)
    entries_for none spiffe_id = fail "power set of too many selectors"
    entries_for (some combinations) spiffe_id = do
      found ← list_combinations combinations
      parents ← h.ds.list_parent_id_entries spiffe_id
      return (join_parents found parents)

    -- `fetchRegistrationEntries`
    unfoldable pub fetch_entries : List Selector → String → Action σ (List RegistrationEntry)
    fetch_entries selectors spiffe_id =
        entries_for (power_set (new_set_from_raw 0 selectors)) spiffe_id

    -- One round of `FetchSVID`, for the peer whose certificate has the caller's id as its first URI.
    unfoldable pub fetch_svid : Peer → List (List ℕ) → Action σ SvidUpdate
    fetch_svid peer csrs = do
      selectors ←
          or_error "Error trying to get stored selectors" (get_stored_selectors h peer.caller_id)
      entries ←
          or_error "Error trying to get registration entries"
            (fetch_entries selectors peer.caller_id)
      svids ← or_error "Error trying sign CSRs" (sign_csrs h peer csrs entries)
      bundle ← or_error "Error retreiving bundle" (get_bundle h)
      return (record { svids = svids; bundle = bundle; registration_entries = entries })

    abbrev pub sent :
        Result SvidUpdate × σ
        → (σ → List SvidUpdate × Result Unit × σ)
        → List SvidUpdate × Result Unit × σ
    sent (failed why, t) go_on = ([], failed why, t)
    sent (ok update, t) go_on = let r = go_on t in (update ∷ r.0, r.1, r.2)

    -- `FetchSVID` on the requests of a stream, up to its end or the first failure, with the updates
    -- that it sends. An error of sending is logged alone.
    unfoldable pub fetch_svid_stream :
        Peer → List (List (List ℕ)) → σ → List SvidUpdate × Result Unit × σ
    fetch_svid_stream peer [] s = ([], ok tt, s)
    fetch_svid_stream peer (csrs ∷ rest) s =
        sent (fetch_svid peer csrs s) (fetch_svid_stream peer rest)

    -- `getFetchBaseSVIDResponse`
    unfoldable pub get_fetch_base_svid_response :
        String → List ℕ → List Selector → Action σ SvidUpdate
    get_fetch_base_svid_response base_spiffe_id base_svid selectors = do
      cert ← lift (h.parse_certificate base_svid)
      let svid : Svid = record { svid_cert = cert.raw; ttl = h.remaining cert }
      entries ← fetch_entries selectors base_spiffe_id
      bundle ← get_bundle h
      return (record {
        svids = insert base_spiffe_id svid [];
        bundle = bundle;
        registration_entries = entries;
      })
