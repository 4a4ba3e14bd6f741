-- ===== src/Server/SqlStore/Entries.antt =====
-- The registration entries of the SQL data store, and their selectors, which are rows of another
-- table.
pub mod Counting
pub mod Matching
pub mod Orphans
use Prim.Native.String.{compare as compare_text}
use Prim.Native.Nat.{Ordering}
use spiffe_spire.Prelude.{
  ℕ, ◌+◌, String, ◌<>◌, Bool, true, false, ◌||◌, ◌&&◌, Option, none, some, List, [], ◌∷◌, ◌++◌, map,
  ◌==◌, nat_comparable, string_comparable, if◌then◌else◌, length, ltb,
}
use spiffe_spire.Prelude.Action.{
  Action, Result, ok, failed, return, fail, lift, ignore, ◌>>=◌, ◌>>◌,
}
use spiffe_spire.Prelude.GoMap.{GoMap, lookup, insert}
use spiffe_spire.Prelude.Int.{ℤ, pos, negsuc}
use spiffe_spire.Common.Messages.{RegistrationEntry}
use spiffe_spire.Common.Selector.{Selector}
use spiffe_spire.Server.Gorm.{Gorm, Table, RegisteredEntry, SelectorRow}
use spiffe_spire.Server.SqlStore.{Plugin, must, transaction}

-- Go's `<` on strings: both orders, by bytes and by characters, are the same in UTF-8.
abbrev pub text_less : String → String → Bool
text_less a b = elim (compare_text a b) [ Ordering.lt ↦ true | _ ↦ false ]

abbrev pub int_less : ℤ → ℤ → Bool
int_less (pos a) (pos b) = ltb a b
int_less (pos a) (negsuc b) = false
int_less (negsuc a) (pos b) = true
int_less (negsuc a) (negsuc b) = ltb b a

-- `Less` compares the number of selectors of `re[i]` with itself.
unfoldable pub less : RegistrationEntry → RegistrationEntry → Bool
less a b =
    text_less a.spiffe_id b.spiffe_id
    || (text_less a.parent_id b.parent_id
        || (int_less a.ttl b.ttl || ltb (length a.selectors) (length a.selectors)))

abbrev pub is_negative : ℤ → Bool
is_negative (pos n) = false
is_negative (negsuc n) = true

unfoldable pub validate_registration_entry : RegistrationEntry → Result Unit
validate_registration_entry entry =
    if length entry.selectors == 0
    then failed "missing selector list"
    else if entry.spiffe_id == ""
    then failed "missing SPIFFE ID"
    else if is_negative entry.ttl
    then failed "TTL is not set"
    else ok tt

abbrev pub checked_entry : Result Unit → Result Unit
checked_entry (ok a) = ok a
checked_entry (failed why) = failed ("Invalid registration entry: " <> why)

abbrev pub selector_of : SelectorRow → Selector
selector_of row = record { type = row.type; value = row.value }

-- The message of an entry, given the rows of its selectors.
abbrev pub message_of : RegisteredEntry → List SelectorRow → RegistrationEntry
message_of row selectors = record {
  selectors = map selector_of selectors;
  parent_id = row.parent_id;
  spiffe_id = row.spiffe_id;
  ttl = row.ttl;
  fb_spiffe_ids = [];
  entry_id = row.entry_id;
}

abbrev pub has_entry_id : String → RegisteredEntry → Bool
has_entry_id entry_id row = row.entry_id == entry_id

abbrev pub has_key : ℕ → RegisteredEntry → Bool
has_key id row = row.id == id

-- `Model(&entry).Related(&selectors)`
abbrev pub of_entry : ℕ → SelectorRow → Bool
of_entry id row = row.registered_entry_id == id

abbrev pub is_selector : Selector → SelectorRow → Bool
is_selector s row = row.type == s.type && row.value == s.value

abbrev pub counted : Option ℕ → ℕ → GoMap ℕ ℕ → GoMap ℕ ℕ
counted (some count) id m = insert id (count + 1) m
counted none id m = insert id 1 m

-- The inner loop of `listMatchingEntries`.
unfoldable pub count_rows : GoMap ℕ ℕ → List SelectorRow → GoMap ℕ ℕ
count_rows m [] = m
count_rows m (r ∷ rest) =
    count_rows (counted (lookup r.registered_entry_id m) r.registered_entry_id m) rest

-- The second loop: the entries that have every selector.
unfoldable pub weed : ℕ → GoMap ℕ ℕ → List ℕ
weed n [] = []
weed n ((id, count) ∷ rest) = let later = weed n rest in if count == n then id ∷ later else later

-- The filter of `ListSelectorEntries`.
unfoldable pub exact : ℕ → List RegistrationEntry → List RegistrationEntry
exact n [] = []
exact n (m ∷ rest) =
    let later = exact n rest in if length m.selectors == n then m ∷ later else later

-- A row of a new selector, of the entry with this key.
abbrev pub new_selector : ℕ → Selector → SelectorRow
new_selector id s = record { id = 0; registered_entry_id = id; type = s.type; value = s.value }

module _ {σ : Type 0} (ds : Plugin σ) where
  unfoldable pub convert_each : List RegisteredEntry → Action σ (List RegistrationEntry)
  convert_each [] = return []
  convert_each (row ∷ rest) = do
    selectors ← ds.db.selectors.find (of_entry row.id)
    later ← convert_each rest
    return (message_of row selectors ∷ later)

  unfoldable pub convert_entries : List RegisteredEntry → Action σ (List RegistrationEntry)
  convert_entries rows = do entries ← convert_each rows; return (ds.sort less entries)

  -- The first loop of `listMatchingEntries`.
  unfoldable pub count_refs : GoMap ℕ ℕ → List Selector → Action σ (GoMap ℕ ℕ)
  count_refs m [] = return m
  count_refs m (s ∷ rest) = do
    results ← ds.db.selectors.find (is_selector s)
    count_refs (count_rows m results) rest

  -- Its last loop.
  unfoldable pub fetch_ids : List ℕ → Action σ (List RegisteredEntry)
  fetch_ids [] = return []
  fetch_ids (id ∷ rest) = do
    found ← ds.db.registered_entries.find_one (has_key id)
    result ← must found
    later ← fetch_ids rest
    return (result ∷ later)

  unfoldable pub matching_entries : List Selector → Action σ (List RegistrationEntry)
  matching_entries selectors = do
    counts ← count_refs [] selectors
    rows ← fetch_ids (weed (length selectors) (ds.range counts))
    convert_entries rows

  unfoldable pub list_matching_entries : List Selector → Action σ (List RegistrationEntry)
  list_matching_entries selectors =
      if ltb (length selectors) 1 then return [] else matching_entries selectors

  unfoldable pub list_selector_entries : List Selector → Action σ (List RegistrationEntry)
  list_selector_entries selectors =
      if ltb (length selectors) 1
      then return []
      else do matches ← matching_entries selectors; return (exact (length selectors) matches)

  unfoldable pub list_parent_id_entries : String → Action σ (List RegistrationEntry)
  list_parent_id_entries parent_id = do
    rows ← ds.db.registered_entries.find (λ r. r.parent_id == parent_id)
    convert_entries rows

  unfoldable pub list_spiffe_entries : String → Action σ (List RegistrationEntry)
  list_spiffe_entries spiffe_id = do
    rows ← ds.db.registered_entries.find (λ r. r.spiffe_id == spiffe_id)
    convert_entries rows

  -- The loop of `FetchRegistrationEntries` gives selectors to copies of the entries alone, so what
  -- it does is not seen.
  unfoldable pub fetch_registration_entries : Action σ (List RegistrationEntry)
  fetch_registration_entries = do
    entries ← ds.db.registered_entries.find (λ r. true)
    ds.db.selectors.find (λ r. true)
    convert_entries entries

  -- The error of this query is passed over.
  abbrev pub or_none : Result (List SelectorRow) × σ → Result (List SelectorRow) × σ
  or_none (ok rows, s) = (ok rows, s)
  or_none (failed why, s) = (ok [], s)

  abbrev pub fetched : Option RegisteredEntry → Action σ (Option RegistrationEntry)
  fetched none s = (ok none, s)
  fetched (some row) s =
      (do
        selectors ← λ t. or_none (ds.db.selectors.find (of_entry row.id) t)
        return (some (message_of row selectors)))
        s

  unfoldable pub fetch_registration_entry : String → Action σ (Option RegistrationEntry)
  fetch_registration_entry entry_id = do
    row ← ds.db.registered_entries.find_one (has_entry_id entry_id)
    fetched row

  -- The loop of `CreateRegistrationEntry` over the selectors.
  unfoldable pub create_selectors : ℕ → List Selector → Action σ Unit
  create_selectors id [] = return tt
  create_selectors id (s ∷ rest) = do
    ds.db.selectors.create (new_selector id s)
    create_selectors id rest

  unfoldable pub create_rows : String → RegistrationEntry → Action σ String
  create_rows entry_id entry = do
    row ← ds.db.registered_entries.create (record {
      id = 0;
      entry_id = entry_id;
      spiffe_id = entry.spiffe_id;
      parent_id = entry.parent_id;
      ttl = entry.ttl;
      selectors = [];
    })
    create_selectors row.id entry.selectors
    return row.entry_id

  abbrev pub create_valid : Option RegistrationEntry → Action σ String
  create_valid none = fail "Invalid request: missing registered entry"
  create_valid (some entry) = do
    lift (checked_entry (validate_registration_entry entry))
    entry_id ← ds.new_uuid
    transaction ds.db (create_rows entry_id entry)

  unfoldable pub create_registration_entry : Option RegistrationEntry → Action σ String
  create_registration_entry entry = create_valid entry

  unfoldable pub update_rows : String → RegistrationEntry → Action σ RegistrationEntry
  update_rows entry_id asked = do
    found ← ds.db.registered_entries.find_one (has_entry_id entry_id)
    entry ← must found
    ds.db.selectors.exec_delete (of_entry entry.id)
    ds.db.registered_entries.save (record entry {
      spiffe_id = asked.spiffe_id;
      parent_id = asked.parent_id;
      ttl = asked.ttl;
      selectors = map (new_selector 0) asked.selectors;
    })
    return (record asked { entry_id = entry.entry_id })

  abbrev pub update_valid : String → Option RegistrationEntry → Action σ RegistrationEntry
  update_valid entry_id none = fail "No registration entry provided"
  update_valid entry_id (some asked) = do
    lift (checked_entry (validate_registration_entry asked))
    transaction ds.db (update_rows entry_id asked)

  unfoldable pub update_registration_entry :
      String → Option RegistrationEntry → Action σ RegistrationEntry
  update_registration_entry entry_id asked = update_valid entry_id asked

  -- `respEntry[0]`
  abbrev pub first_entry : List RegistrationEntry → Action σ RegistrationEntry
  first_entry [] = fail "index out of range"
  first_entry (e ∷ rest) = return e

  unfoldable pub delete_registration_entry : String → Action σ RegistrationEntry
  delete_registration_entry entry_id = do
    found ← ds.db.registered_entries.find_one (has_entry_id entry_id)
    entry ← must found
    ds.db.registered_entries.delete entry.id
    entries ← convert_entries (entry ∷ [])
    first_entry entries
