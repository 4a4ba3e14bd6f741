-- ===== src/Agent/Manager/Sync/Requests.antt =====
-- Which entries the manager requests new SVIDs for.
use spiffe_spire.Prelude.{
  ℕ, ◌≡◌, refl, sym, subst, All, false≢true, inl, inr, String, Bool, true, false, Option, some,
  List, [], ◌∷◌, arith, ◌==◌, string_comparable, beq→eq, beq_refl, Bool-cases, Option-cases,
  if◌then◌else◌, is_some,
}
use spiffe_spire.Prelude.Action.{ok, return, Call-cases, answer-injective}
use spiffe_spire.Prelude.GoMap.{has, lookup, lookup-insert}
use spiffe_spire.Common.Messages.{RegistrationEntry, Certificate}
use spiffe_spire.Agent.Cache.{Entry}
use spiffe_spire.Agent.Manager.{State, Config, on_world}
use spiffe_spire.Agent.Manager.Sync.{
  EntryRequest, EntryRequests, map_or_empty, add_request, is_expiring, pending, request,
  check_expired,
}

-- There is a request for the entry, under its parent.
abbrev pub Requested : String → String → EntryRequests → Type 0
Requested parent_id entry_id er = has entry_id (map_or_empty (lookup parent_id er)) ≡ true

kept_some :
    (b : Bool) (o o' : Option EntryRequest)
    → is_some o ≡ true
    → is_some o' ≡ true
    → is_some (if b then o' else o) ≡ true
kept_some b o o' h h' = ground arith

add_request-new :
    (r : EntryRequest) (er : EntryRequests)
    → Requested r.entry.registration_entry.parent_id r.entry.registration_entry.entry_id
        (add_request r er)
unfolding add_request
add_request-new r er =
    let re = r.entry.registration_entry in
    rw
      (
        lookup-insert re.parent_id re.parent_id _ er,
        beq_refl re.parent_id,
        lookup-insert re.entry_id re.entry_id r (map_or_empty (lookup re.parent_id er)),
        beq_refl re.entry_id,
      )
      refl

add_request-keeps :
    (r : EntryRequest) (er : EntryRequests) (parent_id entry_id : String)
    → Requested parent_id entry_id er
    → Requested parent_id entry_id (add_request r er)
unfolding add_request
add_request-keeps r er parent_id entry_id h =
    let re = r.entry.registration_entry in
    elim (Bool-cases (re.parent_id == parent_id)) [
      | inr other ↦ rw (lookup-insert re.parent_id parent_id _ er, other) h
      | inl same ↦
          let h' =
            subst (λ p. Requested p entry_id er) (sym (beq→eq re.parent_id parent_id same)) h in
          rw
            (
              lookup-insert re.parent_id parent_id _ er,
              same,
              lookup-insert re.entry_id entry_id r (map_or_empty (lookup re.parent_id er)),
            )
            (kept_some (re.entry_id == entry_id)
              (lookup entry_id (map_or_empty (lookup re.parent_id er))) (some r) h' refl)
    ]

module _ {W : Type 0} (config : Config W) where
  -- A request that succeeds keeps the requests and has the new one.
  request-Requested :
      (re : RegistrationEntry) (er er' : EntryRequests) (s t : State W)
      → request config re er s ≡ (ok er', t)
      → Requested re.parent_id re.entry_id er'
        × ((parent_id entry_id : String)
            → Requested parent_id entry_id er
            → Requested parent_id entry_id er')
  request-Requested re er er' s t e =
      elim (Call-cases (on_world config (config.new_csr re.spiffe_id) s)) [
        | inr (why, u, f) ↦ cc (rw f at e)
        | inl (made, u, f) ↦
            let r : EntryRequest = record { csr = made.1; entry = pending re made.0 } in
            let same = (answer-injective (add_request r er) er' u t (rw f at e)).0 in
            (
              subst (Requested re.parent_id re.entry_id) same (add_request-new r er),
              λ parent_id entry_id h.
                  subst (Requested parent_id entry_id) same
                    (add_request-keeps r er parent_id entry_id h),
            )
      ]

  -- One round of the loop.
  round_lem :
      (soon : Bool) (re : RegistrationEntry) (er er' : EntryRequests) (s t : State W)
      → (if soon then request config re er else return er) s ≡ (ok er', t)
      → (soon ≡ true → Requested re.parent_id re.entry_id er')
        × ((parent_id entry_id : String)
            → Requested parent_id entry_id er
            → Requested parent_id entry_id er')
  round_lem true re er er' s t e = let r = request-Requested re er er' s t e in ((λ h. r.0), r.1)
  round_lem false re er er' s t e =
      let same = (answer-injective er er' s t e).0 in
      (
        (λ h. absurd (false≢true h)),
        λ parent_id entry_id h. subst (Requested parent_id entry_id) same h,
      )

  -- When `checkExpiredCacheEntries` returns without an error, the requests that there were are kept,
  -- every entry has an SVID, and every entry whose SVID has less than half of its lifetime left has
  -- a request under its parent.
  pub check_expired_lem :
      (now : ℕ) (es : List Entry) (er er' : EntryRequests) (s t : State W)
      → check_expired config now es er s ≡ (ok er', t)
      → ((parent_id entry_id : String)
          → Requested parent_id entry_id er
          → Requested parent_id entry_id er')
        × All
            (λ e.
              (svid : Certificate) × (e.svid ≡ some svid)
              × (is_expiring now svid ≡ true
                  → Requested e.registration_entry.parent_id e.registration_entry.entry_id er'))
            es
  unfolding check_expired
  check_expired_lem now [] er er' s t e = (
    (λ parent_id entry_id h.
        subst (Requested parent_id entry_id) (answer-injective er er' s t e).0 h),
    tt,
  )
  check_expired_lem now (x ∷ rest) er er' s t e = elim (Option-cases x.svid) [
    | inl missing ↦ cc (rw missing at e)
    | inr (svid, found) ↦
        let re = x.registration_entry in
        elim (Call-cases ((if is_expiring now svid then request config re er else return er) s)) [
          | inr (why, u, f) ↦ cc (rw (found, f) at e)
          | inl (er1, u, f) ↦
              let (made, kept) = round_lem (is_expiring now svid) re er er1 s u f in
              let (later, all) = check_expired_lem now rest er1 er' u t (rw (found, f) at e) in
              (
                (λ parent_id entry_id h. later parent_id entry_id (kept parent_id entry_id h)),
                ((svid, found, λ soon. later re.parent_id re.entry_id (made soon)), all),
              )
        ]
  ]
