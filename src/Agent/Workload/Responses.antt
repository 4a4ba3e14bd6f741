-- ===== src/Agent/Workload/Responses.antt =====
-- What a workload is sent.
use spiffe_spire.Prelude.{
  ℕ, ◌≡◌, refl, subst, inl, inr, ◌∙◌, false, some, List, [], ◌∷◌, Bool-cases, Option-cases, ◌==◌,
  nat_comparable, length,
}
use spiffe_spire.Prelude.Action.{Result, ok, ok-injective, Result-cases}
use spiffe_spire.Common.Messages.{Certificate}
use spiffe_spire.Agent.Cache.{Entry, WorkloadUpdate}
use spiffe_spire.Agent.Workload.{X509Svid, bundle_bytes, compose, compose_response, send_response}

-- The SVIDs are those of the entries, one for each, in their order, with the key of the entry and the
-- bundle of the update.
abbrev pub Sent : (ℕ → Result (List ℕ)) → List ℕ → List Entry → List X509Svid → Type 0
Sent marshal_key bundle [] [] = Unit
Sent marshal_key bundle [] (x ∷ svids) = ⊥
Sent marshal_key bundle (e ∷ es) [] = ⊥
Sent marshal_key bundle (e ∷ es) (x ∷ svids) =
    (x.spiffe_id ≡ e.registration_entry.spiffe_id)
    × ((svid : Certificate) × (e.svid ≡ some svid) × (x.x509_svid ≡ svid.raw))
    × (marshal_key e.private_key ≡ ok x.x509_svid_key)
    × (x.bundle ≡ bundle)
    × Sent marshal_key bundle es svids

module _ (marshal_key : ℕ → Result (List ℕ)) where
  compose-Sent :
      (bundle : List ℕ) (es : List Entry) (svids : List X509Svid)
      → compose marshal_key bundle es ≡ ok svids
      → Sent marshal_key bundle es svids
  unfolding compose
  compose-Sent bundle [] [] h = tt
  compose-Sent bundle [] (x ∷ svids) h = cc h
  compose-Sent bundle (e ∷ es) svids h = elim (Result-cases (marshal_key e.private_key)) [
    | inr (why, f) ↦ cc (rw f at h)
    | inl (key, f) ↦ elim (Option-cases e.svid) [
      | inl missing ↦ cc (rw (f, missing) at h)
      | inr (svid, g) ↦ elim (Result-cases (compose marshal_key bundle es)) [
        | inr (why, k) ↦ cc (rw (f, g, k) at h)
        | inl (rest, k) ↦
            let x : X509Svid = record {
              spiffe_id = e.registration_entry.spiffe_id;
              x509_svid = svid.raw;
              x509_svid_key = key;
              bundle = bundle;
            } in
            subst (Sent marshal_key bundle (e ∷ es))
              (ok-injective (x ∷ rest) svids (rw (f, g, k) at h))
              (refl, (svid, g, refl), f, refl, compose-Sent bundle es rest k)
      ]
    ]
  ]

  -- When a workload is sent SVIDs, there was at least one entry, and they are those of the entries,
  -- one for each, in their order, with the key of the entry and the bundle of the update.
  pub send_response-Sent :
      (update : WorkloadUpdate) (svids : List X509Svid)
      → send_response marshal_key update ≡ ok svids
      → ((length update.entries == 0) ≡ false)
        × Sent marshal_key (bundle_bytes update.bundle) update.entries svids
  unfolding send_response compose_response
  send_response-Sent update svids h = elim (Bool-cases (length update.entries == 0)) [
    | inl no_entry ↦ cc (rw no_entry at h)
    | inr some_entry ↦
        elim (Result-cases (compose marshal_key (bundle_bytes update.bundle) update.entries)) [
          | inr (why, e) ↦ cc (rw (some_entry, e) at h)
          | inl (done, e) ↦ (
            some_entry,
            compose-Sent (bundle_bytes update.bundle) update.entries svids
                (e ∙ rw (some_entry, e) at h),
          )
        ]
  ]
